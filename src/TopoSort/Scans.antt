-- ===== src/TopoSort/Scans.antt =====
-- The two scans over the degrees: which positions start in the queue, and which are left over.
use digital_circuit_simulati.Prelude.{
  ℕ, suc, ◌+◌, ◌-◌, ◌≤◌, ◌<◌, ◌≡◌, ap, ◌↔◌, ◌⊎◌, inl, true, List, [], ◌∷◌, arith,
}
use digital_circuit_simulati.Prelude.{length, get_or, ◌==◌, if◌then◌else◌}
use digital_circuit_simulati.TopoSort.{sources, leftovers}
use digital_circuit_simulati.TopoSort.Degrees.{elem, Distinct}

get_or_first : (d : ℕ) (ds : List ℕ) (i v : ℕ) → v ≡ i → get_or (d ∷ ds) (v - i) 0 ≡ d
get_or_first d ds i v e = let start : v - i ≡ 0 = omega arith in ap (λ t. get_or (d ∷ ds) t 0) start

get_or_later :
    (d : ℕ) (ds : List ℕ) (i v : ℕ) → i < v → get_or (d ∷ ds) (v - i) 0 ≡ get_or ds (v - (i + 1)) 0
get_or_later d ds i v e =
    let step : v - i ≡ suc (v - (i + 1)) = omega arith in ap (λ t. get_or (d ∷ ds) t 0) step

pub elem-sources :
    (i : ℕ) (indeg q : List ℕ) (v : ℕ)
    → (elem v (sources i indeg q) ≡ true)
      ↔ ((elem v q ≡ true) ⊎ (i ≤ v) × (v < i + length indeg) × (get_or indeg (v - i) 0 ≡ 0))
unfolding sources
elem-sources i [] q v = (inl, λ h. ground arith)
elem-sources i (d ∷ ds) q v = ground (
  arith,
  elem-sources (i + 1) ds (if d == 0 then i ∷ q else q) v,
  get_or_first d ds i v,
  get_or_later d ds i v,
)

pub Distinct-sources :
    (i : ℕ) (indeg q : List ℕ)
    → ((v : ℕ) → elem v q ≡ true → v < i)
    → Distinct q
    → Distinct (sources i indeg q)
unfolding sources
Distinct-sources i [] q below h = h
Distinct-sources i (d ∷ ds) q below h =
    Distinct-sources (i + 1) ds (if d == 0 then i ∷ q else q) (λ v m. ground (arith, below v))
      (ground (arith, below i))

pub elem-leftovers :
    (i : ℕ) (indeg : List ℕ) (v : ℕ)
    → (elem v (leftovers i indeg) ≡ true)
      ↔ ((i ≤ v) × (v < i + length indeg) × (0 < get_or indeg (v - i) 0))
unfolding leftovers
elem-leftovers i [] v = (λ h. cc, λ h. absurd (omega arith))
elem-leftovers i (d ∷ ds) v =
    ground (arith, elem-leftovers (i + 1) ds v, get_or_first d ds i v, get_or_later d ds i v)
