-- ===== src/LoopCheck/Walk.antt =====
-- Edges, walks and cycles of the dependency graph, independent of the search.
use digital_circuit_simulati.Prelude.{
  ℕ, zero, suc, ◌<◌, ◌≡◌, refl, ap, some, List, [], ◌∷◌, ◌++◌, arith,
}
use digital_circuit_simulati.Prelude.{length, get_elem?}
use digital_circuit_simulati.LoopCheck.{Graph, targets, drop_last, last_or}

-- `adj[u]` lists `v`.
abbrev pub Edge : Graph → ℕ → ℕ → Type 0
Edge g u v = (i : ℕ) × (get_elem? (targets g u) i ≡ some v)

-- Every successor is a net of the circuit.
abbrev pub IsClosed : Graph → Type 0
IsClosed g = (u v : ℕ) → Edge g u v → v < length g

-- A walk of at least one edge.
pub data Reach (g : Graph) : ℕ → ℕ → Type 0 where
  edge : {u v : ℕ} → Edge g u v → Reach g u v
  next : {u v w : ℕ} → Edge g u v → Reach g v w → Reach g u w

-- Consecutive entries are joined by edges.
abbrev pub IsWalk : Graph → List ℕ → Type 0
IsWalk g [] = Unit
IsWalk g (x ∷ []) = Unit
IsWalk g (x ∷ y ∷ rest) = Edge g x y × IsWalk g (y ∷ rest)

pub Edge-source-lt : (g : Graph) (u v : ℕ) → Edge g u v → u < length g
Edge-source-lt g u v (i, e) = source g u i e
  where
    source : (g : Graph) (u i : ℕ) → get_elem? (targets g u) i ≡ some v → u < length g
    source [] u i e = cc
    source (ts ∷ g) zero i e = omega arith
    source (ts ∷ g) (suc u) i e = omega (arith, source g u i e)

pub IsWalk-snoc :
    (g : Graph) (p : List ℕ) (u v : ℕ)
    → IsWalk g (p ++ u ∷ [])
    → Edge g u v
    → IsWalk g ((p ++ u ∷ []) ++ v ∷ [])
IsWalk-snoc g [] u v h e = (e, tt)
IsWalk-snoc g (x ∷ []) u v h e = (h.0, (e, tt))
IsWalk-snoc g (x ∷ y ∷ p) u v h e = (h.0, IsWalk-snoc g (y ∷ p) u v h.1 e)

pub IsWalk-init : (g : Graph) (p : List ℕ) (u : ℕ) → IsWalk g (p ++ u ∷ []) → IsWalk g p
IsWalk-init g [] u h = tt
IsWalk-init g (x ∷ []) u h = tt
IsWalk-init g (x ∷ y ∷ p) u h = (h.0, IsWalk-init g (y ∷ p) u h.1)

pub drop_last-snoc : (p : List ℕ) (u : ℕ) → drop_last (p ++ u ∷ []) ≡ p
drop_last-snoc [] u = refl
drop_last-snoc (x ∷ []) u = refl
drop_last-snoc (x ∷ y ∷ p) u = ap (λ t. x ∷ t) (drop_last-snoc (y ∷ p) u)

pub last_or-snoc : (p : List ℕ) (u d : ℕ) → last_or (p ++ u ∷ []) d ≡ u
last_or-snoc [] u d = refl
last_or-snoc (x ∷ p) u d = last_or-snoc p u x

pub Reach_source-lt : (g : Graph) {u v : ℕ} → Reach g u v → u < length g
Reach_source-lt g {u} {v} (edge e) = Edge-source-lt g u v e
Reach_source-lt g {u} (next {v} e r) = Edge-source-lt g u v e
