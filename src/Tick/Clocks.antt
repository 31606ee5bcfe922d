-- ===== src/Tick/Clocks.antt =====
-- The joint order of the components and the clock sources.
use digital_circuit_simulati.Prelude.{
  ℕ, ◌<◌, ◌≡◌, refl, subst, inl, inr, true, false, ◌||◌, some, List, [], ◌∷◌, ◌++◌, arith,
}
use digital_circuit_simulati.Prelude.{length, ◌==◌, Bool-cases}
use digital_circuit_simulati.TopoSort.{TopoResult}
use digital_circuit_simulati.TopoSort.Degrees.{elem}
use digital_circuit_simulati.TopoSort.Result.{IsTopological, topo_order_sorts}
use digital_circuit_simulati.Tick.{
  Source, nodes_of, is_clock_at, any_clock, Order, sorted, clock_loop, topological_sort_with_clocks,
}

elem-append : (v : ℕ) (xs ys : List ℕ) → elem v (xs ++ ys) ≡ elem v xs || elem v ys
elem-append v [] ys = refl
elem-append v (x ∷ xs) ys = ground (arith, elem-append v xs ys)

clock_among :
    (ss : List Source) (vs : List ℕ)
    → any_clock ss vs ≡ true
    → (v : ℕ) × (elem v vs ≡ true) × (is_clock_at ss v ≡ true)
unfolding any_clock
clock_among ss [] h = cc
clock_among ss (x ∷ vs) h = elim (Bool-cases (is_clock_at ss x)) [
  | inl here ↦ (x, ground arith, here)
  | inr not_here ↦ let (v, m, c) = clock_among ss vs (ground arith) in (v, ground arith, c)
]

no_clock :
    (ss : List Source) (vs : List ℕ)
    → any_clock ss vs ≡ false
    → (v : ℕ) → elem v vs ≡ true
    → is_clock_at ss v ≡ false
unfolding any_clock
no_clock ss [] h v m = cc
no_clock ss (x ∷ vs) h v m = elim (Bool-cases (x == v)) [
  | inl same ↦
      let e : x ≡ v = ground arith in subst (λ t. is_clock_at ss t ≡ false) e (ground arith)
  | inr other ↦ no_clock ss vs (ground arith) v (ground arith)
]

-- What the joint sort may return.
pub data Outcome (ss : List Source) (r : TopoResult) : Order → Type 0 where
  ordered :
      ((v : ℕ) → elem v r.left ≡ true → is_clock_at ss v ≡ false)
      → ((v : ℕ) → v < length (nodes_of ss) → elem v (r.order ++ r.left) ≡ true)
      → Outcome ss r (sorted (r.order ++ r.left))
  refused : (v : ℕ) → elem v r.left ≡ true → is_clock_at ss v ≡ true → Outcome ss r clock_loop

-- The joint sort always ends. It throws only if a clock source is among the components that no
-- order can place, and otherwise returns all components: those of the order, each behind the others
-- that are the last to write a net which it reads, and then the rest, none of them a clock source.
pub sort_with_clocks-Outcome :
    (comb clock_sources : List Source)
    → (r : TopoResult) × (o : Order) × (topological_sort_with_clocks comb clock_sources ≡ some o)
      × IsTopological (nodes_of (comb ++ clock_sources)) r
      × Outcome (comb ++ clock_sources) r o
unfolding topological_sort_with_clocks
sort_with_clocks-Outcome comb clock_sources =
    let ss = comb ++ clock_sources in
    let (r, e, t) = topo_order_sorts (nodes_of ss) in
    elim (Bool-cases (any_clock ss r.left)) [
      | inl loop ↦
          let (v, m, c) = clock_among ss r.left loop in
          (r, clock_loop, rw (e, loop, topological_sort_with_clocks) refl, t, refused v m c)
      | inr fine ↦ (
        r,
        sorted (r.order ++ r.left),
        rw (e, fine, topological_sort_with_clocks) refl,
        t,
        ordered (no_clock ss r.left fine) (all_there ss r t),
      )
    ]
  where
    all_there :
        (ss : List Source) (r : TopoResult)
        → IsTopological (nodes_of ss) r
        → (v : ℕ) → v < length (nodes_of ss)
        → elem v (r.order ++ r.left) ≡ true
    all_there ss r t v lt = elim (Bool-cases (elem v r.order)) [
      | inl placed ↦ ground (arith, elem-append v r.order r.left)
      | inr out ↦ let rest = t.covered v lt out in ground (arith, elem-append v r.order r.left)
    ]
