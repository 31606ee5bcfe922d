-- ===== src/TopoSort/Result.antt =====
-- The order that `topo_order` returns.
use digital_circuit_simulati.Prelude.{
  ℕ, zero, suc, ◌-◌, ◌<◌, ◌≡◌, refl, ap, ◌↔◌, inl, inr, true, false, some, List, [], ◌∷◌, ◌++◌,
  arith,
}
use digital_circuit_simulati.Prelude.{length, get_or, Bool-cases}
use digital_circuit_simulati.LoopCheck.Walk.{IsClosed}
use digital_circuit_simulati.TopoSort.{Node, TopoResult, build, sources, leftovers, topo_order}
use digital_circuit_simulati.TopoSort.Degrees.{elem, Distinct, remaining, remaining_pos}
use digital_circuit_simulati.TopoSort.Edges.{Edge-iff, build-IsBuilt}
use digital_circuit_simulati.TopoSort.Drivers.{Drives, build-Drives}
use digital_circuit_simulati.TopoSort.Scans.{elem-sources, Distinct-sources, elem-leftovers}
use digital_circuit_simulati.TopoSort.Order.{State, Sorted, Respects, kahn-Sorted, unplaced-nil}

-- Each component of the list stands behind all the components that drive it.
abbrev pub DrivenFirst : List Node → List ℕ → List ℕ → Type 0
DrivenFirst nodes seen [] = Unit
DrivenFirst nodes seen (b ∷ rest) =
    ((a : ℕ) → Drives nodes a b → elem a seen ≡ true) × DrivenFirst nodes (seen ++ b ∷ []) rest

Respects-DrivenFirst :
    (nodes : List Node) (seen order : List ℕ)
    → Respects (build nodes).adj seen order
    → DrivenFirst nodes seen order
Respects-DrivenFirst nodes seen [] h = tt
Respects-DrivenFirst nodes seen (b ∷ rest) h = (
  λ a d. h.0 a ((build-Drives nodes a b).1 d),
  Respects-DrivenFirst nodes (seen ++ b ∷ []) rest h.1,
)

get_or_unshifted : (ds : List ℕ) (v : ℕ) → get_or ds (v - 0) 0 ≡ get_or ds v 0
get_or_unshifted ds v = let same : v - 0 ≡ v = omega arith in ap (λ t. get_or ds t 0) same

start-State :
    (nodes : List Node)
    → State (build nodes).adj [] [] (build nodes).indeg (sources 0 (build nodes).indeg [])
start-State nodes =
    let h = build-IsBuilt nodes in
    let unshifted = λ (v : ℕ). get_or_unshifted (build nodes).indeg v in
    let scan = elem-sources 0 (build nodes).indeg [] in
    record {
      sized = omega (arith, h.nodes, h.sized);
      degrees = λ v lt. omega (
        arith,
        h.degrees v (omega (arith, h.nodes)),
        ap (remaining (build nodes).adj [] v) h.nodes,
      );
      settled = λ v m. cc;
      queued = λ v m. ground (arith, h.nodes, h.sized, scan v, unshifted v);
      complete = λ v lt e. ground (arith, h.nodes, h.sized, scan v, unshifted v);
      distinct = Distinct-sources 0 (build nodes).indeg [] (λ v m. cc) tt;
    }

-- What the sort promises of its result.
pub record IsTopological (nodes : List Node) (r : TopoResult) : Type 0 where
  pub driven_first : DrivenFirst nodes [] r.order
  pub once : Distinct r.order
  pub placed : (v : ℕ) → elem v r.order ≡ true → (v < length nodes) × (elem v r.left ≡ false)
  pub covered : (v : ℕ) → v < length nodes → elem v r.order ≡ false → elem v r.left ≡ true
  pub blocked : (v : ℕ) → elem v r.left ≡ true → (u : ℕ) × (elem u r.left ≡ true) × Drives nodes u v

module _ (nodes : List Node) where
  in_range : IsClosed (build nodes).adj
  in_range a b e =
      let h = build-IsBuilt nodes in
      omega (arith, h.nodes, h.in_range a b ((Edge-iff (build nodes).adj a b).0 e))

  module _ (indeg order : List ℕ) (s : Sorted (build nodes).adj indeg order) where
    st : State (build nodes).adj order [] indeg []
    st = s.state

    left_iff :
        (v : ℕ)
        → (elem v (leftovers 0 indeg) ≡ true) ↔ ((v < length nodes) × (0 < get_or indeg v 0))
    left_iff v = ground (
      arith,
      elem-leftovers 0 indeg v,
      get_or_unshifted indeg v,
      st.sized,
      (build-IsBuilt nodes).nodes,
    )

    placed_or_left :
        (v : ℕ) → v < length nodes → elem v order ≡ false → elem v (leftovers 0 indeg) ≡ true
    placed_or_left v lt m = ground (arith, left_iff v, st.complete v, (build-IsBuilt nodes).nodes)

    blocked_by :
        (v : ℕ)
        → elem v (leftovers 0 indeg) ≡ true
        → (u : ℕ) × (elem u (leftovers 0 indeg) ≡ true) × Drives nodes u v
    blocked_by v m =
        let h = build-IsBuilt nodes in
        let (lt, pos) = (left_iff v).0 m in
        let (u, lt', free, c) =
          remaining_pos (build nodes).adj order v (length (build nodes).adj)
            (omega (arith, st.degrees v (omega (arith, h.nodes)))) in
        (
          u,
          placed_or_left u (omega (arith, h.nodes)) free,
          (build-Drives nodes u v).0 ((Edge-iff (build nodes).adj u v).1 c),
        )

    result : IsTopological nodes (record { order = order; left = leftovers 0 indeg })
    result = record {
      driven_first = Respects-DrivenFirst nodes [] order s.respects;
      once = s.once;
      placed = λ v m. ground (arith, left_iff v, st.settled v m, (build-IsBuilt nodes).nodes);
      covered = placed_or_left;
      blocked = blocked_by;
    }

-- A component drives another one when it is the last component of the list that writes a net
-- which the other reads. The sort always returns. In its order every component stands once, behind
-- all the components that drive it; the other components are exactly the leftovers, and each of
-- them is driven by a leftover.
pub topo_order_sorts :
    (nodes : List Node) → (r : TopoResult) × (topo_order nodes ≡ some r) × IsTopological nodes r
unfolding topo_order
topo_order_sorts nodes =
    let h = build-IsBuilt nodes in
    let (indeg, order, e, s) =
      kahn-Sorted (build nodes).adj (in_range nodes) (length nodes) (build nodes).indeg
        (sources 0 (build nodes).indeg []) [] (start-State nodes) tt tt
        (omega (arith, h.nodes, unplaced-nil (length (build nodes).adj))) in
    (
      record { order = order; left = leftovers 0 indeg },
      rw (e, topo_order),
      result nodes indeg order s,
    )

-- In a circuit whose components can be ranked so that each drives only components of higher rank,
-- by being the last to write a net that they read, nothing is left over: the order holds every
-- component once, behind all that drive it.
pub topo_order_acyclic :
    (nodes : List Node) (rank : ℕ → ℕ)
    → ((a b : ℕ) → Drives nodes a b → rank a < rank b)
    → (r : TopoResult) × (topo_order nodes ≡ some r) × IsTopological nodes r × (r.left ≡ [])
topo_order_acyclic nodes rank grows =
    let (r, e, h) = topo_order_sorts nodes in
    (r, e, h, no_member r.left (λ v. no_left r h (suc (rank v)) v (omega arith)))
  where
    no_left :
        (r : TopoResult) → IsTopological nodes r → (k v : ℕ) → rank v < k → elem v r.left ≡ false
    no_left r h zero v lt = absurd (omega arith)
    no_left r h (suc k) v lt = elim (Bool-cases (elem v r.left)) [
      | inl m ↦
          let (u, m', d) = h.blocked v m in cc (m', no_left r h k u (omega (arith, grows u v d)))
      | inr free ↦ free
    ]

    no_member : (xs : List ℕ) → ((v : ℕ) → elem v xs ≡ false) → xs ≡ []
    no_member [] h = refl
    no_member (x ∷ xs) h = absurd (ground (arith, h x))
