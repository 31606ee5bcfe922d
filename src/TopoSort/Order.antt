-- ===== src/TopoSort/Order.antt =====
-- Kahn's loop: it ends, and what it leaves.
use digital_circuit_simulati.Prelude.{
  ℕ, zero, suc, ◌+◌, ◌-◌, ◌≤◌, ◌<◌, ◌≡◌, refl, subst, ◌⊎◌, true, false, some, List, [], ◌∷◌, ◌++◌,
  arith,
}
use digital_circuit_simulati.Prelude.{
  length, get_or, set, length-set, get_or-set, ◌==◌, if◌then◌else◌, ℕ_discrete,
}
use mathlib.Core.List.{append-nil, append_assoc}
use digital_circuit_simulati.LoopCheck.{Graph, targets}
use digital_circuit_simulati.LoopCheck.Walk.{Edge, IsClosed, Edge-source-lt}
use digital_circuit_simulati.TopoSort.{relax, kahn}
use digital_circuit_simulati.TopoSort.Degrees.{
  elem, count, Distinct, elem-snoc, remaining, remaining-snoc, remaining_zero,
  count_pos_of_get_elem?, get_elem?_of_count_pos,
}

-- Between two steps: `placed` is the order with the component under way, and `vs` are the links of
-- that component that are still to be taken off.
pub record State (g : Graph) (placed vs indeg q : List ℕ) : Type 0 where
  pub sized : length indeg ≡ length g
  pub degrees :
      (v : ℕ) → v < length g → get_or indeg v 0 ≡ remaining g placed v (length g) + count v vs
  pub settled : (v : ℕ) → elem v placed ≡ true → (v < length g) × (get_or indeg v 0 ≡ 0)
  pub queued :
      (v : ℕ) → elem v q ≡ true → (v < length g) × (get_or indeg v 0 ≡ 0) × (elem v placed ≡ false)
  pub complete :
      (v : ℕ) → v < length g → get_or indeg v 0 ≡ 0 → (elem v q ≡ true) ⊎ (elem v placed ≡ true)
  pub distinct : Distinct q

-- Taking off one link.
relax-State :
    (g : Graph) (placed : List ℕ) (v : ℕ) (vs indeg q : List ℕ)
    → v < length g
    → State g placed (v ∷ vs) indeg q
    → State g placed vs
        (set indeg v (get_or indeg v 0 - 1))
        (if get_or indeg v 0 - 1 == 0 then v ∷ q else q)
relax-State g placed v vs indeg q lt h =
    let size : v < length indeg = omega (arith, h.sized) in
    let deg = λ (w : ℕ). get_or-set indeg v w (get_or indeg v 0 - 1) 0 size in
    let here : 0 < get_or indeg v 0 = ground (arith, h.degrees v) in
    record {
      sized = rw length-set h.sized;
      degrees = λ w l. ground (arith, deg w, h.degrees w);
      settled = λ w m. ground (arith, deg w, h.settled w);
      queued = λ w m. ground (arith, deg w, h.queued w, h.settled w);
      complete = λ w l e. ground (arith, deg w, h.complete w);
      distinct = ground (arith, h.distinct, h.queued v);
    }

relax_all-State :
    (g : Graph) (placed : List ℕ) (vs indeg q : List ℕ)
    → ((v : ℕ) → 0 < count v vs → v < length g)
    → State g placed vs indeg q
    → State g placed [] (relax vs indeg q).0 (relax vs indeg q).1
unfolding relax
relax_all-State g placed [] indeg q lt h = h
relax_all-State g placed (v ∷ vs) indeg q lt h =
    relax_all-State g placed vs (set indeg v (get_or indeg v 0 - 1))
      (if get_or indeg v 0 - 1 == 0 then v ∷ q else q) (λ w c. lt w (ground arith))
      (relax-State g placed v vs indeg q (lt v (ground arith)) h)

-- The component at the back of the queue goes to the end of the order.
place-State :
    (g : Graph) (order : List ℕ) (u : ℕ) (indeg q : List ℕ)
    → State g order [] indeg (u ∷ q)
    → State g (order ++ u ∷ []) (targets g u) indeg q
place-State g order u indeg q h =
    let here = h.queued u (ground arith) in
    record {
      sized = h.sized;
      degrees =
          λ w l. omega (arith, h.degrees w l, remaining-snoc g order u w (length g) here.2 here.0);
      settled = λ w m. ground (arith, elem-snoc w u order, h.settled w);
      queued = λ w m. ground (arith, elem-snoc w u order, h.queued w, h.distinct);
      complete = λ w l e. ground (arith, elem-snoc w u order, h.complete w);
      distinct = h.distinct.1;
    }

-- Every component of the list follows all the components that drive it; `seen` stands before.
abbrev pub Respects : Graph → List ℕ → List ℕ → Type 0
Respects g seen [] = Unit
Respects g seen (b ∷ rest) =
    ((a : ℕ) → Edge g a b → elem a seen ≡ true) × Respects g (seen ++ b ∷ []) rest

Respects-snoc :
    (g : Graph) (seen xs : List ℕ) (u : ℕ)
    → Respects g seen xs
    → ((a : ℕ) → Edge g a u → elem a (seen ++ xs) ≡ true)
    → Respects g seen (xs ++ u ∷ [])
Respects-snoc g seen [] u h new = (λ a e. rw (append-nil seen) at (new a e), tt)
Respects-snoc g seen (x ∷ xs) u h new =
    (h.0, Respects-snoc g (seen ++ x ∷ []) xs u h.1 (λ a e. rw append_assoc (new a e)))

Distinct-snoc : (xs : List ℕ) (u : ℕ) → Distinct xs → elem u xs ≡ false → Distinct (xs ++ u ∷ [])
Distinct-snoc [] u h new = (refl, tt)
Distinct-snoc (x ∷ xs) u h new =
    (ground (arith, elem-snoc x u xs, h.0), Distinct-snoc xs u h.1 (ground arith))

-- The components below `n` that are not placed yet: one step for each.
pub unplaced : List ℕ → ℕ → ℕ
unplaced order zero = 0
unplaced order (suc n) = (if elem n order then 0 else 1) + unplaced order n

unplaced_beyond :
    (order : List ℕ) (u n : ℕ) → n ≤ u → unplaced order n ≡ unplaced (order ++ u ∷ []) n
unfolding unplaced
unplaced_beyond order u zero le = refl
unplaced_beyond order u (suc n) le =
    ground (arith, elem-snoc n u order, unplaced_beyond order u n (omega arith))

unplaced-snoc :
    (order : List ℕ) (u n : ℕ)
    → elem u order ≡ false
    → u < n
    → unplaced order n ≡ suc (unplaced (order ++ u ∷ []) n)
unfolding unplaced
unplaced-snoc order u zero new lt = absurd (omega arith)
unplaced-snoc order u (suc n) new lt = elim (ℕ_discrete u n) [
  | yes same ↦
      subst (λ t. unplaced order (suc t) ≡ suc (unplaced (order ++ u ∷ []) (suc t))) same
        (ground (arith, elem-snoc u u order, unplaced_beyond order u u (omega arith)))
  | no other ↦ ground (arith, elem-snoc n u order, unplaced-snoc order u n new (omega arith))
]

pub record Sorted (g : Graph) (indeg order : List ℕ) : Type 0 where
  pub state : State g order [] indeg []
  pub respects : Respects g [] order
  pub once : Distinct order

-- The loop ends within one round for each component that is not placed.
pub kahn-Sorted :
    (g : Graph) (in_range : IsClosed g) (fuel : ℕ) (indeg q order : List ℕ)
    → State g order [] indeg q
    → Respects g [] order
    → Distinct order
    → unplaced order (length g) ≤ fuel
    → (indeg' order' : List ℕ) × (kahn fuel g indeg q order ≡ some (indeg', order'))
      × Sorted g indeg' order'
unfolding kahn
kahn-Sorted g in_range zero indeg [] order h r d f =
    (indeg, order, refl, record { state = h; respects = r; once = d })
kahn-Sorted g in_range (suc fuel) indeg [] order h r d f =
    (indeg, order, refl, record { state = h; respects = r; once = d })
kahn-Sorted g in_range zero indeg (u ∷ q) order h r d f =
    let here = h.queued u (ground arith) in
    absurd (omega (arith, unplaced-snoc order u (length g) here.2 here.0))
kahn-Sorted g in_range (suc fuel) indeg (u ∷ q) order h r d f =
    let here = h.queued u (ground arith) in
    let done =
      relax_all-State g (order ++ u ∷ []) (targets g u) indeg q
        (λ w c. let (i, e) = get_elem?_of_count_pos (targets g u) w c in in_range u w (i, e))
        (place-State g order u indeg q h) in
    kahn-Sorted g in_range fuel (relax (targets g u) indeg q).0 (relax (targets g u) indeg q).1
      (order ++ u ∷ []) done
      (Respects-snoc g [] order u r (λ a e.
        remaining_zero g order u (length g) a (omega (arith, h.degrees u here.0, here.1))
          (Edge-source-lt g a u e) (count_pos_of_get_elem? (targets g a) e.0 u e.1)))
      (Distinct-snoc order u d here.2)
      (omega (arith, unplaced-snoc order u (length g) here.2 here.0))

pub unplaced-nil : (n : ℕ) → unplaced [] n ≡ n
unfolding unplaced
unplaced-nil zero = refl
unplaced-nil (suc n) = omega (arith, unplaced-nil n)
