-- ===== src/TopoSort/Degrees.antt =====
-- The degree that is left to a component when some components are in the order: the number of
-- links from the others, with multiplicity.
use digital_circuit_simulati.Prelude.{
  ℕ, zero, suc, ◌+◌, ◌≤◌, ◌<◌, ◌≡◌, refl, subst, inl, inr, Bool, true, false, ◌||◌, some, List, [],
  ◌∷◌, ◌++◌, arith,
}
use digital_circuit_simulati.Prelude.{get_elem?, ◌==◌, if◌then◌else◌, Bool-cases, ℕ_discrete}
use digital_circuit_simulati.LoopCheck.{Graph, targets}

abbrev pub elem : ℕ → List ℕ → Bool
elem a [] = false
elem a (x ∷ xs) = (x == a) || elem a xs

abbrev pub count : ℕ → List ℕ → ℕ
count a [] = 0
count a (x ∷ xs) = (if x == a then 1 else 0) + count a xs

abbrev pub Distinct : List ℕ → Type 0
Distinct [] = Unit
Distinct (x ∷ xs) = (elem x xs ≡ false) × Distinct xs

pub elem-snoc : (a u : ℕ) (xs : List ℕ) → elem a (xs ++ u ∷ []) ≡ elem a xs || (u == a)
elem-snoc a u [] = ground arith
elem-snoc a u (x ∷ xs) = ground (arith, elem-snoc a u xs)

pub count-snoc :
    (a u : ℕ) (xs : List ℕ) → count a (xs ++ u ∷ []) ≡ count a xs + (if u == a then 1 else 0)
count-snoc a u [] = ground arith
count-snoc a u (x ∷ xs) = ground (arith, count-snoc a u xs)

pub count_pos_of_get_elem? : (xs : List ℕ) (i a : ℕ) → get_elem? xs i ≡ some a → 0 < count a xs
count_pos_of_get_elem? [] i a e = cc
count_pos_of_get_elem? (x ∷ xs) zero a e = ground arith
count_pos_of_get_elem? (x ∷ xs) (suc i) a e = ground (arith, count_pos_of_get_elem? xs i a e)

pub get_elem?_of_count_pos :
    (xs : List ℕ) (a : ℕ) → 0 < count a xs → (i : ℕ) × (get_elem? xs i ≡ some a)
get_elem?_of_count_pos [] a h = absurd (omega arith)
get_elem?_of_count_pos (x ∷ xs) a h = elim (Bool-cases (x == a)) [
  | inl same ↦ (0, ground arith)
  | inr other ↦ let (i, e) = get_elem?_of_count_pos xs a (ground arith) in (suc i, e)
]

-- The links to `v` from the components below `n` that are not in `order`.
unfoldable pub remaining : Graph → List ℕ → ℕ → ℕ → ℕ
remaining g order v zero = 0
remaining g order v (suc n) =
    (if elem n order then 0 else count v (targets g n)) + remaining g order v n

remaining_beyond :
    (g : Graph) (order : List ℕ) (u v n : ℕ)
    → n ≤ u
    → remaining g order v n ≡ remaining g (order ++ u ∷ []) v n
unfolding remaining
remaining_beyond g order u v zero le = refl
remaining_beyond g order u v (suc n) le =
    ground (arith, elem-snoc n u order, remaining_beyond g order u v n (omega arith))

pub remaining-snoc :
    (g : Graph) (order : List ℕ) (u v n : ℕ)
    → elem u order ≡ false
    → u < n
    → remaining g order v n ≡ remaining g (order ++ u ∷ []) v n + count v (targets g u)
unfolding remaining
remaining-snoc g order u v zero new lt = absurd (omega arith)
remaining-snoc g order u v (suc n) new lt = elim (ℕ_discrete u n) [
  | yes same ↦
      subst
        (λ t.
          remaining g order v (suc t)
          ≡ remaining g (order ++ u ∷ []) v (suc t) + count v (targets g u))
        same (ground (arith, elem-snoc u u order, remaining_beyond g order u v u (omega arith)))
  | no other ↦ ground (arith, elem-snoc n u order, remaining-snoc g order u v n new (omega arith))
]

-- Links that are still counted come from a component outside the order.
pub remaining_pos :
    (g : Graph) (order : List ℕ) (v n : ℕ)
    → 0 < remaining g order v n
    → (u : ℕ) × (u < n) × (elem u order ≡ false) × (0 < count v (targets g u))
unfolding remaining
remaining_pos g order v zero h = absurd (omega arith)
remaining_pos g order v (suc n) h = elim (Bool-cases (elem n order)) [
  | inl placed ↦
      let (u, lt, new, c) = remaining_pos g order v n (ground arith) in (u, omega arith, new, c)
  | inr new ↦ elim (ℕ_discrete (count v (targets g n)) 0) [
    | yes none_here ↦
        let (u, lt, new', c) = remaining_pos g order v n (ground arith) in (u, omega arith, new', c)
    | no some_here ↦ (n, omega arith, new, omega arith)
  ]
]

pub remaining_zero :
    (g : Graph) (order : List ℕ) (v n u : ℕ)
    → remaining g order v n ≡ 0
    → u < n
    → 0 < count v (targets g u)
    → elem u order ≡ true
unfolding remaining
remaining_zero g order v zero u h lt c = absurd (omega arith)
remaining_zero g order v (suc n) u h lt c = elim (ℕ_discrete u n) [
  | yes same ↦ ground arith
  | no other ↦ remaining_zero g order v n u (ground arith) (omega arith) c
]
