-- ===== src/Tick/Collect.antt =====
-- Which components a scan adds to the queue of `computeTriAffected`.
use digital_circuit_simulati.Prelude.{
  ℕ, zero, suc, ◌+◌, ◌-◌, ◌≤◌, ◌<◌, ◌≡◌, refl, ap, subst, ◌∙◌, inl, inr, Bool, true, false, not,
  ◌&&◌, ◌||◌, Option, none, some, List, [], ◌∷◌, ◌++◌, arith,
}
use digital_circuit_simulati.Prelude.{
  length, leb, ◌==◌, if◌then◌else◌, Bool-cases, Option-cases, ℕ_discrete, length-append,
}
use digital_circuit_simulati.TopoSort.Degrees.{elem, elem-snoc}
use digital_circuit_simulati.Tick.{Component, Output, reads, collect, follow}

abbrev pub member : List ℕ → List ℕ → ℕ → Bool
member done todo v = elem v done || elem v todo

-- The test at the position `v`.
abbrev pub passes : (Component → Bool) → List Component → ℕ → Bool
passes test [] v = false
passes test (c ∷ cs) zero = c.comb && test c
passes test (c ∷ cs) (suc v) = passes test cs v

passes-cons :
    (test : Component → Bool) (c : Component) (cs : List Component) (i v : ℕ)
    → (leb i v && passes test (c ∷ cs) (v - i))
      ≡ ((i == v) && (c.comb && test c)) || (leb (suc i) v && passes test cs (v - suc i))
passes-cons test c cs i v = elim (ℕ_discrete i v) [
  | yes same ↦
      let here : v - i ≡ 0 = omega arith in
      let now : passes test (c ∷ cs) (v - i) ≡ c.comb && test c = ap (passes test (c ∷ cs)) here in
      ground arith
  | no other ↦ elim (Bool-cases (leb (suc i) v)) [
    | inl above ↦
        let next : v - i ≡ suc (v - suc i) = ground arith in
        let now : passes test (c ∷ cs) (v - i) ≡ passes test cs (v - suc i) =
          ap (passes test (c ∷ cs)) next in
        ground arith
    | inr below ↦ ground arith
  ]
]

collect-member :
    (test : Component → Bool) (done : List ℕ) (i : ℕ) (cs : List Component) (todo : List ℕ) (v : ℕ)
    → member done (collect test done i cs todo) v
      ≡ member done todo v || (leb i v && passes test cs (v - i))
unfolding collect
collect-member test done i [] todo v = ground arith
collect-member test done i (c ∷ cs) todo v =
    elim (Bool-cases (c.comb && test c && not (elem i done || elem i todo))) [
      | inl new ↦ rw new (
          let rest = collect-member test done (suc i) cs (todo ++ i ∷ []) v in
          ground (arith, rest, elem-snoc v i todo, passes-cons test c cs i v, new))
      | inr old ↦ rw old (
          let rest = collect-member test done (suc i) cs todo v in
          elim (ℕ_discrete i v) [
            | yes same ↦
                let there =
                  subst (λ t. c.comb && test c && not (elem t done || elem t todo) ≡ false) same
                    old in
                ground (arith, rest, passes-cons test c cs i v, there)
            | no other ↦ ground (arith, rest, passes-cons test c cs i v)
          ])
    ]

-- The positions below `n` that are not in the queue.
abbrev pub missing : (ℕ → Bool) → ℕ → ℕ
missing f zero = 0
missing f (suc n) = (if f n then 0 else 1) + missing f n

pub missing_same :
    (f g : ℕ → Bool) (n : ℕ) → ((k : ℕ) → k < n → f k ≡ g k) → missing f n ≡ missing g n
missing_same f g zero h = refl
missing_same f g (suc n) h =
    ground (arith, h n (omega arith), missing_same f g n (λ k lt. h k (omega (arith, lt))))

missing_one :
    (f g : ℕ → Bool) (u n : ℕ)
    → f u ≡ false
    → u < n
    → ((k : ℕ) → g k ≡ f k || (u == k))
    → missing f n ≡ suc (missing g n)
missing_one f g u zero out lt h = absurd (omega (arith, lt))
missing_one f g u (suc n) out lt h = elim (ℕ_discrete u n) [
  | yes same ↦
      let rest : missing f n ≡ missing g n = missing_same f g n (λ k below. ground (arith, h k)) in
      let here : f n ≡ false = subst (λ t. f t ≡ false) same out in ground (arith, h n, rest)
  | no other ↦ ground (arith, h n, missing_one f g u n out (omega (arith, lt, other)) h)
]

pub collect-measure :
    (test : Component → Bool) (done : List ℕ) (i n : ℕ) (cs : List Component) (todo : List ℕ)
    → i + length cs ≤ n
    → length (collect test done i cs todo) + missing (member done (collect test done i cs todo)) n
      ≡ length todo + missing (member done todo) n
unfolding collect
collect-measure test done i n [] todo fits = refl
collect-measure test done i n (c ∷ cs) todo fits =
    elim (Bool-cases (c.comb && test c && not (elem i done || elem i todo))) [
      | inr old ↦ rw old (collect-measure test done (suc i) n cs todo (omega (arith, fits)))
      | inl new ↦
          let rest =
            collect-measure test done (suc i) n cs (todo ++ i ∷ []) (omega (arith, fits)) in
          let out : member done todo i ≡ false = ground arith in
          let one =
            missing_one (member done todo) (member done (todo ++ i ∷ [])) i n out
              (omega (arith, fits)) (λ k. ground (arith, elem-snoc k i todo)) in
          rw new (omega (arith, rest, one, length-append todo (i ∷ [])))
    ]

-- Whether an output of the list is on a net that a pin of `ins` is on.
abbrev pub feeds : List Output → List (Option ℕ) → Bool
feeds [] ins = false
feeds (o ∷ os) ins = elim o.net [ none ↦ feeds os ins | some n ↦ reads n ins || feeds os ins ]

passes-or :
    (a b : Component → Bool) (cs : List Component) (v : ℕ)
    → passes (λ c. a c || b c) cs v ≡ passes a cs v || passes b cs v
passes-or a b [] v = refl
passes-or a b (c ∷ cs) zero = ground arith
passes-or a b (c ∷ cs) (suc v) = passes-or a b cs v

passes-never : (cs : List Component) (v : ℕ) → passes (λ c. false) cs v ≡ false
passes-never [] v = refl
passes-never (c ∷ cs) zero = ground arith
passes-never (c ∷ cs) (suc v) = passes-never cs v

pub from_start :
    (test : Component → Bool) (done : List ℕ) (cs : List Component) (todo : List ℕ) (v : ℕ)
    → member done (collect test done 0 cs todo) v ≡ member done todo v || passes test cs v
from_start test done cs todo v =
    let whole : v - 0 ≡ v = omega arith in
    let all : leb 0 v ≡ true = ground arith in
    collect-member test done 0 cs todo v
    ∙ ap (λ t. member done todo v || (leb 0 v && passes test cs t)) whole
    ∙ ap (λ t. member done todo v || (t && passes test cs v)) all

pub follow-member :
    (os : List Output) (cs : List Component) (done todo : List ℕ) (v : ℕ)
    → member done (follow os cs done todo) v
      ≡ member done todo v || passes (λ c. feeds os c.ins) cs v
unfolding follow
follow-member [] cs done todo v = ground (arith, passes-never cs v)
follow-member (o ∷ os) cs done todo v = elim (Option-cases o.net) [
  | inl open_pin ↦ rw open_pin (follow-member os cs done todo v)
  | inr (n, on) ↦
      let todo' = collect (λ c. reads n c.ins) done 0 cs todo in
      let rest = follow-member os cs done todo' v in
      let here = from_start (λ c. reads n c.ins) done cs todo v in
      let both = passes-or (λ c. reads n c.ins) (λ c. feeds os c.ins) cs v in
      rw on (ground (arith, rest, here, both))
]

pub follow-measure :
    (os : List Output) (cs : List Component) (done todo : List ℕ)
    → length (follow os cs done todo) + missing (member done (follow os cs done todo)) (length cs)
      ≡ length todo + missing (member done todo) (length cs)
unfolding follow
follow-measure [] cs done todo = refl
follow-measure (o ∷ os) cs done todo = elim (Option-cases o.net) [
  | inl open_pin ↦ rw open_pin (follow-measure os cs done todo)
  | inr (n, on) ↦
      let todo' = collect (λ c. reads n c.ins) done 0 cs todo in
      rw on (
        omega (
          arith,
          follow-measure os cs done todo',
          collect-measure (λ c. reads n c.ins) done 0 (length cs) cs todo (omega arith),
        ))
]
