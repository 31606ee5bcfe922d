-- ===== src/Interconnect/Arbiter.antt =====
-- The choice of the next master.
use digital_circuit_simulati.Prelude.{
  ℕ, zero, suc, ◌+◌, ◌-◌, ◌≤◌, ◌<◌, ◌≡◌, refl, ap, subst, ◌∙◌, ◌⊎◌, inl, inr, true, false, some,
  List, arith,
}
use digital_circuit_simulati.Prelude.{length, leb, if◌then◌else◌, Bool-cases, ℕ_discrete}
use digital_circuit_simulati.Interconnect.{Lines, requests, wrapped, pick, arbitrate, next_after}

-- How many masters come before `m` from `g` on.
abbrev pub distance : ℕ → ℕ → ℕ → ℕ
distance count g m = if leb g m then m - g else m + count - g

next_after-wrapped :
    (count g j : ℕ)
    → g < count
    → j < count
    → next_after count (wrapped count (g + j)) ≡ wrapped count (g + (j + 1))
unfolding next_after
next_after-wrapped count g j a b = ground arith

distance-wrapped :
    (count g m k : ℕ)
    → g < count
    → m < count
    → k ≤ distance count g m
    → distance count (wrapped count (g + k)) m ≡ distance count g m - k
distance-wrapped count g m k a b le = ground arith

-- The first request from `g + k` on.
pick-first :
    (masters : List Lines) (count g k todo d : ℕ)
    → k ≤ d
    → d < k + todo
    → requests masters (wrapped count (g + d)) ≡ true
    → (j : ℕ) × (j ≤ d) × (pick masters count g k todo ≡ some (wrapped count (g + j)))
unfolding pick
pick-first masters count g k zero d le lt asks = absurd (omega (arith, le, lt))
pick-first masters count g k (suc todo) d le lt asks =
    elim (Bool-cases (requests masters (wrapped count (g + k)))) [
      | inl here ↦ (k, le, rw (here, pick) refl)
      | inr not_here ↦ elim (ℕ_discrete k d) [
        | yes same ↦
            let clash =
              subst (λ t. requests masters (wrapped count (g + t)) ≡ false) same not_here in
            let impossible : ⊥ = ground (arith, clash, asks) in elim impossible [ ]
        | no other ↦
            let (j, below, e) =
              pick-first masters count g (suc k) todo d (omega (arith, le, other))
                (omega (arith, lt)) asks in
            (j, below, rw (not_here, pick) e)
      ]
    ]

-- When the master `m` asks for the bus, some master is chosen: `m` itself, or one after which
-- fewer masters come before the turn of `m`.
pub arbitrate-fair :
    (masters : List Lines) (next m : ℕ)
    → next < length masters
    → m < length masters
    → requests masters m ≡ true
    → (g : ℕ) × (arbitrate masters next ≡ some g)
      × (g < length masters)
      × ((g ≡ m)
          ⊎ (distance (length masters) (next_after (length masters) g) m
              < distance (length masters) next m))
unfolding arbitrate
arbitrate-fair masters next m in_range asked asks =
    let count = length masters in
    let d = distance count next m in
    let at : wrapped count (next + d) ≡ m = ground arith in
    let small : d < count = ground arith in
    let (j, le, e) =
      pick-first masters count next 0 count d (omega arith) (omega (arith, small))
        (ap (requests masters) at ∙ asks) in
    let from : (if leb count next then 0 else next) ≡ next = ground arith in
    let g = wrapped count (next + j) in
    (
      g,
      ap (λ t. pick masters count t 0 count) from ∙ e,
      ground (arith, le, small),
      elim (ℕ_discrete j d) [
        | yes same ↦ inl (ap (λ t. wrapped count (next + t)) same ∙ at)
        | no other ↦
            let step = next_after-wrapped count next j in_range (omega (arith, le, small)) in
            let less =
              distance-wrapped count next m (j + 1) in_range asked (omega (arith, le, other)) in
            let turn : distance count (next_after count g) m ≡ d - (j + 1) =
              ap (λ t. distance count t m) step ∙ less in
            inr (omega (arith, turn, le, other))
      ],
    )
