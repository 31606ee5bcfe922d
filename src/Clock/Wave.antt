-- ===== src/Clock/Wave.antt =====
-- The waves of the clocks.
use digital_circuit_simulati.Prelude.{
  ℕ, zero, suc, ◌+◌, ◌%◌, ◌^◌, ◌≤◌, ◌<◌, ◌≡◌, refl, sym, ap, subst, ◌∙◌, inl, inr, Bool, false, not,
  ◌&&◌, List, [], ◌∷◌, arith,
}
use digital_circuit_simulati.Prelude.{leb, ltb, ◌==◌, if◌then◌else◌, Bool-cases}
use native.Mathlib.Nat.{mod-lt, mod-eq_of_lt, mod_self, zero-mod, mod-add-mod}
use digital_circuit_simulati.Clock.{clkgen_tick, toggle_tick, Divider, divider_tick}

-- The counter after `n` ticks.
abbrev pub cnt_after : ℕ → ℕ → ℕ → ℕ
cnt_after high low zero = 0
cnt_after high low (suc n) = (clkgen_tick high low (cnt_after high low n)).0

abbrev pub clk_after : ℕ → Bool
clk_after zero = false
clk_after (suc n) = (toggle_tick (clk_after n)).0

suc-wraps : (p m : ℕ) → m < p → (if leb p (m + 1) then 0 else m + 1) ≡ (m + 1) % p
suc-wraps p m h = elim (Bool-cases (leb p (m + 1))) [
  | inl last ↦ let full : m + 1 ≡ p = ground arith in rw (last, full) (sym (mod_self p))
  | inr more ↦ rw more (sym (mod-eq_of_lt (ground arith)))
]

cnt_after-mod : (high low n : ℕ) → 1 ≤ high → cnt_after high low n ≡ n % (high + low)
unfolding clkgen_tick
cnt_after-mod high low zero h = sym (zero-mod (high + low))
cnt_after-mod high low (suc n) h =
    ap (λ m. if leb (high + low) (m + 1) then 0 else m + 1) (cnt_after-mod high low n h)
    ∙ suc-wraps (high + low) (n % (high + low)) (mod-lt n (omega (arith, h)))
    ∙ mod-add-mod n (high + low) 1
    ∙ ap (λ t. t % (high + low)) (omega arith)

-- The output of a `clkgen` in its tick `n`, counted from 0, is high exactly in the first `high`
-- ticks of each period of `high + low`.
pub clkgen_tick-wave :
    (high low n : ℕ)
    → 1 ≤ high
    → (clkgen_tick high low (cnt_after high low n)).1 ≡ ltb (n % (high + low)) high
unfolding clkgen_tick
clkgen_tick-wave high low n h = ap (λ m. ltb m high) (cnt_after-mod high low n h)

clk_after-mod : (n : ℕ) → clk_after n ≡ (n % 2 == 1)
unfolding toggle_tick
clk_after-mod zero = refl
clk_after-mod (suc n) = ap not (clk_after-mod n) ∙ ground arith

-- The one-bit generator for one tick high and one tick low has the outputs of the general one.
pub toggle_tick-clkgen :
    (n : ℕ) → (toggle_tick (clk_after n)).1 ≡ (clkgen_tick 1 1 (cnt_after 1 1 n)).1
unfolding toggle_tick
toggle_tick-clkgen n =
    ap not (clk_after-mod n) ∙ ground arith ∙ sym (clkgen_tick-wave 1 1 n (omega arith))

-- The rising edges of a clock that was at `before`.
abbrev pub edges : Bool → List Bool → ℕ
edges before [] = 0
edges before (c ∷ cs) = (if c && not before then 1 else 0) + edges c cs

abbrev pub divider_run : ℕ → List Bool → Divider → Divider
divider_run divisor [] d = d
divider_run divisor (c ∷ cs) d = divider_run divisor cs (divider_tick divisor c d).0

-- The level of the clock in the last tick.
abbrev pub level : Bool → List Bool → Bool
level before [] = before
level before (c ∷ cs) = level c cs

divider_step :
    (divisor : ℕ) (c : Bool) (d : Divider)
    → 2 ≤ divisor
    → divisor < 2 ^ 31
    → d.counter < divisor
    → ((divider_tick divisor c d).0.counter
        ≡ (d.counter + (if c && not d.prev_clk then 1 else 0)) % divisor)
      × ((divider_tick divisor c d).0.prev_clk ≡ c)
unfolding divider_tick
divider_step divisor c d two int h = elim (Bool-cases (c && not d.prev_clk)) [
  | inl up ↦
      let whole : (d.counter + 1) % 2 ^ 64 ≡ d.counter + 1 = omega arith in
      rw (up, whole) (refl, refl)
  | inr keep ↦
      let same : d.counter + 0 ≡ d.counter = omega arith in
      rw (keep, same) (sym (mod-eq_of_lt h), refl)
]

-- After any ticks, the counter of a divider is the number of rising edges of its input modulo the
-- divisor, and the divider knows the last level.
pub divider_run-counts :
    (divisor : ℕ) (cs : List Bool) (d : Divider)
    → 2 ≤ divisor
    → divisor < 2 ^ 31
    → d.counter < divisor
    → ((divider_run divisor cs d).counter ≡ (d.counter + edges d.prev_clk cs) % divisor)
      × ((divider_run divisor cs d).prev_clk ≡ level d.prev_clk cs)
divider_run-counts divisor [] d two int h =
    (sym (mod-eq_of_lt h) ∙ ap (λ t. t % divisor) (omega arith), refl)
divider_run-counts divisor (c ∷ cs) d two int h =
    let (now, seen) = divider_step divisor c d two int h in
    let next = (divider_tick divisor c d).0 in
    let small : next.counter < divisor =
      subst (λ x. x < divisor) (sym now)
        (mod-lt (d.counter + (if c && not d.prev_clk then 1 else 0)) (omega (arith, two))) in
    let (later, last) = divider_run-counts divisor cs next two int small in
    let up = if c && not d.prev_clk then 1 else 0 in
    (
      later
          ∙ ap (λ b. (next.counter + edges b cs) % divisor) seen
          ∙ ap (λ t. (t + edges c cs) % divisor) now
          ∙ mod-add-mod (d.counter + up) divisor (edges c cs)
          ∙ ap (λ t. t % divisor) (omega arith),
      last ∙ ap (λ b. level b cs) seen,
    )
