-- ===== src/Registers/Count.antt =====
-- Counters, registers and latches as numbers of `width` bits.
use digital_circuit_simulati.Prelude.{
  ℕ, ◌+◌, ◌-◌, ◌^◌, ◌≤◌, ◌<◌, ◌∙◌, inl, inr, Bool, true, false, ◌&&◌, List, [], ◌∷◌, arith,
}
use digital_circuit_simulati.Prelude.{◌==◌, if◌then◌else◌, Bool-cases}
use native.Mathlib.Nat.{one-le-pow}
use digital_circuit_simulati.FlipFlop.{mask_tail}
use digital_circuit_simulati.FlipFlop.Bytes.{value, Tidy, ones}
use digital_circuit_simulati.FlipFlop.Refine.{
  used, Holds, tail_mask, clear-Holds, load-Holds, all_ones,
}
use digital_circuit_simulati.Registers.{
  increment, decrement, CounterInputs, count_one, counter_tick, register_tick, latch_tick,
}
use digital_circuit_simulati.Registers.Carry.{increment-Tidy, decrement-Tidy}

ones_max : (r : ℕ) (q : List ℕ) → Tidy r q → value q ≤ ones r q
ones_max r [] h = omega arith
ones_max r (b ∷ []) h = omega (arith, h)
ones_max r (b ∷ c ∷ bs) (small, h) = omega (arith, small, ones_max r (c ∷ bs) h)

-- The number after one step up or down.
abbrev pub counted : ℕ → Bool → ℕ → ℕ
counted width updown v =
    if updown
    then (if v == 0 then 2 ^ width - 1 else v - 1)
    else (if v + 1 == 2 ^ width then 0 else v + 1)

abbrev pub next_count : ℕ → CounterInputs → ℕ → ℕ
next_count width i v =
    if i.clr
    then 0
    else if i.rising && i.en
    then (if i.load then i.din else counted width i.updown v)
    else v

module _ (width : ℕ) (pos : 1 ≤ width) where
  pub Holds-max : (q : List ℕ) (v : ℕ) → Holds width q v → v < 2 ^ width
  Holds-max q v h = omega (
    arith,
    ones_max (used width) q h.tidy,
    all_ones width pos q h.count,
    h.holds,
    one-le-pow width 2,
  )

  count_one-Holds :
      (updown : Bool) (q : List ℕ) (v : ℕ)
      → Holds width q v
      → Holds width (count_one width updown q) (counted width updown v)
  unfolding count_one
  count_one-Holds false q v h =
      let (tidy, len, val) =
        increment-Tidy (used width) 1 q (omega arith) (omega arith) (omega arith)
          (omega (arith, h.count)) h.tidy in
      let now = mask_tail (2 ^ used width - 1) (increment 1 q) in
      let full = all_ones width pos q h.count in
      let full' = all_ones width pos now (len ∙ h.count) in
      let most = ones_max (used width) now tidy in
      let before = Holds-max q v h in
      rw (tail_mask width pos) (record {
        count = len ∙ h.count;
        tidy = tidy;
        holds = elim val [
          | inl e ↦ ground (arith, e, full', most, h.holds)
          | inr e ↦ ground (arith, e, full, before, h.holds)
        ];
      })
  count_one-Holds true q v h =
      let (tidy, len, val) =
        decrement-Tidy (used width) 1 q (omega arith) (omega arith) (omega arith)
          (omega (arith, h.count)) h.tidy in
      let now = mask_tail (2 ^ used width - 1) (decrement 1 q) in
      let full = all_ones width pos q h.count in
      let full' = all_ones width pos now (len ∙ h.count) in
      let most = ones_max (used width) now tidy in
      let before = Holds-max q v h in
      rw (tail_mask width pos) (record {
        count = len ∙ h.count;
        tidy = tidy;
        holds = elim val [
          | inl e ↦ ground (arith, e, h.holds)
          | inr e ↦ ground (arith, e, full, full', most, h.holds)
        ];
      })

  -- A counter is a number of its width: `clr` makes it 0, else a rising edge with `en` loads `din`
  -- or counts one down or up around the ends of its range, and otherwise it keeps its number.
  pub counter_tick-Holds :
      (i : CounterInputs) (q : List ℕ) (v : ℕ)
      → i.din < 2 ^ width
      → Holds width q v
      → Holds width (counter_tick width i q) (next_count width i v)
  unfolding counter_tick
  counter_tick-Holds i q v fits h = elim (Bool-cases i.clr) [
    | inl clr ↦ rw clr (clear-Holds width)
    | inr no_clr ↦ elim (Bool-cases (i.rising && i.en)) [
      | inr keep ↦ rw (no_clr, keep) h
      | inl edge ↦ elim (Bool-cases i.load) [
        | inl load ↦ rw (no_clr, edge, load) (load-Holds width pos i.din fits)
        | inr counts ↦ rw (no_clr, edge, counts) (count_one-Holds i.updown q v h)
      ]
    ]
  ]

  -- A register takes `d` on a rising edge with `en` and is 0 under `rst`, and a latch takes `d`
  -- for as long as `en` is set; otherwise they keep their number.
  pub register-Holds :
      (d : ℕ) (en rst rising : Bool) (q : List ℕ) (v : ℕ)
      → d < 2 ^ width
      → Holds width q v
      → Holds width
          (register_tick width d en rst rising q)
          (if rst then 0 else if rising && en then d else v)
        × Holds width (latch_tick width d en q) (if en then d else v)
  unfolding register_tick latch_tick
  register-Holds d true true rising q v fits h = (clear-Holds width, load-Holds width pos d fits)
  register-Holds d false true rising q v fits h = (clear-Holds width, h)
  register-Holds d true false true q v fits h =
      (load-Holds width pos d fits, load-Holds width pos d fits)
  register-Holds d true false false q v fits h = (h, load-Holds width pos d fits)
  register-Holds d false false true q v fits h = (h, h)
  register-Holds d false false false q v fits h = (h, h)
