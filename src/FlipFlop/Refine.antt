-- ===== src/FlipFlop/Refine.antt =====
-- The flip-flops as registers of `width` bits.
use digital_circuit_simulati.Prelude.{
  ℕ, suc, ◌+◌, ◌-◌, ◌*◌, ◌%◌, ◌^◌, ◌≤◌, ◌<◌, ◌≡◌, refl, ap, subst, ◌∙◌, inl, inr, Bool, true, false,
  not, ◌&&◌, List, [], ◌∷◌, arith,
}
use digital_circuit_simulati.Prelude.{
  length, ◌==◌, if◌then◌else◌, length-replicate, Bool-cases, ℕ_discrete,
}
use digital_circuit_simulati.FlipFlop.{
  byte_count, tail_byte_mask, bytes_of, clear, preset, toggle, DInputs, d_tick, t_tick, jk_tick,
}
use digital_circuit_simulati.FlipFlop.Bytes.{
  value, Tidy, ones, flip-Tidy, ones_power, bytes_of-Tidy, clear-Tidy, preset-complement,
}

-- The bits of the last byte that belong to the register.
abbrev pub used : ℕ → ℕ
used width = width - 8 * (byte_count width - 1)

-- The bytes hold the number `v` of `width` bits.
pub record Holds (width : ℕ) (q : List ℕ) (v : ℕ) : Type 0 where
  pub count : length q ≡ byte_count width
  pub tidy : Tidy (used width) q
  pub holds : value q ≡ v

pub tail_mask : (width : ℕ) → 1 ≤ width → tail_byte_mask width ≡ 2 ^ used width - 1
unfolding tail_byte_mask
tail_mask width pos = elim (ℕ_discrete (width % 8) 0) [
  | yes whole ↦
      let eight : used width ≡ 8 = omega arith in
      let test : (width % 8 == 0) ≡ true = ground arith in rw (test, eight) refl
  | no part ↦
      let rest : width % 8 ≡ used width = omega arith in
      let test : (width % 8 == 0) ≡ false = ground arith in rw test (ap (λ t. 2 ^ t - 1) rest)
]

minus_zero : (x : ℕ) → x - 0 ≡ x
minus_zero x = omega arith

pub clear-Holds : (width : ℕ) → Holds width (clear width) 0
unfolding clear
clear-Holds width =
    let (tidy, val) = clear-Tidy (used width) (byte_count width) in
    record { count = length-replicate (byte_count width) 0; tidy = tidy; holds = val }

module _ (width : ℕ) (pos : 1 ≤ width) where
  pub all_ones : (q : List ℕ) → length q ≡ byte_count width → ones (used width) q ≡ 2 ^ width - 1
  all_ones [] h = absurd (omega (arith, h))
  all_ones (b ∷ bs) h =
      let power = ones_power (used width) b bs in
      let same : 2 ^ (used width + 8 * length bs) ≡ 2 ^ width =
        ap (λ t. 2 ^ t) (omega (arith, h)) in
      omega (arith, power, same)

  toggle-Holds :
      (q : List ℕ) (v : ℕ) → Holds width q v → Holds width (toggle width q) (2 ^ width - 1 - v)
  unfolding toggle
  toggle-Holds q v h =
      let (tidy, sum, len) = flip-Tidy (used width) q (omega arith) (omega arith) h.tidy in
      let full = all_ones q h.count in
      rw (tail_mask width pos)
        (record { count = len ∙ h.count; tidy = tidy; holds = omega (arith, sum, full, h.holds) })

  preset-Holds : Holds width (preset width) (2 ^ width - 1)
  unfolding preset toggle clear
  preset-Holds = rw (preset-complement (byte_count width)) (
      subst (Holds width (toggle width (clear width))) (minus_zero (2 ^ width - 1))
        (toggle-Holds (clear width) 0 (clear-Holds width)))

  pub load-Holds : (d : ℕ) → d < 2 ^ width → Holds width (bytes_of (byte_count width) d) d
  load-Holds d fits =
      let more = byte_count width - 1 in
      let filled : suc more ≡ byte_count width = omega arith in
      let same : 2 ^ (used width + 8 * more) ≡ 2 ^ width = ap (λ t. 2 ^ t) (omega arith) in
      let (tidy, val, len) = bytes_of-Tidy (used width) more d (omega arith) (omega arith) in
      subst (λ n. Holds width (bytes_of n d) d) filled
        (record { count = len ∙ filled; tidy = tidy; holds = val })

  -- A D flip-flop is a register of its width: `rst` clears it, else `pre` sets all its bits, else a
  -- rising edge with `en` loads `d`, and otherwise it keeps its number.
  pub d_tick-Holds :
      (i : DInputs) (q : List ℕ) (v : ℕ)
      → i.d < 2 ^ width
      → Holds width q v
      → Holds width (d_tick width i q) (
          if i.rst
          then 0
          else (if i.pre then 2 ^ width - 1 else (if i.rising && i.en then i.d else v)))
  unfolding d_tick
  d_tick-Holds i q v fits h = elim (Bool-cases i.rst) [
    | inl rst ↦ rw rst (clear-Holds width)
    | inr no_rst ↦ elim (Bool-cases i.pre) [
      | inl pre ↦ rw (no_rst, pre) preset-Holds
      | inr no_pre ↦ elim (Bool-cases (i.rising && i.en)) [
        | inl load ↦ rw (no_rst, no_pre, load) (load-Holds i.d fits)
        | inr keep ↦ rw (no_rst, no_pre, keep) h
      ]
    ]
  ]

  -- A T flip-flop complements the bits of its width on a rising edge with `t`, and otherwise keeps
  -- its number.
  pub t_tick-Holds :
      (t rising : Bool) (q : List ℕ) (v : ℕ)
      → Holds width q v
      → Holds width (t_tick width t rising q) (if rising && t then 2 ^ width - 1 - v else v)
  unfolding t_tick
  t_tick-Holds t rising q v h = elim (Bool-cases (rising && t)) [
    | inl flips ↦ rw flips (toggle-Holds q v h)
    | inr keeps ↦ rw keeps h
  ]

  -- A JK flip-flop, on a rising edge, complements the bits of its width when `j` and `k` are set,
  -- sets them all for `j` alone and clears them for `k` alone; otherwise it keeps its number.
  pub jk_tick-Holds :
      (j k rising : Bool) (q : List ℕ) (v : ℕ)
      → Holds width q v
      → Holds width (jk_tick width j k rising q) (
          if not rising
          then v
          else (if j && k
              then 2 ^ width - 1 - v
              else (if j then 2 ^ width - 1 else (if k then 0 else v))))
  unfolding jk_tick
  jk_tick-Holds j k false q v h = h
  jk_tick-Holds true true true q v h = toggle-Holds q v h
  jk_tick-Holds true false true q v h = preset-Holds
  jk_tick-Holds false true true q v h = clear-Holds width
  jk_tick-Holds false false true q v h = h
