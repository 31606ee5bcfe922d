-- ===== src/Registers/Shift.antt =====
-- Shift registers as numbers of `length` bits.
use digital_circuit_simulati.Prelude.{
  ℕ, zero, suc, ◌+◌, ◌-◌, ◌*◌, ◌/◌, ◌%◌, ◌^◌, ◌≤◌, ◌<◌, ◌≡◌, refl, sym, ap, subst, ◌∙◌, inl, inr,
  Bool, true, false, List, [], ◌∷◌, bit_and, bit_or, arith,
}
use digital_circuit_simulati.Prelude.{leb, if◌then◌else◌, Bool-cases, ℕ_discrete}
use digital_circuit_simulati.Prelude.Bits.{bit-bit_or, bit_ext, or_zero, or_shifted, and_mask}
use native.Mathlib.Nat.{
  pow-suc, one-le-pow, mod-lt, mod-add-mod, mod-mod, mod-eq_of_lt, pow-le-pow_right,
}
use digital_circuit_simulati.FlipFlop.Bytes.{value}
use digital_circuit_simulati.FlipFlop.Refine.{Holds, clear-Holds, load-Holds}
use digital_circuit_simulati.Registers.{
  word_width, word_of, shift_left, shift_right, ShiftInputs, shift_tick,
}
use digital_circuit_simulati.Registers.Count.{Holds-max}

abbrev digit : Bool → ℕ
digit b = if b then 1 else 0

-- The number after one shift: the new bit enters at the top to the right, at the bottom to the left.
abbrev pub shifted : ℕ → Bool → Bool → ℕ → ℕ
shifted width dir sin v =
    if dir
    then v / 2 + (if sin then 2 ^ (width - 1) else 0)
    else (v * 2 + (if sin then 1 else 0)) % 2 ^ width

word_of-value : (q : List ℕ) → word_of q ≡ value q
unfolding word_of
word_of-value [] = refl
word_of-value (b ∷ bs) = omega (arith, word_of-value bs)

or_comm : (x y : ℕ) → bit_or x y ≡ bit_or y x
or_comm x y =
    bit_ext (bit_or x y) (bit_or y x) (λ i. omega (arith, bit-bit_or x y i, bit-bit_or y x i))

or_digit : (x : ℕ) (b : Bool) → bit_or (x * 2) (digit b) ≡ x * 2 + digit b
or_digit x true = or_shifted 1 x 1 (omega arith)
or_digit x false = or_shifted 1 x 0 (omega arith)

word_width_le : (width : ℕ) → width ≤ 64 → width ≤ word_width width
unfolding word_width
word_width_le width h = ground arith

-- The shift to the left in a word that may be wider than the register.
left_mod :
    (width v : ℕ)
    → width ≤ 64
    → v < 2 ^ width
    → v * 2 % 2 ^ word_width width % 2 ^ width ≡ v * 2 % 2 ^ width
left_mod width v small h = elim (ℕ_discrete width (word_width width)) [
  | yes same ↦
      subst (λ u. v * 2 % 2 ^ u % 2 ^ width ≡ v * 2 % 2 ^ width) same (mod-mod (v * 2) (2 ^ width))
  | no wider ↦
      let room =
        pow-le-pow_right {n = 2} (omega arith) (omega (arith, word_width_le width small, wider)) in
      let room' : 2 ^ suc width ≤ 2 ^ word_width width = room in
      ap (λ t. t % 2 ^ width) (mod-eq_of_lt (omega (arith, h, room', pow-suc 2 width)))
]

even_word : (width v : ℕ) → v * 2 % 2 ^ word_width width % 2 ≡ 0
unfolding word_width
even_word width v = elim (Bool-cases (leb width 8)) [
  | inl a ↦ rw a (omega arith)
  | inr a ↦ elim (Bool-cases (leb width 16)) [
    | inl b ↦ rw (a, b) (omega arith)
    | inr b ↦ elim (Bool-cases (leb width 32)) [
      | inl c ↦ rw (a, b, c) (omega arith)
      | inr c ↦ rw (a, b, c) (omega arith)
    ]
  ]
]

left_word :
    (width v : ℕ) (sin : Bool)
    → width ≤ 64
    → v < 2 ^ width
    → bit_and (bit_or (v * 2 % 2 ^ word_width width) (digit sin)) (2 ^ width - 1)
      ≡ (v * 2 + digit sin) % 2 ^ width
left_word width v sin small h =
    let x = v * 2 % 2 ^ word_width width in
    let half : x ≡ x / 2 * 2 = omega (arith, even_word width v) in
    let joined : bit_or x (digit sin) ≡ x + digit sin =
      ap (λ t. bit_or t (digit sin)) half
      ∙ or_digit (x / 2) sin
      ∙ ap (λ t. t + digit sin) (sym half) in
    ap (λ t. bit_and t (2 ^ width - 1)) joined
    ∙ and_mask width (x + digit sin)
    ∙ sym (mod-add-mod x (2 ^ width) (digit sin))
    ∙ ap (λ t. (t + digit sin) % 2 ^ width) (left_mod width v small h)
    ∙ mod-add-mod (v * 2) (2 ^ width) (digit sin)

right_word :
    (width v : ℕ) (sin : Bool)
    → 1 ≤ width
    → v < 2 ^ width
    → (bit_and (bit_or (v / 2) (if sin then 2 ^ (width - 1) else 0)) (2 ^ width - 1)
        ≡ v / 2 + (if sin then 2 ^ (width - 1) else 0))
      × (v / 2 + (if sin then 2 ^ (width - 1) else 0) < 2 ^ width)
right_word zero v sin pos h = absurd (omega (arith, pos))
right_word (suc k) v sin pos h =
    let top : suc k - 1 ≡ k = omega arith in
    let low : v / 2 < 2 ^ k = omega (arith, h, pow-suc 2 k) in
    let here = or_comm (v / 2) (1 * 2 ^ k) ∙ or_shifted k 1 (v / 2) low in
    elim (Bool-cases sin) [
      | inl one ↦
          let joined : bit_or (v / 2) (2 ^ k) ≡ v / 2 + 2 ^ k =
            ap (bit_or (v / 2)) (omega arith) ∙ here ∙ omega arith in
          let room : v / 2 + 2 ^ k < 2 ^ suc k = omega (arith, low, pow-suc 2 k) in
          rw (one, top)
            (
              ap (λ t. bit_and t (2 ^ suc k - 1)) joined
                  ∙ and_mask (suc k) (v / 2 + 2 ^ k)
                  ∙ mod-eq_of_lt room,
              room,
            )
      | inr none_in ↦
          let room : v / 2 + 0 < 2 ^ suc k = omega (arith, low, pow-suc 2 k) in
          let same : bit_or (v / 2) 0 ≡ v / 2 + 0 = or_zero (v / 2) ∙ omega arith in
          rw none_in (
            ap (λ t. bit_and t (2 ^ suc k - 1)) same
                ∙ and_mask (suc k) (v / 2 + 0)
                ∙ mod-eq_of_lt room,
            room,
          )
    ]

module _ (width : ℕ) (pos : 1 ≤ width) (small : width ≤ 64) where
  shift_one-Holds :
      (dir sin : Bool) (q : List ℕ) (v : ℕ)
      → Holds width q v
      → Holds width
          (if dir then shift_right width sin q else shift_left width sin q)
          (shifted width dir sin v)
  unfolding shift_left shift_right
  shift_one-Holds true sin q v h =
      let word = word_of-value q ∙ h.holds in
      let (same, fits) = right_word width v sin pos (Holds-max width pos q v h) in
      rw (word, same) (load-Holds width pos (v / 2 + (if sin then 2 ^ (width - 1) else 0)) fits)
  shift_one-Holds false sin q v h =
      let word = word_of-value q ∙ h.holds in
      let same = left_word width v sin small (Holds-max width pos q v h) in
      rw (word, same)
        (load-Holds width pos ((v * 2 + digit sin) % 2 ^ width)
          (mod-lt (v * 2 + digit sin) (omega (arith, one-le-pow width 2))))

  -- A shift register is a number of its width: `clr` makes it 0, else a rising edge halves it with
  -- the serial bit entering at the top, or doubles it modulo its range with the bit at the bottom.
  pub shift_tick-Holds :
      (i : ShiftInputs) (q : List ℕ) (v : ℕ)
      → Holds width q v
      → Holds width
          (shift_tick width i q)
          (if i.clr then 0 else if i.rising then shifted width i.dir i.sin v else v)
  unfolding shift_tick
  shift_tick-Holds i q v h = elim (Bool-cases i.clr) [
    | inl clr ↦ rw clr (clear-Holds width)
    | inr no_clr ↦ elim (Bool-cases i.rising) [
      | inl up ↦ rw (no_clr, up) (shift_one-Holds i.dir i.sin q v h)
      | inr keep ↦ rw (no_clr, keep) h
    ]
  ]
