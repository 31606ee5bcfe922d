-- ===== src/Clint/Lanes.antt =====
-- The byte lanes of a write to a register of the `clint`, bit by bit.
use digital_circuit_simulati.Prelude.{
  ℕ, zero, suc, ◌+◌, ◌-◌, ◌*◌, ◌/◌, ◌^◌, ◌≤◌, ◌<◌, ◌≡◌, refl, ap, ◌∙◌, ◌⊎◌, inl, inr, Bool, false,
  not, ◌&&◌, bit_and, arith,
}
use digital_circuit_simulati.Prelude.{leb, ◌==◌, if◌then◌else◌, Bool-cases, ℕ_discrete}
use digital_circuit_simulati.Prelude.Bits.{
  double_mul, bit, bit_le_one, bit-zero, bit-bit_and, bit-bit_or, bit_complement, bit_of_lt,
}
use digital_circuit_simulati.Clint.{
  write_lane, write_lanes, write_msip, write_cmp_low, write_cmp_high,
}

half-double : (x k : ℕ) → x * 2 ^ suc k / 2 ≡ x * 2 ^ k
half-double x k = omega (arith, double_mul x k)

-- A word that is shifted to the left by `k`.
bit-shifted_below : (k x i : ℕ) → i < k → bit (x * 2 ^ k) i ≡ 0
unfolding bit
bit-shifted_below zero x i h = absurd (omega (arith, h))
bit-shifted_below (suc k) x zero h = omega (arith, double_mul x k)
bit-shifted_below (suc k) x (suc i) h =
    ap (λ t. bit t i) (half-double x k) ∙ bit-shifted_below k x i (omega (arith, h))

bit-shifted : (k x i : ℕ) → k ≤ i → bit (x * 2 ^ k) i ≡ bit x (i - k)
unfolding bit
bit-shifted zero x i h =
    let whole : x * 2 ^ 0 ≡ x = omega arith in
    let same : i ≡ i - 0 = omega arith in ap (λ t. bit t i) whole ∙ ap (bit x) same
bit-shifted (suc k) x zero h = absurd (omega (arith, h))
bit-shifted (suc k) x (suc i) h =
    let same : i - k ≡ suc i - suc k = omega arith in
    ap (λ t. bit t i) (half-double x k) ∙ bit-shifted k x i (omega (arith, h)) ∙ ap (bit x) same

-- The byte at bit `k` as a mask.
byte_in : (k i : ℕ) → k ≤ i → i < k + 8 → bit (0xFF * 2 ^ k) i ≡ 1
byte_in k i a b = omega (
  arith,
  bit-shifted k 0xFF i a,
  bit_complement 8 0 (i - k) (omega arith) (omega (arith, a, b)),
  bit-zero (i - k),
)

byte_out : (k i : ℕ) → (i < k) ⊎ (k + 8 ≤ i) → bit (0xFF * 2 ^ k) i ≡ 0
byte_out k i (inl below) = bit-shifted_below k 0xFF i below
byte_out k i (inr above) = omega (
  arith,
  bit-shifted k 0xFF i (omega (arith, above)),
  bit_of_lt 8 0xFF (i - k) (omega arith) (omega (arith, above)),
)

-- Whether the bit `i` of the register is in the byte `b`.
abbrev in_byte : ℕ → ℕ → ℕ → Bool
in_byte shift b i = leb (shift + 8 * b) i && leb (i + 1) (shift + 8 * b + 8)

outside : (k i : ℕ) → leb k i && leb (i + 1) (k + 8) ≡ false → (i < k) ⊎ (k + 8 ≤ i)
outside k i h = elim (Bool-cases (leb k i)) [
  | inl above ↦ inr (ground arith)
  | inr below ↦ inl (ground arith)
]

lane_out :
    (shift wdat b i : ℕ)
    → (i < shift + 8 * b) ⊎ (shift + 8 * b + 8 ≤ i)
    → bit (bit_and wdat (0xFF * 2 ^ (8 * b)) * 2 ^ shift) i ≡ 0
lane_out shift wdat b i out = elim (Bool-cases (leb shift i)) [
  | inr low ↦ bit-shifted_below shift (bit_and wdat (0xFF * 2 ^ (8 * b))) i (ground arith)
  | inl high ↦
      let ge : shift ≤ i = ground arith in
      let out' : (i - shift < 8 * b) ⊎ (8 * b + 8 ≤ i - shift) = elim out [
        | inl l ↦ inl (omega (arith, l, ge))
        | inr l ↦ inr (omega (arith, l, ge))
      ] in
      omega (
        arith,
        bit-shifted shift (bit_and wdat (0xFF * 2 ^ (8 * b))) i ge,
        bit-bit_and wdat (0xFF * 2 ^ (8 * b)) (i - shift),
        byte_out (8 * b) (i - shift) out',
      )
]

write_lane-bit :
    (w shift sel wdat b x i : ℕ)
    → 0xFF * 2 ^ (shift + 8 * b) < 2 ^ w
    → i < w
    → bit (write_lane w shift sel wdat b x) i ≡ (
        if not (bit_and sel (2 ^ b) == 0) && in_byte shift b i
        then bit wdat (i - shift)
        else bit x i)
unfolding write_lane
write_lane-bit w shift sel wdat b x i fits inside = elim (Bool-cases (bit_and sel (2 ^ b) == 0)) [
  | inl off ↦ rw off refl
  | inr on ↦
      let kept = bit-bit_and x (2 ^ w - 1 - 0xFF * 2 ^ (shift + 8 * b)) i in
      let mask = bit_complement w (0xFF * 2 ^ (shift + 8 * b)) i fits inside in
      let both =
        bit-bit_or (bit_and x (2 ^ w - 1 - 0xFF * 2 ^ (shift + 8 * b)))
          (bit_and wdat (0xFF * 2 ^ (8 * b)) * 2 ^ shift) i in
      let new = bit_and wdat (0xFF * 2 ^ (8 * b)) in
      elim (Bool-cases (in_byte shift b i)) [
        | inl here ↦
            let ge : shift + 8 * b ≤ i = ground arith in
            let lt : i < shift + 8 * b + 8 = ground arith in
            rw (on, here)
              (omega (
                arith,
                kept,
                mask,
                both,
                byte_in (shift + 8 * b) i ge lt,
                bit-shifted shift new i (omega arith),
                bit-bit_and wdat (0xFF * 2 ^ (8 * b)) (i - shift),
                byte_in (8 * b) (i - shift) (omega arith) (omega arith),
                bit_le_one wdat (i - shift),
                bit_le_one x i,
              ))
        | inr there ↦
            let out = outside (shift + 8 * b) i there in
            rw (on, there)
              (omega (
                arith,
                kept,
                mask,
                both,
                byte_out (shift + 8 * b) i out,
                lane_out shift wdat b i out,
                bit_le_one x i,
              ))
      ]
]

-- The bit of `sel` that enables bit `i` of a word.
abbrev pub enabled : ℕ → ℕ → Bool
enabled sel i = not (bit_and sel (2 ^ (i / 8)) == 0)

-- What a write leaves in bit `i` of the word at bit `shift`.
abbrev pub merged_bit : ℕ → ℕ → ℕ → ℕ → ℕ → ℕ
merged_bit shift sel wdat x i =
    if leb shift i && leb (i + 1) (shift + 32) && enabled sel (i - shift)
    then bit wdat (i - shift)
    else bit x i

four_lanes :
    (shift i new old : ℕ) (on : ℕ → Bool)
    → (if on 3 && in_byte shift 3 i
        then new
        else if on 2 && in_byte shift 2 i
        then new
        else if on 1 && in_byte shift 1 i
        then new
        else if on 0 && in_byte shift 0 i
        then new
        else old)
      ≡ (if leb shift i && leb (i + 1) (shift + 32) && on ((i - shift) / 8) then new else old)
four_lanes shift i new old on = elim (ℕ_discrete ((i - shift) / 8) 3) [
  | yes q ↦ rw q (ground arith)
  | no n3 ↦ elim (ℕ_discrete ((i - shift) / 8) 2) [
    | yes q ↦ rw q (ground arith)
    | no n2 ↦ elim (ℕ_discrete ((i - shift) / 8) 1) [
      | yes q ↦ rw q (ground arith)
      | no n1 ↦ elim (ℕ_discrete ((i - shift) / 8) 0) [
        | yes q ↦ rw q (ground arith)
        | no n0 ↦ ground arith
      ]
    ]
  ]
]

write_lanes-bit :
    (w shift sel wdat x i : ℕ)
    → 0xFF * 2 ^ (shift + 8 * 0) < 2 ^ w
    → 0xFF * 2 ^ (shift + 8 * 1) < 2 ^ w
    → 0xFF * 2 ^ (shift + 8 * 2) < 2 ^ w
    → 0xFF * 2 ^ (shift + 8 * 3) < 2 ^ w
    → i < w
    → bit (write_lanes w shift sel wdat x) i ≡ merged_bit shift sel wdat x i
unfolding write_lanes
write_lanes-bit w shift sel wdat x i f0 f1 f2 f3 inside =
    let x1 = write_lane w shift sel wdat 0 x in
    let x2 = write_lane w shift sel wdat 1 x1 in
    let x3 = write_lane w shift sel wdat 2 x2 in
    let e0 = write_lane-bit w shift sel wdat 0 x i f0 inside in
    let e1 = write_lane-bit w shift sel wdat 1 x1 i f1 inside in
    let e2 = write_lane-bit w shift sel wdat 2 x2 i f2 inside in
    let e3 = write_lane-bit w shift sel wdat 3 x3 i f3 inside in
    let lane : ℕ → ℕ → ℕ = λ b v.
      if not (bit_and sel (2 ^ b) == 0) && in_byte shift b i then bit wdat (i - shift) else v in
    e3
    ∙ ap (lane 3) (e2 ∙ ap (lane 2) (e1 ∙ ap (lane 1) e0))
    ∙ four_lanes shift i (bit wdat (i - shift)) (bit x i) (λ b. not (bit_and sel (2 ^ b) == 0))

pub write_msip-bit :
    (sel wdat msip i : ℕ) → i < 32 → bit (write_msip sel wdat msip) i ≡ merged_bit 0 sel wdat msip i
unfolding write_msip
write_msip-bit sel wdat msip i inside =
    write_lanes-bit 32 0 sel wdat msip i (omega arith) (omega arith) (omega arith) (omega arith)
      inside

low_mask : (x i : ℕ) → i < 32 → bit (bit_and x 0xFFFFFFFF) i ≡ bit x i
low_mask x i h = omega (
  arith,
  bit-bit_and x 0xFFFFFFFF i,
  bit_complement 32 0 i (omega arith) h,
  bit-zero i,
  bit_le_one x i,
)

low_mask_above : (x i : ℕ) → 32 ≤ i → bit (bit_and x 0xFFFFFFFF) i ≡ 0
low_mask_above x i h =
    omega (arith, bit-bit_and x 0xFFFFFFFF i, bit_of_lt 32 0xFFFFFFFF i (omega arith) h)

high_mask : (x i : ℕ) → 32 ≤ i → i < 64 → bit (bit_and x 0xFFFFFFFF00000000) i ≡ bit x i
high_mask x i h k = omega (
  arith,
  bit-bit_and x 0xFFFFFFFF00000000 i,
  bit_complement 64 0xFFFFFFFF i (omega arith) k,
  bit_of_lt 32 0xFFFFFFFF i (omega arith) h,
  bit_le_one x i,
)

high_mask_below : (x i : ℕ) → i < 32 → bit (bit_and x 0xFFFFFFFF00000000) i ≡ 0
high_mask_below x i h = omega (
  arith,
  bit-bit_and x 0xFFFFFFFF00000000 i,
  bit_complement 64 0xFFFFFFFF i (omega arith) (omega arith),
  bit_complement 32 0 i (omega arith) h,
  bit-zero i,
)

merged_same :
    (shift sel wdat x y i : ℕ)
    → bit x i ≡ bit y i
    → merged_bit shift sel wdat x i ≡ merged_bit shift sel wdat y i
merged_same shift sel wdat x y i e =
    ap
      (λ t.
        if leb shift i && leb (i + 1) (shift + 32) && enabled sel (i - shift)
        then bit wdat (i - shift)
        else t)
      e

pub write_cmp_low-bit :
    (sel wdat cmp i : ℕ) → i < 64 → bit (write_cmp_low sel wdat cmp) i ≡ merged_bit 0 sel wdat cmp i
unfolding write_cmp_low
write_cmp_low-bit sel wdat cmp i inside =
    let lo = write_lanes 64 0 sel wdat (bit_and cmp 0xFFFFFFFF) in
    let both = bit-bit_or (bit_and cmp 0xFFFFFFFF00000000) (bit_and lo 0xFFFFFFFF) i in
    let lanes =
      write_lanes-bit 64 0 sel wdat (bit_and cmp 0xFFFFFFFF) i (omega arith) (omega arith)
        (omega arith) (omega arith) inside in
    elim (Bool-cases (leb 32 i)) [
      | inl high ↦
          let ge : 32 ≤ i = ground arith in
          let kept : merged_bit 0 sel wdat cmp i ≡ bit cmp i = ground arith in
          omega (arith, both, high_mask cmp i ge inside, low_mask_above lo i ge, kept)
      | inr low ↦
          let lt : i < 32 = ground arith in
          omega (
            arith,
            both,
            high_mask_below cmp i lt,
            low_mask lo i lt,
            lanes,
            merged_same 0 sel wdat (bit_and cmp 0xFFFFFFFF) cmp i (low_mask cmp i lt),
          )
    ]

pub write_cmp_high-bit :
    (sel wdat cmp i : ℕ)
    → i < 64
    → bit (write_cmp_high sel wdat cmp) i ≡ merged_bit 32 sel wdat cmp i
unfolding write_cmp_high
write_cmp_high-bit sel wdat cmp i inside =
    let hi = write_lanes 64 32 sel wdat (bit_and cmp 0xFFFFFFFF00000000) in
    let both = bit-bit_or hi (bit_and cmp 0xFFFFFFFF) i in
    let lanes =
      write_lanes-bit 64 32 sel wdat (bit_and cmp 0xFFFFFFFF00000000) i (omega arith) (omega arith)
        (omega arith) (omega arith) inside in
    elim (Bool-cases (leb 32 i)) [
      | inl high ↦
          let ge : 32 ≤ i = ground arith in
          omega (
            arith,
            both,
            low_mask_above cmp i ge,
            lanes,
            merged_same 32 sel wdat (bit_and cmp 0xFFFFFFFF00000000) cmp i
                (high_mask cmp i ge inside),
          )
      | inr low ↦
          let lt : i < 32 = ground arith in
          let old : merged_bit 32 sel wdat (bit_and cmp 0xFFFFFFFF00000000) i
              ≡ bit (bit_and cmp 0xFFFFFFFF00000000) i =
            ground arith in
          let kept : merged_bit 32 sel wdat cmp i ≡ bit cmp i = ground arith in
          omega (arith, both, low_mask cmp i lt, lanes, high_mask_below cmp i lt, old, kept)
    ]
