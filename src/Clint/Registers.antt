-- ===== src/Clint/Registers.antt =====
-- The registers of the `clint`: what a write leaves in them, their ranges and the count of the timer.
use digital_circuit_simulati.Prelude.{
  ℕ, ◌+◌, ◌-◌, ◌*◌, ◌%◌, ◌^◌, ◌<◌, ◌≡◌, refl, ◌∙◌, inl, inr, Bool, true, false, not, ◌&&◌, List, [],
  ◌∷◌, bit_and, arith,
}
use digital_circuit_simulati.Prelude.{◌==◌, if◌then◌else◌, Bool-cases}
use native.Mathlib.Nat.{mul-le-mul_right}
use digital_circuit_simulati.Prelude.Bits.{bit, or_lt, and_le}
use digital_circuit_simulati.Clint.{
  Clint, Inputs, Outputs, off_msip, off_mtimecmp, write_lane, write_lanes, write_msip,
  write_cmp_low, write_cmp_high, write_reg, body, tick,
}
use digital_circuit_simulati.Clint.Lanes.{
  merged_bit, write_msip-bit, write_cmp_low-bit, write_cmp_high-bit,
}
use digital_circuit_simulati.Clint.Settled.{run}

-- A write to the offset `off`, register by register.
pub record Written (off sel wdat : ℕ) (s s' : Clint) : Type 0 where
  pub software :
      (i : ℕ)
      → i < 32
      → bit s'.msip i ≡ (if off == off_msip then merged_bit 0 sel wdat s.msip i else bit s.msip i)
  pub compare :
      (i : ℕ)
      → i < 64
      → bit s'.mtimecmp i ≡ (
          if off == off_mtimecmp
          then merged_bit 0 sel wdat s.mtimecmp i
          else if off == off_mtimecmp + 4
          then merged_bit 32 sel wdat s.mtimecmp i
          else bit s.mtimecmp i)
  pub timer : s'.mtime ≡ s.mtime

-- A write changes the enabled bytes of the addressed register to those of the data, the two words
-- of the comparator among them, and leaves all other bits as they are.
pub write_reg-Written :
    (adr sel wdat : ℕ) (s : Clint)
    → Written (bit_and adr 0xFFFC) sel wdat s (write_reg adr sel wdat s)
unfolding write_reg
write_reg-Written adr sel wdat s = elim (Bool-cases (bit_and adr 0xFFFC == off_msip)) [
  | inl soft ↦
      let at : bit_and adr 0xFFFC ≡ 0 = ground arith in
      rw at (record {
        software = λ i h. write_msip-bit sel wdat s.msip i h;
        compare = λ i h. refl;
        timer = refl;
      })
  | inr other ↦ elim (Bool-cases (bit_and adr 0xFFFC == off_mtimecmp)) [
    | inl low ↦
        let at : bit_and adr 0xFFFC ≡ 0x4000 = ground arith in
        rw at (record {
          software = λ i h. refl;
          compare = λ i h. write_cmp_low-bit sel wdat s.mtimecmp i h;
          timer = refl;
        })
    | inr not_low ↦ elim (Bool-cases (bit_and adr 0xFFFC == off_mtimecmp + 4)) [
      | inl high ↦
          let at : bit_and adr 0xFFFC ≡ 0x4004 = ground arith in
          rw at (record {
            software = λ i h. refl;
            compare = λ i h. write_cmp_high-bit sel wdat s.mtimecmp i h;
            timer = refl;
          })
      | inr none_of ↦
          rw (other, not_low, none_of)
            (record {
              software = λ i h. rw other refl;
              compare = λ i h. rw (not_low, none_of) refl;
              timer = refl;
            })
    ]
  ]
]

-- The registers fit their words.
pub record InRange (s : Clint) : Type 0 where
  pub mtime : s.mtime < 2 ^ 64
  pub mtimecmp : s.mtimecmp < 2 ^ 64
  pub msip : s.msip < 2 ^ 32

write_lane_lt :
    (w shift sel wdat b x : ℕ)
    → wdat < 2 ^ 32
    → wdat * 2 ^ shift < 2 ^ w
    → x < 2 ^ w
    → write_lane w shift sel wdat b x < 2 ^ w
unfolding write_lane
write_lane_lt w shift sel wdat b x word room fits = elim (Bool-cases (bit_and sel (2 ^ b) == 0)) [
  | inl off ↦ rw off fits
  | inr on ↦
      let kept = and_le w x (2 ^ w - 1 - 0xFF * 2 ^ (shift + 8 * b)) fits in
      let new = mul-le-mul_right (2 ^ shift) (and_le 32 wdat (0xFF * 2 ^ (8 * b)) word) in
      rw on (
        or_lt w (bit_and x (2 ^ w - 1 - 0xFF * 2 ^ (shift + 8 * b)))
          (bit_and wdat (0xFF * 2 ^ (8 * b)) * 2 ^ shift) (omega (arith, kept, fits))
          (omega (arith, new, room)))
]

write_lanes_lt :
    (w shift sel wdat x : ℕ)
    → wdat < 2 ^ 32
    → wdat * 2 ^ shift < 2 ^ w
    → x < 2 ^ w
    → write_lanes w shift sel wdat x < 2 ^ w
unfolding write_lanes
write_lanes_lt w shift sel wdat x word room fits = write_lane_lt w shift sel wdat 3 _ word room (
    write_lane_lt w shift sel wdat 2 _ word room (
      write_lane_lt w shift sel wdat 1 _ word room
        (write_lane_lt w shift sel wdat 0 x word room fits)))

write_reg-InRange :
    (adr sel wdat : ℕ) (s : Clint) → wdat < 2 ^ 32 → InRange s → InRange (write_reg adr sel wdat s)
unfolding write_reg write_msip write_cmp_low write_cmp_high
write_reg-InRange adr sel wdat s word h =
    let low =
      write_lanes_lt 64 0 sel wdat (bit_and s.mtimecmp 0xFFFFFFFF) word (omega (arith, word))
        (omega (arith, and_le 64 s.mtimecmp 0xFFFFFFFF h.mtimecmp, h.mtimecmp)) in
    let lo = write_lanes 64 0 sel wdat (bit_and s.mtimecmp 0xFFFFFFFF) in
    let high =
      write_lanes_lt 64 32 sel wdat (bit_and s.mtimecmp 0xFFFFFFFF00000000) word
        (omega (arith, word))
        (omega (arith, and_le 64 s.mtimecmp 0xFFFFFFFF00000000 h.mtimecmp, h.mtimecmp)) in
    let hi = write_lanes 64 32 sel wdat (bit_and s.mtimecmp 0xFFFFFFFF00000000) in
    let low_cmp : write_cmp_low sel wdat s.mtimecmp < 2 ^ 64 =
      or_lt 64 (bit_and s.mtimecmp 0xFFFFFFFF00000000) (bit_and lo 0xFFFFFFFF)
        (omega (arith, and_le 64 s.mtimecmp 0xFFFFFFFF00000000 h.mtimecmp, h.mtimecmp))
        (omega (arith, and_le 64 lo 0xFFFFFFFF low, low)) in
    let high_cmp : write_cmp_high sel wdat s.mtimecmp < 2 ^ 64 =
      or_lt 64 hi (bit_and s.mtimecmp 0xFFFFFFFF) high
        (omega (arith, and_le 64 s.mtimecmp 0xFFFFFFFF h.mtimecmp, h.mtimecmp)) in
    let soft : write_msip sel wdat s.msip < 2 ^ 32 =
      write_lanes_lt 32 0 sel wdat s.msip word (omega (arith, word)) h.msip in
    elim (Bool-cases (bit_and adr 0xFFFC == off_msip)) [
      | inl at ↦ rw at (record { mtime = h.mtime; mtimecmp = h.mtimecmp; msip = soft })
      | inr other ↦ elim (Bool-cases (bit_and adr 0xFFFC == off_mtimecmp)) [
        | inl at ↦ rw (other, at) (record { mtime = h.mtime; mtimecmp = low_cmp; msip = h.msip })
        | inr not_low ↦ elim (Bool-cases (bit_and adr 0xFFFC == off_mtimecmp + 4)) [
          | inl at ↦
              rw (other, not_low, at)
                (record { mtime = h.mtime; mtimecmp = high_cmp; msip = h.msip })
          | inr none_of ↦ rw (other, not_low, none_of) h
        ]
      ]
    ]

abbrev pub rises : List Inputs → ℕ
rises [] = 0
rises (i ∷ is) = (if i.rising then 1 else 0) + rises is

abbrev pub Words : List Inputs → Type 0
Words [] = Unit
Words (i ∷ is) = (i.wdat < 2 ^ 32) × Words is

write_reg_mtime : (adr sel wdat : ℕ) (s : Clint) → (write_reg adr sel wdat s).mtime ≡ s.mtime
write_reg_mtime adr sel wdat s = (write_reg-Written adr sel wdat s).timer

-- The registers are in range and the timer stands at `t`.
abbrev At : ℕ → Clint → Type 0
At t s = InRange s × (s.mtime ≡ t)

counted-At :
    (i : Inputs) (s : Clint)
    → InRange s
    → At
        ((s.mtime + (if i.rising then 1 else 0)) % 2 ^ 64)
        (if i.rising then record s { mtime = (s.mtime + 1) % 2 ^ 64 } else s)
counted-At i s h = elim (Bool-cases i.rising) [
  | inl up ↦ rw up (record { mtime = omega arith; mtimecmp = h.mtimecmp; msip = h.msip }, refl)
  | inr still ↦ rw still (h, omega (arith, h.mtime))
]

written-At :
    (i : Inputs) (writes : Bool) (t : ℕ) (s : Clint)
    → i.wdat < 2 ^ 32
    → At t s
    → At t (if writes then write_reg i.adr i.sel i.wdat s else s)
written-At i true t s word (h, e) =
    (write_reg-InRange i.adr i.sel i.wdat s word h, write_reg_mtime i.adr i.sel i.wdat s ∙ e)
written-At i false t s word h = h

body-At :
    (i : Inputs) (active prev : Bool) (s : Clint)
    → i.wdat < 2 ^ 32
    → InRange s
    → At ((s.mtime + (if i.rising then 1 else 0)) % 2 ^ 64) (body i active prev s).0
unfolding body
body-At i active prev s word h =
    written-At i (active && not prev && i.we) _
      (if i.rising then record s { mtime = (s.mtime + 1) % 2 ^ 64 } else s) word (counted-At i s h)

latched-InRange : (b : Bool) (s : Clint) → InRange s → InRange (record s { prev_stb = b })
latched-InRange b s h = record { mtime = h.mtime; mtimecmp = h.mtimecmp; msip = h.msip }

tick-At :
    (i : Inputs) (s : Clint) (o : Outputs)
    → i.wdat < 2 ^ 32
    → InRange s
    → At ((s.mtime + (if i.rising then 1 else 0)) % 2 ^ 64) (tick i (s, o)).0
unfolding tick
tick-At i s o word h = elim (Bool-cases (not i.rising && not (i.stb && i.cyc) && not s.prev_stb)) [
  | inr works ↦ rw works (
      body-At i (i.stb && i.cyc) s.prev_stb (record s { prev_stb = i.stb && i.cyc }) word
        (latched-InRange (i.stb && i.cyc) s h))
  | inl idle ↦
      let still : i.rising ≡ false = ground arith in
      rw (idle, still) (latched-InRange (i.stb && i.cyc) s h, omega (arith, h.mtime))
]

run-step :
    (m r k n t : ℕ) → m ≡ (t + r) % 2 ^ 64 → n ≡ (m + k) % 2 ^ 64 → n ≡ (t + (r + k)) % 2 ^ 64
run-step m r k n t e f = omega (arith, e, f)

-- After any ticks with 32-bit data, from registers in range, the registers fit their 64 and 32
-- bits, and the timer is the number of rising edges past its start modulo 2 ^ 64.
pub run-InRange :
    (is : List Inputs) (s : Clint) (o : Outputs)
    → Words is
    → InRange s
    → InRange (run is (s, o)).0 × ((run is (s, o)).0.mtime ≡ (s.mtime + rises is) % 2 ^ 64)
run-InRange [] s o words h = (h, omega (arith, h.mtime))
run-InRange (i ∷ is) s o (word, words) h =
    let (now, at) = tick-At i s o word h in
    let next = tick i (s, o) in
    let (later, after) = run-InRange is next.0 next.1 words now in
    (
      later,
      run-step next.0.mtime (if i.rising then 1 else 0) (rises is) (run is next).0.mtime s.mtime at
          after,
    )
