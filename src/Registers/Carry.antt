-- ===== src/Registers/Carry.antt =====
-- The carry and the borrow through the bytes of a counter.
use digital_circuit_simulati.Prelude.{
  ℕ, suc, ◌+◌, ◌-◌, ◌/◌, ◌%◌, ◌^◌, ◌≤◌, ◌<◌, ◌≡◌, refl, sym, ap, subst, ◌⊎◌, inl, inr, List, [],
  ◌∷◌, arith,
}
use digital_circuit_simulati.Prelude.{length}
use digital_circuit_simulati.Prelude.Bits.{and_mask}
use digital_circuit_simulati.FlipFlop.{mask_tail}
use digital_circuit_simulati.FlipFlop.Bytes.{value, Tidy, Tidy-cons, ones, up_to_eight}
use digital_circuit_simulati.Registers.{increment, decrement}

abbrev Carries : ℕ → Type 0
Carries r =
    (b c : ℕ)
    → b < 2 ^ r
    → c ≤ 1
    → let now = (b + c) % 2 ^ 16 % 256 % 2 ^ r in
      (now < 2 ^ r) × ((now ≡ b + c) ⊎ (now + 2 ^ r ≡ b + c))

abbrev Borrows : ℕ → Type 0
Borrows r =
    (b c : ℕ)
    → b < 2 ^ r
    → c ≤ 1
    → let now = (b + 2 ^ 16 - c) % 2 ^ 16 % 256 % 2 ^ r in
      (now < 2 ^ r) × ((now + c ≡ b) ⊎ (now + c ≡ b + 2 ^ r))

of_eight :
    (P : ℕ → Type 0) (r : ℕ) → 1 ≤ r → r ≤ 8 → P 1 → P 2 → P 3 → P 4 → P 5 → P 6 → P 7 → P 8 → P r
of_eight P r p q p1 p2 p3 p4 p5 p6 p7 p8 = elim (up_to_eight r p q) [
  | inl e ↦ subst P (sym e) p1
  | inr (inl e) ↦ subst P (sym e) p2
  | inr (inr (inl e)) ↦ subst P (sym e) p3
  | inr (inr (inr (inl e))) ↦ subst P (sym e) p4
  | inr (inr (inr (inr (inl e)))) ↦ subst P (sym e) p5
  | inr (inr (inr (inr (inr (inl e))))) ↦ subst P (sym e) p6
  | inr (inr (inr (inr (inr (inr (inl e)))))) ↦ subst P (sym e) p7
  | inr (inr (inr (inr (inr (inr (inr e)))))) ↦ subst P (sym e) p8
]

low-Carries : (r : ℕ) → 1 ≤ r → r ≤ 8 → Carries r
low-Carries r p q =
    of_eight Carries r p q (λ b c h k. (omega arith, ground arith))
      (λ b c h k. (omega arith, ground arith)) (λ b c h k. (omega arith, ground arith))
      (λ b c h k. (omega arith, ground arith)) (λ b c h k. (omega arith, ground arith))
      (λ b c h k. (omega arith, ground arith)) (λ b c h k. (omega arith, ground arith))
      (λ b c h k. (omega arith, ground arith))

low-Borrows : (r : ℕ) → 1 ≤ r → r ≤ 8 → Borrows r
low-Borrows r p q =
    of_eight Borrows r p q (λ b c h k. (omega arith, ground arith))
      (λ b c h k. (omega arith, ground arith)) (λ b c h k. (omega arith, ground arith))
      (λ b c h k. (omega arith, ground arith)) (λ b c h k. (omega arith, ground arith))
      (λ b c h k. (omega arith, ground arith)) (λ b c h k. (omega arith, ground arith))
      (λ b c h k. (omega arith, ground arith))

-- Counting up adds the carry, or wraps around past all ones.
pub increment-Tidy :
    (r c : ℕ) (q : List ℕ)
    → 1 ≤ r
    → r ≤ 8
    → c ≤ 1
    → 1 ≤ length q
    → Tidy r q
    → let now = mask_tail (2 ^ r - 1) (increment c q) in
      Tidy r now
      × (length now ≡ length q)
      × ((value now ≡ value q + c) ⊎ (value now + ones r q + 1 ≡ value q + c))
unfolding mask_tail increment
increment-Tidy r c [] one eight small some_byte h = absurd (omega (arith, some_byte))
increment-Tidy r c (b ∷ []) one eight small some_byte h =
    let masked = and_mask r ((b + c) % 2 ^ 16 % 256) in
    let (fits, now) = low-Carries r one eight b c h small in
    (
      omega (arith, masked, fits),
      refl,
      elim now [ inl e ↦ inl (omega (arith, masked, e)) | inr e ↦ inr (omega (arith, masked, e)) ],
    )
increment-Tidy r c (b ∷ d ∷ bs) one eight small some_byte (low, h) =
    let carry = (b + c) % 2 ^ 16 / 256 % 2 in
    let (tidy, len, val) =
      increment-Tidy r carry (d ∷ bs) one eight (omega arith) (omega arith) h in
    (
      Tidy-cons r ((b + c) % 2 ^ 16 % 256) (mask_tail (2 ^ r - 1) (increment carry (d ∷ bs)))
          (omega arith) (omega (arith, len)) tidy,
      ap suc len,
      elim val [ inl e ↦ inl (omega (arith, e)) | inr e ↦ inr (omega (arith, e)) ],
    )

-- Counting down subtracts the borrow, or wraps around to all ones.
pub decrement-Tidy :
    (r c : ℕ) (q : List ℕ)
    → 1 ≤ r
    → r ≤ 8
    → c ≤ 1
    → 1 ≤ length q
    → Tidy r q
    → let now = mask_tail (2 ^ r - 1) (decrement c q) in
      Tidy r now
      × (length now ≡ length q)
      × ((value now + c ≡ value q) ⊎ (value now + c ≡ value q + ones r q + 1))
unfolding mask_tail decrement
decrement-Tidy r c [] one eight small some_byte h = absurd (omega (arith, some_byte))
decrement-Tidy r c (b ∷ []) one eight small some_byte h =
    let masked = and_mask r ((b + 2 ^ 16 - c) % 2 ^ 16 % 256) in
    let (fits, now) = low-Borrows r one eight b c h small in
    (
      omega (arith, masked, fits),
      refl,
      elim now [ inl e ↦ inl (omega (arith, masked, e)) | inr e ↦ inr (omega (arith, masked, e)) ],
    )
decrement-Tidy r c (b ∷ d ∷ bs) one eight small some_byte (low, h) =
    let borrow = (b + 2 ^ 16 - c) % 2 ^ 16 / 256 % 2 in
    let (tidy, len, val) =
      decrement-Tidy r borrow (d ∷ bs) one eight (omega arith) (omega arith) h in
    (
      Tidy-cons r ((b + 2 ^ 16 - c) % 2 ^ 16 % 256)
          (mask_tail (2 ^ r - 1) (decrement borrow (d ∷ bs))) (omega arith) (omega (arith, len))
          tidy,
      ap suc len,
      elim val [ inl e ↦ inl (omega (arith, e)) | inr e ↦ inr (omega (arith, e)) ],
    )
