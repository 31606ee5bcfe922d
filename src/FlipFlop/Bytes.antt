-- ===== src/FlipFlop/Bytes.antt =====
-- The bytes as one number.
use digital_circuit_simulati.Prelude.{
  ℕ, zero, suc, ◌+◌, ◌-◌, ◌*◌, ◌/◌, ◌%◌, ◌^◌, ◌≤◌, ◌<◌, ◌≡◌, refl, sym, ap, subst, ◌∙◌, ◌⊎◌, inl,
  inr, List, [], ◌∷◌, arith,
}
use digital_circuit_simulati.Prelude.{length, replicate}
use digital_circuit_simulati.Prelude.Bits.{and_mask}
use native.Mathlib.Nat.{pow-suc, pow-le-pow_right, one-le-pow}
use digital_circuit_simulati.FlipFlop.{mask_tail, complement, bytes_of}

abbrev pub value : List ℕ → ℕ
value [] = 0
value (b ∷ bs) = b + 256 * value bs

-- `r` bits of the last byte are used, and all of the others.
abbrev pub Tidy : ℕ → List ℕ → Type 0
Tidy r [] = Unit
Tidy r (b ∷ []) = b < 2 ^ r
Tidy r (b ∷ c ∷ bs) = (b < 256) × Tidy r (c ∷ bs)

-- All ones in so many bytes.
abbrev pub ones : ℕ → List ℕ → ℕ
ones r [] = 0
ones r (b ∷ []) = 2 ^ r - 1
ones r (b ∷ c ∷ bs) = 255 + 256 * ones r (c ∷ bs)

abbrev Complements : ℕ → Type 0
Complements r = (b : ℕ) → b < 2 ^ r → (255 - b) % 2 ^ r ≡ 2 ^ r - 1 - b

pub up_to_eight :
    (r : ℕ)
    → 1 ≤ r
    → r ≤ 8
    → (r ≡ 1) ⊎ (r ≡ 2) ⊎ (r ≡ 3) ⊎ (r ≡ 4) ⊎ (r ≡ 5) ⊎ (r ≡ 6) ⊎ (r ≡ 7) ⊎ (r ≡ 8)
up_to_eight r p q = ground arith

low-Complements : (r : ℕ) → 1 ≤ r → r ≤ 8 → Complements r
low-Complements r p q = elim (up_to_eight r p q) [
  | inl e ↦ subst Complements (sym e) (λ b h. omega arith)
  | inr (inl e) ↦ subst Complements (sym e) (λ b h. omega arith)
  | inr (inr (inl e)) ↦ subst Complements (sym e) (λ b h. omega arith)
  | inr (inr (inr (inl e))) ↦ subst Complements (sym e) (λ b h. omega arith)
  | inr (inr (inr (inr (inl e)))) ↦ subst Complements (sym e) (λ b h. omega arith)
  | inr (inr (inr (inr (inr (inl e))))) ↦ subst Complements (sym e) (λ b h. omega arith)
  | inr (inr (inr (inr (inr (inr (inl e)))))) ↦ subst Complements (sym e) (λ b h. omega arith)
  | inr (inr (inr (inr (inr (inr (inr e)))))) ↦ subst Complements (sym e) (λ b h. omega arith)
]

pub Tidy-cons : (r b : ℕ) (ys : List ℕ) → b < 256 → 0 < length ys → Tidy r ys → Tidy r (b ∷ ys)
Tidy-cons r b [] small filled h = let impossible : ⊥ = omega (arith, filled) in elim impossible [ ]
Tidy-cons r b (y ∷ ys) small filled h = (small, h)

-- Complementing and masking gives the complement within the bits that are used.
pub flip-Tidy :
    (r : ℕ) (q : List ℕ)
    → 1 ≤ r
    → r ≤ 8
    → Tidy r q
    → Tidy r (mask_tail (2 ^ r - 1) (complement q))
      × (value (mask_tail (2 ^ r - 1) (complement q)) + value q ≡ ones r q)
      × (length (mask_tail (2 ^ r - 1) (complement q)) ≡ length q)
unfolding mask_tail complement
flip-Tidy r [] one eight h = (tt, refl, refl)
flip-Tidy r (b ∷ []) one eight h =
    let low = and_mask r (255 - b) ∙ low-Complements r one eight b h in
    (omega (arith, low), omega (arith, low), refl)
flip-Tidy r (b ∷ c ∷ bs) one eight (small, h) =
    let (tidy, sum, len) = flip-Tidy r (c ∷ bs) one eight h in
    (
      Tidy-cons r (255 - b) (mask_tail (2 ^ r - 1) (complement (c ∷ bs))) (omega arith)
          (omega (arith, len)) tidy,
      omega (arith, sum),
      ap suc len,
    )

byte_power : (k : ℕ) → 2 ^ (k + 8) ≡ 256 * 2 ^ k
byte_power k =
    let shift : 2 ^ (k + 8) ≡ 2 ^ suc (suc (suc (suc (suc (suc (suc (suc k))))))) =
      ap (λ t. 2 ^ t) (omega arith) in
    let four : 2 ^ suc (suc (suc (suc k))) ≡ 16 * 2 ^ k = omega (
      arith,
      pow-suc 2 k,
      pow-suc 2 (suc k),
      pow-suc 2 (suc (suc k)),
      pow-suc 2 (suc (suc (suc k))),
    ) in
    let k4 = suc (suc (suc (suc k))) in
    let eight : 2 ^ suc (suc (suc (suc k4))) ≡ 16 * 2 ^ k4 = omega (
      arith,
      pow-suc 2 k4,
      pow-suc 2 (suc k4),
      pow-suc 2 (suc (suc k4)),
      pow-suc 2 (suc (suc (suc k4))),
    ) in
    omega (arith, shift, four, eight)

pub ones_power : (r b : ℕ) (bs : List ℕ) → ones r (b ∷ bs) + 1 ≡ 2 ^ (r + 8 * length bs)
ones_power r b [] =
    let same : 2 ^ (r + 8 * 0) ≡ 2 ^ r = ap (λ t. 2 ^ t) (omega arith) in
    omega (arith, same, one-le-pow r 2)
ones_power r b (c ∷ bs) =
    let later = ones_power r c bs in
    let power = byte_power (r + 8 * length bs) in
    let same : 2 ^ (r + 8 * suc (length bs)) ≡ 2 ^ (r + 8 * length bs + 8) =
      ap (λ t. 2 ^ t) (omega arith) in
    omega (arith, later, power, same)

pub bytes_of-Tidy :
    (r n v : ℕ)
    → r ≤ 8
    → v < 2 ^ (r + 8 * n)
    → Tidy r (bytes_of (suc n) v)
      × (value (bytes_of (suc n) v) ≡ v)
      × (length (bytes_of (suc n) v) ≡ suc n)
unfolding bytes_of
bytes_of-Tidy r zero v eight h =
    let fits : 2 ^ r ≤ 2 ^ 8 = pow-le-pow_right {n = 2} (omega arith) eight in
    let same : 2 ^ (r + 8 * 0) ≡ 2 ^ r = ap (λ t. 2 ^ t) (omega arith) in
    (omega arith, omega arith, refl)
bytes_of-Tidy r (suc n) v eight h =
    let power = byte_power (r + 8 * n) in
    let same : 2 ^ (r + 8 * suc n) ≡ 2 ^ (r + 8 * n + 8) = ap (λ t. 2 ^ t) (omega arith) in
    let (tidy, val, len) = bytes_of-Tidy r n (v / 256) eight (omega arith) in
    (
      Tidy-cons r (v % 256) (bytes_of (suc n) (v / 256)) (omega arith) (omega (arith, len)) tidy,
      omega (arith, val),
      ap suc len,
    )

pub clear-Tidy : (r n : ℕ) → Tidy r (replicate n 0) × (value (replicate n 0) ≡ 0)
clear-Tidy r zero = (tt, refl)
clear-Tidy r (suc zero) = (one-le-pow r 2 (omega arith), refl)
clear-Tidy r (suc (suc n)) =
    let (tidy, val) = clear-Tidy r (suc n) in ((omega arith, tidy), omega (arith, val))

-- Presetting is toggling all zeros.
pub preset-complement : (n : ℕ) → replicate n 0xFF ≡ complement (replicate n 0)
unfolding complement
preset-complement zero = refl
preset-complement (suc n) = ap (λ t. 0xFF ∷ t) (preset-complement n)
