-- ===== src/AsyncFifo/Gray.antt =====
-- Gray codes: the pointers of the asynchronous fifo as they cross to the other clock.
use digital_circuit_simulati.Prelude.{
  ℕ, zero, suc, ◌+◌, ◌-◌, ◌*◌, ◌/◌, ◌%◌, ◌^◌, ◌≤◌, ◌<◌, ◌≡◌, refl, ap, ◌∙◌, bit_xor, arith,
}
use digital_circuit_simulati.Prelude.Bits.{bit_xor_low, odd_one}
use digital_circuit_simulati.Prelude.{ltb, Bool-cases, inl, inr}
use native.Mathlib.Nat.{pow-suc, mod-eq_of_lt, mod-eq-sub-mod}
use digital_circuit_simulati.AsyncFifo.{gray_code}

gray_code-low : (x : ℕ) → gray_code x ≡ gray_code (x / 2) * 2 + odd_one (x % 2) (x / 2 % 2)
unfolding gray_code
gray_code-low x = bit_xor_low x (x / 2)

gray_code-zero : gray_code 0 ≡ 0
unfolding gray_code
gray_code-zero = refl

-- Different numbers of `k` bits have different codes.
pub gray_code-injective : (k x y : ℕ) → x < 2 ^ k → y < 2 ^ k → gray_code x ≡ gray_code y → x ≡ y
gray_code-injective zero x y p q h = omega (arith, p, q)
gray_code-injective (suc k) x y p q h =
    let halves =
      gray_code-injective k (x / 2) (y / 2) (omega (arith, p, pow-suc 2 k))
        (omega (arith, q, pow-suc 2 k)) (omega (arith, h, gray_code-low x, gray_code-low y)) in
    omega (arith, h, gray_code-low x, gray_code-low y, halves)

xor_double : (x v : ℕ) → bit_xor x (v * 2) ≡ bit_xor (x / 2) v * 2 + x % 2
xor_double x v =
    let half : v * 2 / 2 ≡ v = omega arith in
    let same : bit_xor (x / 2) (v * 2 / 2) ≡ bit_xor (x / 2) v = ap (bit_xor (x / 2)) half in
    omega (arith, bit_xor_low x (v * 2), same)

-- Half the range ahead is above or below.
ahead_low : (k x : ℕ) → x < 2 ^ k → (x + 2 ^ k) % 2 ^ suc k ≡ x + 2 ^ k
ahead_low k x h = mod-eq_of_lt (omega (arith, h, pow-suc 2 k))

ahead_high : (k x : ℕ) → 2 ^ k ≤ x → x < 2 ^ suc k → (x + 2 ^ k) % 2 ^ suc k ≡ x - 2 ^ k
ahead_high k x h lt =
    let past : 2 ^ suc k ≤ x + 2 ^ k = omega (arith, h, pow-suc 2 k) in
    let rest : x + 2 ^ k - 2 ^ suc k ≡ x - 2 ^ k = omega (arith, h, pow-suc 2 k) in
    mod-eq-sub-mod past ∙ ap (λ t. t % 2 ^ suc k) rest ∙ mod-eq_of_lt (omega (arith, lt))

ahead_half :
    (k x : ℕ)
    → 1 ≤ k
    → x < 2 ^ suc (suc k)
    → ((x + 2 ^ suc k) % 2 ^ suc (suc k) / 2 ≡ (x / 2 + 2 ^ k) % 2 ^ suc k)
      × ((x + 2 ^ suc k) % 2 ^ suc (suc k) % 2 ≡ x % 2)
ahead_half k x one lt = elim (Bool-cases (ltb x (2 ^ suc k))) [
  | inl low ↦
      let below : x < 2 ^ suc k = ground arith in
      let now = ahead_low (suc k) x below in
      let half = ahead_low k (x / 2) (omega (arith, below, pow-suc 2 k)) in
      (omega (arith, now, half, pow-suc 2 k), omega (arith, now, pow-suc 2 k))
  | inr high ↦
      let above : 2 ^ suc k ≤ x = ground arith in
      let now = ahead_high (suc k) x above lt in
      let half =
        ahead_high k (x / 2) (omega (arith, above, pow-suc 2 k))
          (omega (arith, lt, pow-suc 2 (suc k))) in
      (omega (arith, now, half, above, pow-suc 2 k), omega (arith, now, above, pow-suc 2 k))
]

four_codes : (x : ℕ) → x < 4 → gray_code ((x + 2) % 4) ≡ bit_xor (gray_code x) 3
unfolding gray_code
four_codes zero h = refl
four_codes (suc zero) h = refl
four_codes (suc (suc zero)) h = refl
four_codes (suc (suc (suc zero))) h = refl
four_codes (suc (suc (suc (suc x)))) h = absurd (omega (arith, h))

-- Half the range is even, so the lowest digit of the half is kept.
ahead_even : (a y : ℕ) → y < 2 ^ suc (suc a) → (y + 2 ^ suc a) % 2 ^ suc (suc a) % 2 ≡ y % 2
ahead_even a y lt = elim (Bool-cases (ltb y (2 ^ suc a))) [
  | inl low ↦ omega (arith, ahead_low (suc a) y (ground arith), pow-suc 2 a)
  | inr high ↦
      let above : 2 ^ suc a ≤ y = ground arith in
      omega (arith, ahead_high (suc a) y above lt, above, pow-suc 2 a)
]

-- A pointer that is half its range ahead has a code that differs in the two highest bits.
pub gray_code-ahead :
    (a x : ℕ)
    → x < 2 ^ suc (suc a)
    → gray_code ((x + 2 ^ suc a) % 2 ^ suc (suc a)) ≡ bit_xor (gray_code x) (3 * 2 ^ a)
gray_code-ahead zero x lt = four_codes x lt
gray_code-ahead (suc a) x lt =
    let far = (x + 2 ^ suc (suc a)) % 2 ^ suc (suc (suc a)) in
    let (half, low) = ahead_half (suc a) x (omega arith) lt in
    let small : x / 2 < 2 ^ suc (suc a) = omega (arith, lt, pow-suc 2 (suc (suc a))) in
    let down = gray_code-ahead a (x / 2) small in
    let even = ahead_even a (x / 2) small in
    let codes : gray_code (far / 2) ≡ bit_xor (gray_code (x / 2)) (3 * 2 ^ a) =
      ap gray_code half ∙ down in
    let digit : far / 2 % 2 ≡ x / 2 % 2 = ap (λ t. t % 2) half ∙ even in
    let parts : gray_code x / 2 ≡ gray_code (x / 2) = omega (arith, gray_code-low x) in
    let bits : 3 * 2 ^ suc a ≡ 3 * 2 ^ a * 2 = omega (arith, pow-suc 2 a) in
    let right = ap (bit_xor (gray_code x)) bits ∙ xor_double (gray_code x) (3 * 2 ^ a) in
    let right' : bit_xor (gray_code x / 2) (3 * 2 ^ a) ≡ bit_xor (gray_code (x / 2)) (3 * 2 ^ a) =
      ap (λ t. bit_xor t (3 * 2 ^ a)) parts in
    omega (arith, gray_code-low far, gray_code-low x, codes, digit, low, right, right')
