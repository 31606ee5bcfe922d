-- ===== src/Prelude/Bits.antt =====
-- The bitwise operators of C on unsigned words, digit by digit. `bit x i` is bit `i` of `x`; the
-- laws say what `&`, `|`, `<<` and a mask do to each bit, and that the bits determine the word.
use Prim.Native.Nat.{ℕ, zero, suc, ◌+◌, ◌-◌, ◌*◌, ◌/◌, ◌%◌, ◌^◌, ◌≤◌, ◌<◌, min, max}
use Prim.Native.Nat.{
  bit_and, bit_or, bit_xor, digits, bit_and-bitwise, bit_or-bitwise, bit_xor-bitwise,
}
use Prim.Native.Nat.{bitwise, differ}
use mathlib.Core.Path.{◌≡◌, refl, ap, ◌∙◌}
use mathlib.Core.Logic.{◌≢◌}
use native.Mathlib.Nat.{pow-suc, one-le-pow, div-div-eq-div-mul}
use native.Mathlib.Omega.{arith}

-- One step of the recursion that the native operations stand for, its fuel dropped.
module _ (end : ℕ → ℕ) (join : ℕ → ℕ → ℕ) where
  enough_fuel : (f g x y : ℕ) → x ≤ f → x ≤ g → digits end join f x y ≡ digits end join g x y
  enough_fuel f g zero y p q = trivial f g
    where
      trivial : (f g : ℕ) → digits end join f 0 y ≡ digits end join g 0 y
      trivial zero zero = refl
      trivial zero (suc g) = refl
      trivial (suc f) zero = refl
      trivial (suc f) (suc g) = refl
  enough_fuel zero g (suc x) y p q = absurd (omega arith)
  enough_fuel (suc f) zero (suc x) y p q = absurd (omega arith)
  enough_fuel (suc f) (suc g) (suc x) y p q =
      rw (enough_fuel f g (suc x / 2) (y / 2) (omega arith) (omega arith))

  bitwise-low :
      (x y : ℕ)
      → bitwise end join (suc x) y
        ≡ bitwise end join (suc x / 2) (y / 2) * 2 + join (suc x % 2) (y % 2)
  bitwise-low x y =
      ap (λ (t : ℕ). t * 2 + join (suc x % 2) (y % 2))
        (enough_fuel x (suc x / 2) (suc x / 2) (y / 2) (omega arith) (omega arith))

pub bit_and_low : (x y : ℕ) → bit_and x y ≡ bit_and (x / 2) (y / 2) * 2 + min (x % 2) (y % 2)
bit_and_low zero y = simp bit_and-bitwise (omega arith)
bit_and_low (suc x) y = simp bit_and-bitwise (bitwise-low (λ _. 0) min x y)

pub bit_or_low : (x y : ℕ) → bit_or x y ≡ bit_or (x / 2) (y / 2) * 2 + max (x % 2) (y % 2)
bit_or_low zero y = simp bit_or-bitwise (omega arith)
bit_or_low (suc x) y = simp bit_or-bitwise (bitwise-low (λ b. b) max x y)

-- Bit `i` of `x`, as 0 or 1.
unfoldable pub bit : ℕ → ℕ → ℕ
bit x zero = x % 2
bit x (suc i) = bit (x / 2) i

pub bit_le_one : (x i : ℕ) → bit x i ≤ 1
unfolding bit
bit_le_one x zero = omega arith
bit_le_one x (suc i) = bit_le_one (x / 2) i

pub bit-zero : (i : ℕ) → bit 0 i ≡ 0
unfolding bit
bit-zero zero = refl
bit-zero (suc i) = bit-zero i

pub bit-bit_and : (x y i : ℕ) → bit (bit_and x y) i ≡ min (bit x i) (bit y i)
unfolding bit
bit-bit_and x y zero = omega (arith, bit_and_low x y)
bit-bit_and x y (suc i) =
    ap (λ t. bit t i) (omega (arith, bit_and_low x y)) ∙ bit-bit_and (x / 2) (y / 2) i

pub bit-bit_or : (x y i : ℕ) → bit (bit_or x y) i ≡ max (bit x i) (bit y i)
unfolding bit
bit-bit_or x y zero = omega (arith, bit_or_low x y)
bit-bit_or x y (suc i) =
    ap (λ t. bit t i) (omega (arith, bit_or_low x y)) ∙ bit-bit_or (x / 2) (y / 2) i

module _ where
  -- Two words with the same bits are equal.
  bit_ext_fuel : (n x y : ℕ) → x ≤ n → y ≤ n → ((i : ℕ) → bit x i ≡ bit y i) → x ≡ y
  unfolding bit
  bit_ext_fuel zero x y p q same = omega arith
  bit_ext_fuel (suc n) x y p q same = omega (
    arith,
    same 0,
    bit_ext_fuel n (x / 2) (y / 2) (omega arith) (omega arith) (λ i. same (suc i)),
  )

  pub bit_ext : (x y : ℕ) → ((i : ℕ) → bit x i ≡ bit y i) → x ≡ y
  bit_ext x y same = bit_ext_fuel (max x y) x y (omega arith) (omega arith) same

pub double_mul : (q k : ℕ) → q * 2 ^ suc k ≡ 2 * (q * 2 ^ k)
double_mul q k = omega (arith, ap (λ (t : ℕ). q * t) (pow-suc 2 k))

pub or_zero : (x : ℕ) → bit_or x 0 ≡ x
or_zero x = bit_ext (bit_or x 0) x (λ i. omega (arith, bit-bit_or x 0 i, bit-zero i))

and_zero : (x : ℕ) → bit_and x 0 ≡ 0
and_zero x = bit_ext (bit_and x 0) 0 (λ i. omega (arith, bit-bit_and x 0 i, bit-zero i))

zero_and : (y : ℕ) → bit_and 0 y ≡ 0
zero_and y = bit_ext (bit_and 0 y) 0 (λ i. omega (arith, bit-bit_and 0 y i, bit-zero i))

-- `(q << k) | r` is a sum when `r` fits `k` bits.
pub or_shifted : (k q r : ℕ) → r < 2 ^ k → bit_or (q * 2 ^ k) r ≡ q * 2 ^ k + r
or_shifted zero q r h = ground (arith, or_zero q)
or_shifted (suc k) q r h =
    let down = or_shifted k q (r / 2) (omega (arith, pow-suc 2 k)) in
    let double = double_mul q k in ground (arith, bit_or_low (q * 2 ^ suc k) r, double, down)

-- `|` of two words that are shifted by the same amount.
pub or_scaled : (k x y : ℕ) → bit_or (x * 2 ^ k) (y * 2 ^ k) ≡ bit_or x y * 2 ^ k
or_scaled zero x y = ground arith
or_scaled (suc k) x y =
    let down = or_scaled k x y in
    ground (
      arith,
      bit_or_low (x * 2 ^ suc k) (y * 2 ^ suc k),
      double_mul x k,
      double_mul y k,
      double_mul (bit_or x y) k,
      down,
    )

and_mask_fields : (k q r : ℕ) → r < 2 ^ k → bit_and (q * 2 ^ k + r) (2 ^ k - 1) ≡ r
and_mask_fields zero q r h = rw and_zero (omega arith)
and_mask_fields (suc k) q r h =
    let down = and_mask_fields k q (r / 2) (omega (arith, pow-suc 2 k)) in
    let some_power = one-le-pow k 2 in
    let double = double_mul q k in
    ground (arith, bit_and_low (q * 2 ^ suc k + r) (2 ^ suc k - 1), double, down, pow-suc 2 k)

-- A mask of `k` low ones keeps the remainder by `2 ^ k`.
pub and_mask : (k x : ℕ) → bit_and x (2 ^ k - 1) ≡ x % 2 ^ k
and_mask k x = ground (arith, one-le-pow k 2, and_mask_fields k (x / 2 ^ k) (x % 2 ^ k))

-- Bit `i` of a word, from the quotient by `2 ^ i`.
pub bit-eq-div : (i x : ℕ) → bit x i ≡ x / 2 ^ i % 2
unfolding bit
bit-eq-div zero x = omega arith
bit-eq-div (suc i) x =
    let power : 2 * 2 ^ i ≡ 2 ^ suc i = omega (arith, pow-suc 2 i) in
    bit-eq-div i (x / 2) ∙ ap (λ t. t % 2) (div-div-eq-div-mul x 2 (2 ^ i) ∙ ap (λ t. x / t) power)

-- The only set bit of `1 << k` is bit `k`.
pub bit-pow_self : (k : ℕ) → bit (2 ^ k) k ≡ 1
unfolding bit
bit-pow_self zero = refl
bit-pow_self (suc k) = ap (λ t. bit t k) (omega (arith, pow-suc 2 k)) ∙ bit-pow_self k

pub bit-pow_ne : (k i : ℕ) → k ≢ i → bit (2 ^ k) i ≡ 0
unfolding bit
bit-pow_ne zero zero h = absurd (h refl)
bit-pow_ne zero (suc i) h = bit-zero i
bit-pow_ne (suc k) zero h = omega (arith, pow-suc 2 k)
bit-pow_ne (suc k) (suc i) h =
    ap (λ t. bit t i) (omega (arith, pow-suc 2 k)) ∙ bit-pow_ne k i (λ e. h (ap suc e))

-- A word of `k` bits has no bit from `k` on.
pub bit_of_lt : (k x i : ℕ) → x < 2 ^ k → k ≤ i → bit x i ≡ 0
unfolding bit
bit_of_lt zero x i h p = ap (λ t. bit t i) (omega arith) ∙ bit-zero i
bit_of_lt (suc k) x zero h p = absurd (omega arith)
bit_of_lt (suc k) x (suc i) h p = bit_of_lt k (x / 2) i (omega (arith, pow-suc 2 k)) (omega arith)

-- `~x` on a word of `k` bits.
pub bit_complement : (k x i : ℕ) → x < 2 ^ k → i < k → bit (2 ^ k - 1 - x) i ≡ 1 - bit x i
unfolding bit
bit_complement zero x i h p = absurd (omega arith)
bit_complement (suc k) x zero h p = omega (arith, pow-suc 2 k)
bit_complement (suc k) x (suc i) h p =
    ap (λ t. bit t i) (omega (arith, pow-suc 2 k))
    ∙ bit_complement k (x / 2) i (omega (arith, pow-suc 2 k)) (omega arith)

-- `x & (1 << i)`
pub and_pow : (i x : ℕ) → bit_and x (2 ^ i) ≡ bit x i * 2 ^ i
unfolding bit
and_pow zero x = ground (arith, bit_and_low x 1, and_zero (x / 2))
and_pow (suc i) x =
    let half : 2 ^ suc i / 2 ≡ 2 ^ i = omega (arith, pow-suc 2 i) in
    let even : 2 ^ suc i % 2 ≡ 0 = omega (arith, pow-suc 2 i) in
    ground (arith, bit_and_low x (2 ^ suc i), and_pow i (x / 2), double_mul (bit (x / 2) i) i)

-- Joining, masking and complementing keep a word within its width.
pub or_lt : (k x y : ℕ) → x < 2 ^ k → y < 2 ^ k → bit_or x y < 2 ^ k
or_lt zero x y p q = ground (arith, or_zero x)
or_lt (suc k) x y p q =
    let down = or_lt k (x / 2) (y / 2) (omega (arith, pow-suc 2 k)) (omega (arith, pow-suc 2 k)) in
    omega (arith, bit_or_low x y, down, pow-suc 2 k)

pub and_le : (k x y : ℕ) → x < 2 ^ k → bit_and x y ≤ x
and_le zero x y p = let none_left : x ≡ 0 = omega arith in rw none_left (omega (arith, zero_and y))
and_le (suc k) x y p =
    omega (arith, bit_and_low x y, and_le k (x / 2) (y / 2) (omega (arith, pow-suc 2 k)))

-- The sum of two binary digits without its carry.
abbrev pub odd_one : ℕ → ℕ → ℕ
odd_one a b = (a + b) % 2

digit_differ : (a b : ℕ) → a ≤ 1 → b ≤ 1 → differ a b ≡ odd_one a b
digit_differ zero b p q = omega (arith, q)
digit_differ (suc zero) zero p q = refl
digit_differ (suc zero) (suc zero) p q = refl
digit_differ (suc zero) (suc (suc b)) p q = absurd (omega (arith, q))
digit_differ (suc (suc a)) b p q = absurd (omega (arith, p))

pub bit_xor_low : (x y : ℕ) → bit_xor x y ≡ bit_xor (x / 2) (y / 2) * 2 + odd_one (x % 2) (y % 2)
bit_xor_low zero y = simp bit_xor-bitwise (omega arith)
bit_xor_low (suc x) y = simp bit_xor-bitwise (
    bitwise-low (λ b. b) differ x y
    ∙ ap (λ t. bitwise (λ b. b) differ (suc x / 2) (y / 2) * 2 + t)
        (digit_differ (suc x % 2) (y % 2) (omega arith) (omega arith)))
