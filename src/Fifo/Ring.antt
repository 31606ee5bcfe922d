-- ===== src/Fifo/Ring.antt =====
-- The words that the memory holds, in the order of arrival, and what one write and one read of the
-- ring do to them.
use digital_circuit_simulati.Prelude.{
  ℕ, zero, suc, ◌+◌, ◌-◌, ◌/◌, ◌%◌, ◌^◌, ◌≤◌, ◌<◌, ◌≡◌, ◌≢◌, refl, ap, ◌∙◌, subst, List, [], ◌∷◌,
  ◌++◌, arith, bit_and,
}
use digital_circuit_simulati.Prelude.{
  length, get_or, set, get_or-set_self, get_or-set_ne, dec_lt, length-append,
}
use digital_circuit_simulati.Prelude.Bits.{bit_and_low, bit_ext, bit-bit_and}
use native.Mathlib.Nat.{mod-add-mod, mod-eq_of_lt, mod-eq-sub-mod, pow-suc}

-- `n` words from position `rd` on, round the ring.
abbrev pub slots : List ℕ → ℕ → ℕ → ℕ → List ℕ
slots mem depth rd zero = []
slots mem depth rd (suc n) = slots mem depth rd n ++ get_or mem ((rd + n) % depth) 0 ∷ []

pub length-slots : (mem : List ℕ) (depth rd n : ℕ) → length (slots mem depth rd n) ≡ n
length-slots mem depth rd zero = refl
length-slots mem depth rd (suc n) = omega (
  arith,
  length-append (slots mem depth rd n) (get_or mem ((rd + n) % depth) 0 ∷ []),
  length-slots mem depth rd n,
)

-- The oldest word and the others.
pub slots-suc :
    (mem : List ℕ) (depth rd n : ℕ)
    → rd < depth
    → slots mem depth rd (suc n) ≡ get_or mem rd 0 ∷ slots mem depth ((rd + 1) % depth) n
slots-suc mem depth rd zero lt =
    let start : rd + 0 ≡ rd = omega arith in rw (start, mod-eq_of_lt lt)
slots-suc mem depth rd (suc n) lt =
    let later : ((rd + 1) % depth + n) % depth ≡ (rd + suc n) % depth =
      mod-add-mod (rd + 1) depth n ∙ ap (λ t. t % depth) (omega arith) in
    rw (slots-suc mem depth rd n lt, later)

shift_ne : (depth x k : ℕ) → 0 < k → k < depth → (x + k) % depth ≢ x % depth
shift_ne depth x k pos lt =
    let split : (x % depth + k) % depth ≡ (x + k) % depth = mod-add-mod x depth k in
    elim (dec_lt (x % depth + k) depth) [
      | yes small ↦ omega (arith, split, mod-eq_of_lt small)
      | no large ↦ omega (
        arith,
        split,
        mod-eq-sub-mod {n = x % depth + k} {m = depth} (omega arith),
        mod-eq_of_lt {n = x % depth + k - depth} {m = depth} (omega arith),
      )
    ]

ring_ne : (depth rd n i : ℕ) → i < n → n < depth → (rd + n) % depth ≢ (rd + i) % depth
ring_ne depth rd n i h k =
    subst (λ t. t % depth ≢ (rd + i) % depth) (omega arith)
      (shift_ne depth (rd + i) (n - i) (omega arith) (omega arith))

-- A write behind the words leaves them as they are and adds one.
pub slots-set :
    (mem : List ℕ) (depth rd n m v : ℕ)
    → n ≤ m
    → m < depth
    → slots (set mem ((rd + m) % depth) v) depth rd n ≡ slots mem depth rd n
slots-set mem depth rd zero m v le lt = refl
slots-set mem depth rd (suc n) m v le lt = rw (
  slots-set mem depth rd n m v (omega arith) lt,
  get_or-set_ne mem ((rd + m) % depth) ((rd + n) % depth) v 0
      (ring_ne depth rd m n (omega arith) lt),
)

pub slots_pop :
    (mem : List ℕ) (depth rd n : ℕ)
    → rd < depth
    → 0 < n
    → slots mem depth rd n ≡ get_or mem rd 0 ∷ slots mem depth ((rd + 1) % depth) (n - 1)
slots_pop mem depth rd zero lt pos = absurd (omega arith)
slots_pop mem depth rd (suc n) lt pos =
    let same : suc n - 1 ≡ n = omega arith in rw same (slots-suc mem depth rd n lt)

pub slots_push :
    (mem : List ℕ) (depth rd n wr v : ℕ)
    → length mem ≡ depth
    → n < depth
    → wr ≡ (rd + n) % depth
    → slots (set mem wr v) depth rd (n + 1) ≡ slots mem depth rd n ++ v ∷ []
slots_push mem depth rd n wr v size lt spot =
    let one_more : n + 1 ≡ suc n = omega arith in
    ground (
      arith,
      ap (slots (set mem wr v) depth rd) one_more,
      ap (λ t. slots (set mem t v) depth rd n) spot,
      slots-set mem depth rd n n v (omega arith) lt,
      get_or-set_self mem wr v 0 (omega arith),
    )

-- A depth that the constructor accepts is a power of two.
and_self : (x : ℕ) → bit_and x x ≡ x
and_self x = bit_ext (bit_and x x) x (λ i. omega (arith, bit-bit_and x x i))

power_of_two_fuel : (f d : ℕ) → d ≤ f → 0 < d → bit_and d (d - 1) ≡ 0 → (k : ℕ) × (d ≡ 2 ^ k)
power_of_two_fuel zero d le pos h = absurd (omega arith)
power_of_two_fuel (suc f) d le pos h = elim (dec_lt 1 d) [
  | no one ↦ (0, omega arith)
  | yes two ↦ elim (dec_lt 0 (d % 2)) [
    | yes odd ↦
        let same : (d - 1) / 2 ≡ d / 2 = omega arith in
        let below = rw same at (bit_and_low d (d - 1)) in
        absurd (omega (arith, below, and_self (d / 2)))
    | no even ↦
        let half : (d - 1) / 2 ≡ d / 2 - 1 = omega arith in
        let below = rw half at (bit_and_low d (d - 1)) in
        let (k, e) = power_of_two_fuel f (d / 2) (omega arith) (omega arith) (omega arith) in
        (suc k, omega (arith, pow-suc 2 k))
  ]
]

pub power_of_two : (d : ℕ) → 0 < d → bit_and d (d - 1) ≡ 0 → (k : ℕ) × (d ≡ 2 ^ k)
power_of_two d pos h = power_of_two_fuel d d (omega arith) pos h
