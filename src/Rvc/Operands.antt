-- ===== src/Rvc/Operands.antt =====
-- The operands of an encoded instruction, as the decoder reads them.
use digital_circuit_simulati.Prelude.{ℕ, ◌+◌, ◌*◌, ◌/◌, ◌%◌, ◌^◌, ◌<◌, ◌≡◌, ap, ◌∙◌, arith, bit_or}
use digital_circuit_simulati.Prelude.Bits.{bit_ext, bit-bit_or, or_shifted}
use digital_circuit_simulati.Rvc.{
  bits, sign_extend, imm_ci, format_i, format_r, format_s, format_sf,
}
use digital_circuit_simulati.Rvc.Formats.{pack, format_i_sum, format_r_sum}
use digital_circuit_simulati.Rvc.Encoding.{
  short_layout, long_layout, i_word, r_word, s_word, signed,
}

or_comm : (x y : ℕ) → bit_or x y ≡ bit_or y x
or_comm x y =
    bit_ext (bit_or x y) (bit_or y x) (λ i. omega (arith, bit-bit_or x y i, bit-bit_or y x i))

-- A field from bit `k` on, on the left or on the right of what stands lower.
or_right : (k q r : ℕ) → r < 2 ^ k → bit_or r (q * 2 ^ k) ≡ q * 2 ^ k + r
or_right k q r lt = or_comm r (q * 2 ^ k) ∙ or_shifted k q r lt

pub offset_w_sum :
    (a b d : ℕ)
    → a < 8
    → b < 2
    → bit_or (bit_or (a * 2 ^ 3) (b * 2 ^ 2)) (d * 2 ^ 6) ≡ d * 64 + a * 8 + b * 4
offset_w_sum a b d p q =
    ap (λ t. bit_or t (d * 2 ^ 6)) (pack 1 2 a b (omega arith) q)
    ∙ or_right 6 d ((a * 2 ^ 1 + b) * 2 ^ 2) (omega arith)
    ∙ omega arith

pub offset_d_sum : (a d : ℕ) → a < 8 → bit_or (a * 2 ^ 3) (d * 2 ^ 6) ≡ d * 64 + a * 8
offset_d_sum a d p = or_right 6 d (a * 2 ^ 3) (omega arith) ∙ omega arith

pub offset_lwsp_sum :
    (a b d : ℕ)
    → a < 2
    → b < 8
    → bit_or (bit_or (a * 2 ^ 5) (b * 2 ^ 2)) (d * 2 ^ 6) ≡ d * 64 + a * 32 + b * 4
offset_lwsp_sum a b d p q =
    ap (λ t. bit_or t (d * 2 ^ 6)) (pack 3 2 a b (omega arith) q)
    ∙ or_right 6 d ((a * 2 ^ 3 + b) * 2 ^ 2) (omega arith)
    ∙ omega arith

pub offset_swsp_sum : (a d : ℕ) → a < 16 → bit_or (a * 2 ^ 2) (d * 2 ^ 6) ≡ d * 64 + a * 4
offset_swsp_sum a d p = or_right 6 d (a * 2 ^ 2) (omega arith) ∙ omega arith

pub imm_ci-signed :
    (c imm : ℕ)
    → imm < 64
    → bits c 12 1 ≡ imm / 32
    → bits c 2 5 ≡ imm % 32
    → imm_ci c % 2 ^ 12 ≡ signed imm
unfolding imm_ci sign_extend
imm_ci-signed c imm lt high low =
    let joined : bit_or (bits c 12 1 * 2 ^ 5) (bits c 2 5) ≡ imm =
      or_shifted 5 (bits c 12 1) (bits c 2 5) (omega (arith, low)) ∙ omega (arith, high, low) in
    ap (λ t. sign_extend 6 t % 2 ^ 12) joined ∙ ground (arith, lt)

-- The fields of the two layouts.
pub short_fields :
    (f3 hi rs1 lo rd op : ℕ)
    → f3 < 8
    → hi < 8
    → rs1 < 8
    → lo < 4
    → rd < 8
    → op < 4
    → let c = short_layout f3 hi rs1 lo rd op in
      (c % 4 ≡ op)
      × (bits c 13 3 ≡ f3)
      × (bits c 10 3 ≡ hi)
      × (c / 2 ^ 7 % 8 ≡ rs1)
      × (bits c 5 2 ≡ lo)
      × (c / 2 ^ 2 % 8 ≡ rd)
short_fields f3 hi rs1 lo rd op a b d e f g =
    (omega arith, omega arith, omega arith, omega arith, omega arith, omega arith)

pub long_fields :
    (f3 b12 rd low op : ℕ)
    → f3 < 8
    → b12 < 2
    → rd < 32
    → low < 32
    → op < 4
    → let c = long_layout f3 b12 rd low op in
      (c % 4 ≡ op)
      × (bits c 13 3 ≡ f3)
      × (bits c 12 1 ≡ b12)
      × (bits c 7 5 ≡ rd)
      × (bits c 2 5 ≡ low)
long_fields f3 b12 rd low op a b d e f =
    (omega arith, omega arith, omega arith, omega arith, omega arith)

-- The words of the formats, once their operands are known.
pub i_sum :
    (opcode rd f3 rs1 imm v : ℕ)
    → opcode < 2 ^ 7
    → rd < 2 ^ 5
    → f3 < 2 ^ 3
    → rs1 < 2 ^ 5
    → imm % 2 ^ 12 ≡ v
    → format_i opcode rd f3 rs1 imm ≡ i_word v rs1 f3 rd opcode
i_sum opcode rd f3 rs1 imm v o d f s e =
    format_i_sum opcode rd f3 rs1 imm o d f s ∙ ap (λ t. i_word t rs1 f3 rd opcode) e

pub s_sum :
    (f3 rs1 rs2 imm : ℕ)
    → f3 < 2 ^ 3
    → rs1 < 2 ^ 5
    → rs2 < 2 ^ 5
    → imm < 2 ^ 12
    → format_s f3 rs1 rs2 imm ≡ s_word imm rs2 rs1 f3 0x23
unfolding format_s format_r
s_sum f3 rs1 rs2 imm f s t lt =
    let high : bits imm 5 7 ≡ imm / 32 = omega (arith, lt) in
    format_r_sum 0x23 (imm % 32) f3 rs1 rs2 (bits imm 5 7) (omega arith) (omega arith) f s t
    ∙ ap (λ x. r_word x rs2 rs1 f3 (imm % 32) 0x23) high

pub sf_sum :
    (f3 rs1 rs2 imm : ℕ)
    → f3 < 2 ^ 3
    → rs1 < 2 ^ 5
    → rs2 < 2 ^ 5
    → imm < 2 ^ 12
    → format_sf f3 rs1 rs2 imm ≡ s_word imm rs2 rs1 f3 0x27
unfolding format_sf format_r
sf_sum f3 rs1 rs2 imm f s t lt =
    let high : bits imm 5 7 ≡ imm / 32 = omega (arith, lt) in
    format_r_sum 0x27 (imm % 32) f3 rs1 rs2 (bits imm 5 7) (omega arith) (omega arith) f s t
    ∙ ap (λ x. r_word x rs2 rs1 f3 (imm % 32) 0x27) high
