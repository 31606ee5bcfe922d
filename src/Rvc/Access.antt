-- ===== src/Rvc/Access.antt =====
-- The decoder on loads and stores by a short base register, and on operations on two short
-- registers: what the fields of such an encoding are, whichever the instruction.
use digital_circuit_simulati.Prelude.{ℕ, ◌+◌, ◌*◌, ◌/◌, ◌%◌, ◌^◌, ◌<◌, ◌≡◌, ap, ◌∙◌, arith}
use digital_circuit_simulati.Rvc.{bits, r3, format_r, format_i}
use digital_circuit_simulati.Rvc.Quadrants.{offset_w, offset_d, expand}
use digital_circuit_simulati.Rvc.Formats.{format_r_sum}
use digital_circuit_simulati.Rvc.Encoding.{
  short_layout, i_word, r_word, s_word, word_layout, double_layout, WordAccess, DoubleAccess,
}
use digital_circuit_simulati.Rvc.Operands.{offset_w_sum, offset_d_sum, short_fields, i_sum}

word_fields :
    (f3 r rs1 imm : ℕ)
    → f3 < 8
    → WordAccess r rs1 imm
    → let c = word_layout f3 imm rs1 r in
      (c % 4 ≡ 0)
      × (bits c 13 3 ≡ f3)
      × (r3 (c / 2 ^ 2) ≡ r + 8)
      × (r3 (c / 2 ^ 7) ≡ rs1 + 8)
      × (offset_w c ≡ imm)
word_fields f3 r rs1 imm f (a, b, d, e) =
    let c = word_layout f3 imm rs1 r in
    let (op, fun, hi, base, lo, reg) =
      short_fields f3 (bits imm 3 3) rs1 (bits imm 2 1 * 2 + bits imm 6 1) r 0 f (omega arith) b
        (omega arith) a (omega arith) in
    (
      op,
      fun,
      ap (λ t. t + 8) reg,
      ap (λ t. t + 8) base,
      offset_w_sum (bits c 10 3) (bits c 6 1) (bits c 5 1) (omega arith) (omega arith)
          ∙ omega (arith, hi, lo, d, e),
    )

double_fields :
    (f3 r rs1 imm : ℕ)
    → f3 < 8
    → DoubleAccess r rs1 imm
    → let c = double_layout f3 imm rs1 r in
      (c % 4 ≡ 0)
      × (bits c 13 3 ≡ f3)
      × (r3 (c / 2 ^ 2) ≡ r + 8)
      × (r3 (c / 2 ^ 7) ≡ rs1 + 8)
      × (offset_d c ≡ imm)
double_fields f3 r rs1 imm f (a, b, d, e) =
    let c = double_layout f3 imm rs1 r in
    let (op, fun, hi, base, lo, reg) =
      short_fields f3 (bits imm 3 3) rs1 (bits imm 6 2) r 0 f (omega arith) b (omega arith) a
        (omega arith) in
    (
      op,
      fun,
      ap (λ t. t + 8) reg,
      ap (λ t. t + 8) base,
      offset_d_sum (bits c 10 3) (bits c 5 2) (omega arith) ∙ omega (arith, hi, lo, d, e),
    )

-- The short loads and stores, by what the decoder does with their code.
pub word_load :
    (xlen f3 opcode rd rs1 imm : ℕ)
    → f3 < 8
    → opcode < 2 ^ 7
    → WordAccess rd rs1 imm
    → let c = word_layout f3 imm rs1 rd in
      (c % 4 ≡ 0
        → bits c 13 3 ≡ f3
        → expand xlen c ≡ format_i opcode (r3 (c / 2 ^ 2)) 2 (r3 (c / 2 ^ 7)) (offset_w c))
      → expand xlen c ≡ i_word imm (rs1 + 8) 2 (rd + 8) opcode
word_load xlen f3 opcode rd rs1 imm f o h branch =
    let (a, b, d, e) = h in
    let (op, fun, reg, base, offset) = word_fields f3 rd rs1 imm f h in
    branch op fun
    ∙ rw (reg, base, offset)
        (i_sum opcode (rd + 8) 2 (rs1 + 8) imm imm o (omega (arith, a)) (omega arith)
          (omega (arith, b)) (omega (arith, d)))

pub double_load :
    (xlen f3 opcode rd rs1 imm : ℕ)
    → f3 < 8
    → opcode < 2 ^ 7
    → DoubleAccess rd rs1 imm
    → let c = double_layout f3 imm rs1 rd in
      (c % 4 ≡ 0
        → bits c 13 3 ≡ f3
        → expand xlen c ≡ format_i opcode (r3 (c / 2 ^ 2)) 3 (r3 (c / 2 ^ 7)) (offset_d c))
      → expand xlen c ≡ i_word imm (rs1 + 8) 3 (rd + 8) opcode
double_load xlen f3 opcode rd rs1 imm f o h branch =
    let (a, b, d, e) = h in
    let (op, fun, reg, base, offset) = double_fields f3 rd rs1 imm f h in
    branch op fun
    ∙ rw (reg, base, offset)
        (i_sum opcode (rd + 8) 3 (rs1 + 8) imm imm o (omega (arith, a)) (omega arith)
          (omega (arith, b)) (omega (arith, d)))

pub word_store :
    (xlen f3 rs2 rs1 imm opcode : ℕ) (format : ℕ → ℕ → ℕ → ℕ → ℕ)
    → f3 < 8
    → WordAccess rs2 rs1 imm
    → (format 2 (rs1 + 8) (rs2 + 8) imm ≡ s_word imm (rs2 + 8) (rs1 + 8) 2 opcode)
    → let c = word_layout f3 imm rs1 rs2 in
      (c % 4 ≡ 0
        → bits c 13 3 ≡ f3
        → expand xlen c ≡ format 2 (r3 (c / 2 ^ 7)) (r3 (c / 2 ^ 2)) (offset_w c))
      → expand xlen c ≡ s_word imm (rs2 + 8) (rs1 + 8) 2 opcode
word_store xlen f3 rs2 rs1 imm opcode format f h sum branch =
    let (op, fun, reg, base, offset) = word_fields f3 rs2 rs1 imm f h in
    branch op fun ∙ rw (reg, base, offset) sum

pub double_store :
    (xlen f3 rs2 rs1 imm opcode : ℕ) (format : ℕ → ℕ → ℕ → ℕ → ℕ)
    → f3 < 8
    → DoubleAccess rs2 rs1 imm
    → (format 3 (rs1 + 8) (rs2 + 8) imm ≡ s_word imm (rs2 + 8) (rs1 + 8) 3 opcode)
    → let c = double_layout f3 imm rs1 rs2 in
      (c % 4 ≡ 0
        → bits c 13 3 ≡ f3
        → expand xlen c ≡ format 3 (r3 (c / 2 ^ 7)) (r3 (c / 2 ^ 2)) (offset_d c))
      → expand xlen c ≡ s_word imm (rs2 + 8) (rs1 + 8) 3 opcode
double_store xlen f3 rs2 rs1 imm opcode format f h sum branch =
    let (op, fun, reg, base, offset) = double_fields f3 rs2 rs1 imm f h in
    branch op fun ∙ rw (reg, base, offset) sum

-- The operations on two short registers: two codes, of three and of seven bits, for each.
pub register_op :
    (xlen code f3 f7 rd rs2 : ℕ)
    → code < 4
    → f3 < 8
    → rd < 8
    → rs2 < 8
    → let c = short_layout 4 3 rd code rs2 1 in
      (c % 4 ≡ 1
        → bits c 13 3 ≡ 4
        → bits c 10 2 ≡ 3
        → bits c 12 1 ≡ 0
        → bits c 5 2 ≡ code
        → expand xlen c ≡ format_r 0x33 (r3 (c / 2 ^ 7)) f3 (r3 (c / 2 ^ 7)) (r3 (c / 2 ^ 2)) f7)
      → expand xlen c ≡ r_word f7 (rs2 + 8) (rd + 8) f3 (rd + 8) 0x33
register_op xlen code f3 f7 rd rs2 k f a b branch =
    let c = short_layout 4 3 rd code rs2 1 in
    let (op, fun, hi, first, lo, second) =
      short_fields 4 3 rd code rs2 1 (omega arith) (omega arith) a k b (omega arith) in
    let reg : r3 (c / 2 ^ 7) ≡ rd + 8 = ap (λ t. t + 8) first in
    let other : r3 (c / 2 ^ 2) ≡ rs2 + 8 = ap (λ t. t + 8) second in
    branch op fun (omega (arith, hi)) (omega (arith, hi)) lo
    ∙ rw (reg, other)
        (format_r_sum 0x33 (rd + 8) f3 (rd + 8) (rs2 + 8) f7 (omega arith) (omega (arith, a)) f
          (omega (arith, a)) (omega (arith, b)))
