-- ===== src/Rvc/Fields.antt =====
-- The fields of an assembled instruction, read at the places where the architecture puts them.
use digital_circuit_simulati.Prelude.{ℕ, ◌+◌, ◌*◌, ◌%◌, ◌^◌, ◌<◌, ◌≡◌, arith}
use digital_circuit_simulati.Rvc.{bits, format_i, format_b, format_j}
use digital_circuit_simulati.Rvc.Formats.{format_i_sum, format_b_sum, format_j_sum}

-- The offsets that a branch and a jump hold, without their sign.
abbrev pub branch_offset : ℕ → ℕ
branch_offset w = bits w 31 1 * 2 ^ 12 + bits w 7 1 * 2 ^ 11 + bits w 25 6 * 2 ^ 5 + bits w 8 4 * 2

abbrev pub jump_offset : ℕ → ℕ
jump_offset w =
    bits w 31 1 * 2 ^ 20 + bits w 12 8 * 2 ^ 12 + bits w 20 1 * 2 ^ 11 + bits w 21 10 * 2

-- An assembled branch holds its function code, its registers and, for an even offset, the low
-- thirteen bits of the offset.
pub format_b_fields :
    (f3 rs1 rs2 imm : ℕ)
    → f3 < 2 ^ 3
    → rs1 < 2 ^ 5
    → rs2 < 2 ^ 5
    → imm % 2 ≡ 0
    → let w = format_b f3 rs1 rs2 imm in
      (bits w 12 3 ≡ f3)
      × (bits w 15 5 ≡ rs1)
      × (bits w 20 5 ≡ rs2)
      × (branch_offset w ≡ imm % 2 ^ 13)
format_b_fields f3 rs1 rs2 imm f s t even =
    let sum = format_b_sum f3 rs1 rs2 imm f s t in
    (omega (arith, sum), omega (arith, sum), omega (arith, sum), omega (arith, sum))

-- An assembled jump holds its register and, for an even offset, the low twenty-one bits of the
-- offset.
pub format_j_fields :
    (rd imm : ℕ)
    → rd < 2 ^ 5
    → imm % 2 ≡ 0
    → let w = format_j rd imm in (bits w 7 5 ≡ rd) × (jump_offset w ≡ imm % 2 ^ 21)
format_j_fields rd imm d even =
    let sum = format_j_sum rd imm d in (omega (arith, sum), omega (arith, sum))

-- An assembled instruction with an immediate holds its opcode, its registers, its function code
-- and the low twelve bits of the immediate.
pub format_i_fields :
    (opcode rd f3 rs1 imm : ℕ)
    → opcode < 2 ^ 7
    → rd < 2 ^ 5
    → f3 < 2 ^ 3
    → rs1 < 2 ^ 5
    → let w = format_i opcode rd f3 rs1 imm in
      (w % 2 ^ 7 ≡ opcode)
      × (bits w 7 5 ≡ rd)
      × (bits w 12 3 ≡ f3)
      × (bits w 15 5 ≡ rs1)
      × (bits w 20 12 ≡ imm % 2 ^ 12)
format_i_fields opcode rd f3 rs1 imm o d f s =
    let sum = format_i_sum opcode rd f3 rs1 imm o d f s in
    (
      omega (arith, sum),
      omega (arith, sum),
      omega (arith, sum),
      omega (arith, sum),
      omega (arith, sum),
    )
