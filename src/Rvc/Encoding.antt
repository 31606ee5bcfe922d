-- ===== src/Rvc/Encoding.antt =====
-- Compressed instructions with their operands, the 16-bit encodings that the architecture gives
-- them, and the 32-bit instructions that they stand for. Fields are added up from the highest to
-- the lowest; `bits imm lo w` are the `w` bits of an operand from `lo` on.
use digital_circuit_simulati.Prelude.{ℕ, ◌+◌, ◌-◌, ◌*◌, ◌/◌, ◌%◌, ◌^◌, ◌<◌, ◌≡◌, ◌≢◌}
use digital_circuit_simulati.Prelude.{ltb, if◌then◌else◌}
use digital_circuit_simulati.Rvc.{bits}

-- The layouts with two short registers, and with one long register.
abbrev pub short_layout : ℕ → ℕ → ℕ → ℕ → ℕ → ℕ → ℕ
short_layout f3 hi rs1 lo rd op = ((((f3 * 8 + hi) * 8 + rs1) * 4 + lo) * 8 + rd) * 4 + op

abbrev pub long_layout : ℕ → ℕ → ℕ → ℕ → ℕ → ℕ
long_layout f3 b12 rd low op = (((f3 * 2 + b12) * 32 + rd) * 32 + low) * 4 + op

-- The words of the formats I, R and S; S keeps its immediate in the places of `funct7` and `rd`.
abbrev pub i_word : ℕ → ℕ → ℕ → ℕ → ℕ → ℕ
i_word imm rs1 f3 rd opcode = (((imm * 2 ^ 5 + rs1) * 2 ^ 3 + f3) * 2 ^ 5 + rd) * 2 ^ 7 + opcode

abbrev pub r_word : ℕ → ℕ → ℕ → ℕ → ℕ → ℕ → ℕ
r_word f7 rs2 rs1 f3 rd opcode =
    ((((f7 * 2 ^ 5 + rs2) * 2 ^ 5 + rs1) * 2 ^ 3 + f3) * 2 ^ 5 + rd) * 2 ^ 7 + opcode

abbrev pub s_word : ℕ → ℕ → ℕ → ℕ → ℕ → ℕ
s_word imm rs2 rs1 f3 opcode = r_word (imm / 32) rs2 rs1 f3 (imm % 32) opcode

-- Six bits in two's complement as twelve bits.
abbrev pub signed : ℕ → ℕ
signed imm = if ltb imm 32 then imm else imm + (2 ^ 12 - 2 ^ 6)

-- Loads and stores of words and double words, integer and floating, by a short base register and
-- by the stack pointer; immediates; operations on registers and jumps to registers. A short
-- register 0 to 7 is one of 8 to 15.
pub data Compressed : Type 0 where
  c_lw : ℕ → ℕ → ℕ → Compressed
  c_flw : ℕ → ℕ → ℕ → Compressed
  c_ld : ℕ → ℕ → ℕ → Compressed
  c_fld : ℕ → ℕ → ℕ → Compressed
  c_sw : ℕ → ℕ → ℕ → Compressed
  c_fsw : ℕ → ℕ → ℕ → Compressed
  c_sd : ℕ → ℕ → ℕ → Compressed
  c_fsd : ℕ → ℕ → ℕ → Compressed
  c_lwsp : ℕ → ℕ → Compressed
  c_swsp : ℕ → ℕ → Compressed
  c_addi : ℕ → ℕ → Compressed
  c_li : ℕ → ℕ → Compressed
  c_andi : ℕ → ℕ → Compressed
  c_sub : ℕ → ℕ → Compressed
  c_xor : ℕ → ℕ → Compressed
  c_or : ℕ → ℕ → Compressed
  c_and : ℕ → ℕ → Compressed
  c_mv : ℕ → ℕ → Compressed
  c_add : ℕ → ℕ → Compressed
  c_jr : ℕ → Compressed
  c_jalr : ℕ → Compressed

-- The scrambled offset of a word access is `imm[5:3]` and `imm[2|6]`, that of a double word access
-- `imm[5:3]` and `imm[7:6]`.
abbrev pub word_layout : ℕ → ℕ → ℕ → ℕ → ℕ
word_layout f3 imm rs1 r = short_layout f3 (bits imm 3 3) rs1 (bits imm 2 1 * 2 + bits imm 6 1) r 0

abbrev pub double_layout : ℕ → ℕ → ℕ → ℕ → ℕ
double_layout f3 imm rs1 r = short_layout f3 (bits imm 3 3) rs1 (bits imm 6 2) r 0

unfoldable pub encode : Compressed → ℕ
encode (c_lw rd rs1 imm) = word_layout 2 imm rs1 rd
encode (c_flw rd rs1 imm) = word_layout 3 imm rs1 rd
encode (c_ld rd rs1 imm) = double_layout 3 imm rs1 rd
encode (c_fld rd rs1 imm) = double_layout 1 imm rs1 rd
encode (c_sw rs2 rs1 imm) = word_layout 6 imm rs1 rs2
encode (c_fsw rs2 rs1 imm) = word_layout 7 imm rs1 rs2
encode (c_sd rs2 rs1 imm) = double_layout 7 imm rs1 rs2
encode (c_fsd rs2 rs1 imm) = double_layout 5 imm rs1 rs2
encode (c_lwsp rd imm) = long_layout 2 (bits imm 5 1) rd (bits imm 2 3 * 4 + bits imm 6 2) 2
encode (c_swsp rs2 imm) = long_layout 6 (bits imm 5 1) (bits imm 2 3 * 4 + bits imm 6 2) rs2 2
encode (c_addi rd imm) = long_layout 0 (imm / 32) rd (imm % 32) 1
encode (c_li rd imm) = long_layout 2 (imm / 32) rd (imm % 32) 1
encode (c_andi rd imm) = short_layout 4 (imm / 32 * 4 + 2) rd (bits imm 3 2) (imm % 8) 1
encode (c_sub rd rs2) = short_layout 4 3 rd 0 rs2 1
encode (c_xor rd rs2) = short_layout 4 3 rd 1 rs2 1
encode (c_or rd rs2) = short_layout 4 3 rd 2 rs2 1
encode (c_and rd rs2) = short_layout 4 3 rd 3 rs2 1
encode (c_mv rd rs2) = long_layout 4 0 rd rs2 2
encode (c_add rd rs2) = long_layout 4 1 rd rs2 2
encode (c_jr rs1) = long_layout 4 0 rs1 0 2
encode (c_jalr rs1) = long_layout 4 1 rs1 0 2

unfoldable pub meaning : Compressed → ℕ
meaning (c_lw rd rs1 imm) = i_word imm (rs1 + 8) 2 (rd + 8) 0x03
meaning (c_flw rd rs1 imm) = i_word imm (rs1 + 8) 2 (rd + 8) 0x07
meaning (c_ld rd rs1 imm) = i_word imm (rs1 + 8) 3 (rd + 8) 0x03
meaning (c_fld rd rs1 imm) = i_word imm (rs1 + 8) 3 (rd + 8) 0x07
meaning (c_sw rs2 rs1 imm) = s_word imm (rs2 + 8) (rs1 + 8) 2 0x23
meaning (c_fsw rs2 rs1 imm) = s_word imm (rs2 + 8) (rs1 + 8) 2 0x27
meaning (c_sd rs2 rs1 imm) = s_word imm (rs2 + 8) (rs1 + 8) 3 0x23
meaning (c_fsd rs2 rs1 imm) = s_word imm (rs2 + 8) (rs1 + 8) 3 0x27
meaning (c_lwsp rd imm) = i_word imm 2 2 rd 0x03
meaning (c_swsp rs2 imm) = s_word imm rs2 2 2 0x23
meaning (c_addi rd imm) = i_word (signed imm) rd 0 rd 0x13
meaning (c_li rd imm) = i_word (signed imm) 0 0 rd 0x13
meaning (c_andi rd imm) = i_word (signed imm) (rd + 8) 7 (rd + 8) 0x13
meaning (c_sub rd rs2) = r_word 0x20 (rs2 + 8) (rd + 8) 0 (rd + 8) 0x33
meaning (c_xor rd rs2) = r_word 0 (rs2 + 8) (rd + 8) 4 (rd + 8) 0x33
meaning (c_or rd rs2) = r_word 0 (rs2 + 8) (rd + 8) 6 (rd + 8) 0x33
meaning (c_and rd rs2) = r_word 0 (rs2 + 8) (rd + 8) 7 (rd + 8) 0x33
meaning (c_mv rd rs2) = r_word 0 rs2 0 0 rd 0x33
meaning (c_add rd rs2) = r_word 0 rs2 rd 0 rd 0x33
meaning (c_jr rs1) = i_word 0 rs1 0 0 0x67
meaning (c_jalr rs1) = i_word 0 rs1 0 1 0x67

-- The operands that an instruction takes, and the register width it is for.
abbrev pub WordAccess : ℕ → ℕ → ℕ → Type 0
WordAccess r rs1 imm = (r < 8) × (rs1 < 8) × (imm < 128) × (imm % 4 ≡ 0)

abbrev pub DoubleAccess : ℕ → ℕ → ℕ → Type 0
DoubleAccess r rs1 imm = (r < 8) × (rs1 < 8) × (imm < 256) × (imm % 8 ≡ 0)

abbrev pub IsValid : ℕ → Compressed → Type 0
IsValid xlen (c_lw rd rs1 imm) = WordAccess rd rs1 imm
IsValid xlen (c_flw rd rs1 imm) = WordAccess rd rs1 imm × (xlen ≡ 32)
IsValid xlen (c_ld rd rs1 imm) = DoubleAccess rd rs1 imm × (xlen ≡ 64)
IsValid xlen (c_fld rd rs1 imm) = DoubleAccess rd rs1 imm
IsValid xlen (c_sw rs2 rs1 imm) = WordAccess rs2 rs1 imm
IsValid xlen (c_fsw rs2 rs1 imm) = WordAccess rs2 rs1 imm × (xlen ≡ 32)
IsValid xlen (c_sd rs2 rs1 imm) = DoubleAccess rs2 rs1 imm × (xlen ≡ 64)
IsValid xlen (c_fsd rs2 rs1 imm) = DoubleAccess rs2 rs1 imm
IsValid xlen (c_lwsp rd imm) = (rd < 32) × (rd ≢ 0) × (imm < 256) × (imm % 4 ≡ 0)
IsValid xlen (c_swsp rs2 imm) = (rs2 < 32) × (imm < 256) × (imm % 4 ≡ 0)
IsValid xlen (c_addi rd imm) = (rd < 32) × (imm < 64)
IsValid xlen (c_li rd imm) = (rd < 32) × (imm < 64)
IsValid xlen (c_andi rd imm) = (rd < 8) × (imm < 64)
IsValid xlen (c_sub rd rs2) = (rd < 8) × (rs2 < 8)
IsValid xlen (c_xor rd rs2) = (rd < 8) × (rs2 < 8)
IsValid xlen (c_or rd rs2) = (rd < 8) × (rs2 < 8)
IsValid xlen (c_and rd rs2) = (rd < 8) × (rs2 < 8)
IsValid xlen (c_mv rd rs2) = (rd < 32) × (rs2 < 32) × (rs2 ≢ 0)
IsValid xlen (c_add rd rs2) = (rd < 32) × (rs2 < 32) × (rs2 ≢ 0)
IsValid xlen (c_jr rs1) = (rs1 < 32) × (rs1 ≢ 0)
IsValid xlen (c_jalr rs1) = (rs1 < 32) × (rs1 ≢ 0)
