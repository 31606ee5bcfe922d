-- ===== src/Rvc.antt =====
-- The decoder of compressed RISC-V instructions, include/dcs/util/RvcDecode.h: a 16-bit encoding
-- becomes the 32-bit instruction it stands for, or 0. `(x >> lo) & (2 ^ w - 1)` is `bits x lo w`,
-- and an `int32_t` is its 32-bit word in two's complement.
pub mod Quadrants
pub mod Formats
pub mod Encoding
pub mod Operands
pub mod Cases
pub mod Access
pub mod RoundTrip
pub mod Fields
mod Tests
use digital_circuit_simulati.Prelude.{ℕ, ◌+◌, ◌-◌, ◌*◌, ◌/◌, ◌%◌, ◌^◌, bit_or}
use digital_circuit_simulati.Prelude.{ltb, if◌then◌else◌}

abbrev pub bits : ℕ → ℕ → ℕ → ℕ
bits x lo w = x / 2 ^ lo % 2 ^ w

-- `R3`
abbrev pub r3 : ℕ → ℕ
r3 f = f % 8 + 8

-- `((int32_t)(x << (32 - w))) >> (32 - w)`
unfoldable pub sign_extend : ℕ → ℕ → ℕ
sign_extend w x =
    let low = x % 2 ^ w in if ltb low (2 ^ (w - 1)) then low else low + (2 ^ 32 - 2 ^ w)

unfoldable pub imm_ci : ℕ → ℕ
imm_ci i = sign_extend 6 (bit_or (bits i 12 1 * 2 ^ 5) (bits i 2 5))

unfoldable pub imm_b : ℕ → ℕ
imm_b i = sign_extend 9 (
    bit_or
      (bit_or (bit_or (bit_or (bits i 12 1 * 2 ^ 8) (bits i 5 2 * 2 ^ 6)) (bits i 2 1 * 2 ^ 5))
        (bits i 10 2 * 2 ^ 3))
      (bits i 3 2 * 2))

unfoldable pub imm_j : ℕ → ℕ
imm_j i =
    let high =
      bit_or (bit_or (bit_or (bits i 12 1 * 2 ^ 11) (bits i 8 1 * 2 ^ 10)) (bits i 9 2 * 2 ^ 8))
        (bits i 6 1 * 2 ^ 7) in
    sign_extend 12 (
      bit_or
        (bit_or (bit_or (bit_or high (bits i 7 1 * 2 ^ 6)) (bits i 2 1 * 2 ^ 5))
          (bits i 11 1 * 2 ^ 4))
        (bits i 3 3 * 2))

-- `R`, `I`, `S`, `SF`, `B`, `J` and `U`
unfoldable pub format_r : ℕ → ℕ → ℕ → ℕ → ℕ → ℕ → ℕ
format_r opcode rd f3 rs1 rs2 f7 =
    bit_or
      (bit_or (bit_or (bit_or (bit_or (f7 * 2 ^ 25) (rs2 * 2 ^ 20)) (rs1 * 2 ^ 15)) (f3 * 2 ^ 12))
        (rd * 2 ^ 7))
      opcode

unfoldable pub format_i : ℕ → ℕ → ℕ → ℕ → ℕ → ℕ
format_i opcode rd f3 rs1 imm =
    bit_or
      (bit_or (bit_or (bit_or (imm % 2 ^ 12 * 2 ^ 20) (rs1 * 2 ^ 15)) (f3 * 2 ^ 12)) (rd * 2 ^ 7))
      opcode

unfoldable pub format_s : ℕ → ℕ → ℕ → ℕ → ℕ
format_s f3 rs1 rs2 imm =
    bit_or
      (bit_or
        (bit_or (bit_or (bit_or (bits imm 5 7 * 2 ^ 25) (rs2 * 2 ^ 20)) (rs1 * 2 ^ 15))
          (f3 * 2 ^ 12))
        (imm % 32 * 2 ^ 7))
      0x23

unfoldable pub format_sf : ℕ → ℕ → ℕ → ℕ → ℕ
format_sf f3 rs1 rs2 imm =
    bit_or
      (bit_or
        (bit_or (bit_or (bit_or (bits imm 5 7 * 2 ^ 25) (rs2 * 2 ^ 20)) (rs1 * 2 ^ 15))
          (f3 * 2 ^ 12))
        (imm % 32 * 2 ^ 7))
      0x27

unfoldable pub format_b : ℕ → ℕ → ℕ → ℕ → ℕ
format_b f3 rs1 rs2 imm =
    let high = bit_or (bits imm 12 1 * 2 ^ 31) (bits imm 5 6 * 2 ^ 25) in
    let regs = bit_or (bit_or (bit_or high (rs2 * 2 ^ 20)) (rs1 * 2 ^ 15)) (f3 * 2 ^ 12) in
    bit_or (bit_or (bit_or regs (bits imm 1 4 * 2 ^ 8)) (bits imm 11 1 * 2 ^ 7)) 0x63

unfoldable pub format_j : ℕ → ℕ → ℕ
format_j rd imm =
    let high = bit_or (bits imm 20 1 * 2 ^ 31) (bits imm 1 10 * 2 ^ 21) in
    bit_or
      (bit_or (bit_or (bit_or high (bits imm 11 1 * 2 ^ 20)) (bits imm 12 8 * 2 ^ 12)) (rd * 2 ^ 7))
      0x6F

unfoldable pub format_u : ℕ → ℕ → ℕ → ℕ
format_u opcode rd imm20 = bit_or (bit_or (imm20 - imm20 % 2 ^ 12) (rd * 2 ^ 7)) opcode

abbrev pub illegal : ℕ
illegal = 0
