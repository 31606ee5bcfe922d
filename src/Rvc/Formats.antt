-- ===== src/Rvc/Formats.antt =====
-- The fields of an instruction come back from its word.
use digital_circuit_simulati.Prelude.{ℕ, ◌+◌, ◌*◌, ◌/◌, ◌%◌, ◌^◌, ◌<◌, ◌≡◌, ap, ◌∙◌, arith, bit_or}
use digital_circuit_simulati.Prelude.Bits.{or_shifted, or_scaled}
use digital_circuit_simulati.Rvc.{bits, format_r, format_i, format_b, format_j, format_u}

-- A field of `w` bits at bit `k`, below what stands higher up.
pub pack :
    {hi : ℕ} (w k q r : ℕ)
    → hi ≡ q * 2 ^ w * 2 ^ k
    → r < 2 ^ w
    → bit_or hi (r * 2 ^ k) ≡ (q * 2 ^ w + r) * 2 ^ k
pack w k q r e h =
    ap (λ t. bit_or t (r * 2 ^ k)) e
    ∙ or_scaled k (q * 2 ^ w) r
    ∙ ap (λ t. t * 2 ^ k) (or_shifted w q r h)

-- Fields that do not overlap are added.
pub format_i_sum :
    (opcode rd f3 rs1 imm : ℕ)
    → opcode < 2 ^ 7
    → rd < 2 ^ 5
    → f3 < 2 ^ 3
    → rs1 < 2 ^ 5
    → format_i opcode rd f3 rs1 imm
      ≡ (((imm % 2 ^ 12 * 2 ^ 5 + rs1) * 2 ^ 3 + f3) * 2 ^ 5 + rd) * 2 ^ 7 + opcode
unfolding format_i
format_i_sum opcode rd f3 rs1 imm o d f s =
    let a = pack 5 15 (imm % 2 ^ 12) rs1 (omega arith) s in
    let b = pack 3 12 (imm % 2 ^ 12 * 2 ^ 5 + rs1) f3 (a ∙ omega arith) f in
    let c = pack 5 7 ((imm % 2 ^ 12 * 2 ^ 5 + rs1) * 2 ^ 3 + f3) rd (b ∙ omega arith) d in
    ap (λ t. bit_or t opcode) c
    ∙ or_shifted 7 (((imm % 2 ^ 12 * 2 ^ 5 + rs1) * 2 ^ 3 + f3) * 2 ^ 5 + rd) opcode o

pub format_r_sum :
    (opcode rd f3 rs1 rs2 f7 : ℕ)
    → opcode < 2 ^ 7
    → rd < 2 ^ 5
    → f3 < 2 ^ 3
    → rs1 < 2 ^ 5
    → rs2 < 2 ^ 5
    → format_r opcode rd f3 rs1 rs2 f7
      ≡ ((((f7 * 2 ^ 5 + rs2) * 2 ^ 5 + rs1) * 2 ^ 3 + f3) * 2 ^ 5 + rd) * 2 ^ 7 + opcode
unfolding format_r
format_r_sum opcode rd f3 rs1 rs2 f7 o d f s t =
    let a = pack 5 20 f7 rs2 (omega arith) t in
    let b = pack 5 15 (f7 * 2 ^ 5 + rs2) rs1 (a ∙ omega arith) s in
    let c = pack 3 12 ((f7 * 2 ^ 5 + rs2) * 2 ^ 5 + rs1) f3 (b ∙ omega arith) f in
    let e = pack 5 7 (((f7 * 2 ^ 5 + rs2) * 2 ^ 5 + rs1) * 2 ^ 3 + f3) rd (c ∙ omega arith) d in
    ap (λ t. bit_or t opcode) e
    ∙ or_shifted 7 ((((f7 * 2 ^ 5 + rs2) * 2 ^ 5 + rs1) * 2 ^ 3 + f3) * 2 ^ 5 + rd) opcode o

pub format_b_sum :
    (f3 rs1 rs2 imm : ℕ)
    → f3 < 2 ^ 3
    → rs1 < 2 ^ 5
    → rs2 < 2 ^ 5
    → let high = (bits imm 12 1 * 2 ^ 6 + bits imm 5 6) * 2 ^ 5 + rs2 in
      format_b f3 rs1 rs2 imm
      ≡ ((((high * 2 ^ 5 + rs1) * 2 ^ 3 + f3) * 2 ^ 4 + bits imm 1 4) * 2 ^ 1 + bits imm 11 1)
          * 2 ^ 7
        + 0x63
unfolding format_b
format_b_sum f3 rs1 rs2 imm f s t =
    let top = bits imm 12 1 * 2 ^ 6 + bits imm 5 6 in
    let high = top * 2 ^ 5 + rs2 in
    let low = ((high * 2 ^ 5 + rs1) * 2 ^ 3 + f3) * 2 ^ 4 + bits imm 1 4 in
    let z = pack 6 25 (bits imm 12 1) (bits imm 5 6) (omega arith) (omega arith) in
    let a = pack 5 20 top rs2 (z ∙ omega arith) t in
    let b = pack 5 15 high rs1 (a ∙ omega arith) s in
    let c = pack 3 12 (high * 2 ^ 5 + rs1) f3 (b ∙ omega arith) f in
    let d =
      pack 4 8 ((high * 2 ^ 5 + rs1) * 2 ^ 3 + f3) (bits imm 1 4) (c ∙ omega arith) (omega arith) in
    let e = pack 1 7 low (bits imm 11 1) (d ∙ omega arith) (omega arith) in
    ap (λ t. bit_or t 0x63) e ∙ or_shifted 7 (low * 2 ^ 1 + bits imm 11 1) 0x63 (omega arith)

pub format_j_sum :
    (rd imm : ℕ)
    → rd < 2 ^ 5
    → let top = (bits imm 20 1 * 2 ^ 10 + bits imm 1 10) * 2 ^ 1 + bits imm 11 1 in
      format_j rd imm ≡ ((top * 2 ^ 8 + bits imm 12 8) * 2 ^ 5 + rd) * 2 ^ 7 + 0x6F
unfolding format_j
format_j_sum rd imm d =
    let two = bits imm 20 1 * 2 ^ 10 + bits imm 1 10 in
    let top = two * 2 ^ 1 + bits imm 11 1 in
    let z = pack 10 21 (bits imm 20 1) (bits imm 1 10) (omega arith) (omega arith) in
    let a = pack 1 20 two (bits imm 11 1) (z ∙ omega arith) (omega arith) in
    let b = pack 8 12 top (bits imm 12 8) (a ∙ omega arith) (omega arith) in
    let c = pack 5 7 (top * 2 ^ 8 + bits imm 12 8) rd (b ∙ omega arith) d in
    ap (λ t. bit_or t 0x6F) c
    ∙ or_shifted 7 ((top * 2 ^ 8 + bits imm 12 8) * 2 ^ 5 + rd) 0x6F (omega arith)

pub format_u_sum :
    (opcode rd imm : ℕ)
    → opcode < 2 ^ 7
    → rd < 2 ^ 5
    → format_u opcode rd imm ≡ (imm / 2 ^ 12 * 2 ^ 5 + rd) * 2 ^ 7 + opcode
unfolding format_u
format_u_sum opcode rd imm o d =
    let a = pack 5 7 (imm / 2 ^ 12) rd (omega arith) d in
    ap (λ t. bit_or t opcode) a ∙ or_shifted 7 (imm / 2 ^ 12 * 2 ^ 5 + rd) opcode o
