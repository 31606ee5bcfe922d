-- ===== src/Rvc/Tests.antt =====
-- Runs of the decoder on encodings of the manual, and the theorems at them.
use digital_circuit_simulati.Prelude.{◌%◌, ◌^◌, ◌≡◌, refl, arith}
use digital_circuit_simulati.Rvc.{
  bits, format_i, format_b, format_j, sign_extend, imm_ci, imm_b, illegal,
}
use digital_circuit_simulati.Rvc.Quadrants.{expand, quadrant0, quadrant1}
use digital_circuit_simulati.Rvc.Encoding.{c_lw, encode}
use digital_circuit_simulati.Rvc.Fields.{
  branch_offset, jump_offset, format_b_fields, format_j_fields, format_i_fields,
}

-- c.addi a0, -1
addi_expanded : expand 32 0x157D ≡ 0xFFF50513
unfolding expand quadrant1 format_i imm_ci sign_extend
addi_expanded = refl

-- c.beqz s0, -2
beqz_expanded : expand 32 0xDC7D ≡ 0xFE040FE3
unfolding expand quadrant1 format_b imm_b sign_extend
beqz_expanded = refl

zero_refused : expand 64 0 ≡ illegal
unfolding expand quadrant0
zero_refused = refl

-- c.lw a0, 68(a1)
lw_encoded : encode (c_lw 2 3 68) ≡ 0x41E8
unfolding encode
lw_encoded = refl

format_b_fields_example :
    (bits (format_b 0 8 0 4094) 12 3 ≡ 0)
    × (bits (format_b 0 8 0 4094) 15 5 ≡ 8)
    × (bits (format_b 0 8 0 4094) 20 5 ≡ 0)
    × (branch_offset (format_b 0 8 0 4094) ≡ 4094 % 2 ^ 13)
format_b_fields_example = format_b_fields 0 8 0 4094 (omega arith) (omega arith) (omega arith) refl

format_j_fields_example :
    (bits (format_j 1 2048) 7 5 ≡ 1) × (jump_offset (format_j 1 2048) ≡ 2048 % 2 ^ 21)
format_j_fields_example = format_j_fields 1 2048 (omega arith) refl

format_i_fields_example :
    (format_i 0x13 10 0 10 4095 % 2 ^ 7 ≡ 0x13)
    × (bits (format_i 0x13 10 0 10 4095) 7 5 ≡ 10)
    × (bits (format_i 0x13 10 0 10 4095) 12 3 ≡ 0)
    × (bits (format_i 0x13 10 0 10 4095) 15 5 ≡ 10)
    × (bits (format_i 0x13 10 0 10 4095) 20 12 ≡ 4095 % 2 ^ 12)
format_i_fields_example =
    format_i_fields 0x13 10 0 10 4095 (omega arith) (omega arith) (omega arith) (omega arith)
