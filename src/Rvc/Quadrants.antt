-- ===== src/Rvc/Quadrants.antt =====
-- `expand` of include/dcs/util/RvcDecode.h, by the quadrant in the two low bits of the encoding.
-- The template's `XLEN` is an argument.
use digital_circuit_simulati.Prelude.{ℕ, ◌*◌, ◌/◌, ◌%◌, ◌^◌, bit_or, ◌&&◌}
use digital_circuit_simulati.Prelude.{◌==◌, if◌then◌else◌}
use digital_circuit_simulati.Rvc.{
  bits, r3, sign_extend, imm_ci, imm_b, imm_j, format_r, format_i, format_s, format_sf, format_b,
  format_j, format_u, illegal,
}

-- The offsets of the loads and stores: of words and of double words, from a register and from
-- the stack pointer.
abbrev pub offset_w : ℕ → ℕ
offset_w c = bit_or (bit_or (bits c 10 3 * 2 ^ 3) (bits c 6 1 * 2 ^ 2)) (bits c 5 1 * 2 ^ 6)

abbrev pub offset_d : ℕ → ℕ
offset_d c = bit_or (bits c 10 3 * 2 ^ 3) (bits c 5 2 * 2 ^ 6)

abbrev pub offset_lwsp : ℕ → ℕ
offset_lwsp c = bit_or (bit_or (bits c 12 1 * 2 ^ 5) (bits c 4 3 * 2 ^ 2)) (bits c 2 2 * 2 ^ 6)

abbrev pub offset_ldsp : ℕ → ℕ
offset_ldsp c = bit_or (bit_or (bits c 12 1 * 2 ^ 5) (bits c 5 2 * 2 ^ 3)) (bits c 2 3 * 2 ^ 6)

abbrev pub offset_swsp : ℕ → ℕ
offset_swsp c = bit_or (bits c 9 4 * 2 ^ 2) (bits c 7 2 * 2 ^ 6)

abbrev pub offset_sdsp : ℕ → ℕ
offset_sdsp c = bit_or (bits c 10 3 * 2 ^ 3) (bits c 7 3 * 2 ^ 6)

abbrev pub shift_amount : ℕ → ℕ
shift_amount c = bit_or (bits c 12 1 * 2 ^ 5) (bits c 2 5)

abbrev pub addi4spn : ℕ → ℕ
addi4spn c =
    bit_or (bit_or (bit_or (bits c 11 2 * 2 ^ 4) (bits c 7 4 * 2 ^ 6)) (bits c 6 1 * 2 ^ 2))
      (bits c 5 1 * 2 ^ 3)

abbrev pub addi16sp : ℕ → ℕ
addi16sp c = sign_extend 10 (
    bit_or
      (bit_or (bit_or (bit_or (bits c 12 1 * 2 ^ 9) (bits c 6 1 * 2 ^ 4)) (bits c 5 1 * 2 ^ 6))
        (bits c 3 2 * 2 ^ 7))
      (bits c 2 1 * 2 ^ 5))

unfoldable pub quadrant0 : ℕ → ℕ → ℕ
quadrant0 xlen c =
    let f3 = bits c 13 3 in
    let rd' = r3 (c / 2 ^ 2) in
    let rs1' = r3 (c / 2 ^ 7) in
    let rs2' = r3 (c / 2 ^ 2) in
    if f3 == 0
    then (if addi4spn c == 0 then illegal else format_i 0x13 rd' 0 2 (addi4spn c))
    else if f3 == 2
    then format_i 0x03 rd' 2 rs1' (offset_w c)
    else if f3 == 3
    then (if xlen == 32
        then format_i 0x07 rd' 2 rs1' (offset_w c)
        else format_i 0x03 rd' 3 rs1' (offset_d c))
    else if f3 == 6
    then format_s 2 rs1' rs2' (offset_w c)
    else if f3 == 7
    then (if xlen == 32
        then format_sf 2 rs1' rs2' (offset_w c)
        else format_s 3 rs1' rs2' (offset_d c))
    else if f3 == 1
    then format_i 0x07 rd' 3 rs1' (offset_d c)
    else if f3 == 5
    then format_sf 3 rs1' rs2' (offset_d c)
    else illegal

-- `case 4` of quadrant 1: shifts, `andi` and the operations on registers.
unfoldable pub arithmetic : ℕ → ℕ → ℕ
arithmetic xlen c =
    let rs1' = r3 (c / 2 ^ 7) in
    let rs2' = r3 (c / 2 ^ 2) in
    let f2 = bits c 10 2 in
    let f2b = bits c 5 2 in
    if f2 == 0
    then format_i 0x13 rs1' 5 rs1' (shift_amount c)
    else if f2 == 1
    then format_i 0x13 rs1' 5 rs1' (bit_or (bit_or 0x400 (bits c 12 1 * 2 ^ 5)) (bits c 2 5))
    else if f2 == 2
    then format_i 0x13 rs1' 7 rs1' (imm_ci c)
    else if bits c 12 1 == 0
    then (if f2b == 0
        then format_r 0x33 rs1' 0 rs1' rs2' 0x20
        else if f2b == 1
        then format_r 0x33 rs1' 4 rs1' rs2' 0
        else if f2b == 2
        then format_r 0x33 rs1' 6 rs1' rs2' 0
        else format_r 0x33 rs1' 7 rs1' rs2' 0)
    else if xlen == 64 && (f2b == 0)
    then format_r 0x3B rs1' 0 rs1' rs2' 0x20
    else if xlen == 64 && (f2b == 1)
    then format_r 0x3B rs1' 0 rs1' rs2' 0
    else illegal

unfoldable pub quadrant1 : ℕ → ℕ → ℕ
unfolding arithmetic
quadrant1 xlen c =
    let f3 = bits c 13 3 in
    let rd = bits c 7 5 in
    let rs1' = r3 (c / 2 ^ 7) in
    if f3 == 0
    then format_i 0x13 rd 0 rd (imm_ci c)
    else if f3 == 1
    then (if xlen == 32
        then format_j 1 (imm_j c)
        else if rd == 0
        then illegal
        else format_i 0x1B rd 0 rd (imm_ci c))
    else if f3 == 2
    then format_i 0x13 rd 0 0 (imm_ci c)
    else if f3 == 3
    then (if rd == 2
        then (if addi16sp c == 0 then illegal else format_i 0x13 2 0 2 (addi16sp c))
        else if imm_ci c == 0
        then illegal
        else format_u 0x37 rd (imm_ci c * 4096 % 2 ^ 32))
    else if f3 == 4
    then arithmetic xlen c
    else if f3 == 5
    then format_j 0 (imm_j c)
    else if f3 == 6
    then format_b 0 rs1' 0 (imm_b c)
    else format_b 1 rs1' 0 (imm_b c)

unfoldable pub quadrant2 : ℕ → ℕ → ℕ
quadrant2 xlen c =
    let f3 = bits c 13 3 in
    let rd = bits c 7 5 in
    let rs2 = bits c 2 5 in
    let b12 = bits c 12 1 in
    if f3 == 0
    then (if b12 == 0 && (rd == 0) then illegal else format_i 0x13 rd 1 rd (shift_amount c))
    else if f3 == 1
    then format_i 0x07 rd 3 2 (offset_ldsp c)
    else if f3 == 2
    then (if rd == 0 then illegal else format_i 0x03 rd 2 2 (offset_lwsp c))
    else if f3 == 3
    then (if xlen == 32
        then format_i 0x07 rd 2 2 (offset_lwsp c)
        else if rd == 0
        then illegal
        else format_i 0x03 rd 3 2 (offset_ldsp c))
    else if f3 == 4
    then (if b12 == 0
        then (if rs2 == 0
            then (if rd == 0 then illegal else format_i 0x67 0 0 rd 0)
            else format_r 0x33 rd 0 0 rs2 0)
        else if rs2 == 0
        then (if rd == 0 then 0x00100073 else format_i 0x67 1 0 rd 0)
        else format_r 0x33 rd 0 rd rs2 0)
    else if f3 == 5
    then format_sf 3 2 rs2 (offset_sdsp c)
    else if f3 == 6
    then format_s 2 2 rs2 (offset_swsp c)
    else if f3 == 7
    then (if xlen == 32
        then format_sf 2 2 rs2 (offset_swsp c)
        else format_s 3 2 rs2 (offset_sdsp c))
    else illegal

unfoldable pub expand : ℕ → ℕ → ℕ
expand xlen c =
    if c % 4 == 0
    then quadrant0 xlen c
    else if c % 4 == 1
    then quadrant1 xlen c
    else quadrant2 xlen c
