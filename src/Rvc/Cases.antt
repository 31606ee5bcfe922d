-- ===== src/Rvc/Cases.antt =====
-- The cases of the decoder, one for each kind of instruction.
use digital_circuit_simulati.Prelude.{ℕ, ◌/◌, ◌%◌, ◌^◌, ◌≡◌, ◌≢◌, refl, arith, false}
use digital_circuit_simulati.Prelude.{◌==◌}
use digital_circuit_simulati.Rvc.{bits, r3, imm_ci, format_r, format_i, format_s, format_sf}
use digital_circuit_simulati.Rvc.Quadrants.{
  offset_w, offset_d, offset_lwsp, offset_swsp, quadrant0, quadrant1, arithmetic, quadrant2, expand,
}

-- The cases of the decoder, for a word `c` with the code of the instruction.
module _ (xlen c : ℕ) where
  pub at_lw :
      c % 4 ≡ 0
      → bits c 13 3 ≡ 2
      → expand xlen c ≡ format_i 0x03 (r3 (c / 2 ^ 2)) 2 (r3 (c / 2 ^ 7)) (offset_w c)
  unfolding expand quadrant0
  at_lw op fun = rw (op, fun) refl

  pub at_flw :
      xlen ≡ 32
      → c % 4 ≡ 0
      → bits c 13 3 ≡ 3
      → expand xlen c ≡ format_i 0x07 (r3 (c / 2 ^ 2)) 2 (r3 (c / 2 ^ 7)) (offset_w c)
  unfolding expand quadrant0
  at_flw x op fun = rw (op, fun, x) refl

  pub at_ld :
      xlen ≡ 64
      → c % 4 ≡ 0
      → bits c 13 3 ≡ 3
      → expand xlen c ≡ format_i 0x03 (r3 (c / 2 ^ 2)) 3 (r3 (c / 2 ^ 7)) (offset_d c)
  unfolding expand quadrant0
  at_ld x op fun = rw (op, fun, x) refl

  pub at_fld :
      c % 4 ≡ 0
      → bits c 13 3 ≡ 1
      → expand xlen c ≡ format_i 0x07 (r3 (c / 2 ^ 2)) 3 (r3 (c / 2 ^ 7)) (offset_d c)
  unfolding expand quadrant0
  at_fld op fun = rw (op, fun) refl

  pub at_sw :
      c % 4 ≡ 0
      → bits c 13 3 ≡ 6
      → expand xlen c ≡ format_s 2 (r3 (c / 2 ^ 7)) (r3 (c / 2 ^ 2)) (offset_w c)
  unfolding expand quadrant0
  at_sw op fun = rw (op, fun) refl

  pub at_fsw :
      xlen ≡ 32
      → c % 4 ≡ 0
      → bits c 13 3 ≡ 7
      → expand xlen c ≡ format_sf 2 (r3 (c / 2 ^ 7)) (r3 (c / 2 ^ 2)) (offset_w c)
  unfolding expand quadrant0
  at_fsw x op fun = rw (op, fun, x) refl

  pub at_sd :
      xlen ≡ 64
      → c % 4 ≡ 0
      → bits c 13 3 ≡ 7
      → expand xlen c ≡ format_s 3 (r3 (c / 2 ^ 7)) (r3 (c / 2 ^ 2)) (offset_d c)
  unfolding expand quadrant0
  at_sd x op fun = rw (op, fun, x) refl

  pub at_fsd :
      c % 4 ≡ 0
      → bits c 13 3 ≡ 5
      → expand xlen c ≡ format_sf 3 (r3 (c / 2 ^ 7)) (r3 (c / 2 ^ 2)) (offset_d c)
  unfolding expand quadrant0
  at_fsd op fun = rw (op, fun) refl

  pub at_addi :
      c % 4 ≡ 1
      → bits c 13 3 ≡ 0
      → expand xlen c ≡ format_i 0x13 (bits c 7 5) 0 (bits c 7 5) (imm_ci c)
  unfolding expand quadrant1
  at_addi op fun = rw (op, fun) refl

  pub at_li :
      c % 4 ≡ 1 → bits c 13 3 ≡ 2 → expand xlen c ≡ format_i 0x13 (bits c 7 5) 0 0 (imm_ci c)
  unfolding expand quadrant1
  at_li op fun = rw (op, fun) refl

  pub at_andi :
      c % 4 ≡ 1
      → bits c 13 3 ≡ 4
      → bits c 10 2 ≡ 2
      → expand xlen c ≡ format_i 0x13 (r3 (c / 2 ^ 7)) 7 (r3 (c / 2 ^ 7)) (imm_ci c)
  unfolding expand quadrant1 arithmetic
  at_andi op fun kind = rw (op, fun, kind) refl

  module _ (op : c % 4 ≡ 1) (fun : bits c 13 3 ≡ 4) (kind : bits c 10 2 ≡ 3)
      (plain : bits c 12 1 ≡ 0) where
    pub at_sub :
        bits c 5 2 ≡ 0
        → expand xlen c ≡ format_r 0x33 (r3 (c / 2 ^ 7)) 0 (r3 (c / 2 ^ 7)) (r3 (c / 2 ^ 2)) 0x20
    unfolding expand quadrant1 arithmetic
    at_sub code = rw (op, fun, kind, plain, code) refl

    pub at_xor :
        bits c 5 2 ≡ 1
        → expand xlen c ≡ format_r 0x33 (r3 (c / 2 ^ 7)) 4 (r3 (c / 2 ^ 7)) (r3 (c / 2 ^ 2)) 0
    unfolding expand quadrant1 arithmetic
    at_xor code = rw (op, fun, kind, plain, code) refl

    pub at_or :
        bits c 5 2 ≡ 2
        → expand xlen c ≡ format_r 0x33 (r3 (c / 2 ^ 7)) 6 (r3 (c / 2 ^ 7)) (r3 (c / 2 ^ 2)) 0
    unfolding expand quadrant1 arithmetic
    at_or code = rw (op, fun, kind, plain, code) refl

    pub at_and :
        bits c 5 2 ≡ 3
        → expand xlen c ≡ format_r 0x33 (r3 (c / 2 ^ 7)) 7 (r3 (c / 2 ^ 7)) (r3 (c / 2 ^ 2)) 0
    unfolding expand quadrant1 arithmetic
    at_and code = rw (op, fun, kind, plain, code) refl

  pub at_lwsp :
      (rd : ℕ)
      → rd ≢ 0
      → c % 4 ≡ 2
      → bits c 13 3 ≡ 2
      → bits c 7 5 ≡ rd
      → expand xlen c ≡ format_i 0x03 rd 2 2 (offset_lwsp c)
  unfolding expand quadrant2
  at_lwsp rd ne op fun reg =
      let nonzero : (rd == 0) ≡ false = ground (arith, ne) in rw (op, fun, reg, nonzero) refl

  pub at_swsp :
      c % 4 ≡ 2 → bits c 13 3 ≡ 6 → expand xlen c ≡ format_s 2 2 (bits c 2 5) (offset_swsp c)
  unfolding expand quadrant2
  at_swsp op fun = rw (op, fun) refl

  pub at_mv :
      (rd rs2 : ℕ)
      → rs2 ≢ 0
      → c % 4 ≡ 2
      → bits c 13 3 ≡ 4
      → bits c 12 1 ≡ 0
      → bits c 7 5 ≡ rd
      → bits c 2 5 ≡ rs2
      → expand xlen c ≡ format_r 0x33 rd 0 0 rs2 0
  unfolding expand quadrant2
  at_mv rd rs2 ne op fun b12 reg other =
      let nonzero : (rs2 == 0) ≡ false = ground (arith, ne) in
      rw (op, fun, b12, reg, other, nonzero) refl

  pub at_add :
      (rd rs2 : ℕ)
      → rs2 ≢ 0
      → c % 4 ≡ 2
      → bits c 13 3 ≡ 4
      → bits c 12 1 ≡ 1
      → bits c 7 5 ≡ rd
      → bits c 2 5 ≡ rs2
      → expand xlen c ≡ format_r 0x33 rd 0 rd rs2 0
  unfolding expand quadrant2
  at_add rd rs2 ne op fun b12 reg other =
      let nonzero : (rs2 == 0) ≡ false = ground (arith, ne) in
      rw (op, fun, b12, reg, other, nonzero) refl

  pub at_jr :
      (rs1 : ℕ)
      → rs1 ≢ 0
      → c % 4 ≡ 2
      → bits c 13 3 ≡ 4
      → bits c 12 1 ≡ 0
      → bits c 7 5 ≡ rs1
      → bits c 2 5 ≡ 0
      → expand xlen c ≡ format_i 0x67 0 0 rs1 0
  unfolding expand quadrant2
  at_jr rs1 ne op fun b12 reg other =
      let nonzero : (rs1 == 0) ≡ false = ground (arith, ne) in
      rw (op, fun, b12, reg, other, nonzero) refl

  pub at_jalr :
      (rs1 : ℕ)
      → rs1 ≢ 0
      → c % 4 ≡ 2
      → bits c 13 3 ≡ 4
      → bits c 12 1 ≡ 1
      → bits c 7 5 ≡ rs1
      → bits c 2 5 ≡ 0
      → expand xlen c ≡ format_i 0x67 1 0 rs1 0
  unfolding expand quadrant2
  at_jalr rs1 ne op fun b12 reg other =
      let nonzero : (rs1 == 0) ≡ false = ground (arith, ne) in
      rw (op, fun, b12, reg, other, nonzero) refl
