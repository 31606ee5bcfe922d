-- ===== src/Clint.antt =====
-- The `clint` component, src/components/platform/CLINT.cpp: the timer and software interrupt behind
-- a bus port, the C function that `CLINT::genFuncDef_seq` emits, one call of it for each tick. The
-- output wires keep their values when the function returns early.
pub mod Lanes
pub mod Registers
pub mod Settled
mod Tests
use digital_circuit_simulati.Prelude.{
  ℕ, ◌+◌, ◌-◌, ◌*◌, ◌/◌, ◌%◌, ◌^◌, Bool, true, false, not, ◌&&◌, ◌||◌, bit_and, bit_or,
}
use digital_circuit_simulati.Prelude.{leb, ◌==◌, if◌then◌else◌}

pub record Clint : Type 0 where
  pub mtime : ℕ
  pub mtimecmp : ℕ
  pub msip : ℕ
  pub prev_stb : Bool

pub record Inputs : Type 0 where
  pub stb : Bool
  pub cyc : Bool
  pub rising : Bool
  pub adr : ℕ
  pub wdat : ℕ
  pub we : Bool
  pub sel : ℕ

pub record Outputs : Type 0 where
  pub dat : ℕ
  pub ack : Bool
  pub mti : Bool
  pub msi : Bool

-- `OFF_MSIP`, `OFF_MTIMECMP` and `OFF_MTIME`
abbrev pub off_msip : ℕ
off_msip = 0x0000

abbrev pub off_mtimecmp : ℕ
off_mtimecmp = 0x4000

abbrev pub off_mtime : ℕ
off_mtime = 0xBFF8

-- `mtimecmp` starts out as `~0ULL`.
unfoldable pub init : Clint
init = record { mtime = 0; mtimecmp = 2 ^ 64 - 1; msip = 0; prev_stb = false }

-- The byte `b` of the data goes to the byte at bit `shift + 8 * b` of a register of `w` bits.
unfoldable pub write_lane : ℕ → ℕ → ℕ → ℕ → ℕ → ℕ → ℕ
write_lane w shift sel wdat b x =
    if bit_and sel (2 ^ b) == 0
    then x
    else bit_or (bit_and x (2 ^ w - 1 - 0xFF * 2 ^ (shift + 8 * b)))
        (bit_and wdat (0xFF * 2 ^ (8 * b)) * 2 ^ shift)

unfoldable pub write_lanes : ℕ → ℕ → ℕ → ℕ → ℕ → ℕ
write_lanes w shift sel wdat x = write_lane w shift sel wdat 3 (
    write_lane w shift sel wdat 2 (write_lane w shift sel wdat 1 (write_lane w shift sel wdat 0 x)))

unfoldable pub write_msip : ℕ → ℕ → ℕ → ℕ
write_msip sel wdat msip = write_lanes 32 0 sel wdat msip

unfoldable pub write_cmp_low : ℕ → ℕ → ℕ → ℕ
write_cmp_low sel wdat cmp =
    let lo = write_lanes 64 0 sel wdat (bit_and cmp 0xFFFFFFFF) in
    bit_or (bit_and cmp 0xFFFFFFFF00000000) (bit_and lo 0xFFFFFFFF)

unfoldable pub write_cmp_high : ℕ → ℕ → ℕ → ℕ
write_cmp_high sel wdat cmp =
    let hi = write_lanes 64 32 sel wdat (bit_and cmp 0xFFFFFFFF00000000) in
    bit_or hi (bit_and cmp 0xFFFFFFFF)

-- The two `switch (_adr & 0xFFFC)`.
unfoldable pub read_reg : ℕ → Clint → ℕ
read_reg adr s =
    let off = bit_and adr 0xFFFC in
    if off == off_msip
    then s.msip
    else if off == off_mtimecmp
    then s.mtimecmp % 2 ^ 32
    else if off == off_mtimecmp + 4
    then s.mtimecmp / 2 ^ 32 % 2 ^ 32
    else if off == off_mtime
    then s.mtime % 2 ^ 32
    else if off == off_mtime + 4
    then s.mtime / 2 ^ 32 % 2 ^ 32
    else 0

unfoldable pub write_reg : ℕ → ℕ → ℕ → Clint → Clint
write_reg adr sel wdat s =
    let off = bit_and adr 0xFFFC in
    if off == off_msip
    then record s { msip = write_msip sel wdat s.msip }
    else if off == off_mtimecmp
    then record s { mtimecmp = write_cmp_low sel wdat s.mtimecmp }
    else if off == off_mtimecmp + 4
    then record s { mtimecmp = write_cmp_high sel wdat s.mtimecmp }
    else s

-- The function after its early return: `active` and `prev_act` are the transaction of this tick and
-- of the one before.
unfoldable pub body : Inputs → Bool → Bool → Clint → Clint × Outputs
body i active prev_act s =
    let counted = if i.rising then record s { mtime = (s.mtime + 1) % 2 ^ 64 } else s in
    let reads = active && not i.we in
    let writes = active && not prev_act && i.we in
    let dout = if reads then read_reg i.adr counted else 0 in
    let written = if writes then write_reg i.adr i.sel i.wdat counted else counted in
    (
      written,
      record {
        dat = dout;
        ack = reads || writes;
        mti = leb written.mtimecmp written.mtime;
        msi = not (bit_and written.msip 1 == 0);
      },
    )

unfoldable pub tick : Inputs → Clint × Outputs → Clint × Outputs
tick i (s, o) =
    let active = i.stb && i.cyc in
    let latched = record s { prev_stb = active } in
    if not i.rising && not active && not s.prev_stb
    then (latched, o)
    else body i active s.prev_stb latched
