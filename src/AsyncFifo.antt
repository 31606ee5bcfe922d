-- ===== src/AsyncFifo.antt =====
-- The `async_fifo` component, src/components/sequential/AsyncFifo.cpp: the C function that
-- `AsyncFifo::genFuncDef_seq` emits, one call of it for each tick. The pointers are 32-bit words that
-- wrap at twice the depth; the depth is a power of two from 2 to 256.
pub mod Gray
pub mod Crossing
pub mod Sequence
mod Tests
use digital_circuit_simulati.Prelude.{
  ℕ, zero, suc, ◌+◌, ◌-◌, ◌*◌, ◌/◌, ◌%◌, ◌^◌, Bool, true, false, not, ◌&&◌, ◌||◌, Option, none,
  some, List, bit_and, bit_xor,
}
use digital_circuit_simulati.Prelude.{ltb, leb, ◌==◌, if◌then◌else◌, get_or, set, replicate}

pub record AsyncFifo : Type 0 where
  pub mem : List ℕ
  pub wbin : ℕ
  pub rbin : ℕ
  pub wg_s1 : ℕ
  pub wg_s2 : ℕ
  pub rg_s1 : ℕ
  pub rg_s2 : ℕ
  pub rdata : ℕ
  pub prev_wclk : Bool
  pub prev_rclk : Bool

pub record Inputs : Type 0 where
  pub wclk : Bool
  pub wen : Bool
  pub din : ℕ
  pub rclk : Bool
  pub ren : Bool

pub record Outputs : Type 0 where
  pub full : Bool
  pub is_empty : Bool
  pub q : ℕ

-- The constructor throws `invalid_argument` on other widths and depths.
unfoldable pub accepts : ℕ → ℕ → Bool
accepts bit_width depth =
    leb 1 bit_width
    && leb bit_width 64
    && leb 2 depth
    && leb depth 256
    && (bit_and depth (depth - 1) == 0)

unfoldable pub init : ℕ → AsyncFifo
init depth = record {
  mem = replicate depth 0;
  wbin = 0;
  rbin = 0;
  wg_s1 = 0;
  wg_s2 = 0;
  rg_s1 = 0;
  rg_s2 = 0;
  rdata = 0;
  prev_wclk = false;
  prev_rclk = false;
}

-- `x ^ (x >> 1)`
unfoldable pub gray_code : ℕ → ℕ
gray_code x = bit_xor x (x / 2)

-- `addr_bits`: the loop halves `d`, at most `fuel` times.
unfoldable pub addr_bits : ℕ → ℕ → ℕ
addr_bits zero d = 0
addr_bits (suc fuel) d = let rest = addr_bits fuel (d / 2) in if ltb 1 d then rest + 1 else 0

-- `_full` and `_empty`, for `2 ^ pw` pointer values.
abbrev pub is_full : ℕ → AsyncFifo → Bool
is_full pw s = gray_code s.wbin == bit_xor s.rg_s2 (3 * 2 ^ (pw - 2))

abbrev pub is_empty : AsyncFifo → Bool
is_empty s = gray_code s.rbin == s.wg_s2

-- A rising edge of the read clock; `wg` is the code of the write pointer at the start of the tick.
unfoldable pub read_edge : ℕ → ℕ → Bool → Bool → ℕ → AsyncFifo → AsyncFifo
read_edge depth pw ren no_data wg s =
    let popped =
      if ren && not no_data
      then record s {
        rdata = get_or s.mem (bit_and s.rbin (depth - 1)) 0;
        rbin = bit_and (s.rbin + 1) (2 ^ pw - 1);
      }
      else s in
    record popped { wg_s2 = s.wg_s1; wg_s1 = wg }

unfoldable pub write_edge : ℕ → ℕ → ℕ → Bool → Bool → ℕ → ℕ → AsyncFifo → AsyncFifo
write_edge bit_width depth pw wen no_room din rg s =
    let pushed =
      if wen && not no_room
      then record s {
        mem = set s.mem (bit_and s.wbin (depth - 1)) (bit_and din (2 ^ bit_width - 1));
        wbin = bit_and (s.wbin + 1) (2 ^ pw - 1);
      }
      else s in
    record pushed { rg_s2 = s.rg_s1; rg_s1 = rg }

unfoldable pub tick : ℕ → ℕ → Inputs → AsyncFifo → AsyncFifo × Outputs
tick bit_width depth i s =
    let pw = addr_bits depth depth + 1 in
    let full = is_full pw s in
    let no_data = is_empty s in
    let s1 =
      if i.rclk && not s.prev_rclk
      then read_edge depth pw i.ren no_data (gray_code s.wbin) s
      else s in
    let s2 =
      if i.wclk && not s.prev_wclk
      then write_edge bit_width depth pw i.wen full i.din (gray_code s.rbin) s1
      else s1 in
    let s3 = record s2 { prev_wclk = i.wclk; prev_rclk = i.rclk } in
    (s3, record { full = full; is_empty = no_data; q = s3.rdata })
