-- ===== src/Fifo.antt =====
-- The `fifo` component, src/components/memory/FIFO.cpp: the guards of its constructor and the C
-- function that `FIFO::genFuncDef_seq` emits, one call of it for each tick. A slot of the memory
-- holds one word of `data_width` bits; a data width is a whole number of bytes, so a copy of
-- `d_bytes` bytes moves one word. Input pins are given by the values read from them.
pub mod Ring
pub mod Refine
mod Tests
use digital_circuit_simulati.Prelude.{
  ℕ, ◌+◌, ◌-◌, ◌≡◌, Bool, true, false, not, ◌&&◌, ◌||◌, Option, none, some, List,
}
use digital_circuit_simulati.Prelude.{
  bit_and, get_or, set, replicate, ltb, leb, ◌==◌, if◌then◌else◌,
}

pub record Fifo : Type 0 where
  pub mem : List ℕ
  pub wr_ptr : ℕ
  pub rd_ptr : ℕ
  pub count : ℕ

pub record Inputs : Type 0 where
  pub din : ℕ
  pub wr_en : Bool
  pub rd_en : Bool
  pub rst : Bool
  pub rising : Bool

pub record Outputs : Type 0 where
  pub dout : ℕ
  pub full : Bool
  pub is_empty : Bool

-- The constructor throws `invalid_argument` on other widths and depths.
unfoldable pub accepts : ℕ → ℕ → Bool
accepts data_width depth =
    (data_width == 8 || data_width == 16 || data_width == 32 || data_width == 64)
    && leb 2 depth
    && leb depth 65536
    && (bit_and depth (depth - 1) == 0)

-- `allocateMem` and the emitted initialisation.
unfoldable pub init : ℕ → ℕ → Option Fifo
unfolding accepts
init data_width depth =
    if accepts data_width depth
    then some (record { mem = replicate depth 0; wr_ptr = 0; rd_ptr = 0; count = 0 })
    else none

unfoldable pub reset : Bool → Fifo → Fifo
reset rst s = if rst then record s { wr_ptr = 0; rd_ptr = 0; count = 0 } else s

unfoldable pub read : ℕ → Bool → Fifo → Fifo
read depth rd_en s =
    if rd_en && ltb 0 s.count
    then record s { rd_ptr = bit_and (s.rd_ptr + 1) (depth - 1); count = s.count - 1 }
    else s

unfoldable pub write : ℕ → Bool → ℕ → Fifo → Fifo
write depth wr_en din s =
    if wr_en && ltb s.count depth
    then record s {
      mem = set s.mem s.wr_ptr din;
      wr_ptr = bit_and (s.wr_ptr + 1) (depth - 1);
      count = s.count + 1;
    }
    else s

unfoldable pub outputs : ℕ → Fifo → Outputs
outputs depth s = record {
  dout = get_or s.mem s.rd_ptr 0;
  full = leb depth s.count;
  is_empty = s.count == 0;
}

-- The emitted function: asynchronous reset, then on a rising edge a read and then a write.
unfoldable pub tick : ℕ → Inputs → Fifo → Fifo × Outputs
unfolding reset read write outputs
tick depth i s =
    let cleared = reset i.rst s in
    let s' =
      if i.rising && not i.rst
      then write depth i.wr_en i.din (read depth i.rd_en cleared)
      else cleared in
    (s', outputs depth s')
