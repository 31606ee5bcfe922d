-- ===== src/Dma.antt =====
-- The `dma` component, src/components/platform/DMA.cpp: the C function that `DMA::genFuncDef_seq`
-- emits, one call of it for each rising edge. It has two parts that run one after the other: the
-- configuration slave and the master that moves one word with a read and a write. Pins are given
-- by the values read from them; `adr`, `dat` and the registers are 32-bit words.
pub mod Transfer
pub mod Copy
mod Tests
use digital_circuit_simulati.Prelude.{
  ℕ, ◌+◌, ◌-◌, ◌*◌, ◌/◌, ◌%◌, ◌^◌, Bool, true, false, not, ◌&&◌, ◌||◌,
}
use digital_circuit_simulati.Prelude.{ltb, leb, ◌==◌, if◌then◌else◌}

pub record Dma : Type 0 where
  pub src : ℕ
  pub dst : ℕ
  pub len : ℕ
  pub remain : ℕ
  pub rd_val : ℕ
  pub latched : ℕ
  pub m_adr : ℕ
  pub m_dat : ℕ
  pub busy : Bool
  pub done : Bool
  pub m_we : Bool
  pub m_stb : Bool
  pub m_cyc : Bool
  pub st : ℕ
  pub prev_stb : Bool

pub record Inputs : Type 0 where
  pub cfg_adr : ℕ
  pub cfg_dat : ℕ
  pub cfg_we : Bool
  pub cfg_stb : Bool
  pub cfg_cyc : Bool
  pub m_dat_i : ℕ
  pub m_ack_i : Bool

unfoldable pub init : Dma
init = record {
  src = 0;
  dst = 0;
  len = 0;
  remain = 0;
  rd_val = 0;
  latched = 0;
  m_adr = 0;
  m_dat = 0;
  busy = false;
  done = false;
  m_we = false;
  m_stb = false;
  m_cyc = false;
  st = 0;
  prev_stb = false;
}

-- `switch (_cfg_adr & 0x1F)` in the cycle in which an access begins: the registers it leaves.
unfoldable pub write_reg : Inputs → Dma → Dma
write_reg i d =
    let reg = i.cfg_adr % 32 in
    if not i.cfg_we
    then d
    else if reg == 0x00
    then (if d.busy then d else record d { src = i.cfg_dat })
    else if reg == 0x04
    then (if d.busy then d else record d { dst = i.cfg_dat })
    else if reg == 0x08
    then (if d.busy then d else record d { len = i.cfg_dat - i.cfg_dat % 4 })
    else if reg == 0x0C
    then (if (i.cfg_dat % 2 == 1) && not d.busy && not (d.len == 0)
        then record d { remain = d.len; busy = true; done = false; st = 1 }
        else d)
    else d

-- The value that the same switch puts on the data output.
unfoldable pub read_reg : Inputs → Dma → ℕ
read_reg i d =
    let reg = i.cfg_adr % 32 in
    if reg == 0x10
    then (if d.busy then 1 else 0) + (if d.done then 2 else 0)
    else if i.cfg_we
    then 0
    else if reg == 0x00
    then d.src
    else if reg == 0x04
    then d.dst
    else if reg == 0x08
    then d.len
    else 0

-- The configuration slave: the data output, the acknowledge and the new registers.
unfoldable pub config : Inputs → Dma → Dma × ℕ × Bool
unfolding write_reg read_reg
config i d =
    let active = i.cfg_stb && i.cfg_cyc in
    let rise = active && not d.prev_stb in
    let d' = record d { prev_stb = active } in
    let out = if rise then read_reg i d' else (if active then d.latched else 0) in
    let d'' = if rise then record (write_reg i d') { latched = out } else d' in
    (if active then d'' else record d'' { latched = 0 }, out, active)

-- The write of a word was acknowledged.
unfoldable pub word_done : Dma → Dma
word_done d =
    let remain' = if leb 4 d.remain then d.remain - 4 else d.remain in
    let moved = record d {
      m_stb = false;
      m_cyc = false;
      src = (d.src + 4) % 2 ^ 32;
      dst = (d.dst + 4) % 2 ^ 32;
      remain = remain';
    } in
    if remain' == 0
    then record moved { busy = false; done = true; st = 5 }
    else record moved { st = 1 }

-- The master's state machine: 1 ask for a read, 2 wait for it, 3 ask for a write, 4 wait for it,
-- 0 and 5 idle.
unfoldable pub master : Inputs → Dma → Dma
unfolding word_done
master i d =
    if d.st == 0 || d.st == 5
    then record d { m_stb = false; m_cyc = false }
    else if d.st == 1
    then record d { m_adr = d.src; m_we = false; m_stb = true; m_cyc = true; st = 2 }
    else if d.st == 2
    then (if i.m_ack_i
        then record d { rd_val = i.m_dat_i; m_stb = false; m_cyc = false; st = 3 }
        else d)
    else if d.st == 3
    then record d {
      m_adr = d.dst;
      m_dat = d.rd_val;
      m_we = true;
      m_stb = true;
      m_cyc = true;
      st = 4;
    }
    else if d.st == 4 && i.m_ack_i
    then word_done d
    else d

-- The emitted function on a rising edge: the state, `cfg_dat_o` and `cfg_ack_o`. The master's
-- outputs are the fields `m_adr`, `m_dat`, `m_we`, `m_stb` and `m_cyc`.
unfoldable pub tick : Inputs → Dma → Dma × ℕ × Bool
tick i d = let (d', out, ack) = config i d in (master i d', out, ack)
