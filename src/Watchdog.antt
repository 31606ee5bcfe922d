-- ===== src/Watchdog.antt =====
-- The `watchdog` component, src/components/io/Watchdog.cpp: the C function that
-- `Watchdog::genFuncDef_seq` emits, one call of it for each rising edge.
pub mod Fires
mod Tests
use digital_circuit_simulati.Prelude.{
  ℕ, zero, suc, ◌+◌, ◌%◌, ◌^◌, Bool, true, false, not, ◌&&◌, List, [], ◌∷◌,
}
use digital_circuit_simulati.Prelude.{leb, ◌==◌, if◌then◌else◌}

pub record Watchdog : Type 0 where
  pub ctrl : ℕ
  pub timeout : ℕ
  pub cnt : ℕ
  pub fired : Bool
  pub prev_en : Bool

pub record Inputs : Type 0 where
  pub addr : ℕ
  pub wdat : ℕ
  pub we : Bool
  pub en : Bool

pub record Outputs : Type 0 where
  pub rdata : ℕ
  pub ready : Bool
  pub irq : Bool

unfoldable pub init : Watchdog
init = record { ctrl = 0; timeout = 0; cnt = 0; fired = false; prev_en = false }

-- The first access to a register with `_we` set.
abbrev pub writes : Inputs → Watchdog → Bool
writes i s = i.en && i.we && not s.prev_en

unfoldable pub write : Inputs → Watchdog → Watchdog
write i s =
    if i.addr == 0x00
    then (if i.wdat % 2 == 0
        then record s { ctrl = 0; cnt = 0; fired = false }
        else record s { ctrl = i.wdat % 2 })
    else if i.addr == 0x04
    then record s { timeout = i.wdat }
    else if i.addr == 0x08
    then record s { cnt = 0; fired = false }
    else s

unfoldable pub read : Inputs → Watchdog → ℕ
read i s =
    if i.addr == 0x00
    then s.ctrl
    else if i.addr == 0x04
    then s.timeout
    else if i.addr == 0x0C
    then (if s.fired then 1 else 0)
    else 0

unfoldable pub count : Watchdog → Watchdog
count s =
    let cnt' = (s.cnt + 1) % 2 ^ 32 in
    if not (s.ctrl == 0) && not s.fired && not (s.timeout == 0)
    then record s { cnt = cnt'; fired = leb s.timeout cnt' }
    else s

unfoldable pub tick : Inputs → Watchdog → Watchdog × Outputs
tick i s =
    let s1 = record (if writes i s then write i s else s) { prev_en = i.en } in
    let s2 = count s1 in (s2, record { rdata = read i s1; ready = i.en; irq = s2.fired })
