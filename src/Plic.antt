-- ===== src/Plic.antt =====
-- The `plic` component, src/components/platform/PLIC.cpp: an interrupt controller with two
-- contexts behind a bus port, the C function that `PLIC::genFuncDef_seq` emits, one call of it
-- for each rising edge. Bit `i` of a mask is source `i`; masks are 32 bits wide.
pub mod Claim
pub mod Exclusive
mod Tests
use digital_circuit_simulati.Prelude.{
  ℕ, zero, suc, ◌+◌, ◌-◌, ◌*◌, ◌/◌, ◌%◌, ◌^◌, min, max, Bool, true, false, not, ◌&&◌, ◌||◌, Option,
  none, some, List, bit_and, bit_or,
}
use digital_circuit_simulati.Prelude.{ltb, leb, ◌==◌, if◌then◌else◌, get_or, set, replicate}

-- One context: its entries of `_plic_en`, `_plic_thr` and `_plic_insvc`.
pub record Context : Type 0 where
  pub en : ℕ
  pub thr : ℕ
  pub insvc : ℕ

pub record Plic : Type 0 where
  pub prio : List ℕ
  pub pending : ℕ
  pub c0 : Context
  pub c1 : Context
  pub latched : ℕ
  pub prev_stb : Bool
  pub last_src : ℕ

pub record Inputs : Type 0 where
  pub src : ℕ
  pub stb : Bool
  pub cyc : Bool
  pub adr : ℕ
  pub wdat : ℕ
  pub we : Bool

pub record Outputs : Type 0 where
  pub dat : ℕ
  pub ack : Bool
  pub irq : Bool

-- The constructor's bounds on the number of sources.
unfoldable pub clamp : ℕ → ℕ
clamp n = min 31 (max 1 n)

unfoldable pub init : ℕ → Plic
init n = record {
  prio = replicate (n + 1) 0;
  pending = 0;
  c0 = record { en = 0; thr = 0; insvc = 0 };
  c1 = record { en = 0; thr = 0; insvc = 0 };
  latched = 0;
  prev_stb = false;
  last_src = 0;
}

-- `emask`
unfoldable pub enable_mask : ℕ → ℕ
enable_mask n = if leb 31 n then 2 ^ 32 - 2 else 2 ^ (n + 1) - 2

-- `~x` on 32 bits.
abbrev pub complement : ℕ → ℕ
complement x = 2 ^ 32 - 1 - x

-- `mask & (1u << id)`, as a condition.
abbrev pub has : ℕ → ℕ → Bool
has mask id = not (bit_and mask (2 ^ id) == 0)

abbrev pub context : ℕ → Plic → Context
context ctx s = if ctx == 0 then s.c0 else s.c1

abbrev pub with_context : ℕ → Context → Plic → Plic
with_context ctx c s = if ctx == 0 then record s { c0 = c } else record s { c1 = c }

-- New requests, but not of sources that are in service.
unfoldable pub arrive : ℕ → Plic → Plic
arrive src s =
    let arrived = bit_and (src * 2 % 2 ^ 32) (complement (bit_or s.c0.insvc s.c1.insvc)) in
    record s { pending = bit_or s.pending arrived }

-- The tests for the sources from `id` on, `todo` of them, which leave `_bestp` and `_best`.
unfoldable pub scan : ℕ → ℕ → List ℕ → ℕ → ℕ → ℕ → ℕ × ℕ
scan id zero prio cand bestp best = (bestp, best)
scan id (suc todo) prio cand bestp best =
    if has cand id && ltb bestp (get_or prio id 0)
    then scan (suc id) todo prio cand (get_or prio id 0) id
    else scan (suc id) todo prio cand bestp best

unfoldable pub best_source : ℕ → ℕ → Plic → ℕ
best_source n ctx s = (scan 1 n s.prio (bit_and s.pending (context ctx s).en) 0 0).1

unfoldable pub claim : ℕ → ℕ → Plic → Plic
claim n ctx s =
    let best = best_source n ctx s in
    let c = context ctx s in
    if best == 0
    then s
    else with_context ctx (record c { insvc = bit_or c.insvc (2 ^ best) })
        (record s { pending = bit_and s.pending (complement (2 ^ best)) })

unfoldable pub complete : ℕ → ℕ → ℕ → Plic → Plic
complete n ctx id s =
    let c = context ctx s in
    if leb id n && not (id == 0) && has c.en id
    then with_context ctx (record c { insvc = bit_and c.insvc (complement (2 ^ id)) }) s
    else s

-- An access that begins: the state and the data that is read.
unfoldable pub access : ℕ → Inputs → Plic → Plic × ℕ
access n i s =
    let off = i.adr % 2 ^ 24 in
    if ltb off (4 * (n + 1))
    then (if not i.we
        then (s, get_or s.prio (off / 4) 0)
        else if leb 1 (off / 4)
        then (record s { prio = set s.prio (off / 4) (i.wdat % 8) }, 0)
        else (s, 0))
    else if leb 0x1000 off && ltb off (0x1000 + 4 * (n + 1))
    then (if not i.we && ((off - 0x1000) / 4 == 0) then (s, s.pending) else (s, 0))
    else if leb 0x2000 off && ltb off (0x2000 + 2 * 0x80)
    then (let rel = off - 0x2000 in
        let ctx = rel / 2 ^ 7 in
        if rel % 2 ^ 7 / 4 == 0
        then (if not i.we then (s, (context ctx s).en) else (
          with_context ctx (record (context ctx s) { en = bit_and i.wdat (enable_mask n) }) s,
          0,
        ))
        else (s, 0))
    else if leb 0x200000 off && ltb off (0x200000 + 2 * 0x1000)
    then (let rel = off - 0x200000 in
        let ctx = rel / 2 ^ 12 in
        if rel % 2 ^ 12 == 0
        then (if not i.we
            then (s, (context ctx s).thr)
            else (with_context ctx (record (context ctx s) { thr = i.wdat % 8 }) s, 0))
        else if rel % 2 ^ 12 == 4
        then (if not i.we
            then (claim n ctx s, best_source n ctx s)
            else (complete n ctx i.wdat s, 0))
        else (s, 0))
    else (s, 0)

-- The tests that raise `_irq` for one context.
unfoldable pub raises : ℕ → ℕ → List ℕ → ℕ → ℕ → Bool
raises id zero prio pend thr = false
raises id (suc todo) prio pend thr =
    let rest = raises (suc id) todo prio pend thr in
    has pend id && ltb thr (get_or prio id 0) || rest

abbrev pub context_raises : ℕ → Plic → Context → Bool
context_raises n s c = raises 1 n s.prio (bit_and s.pending c.en) c.thr

-- The emitted function on a rising edge; without outputs it returns before it writes any.
unfoldable pub tick : ℕ → Inputs → Plic → Plic × Option Outputs
tick n i s =
    let src = i.src % 2 ^ n in
    let active = i.stb && i.cyc in
    let s1 = record s { prev_stb = active } in
    if not active && not s.prev_stb && (src == s.last_src)
    then (s1, none)
    else (let s2 = arrive src (record s1 { last_src = src }) in
        let rise = active && not s.prev_stb in
        let (s3, read) = if rise then access n i s2 else (s2, 0) in
        let dout = if rise then read else (if active then s.latched else 0) in
        let s4 =
          if rise
          then record s3 { latched = dout }
          else (if active then s3 else record s3 { latched = 0 }) in
        let irq = context_raises n s4 s4.c0 || context_raises n s4 s4.c1 in
        (s4, some (record { dat = dout; ack = active; irq = irq })))
