-- ===== src/Interconnect.antt =====
-- The `wishbone_ic` component, src/components/platform/WishboneInterconnect.cpp: several masters on
-- one bus of slaves, the C function that `genFuncDef_seq` emits, one call of it for each tick. All
-- request pins are connected, and -1 is `none`. The trace of a stuck master is left out.
pub mod Arbiter
pub mod Select
pub mod Slaves
pub mod Exclusive
mod Tests
use digital_circuit_simulati.Prelude.{
  ℕ, zero, suc, ◌+◌, ◌-◌, ◌^◌, Bool, true, false, not, ◌&&◌, ◌||◌, Option, none, some, List, [],
  ◌∷◌,
}
use digital_circuit_simulati.Prelude.{length, get_or, set, ltb, leb, ◌==◌, if◌then◌else◌}

-- The six lines of a master or of a slave.
pub record Lines : Type 0 where
  pub adr : ℕ
  pub dat : ℕ
  pub we : Bool
  pub sel : ℕ
  pub stb : Bool
  pub cyc : Bool

abbrev pub idle : Lines
idle = record { adr = 0; dat = 0; we = false; sel = 0; stb = false; cyc = false }

pub record Segment : Type 0 where
  pub base : ℕ
  pub size : ℕ

pub record Interconnect : Type 0 where
  pub grant : Option ℕ
  pub next : ℕ
  pub last : Option ℕ
  pub busy : Bool
  pub wd : ℕ
  pub si : ℕ
  pub gap : Bool
  pub wsi : Option ℕ
  pub slaves : List Lines

unfoldable pub init : List Lines → Interconnect
init slaves = record {
  grant = none;
  next = 0;
  last = none;
  busy = false;
  wd = 0;
  si = 0;
  gap = false;
  wsi = none;
  slaves = slaves;
}

abbrev pub requests : List Lines → ℕ → Bool
requests masters m = let l = get_or masters m idle in l.stb && l.cyc

-- Whether any bit of `_rq` is set.
unfoldable pub any_request : List Lines → Bool
any_request [] = false
any_request (l ∷ ls) = (l.stb && l.cyc) || any_request ls

-- The candidates from `g + k` on, `todo` of them, around the end.
abbrev pub wrapped : ℕ → ℕ → ℕ
wrapped count i = if leb count i then i - count else i

unfoldable pub pick : List Lines → ℕ → ℕ → ℕ → ℕ → Option ℕ
pick masters count g k zero = none
pick masters count g k (suc todo) =
    let rest = pick masters count g (suc k) todo in
    if requests masters (wrapped count (g + k)) then some (wrapped count (g + k)) else rest

unfoldable pub arbitrate : List Lines → ℕ → Option ℕ
arbitrate masters next =
    let count = length masters in pick masters count (if leb count next then 0 else next) 0 count

unfoldable pub next_after : ℕ → ℕ → ℕ
next_after count g = if g + 1 == count then 0 else g + 1

-- The first segment that has the address, or slave 0.
unfoldable pub decode_from : ℕ → List Segment → ℕ → ℕ
decode_from i [] adr = 0
decode_from i (s ∷ ss) adr =
    let rest = decode_from (suc i) ss adr in
    if leb s.base adr && ltb adr (s.base + s.size) then i else rest

abbrev pub clear_at : Option ℕ → List Lines → List Lines
clear_at none slaves = slaves
clear_at (some k) slaves = set slaves k idle

abbrev pub same_slave : Option ℕ → ℕ → Bool
same_slave none k = false
same_slave (some x) k = x == k

-- The lines of the slaves, and `_wbic_wsi`, after the bus went to the master with the lines `l`.
unfoldable pub drive : ℕ → Bool → Lines → Interconnect → Interconnect
drive si gap l s =
    let written = set s.slaves si (record l { stb = l.stb && not gap; cyc = l.cyc && not gap }) in
    record s {
      slaves = if same_slave s.wsi si then written else clear_at s.wsi written;
      wsi = some si;
    }

unfoldable pub release : Interconnect → Interconnect
release s = record s { slaves = clear_at s.wsi s.slaves; wsi = none }

unfoldable pub watch : Interconnect → Interconnect
watch s = record s { wd = if s.busy then (if s.wd == 2 ^ 32 - 1 then s.wd else s.wd + 1) else 0 }

-- The rest of a tick once the owner of the bus is known.
unfoldable pub route : List Segment → List Lines → Option ℕ → Bool → Interconnect → Interconnect
route segments masters none gap s =
    let si = decode_from 0 segments 0 in watch (release (record s { si = si; gap = gap }))
route segments masters (some g) gap s =
    let l = get_or masters g idle in
    let si = decode_from 0 segments l.adr in
    watch (drive si gap l (record s { si = si; gap = gap }))

-- Whether the owner of the bus keeps it.
abbrev pub holds_bus : List Lines → Interconnect → Bool
holds_bus masters s = s.busy && (elim s.grant [ none ↦ false | some g ↦ requests masters g ])

abbrev pub changes_owner : Option ℕ → ℕ → Bool
changes_owner none g = false
changes_owner (some x) g = not (x == g)

unfoldable pub tick : List Segment → List Lines → Bool → Interconnect → Interconnect
tick segments masters false s = s
tick segments masters true s =
    let was_busy = s.busy in
    let freed = if was_busy then record s { busy = false; grant = none } else s in
    if holds_bus masters s
    then route segments masters s.grant false s
    else if not (any_request masters) && not was_busy
    then freed
    else elim (arbitrate masters s.next) [
      | none ↦ route segments masters none false freed
      | some g ↦ route segments masters (some g) (changes_owner s.last g) (record freed {
        grant = some g;
        last = some g;
        busy = true;
        next = next_after (length masters) g;
      })
    ]
