-- ===== src/Netlist.antt =====
-- The editing of a circuit, src/core/Circuit.cpp: the nets, the components with their pins and the
-- drivers of the buses. A `Net *` and a `Component *` is the number `ref` of its object. A
-- component is also found at its position in `_components`, and the functions that take one take a
-- component of the circuit. Names are numbers that are only compared.
pub mod Edit
pub mod Remove
pub mod Counts
pub mod Widths
pub mod Invariant
pub mod Connected
pub mod Outcome
pub mod Removed
pub mod Run
mod Tests
use digital_circuit_simulati.Prelude.{
  ℕ, zero, suc, ◌+◌, max, Bool, true, false, not, ◌&&◌, ◌||◌, Option, none, some, List, [], ◌∷◌,
  ◌++◌,
}
use digital_circuit_simulati.Prelude.{◌==◌, if◌then◌else◌, length, get_elem?, set}

pub record Pin : Type 0 where
  pub name : ℕ
  pub width : ℕ
  pub tri_state : Bool
  pub net : Option ℕ

pub record Component : Type 0 where
  pub ref : ℕ
  pub id : ℕ
  pub inputs : List Pin
  pub outputs : List Pin

pub record Net : Type 0 where
  pub ref : ℕ
  pub name : ℕ
  pub id : ℕ
  pub width : ℕ

-- `BusDriver`
pub record Driver : Type 0 where
  pub comp : ℕ
  pub out_idx : ℕ

-- `_bus_nets`, by net id.
abbrev pub Buses : Type 0
Buses = List (ℕ × List Driver)

pub record Circuit : Type 0 where
  pub nets : List Net
  pub comps : List Component
  pub buses : Buses
  pub compiled : Bool

pub data ErrorCode : Type 0 where
  ok pin_not_found invalid_net : ErrorCode
  multiple_drivers : ℕ → ErrorCode

-- Where a pin stands in its component.
pub data Place : Type 0 where
  input : ℕ → Place
  output : ℕ → Place

abbrev pub lookup : ℕ → Buses → Option (List Driver)
lookup k [] = none
lookup k (e ∷ m) = let rest = lookup k m in if e.0 == k then some e.1 else rest

-- `m[k] = ds`, and the removal of a key.
abbrev pub insert : ℕ → List Driver → Buses → Buses
insert k ds [] = (k, ds) ∷ []
insert k ds (e ∷ m) = let rest = insert k ds m in if e.0 == k then (k, ds) ∷ m else e ∷ rest

abbrev pub erase : ℕ → Buses → Buses
erase k [] = []
erase k (e ∷ m) = let rest = erase k m in if e.0 == k then rest else e ∷ rest

-- The search of `_nets` for a `Net *`.
abbrev pub find_ref : ℕ → List Net → Option Net
find_ref r [] = none
find_ref r (n ∷ ns) = let rest = find_ref r ns in if n.ref == r then some n else rest

-- `findNet`
unfoldable pub find_net : ℕ → List Net → Option Net
find_net name [] = none
find_net name (n ∷ ns) = let rest = find_net name ns in if n.name == name then some n else rest

-- `componentById`
unfoldable pub component_by_id : ℕ → List Component → Option Component
component_by_id id [] = none
component_by_id id (c ∷ cs) =
    let rest = component_by_id id cs in if c.id == id then some c else rest

-- `findPin`: the inputs first.
abbrev pub pin_index : ℕ → ℕ → List Pin → Option ℕ
pin_index name i [] = none
pin_index name i (p ∷ ps) =
    let rest = pin_index name (suc i) ps in if p.name == name then some i else rest

unfoldable pub find_pin : ℕ → Component → Option Place
find_pin name c = elim (pin_index name 0 c.inputs) [
  | some i ↦ some (input i)
  | none ↦ elim (pin_index name 0 c.outputs) [ some i ↦ some (output i) | none ↦ none ]
]

abbrev pub pin_at : Component → Place → Option Pin
pin_at c (input i) = get_elem? c.inputs i
pin_at c (output i) = get_elem? c.outputs i

-- `pin->setNet(net)`
abbrev pub with_net : Option ℕ → Pin → Pin
with_net net p = record p { net = net }

abbrev pub set_pin : Place → Pin → Component → Component
set_pin (input i) p c = record c { inputs = set c.inputs i p }
set_pin (output i) p c = record c { outputs = set c.outputs i p }

-- `net->updateBitWidth(w)` on the net that a pin is on.
abbrev pub widen : Option ℕ → ℕ → List Net → List Net
widen none w ns = ns
widen (some r) w [] = []
widen (some r) w (n ∷ ns) =
    (if n.ref == r then record n { width = max n.width w } else n) ∷ widen (some r) w ns

abbrev pub reset_widths : List Net → List Net
reset_widths [] = []
reset_widths (n ∷ ns) = record n { width = 0 } ∷ reset_widths ns

unfoldable pub widen_pins : List Pin → List Net → List Net
widen_pins [] ns = ns
widen_pins (p ∷ ps) ns = widen_pins ps (widen p.net p.width ns)

unfoldable pub widen_all : List Component → List Net → List Net
widen_all [] ns = ns
widen_all (c ∷ cs) ns = widen_all cs (widen_pins c.outputs (widen_pins c.inputs ns))

unfoldable pub recompute_net_widths : Circuit → Circuit
recompute_net_widths c = record c { nets = widen_all c.comps (reset_widths c.nets) }

-- `addComponent`: the id after the largest one. The component is prepared, and its pins are free.
abbrev pub next_id : List Component → ℕ
next_id [] = 0
next_id (c ∷ cs) = max (c.id + 1) (next_id cs)

unfoldable pub add_component : Component → Circuit → Circuit
add_component comp c = record c {
  comps = c.comps ++ record comp { id = next_id c.comps } ∷ [];
  compiled = false;
}
