-- ===== src/Netlist/Remove.antt =====
-- `removeComponent`, `removeNet` and `removeAllNets` of src/core/Circuit.cpp.
use digital_circuit_simulati.Prelude.{ℕ, zero, suc, false, none, some, List, [], ◌∷◌}
use digital_circuit_simulati.Prelude.{◌==◌, if◌then◌else◌, length}
use digital_circuit_simulati.Netlist.{
  Pin, Component, Net, Buses, Circuit, lookup, erase, find_ref, with_net, recompute_net_widths,
}
use digital_circuit_simulati.Netlist.Edit.{on_net, disconnect_all}

-- `_components.erase(it)`
abbrev pub erase_at : ℕ → List Component → List Component
erase_at i [] = []
erase_at zero (c ∷ cs) = cs
erase_at (suc i) (c ∷ cs) = c ∷ erase_at i cs

unfoldable pub remove_component : ℕ → Circuit → Circuit
remove_component ci c =
    let c' = disconnect_all ci c in
    record (recompute_net_widths (record c' { comps = erase_at ci c'.comps })) { compiled = false }

-- The pins on a net that is removed.
abbrev pub clear_pins : ℕ → List Pin → List Pin
clear_pins r [] = []
clear_pins r (p ∷ ps) = (if on_net r p.net then with_net none p else p) ∷ clear_pins r ps

abbrev pub clear_net : ℕ → List Component → List Component
clear_net r [] = []
clear_net r (c ∷ cs) =
    record c { inputs = clear_pins r c.inputs; outputs = clear_pins r c.outputs } ∷ clear_net r cs

abbrev pub erase_net : ℕ → List Net → List Net
erase_net r [] = []
erase_net r (n ∷ ns) = let rest = erase_net r ns in if n.ref == r then ns else n ∷ rest

-- The new ids, and the buses under them.
abbrev pub renumber : ℕ → List Net → List Net
renumber i [] = []
renumber i (n ∷ ns) = record n { id = i } ∷ renumber (suc i) ns

abbrev pub renumber_buses : ℕ → List Net → Buses → Buses
renumber_buses i [] old = []
renumber_buses i (n ∷ ns) old =
    let rest = renumber_buses (suc i) ns old in
    elim (lookup n.id old) [ none ↦ rest | some ds ↦ (i, ds) ∷ rest ]

unfoldable pub remove_net : ℕ → Circuit → Circuit
remove_net r c = elim (find_ref r c.nets) [
  | none ↦ c
  | some n ↦
      let left = erase_net r c.nets in
      record (recompute_net_widths (record c {
        comps = clear_net r c.comps;
        nets = renumber 0 left;
        buses = renumber_buses 0 left (erase n.id c.buses);
      })) { compiled = false }
]

unfoldable pub disconnect_each : ℕ → ℕ → Circuit → Circuit
disconnect_each ci zero c = c
disconnect_each ci (suc n) c = disconnect_each (suc ci) n (disconnect_all ci c)

unfoldable pub remove_all_nets : Circuit → Circuit
remove_all_nets c = record (disconnect_each 0 (length c.comps) c) {
  nets = [];
  buses = [];
  compiled = false;
}
