-- ===== src/Netlist/Tests.antt =====
-- Small circuits, built step by step, and the theorems at them.
use digital_circuit_simulati.Prelude.{ℕ, ◌+◌, ◌≡◌, refl, Bool, true, false, none, some, [], ◌∷◌}
use digital_circuit_simulati.Netlist.{
  Component, Circuit, ok, multiple_drivers, add_component, next_id, find_net, find_pin,
  recompute_net_widths,
}
use digital_circuit_simulati.Netlist.Edit.{
  free_name, create_net, connect, disconnect, detach_pin, scan_pins, scan_outputs, attach,
}
use digital_circuit_simulati.Netlist.Remove.{remove_net}
use digital_circuit_simulati.Netlist.Run.{
  empty_circuit, Built, blank, created, added, connected, net_removed, Built-IsSound,
}
use digital_circuit_simulati.Netlist.Invariant.{IsSound}
use digital_circuit_simulati.Netlist.Outcome.{Outcome, connect-Outcome}

abbrev gate : Bool → ℕ → Component
gate tri ref = record {
  ref = ref;
  id = 0;
  inputs = record { name = 1; width = 4; tri_state = false; net = none } ∷ [];
  outputs = record { name = 2; width = 8; tri_state = tri; net = none } ∷ [];
}

abbrev suffixed : ℕ → ℕ
suffixed k = 100 + k

-- One net and two gates that both drive it.
abbrev wire : Circuit
wire = record {
  nets = record { ref = 70; name = 5; id = 0; width = 0 } ∷ [];
  comps = [];
  buses = [];
  compiled = false;
}

wire_made : create_net suffixed 70 5 empty_circuit ≡ some wire
unfolding create_net free_name find_net
wire_made = refl

abbrev two : Bool → Circuit
two tri = add_component (gate tri 90) (add_component (gate tri 80) wire)

two-Built : (tri : Bool) → Built suffixed (two tri)
two-Built tri =
    added (gate tri 90)
      (added (gate tri 80) (created 70 5 blank refl wire_made) (refl, tt) (refl, tt)) (refl, tt)
      (refl, tt)

abbrev first_on : Bool → Circuit
first_on tri = (connect (some 0) 2 (some 70) (two tri)).0

second_refused : (connect (some 1) 2 (some 70) (first_on false)).1 ≡ multiple_drivers 0
unfolding connect add_component next_id find_pin scan_outputs scan_pins attach
second_refused = refl

second_shares : (connect (some 1) 2 (some 70) (first_on true)).1 ≡ ok
unfolding connect add_component next_id find_pin scan_outputs scan_pins attach disconnect detach_pin
    recompute_net_widths
second_shares = refl

Built-IsSound_example : IsSound (remove_net 70 (connect (some 1) 2 (some 70) (first_on true)).0)
Built-IsSound_example =
    Built-IsSound suffixed (remove_net 70 (connect (some 1) 2 (some 70) (first_on true)).0) (
      net_removed 70
        (connected (some 1) 2 (some 70) (connected (some 0) 2 (some 70) (two-Built true))))

connect-Outcome_example :
    Outcome 1 2 70 (first_on false) (connect (some 1) 2 (some 70) (first_on false))
connect-Outcome_example = connect-Outcome 1 2 70 (first_on false)
