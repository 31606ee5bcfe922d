-- ===== src/Check/Tests.antt =====
-- Checks of small circuits, and the theorems at them.
use digital_circuit_simulati.Prelude.{
  ℕ, ◌≡◌, ◌↔◌, ◌⊎◌, refl, true, false, Option, none, some, List, [], ◌∷◌, arith, length, ltb,
  if◌then◌else◌,
}
use digital_circuit_simulati.LoopCheck
use digital_circuit_simulati.LoopCheck.Walk.{Edge}
use digital_circuit_simulati.Check.{
  Pin, Component, ok, invalid_net, refused, default_deps, buses, dependencies, check, first_bad,
  invalid_pin, add_outputs, drivers, shared_pin, shared_net, push, add_deps, add_pins,
  add_components, collect, add_tri_states,
}
use digital_circuit_simulati.Check.Edges.{pairs, IsPair}
use digital_circuit_simulati.Check.Ranges.{AllBelow, dependencies_complete}
use digital_circuit_simulati.Check.Verdict.{IsForeign, IsShared, IsLooped, IsSound, check_decides}
use digital_circuit_simulati.Check.Buses.{tri_outputs, buses_complete}

abbrev gate : List (Option ℕ) → Pin → Component
gate ins out = record { inputs = ins; outputs = out ∷ []; deps = default_deps ins (out ∷ []) }

abbrev plain : ℕ → Pin
plain k = record { net = some k; tri_state = false; sequential = false }

abbrev tri : ℕ → Pin
tri k = record { net = some k; tri_state = true; sequential = false }

-- Two inverters in a ring.
abbrev ring : List Component
ring = gate (some 0 ∷ []) (plain 1) ∷ gate (some 1 ∷ []) (plain 0) ∷ []

-- Two tri-state drivers of net 2, which the first also reads.
abbrev bus : List Component
bus = gate (some 0 ∷ some 2 ∷ []) (tri 2) ∷ gate (some 1 ∷ none ∷ []) (tri 2) ∷ []

ring_refused : check 2 ring ≡ refused (LoopCheck.combinational_loop (0 ∷ 1 ∷ 0 ∷ []))
unfolding check default_deps invalid_pin first_bad shared_net shared_pin drivers add_outputs
    LoopCheck.check_loops LoopCheck.start_loop dependencies add_components add_pins add_deps push
    LoopCheck.dfs_cycle LoopCheck.search_loop LoopCheck.report
ring_refused = refl

foreign_refused : check 1 ring ≡ invalid_net 1 0
unfolding check invalid_pin first_bad
foreign_refused = refl

bus_accepted : check 3 bus ≡ ok (buses bus)
unfolding check default_deps invalid_pin first_bad shared_net shared_pin LoopCheck.check_loops
    LoopCheck.start_loop dependencies add_components add_pins add_deps LoopCheck.dfs_cycle
    LoopCheck.search_loop
bus_accepted = refl

bus_drivers : buses bus 2 ≡ (0, 0) ∷ (1, 0) ∷ []
unfolding buses collect add_tri_states
bus_drivers = refl

check_decides_example :
    ((k : ℕ) × (ci : ℕ) × IsForeign 2 ring k ci)
    ⊎ ((k : ℕ) × (ids : List ℕ) × IsShared 2 ring k ids)
    ⊎ ((check 2 ring ≡ ok (buses ring)) × IsSound 2 ring)
    ⊎ ((p : List ℕ) × IsLooped 2 ring p)
check_decides_example = check_decides 2 ring

ring-AllBelow : AllBelow 2 ring
ring-AllBelow = ground arith

dependencies_complete_example : Edge (dependencies 2 ring) 0 1 ↔ IsPair 0 1 (pairs ring)
dependencies_complete_example = dependencies_complete 2 ring 0 1 ring-AllBelow

buses_complete_example :
    buses bus 2 ≡ (if ltb (length (tri_outputs 2 0 bus)) 2 then [] else tri_outputs 2 0 bus)
buses_complete_example = buses_complete bus 2
