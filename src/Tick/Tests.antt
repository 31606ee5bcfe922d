-- ===== src/Tick/Tests.antt =====
-- A tri-state driver with two gates behind it, and the theorems at them.
use digital_circuit_simulati.Prelude.{
  ℕ, ◌≡◌, ◌↔◌, refl, Bool, true, false, none, some, List, [], ◌∷◌, ◌++◌, suc, ◌+◌, ◌*◌, ◌/◌, ◌≤◌,
  arith,
}
use digital_circuit_simulati.Prelude.{leb}
use digital_circuit_simulati.TopoSort.{TopoResult}
use digital_circuit_simulati.TopoSort.Degrees.{elem}
use digital_circuit_simulati.TopoSort.Result.{IsTopological}
use digital_circuit_simulati.Tick.{
  Component, Source, Order, nodes_of, add_tri, tri_nets, collect, follow, spread,
  compute_tri_affected, topological_sort_with_clocks,
}
use digital_circuit_simulati.Tick.Affected.{Affected, compute_tri_affected-Affected}
use digital_circuit_simulati.Tick.Batch.{
  circuit_tick_batch, circuit_tick_forever, ticks, Ran, circuit_tick_batch-Ran,
  circuit_tick_forever-returns,
}
use digital_circuit_simulati.Tick.Clocks.{Outcome, sort_with_clocks-Outcome}

-- Component 0 drives net 5 by a tri-state output, 1 reads it and drives net 6, 2 reads net 6, and 3
-- reads another net.
abbrev gates : List Component
gates =
    record { comb = true; ins = some 1 ∷ []; outs = record { net = some 5; tri_state = true } ∷ [] }
    ∷ record {
      comb = true;
      ins = none ∷ some 5 ∷ [];
      outs = record { net = some 6; tri_state = false } ∷ [];
    }
    ∷ record {
      comb = true;
      ins = some 6 ∷ [];
      outs = record { net = none; tri_state = false } ∷ [];
    }
    ∷ record {
      comb = true;
      ins = some 1 ∷ [];
      outs = record { net = some 7; tri_state = false } ∷ [];
    }
    ∷ []

two_affected : compute_tri_affected gates gates ≡ some (1 ∷ 2 ∷ [])
unfolding compute_tri_affected tri_nets add_tri collect follow spread
two_affected = refl

compute_tri_affected-Affected_example :
    (a : List ℕ) × (compute_tri_affected gates gates ≡ some a)
    × ((v : ℕ) → (elem v a ≡ true) ↔ Affected gates gates v)
compute_tri_affected-Affected_example = compute_tri_affected-Affected gates gates

-- A divider behind an inverter behind a generator.
abbrev inverter : List Source
inverter =
    record { node = record { ins = some 0 ∷ []; outs = some 1 ∷ [] }; is_clock_source = false } ∷ []

abbrev clocks : List Source
clocks =
    record { node = record { ins = some 1 ∷ []; outs = some 2 ∷ [] }; is_clock_source = true }
    ∷ record { node = record { ins = []; outs = some 0 ∷ [] }; is_clock_source = true }
    ∷ []

sort_with_clocks-Outcome_example :
    (r : TopoResult) × (o : Order) × (topological_sort_with_clocks inverter clocks ≡ some o)
    × IsTopological (nodes_of (inverter ++ clocks)) r
    × Outcome (inverter ++ clocks) r o
sort_with_clocks-Outcome_example = sort_with_clocks-Outcome inverter clocks

-- A tick counts, and the flag is set from the third tick on.
abbrev flag : ℕ → Bool
flag s = leb 3 s

flag-sticky : (s : ℕ) → flag s ≡ true → flag (suc s) ≡ true
flag-sticky s h = ground arith

circuit_tick_batch-Ran_example : Ran suc flag 0 1000 0 (circuit_tick_batch suc flag 1000 0)
circuit_tick_batch-Ran_example = circuit_tick_batch-Ran suc flag flag-sticky 1000 0

circuit_tick_forever-returns_example :
    (t : ℕ) × (circuit_tick_forever suc flag 20 0 ≡ some (ticks suc flag t 0))
    × (t ≤ (2 + 16) / 16 * 16)
    × (flag (ticks suc flag t 0) ≡ true)
circuit_tick_forever-returns_example =
    circuit_tick_forever-returns suc flag flag-sticky 2 20 0 refl (omega arith)
