-- ===== src/Clock/Tests.antt =====
-- Clocks of a few ticks, and the theorems at them.
use digital_circuit_simulati.Prelude.{◌+◌, ◌%◌, ◌≡◌, refl, Bool, true, false, List, [], ◌∷◌, arith}
use digital_circuit_simulati.Prelude.{ltb}
use digital_circuit_simulati.Clock.{
  clkgen_tick, toggle_tick, Divider, divider_tick, both_edges, detector_tick, is_edge,
}
use digital_circuit_simulati.Clock.Wave.{
  cnt_after, clk_after, edges, level, divider_run, clkgen_tick-wave, toggle_tick-clkgen,
  divider_run-counts,
}

abbrev levels : List Bool
levels = true ∷ false ∷ true ∷ true ∷ false ∷ true ∷ []

abbrev fresh : Divider
fresh = record { prev_clk = false; counter = 0 }

divided : (divider_run 2 levels fresh).counter ≡ 1
unfolding divider_tick
divided = refl

falls :
    (detector_tick both_edges true false (record { prev_in = true; out_val = false })).out_val
    ≡ true
unfolding detector_tick is_edge
falls = refl

clkgen_tick-wave_example : (clkgen_tick 3 2 (cnt_after 3 2 8)).1 ≡ ltb (8 % (3 + 2)) 3
clkgen_tick-wave_example = clkgen_tick-wave 3 2 8 (omega arith)

toggle_tick-clkgen_example : (toggle_tick (clk_after 5)).1 ≡ (clkgen_tick 1 1 (cnt_after 1 1 5)).1
toggle_tick-clkgen_example = toggle_tick-clkgen 5

divider_run-counts_example :
    ((divider_run 2 levels fresh).counter ≡ (0 + edges false levels) % 2)
    × ((divider_run 2 levels fresh).prev_clk ≡ level false levels)
divider_run-counts_example =
    divider_run-counts 2 levels fresh (omega arith) (omega arith) (omega arith)
