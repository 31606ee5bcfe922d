-- ===== src/Watchdog/Tests.antt =====
-- A watchdog that is set to three ticks, and the theorem at it.
use digital_circuit_simulati.Prelude.{
  ℕ, ◌+◌, ◌≡◌, refl, true, false, [], ◌∷◌, replicate, leb, length, arith,
}
use digital_circuit_simulati.Watchdog.{Watchdog, Inputs, init, write, count, tick}
use digital_circuit_simulati.Watchdog.Fires.{run, Armed, fires_on_time}

abbrev set_reg : ℕ → ℕ → Inputs
set_reg a v = record { addr = a; wdat = v; we = true; en = true }

abbrev quiet : Inputs
quiet = record { addr = 0; wdat = 0; we = false; en = false }

abbrev set_up : Watchdog
set_up = record { ctrl = 1; timeout = 3; cnt = 1; fired = false; prev_en = true }

armed_by_writes : run (set_reg 4 3 ∷ quiet ∷ set_reg 0 1 ∷ []) init ≡ set_up
unfolding run tick write count init
armed_by_writes = refl

set_up-Armed : Armed set_up
set_up-Armed = record {
  on = λ e. omega arith;
  waiting = refl;
  word = omega arith;
  early = omega arith;
}

fires_on_time_example :
    (run (replicate 2 quiet) set_up).fired ≡ leb 3 (1 + length (replicate 2 quiet))
fires_on_time_example = fires_on_time (replicate 2 quiet) set_up set_up-Armed (refl, (refl, tt))
