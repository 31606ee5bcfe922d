-- ===== src/Fifo/Tests.antt =====
-- Runs of the component, and the theorem at a concrete circuit.
use digital_circuit_simulati.Prelude.{ℕ, ◌≡◌, refl, true, false, none, some, List, [], ◌∷◌}
use digital_circuit_simulati.Fifo.{Fifo, Inputs, init, tick}
use digital_circuit_simulati.Fifo.Refine.{run, run_queue, fifo_refines_queue}

abbrev push : ℕ → Inputs
push v = record { din = v; wr_en = true; rd_en = false; rst = false; rising = true }

abbrev pop : Inputs
pop = record { din = 0; wr_en = false; rd_en = true; rst = false; rising = true }

abbrev fresh : Fifo
fresh = record { mem = 0 ∷ 0 ∷ []; wr_ptr = 0; rd_ptr = 0; count = 0 }

abbrev script : List Inputs
script = push 7 ∷ push 8 ∷ push 9 ∷ pop ∷ push 10 ∷ pop ∷ pop ∷ []

script_seen :
    run 2 fresh script
    ≡ record { full = false; front = some 7 }
      ∷ record { full = true; front = some 7 }
      ∷ record { full = true; front = some 7 }
      ∷ record { full = false; front = some 8 }
      ∷ record { full = true; front = some 8 }
      ∷ record { full = false; front = some 10 }
      ∷ record { full = false; front = none }
      ∷ []
unfolding run tick
script_seen = refl

odd_depth_refused : init 8 3 ≡ none
unfolding init
odd_depth_refused = refl

fresh_made : init 8 2 ≡ some fresh
unfolding init
fresh_made = refl

fifo_refines_queue_example : run 2 fresh script ≡ run_queue 2 [] script
fifo_refines_queue_example = fifo_refines_queue 8 2 fresh script fresh_made
