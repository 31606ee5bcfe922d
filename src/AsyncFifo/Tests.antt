-- ===== src/AsyncFifo/Tests.antt =====
-- A fifo of four words between two clocks, and the theorem at it.
use digital_circuit_simulati.Prelude.{ℕ, ◌≤◌, ◌≡◌, refl, true, false, List, [], ◌∷◌, ◌++◌}
use digital_circuit_simulati.Prelude.{length}
use digital_circuit_simulati.AsyncFifo.{
  Inputs, init, tick, gray_code, addr_bits, read_edge, write_edge, accepts,
}
use digital_circuit_simulati.AsyncFifo.Crossing.{depth}
use digital_circuit_simulati.AsyncFifo.Sequence.{entered, left, run_keeps_order}

abbrev put : ℕ → Inputs
put v = record { wclk = true; wen = true; din = v; rclk = false; ren = true }

abbrev get : Inputs
get = record { wclk = false; wen = false; din = 0; rclk = true; ren = true }

-- The word 7 is read only after its pointer has gone through both stages of the synchroniser.
abbrev ticks : List Inputs
ticks = put 7 ∷ get ∷ put 8 ∷ get ∷ put 9 ∷ get ∷ put 10 ∷ get ∷ []

four_words_fit : accepts 8 4 ≡ true
unfolding accepts
four_words_fit = refl

first_out : left 1 8 ticks (init 4) ≡ 7 ∷ 8 ∷ []
unfolding init tick gray_code addr_bits read_edge write_edge
first_out = refl

run_keeps_order_example :
    (q : List ℕ) × (entered 1 8 ticks (init (depth 1)) ≡ left 1 8 ticks (init (depth 1)) ++ q)
    × (length q ≤ depth 1)
run_keeps_order_example = run_keeps_order 1 8 ticks
