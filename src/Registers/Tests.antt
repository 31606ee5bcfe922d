-- ===== src/Registers/Tests.antt =====
-- Counters and shift registers of twelve bits, and the theorems at them.
use digital_circuit_simulati.Prelude.{
  ℕ, ◌≡◌, refl, true, false, ◌&&◌, List, [], ◌∷◌, if◌then◌else◌, arith,
}
use digital_circuit_simulati.FlipFlop.Refine.{Holds}
use digital_circuit_simulati.FlipFlop.{tail_byte_mask, mask_tail, bytes_of}
use digital_circuit_simulati.Registers.{
  CounterInputs, ShiftInputs, increment, count_one, counter_tick, register_tick, latch_tick,
  word_of, word_width, shift_left, shift_tick,
}
use digital_circuit_simulati.Registers.Count.{next_count, counter_tick-Holds, register-Holds}
use digital_circuit_simulati.Registers.Shift.{shifted, shift_tick-Holds}

abbrev full : List ℕ
full = 0xFF ∷ 0x0F ∷ []

full-Holds : Holds 12 full 0xFFF
full-Holds = record { count = refl; tidy = (omega arith, omega arith); holds = refl }

abbrev up : CounterInputs
up = record { load = false; din = 0; en = true; updown = false; clr = false; rising = true }

-- Up from the top is 0.
wraps : counter_tick 12 up full ≡ 0 ∷ 0 ∷ []
unfolding counter_tick count_one increment mask_tail tail_byte_mask
wraps = refl

abbrev left : ShiftInputs
left = record { sin = false; dir = false; clr = false; rising = true }

moved_left : shift_tick 12 left full ≡ 0xFE ∷ 0x0F ∷ []
unfolding shift_tick shift_left word_of word_width bytes_of
moved_left = refl

counter_tick-Holds_example : Holds 12 (counter_tick 12 up full) (next_count 12 up 0xFFF)
counter_tick-Holds_example =
    counter_tick-Holds 12 (omega arith) up full 0xFFF (omega arith) full-Holds

register-Holds_example :
    Holds 12
      (register_tick 12 0x123 true false true full)
      (if false then 0 else if true && true then 0x123 else 0xFFF)
    × Holds 12 (latch_tick 12 0x123 true full) (if true then 0x123 else 0xFFF)
register-Holds_example =
    register-Holds 12 (omega arith) 0x123 true false true full 0xFFF (omega arith) full-Holds

shift_tick-Holds_example :
    Holds 12
      (shift_tick 12 left full)
      (if left.clr then 0 else if left.rising then shifted 12 left.dir left.sin 0xFFF else 0xFFF)
shift_tick-Holds_example =
    shift_tick-Holds 12 (omega arith) (omega arith) left full 0xFFF full-Holds
