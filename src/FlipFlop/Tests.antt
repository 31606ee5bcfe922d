-- ===== src/FlipFlop/Tests.antt =====
-- Flip-flops of twelve bits, and the theorems at them.
use digital_circuit_simulati.Prelude.{
  ℕ, ◌-◌, ◌^◌, ◌≡◌, refl, true, false, not, ◌&&◌, List, [], ◌∷◌, if◌then◌else◌, arith,
}
use digital_circuit_simulati.FlipFlop.{
  DInputs, d_tick, t_tick, jk_tick, toggle, complement, mask_tail, tail_byte_mask,
}
use digital_circuit_simulati.FlipFlop.Refine.{Holds, d_tick-Holds, t_tick-Holds, jk_tick-Holds}

abbrev stored : List ℕ
stored = 0x34 ∷ 0x02 ∷ []

toggled : t_tick 12 true true stored ≡ 0xCB ∷ 0x0D ∷ []
unfolding t_tick toggle complement mask_tail tail_byte_mask
toggled = refl

stored-Holds : Holds 12 stored 0x234
stored-Holds = record { count = refl; tidy = (omega arith, omega arith); holds = refl }

abbrev load : DInputs
load = record { d = 0xABC; en = true; rst = false; pre = false; rising = true }

d_tick-Holds_example : Holds 12 (d_tick 12 load stored) (
    if load.rst
    then 0
    else (if load.pre then 2 ^ 12 - 1 else (if load.rising && load.en then load.d else 0x234)))
d_tick-Holds_example = d_tick-Holds 12 (omega arith) load stored 0x234 (omega arith) stored-Holds

t_tick-Holds_example :
    Holds 12 (t_tick 12 true true stored) (if true && true then 2 ^ 12 - 1 - 0x234 else 0x234)
t_tick-Holds_example = t_tick-Holds 12 (omega arith) true true stored 0x234 stored-Holds

jk_tick-Holds_example : Holds 12 (jk_tick 12 true false true stored) (
    if not true
    then 0x234
    else (if true && false
        then 2 ^ 12 - 1 - 0x234
        else (if true then 2 ^ 12 - 1 else (if false then 0 else 0x234))))
jk_tick-Holds_example = jk_tick-Holds 12 (omega arith) true false true stored 0x234 stored-Holds
