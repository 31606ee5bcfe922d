-- ===== src/Clint/Tests.antt =====
-- A clint that is programmed over the bus, and the theorems at it.
use digital_circuit_simulati.Prelude.{
  ℕ, ◌+◌, ◌%◌, ◌^◌, ◌≡◌, refl, bit_and, Bool, true, false, List, [], ◌∷◌, arith,
}
use digital_circuit_simulati.Clint.{
  Inputs, Outputs, init, body, tick, read_reg, write_reg, write_lane, write_lanes, write_cmp_low,
  write_cmp_high,
}
use digital_circuit_simulati.Clint.Settled.{Settled, run, slow_run, run-slow}
use digital_circuit_simulati.Clint.Registers.{
  InRange, Written, rises, write_reg-Written, run-InRange,
}

abbrev quiet : Bool → Inputs
quiet up = record { stb = false; cyc = false; rising = up; adr = 0; wdat = 0; we = false; sel = 0 }

abbrev store : ℕ → ℕ → Inputs
store adr word = record {
  stb = true;
  cyc = true;
  rising = true;
  adr = adr;
  wdat = word;
  we = true;
  sel = 15;
}

abbrev wires : Outputs
wires = record { dat = 0; ack = false; mti = false; msi = false }

-- Both words of the comparator are written, and the timer reaches it.
abbrev accesses : List Inputs
accesses = store 0x4004 0 ∷ quiet true ∷ store 0x4000 3 ∷ quiet false ∷ []

raised : (run accesses (init, wires)).1.mti ≡ true
unfolding init tick body read_reg write_reg write_cmp_low write_cmp_high write_lanes write_lane
raised = refl

init-Settled : Settled (init, wires)
unfolding init
init-Settled = record { timer = refl; software = refl; silent = λ e. (refl, refl) }

init-InRange : InRange init
unfolding init
init-InRange = record { mtime = omega arith; mtimecmp = omega arith; msip = omega arith }

run-slow_example :
    (run accesses (init, wires) ≡ slow_run accesses (init, wires))
    × Settled (run accesses (init, wires))
run-slow_example = run-slow accesses (init, wires) init-Settled

write_reg-Written_example :
    Written (bit_and 0x4000 0xFFFC) 5 0x11223344 init (write_reg 0x4000 5 0x11223344 init)
write_reg-Written_example = write_reg-Written 0x4000 5 0x11223344 init

run-InRange_example :
    InRange (run accesses (init, wires)).0
    × ((run accesses (init, wires)).0.mtime ≡ (0 + rises accesses) % 2 ^ 64)
unfolding init
run-InRange_example =
    run-InRange accesses init wires (omega arith, (omega arith, (omega arith, (omega arith, tt))))
      init-InRange
