-- ===== src/Plic/Tests.antt =====
-- A claim and its completion, and the theorems at concrete controllers.
use digital_circuit_simulati.Prelude.{ℕ, ◌≡◌, refl, true, false, List, [], ◌∷◌}
use digital_circuit_simulati.Prelude.{bit_and, ◌≢◌, ◌+◌}
use digital_circuit_simulati.Prelude.Bits.{bit}
use digital_circuit_simulati.Plic.{
  Plic, Inputs, init, clamp, context, best_source, scan, tick, access, arrive, claim, enable_mask,
}
use digital_circuit_simulati.Plic.Claim.{IsBest, best_source-IsBest}
use digital_circuit_simulati.Plic.Exclusive.{run, IsValid, claims_stay_apart}

abbrev write_to : ℕ → ℕ → Inputs
write_to a v = record { src = 6; stb = true; cyc = true; adr = a; wdat = v; we = true }

abbrev read_from : ℕ → Inputs
read_from a = record { src = 6; stb = true; cyc = true; adr = a; wdat = 0; we = false }

abbrev pause : Inputs
pause = record { src = 6; stb = false; cyc = false; adr = 0; wdat = 0; we = false }

-- Sources 2 and 3 ask; 3 has the higher priority; context 1 enables both and claims one.
abbrev script : List Inputs
script =
    write_to 8 1
    ∷ pause
    ∷ write_to 12 5
    ∷ pause
    ∷ write_to 0x2080 0xFF
    ∷ pause
    ∷ read_from 0x201004
    ∷ pause
    ∷ []

abbrev after : Plic
after = run 4 script (init 4)

claimed : (after.pending ≡ 4) × (after.c1.insvc ≡ 8) × (best_source 4 1 after ≡ 2)
unfolding run tick init access arrive claim best_source scan enable_mask
claimed = (refl, refl, refl)

best_source-IsBest_example :
    (top : ℕ) × IsBest after.prio
      (bit_and after.pending (context 1 after).en)
      (1 + 4)
      top
      (best_source 4 1 after)
best_source-IsBest_example = best_source-IsBest 4 1 after

claims_stay_apart_example :
    let s = run (clamp 4) script (init (clamp 4)) in
    IsValid s
    × ((ctx : ℕ)
        → best_source (clamp 4) ctx s ≢ 0
        → (bit s.c0.insvc (best_source (clamp 4) ctx s) ≡ 0)
          × (bit s.c1.insvc (best_source (clamp 4) ctx s) ≡ 0))
claims_stay_apart_example = claims_stay_apart 4 script
