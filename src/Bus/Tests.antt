-- ===== src/Bus/Tests.antt =====
-- Runs of the resolution.
use digital_circuit_simulati.Prelude.{ℕ, ◌≡◌, refl, true, false, [], ◌∷◌, replicate}
use digital_circuit_simulati.Bus.{Driver, resolve, scan, differs, copy_active}
use digital_circuit_simulati.Bus.Resolve.{talking, carried, resolve_carries}

abbrev on : ℕ → Driver
on v = record { enabled = true; value = replicate 16 v }

abbrev off : Driver
off = record { enabled = false; value = replicate 16 9 }

two_talk :
    resolve (off ∷ on 5 ∷ on 6 ∷ []) (replicate 16 1)
    ≡ record { wire = replicate 16 1; conflicts = 1; changed = false }
unfolding resolve scan differs
two_talk = refl

one_talks :
    resolve (off ∷ on 5 ∷ off ∷ []) (replicate 16 1)
    ≡ record { wire = replicate 16 5; conflicts = 0; changed = true }
unfolding resolve scan differs copy_active
one_talks = refl

resolve_carries_example :
    (
      (resolve (off ∷ on 5 ∷ on 6 ∷ []) (replicate 16 1)).wire,
      (resolve (off ∷ on 5 ∷ on 6 ∷ []) (replicate 16 1)).conflicts,
    )
    ≡ carried (talking (off ∷ on 5 ∷ on 6 ∷ [])) (replicate 16 1)
resolve_carries_example = resolve_carries (off ∷ on 5 ∷ on 6 ∷ []) (replicate 16 1)
