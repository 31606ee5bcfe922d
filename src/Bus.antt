-- ===== src/Bus.antt =====
-- The resolution of a tri-state bus, src/core/CodeGen.cpp: what the C code that
-- `emitBusResolution` and `emitPropagation` emit does to the wires. A wire is its sixteen bytes;
-- a driver is the output enable and the bytes that its component has left.
pub mod Resolve
mod Tests
use digital_circuit_simulati.Prelude.{
  ℕ, zero, suc, ◌+◌, Bool, true, false, not, ◌&&◌, ◌||◌, Option, none, some, List, [], ◌∷◌,
}
use digital_circuit_simulati.Prelude.{◌==◌, if◌then◌else◌, replicate}

abbrev pub Bytes : Type 0
Bytes = List ℕ

pub record Driver : Type 0 where
  pub enabled : Bool
  pub value : Bytes

-- `_active`, with none for -1, and the number of calls of `dcs_bus_conflict`.
pub record Scan : Type 0 where
  pub active : Option ℕ
  pub conflicts : ℕ

-- The sequence of tests that is emitted for the drivers from number `di` on.
unfoldable pub scan : ℕ → List Driver → Scan → Scan
scan di [] s = s
scan di (d ∷ ds) s =
    let s' =
      if d.enabled
      then elim s.active [
        | none ↦ record { active = some di; conflicts = s.conflicts }
        | some a ↦ record { active = some a; conflicts = s.conflicts + 1 }
      ]
      else s in
    scan (suc di) ds s'

-- `if (_active == 0) … else if (_active == 1) …`: the wire keeps its value where no test holds.
unfoldable pub copy_active : ℕ → List Driver → ℕ → Bytes → Bytes
copy_active di [] active wire = wire
copy_active di (d ∷ ds) active wire =
    let rest = copy_active (suc di) ds active wire in if active == di then d.value else rest

-- `_conflict`.
abbrev pub in_conflict : Scan → Bool
in_conflict s = not (s.conflicts == 0)

pub record Outcome : Type 0 where
  pub wire : Bytes
  pub conflicts : ℕ
  pub changed : Bool

-- The comparison of the sixteen bytes that sets `_bus_changed`.
unfoldable pub differs : Bytes → Bytes → Bool
differs (x ∷ xs) (y ∷ ys) = let rest = differs xs ys in not (x == y) || rest
differs [] [] = false
differs [] (y ∷ ys) = true
differs (x ∷ xs) [] = true

unfoldable pub resolve : List Driver → Bytes → Outcome
resolve drivers old =
    let s = scan 0 drivers (record { active = none; conflicts = 0 }) in
    let wire =
      if in_conflict s
      then old
      else elim s.active [ some a ↦ copy_active 0 drivers a old | none ↦ replicate 16 0 ] in
    record { wire = wire; conflicts = s.conflicts; changed = differs old wire }

-- A tri-state output on a net of its own.
unfoldable pub drive_alone : Driver → Bytes → Bytes
drive_alone d old = if d.enabled then d.value else replicate 16 0
