-- ===== src/Bus/Resolve.antt =====
-- What a bus carries after its resolution, by the drivers that are enabled.
use digital_circuit_simulati.Prelude.{
  ℕ, suc, ◌+◌, ◌≤◌, ◌<◌, ◌≡◌, refl, ap, ◌∙◌, ◌⊎◌, inl, inr, false, none, some, List, [], ◌∷◌, arith,
}
use digital_circuit_simulati.Prelude.{◌==◌, if◌then◌else◌, replicate, length, Bool-cases}
use digital_circuit_simulati.Bus.{Bytes, Driver, scan, copy_active, resolve}

-- The drivers that have their output enabled, in their order.
abbrev pub talking : List Driver → List Driver
talking [] = []
talking (d ∷ ds) = if d.enabled then d ∷ talking ds else talking ds

-- The specification: nobody talks, one does, or several do.
abbrev pub carried : List Driver → Bytes → Bytes × ℕ
carried [] old = (replicate 16 0, 0)
carried (d ∷ []) old = (d.value, 0)
carried (d ∷ e ∷ ds) old = (old, suc (length ds))

-- A scan that has found its driver only counts the others.
scan_found :
    (di a n : ℕ) (ds : List Driver)
    → scan di ds (record { active = some a; conflicts = n })
      ≡ record { active = some a; conflicts = n + length (talking ds) }
unfolding scan
scan_found di a n [] = ground arith
scan_found di a n (d ∷ ds) = elim (Bool-cases d.enabled) [
  | inl on ↦ rw on (scan_found (suc di) a (n + 1) ds ∙ ground arith)
  | inr off ↦ rw off (scan_found (suc di) a n ds)
]

copy_active_later :
    (di a : ℕ) (d : Driver) (ds : List Driver) (old : Bytes)
    → di < a
    → copy_active di (d ∷ ds) a old ≡ copy_active (suc di) ds a old
unfolding copy_active
copy_active_later di a d ds old lt = ground arith

copy_active_here :
    (di : ℕ) (d : Driver) (ds : List Driver) (old : Bytes)
    → copy_active di (d ∷ ds) di old ≡ d.value
unfolding copy_active
copy_active_here di d ds old = ground arith

-- What the scan finds, and what the chain of tests then copies.
record Finds (di : ℕ) (ds : List Driver) (a : ℕ) (d : Driver) (others : List Driver) : Type 0 where
  pub scanned :
      scan di ds (record { active = none; conflicts = 0 })
      ≡ record { active = some a; conflicts = length others }
  pub here : di ≤ a
  pub copied : (old : Bytes) → copy_active di ds a old ≡ d.value
  pub talks : talking ds ≡ d ∷ others

record FindsNone (di : ℕ) (ds : List Driver) : Type 0 where
  pub scanned :
      scan di ds (record { active = none; conflicts = 0 }) ≡ record { active = none; conflicts = 0 }
  pub talks : talking ds ≡ []

scan-Finds :
    (di : ℕ) (ds : List Driver)
    → FindsNone di ds ⊎ (a : ℕ) × (d : Driver) × (others : List Driver) × Finds di ds a d others
unfolding scan
scan-Finds di [] = inl (record { scanned = refl; talks = refl })
scan-Finds di (d ∷ ds) = elim (Bool-cases d.enabled) [
  | inl on ↦ inr (
    di,
    d,
    talking ds,
    record {
      scanned = rw on (
          scan_found (suc di) di 0 ds
          ∙ ap (λ n. record { active = some di; conflicts = n }) (omega arith));
      here = omega arith;
      copied = copy_active_here di d ds;
      talks = rw on refl;
    },
  )
  | inr off ↦ elim (scan-Finds (suc di) ds) [
    | inl quiet ↦ inl (record { scanned = rw off quiet.scanned; talks = rw off quiet.talks })
    | inr (a, e, others, found) ↦ inr (
      a,
      e,
      others,
      record {
        scanned = rw off found.scanned;
        here = omega (arith, found.here);
        copied = λ old. copy_active_later di a d ds old found.here ∙ found.copied old;
        talks = rw off found.talks;
      },
    )
  ]
]

-- The resolution of a bus: with no driver enabled the wire is all zeros, with one it is that
-- driver's value, and with more the wire keeps its old value and one conflict is reported for
-- each driver after the first.
pub resolve_carries :
    (ds : List Driver) (old : Bytes)
    → ((resolve ds old).wire, (resolve ds old).conflicts) ≡ carried (talking ds) old
unfolding resolve
resolve_carries ds old = elim (scan-Finds 0 ds) [
  | inl quiet ↦ rw (quiet.scanned, quiet.talks) refl
  | inr (a, d, [], found) ↦ rw (found.scanned, found.talks) (ap (λ w. (w, 0)) (found.copied old))
  | inr (a, d, e ∷ others, found) ↦
      let several : (suc (length others) == 0) ≡ false = ground arith in
      rw (found.scanned, several, found.talks) refl
]
