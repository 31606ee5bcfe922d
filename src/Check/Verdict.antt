-- ===== src/Check/Verdict.antt =====
-- The verdict on a whole circuit.
use digital_circuit_simulati.Prelude.{ℕ, ◌≤◌, ◌<◌, ◌≡◌, refl, subst, ◌⊎◌, inl, inr, List, [], arith}
use digital_circuit_simulati.Prelude.{length, Option-cases}
use digital_circuit_simulati.LoopCheck
use digital_circuit_simulati.LoopCheck.Walk.{Reach}
use digital_circuit_simulati.LoopCheck.Report.{IsCycle}
use digital_circuit_simulati.LoopCheck.Decides.{check_loops_decides}
use digital_circuit_simulati.Check.{
  Component, ok, invalid_net, multiple_drivers, refused, invalid_pin, drivers, shared_net, buses,
  dependencies, check,
}
use digital_circuit_simulati.Check.Drivers.{
  outputs_on, owners, SingleDriver, PlainOutput, driven_count, driven_owners, passed-SingleDriver,
  reported_shared,
}
use digital_circuit_simulati.Check.Ranges.{
  AllBelow, HasPin, invalid_pin-none, invalid_pin-some, dependencies-IsClosed,
}

-- What a circuit that is accepted has: nets of its own, no net that an output which is not
-- tri-state shares, and no combinational loop.
pub record IsSound (n : ℕ) (cs : List Component) : Type 0 where
  pub own_nets : AllBelow n cs
  pub single_driver : SingleDriver cs
  pub no_loop : (u : ℕ) → ¬ Reach (dependencies n cs) u u

-- What each error says.
pub record IsForeign (n : ℕ) (cs : List Component) (k ci : ℕ) : Type 0 where
  pub verdict : check n cs ≡ invalid_net k ci
  pub pin : HasPin cs k ci
  pub beyond : n ≤ k

pub record IsShared (n : ℕ) (cs : List Component) (k : ℕ) (ids : List ℕ) : Type 0 where
  pub verdict : check n cs ≡ multiple_drivers k ids
  pub all_named : ids ≡ owners k 0 cs
  pub counted : length ids ≡ outputs_on k cs
  pub several : 1 < outputs_on k cs
  pub not_tri_state : PlainOutput k cs
  pub own_nets : AllBelow n cs

pub record IsLooped (n : ℕ) (cs : List Component) (p : List ℕ) : Type 0 where
  pub verdict : check n cs ≡ refused (LoopCheck.combinational_loop p)
  pub cycle : IsCycle (dependencies n cs) p
  pub own_nets : AllBelow n cs
  pub single_driver : SingleDriver cs

-- The check always ends, with one of four verdicts, each of them right: the named component has a
-- pin on the named net, which the circuit does not have; or all nets are nets of the circuit, and
-- the named net has several outputs, one of them not tri-state, and the ids are those of the
-- components of all its outputs; or the circuit is sound, and its buses are returned; or only the
-- last test fails, and the named nets are a closed walk in the dependency graph.
pub check_decides :
    (n : ℕ) (cs : List Component)
    → ((k : ℕ) × (ci : ℕ) × IsForeign n cs k ci)
      ⊎ ((k : ℕ) × (ids : List ℕ) × IsShared n cs k ids)
      ⊎ ((check n cs ≡ ok (buses cs)) × IsSound n cs)
      ⊎ ((p : List ℕ) × IsLooped n cs p)
unfolding check
check_decides n cs =
    let driven = drivers (λ x. []) 0 cs in
    elim (Option-cases (invalid_pin n 0 cs)) [
      | inr ((k, ci), foreign) ↦
          let (beyond, j, at, h) = invalid_pin-some n 0 cs k ci foreign in
          let same : j ≡ ci = omega (arith, at) in
          inl (
            k,
            ci,
            record {
              verdict = rw (foreign, check) refl;
              pin = subst (HasPin cs k) same h;
              beyond = beyond;
            },
          )
      | inl own ↦ elim (Option-cases (shared_net driven cs)) [
        | inr (k, clash) ↦
            let (several, plain) = reported_shared cs k clash in
            inr (
              inl (
                k,
                driven k,
                record {
                  verdict = rw (own, clash, check) refl;
                  all_named = driven_owners cs k;
                  counted = driven_count cs k;
                  several = several;
                  not_tri_state = plain;
                  own_nets = invalid_pin-none n 0 cs own;
                },
              ))
        | inl single ↦
            let below = invalid_pin-none n 0 cs own in
            elim (check_loops_decides (dependencies n cs) (dependencies-IsClosed n cs below)) [
              | inl (accepted, free) ↦ inr (
                  inr (
                    inl (
                      rw (own, single, accepted, check) refl,
                      record {
                        own_nets = below;
                        single_driver = passed-SingleDriver cs single;
                        no_loop = free;
                      },
                    )))
              | inr (p, loop, cycle) ↦ inr (
                  inr (
                    inr (
                      p,
                      record {
                        verdict = rw (own, single, loop, check) refl;
                        cycle = cycle;
                        own_nets = below;
                        single_driver = passed-SingleDriver cs single;
                      },
                    )))
            ]
      ]
    ]
