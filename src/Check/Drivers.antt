-- ===== src/Check/Drivers.antt =====
-- The counts of the drivers, and what a passed test says of the outputs.
use digital_circuit_simulati.Prelude.{
  ℕ, suc, ◌+◌, ◌≤◌, ◌<◌, ◌≡◌, refl, sym, ap, subst, ◌∙◌, inl, inr, true, false, not, ◌&&◌, Option,
  none, some, List, [], ◌∷◌, ◌++◌, arith,
}
use digital_circuit_simulati.Prelude.{
  ◌==◌, ltb, if◌then◌else◌, length, length-append, In, Option-cases, Bool-cases,
}
use mathlib.Core.List.{append-nil, append_assoc}
use digital_circuit_simulati.Check.{
  Pin, Component, Drivers, add_driver, add_outputs, drivers, shared_pin, shared_net,
}

-- How many outputs of the circuit are on a net.
abbrev pub on_net : ℕ → Option ℕ → ℕ
on_net k none = 0
on_net k (some j) = if k == j then 1 else 0

abbrev pub pins_on : ℕ → List Pin → ℕ
pins_on k [] = 0
pins_on k (p ∷ ps) = on_net k p.net + pins_on k ps

abbrev pub outputs_on : ℕ → List Component → ℕ
outputs_on k [] = 0
outputs_on k (c ∷ cs) = pins_on k c.outputs + outputs_on k cs

add_driver_count :
    (m : Drivers) (ci k : ℕ) (net : Option ℕ)
    → length (add_driver m ci net k) ≡ length (m k) + on_net k net
add_driver_count m ci k none = omega arith
add_driver_count m ci k (some j) = ground (arith, length-append (m k) (ci ∷ []))

add_outputs_count :
    (m : Drivers) (ci k : ℕ) (ps : List Pin)
    → length (add_outputs m ci ps k) ≡ length (m k) + pins_on k ps
unfolding add_outputs
add_outputs_count m ci k [] = omega arith
add_outputs_count m ci k (p ∷ ps) =
    omega (arith, add_outputs_count (add_driver m ci p.net) ci k ps, add_driver_count m ci k p.net)

drivers_count :
    (m : Drivers) (ci k : ℕ) (cs : List Component)
    → length (drivers m ci cs k) ≡ length (m k) + outputs_on k cs
unfolding drivers
drivers_count m ci k [] = omega arith
drivers_count m ci k (c ∷ cs) = omega (
  arith,
  drivers_count (add_outputs m ci c.outputs) (suc ci) k cs,
  add_outputs_count m ci k c.outputs,
)

pub driven_count :
    (cs : List Component) (k : ℕ) → length (drivers (λ x. []) 0 cs k) ≡ outputs_on k cs
driven_count cs k = drivers_count (λ x. []) 0 k cs ∙ omega arith

-- An output that is not tri-state has its net to itself.
pub SingleDriver : List Component → Type 0
SingleDriver cs =
    (c : Component)
    → In c cs
    → (p : Pin) → In p c.outputs
    → (k : ℕ) → p.net ≡ some k
    → p.tri_state ≡ false
    → outputs_on k cs ≤ 1

-- A list of pins passes when its first pin and the others do.
shared_pin_cons :
    (m : Drivers) (q : Pin) (ps : List Pin)
    → shared_pin m (q ∷ ps) ≡ none
    → (shared_pin m ps ≡ none) × ((k : ℕ) → q.net ≡ some k → q.tri_state ≡ false → length (m k) ≤ 1)
unfolding shared_pin
shared_pin_cons m q ps e = ground arith

shared_pin-none :
    (m : Drivers) (ps : List Pin)
    → shared_pin m ps ≡ none
    → (p : Pin) → In p ps
    → (k : ℕ) → p.net ≡ some k
    → p.tri_state ≡ false
    → length (m k) ≤ 1
shared_pin-none m [] e p h k at plain = elim h [ ]
shared_pin-none m (q ∷ ps) e p (inl same) k at plain =
    (shared_pin_cons m q ps e).1 k (ap (λ x. x.net) same ∙ at) (ap (λ x. x.tri_state) same ∙ plain)
shared_pin-none m (q ∷ ps) e p (inr later) k at plain =
    shared_pin-none m ps (shared_pin_cons m q ps e).0 p later k at plain

shared_net_cons :
    (m : Drivers) (c : Component) (cs : List Component)
    → shared_net m (c ∷ cs) ≡ none
    → (shared_pin m c.outputs ≡ none) × (shared_net m cs ≡ none)
unfolding shared_net
shared_net_cons m c cs e = ground arith

shared_net-none :
    (m : Drivers) (cs : List Component)
    → shared_net m cs ≡ none
    → (c : Component) → In c cs
    → (p : Pin) → In p c.outputs
    → (k : ℕ) → p.net ≡ some k
    → p.tri_state ≡ false
    → length (m k) ≤ 1
shared_net-none m [] e c h p at_pin k at plain = elim h [ ]
shared_net-none m (d ∷ cs) e c (inl same) p at_pin k at plain =
    shared_pin-none m d.outputs (shared_net_cons m d cs e).0 p
      (subst (λ x. In p x.outputs) (sym same) at_pin) k at plain
shared_net-none m (d ∷ cs) e c (inr later) p at_pin k at plain =
    shared_net-none m cs (shared_net_cons m d cs e).1 c later p at_pin k at plain

pub passed-SingleDriver :
    (cs : List Component) → shared_net (drivers (λ x. []) 0 cs) cs ≡ none → SingleDriver cs
unfolding SingleDriver
passed-SingleDriver cs e c at_c p at_p k at plain = omega (
  arith,
  shared_net-none (drivers (λ x. []) 0 cs) cs e c at_c p at_p k at plain,
  driven_count cs k,
)

-- A net that is reported has several drivers, and one of them is an output that is not tri-state.
pub record PlainOutput (k : ℕ) (cs : List Component) : Type 0 where
  pub component : Component
  pub at_component : In component cs
  pub pin : Pin
  pub at_pin : In pin component.outputs
  pub on : pin.net ≡ some k
  pub plain : pin.tri_state ≡ false

shared_pin-some :
    (m : Drivers) (ps : List Pin) (k : ℕ)
    → shared_pin m ps ≡ some k
    → (1 < length (m k)) × (p : Pin) × In p ps × (p.net ≡ some k) × (p.tri_state ≡ false)
unfolding shared_pin
shared_pin-some m [] k e = cc
shared_pin-some m (p ∷ ps) k e = elim (Option-cases p.net) [
  | inl free ↦
      let (several, q, at_q, on, plain) = shared_pin-some m ps k (ground (arith, free, e)) in
      (several, q, inr at_q, on, plain)
  | inr (j, at) ↦ elim (Bool-cases (not p.tri_state && ltb 1 (length (m j)))) [
    | inl clash ↦
        let same : j ≡ k = ground (arith, at, clash, e) in
        let several : 1 < length (m j) = ground arith in
        (subst (λ t. 1 < length (m t)) same several, p, inl refl, at ∙ ap some same, ground arith)
    | inr fine ↦
        let (several, q, at_q, on, plain) = shared_pin-some m ps k (ground (arith, at, fine, e)) in
        (several, q, inr at_q, on, plain)
  ]
]

shared_net-some :
    (m : Drivers) (cs : List Component) (k : ℕ)
    → shared_net m cs ≡ some k
    → (1 < length (m k)) × PlainOutput k cs
unfolding shared_net
shared_net-some m [] k e = cc
shared_net-some m (c ∷ cs) k e = elim (Option-cases (shared_pin m c.outputs)) [
  | inl fine ↦
      let (several, r) = shared_net-some m cs k (ground (arith, fine, e)) in
      (
        several,
        record {
          component = r.component;
          at_component = inr r.at_component;
          pin = r.pin;
          at_pin = r.at_pin;
          on = r.on;
          plain = r.plain;
        },
      )
  | inr (j, clash) ↦
      let same : j ≡ k = ground (arith, clash, e) in
      let (several, p, at_p, on, plain) = shared_pin-some m c.outputs k (clash ∙ ap some same) in
      (
        several,
        record {
          component = c;
          at_component = inl refl;
          pin = p;
          at_pin = at_p;
          on = on;
          plain = plain;
        },
      )
]

pub reported_shared :
    (cs : List Component) (k : ℕ)
    → shared_net (drivers (λ x. []) 0 cs) cs ≡ some k
    → (1 < outputs_on k cs) × PlainOutput k cs
reported_shared cs k e =
    let (several, r) = shared_net-some (drivers (λ x. []) 0 cs) cs k e in
    (omega (arith, several, driven_count cs k), r)

-- The positions of the components with an output on the net, once for each such output.
abbrev pub pin_owners : ℕ → ℕ → List Pin → List ℕ
pin_owners k ci [] = []
pin_owners k ci (p ∷ ps) = elim p.net [
  | none ↦ pin_owners k ci ps
  | some j ↦ if j == k then ci ∷ pin_owners k ci ps else pin_owners k ci ps
]

abbrev pub owners : ℕ → ℕ → List Component → List ℕ
owners k ci [] = []
owners k ci (c ∷ cs) = pin_owners k ci c.outputs ++ owners k (suc ci) cs

add_outputs-pin_owners :
    (m : Drivers) (ci k : ℕ) (ps : List Pin) → add_outputs m ci ps k ≡ m k ++ pin_owners k ci ps
unfolding add_outputs
add_outputs-pin_owners m ci k [] = sym (append-nil (m k))
add_outputs-pin_owners m ci k (p ∷ ps) = elim (Option-cases p.net) [
  | inl free ↦ rw (free, add_outputs) (add_outputs-pin_owners m ci k ps)
  | inr (j, at) ↦
      let rest = add_outputs-pin_owners (add_driver m ci p.net) ci k ps in
      elim (Bool-cases (k == j)) [
        | inl here ↦
            let back : (j == k) ≡ true = ground arith in
            rest ∙ rw (at, here, back) (append_assoc (m k) (ci ∷ []) (pin_owners k ci ps))
        | inr other ↦ let back : (j == k) ≡ false = ground arith in rest ∙ rw (at, other, back) refl
      ]
]

drivers-owners :
    (m : Drivers) (ci k : ℕ) (cs : List Component) → drivers m ci cs k ≡ m k ++ owners k ci cs
unfolding drivers
drivers-owners m ci k [] = sym (append-nil (m k))
drivers-owners m ci k (c ∷ cs) =
    drivers-owners (add_outputs m ci c.outputs) (suc ci) k cs
    ∙ ap (λ t. t ++ owners k (suc ci) cs) (add_outputs-pin_owners m ci k c.outputs)
    ∙ append_assoc (m k) (pin_owners k ci c.outputs) (owners k (suc ci) cs)

pub driven_owners : (cs : List Component) (k : ℕ) → drivers (λ x. []) 0 cs k ≡ owners k 0 cs
driven_owners cs k = drivers-owners (λ x. []) 0 k cs
