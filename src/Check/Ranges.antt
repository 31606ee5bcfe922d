-- ===== src/Check/Ranges.antt =====
-- The scan of the pins keeps every index of the graph in its range.
use digital_circuit_simulati.Prelude.{
  ℕ, zero, suc, ◌+◌, ◌≤◌, ◌<◌, ◌≡◌, ◌↔◌, ◌⊎◌, refl, ap, subst, ◌∙◌, inl, inr, Option, none, some,
  List, [], ◌∷◌, ◌++◌, arith,
}
use digital_circuit_simulati.Prelude.{leb, get_elem?, In, Bool-cases, Option-cases}
use digital_circuit_simulati.LoopCheck.Walk.{Edge, IsClosed}
use digital_circuit_simulati.Check.{Pin, Component, first_bad, out_nets, invalid_pin, dependencies}
use digital_circuit_simulati.Check.Edges.{
  dep_pairs, pin_pairs, pairs, IsPair, InRange, dependencies-Edge, length-dependencies,
}

-- The nets of the pins are nets of the circuit.
abbrev pub NetsBelow : ℕ → List (Option ℕ) → Type 0
NetsBelow n [] = Unit
NetsBelow n (none ∷ pins) = NetsBelow n pins
NetsBelow n (some k ∷ pins) = (k < n) × NetsBelow n pins

abbrev pub AllBelow : ℕ → List Component → Type 0
AllBelow n [] = Unit
AllBelow n (c ∷ cs) = NetsBelow n c.inputs × NetsBelow n (out_nets c.outputs) × AllBelow n cs

first_bad-none : (n : ℕ) (pins : List (Option ℕ)) → first_bad n pins ≡ none → NetsBelow n pins
unfolding first_bad
first_bad-none n [] e = tt
first_bad-none n (none ∷ pins) e = first_bad-none n pins e
first_bad-none n (some k ∷ pins) e = elim (Bool-cases (leb n k)) [
  | inl bad ↦ ground arith
  | inr fine ↦ (ground arith, first_bad-none n pins (ground arith))
]

invalid_pin_cons :
    (n ci : ℕ) (c : Component) (cs : List Component)
    → invalid_pin n ci (c ∷ cs) ≡ none
    → (first_bad n c.inputs ≡ none)
      × (first_bad n (out_nets c.outputs) ≡ none)
      × (invalid_pin n (suc ci) cs ≡ none)
unfolding invalid_pin
invalid_pin_cons n ci c cs e = ground arith

pub invalid_pin-none : (n ci : ℕ) (cs : List Component) → invalid_pin n ci cs ≡ none → AllBelow n cs
invalid_pin-none n ci [] e = tt
invalid_pin-none n ci (c ∷ cs) e =
    let (ins, outs, rest) = invalid_pin_cons n ci c cs e in
    (
      first_bad-none n c.inputs ins,
      first_bad-none n (out_nets c.outputs) outs,
      invalid_pin-none n (suc ci) cs rest,
    )

NetsBelow-entry :
    (n : ℕ) (pins : List (Option ℕ)) (i u : ℕ)
    → NetsBelow n pins
    → get_elem? pins i ≡ some (some u)
    → u < n
NetsBelow-entry n [] i u h e = cc
NetsBelow-entry n (none ∷ pins) zero u h e = cc
NetsBelow-entry n (none ∷ pins) (suc i) u h e = NetsBelow-entry n pins i u h e
NetsBelow-entry n (some k ∷ pins) zero u h e = ground arith
NetsBelow-entry n (some k ∷ pins) (suc i) u (here, h) e = NetsBelow-entry n pins i u h e

InRange-append : (n : ℕ) (es fs : List (ℕ × ℕ)) → InRange n es → InRange n fs → InRange n (es ++ fs)
InRange-append n [] fs h k = k
InRange-append n (e ∷ es) fs (a, b, h) k = (a, b, InRange-append n es fs h k)

dep_pairs-InRange :
    (n : ℕ) (inputs : List (Option ℕ)) (v : ℕ) (ds : List ℕ)
    → NetsBelow n inputs
    → v < n
    → InRange n (dep_pairs inputs v ds)
dep_pairs-InRange n inputs v [] h lt = tt
dep_pairs-InRange n inputs v (di ∷ ds) h lt = elim (Option-cases (get_elem? inputs di)) [
  | inl missing ↦ rw (missing, dep_pairs) (dep_pairs-InRange n inputs v ds h lt)
  | inr (none, e) ↦ rw (e, dep_pairs) (dep_pairs-InRange n inputs v ds h lt)
  | inr (some u, e) ↦
      rw (e, dep_pairs)
        (NetsBelow-entry n inputs di u h e, lt, dep_pairs-InRange n inputs v ds h lt)
]

pin_pairs-InRange :
    (n : ℕ) (c : Component) (oi : ℕ) (ps : List Pin)
    → NetsBelow n c.inputs
    → NetsBelow n (out_nets ps)
    → InRange n (pin_pairs c oi ps)
pin_pairs-InRange n c oi [] ins outs = tt
pin_pairs-InRange n c oi (p ∷ ps) ins outs = elim (Option-cases p.net) [
  | inl free ↦
      rw free (
        pin_pairs-InRange n c (suc oi) ps ins
          (subst (λ o. NetsBelow n (o ∷ out_nets ps)) free outs))
  | inr (v, e) ↦
      let (lt, later) = subst (λ o. NetsBelow n (o ∷ out_nets ps)) e outs in
      rw e (
        InRange-append n (dep_pairs c.inputs v (c.deps oi)) (pin_pairs c (suc oi) ps)
          (dep_pairs-InRange n c.inputs v (c.deps oi) ins lt)
          (pin_pairs-InRange n c (suc oi) ps ins later))
]

pub pairs-InRange : (n : ℕ) (cs : List Component) → AllBelow n cs → InRange n (pairs cs)
pairs-InRange n [] h = tt
pairs-InRange n (c ∷ cs) (ins, outs, h) =
    InRange-append n (pin_pairs c 0 c.outputs) (pairs cs)
      (pin_pairs-InRange n c 0 c.outputs ins outs) (pairs-InRange n cs h)

-- A pin that is reported is on a net that the circuit does not have.
first_bad-some :
    (n : ℕ) (pins : List (Option ℕ)) (k : ℕ)
    → first_bad n pins ≡ some k
    → (n ≤ k) × In (some k) pins
unfolding first_bad
first_bad-some n [] k e = cc
first_bad-some n (none ∷ pins) k e =
    let (beyond, at) = first_bad-some n pins k e in (beyond, inr at)
first_bad-some n (some j ∷ pins) k e = elim (Bool-cases (leb n j)) [
  | inl bad ↦
      let same : j ≡ k = ground (arith, bad, e) in (ground (arith, bad, same), inl (ap some same))
  | inr fine ↦
      let (beyond, at) = first_bad-some n pins k (ground (arith, fine, e)) in (beyond, inr at)
]

-- The component at a position has a pin on the net.
pub record HasPin (cs : List Component) (k at : ℕ) : Type 0 where
  pub component : Component
  pub found : get_elem? cs at ≡ some component
  pub pin : In (some k) component.inputs ⊎ In (some k) (out_nets component.outputs)

pub invalid_pin-some :
    (n ci : ℕ) (cs : List Component) (k at : ℕ)
    → invalid_pin n ci cs ≡ some (k, at)
    → (n ≤ k) × (j : ℕ) × (at ≡ ci + j) × HasPin cs k j
unfolding invalid_pin
invalid_pin-some n ci [] k at e = cc
invalid_pin-some n ci (c ∷ cs) k at e = elim (Option-cases (first_bad n c.inputs)) [
  | inr (x, bad) ↦
      let same : x ≡ k = ground (arith, bad, e) in
      let (beyond, on) = first_bad-some n c.inputs k (bad ∙ ap some same) in
      let here : HasPin (c ∷ cs) k 0 = record { component = c; found = refl; pin = inl on } in
      (beyond, 0, ground (arith, bad, e), here)
  | inl ins ↦ elim (Option-cases (first_bad n (out_nets c.outputs))) [
    | inr (x, bad) ↦
        let same : x ≡ k = ground (arith, ins, bad, e) in
        let (beyond, on) = first_bad-some n (out_nets c.outputs) k (bad ∙ ap some same) in
        let here : HasPin (c ∷ cs) k 0 = record { component = c; found = refl; pin = inr on } in
        (beyond, 0, ground (arith, ins, bad, e), here)
    | inl outs ↦
        let (beyond, j, far, h) =
          invalid_pin-some n (suc ci) cs k at (ground (arith, ins, outs, e)) in
        let later : HasPin (c ∷ cs) k (suc j) = record {
          component = h.component;
          found = h.found;
          pin = h.pin;
        } in
        (beyond, suc j, omega (arith, far), later)
  ]
]

pair_below : (n u v : ℕ) (es : List (ℕ × ℕ)) → InRange n es → IsPair u v es → v < n
pair_below n u v [] h k = elim k [ ]
pair_below n u v (e ∷ es) (a, b, h) (inl (p, q)) = omega arith
pair_below n u v (e ∷ es) (a, b, h) (inr later) = pair_below n u v es h later

-- The graph that goes to the loop check has only nets of the circuit.
pub dependencies-IsClosed :
    (n : ℕ) (cs : List Component) → AllBelow n cs → IsClosed (dependencies n cs)
dependencies-IsClosed n cs h u v e =
    let all = pairs-InRange n cs h in
    let pair = (dependencies-Edge n cs u v all).0 e in
    let below = pair_below n u v (pairs cs) all pair in
    let size = length-dependencies n cs in omega arith

-- When every pin is on a net of the circuit, the graph has an edge from a net to another exactly
-- when some output on the second depends on an input on the first.
pub dependencies_complete :
    (n : ℕ) (cs : List Component) (u v : ℕ)
    → AllBelow n cs
    → Edge (dependencies n cs) u v ↔ IsPair u v (pairs cs)
dependencies_complete n cs u v h = dependencies-Edge n cs u v (pairs-InRange n cs h)
