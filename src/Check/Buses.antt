-- ===== src/Check/Buses.antt =====
-- The buses that a check leaves.
use digital_circuit_simulati.Prelude.{
  ℕ, suc, ◌≡◌, refl, sym, ap, ◌∙◌, inl, inr, Bool, false, ◌&&◌, Option, none, some, List, [], ◌∷◌,
  ◌++◌, arith,
}
use digital_circuit_simulati.Prelude.{ltb, if◌then◌else◌, length, Bool-cases, ◌==◌}
use digital_circuit_simulati.Check.{
  Pin, Component, Buses, add_tri_state, add_tri_states, collect, buses,
}

-- The tri-state outputs on a net, in the order of the components and of their pins.
abbrev pub is_on : ℕ → Option ℕ → Bool
is_on k none = false
is_on k (some j) = k == j

abbrev pub tri_pins : ℕ → ℕ → ℕ → List Pin → List (ℕ × ℕ)
tri_pins k ci oi [] = []
tri_pins k ci oi (p ∷ ps) =
    let rest = tri_pins k ci (suc oi) ps in
    if p.tri_state && is_on k p.net then (ci, oi) ∷ rest else rest

abbrev pub tri_outputs : ℕ → ℕ → List Component → List (ℕ × ℕ)
tri_outputs k ci [] = []
tri_outputs k ci (c ∷ cs) = tri_pins k ci 0 c.outputs ++ tri_outputs k (suc ci) cs

append_assoc : (xs ys zs : List (ℕ × ℕ)) → (xs ++ ys) ++ zs ≡ xs ++ (ys ++ zs)
append_assoc [] ys zs = refl
append_assoc (x ∷ xs) ys zs = ap (λ t. x ∷ t) (append_assoc xs ys zs)

append_nil : (xs : List (ℕ × ℕ)) → xs ++ [] ≡ xs
append_nil [] = refl
append_nil (x ∷ xs) = ap (λ t. x ∷ t) (append_nil xs)

add_tri_state_at :
    (m : Buses) (ci oi k : ℕ) (p : Pin)
    → add_tri_state m ci oi p k
      ≡ (if p.tri_state && is_on k p.net then m k ++ (ci, oi) ∷ [] else m k)
add_tri_state_at m ci oi k p = ground arith

add_tri_states_at :
    (m : Buses) (ci oi k : ℕ) (ps : List Pin)
    → add_tri_states m ci oi ps k ≡ m k ++ tri_pins k ci oi ps
unfolding add_tri_states
add_tri_states_at m ci oi k [] = sym (append_nil (m k))
add_tri_states_at m ci oi k (p ∷ ps) =
    let rest = tri_pins k ci (suc oi) ps in
    let here = add_tri_state_at m ci oi k p in
    add_tri_states_at (add_tri_state m ci oi p) ci (suc oi) k ps
    ∙ ap (λ t. t ++ rest) here
    ∙ elim (Bool-cases (p.tri_state && is_on k p.net)) [
      | inl on ↦ rw on (append_assoc (m k) ((ci, oi) ∷ []) rest)
      | inr off ↦ rw off refl
    ]

collect_at :
    (m : Buses) (ci k : ℕ) (cs : List Component) → collect m ci cs k ≡ m k ++ tri_outputs k ci cs
unfolding collect
collect_at m ci k [] = sym (append_nil (m k))
collect_at m ci k (c ∷ cs) =
    let rest = tri_outputs k (suc ci) cs in
    collect_at (add_tri_states m ci 0 c.outputs) (suc ci) k cs
    ∙ ap (λ t. t ++ rest) (add_tri_states_at m ci 0 k c.outputs)
    ∙ append_assoc (m k) (tri_pins k ci 0 c.outputs) rest

-- The bus of a net holds all tri-state outputs on the net, in order, when there are at least two,
-- and a net with fewer has no bus.
pub buses_complete :
    (cs : List Component) (k : ℕ)
    → buses cs k ≡ (if ltb (length (tri_outputs k 0 cs)) 2 then [] else tri_outputs k 0 cs)
unfolding buses
buses_complete cs k = ap (λ t. if ltb (length t) 2 then [] else t) (collect_at (λ x. []) 0 k cs)
