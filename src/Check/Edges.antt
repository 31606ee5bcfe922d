-- ===== src/Check/Edges.antt =====
-- The dependency graph has an edge for each combinational dependency, and no other.
use digital_circuit_simulati.Prelude.{
  ℕ, zero, suc, ◌<◌, ◌≡◌, ◌↔◌, refl, sym, ap, subst, ◌∙◌, ◌⊎◌, inl, inr, Option, none, some, List,
  [], ◌∷◌, ◌++◌, arith,
}
use digital_circuit_simulati.Prelude.{
  length, get_elem?, replicate, length-set, length-replicate, Option-cases, In, In-append,
  get_or-set,
}
use digital_circuit_simulati.LoopCheck.{Graph, targets}
use digital_circuit_simulati.LoopCheck.Walk.{Edge}
use digital_circuit_simulati.Check.{
  Pin, Component, push, add_deps, add_pins, add_components, dependencies,
}

-- The specification: the pairs of an input net and an output net that depends on it.
abbrev pub dep_pairs : List (Option ℕ) → ℕ → List ℕ → List (ℕ × ℕ)
dep_pairs inputs v [] = []
dep_pairs inputs v (di ∷ ds) = elim (get_elem? inputs di) [
  | some (some u) ↦ (u, v) ∷ dep_pairs inputs v ds
  | _ ↦ dep_pairs inputs v ds
]

abbrev pub pin_pairs : Component → ℕ → List Pin → List (ℕ × ℕ)
pin_pairs c oi [] = []
pin_pairs c oi (p ∷ ps) = elim p.net [
  | none ↦ pin_pairs c (suc oi) ps
  | some v ↦ dep_pairs c.inputs v (c.deps oi) ++ pin_pairs c (suc oi) ps
]

abbrev pub pairs : List Component → List (ℕ × ℕ)
pairs [] = []
pairs (c ∷ cs) = pin_pairs c 0 c.outputs ++ pairs cs

abbrev pub IsPair : ℕ → ℕ → List (ℕ × ℕ) → Type 0
IsPair u v [] = ⊥
IsPair u v (e ∷ es) = (e.0 ≡ u) × (e.1 ≡ v) ⊎ IsPair u v es

abbrev push_all : Graph → List (ℕ × ℕ) → Graph
push_all g [] = g
push_all g (e ∷ es) = push_all (push g e.0 e.1) es

push_all-append :
    (g : Graph) (es fs : List (ℕ × ℕ)) → push_all g (es ++ fs) ≡ push_all (push_all g es) fs
push_all-append g [] fs = refl
push_all-append g (e ∷ es) fs = push_all-append (push g e.0 e.1) es fs

add_deps-pairs :
    (g : Graph) (inputs : List (Option ℕ)) (v : ℕ) (ds : List ℕ)
    → add_deps g inputs v ds ≡ push_all g (dep_pairs inputs v ds)
unfolding add_deps
add_deps-pairs g inputs v [] = refl
add_deps-pairs g inputs v (di ∷ ds) = elim (Option-cases (get_elem? inputs di)) [
  | inl missing ↦ rw (missing, add_deps, dep_pairs) (add_deps-pairs g inputs v ds)
  | inr (none, e) ↦ rw (e, add_deps, dep_pairs) (add_deps-pairs g inputs v ds)
  | inr (some u, e) ↦ rw (e, add_deps, dep_pairs) (add_deps-pairs (push g u v) inputs v ds)
]

add_pins-pairs :
    (g : Graph) (c : Component) (oi : ℕ) (ps : List Pin)
    → add_pins g c oi ps ≡ push_all g (pin_pairs c oi ps)
unfolding add_pins
add_pins-pairs g c oi [] = refl
add_pins-pairs g c oi (p ∷ ps) = elim (Option-cases p.net) [
  | inl free ↦ rw free (add_pins-pairs g c (suc oi) ps)
  | inr (v, e) ↦ rw e (
      add_pins-pairs (add_deps g c.inputs v (c.deps oi)) c (suc oi) ps
      ∙ ap (λ h. push_all h (pin_pairs c (suc oi) ps)) (add_deps-pairs g c.inputs v (c.deps oi))
      ∙ sym (push_all-append g (dep_pairs c.inputs v (c.deps oi)) (pin_pairs c (suc oi) ps)))
]

add_components-pairs :
    (g : Graph) (cs : List Component) → add_components g cs ≡ push_all g (pairs cs)
unfolding add_components
add_components-pairs g [] = refl
add_components-pairs g (c ∷ cs) =
    add_components-pairs (add_pins g c 0 c.outputs) cs
    ∙ ap (λ h. push_all h (pairs cs)) (add_pins-pairs g c 0 c.outputs)
    ∙ sym (push_all-append g (pin_pairs c 0 c.outputs) (pairs cs))

-- An entry at an index occurs, and the other way round.
entry_occurs : (xs : List ℕ) (v i : ℕ) → get_elem? xs i ≡ some v → In v xs
entry_occurs [] v i e = cc
entry_occurs (x ∷ xs) v zero e = inl (ground arith)
entry_occurs (x ∷ xs) v (suc i) e = inr (entry_occurs xs v i e)

occurs_entry : (xs : List ℕ) (v : ℕ) → In v xs → (i : ℕ) × (get_elem? xs i ≡ some v)
occurs_entry [] v h = elim h [ ]
occurs_entry (x ∷ xs) v (inl e) = (0, ap some e)
occurs_entry (x ∷ xs) v (inr h) = let (i, e) = occurs_entry xs v h in (suc i, e)

pub Edge-In : (g : Graph) (u v : ℕ) → Edge g u v ↔ In v (targets g u)
Edge-In g u v = (λ h. entry_occurs (targets g u) v h.0 h.1, occurs_entry (targets g u) v)

push-In :
    (g : Graph) (a b u v : ℕ)
    → a < length g
    → In v (targets (push g a b) u) ↔ (In v (targets g u) ⊎ (a ≡ u) × (b ≡ v))
unfolding push
push-In g a b u v lt =
    ground
      (arith, get_or-set g a u (targets g a ++ b ∷ []) [] lt, In-append v (targets g a) (b ∷ []))

length-push : (g : Graph) (a b : ℕ) → length (push g a b) ≡ length g
unfolding push
length-push g a b = length-set g a (targets g a ++ b ∷ [])

-- All pairs are of nets below `n`.
abbrev pub InRange : ℕ → List (ℕ × ℕ) → Type 0
InRange n [] = Unit
InRange n (e ∷ es) = (e.0 < n) × (e.1 < n) × InRange n es

push_all-In :
    (g : Graph) (es : List (ℕ × ℕ)) (u v : ℕ)
    → InRange (length g) es
    → In v (targets (push_all g es) u) ↔ (In v (targets g u) ⊎ IsPair u v es)
push_all-In g [] u v h = (inl, λ k. ground arith)
push_all-In g (e ∷ es) u v (src, tgt, h) =
    let later =
      push_all-In (push g e.0 e.1) es u v
        (subst (λ n. InRange n es) (sym (length-push g e.0 e.1)) h) in
    ground (arith, later, push-In g e.0 e.1 u v src)

blank-In : (n u v : ℕ) → ¬ In v (targets (replicate n []) u)
blank-In zero u v h = h
blank-In (suc n) zero v h = h
blank-In (suc n) (suc u) v h = blank-In n u v h

length-push_all : (g : Graph) (es : List (ℕ × ℕ)) → length (push_all g es) ≡ length g
length-push_all g [] = refl
length-push_all g (e ∷ es) = length-push_all (push g e.0 e.1) es ∙ length-push g e.0 e.1

pub length-dependencies : (n : ℕ) (cs : List Component) → length (dependencies n cs) ≡ n
unfolding dependencies
length-dependencies n cs =
    ap length (add_components-pairs (replicate n []) cs)
    ∙ length-push_all (replicate n []) (pairs cs)
    ∙ length-replicate n []

pub dependencies-Edge :
    (n : ℕ) (cs : List Component) (u v : ℕ)
    → InRange n (pairs cs)
    → Edge (dependencies n cs) u v ↔ IsPair u v (pairs cs)
unfolding dependencies
dependencies-Edge n cs u v h =
    let built = add_components-pairs (replicate n []) cs in
    let all =
      push_all-In (replicate n []) (pairs cs) u v
        (subst (λ k. InRange k (pairs cs)) (sym (length-replicate n [])) h) in
    let none_yet = blank-In n u v in
    rw built (ground (arith, Edge-In (push_all (replicate n []) (pairs cs)) u v, all, none_yet))
