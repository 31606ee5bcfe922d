-- ===== src/Tick/Affected.antt =====
-- The components that `computeTriAffected` returns.
use digital_circuit_simulati.Prelude.{
  ℕ, zero, suc, ◌+◌, ◌≤◌, ◌≡◌, refl, sym, subst, ◌∙◌, ◌↔◌, inl, inr, Bool, true, false, ◌&&◌, ◌||◌,
  Option, none, some, List, [], ◌∷◌, ◌++◌, arith,
}
use digital_circuit_simulati.Prelude.{length, ◌==◌, Bool-cases, Option-cases}
use digital_circuit_simulati.TopoSort.Degrees.{elem, elem-snoc}
use digital_circuit_simulati.Tick.{
  Component, Output, add_tri, tri_nets, reads_any, collect, follow, outs_at, spread,
  compute_tri_affected,
}
use digital_circuit_simulati.Tick.Collect.{
  member, passes, missing, missing_same, feeds, from_start, collect-measure, follow-member,
  follow-measure,
}

-- A tri-state output of the list is on the net `n`.
abbrev pub drives_tri : ℕ → List Output → Bool
drives_tri n [] = false
drives_tri n (o ∷ os) =
    (o.tri_state && (elim o.net [ none ↦ false | some k ↦ k == n ])) || drives_tri n os

abbrev pub is_tri_net : ℕ → List Component → Bool
is_tri_net n [] = false
is_tri_net n (c ∷ cs) = drives_tri n c.outs || is_tri_net n cs

-- A pin of the list is on a net that a tri-state output is on.
abbrev pub reads_tri : List Component → List (Option ℕ) → Bool
reads_tri cs [] = false
reads_tri cs (pin ∷ pins) = elim pin [
  | none ↦ reads_tri cs pins
  | some n ↦ is_tri_net n cs || reads_tri cs pins
]

-- The combinational components that depend on a tri-state net, directly or through others.
pub data Affected (sorted components : List Component) : ℕ → Type 0 where
  direct :
      (v : ℕ)
      → passes (λ c. reads_tri components c.ins) sorted v ≡ true
      → Affected sorted components v
  through :
      (u v : ℕ)
      → Affected sorted components u
      → passes (λ c. feeds (outs_at sorted u) c.ins) sorted v ≡ true
      → Affected sorted components v

elem-add_tri :
    (os : List Output) (s : List ℕ) (n : ℕ) → elem n (add_tri os s) ≡ elem n s || drives_tri n os
unfolding add_tri
elem-add_tri [] s n = ground arith
elem-add_tri (o ∷ os) s n = elim (Bool-cases o.tri_state) [
  | inr plain ↦ rw plain (elem-add_tri os s n)
  | inl tri ↦ elim (Option-cases o.net) [
    | inl open_pin ↦ rw (tri, open_pin) (elem-add_tri os s n)
    | inr (k, on) ↦ rw (tri, on) (ground (arith, elem-add_tri os (k ∷ s) n))
  ]
]

elem-tri_nets :
    (cs : List Component) (s : List ℕ) (n : ℕ)
    → elem n (tri_nets cs s) ≡ elem n s || is_tri_net n cs
unfolding tri_nets
elem-tri_nets [] s n = ground arith
elem-tri_nets (c ∷ cs) s n =
    ground (arith, elem-tri_nets cs (add_tri c.outs s) n, elem-add_tri c.outs s n)

reads_any-tri :
    (cs : List Component) (ins : List (Option ℕ))
    → reads_any (tri_nets cs []) ins ≡ reads_tri cs ins
reads_any-tri cs [] = refl
reads_any-tri cs (none ∷ pins) = reads_any-tri cs pins
reads_any-tri cs (some n ∷ pins) = ground (arith, reads_any-tri cs pins, elem-tri_nets cs [] n)

passes_same :
    (a b : Component → Bool) (cs : List Component) (v : ℕ)
    → ((c : Component) → a c ≡ b c)
    → passes a cs v ≡ passes b cs v
passes_same a b [] v h = refl
passes_same a b (c ∷ cs) zero h = ground (arith, h c)
passes_same a b (c ∷ cs) (suc v) h = passes_same a b cs v h

module _ (sorted components : List Component) where
  -- The queue holds affected components, and what the followed ones feed is in it.
  record Spreads (done todo : List ℕ) : Type 0 where
    pub sound : (v : ℕ) → member done todo v ≡ true → Affected sorted components v
    pub followed :
        (u v : ℕ)
        → elem u done ≡ true
        → passes (λ c. feeds (outs_at sorted u) c.ins) sorted v ≡ true
        → member done todo v ≡ true

  pop-Spreads :
      (done : List ℕ) (u : ℕ) (todo : List ℕ)
      → Spreads done (u ∷ todo)
      → Spreads (done ++ u ∷ []) (follow (outs_at sorted u) sorted (done ++ u ∷ []) todo)
  pop-Spreads done u todo h =
      let now = done ++ u ∷ [] in
      let joins = λ (v : ℕ). follow-member (outs_at sorted u) sorted now todo v in
      record {
        sound = λ v m. elim (Bool-cases (passes (λ c. feeds (outs_at sorted u) c.ins) sorted v)) [
          | inl fed ↦ through u v (h.sound u (ground arith)) fed
          | inr not_fed ↦ h.sound v (ground (arith, joins v, elem-snoc v u done))
        ];
        followed = λ w v in_done fed. elim (Bool-cases (u == w)) [
          | inl same ↦
              let u_is : w ≡ u = ground arith in
              let fed' =
                subst (λ t. passes (λ c. feeds (outs_at sorted t) c.ins) sorted v ≡ true) u_is
                  fed in
              ground (arith, joins v, fed')
          | inr other ↦
              let before = h.followed w v (ground (arith, elem-snoc w u done)) fed in
              ground (arith, joins v, elem-snoc v u done, before)
        ];
      }

  pop-measure :
      (done : List ℕ) (u : ℕ) (todo : List ℕ) (fuel : ℕ)
      → length (u ∷ todo) + missing (member done (u ∷ todo)) (length sorted) ≤ suc fuel
      → let next = follow (outs_at sorted u) sorted (done ++ u ∷ []) todo in
        length next + missing (member (done ++ u ∷ []) next) (length sorted) ≤ fuel
  pop-measure done u todo fuel h =
      let same =
        missing_same (member done (u ∷ todo)) (member (done ++ u ∷ []) todo) (length sorted)
          (λ k lt. ground (arith, elem-snoc k u done)) in
      omega (arith, h, same, follow-measure (outs_at sorted u) sorted (done ++ u ∷ []) todo)

  spread-Spreads :
      (fuel : ℕ) (done todo : List ℕ)
      → length todo + missing (member done todo) (length sorted) ≤ fuel
      → Spreads done todo
      → (a : List ℕ) × (spread fuel sorted done todo ≡ some a)
        × Spreads a []
        × ((v : ℕ) → member done todo v ≡ true → elem v a ≡ true)
  unfolding spread
  spread-Spreads zero done [] fuel h = (done, refl, h, λ v m. ground arith)
  spread-Spreads (suc fuel) done [] enough h = (done, refl, h, λ v m. ground arith)
  spread-Spreads zero done (u ∷ todo) enough h = absurd (omega (arith, enough))
  spread-Spreads (suc fuel) done (u ∷ todo) enough h =
      let now = done ++ u ∷ [] in
      let next = follow (outs_at sorted u) sorted now todo in
      let (a, e, s, kept) =
        spread-Spreads fuel now next (pop-measure done u todo fuel enough)
          (pop-Spreads done u todo h) in
      (
        a,
        e,
        s,
        λ v m. kept v (
            ground (arith, follow-member (outs_at sorted u) sorted now todo v, elem-snoc v u done)),
      )

  missing_all : (n : ℕ) → missing (member [] []) n ≡ n
  missing_all zero = refl
  missing_all (suc n) = omega (arith, missing_all n)

  -- `computeTriAffected` always ends, and the components that it returns are exactly those
  -- combinational ones that read a net with a tri-state output, or that read an output of one of
  -- them.
  pub compute_tri_affected-Affected :
      (a : List ℕ) × (compute_tri_affected sorted components ≡ some a)
      × ((v : ℕ) → (elem v a ≡ true) ↔ Affected sorted components v)
  unfolding compute_tri_affected
  compute_tri_affected-Affected =
      let test = λ (c : Component). reads_any (tri_nets components []) c.ins in
      let first = collect test [] 0 sorted [] in
      let same = λ (v : ℕ).
        passes_same test (λ c. reads_tri components c.ins) sorted v
          (λ c. reads_any-tri components c.ins) in
      let starts = λ (v : ℕ). from_start test [] sorted [] v in
      let size = collect-measure test [] 0 (length sorted) sorted [] (omega arith) in
      let (a, e, s, kept) =
        spread-Spreads (length sorted) [] first (omega (arith, size, missing_all (length sorted)))
          (record {
            sound = λ v m. direct v (sym (same v) ∙ ground (arith, starts v));
            followed = λ u v in_done fed. cc;
          }) in
      (
        a,
        e,
        λ v. (
          λ m. s.sound v (ground arith),
          complete a s (λ w d. kept w (ground (arith, starts w, same w))) v,
        ),
      )
    where
      complete :
          (a : List ℕ)
          → Spreads a []
          → ((w : ℕ) → passes (λ c. reads_tri components c.ins) sorted w ≡ true → elem w a ≡ true)
          → (v : ℕ) → Affected sorted components v
          → elem v a ≡ true
      complete a s seeds v (direct _ d) = seeds v d
      complete a s seeds v (through u _ before fed) =
          let m = s.followed u v (complete a s seeds u before) fed in ground (arith, m)
