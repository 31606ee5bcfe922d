-- ===== src/Netlist/Counts.antt =====
-- Sums over the outputs of a circuit, and what one pin contributes to them.
use digital_circuit_simulati.Prelude.{
  ℕ, zero, suc, ◌+◌, ◌<◌, ◌≡◌, ◌≢◌, refl, ap, ◌∙◌, ◌⊎◌, inl, inr, Bool, false, not, ◌||◌, Option,
  some, List, [], ◌∷◌, ◌++◌, arith,
}
use digital_circuit_simulati.Prelude.{if◌then◌else◌, get_elem?, set, Bool-cases}
use digital_circuit_simulati.Netlist.{Pin, Component, Driver, Place, input, output, pin_at, set_pin}
use digital_circuit_simulati.Netlist.Edit.{
  on_net, Scan, clash, shared, is_me, scan_pins, scan_outputs,
}

abbrev pub hits : ℕ → Option ℕ → ℕ
hits r net = if on_net r net then 1 else 0

-- An output that is not tri-state on a net, and one that is.
abbrev pub plain : ℕ → Pin → ℕ
plain r p = if p.tri_state then 0 else hits r p.net

abbrev pub shareable : ℕ → Pin → ℕ
shareable r p = if p.tri_state then hits r p.net else 0

module _ (f : Pin → ℕ) where
  abbrev pub total : List Pin → ℕ
  total [] = 0
  total (p ∷ ps) = f p + total ps

  abbrev pub total_outputs : List Component → ℕ
  total_outputs [] = 0
  total_outputs (c ∷ cs) = total c.outputs + total_outputs cs

  abbrev pub own : Place → Pin → ℕ
  own (input i) p = 0
  own (output i) p = f p

  total-set :
      (ps : List Pin) (i : ℕ) (p p' : Pin)
      → get_elem? ps i ≡ some p
      → total (set ps i p') + f p ≡ total ps + f p'
  total-set [] i p p' h = cc
  total-set (q ∷ ps) zero p p' h = ground arith
  total-set (q ∷ ps) (suc i) p p' h = omega (arith, total-set ps i p p' h)

  total_outputs-set :
      (cs : List Component) (ci : ℕ) (c c' : Component)
      → get_elem? cs ci ≡ some c
      → total_outputs (set cs ci c') + total c.outputs ≡ total_outputs cs + total c'.outputs
  total_outputs-set [] ci c c' h = cc
  total_outputs-set (d ∷ cs) zero c c' h = ground arith
  total_outputs-set (d ∷ cs) (suc ci) c c' h = omega (arith, total_outputs-set cs ci c c' h)

  total-set_pin :
      (c : Component) (at : Place) (p p' : Pin)
      → pin_at c at ≡ some p
      → total (set_pin at p' c).outputs + own at p ≡ total c.outputs + own at p'
  total-set_pin c (input i) p p' h = refl
  total-set_pin c (output i) p p' h = total-set c.outputs i p p' h

  -- One pin of the circuit is replaced.
  pub replace_pin :
      (cs : List Component) (ci : ℕ) (c : Component) (at : Place) (p p' : Pin)
      → get_elem? cs ci ≡ some c
      → pin_at c at ≡ some p
      → total_outputs (set cs ci (set_pin at p' c)) + own at p ≡ total_outputs cs + own at p'
  replace_pin cs ci c at p p' hc hp =
      omega (arith, total_outputs-set cs ci c (set_pin at p' c) hc, total-set_pin c at p p' hp)

  -- The sum without one output.
  abbrev pub skip_pins : Option (ℕ × ℕ) → ℕ → ℕ → List Pin → ℕ
  skip_pins me ci oi [] = 0
  skip_pins me ci oi (p ∷ ps) = (if is_me me ci oi then 0 else f p) + skip_pins me ci (suc oi) ps

  abbrev pub skip_outputs : Option (ℕ × ℕ) → ℕ → List Component → ℕ
  skip_outputs me ci [] = 0
  skip_outputs me ci (c ∷ cs) = skip_pins me ci 0 c.outputs + skip_outputs me (suc ci) cs

  skip_pins_elsewhere :
      (mi mo ci oi : ℕ) (ps : List Pin) → mi ≢ ci → skip_pins (some (mi, mo)) ci oi ps ≡ total ps
  skip_pins_elsewhere mi mo ci oi [] h = refl
  skip_pins_elsewhere mi mo ci oi (p ∷ ps) h =
      ground (arith, skip_pins_elsewhere mi mo ci (suc oi) ps h)

  skip_pins_passed :
      (mi mo oi : ℕ) (ps : List Pin) → mo < oi → skip_pins (some (mi, mo)) mi oi ps ≡ total ps
  skip_pins_passed mi mo oi [] h = refl
  skip_pins_passed mi mo oi (p ∷ ps) h = ground (arith, skip_pins_passed mi mo (suc oi) ps)

  skip_pins_here :
      (mi oi j : ℕ) (ps : List Pin) (p : Pin)
      → get_elem? ps j ≡ some p
      → skip_pins (some (mi, oi + j)) mi oi ps + f p ≡ total ps
  skip_pins_here mi oi j [] p h = cc
  skip_pins_here mi oi zero (q ∷ ps) p h = ground (arith, skip_pins_passed mi (oi + 0) (suc oi) ps)
  skip_pins_here mi oi (suc j) (q ∷ ps) p h =
      let later = skip_pins_here mi (suc oi) j ps p h in
      let same : skip_pins (some (mi, suc oi + j)) mi (suc oi) ps
          ≡ skip_pins (some (mi, oi + suc j)) mi (suc oi) ps =
        ap (λ k. skip_pins (some (mi, k)) mi (suc oi) ps) (omega arith) in
      let other : is_me (some (mi, oi + suc j)) mi oi ≡ false = ground arith in
      rw other (omega (arith, later, same))

  skip_outputs_elsewhere :
      (mi mo ci : ℕ) (cs : List Component)
      → mi < ci
      → skip_outputs (some (mi, mo)) ci cs ≡ total_outputs cs
  skip_outputs_elsewhere mi mo ci [] h = refl
  skip_outputs_elsewhere mi mo ci (c ∷ cs) h = omega (
    arith,
    skip_pins_elsewhere mi mo ci 0 c.outputs (λ e. omega arith),
    skip_outputs_elsewhere mi mo (suc ci) cs,
  )

  pub skip_outputs_here :
      (ci j mo : ℕ) (cs : List Component) (c : Component) (p : Pin)
      → get_elem? cs j ≡ some c
      → get_elem? c.outputs mo ≡ some p
      → skip_outputs (some (ci + j, mo)) ci cs + f p ≡ total_outputs cs
  skip_outputs_here ci j mo [] c p hc hp = cc
  skip_outputs_here ci zero mo (d ∷ cs) c p hc hp =
      let same : d ≡ c = ground arith in
      let here = skip_pins_here ci 0 mo d.outputs p (ap (λ x. get_elem? x.outputs mo) same ∙ hp) in
      let at : skip_pins (some (ci, 0 + mo)) ci 0 d.outputs
          ≡ skip_pins (some (ci + 0, mo)) ci 0 d.outputs =
        ap (λ k. skip_pins (some (ci, k)) ci 0 d.outputs) (omega arith)
        ∙ ap (λ k. skip_pins (some (k, mo)) ci 0 d.outputs) (omega arith) in
      omega (arith, here, at, skip_outputs_elsewhere (ci + 0) mo (suc ci) cs)
  skip_outputs_here ci (suc j) mo (d ∷ cs) c p hc hp =
      let later = skip_outputs_here (suc ci) j mo cs c p hc hp in
      let same : skip_outputs (some (suc ci + j, mo)) (suc ci) cs
          ≡ skip_outputs (some (ci + suc j, mo)) (suc ci) cs =
        ap (λ k. skip_outputs (some (k, mo)) (suc ci) cs) (omega arith) in
      omega
        (arith, later, same, skip_pins_elsewhere (ci + suc j) mo ci 0 d.outputs (λ e. omega arith))

pub Scan-cases : (s : Scan) → ((id : ℕ) × (s ≡ clash id)) ⊎ ((ds : List Driver) × (s ≡ shared ds))
Scan-cases (clash id) = inl (id, refl)
Scan-cases (shared ds) = inr (ds, refl)

-- A scan without a clash: no other output that is not tri-state, and no other at all for a pin that
-- is not tri-state itself.
record Clear (me : Option (ℕ × ℕ)) (tri : Bool) (r ci oi : ℕ) (ps : List Pin) : Type 0 where
  pub no_plain : skip_pins (plain r) me ci oi ps ≡ 0
  pub alone : tri ≡ false → skip_pins (shareable r) me ci oi ps ≡ 0

scan_pins-Clear :
    (me : Option (ℕ × ℕ)) (tri : Bool) (r ci ref id oi : ℕ) (ps : List Pin) (found ds : List Driver)
    → scan_pins me tri r ci ref id oi ps found ≡ shared ds
    → Clear me tri r ci oi ps
unfolding scan_pins
scan_pins-Clear me tri r ci ref id oi [] found ds h = record { no_plain = refl; alone = λ e. refl }
scan_pins-Clear me tri r ci ref id oi (p ∷ ps) found ds h =
    elim (Bool-cases (not (on_net r p.net) || is_me me ci oi)) [
      | inl passed ↦
          let later = scan_pins-Clear me tri r ci ref id (suc oi) ps found ds (ground arith) in
          record {
            no_plain = ground (arith, later.no_plain);
            alone = λ e. ground (arith, later.alone e);
          }
      | inr counts ↦ elim (Bool-cases (not tri || not p.tri_state)) [
        | inl refused ↦ let wrong : clash id ≡ shared ds = ground arith in cc
        | inr fine ↦
            let later =
              scan_pins-Clear me tri r ci ref id (suc oi) ps
                (found ++ record { comp = ref; out_idx = oi } ∷ []) ds (ground arith) in
            record { no_plain = ground (arith, later.no_plain); alone = λ e. ground arith }
      ]
    ]

pub scan_outputs-Clear :
    (me : Option (ℕ × ℕ)) (tri : Bool) (r ci : ℕ) (cs : List Component) (found ds : List Driver)
    → scan_outputs me tri r ci cs found ≡ shared ds
    → (skip_outputs (plain r) me ci cs ≡ 0)
      × (tri ≡ false → skip_outputs (shareable r) me ci cs ≡ 0)
unfolding scan_outputs
scan_outputs-Clear me tri r ci [] found ds h = (refl, λ e. refl)
scan_outputs-Clear me tri r ci (c ∷ cs) found ds h =
    elim (Scan-cases (scan_pins me tri r ci c.ref c.id 0 c.outputs found)) [
      | inl (id, refused) ↦ let wrong : clash id ≡ shared ds = ground arith in cc
      | inr (more, e) ↦
          let here = scan_pins-Clear me tri r ci c.ref c.id 0 c.outputs found more e in
          let (later, others) = scan_outputs-Clear me tri r (suc ci) cs more ds (ground arith) in
          (
            omega (arith, here.no_plain, later),
            λ plain_me. omega (arith, here.alone plain_me, others plain_me),
          )
    ]
