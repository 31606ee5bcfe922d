-- ===== src/Netlist/Outcome.antt =====
-- What `connect` has done, by the error code that it returns.
use digital_circuit_simulati.Prelude.{
  ℕ, suc, ◌+◌, ◌≤◌, ◌≡◌, refl, sym, ap, subst, ◌∙◌, inl, inr, Bool, true, not, ◌&&◌, ◌||◌, Option,
  none, some, List, [], ◌∷◌, ◌++◌, arith,
}
use digital_circuit_simulati.Prelude.{if◌then◌else◌, get_elem?, Bool-cases, Option-cases}
use digital_circuit_simulati.Netlist.{
  Pin, Component, Net, Driver, Circuit, ErrorCode, ok, pin_not_found, invalid_net, multiple_drivers,
  Place, input, output, pin_at, with_net, set_pin, find_ref, find_pin,
}
use digital_circuit_simulati.Netlist.Edit.{
  on_net, is_me, is_connected, disconnect, clash, scan_pins, scan_outputs, scan_at, attach, connect,
}
use digital_circuit_simulati.Netlist.Counts.{plain, shareable, skip_pins, skip_outputs, Scan-cases}
use digital_circuit_simulati.Netlist.Connected.{
  entry-set, pin_at-set_pin, disconnected, free_lem, find_ref-InRefs,
}

-- The scan refuses a pin for an output that cannot share the net with it.
abbrev Refuses : Option (ℕ × ℕ) → Bool → ℕ → ℕ → ℕ → List Pin → Type 0
Refuses me tri r ci oi ps =
    (tri ≡ true → 1 ≤ skip_pins (plain r) me ci oi ps)
    × (1 ≤ skip_pins (plain r) me ci oi ps + skip_pins (shareable r) me ci oi ps)

scan_pins-Refuses :
    (me : Option (ℕ × ℕ)) (tri : Bool) (r ci ref id oi : ℕ) (ps : List Pin) (found : List Driver)
    (other : ℕ)
    → scan_pins me tri r ci ref id oi ps found ≡ clash other
    → Refuses me tri r ci oi ps
unfolding scan_pins
scan_pins-Refuses me tri r ci ref id oi [] found other h = cc
scan_pins-Refuses me tri r ci ref id oi (p ∷ ps) found other h =
    elim (Bool-cases (not (on_net r p.net) || is_me me ci oi)) [
      | inl passed ↦
          let (a, b) =
            scan_pins-Refuses me tri r ci ref id (suc oi) ps found other (ground arith) in
          (λ t. omega (arith, a t), omega (arith, b))
      | inr counts ↦ elim (Bool-cases (not tri || not p.tri_state)) [
        | inl refused ↦ (λ t. ground arith, ground arith)
        | inr fine ↦
            let (a, b) =
              scan_pins-Refuses me tri r ci ref id (suc oi) ps
                (found ++ record { comp = ref; out_idx = oi } ∷ []) other (ground arith) in
            (λ t. omega (arith, a t), omega (arith, b))
      ]
    ]

-- The outputs that stand in the way of output `i` of component `ci`: one that is not tri-state, or,
-- for a pin that is not tri-state, any at all.
pub record IsTaken (c : Circuit) (ci i : ℕ) (tri : Bool) (r : ℕ) : Type 0 where
  pub by_plain : tri ≡ true → 1 ≤ skip_outputs (plain r) (some (ci, i)) 0 c.comps
  pub by_any :
      1
      ≤ skip_outputs (plain r) (some (ci, i)) 0 c.comps
        + skip_outputs (shareable r) (some (ci, i)) 0 c.comps

scan_outputs-Taken :
    (me : Option (ℕ × ℕ)) (tri : Bool) (r ci : ℕ) (cs : List Component) (found : List Driver)
    (other : ℕ)
    → scan_outputs me tri r ci cs found ≡ clash other
    → (tri ≡ true → 1 ≤ skip_outputs (plain r) me ci cs)
      × (1 ≤ skip_outputs (plain r) me ci cs + skip_outputs (shareable r) me ci cs)
unfolding scan_outputs
scan_outputs-Taken me tri r ci [] found other h = cc
scan_outputs-Taken me tri r ci (c ∷ cs) found other h =
    elim (Scan-cases (scan_pins me tri r ci c.ref c.id 0 c.outputs found)) [
      | inl (id, refused) ↦
          let (a, b) = scan_pins-Refuses me tri r ci c.ref c.id 0 c.outputs found id refused in
          (λ t. omega (arith, a t), omega (arith, b))
      | inr (more, e) ↦
          let (a, b) = scan_outputs-Taken me tri r (suc ci) cs more other (ground arith) in
          (λ t. omega (arith, a t), omega (arith, b))
    ]

-- The pin that `connect` was asked for.
pub record Asked (ci name : ℕ) (c : Circuit) (at : Place) (p : Pin) : Type 0 where
  pub comp : Component
  pub comp_at : get_elem? c.comps ci ≡ some comp
  pub pin_found : find_pin name comp ≡ some at
  pub pin_there : pin_at comp at ≡ some p

pub record Lands (ci r : ℕ) (at : Place) (p : Pin) (c : Circuit) : Type 0 where
  pub comp : Component
  pub comp_at : get_elem? c.comps ci ≡ some comp
  pub pin_there : pin_at comp at ≡ some (with_net (some r) p)

attach-Lands :
    (ci name : ℕ) (comp : Component) (at : Place) (p q : Pin) (n : Net) (ds : List Driver)
    (c : Circuit)
    → get_elem? c.comps ci ≡ some comp
    → pin_at comp at ≡ some q
    → with_net (some n.ref) q ≡ with_net (some n.ref) p
    → Lands ci n.ref at p (attach ci name at n ds c)
unfolding attach
attach-Lands ci name comp at p q n ds c hc hq same =
    rw (hc, hq, attach)
      (record {
        comp = set_pin at (with_net (some n.ref) q) comp;
        comp_at = entry-set c.comps ci comp (set_pin at (with_net (some n.ref) q) comp) hc;
        pin_there = pin_at-set_pin comp at q (with_net (some n.ref) q) hq ∙ ap some same;
      })

rejoin-Lands :
    (ci name : ℕ) (comp : Component) (at : Place) (p : Pin) (y : ℕ) (n : Net) (ds : List Driver)
    (c : Circuit)
    → get_elem? c.comps ci ≡ some comp
    → find_pin name comp ≡ some at
    → pin_at comp at ≡ some p
    → p.net ≡ some y
    → Lands ci n.ref at p (attach ci name at n ds (disconnect ci name c))
rejoin-Lands ci name comp at p y n ds c hc found hp on =
    let (comps_now, nets_now) = disconnected ci name comp at p y c hc found hp on in
    let comp' = set_pin at (with_net none p) comp in
    let hc' : get_elem? (disconnect ci name c).comps ci ≡ some comp' =
      ap (λ cs. get_elem? cs ci) comps_now ∙ entry-set c.comps ci comp comp' hc in
    attach-Lands ci name comp' at p (with_net none p) n ds (disconnect ci name c) hc'
      (pin_at-set_pin comp at p (with_net none p) hp) refl

-- What the result of `connect` may be.
pub data Outcome (ci name r : ℕ) (c : Circuit) : Circuit × ErrorCode → Type 0 where
  foreign_net : find_ref r c.nets ≡ none → Outcome ci name r c (c, invalid_net)
  no_pin :
      ((at : Place) (p : Pin) → ¬ Asked ci name c at p) → Outcome ci name r c (c, pin_not_found)
  taken :
      (i : ℕ) (p : Pin) (other : ℕ)
      → Asked ci name c (output i) p
      → IsTaken c ci i p.tri_state r
      → Outcome ci name r c (c, multiple_drivers other)
  landed :
      (at : Place) (p : Pin) (c' : Circuit)
      → Asked ci name c at p
      → Lands ci r at p c'
      → Outcome ci name r c (c', ok)

-- A pin that is asked for rules out the early returns.
no_component :
    (ci name : ℕ) (c : Circuit)
    → get_elem? c.comps ci ≡ none
    → (at : Place) (p : Pin) → ¬ Asked ci name c at p
no_component ci name c missing at p asked = let both = sym missing ∙ asked.comp_at in cc

no_such_pin :
    (ci name : ℕ) (comp : Component) (c : Circuit)
    → get_elem? c.comps ci ≡ some comp
    → find_pin name comp ≡ none
    → (at : Place) (p : Pin) → ¬ Asked ci name c at p
no_such_pin ci name comp c hc missing at p asked =
    let both = sym hc ∙ asked.comp_at in
    let same : comp ≡ asked.comp = ground (arith, both) in
    let clash = sym missing ∙ ap (find_pin name) same ∙ asked.pin_found in cc

no_such_place :
    (ci name : ℕ) (comp : Component) (at' : Place) (c : Circuit)
    → get_elem? c.comps ci ≡ some comp
    → find_pin name comp ≡ some at'
    → pin_at comp at' ≡ none
    → (at : Place) (p : Pin) → ¬ Asked ci name c at p
no_such_place ci name comp at' c hc found missing at p asked =
    let both = sym hc ∙ asked.comp_at in
    let same : comp ≡ asked.comp = ground (arith, both) in
    let same_place : some at' ≡ some at = sym found ∙ ap (find_pin name) same ∙ asked.pin_found in
    let place : at' ≡ at = ground (arith, same_place) in
    let clash : none ≡ some p =
      sym missing ∙ ap (λ x. pin_at comp x) place ∙ ap (λ x. pin_at x at) same ∙ asked.pin_there in
    cc

refused_at :
    (ci name : ℕ) (comp : Component) (at : Place) (p : Pin) (n : Net) (c : Circuit) (other : ℕ)
    → get_elem? c.comps ci ≡ some comp
    → find_pin name comp ≡ some at
    → pin_at comp at ≡ some p
    → scan_at ci at p n.ref c ≡ clash other
    → Outcome ci name n.ref c (c, multiple_drivers other)
refused_at ci name comp (input i) p n c other hc found hp e = cc
refused_at ci name comp (output i) p n c other hc found hp e =
    let (a, b) = scan_outputs-Taken (some (ci, i)) p.tri_state n.ref 0 c.comps [] other e in
    taken i p other (record { comp = comp; comp_at = hc; pin_found = found; pin_there = hp })
      (record { by_plain = a; by_any = b })

accepted_at :
    (ci name : ℕ) (comp : Component) (at : Place) (p : Pin) (n : Net) (ds : List Driver)
    (c : Circuit)
    → get_elem? c.comps ci ≡ some comp
    → find_pin name comp ≡ some at
    → pin_at comp at ≡ some p
    → Outcome ci name n.ref c (
      attach ci name at n ds
          (if is_connected comp at && not (on_net n.ref p.net) then disconnect ci name c else c),
      ok,
    )
accepted_at ci name comp at p n ds c hc found hp =
    let asked : Asked ci name c at p = record {
      comp = comp;
      comp_at = hc;
      pin_found = found;
      pin_there = hp;
    } in
    elim (Bool-cases (is_connected comp at && not (on_net n.ref p.net))) [
      | inr stays ↦ rw stays (
          landed at p (attach ci name at n ds c) asked
            (attach-Lands ci name comp at p p n ds c hc hp refl))
      | inl leaves ↦ elim (Option-cases p.net) [
        | inl free ↦
            let off = free_lem comp at p hp free in
            let impossible : ⊥ = ground arith in elim impossible [ ]
        | inr (y, on) ↦ rw leaves (
            landed at p (attach ci name at n ds (disconnect ci name c)) asked
              (rejoin-Lands ci name comp at p y n ds c hc found hp on))
      ]
    ]

-- `connect` leaves the circuit as it is and reports an invalid net if the net is not the circuit's,
-- a missing pin only if the component has no such pin, and multiple drivers only if an output that
-- cannot share the net is on it; otherwise the pin that was asked for is on the net.
pub connect-Outcome :
    (ci name r : ℕ) (c : Circuit) → Outcome ci name r c (connect (some ci) name (some r) c)
unfolding connect
connect-Outcome ci name r c = elim (Option-cases (find_ref r c.nets)) [
  | inl foreign ↦ rw (foreign, connect) (foreign_net foreign)
  | inr (n, hn) ↦
      let same = (find_ref-InRefs r c.nets n hn).0 in
      elim (Option-cases (get_elem? c.comps ci)) [
        | inl missing ↦ rw (hn, missing, connect) (no_pin (no_component ci name c missing))
        | inr (comp, hc) ↦ elim (Option-cases (find_pin name comp)) [
          | inl missing ↦
              rw (hn, hc, missing, connect) (no_pin (no_such_pin ci name comp c hc missing))
          | inr (at, found) ↦ elim (Option-cases (pin_at comp at)) [
            | inl missing ↦
                rw (hn, hc, found, missing, connect)
                  (no_pin (no_such_place ci name comp at c hc found missing))
            | inr (p, hp) ↦ elim (Scan-cases (scan_at ci at p n.ref c)) [
              | inl (other, refused) ↦
                  rw (hn, hc, found, hp, refused, connect)
                    (subst (λ x. Outcome ci name x c (c, multiple_drivers other)) same
                      (refused_at ci name comp at p n c other hc found hp refused))
              | inr (ds, passed) ↦
                  rw (hn, hc, found, hp, passed, connect)
                    (subst
                      (λ x. Outcome ci name x c (
                        attach ci name at n ds (
                            if is_connected comp at && not (on_net n.ref p.net)
                            then disconnect ci name c
                            else c),
                        ok,
                      ))
                      same (accepted_at ci name comp at p n ds c hc found hp))
            ]
          ]
        ]
      ]
]
