-- ===== src/Netlist/Widths.antt =====
-- The width of a net is that of its widest pin, whether it is raised pin by pin or recomputed.
use digital_circuit_simulati.Prelude.{
  ℕ, zero, suc, ◌≤◌, ◌≡◌, refl, sym, ap, subst, ◌∙◌, max, Option, none, some, List, [], ◌∷◌, arith,
}
use digital_circuit_simulati.Prelude.{if◌then◌else◌, get_elem?, set}
use digital_circuit_simulati.Netlist.{
  Pin, Component, Net, Place, input, output, pin_at, set_pin, widen, reset_widths, widen_pins,
  widen_all,
}
use digital_circuit_simulati.Netlist.Edit.{on_net}

-- The width that a pin asks of a net.
abbrev pub reach : ℕ → Pin → ℕ
reach r p = if on_net r p.net then p.width else 0

abbrev pub widest_pin : ℕ → List Pin → ℕ
widest_pin r [] = 0
widest_pin r (p ∷ ps) = max (reach r p) (widest_pin r ps)

abbrev pub widest : ℕ → List Component → ℕ
widest r [] = 0
widest r (c ∷ cs) = max (max (widest_pin r c.inputs) (widest_pin r c.outputs)) (widest r cs)

-- Every net is as wide as its widest pin.
abbrev pub Exact : List Component → List Net → Type 0
Exact cs [] = Unit
Exact cs (n ∷ ns) = (n.width ≡ widest n.ref cs) × Exact cs ns

-- Every net is raised by an amount that depends on the net.
abbrev pub raise : (ℕ → ℕ) → List Net → List Net
raise f [] = []
raise f (n ∷ ns) = record n { width = max n.width (f n.ref) } ∷ raise f ns

raise-raise :
    (f g h : ℕ → ℕ) (ns : List Net)
    → ((r : ℕ) → max (f r) (g r) ≡ h r)
    → raise g (raise f ns) ≡ raise h ns
raise-raise f g h [] e = refl
raise-raise f g h (n ∷ ns) e =
    let wide : max (max n.width (f n.ref)) (g n.ref) ≡ max n.width (h n.ref) =
      omega (arith, e n.ref) in
    rw wide (ap (λ t. record n { width = max n.width (h n.ref) } ∷ t) (raise-raise f g h ns e))

raise_zero : (f : ℕ → ℕ) (ns : List Net) → ((r : ℕ) → f r ≡ 0) → raise f ns ≡ ns
raise_zero f [] e = refl
raise_zero f (n ∷ ns) e =
    let same : max n.width (f n.ref) ≡ n.width = omega (arith, e n.ref) in
    rw same (ap (λ t. n ∷ t) (raise_zero f ns e))

pub widen-raise : (p : Pin) (ns : List Net) → widen p.net p.width ns ≡ raise (λ r. reach r p) ns
widen-raise p ns = by_net p.net p.width ns
  where
    by_net :
        (net : Option ℕ) (w : ℕ) (ns : List Net)
        → widen net w ns ≡ raise (λ r. if on_net r net then w else 0) ns
    by_net none w ns = sym (raise_zero (λ r. 0) ns (λ r. refl))
    by_net (some x) w [] = refl
    by_net (some x) w (n ∷ ns) = ground (arith, by_net (some x) w ns)

widen_pins-raise :
    (ps : List Pin) (ns : List Net) → widen_pins ps ns ≡ raise (λ r. widest_pin r ps) ns
unfolding widen_pins
widen_pins-raise [] ns = sym (raise_zero (λ r. 0) ns (λ r. refl))
widen_pins-raise (p ∷ ps) ns =
    ap (widen_pins ps) (widen-raise p ns)
    ∙ widen_pins-raise ps (raise (λ r. reach r p) ns)
    ∙ raise-raise (λ r. reach r p) (λ r. widest_pin r ps) (λ r. widest_pin r (p ∷ ps)) ns
        (λ r. refl)

pub widen_all-raise :
    (cs : List Component) (ns : List Net) → widen_all cs ns ≡ raise (λ r. widest r cs) ns
unfolding widen_all
widen_all-raise [] ns = sym (raise_zero (λ r. 0) ns (λ r. refl))
widen_all-raise (c ∷ cs) ns =
    ap (λ t. widen_all cs (widen_pins c.outputs t)) (widen_pins-raise c.inputs ns)
    ∙ ap (widen_all cs) (widen_pins-raise c.outputs (raise (λ r. widest_pin r c.inputs) ns))
    ∙ widen_all-raise cs
        (raise (λ r. widest_pin r c.outputs) (raise (λ r. widest_pin r c.inputs) ns))
    ∙ ap (raise (λ r. widest r cs)) (
        raise-raise (λ r. widest_pin r c.inputs) (λ r. widest_pin r c.outputs)
          (λ r. max (widest_pin r c.inputs) (widest_pin r c.outputs)) ns (λ r. refl))
    ∙ raise-raise (λ r. max (widest_pin r c.inputs) (widest_pin r c.outputs)) (λ r. widest r cs)
        (λ r. widest r (c ∷ cs)) ns (λ r. refl)

reset-Exact :
    (cs : List Component) (ns : List Net) → Exact cs (raise (λ r. widest r cs) (reset_widths ns))
reset-Exact cs [] = tt
reset-Exact cs (n ∷ ns) = (omega arith, reset-Exact cs ns)

pub recomputed-Exact :
    (cs : List Component) (ns : List Net) → Exact cs (widen_all cs (reset_widths ns))
recomputed-Exact cs ns =
    subst (Exact cs) (sym (widen_all-raise cs (reset_widths ns))) (reset-Exact cs ns)

-- A pin that grows its claim on a net.
widest_pin-set :
    (r : ℕ) (ps : List Pin) (i : ℕ) (p p' : Pin)
    → get_elem? ps i ≡ some p
    → reach r p ≤ reach r p'
    → widest_pin r (set ps i p') ≡ max (widest_pin r ps) (reach r p')
widest_pin-set r [] i p p' h le = cc
widest_pin-set r (q ∷ ps) zero p p' h le =
    let found : q ≡ p = ground arith in
    let same : reach r q ≡ reach r p = ap (reach r) found in omega (arith, same, le)
widest_pin-set r (q ∷ ps) (suc i) p p' h le = omega (arith, widest_pin-set r ps i p p' h le)

widest_pin-set_pin :
    (r : ℕ) (c : Component) (at : Place) (p p' : Pin)
    → pin_at c at ≡ some p
    → reach r p ≤ reach r p'
    → max (widest_pin r (set_pin at p' c).inputs) (widest_pin r (set_pin at p' c).outputs)
      ≡ max (max (widest_pin r c.inputs) (widest_pin r c.outputs)) (reach r p')
widest_pin-set_pin r c (input i) p p' h le = omega (arith, widest_pin-set r c.inputs i p p' h le)
widest_pin-set_pin r c (output i) p p' h le = omega (arith, widest_pin-set r c.outputs i p p' h le)

pub widest-set :
    (r : ℕ) (cs : List Component) (ci : ℕ) (c : Component) (at : Place) (p p' : Pin)
    → get_elem? cs ci ≡ some c
    → pin_at c at ≡ some p
    → reach r p ≤ reach r p'
    → widest r (set cs ci (set_pin at p' c)) ≡ max (widest r cs) (reach r p')
widest-set r [] ci c at p p' hc hp le = cc
widest-set r (d ∷ cs) zero c at p p' hc hp le =
    let same : d ≡ c = ground arith in
    let here = widest_pin-set_pin r c at p p' hp le in rw same (omega (arith, here))
widest-set r (d ∷ cs) (suc ci) c at p p' hc hp le =
    omega (arith, widest-set r cs ci c at p p' hc hp le)

-- Raising one net by the width of the pin that joins it gives what a recomputation would.
pub joined-Exact :
    (cs : List Component) (ci : ℕ) (c : Component) (at : Place) (p p' : Pin) (ns : List Net)
    → get_elem? cs ci ≡ some c
    → pin_at c at ≡ some p
    → ((r : ℕ) → reach r p ≤ reach r p')
    → Exact cs ns
    → Exact (set cs ci (set_pin at p' c)) (widen p'.net p'.width ns)
joined-Exact cs ci c at p p' ns hc hp le h =
    subst (Exact (set cs ci (set_pin at p' c))) (sym (widen-raise p' ns)) (raised ns h)
  where
    raised :
        (ns : List Net)
        → Exact cs ns
        → Exact (set cs ci (set_pin at p' c)) (raise (λ r. reach r p') ns)
    raised [] h = tt
    raised (n ∷ ns) (e, h) =
        (omega (arith, e, widest-set n.ref cs ci c at p p' hc hp (le n.ref)), raised ns h)
