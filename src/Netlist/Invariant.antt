-- ===== src/Netlist/Invariant.antt =====
-- What holds of a circuit between two editing operations, and what detaching a pin keeps of it.
use digital_circuit_simulati.Prelude.{
  ℕ, zero, suc, ◌+◌, ◌≤◌, ◌≡◌, refl, sym, subst, ◌⊎◌, inl, inr, Option, none, some, List, [], ◌∷◌,
  arith,
}
use digital_circuit_simulati.Prelude.{get_elem?, set, Option-cases}
use digital_circuit_simulati.Netlist.{
  Pin, Component, Net, Circuit, Place, input, output, pin_at, with_net, set_pin, reset_widths,
  widen, widen_all, recompute_net_widths,
}
use digital_circuit_simulati.Netlist.Edit.{detach_pin, detach_at, detach_list}
use digital_circuit_simulati.Netlist.Counts.{plain, shareable, total_outputs, own, replace_pin}
use digital_circuit_simulati.Netlist.Widths.{
  raise, Exact, reach, widen-raise, widen_all-raise, recomputed-Exact, widest,
}

-- `_w` is indexed by net ids: the ids are the positions.
abbrev pub Numbered : ℕ → List Net → Type 0
Numbered i [] = Unit
Numbered i (n ∷ ns) = (n.id ≡ i) × Numbered (suc i) ns

-- A pin is free or on a net of the circuit.
abbrev pub InRefs : ℕ → List Net → Type 0
InRefs r [] = ⊥
InRefs r (n ∷ ns) = (n.ref ≡ r) ⊎ InRefs r ns

abbrev pub OwnNet : List Net → Option ℕ → Type 0
OwnNet ns none = Unit
OwnNet ns (some r) = InRefs r ns

abbrev pub OwnPins : List Net → List Pin → Type 0
OwnPins ns [] = Unit
OwnPins ns (p ∷ ps) = OwnNet ns p.net × OwnPins ns ps

abbrev pub OwnAll : List Net → List Component → Type 0
OwnAll ns [] = Unit
OwnAll ns (c ∷ cs) = OwnPins ns c.inputs × OwnPins ns c.outputs × OwnAll ns cs

-- An output that is not tri-state has its net to itself.
abbrev pub Single : List Component → Type 0
Single cs =
    (r : ℕ)
    → 1 ≤ total_outputs (plain r) cs
    → total_outputs (plain r) cs + total_outputs (shareable r) cs ≤ 1

pub record IsShaped (c : Circuit) : Type 0 where
  pub ids : Numbered 0 c.nets
  pub own_nets : OwnAll c.nets c.comps
  pub single : Single c.comps

pub record IsSound (c : Circuit) : Type 0 where
  pub shaped : IsShaped c
  pub widths : Exact c.comps c.nets

-- Widths are no part of the shape.
raise-Numbered : (f : ℕ → ℕ) (i : ℕ) (ns : List Net) → Numbered i ns → Numbered i (raise f ns)
raise-Numbered f i [] h = tt
raise-Numbered f i (n ∷ ns) (e, h) = (e, raise-Numbered f (suc i) ns h)

reset-Numbered : (i : ℕ) (ns : List Net) → Numbered i ns → Numbered i (reset_widths ns)
reset-Numbered i [] h = tt
reset-Numbered i (n ∷ ns) (e, h) = (e, reset-Numbered (suc i) ns h)

raise-InRefs : (f : ℕ → ℕ) (r : ℕ) (ns : List Net) → InRefs r ns → InRefs r (raise f ns)
raise-InRefs f r (n ∷ ns) (inl e) = inl e
raise-InRefs f r (n ∷ ns) (inr h) = inr (raise-InRefs f r ns h)
raise-InRefs f r [] h = h

pub reset-InRefs : (r : ℕ) (ns : List Net) → InRefs r ns → InRefs r (reset_widths ns)
reset-InRefs r (n ∷ ns) (inl e) = inl e
reset-InRefs r (n ∷ ns) (inr h) = inr (reset-InRefs r ns h)
reset-InRefs r [] h = h

module _ (ns ns' : List Net) (kept : (r : ℕ) → InRefs r ns → InRefs r ns') where
  OwnNet-kept : (net : Option ℕ) → OwnNet ns net → OwnNet ns' net
  OwnNet-kept none h = tt
  OwnNet-kept (some r) h = kept r h

  OwnPins-kept : (ps : List Pin) → OwnPins ns ps → OwnPins ns' ps
  OwnPins-kept [] h = tt
  OwnPins-kept (p ∷ ps) (a, h) = (OwnNet-kept p.net a, OwnPins-kept ps h)

  pub OwnAll-kept : (cs : List Component) → OwnAll ns cs → OwnAll ns' cs
  OwnAll-kept [] h = tt
  OwnAll-kept (c ∷ cs) (a, b, h) =
      (OwnPins-kept c.inputs a, OwnPins-kept c.outputs b, OwnAll-kept cs h)

pub widen_all-Numbered :
    (cs : List Component) (ns : List Net) → Numbered 0 ns → Numbered 0 (widen_all cs ns)
widen_all-Numbered cs ns h =
    subst (Numbered 0) (sym (widen_all-raise cs ns)) (raise-Numbered (λ r. widest r cs) 0 ns h)

pub widen_all-InRefs :
    (cs : List Component) (ns : List Net) (r : ℕ) → InRefs r ns → InRefs r (widen_all cs ns)
widen_all-InRefs cs ns r h =
    subst (InRefs r) (sym (widen_all-raise cs ns)) (raise-InRefs (λ r. widest r cs) r ns h)

-- A recomputation of the widths makes a well-shaped circuit sound.
pub recompute-IsSound : (c : Circuit) → IsShaped c → IsSound (recompute_net_widths c)
unfolding recompute_net_widths
recompute-IsSound c h = record {
  shaped = record {
    ids = widen_all-Numbered c.comps (reset_widths c.nets) (reset-Numbered 0 c.nets h.ids);
    own_nets =
        OwnAll-kept c.nets (widen_all c.comps (reset_widths c.nets))
          (λ r k. widen_all-InRefs c.comps (reset_widths c.nets) r (reset-InRefs r c.nets k))
          c.comps h.own_nets;
    single = h.single;
  };
  widths = recomputed-Exact c.comps c.nets;
}

-- A pin of the circuit is replaced.
OwnPins-set :
    (ns : List Net) (ps : List Pin) (i : ℕ) (p : Pin)
    → OwnNet ns p.net
    → OwnPins ns ps
    → OwnPins ns (set ps i p)
OwnPins-set ns [] i p a h = tt
OwnPins-set ns (q ∷ ps) zero p a (b, h) = (a, h)
OwnPins-set ns (q ∷ ps) (suc i) p a (b, h) = (b, OwnPins-set ns ps i p a h)

pub OwnAll-set :
    (ns : List Net) (cs : List Component) (ci : ℕ) (c : Component) (at : Place) (p : Pin)
    → get_elem? cs ci ≡ some c
    → OwnNet ns p.net
    → OwnAll ns cs
    → OwnAll ns (set cs ci (set_pin at p c))
OwnAll-set ns [] ci c at p e a h = tt
OwnAll-set ns (d ∷ cs) zero c (input i) p e a (ins, outs, h) =
    let same : d ≡ c = ground arith in
    subst (λ x. OwnPins ns (set x.inputs i p) × OwnPins ns x.outputs × OwnAll ns cs) same
      (OwnPins-set ns d.inputs i p a ins, outs, h)
OwnAll-set ns (d ∷ cs) zero c (output i) p e a (ins, outs, h) =
    let same : d ≡ c = ground arith in
    subst (λ x. OwnPins ns x.inputs × OwnPins ns (set x.outputs i p) × OwnAll ns cs) same
      (ins, OwnPins-set ns d.outputs i p a outs, h)
OwnAll-set ns (d ∷ cs) (suc ci) c at p e a (ins, outs, h) =
    (ins, outs, OwnAll-set ns cs ci c at p e a h)

-- With no more outputs on any net than before, every net keeps its single driver.
pub fewer-Single :
    (cs cs' : List Component)
    → ((r : ℕ)
        → (total_outputs (plain r) cs' ≤ total_outputs (plain r) cs)
          × (total_outputs (shareable r) cs' ≤ total_outputs (shareable r) cs))
    → Single cs
    → Single cs'
fewer-Single cs cs' fewer h r some_plain =
    let (a, b) = fewer r in let before = h r (omega (arith, a)) in omega (arith, a, b, before)

pub own_free :
    (r : ℕ) (at : Place) (p : Pin)
    → (own (plain r) at (with_net none p) ≡ 0) × (own (shareable r) at (with_net none p) ≡ 0)
own_free r (input i) p = (refl, refl)
own_free r (output i) p = (ground arith, ground arith)

pub detach_pin-IsShaped :
    (ci : ℕ) (comp : Component) (at : Place) (c : Circuit)
    → get_elem? c.comps ci ≡ some comp
    → IsShaped c
    → IsShaped (detach_pin ci comp at c)
unfolding detach_pin
detach_pin-IsShaped ci comp at c hc h = elim (Option-cases (pin_at comp at)) [
  | inl missing ↦ rw (missing, detach_pin) h
  | inr (p, hp) ↦ elim (Option-cases p.net) [
    | inl free ↦ rw (hp, free, detach_pin) h
    | inr (r, on) ↦
        rw (hp, on, detach_pin)
          (record {
            ids = h.ids;
            own_nets = OwnAll-set c.nets c.comps ci comp at (with_net none p) hc tt h.own_nets;
            single =
                fewer-Single c.comps (set c.comps ci (set_pin at (with_net none p) comp))
                  (λ x. (
                    omega (
                      arith,
                      replace_pin (plain x) c.comps ci comp at p (with_net none p) hc hp,
                      (own_free x at p).0,
                    ),
                    omega (
                      arith,
                      replace_pin (shareable x) c.comps ci comp at p (with_net none p) hc hp,
                      (own_free x at p).1,
                    ),
                  ))
                  h.single;
          })
  ]
]

detach_at-IsShaped : (ci : ℕ) (at : Place) (c : Circuit) → IsShaped c → IsShaped (detach_at ci at c)
unfolding detach_at
detach_at-IsShaped ci at c h = elim (Option-cases (get_elem? c.comps ci)) [
  | inl missing ↦ rw (missing, detach_at) h
  | inr (comp, hc) ↦ rw (hc, detach_at) (detach_pin-IsShaped ci comp at c hc h)
]

pub detach_list-IsShaped :
    (ci : ℕ) (ats : List Place) (c : Circuit) → IsShaped c → IsShaped (detach_list ci ats c)
unfolding detach_list
detach_list-IsShaped ci [] c h = h
detach_list-IsShaped ci (at ∷ ats) c h =
    detach_list-IsShaped ci ats (detach_at ci at c) (detach_at-IsShaped ci at c h)

-- The net of one pin is raised.
pub widen-Numbered : (p : Pin) (ns : List Net) → Numbered 0 ns → Numbered 0 (widen p.net p.width ns)
widen-Numbered p ns h =
    subst (Numbered 0) (sym (widen-raise p ns)) (raise-Numbered (λ r. reach r p) 0 ns h)

pub widen-InRefs :
    (p : Pin) (ns : List Net) (r : ℕ) → InRefs r ns → InRefs r (widen p.net p.width ns)
widen-InRefs p ns r h =
    subst (InRefs r) (sym (widen-raise p ns)) (raise-InRefs (λ x. reach x p) r ns h)
