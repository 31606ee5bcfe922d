-- ===== src/Netlist/Removed.antt =====
-- `disconnectAll` and the removals keep a circuit sound.
use digital_circuit_simulati.Prelude.{
  ℕ, zero, suc, ◌≤◌, ◌≡◌, ◌≢◌, refl, sym, ap, subst, ◌∙◌, inl, inr, true, false, ◌||◌, none, some,
  List, [], ◌∷◌, ◌++◌, arith,
}
use digital_circuit_simulati.Prelude.{
  ◌==◌, if◌then◌else◌, length, get_elem?, Bool-cases, Option-cases, ℕ_discrete,
}
use digital_circuit_simulati.Netlist.{
  Pin, Component, Net, Circuit, Place, input, output, with_net, find_ref, erase,
  recompute_net_widths,
}
use digital_circuit_simulati.Netlist.Edit.{
  on_net, detach_pin, detach_at, detach_list, places, count_up, any_connected, disconnect_all,
}
use digital_circuit_simulati.Netlist.Remove.{
  erase_at, remove_component, clear_pins, clear_net, erase_net, renumber, renumber_buses,
  remove_net,
}
use digital_circuit_simulati.Netlist.Counts.{plain, shareable, total, total_outputs}
use digital_circuit_simulati.Netlist.Invariant.{
  Numbered, InRefs, OwnNet, OwnPins, OwnAll, IsSound, recompute-IsSound, fewer-Single,
  detach_list-IsShaped,
}

-- Flags are no part of the invariant.
pub uncompiled-IsSound : (c : Circuit) → IsSound c → IsSound (record c { compiled = false })
uncompiled-IsSound c h = record {
  shaped = record { ids = h.shaped.ids; own_nets = h.shaped.own_nets; single = h.shaped.single };
  widths = h.widths;
}

-- A component without a connected pin is left as it is.
free_pin :
    (ps : List Pin) (i : ℕ) (p : Pin)
    → any_connected ps ≡ false
    → get_elem? ps i ≡ some p
    → p.net ≡ none
free_pin [] i p free h = cc
free_pin (q ∷ ps) zero p free h =
    let same : q ≡ p = ground arith in
    elim (Option-cases q.net) [
      | inl none_here ↦ ap (λ x. x.net) (sym same) ∙ none_here
      | inr (r, on) ↦ let wrong : true ≡ false = sym (rw (on, any_connected) refl) ∙ free in cc
    ]
free_pin (q ∷ ps) (suc i) p free h = free_pin ps i p (ground arith) h

detach_free :
    (ci : ℕ) (comp : Component) (at : Place) (c : Circuit)
    → any_connected comp.outputs ≡ false
    → any_connected comp.inputs ≡ false
    → detach_pin ci comp at c ≡ c
unfolding detach_pin
detach_free ci comp (input i) c outs ins = elim (Option-cases (get_elem? comp.inputs i)) [
  | inl missing ↦ rw (missing, detach_pin) refl
  | inr (p, h) ↦ let free = free_pin comp.inputs i p ins h in rw (h, free, detach_pin) refl
]
detach_free ci comp (output i) c outs ins = elim (Option-cases (get_elem? comp.outputs i)) [
  | inl missing ↦ rw (missing, detach_pin) refl
  | inr (p, h) ↦ let free = free_pin comp.outputs i p outs h in rw (h, free, detach_pin) refl
]

detach_list_free :
    (ci : ℕ) (ats : List Place) (comp : Component) (c : Circuit)
    → get_elem? c.comps ci ≡ some comp
    → any_connected comp.outputs ≡ false
    → any_connected comp.inputs ≡ false
    → detach_list ci ats c ≡ c
unfolding detach_list detach_at
detach_list_free ci [] comp c hc outs ins = refl
detach_list_free ci (at ∷ ats) comp c hc outs ins =
    let here : detach_at ci at c ≡ c = rw (hc, detach_at) (detach_free ci comp at c outs ins) in
    ap (detach_list ci ats) here ∙ detach_list_free ci ats comp c hc outs ins

pub disconnect_all-IsSound : (ci : ℕ) (c : Circuit) → IsSound c → IsSound (disconnect_all ci c)
unfolding disconnect_all
disconnect_all-IsSound ci c h = elim (Option-cases (get_elem? c.comps ci)) [
  | inl missing ↦ rw (missing, disconnect_all) h
  | inr (comp, hc) ↦
      let ats =
        places output (count_up 0 (length comp.outputs))
        ++ places input (count_up 0 (length comp.inputs)) in
      elim (Bool-cases (any_connected comp.outputs || any_connected comp.inputs)) [
        | inl some_on ↦
            rw (hc, some_on, disconnect_all)
              (uncompiled-IsSound (recompute_net_widths (detach_list ci ats c))
                (recompute-IsSound (detach_list ci ats c) (detach_list-IsShaped ci ats c h.shaped)))
        | inr free ↦
            let same = detach_list_free ci ats comp c hc (ground arith) (ground arith) in
            rw (hc, free, disconnect_all) (subst IsSound (sym same) h)
      ]
]

-- A component is erased.
erase_at-OwnAll :
    (ns : List Net) (i : ℕ) (cs : List Component) → OwnAll ns cs → OwnAll ns (erase_at i cs)
erase_at-OwnAll ns i [] h = tt
erase_at-OwnAll ns zero (c ∷ cs) (a, b, h) = h
erase_at-OwnAll ns (suc i) (c ∷ cs) (a, b, h) = (a, b, erase_at-OwnAll ns i cs h)

erase_at_total :
    (f : Pin → ℕ) (i : ℕ) (cs : List Component)
    → total_outputs f (erase_at i cs) ≤ total_outputs f cs
erase_at_total f i [] = omega arith
erase_at_total f zero (c ∷ cs) = omega arith
erase_at_total f (suc i) (c ∷ cs) = omega (arith, erase_at_total f i cs)

pub remove_component-IsSound : (ci : ℕ) (c : Circuit) → IsSound c → IsSound (remove_component ci c)
unfolding remove_component
remove_component-IsSound ci c h =
    let d = disconnect_all ci c in
    let s = disconnect_all-IsSound ci c h in
    let left = record d { comps = erase_at ci d.comps } in
    uncompiled-IsSound (recompute_net_widths left) (
      recompute-IsSound left (record {
        ids = s.shaped.ids;
        own_nets = erase_at-OwnAll d.nets ci d.comps s.shaped.own_nets;
        single =
            fewer-Single d.comps (erase_at ci d.comps)
              (λ r. (erase_at_total (plain r) ci d.comps, erase_at_total (shareable r) ci d.comps))
              s.shaped.single;
      }))

-- A net is removed: the pins on it are free, and the other nets are kept under new ids.
renumber-Numbered : (i : ℕ) (ns : List Net) → Numbered i (renumber i ns)
renumber-Numbered i [] = tt
renumber-Numbered i (n ∷ ns) = (refl, renumber-Numbered (suc i) ns)

renumber-InRefs : (x i : ℕ) (ns : List Net) → InRefs x ns → InRefs x (renumber i ns)
renumber-InRefs x i [] h = h
renumber-InRefs x i (n ∷ ns) (inl e) = inl e
renumber-InRefs x i (n ∷ ns) (inr h) = inr (renumber-InRefs x (suc i) ns h)

erase_net-InRefs : (r x : ℕ) (ns : List Net) → x ≢ r → InRefs x ns → InRefs x (erase_net r ns)
erase_net-InRefs r x [] ne h = h
erase_net-InRefs r x (n ∷ ns) ne h = elim (Bool-cases (n.ref == r)) [
  | inl gone ↦ rw gone (elim h [ inl e ↦ ground arith | inr later ↦ later ])
  | inr kept ↦
      rw kept (elim h [ inl e ↦ inl e | inr later ↦ inr (erase_net-InRefs r x ns ne later) ])
]

module _ (r : ℕ) (ns ns' : List Net) (kept : (x : ℕ) → x ≢ r → InRefs x ns → InRefs x ns') where
  clear_net-OwnNet :
      (p : Pin) → OwnNet ns p.net → OwnNet ns' (if on_net r p.net then with_net none p else p).net
  clear_net-OwnNet p h = elim (Option-cases p.net) [
    | inl free ↦ rw (free, on_net) tt
    | inr (x, on) ↦ elim (ℕ_discrete x r) [
      | yes same ↦ let test : on_net r p.net ≡ true = ap (on_net r) on ∙ ground arith in rw test tt
      | no other ↦
          let test : on_net r p.net ≡ false = ap (on_net r) on ∙ ground arith in
          rw test (subst (OwnNet ns') (sym on) (kept x other (subst (OwnNet ns) on h)))
    ]
  ]

  clear_pins-OwnPins : (ps : List Pin) → OwnPins ns ps → OwnPins ns' (clear_pins r ps)
  clear_pins-OwnPins [] h = tt
  clear_pins-OwnPins (p ∷ ps) (a, h) = (clear_net-OwnNet p a, clear_pins-OwnPins ps h)

  clear_net-OwnAll : (cs : List Component) → OwnAll ns cs → OwnAll ns' (clear_net r cs)
  clear_net-OwnAll [] h = tt
  clear_net-OwnAll (c ∷ cs) (a, b, h) =
      (clear_pins-OwnPins c.inputs a, clear_pins-OwnPins c.outputs b, clear_net-OwnAll cs h)

clear_total :
    (f : Pin → ℕ) (r : ℕ)
    → ((p : Pin) → f (with_net none p) ≡ 0)
    → (cs : List Component) → total_outputs f (clear_net r cs) ≤ total_outputs f cs
clear_total f r zero_now [] = omega arith
clear_total f r zero_now (c ∷ cs) = omega (arith, pins c.outputs, clear_total f r zero_now cs)
  where
    pin : (p : Pin) → f (if on_net r p.net then with_net none p else p) ≤ f p
    pin p = elim (Bool-cases (on_net r p.net)) [
      | inl gone ↦ rw gone (omega (arith, zero_now p))
      | inr kept ↦ rw kept (omega arith)
    ]

    pins : (ps : List Pin) → total f (clear_pins r ps) ≤ total f ps
    pins [] = omega arith
    pins (p ∷ ps) = omega (arith, pin p, pins ps)

pub remove_net-IsSound : (r : ℕ) (c : Circuit) → IsSound c → IsSound (remove_net r c)
unfolding remove_net
remove_net-IsSound r c h = elim (Option-cases (find_ref r c.nets)) [
  | inl foreign ↦ rw (foreign, remove_net) h
  | inr (n, found) ↦
      let left = erase_net r c.nets in
      let d = record c {
        comps = clear_net r c.comps;
        nets = renumber 0 left;
        buses = renumber_buses 0 left (erase n.id c.buses);
      } in
      rw (found, remove_net)
        (uncompiled-IsSound (recompute_net_widths d) (
          recompute-IsSound d (record {
            ids = renumber-Numbered 0 left;
            own_nets =
                clear_net-OwnAll r c.nets (renumber 0 left)
                  (λ x ne there. renumber-InRefs x 0 left (erase_net-InRefs r x c.nets ne there))
                  c.comps h.shaped.own_nets;
            single =
                fewer-Single c.comps (clear_net r c.comps)
                  (λ x. (
                    clear_total (plain x) r (λ p. ground arith) c.comps,
                    clear_total (shareable x) r (λ p. ground arith) c.comps,
                  ))
                  h.shaped.single;
          })))
]
