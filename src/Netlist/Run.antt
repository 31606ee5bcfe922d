-- ===== src/Netlist/Run.antt =====
-- Every circuit that the editing operations build is sound.
use digital_circuit_simulati.Prelude.{
  ℕ, suc, ◌+◌, ◌≡◌, refl, sym, ap, subst, ◌∙◌, inl, inr, false, Option, none, some, List, [], ◌∷◌,
  ◌++◌, arith,
}
use digital_circuit_simulati.Prelude.{◌==◌, length, Bool-cases, Option-cases}
use digital_circuit_simulati.Netlist.{
  Pin, Component, Net, Circuit, find_ref, next_id, add_component,
}
use digital_circuit_simulati.Netlist.Edit.{
  on_net, free_name, create_net, connect, disconnect, disconnect_all,
}
use digital_circuit_simulati.Netlist.Remove.{remove_component, remove_net}
use digital_circuit_simulati.Netlist.Counts.{plain, shareable, total, total_outputs}
use digital_circuit_simulati.Netlist.Widths.{reach, widest_pin, widest, Exact}
use digital_circuit_simulati.Netlist.Invariant.{
  Numbered, InRefs, OwnNet, OwnPins, OwnAll, IsSound, OwnAll-kept, fewer-Single,
}
use digital_circuit_simulati.Netlist.Connected.{connect-IsSound, disconnect-IsSound}
use digital_circuit_simulati.Netlist.Removed.{
  disconnect_all-IsSound, remove_component-IsSound, remove_net-IsSound,
}

abbrev pub FreePins : List Pin → Type 0
FreePins [] = Unit
FreePins (p ∷ ps) = (p.net ≡ none) × FreePins ps

abbrev pub empty_circuit : Circuit
empty_circuit = record { nets = []; comps = []; buses = []; compiled = false }

-- The circuits that come about from the empty one. A new net stands at an address that no net of
-- the circuit has, and a new component has no pin on a net.
pub data Built (suffixed : ℕ → ℕ) : Circuit → Type 0 where
  blank : Built suffixed empty_circuit
  created :
      {c c' : Circuit} (ref name : ℕ)
      → Built suffixed c
      → find_ref ref c.nets ≡ none
      → create_net suffixed ref name c ≡ some c'
      → Built suffixed c'
  added :
      {c : Circuit} (comp : Component)
      → Built suffixed c
      → FreePins comp.inputs
      → FreePins comp.outputs
      → Built suffixed (add_component comp c)
  connected :
      {c : Circuit} (ci : Option ℕ) (name : ℕ) (r : Option ℕ)
      → Built suffixed c
      → Built suffixed (connect ci name r c).0
  disconnected :
      {c : Circuit} (ci name : ℕ) → Built suffixed c → Built suffixed (disconnect ci name c)
  all_disconnected :
      {c : Circuit} (ci : ℕ) → Built suffixed c → Built suffixed (disconnect_all ci c)
  component_removed :
      {c : Circuit} (ci : ℕ) → Built suffixed c → Built suffixed (remove_component ci c)
  net_removed : {c : Circuit} (r : ℕ) → Built suffixed c → Built suffixed (remove_net r c)

-- A net at a new address has no pin.
absent : (r : ℕ) (ns : List Net) → find_ref r ns ≡ none → ¬ InRefs r ns
absent r [] h k = k
absent r (n ∷ ns) h (inl e) = ground arith
absent r (n ∷ ns) h (inr k) = absent r ns (ground arith) k

unreached : (r : ℕ) (ns : List Net) (p : Pin) → ¬ InRefs r ns → OwnNet ns p.net → reach r p ≡ 0
unreached r ns p none_there h = elim (Option-cases p.net) [
  | inl free ↦ rw (free, on_net) refl
  | inr (x, on) ↦ elim (Bool-cases (x == r)) [
    | inl same ↦
        let there : InRefs x ns = subst (OwnNet ns) on h in
        let impossible : ⊥ = none_there (subst (λ y. InRefs y ns) (ground arith) there) in
        elim impossible [ ]
    | inr other ↦ let test : on_net r p.net ≡ false = ap (on_net r) on ∙ other in rw test refl
  ]
]

unreached_pins :
    (r : ℕ) (ns : List Net) (ps : List Pin) → ¬ InRefs r ns → OwnPins ns ps → widest_pin r ps ≡ 0
unreached_pins r ns [] none_there h = refl
unreached_pins r ns (p ∷ ps) none_there (a, h) =
    omega (arith, unreached r ns p none_there a, unreached_pins r ns ps none_there h)

unreached_all :
    (r : ℕ) (ns : List Net) (cs : List Component) → ¬ InRefs r ns → OwnAll ns cs → widest r cs ≡ 0
unreached_all r ns [] none_there h = refl
unreached_all r ns (c ∷ cs) none_there (a, b, h) = omega (
  arith,
  unreached_pins r ns c.inputs none_there a,
  unreached_pins r ns c.outputs none_there b,
  unreached_all r ns cs none_there h,
)

-- A net is added at the end.
Numbered-snoc :
    (i : ℕ) (ns : List Net) (n : Net)
    → n.id ≡ i + length ns
    → Numbered i ns
    → Numbered i (ns ++ n ∷ [])
Numbered-snoc i [] n e h = (omega (arith, e), tt)
Numbered-snoc i (m ∷ ns) n e (a, h) = (a, Numbered-snoc (suc i) ns n (omega (arith, e)) h)

InRefs-append : (r : ℕ) (ns ms : List Net) → InRefs r ns → InRefs r (ns ++ ms)
InRefs-append r (n ∷ ns) ms (inl e) = inl e
InRefs-append r (n ∷ ns) ms (inr h) = inr (InRefs-append r ns ms h)
InRefs-append r [] ms h = elim h [ ]

Exact-snoc :
    (cs : List Component) (ns : List Net) (n : Net)
    → n.width ≡ widest n.ref cs
    → Exact cs ns
    → Exact cs (ns ++ n ∷ [])
Exact-snoc cs [] n e h = (e, tt)
Exact-snoc cs (m ∷ ns) n e (a, h) = (a, Exact-snoc cs ns n e h)

create_net-IsSound :
    (suffixed : ℕ → ℕ) (ref name : ℕ) (c c' : Circuit)
    → find_ref ref c.nets ≡ none
    → create_net suffixed ref name c ≡ some c'
    → IsSound c
    → IsSound c'
unfolding create_net
create_net-IsSound suffixed ref name c c' fresh e h =
    elim (Option-cases (free_name (length c.nets) suffixed name 2 c.nets)) [
      | inl taken ↦ let wrong : none ≡ some c' = sym (rw (taken, create_net) refl) ∙ e in cc
      | inr (unique, free) ↦
          let n : Net = record { ref = ref; name = unique; id = length c.nets; width = 0 } in
          let made : some (record c { nets = c.nets ++ n ∷ []; compiled = false }) ≡ some c' =
            sym (rw (free, create_net) refl) ∙ e in
          let same : record c { nets = c.nets ++ n ∷ []; compiled = false } ≡ c' = ground arith in
          subst IsSound same (record {
            shaped = record {
              ids = Numbered-snoc 0 c.nets n (omega arith) h.shaped.ids;
              own_nets =
                  OwnAll-kept c.nets (c.nets ++ n ∷ []) (λ r k. InRefs-append r c.nets (n ∷ []) k)
                    c.comps h.shaped.own_nets;
              single = h.shaped.single;
            };
            widths =
                Exact-snoc c.comps c.nets n
                  (sym
                    (unreached_all ref c.nets c.comps (absent ref c.nets fresh) h.shaped.own_nets))
                  h.widths;
          })
    ]

-- A component without connections is added at the end.
free-OwnPins : (ns : List Net) (ps : List Pin) → FreePins ps → OwnPins ns ps
free-OwnPins ns [] h = tt
free-OwnPins ns (p ∷ ps) (e, h) = (subst (OwnNet ns) (sym e) tt, free-OwnPins ns ps h)

free_total :
    (r : ℕ) (ps : List Pin)
    → FreePins ps
    → (total (plain r) ps ≡ 0) × (total (shareable r) ps ≡ 0) × (widest_pin r ps ≡ 0)
free_total r [] h = (refl, refl, refl)
free_total r (p ∷ ps) (e, h) =
    let off : on_net r p.net ≡ false = ap (on_net r) e in
    let (a, b, w) = free_total r ps h in
    (ground (arith, a, off), ground (arith, b, off), ground (arith, w, off))

module _ (comp : Component) (ins : FreePins comp.inputs) (outs : FreePins comp.outputs) where
  OwnAll-snoc : (ns : List Net) (cs : List Component) → OwnAll ns cs → OwnAll ns (cs ++ comp ∷ [])
  OwnAll-snoc ns [] h = (free-OwnPins ns comp.inputs ins, free-OwnPins ns comp.outputs outs, tt)
  OwnAll-snoc ns (c ∷ cs) (a, b, h) = (a, b, OwnAll-snoc ns cs h)

  snoc_total :
      (r : ℕ) (cs : List Component)
      → (total_outputs (plain r) (cs ++ comp ∷ []) ≡ total_outputs (plain r) cs)
        × (total_outputs (shareable r) (cs ++ comp ∷ []) ≡ total_outputs (shareable r) cs)
        × (widest r (cs ++ comp ∷ []) ≡ widest r cs)
  snoc_total r [] =
      let (a, b, w) = free_total r comp.outputs outs in
      let (x, y, v) = free_total r comp.inputs ins in
      (omega (arith, a), omega (arith, b), omega (arith, w, v))
  snoc_total r (c ∷ cs) =
      let (a, b, w) = snoc_total r cs in (omega (arith, a), omega (arith, b), omega (arith, w))

  added-Exact : (cs : List Component) (ns : List Net) → Exact cs ns → Exact (cs ++ comp ∷ []) ns
  added-Exact cs [] h = tt
  added-Exact cs (n ∷ ns) (e, h) = (omega (arith, e, (snoc_total n.ref cs).2), added-Exact cs ns h)

add_component-IsSound :
    (comp : Component) (c : Circuit)
    → FreePins comp.inputs
    → FreePins comp.outputs
    → IsSound c
    → IsSound (add_component comp c)
unfolding add_component
add_component-IsSound comp c ins outs h =
    let new = record comp { id = next_id c.comps } in
    record {
      shaped = record {
        ids = h.shaped.ids;
        own_nets = OwnAll-snoc new ins outs c.nets c.comps h.shaped.own_nets;
        single =
            fewer-Single c.comps (c.comps ++ new ∷ [])
              (λ r.
                let (a, b, w) = snoc_total new ins outs r c.comps in
                (omega (arith, a), omega (arith, b)))
              h.shaped.single;
      };
      widths = added-Exact new ins outs c.comps c.nets h.widths;
    }

-- Every circuit is sound that comes from the empty one by creating nets at new addresses,
-- adding components without connections, connecting, disconnecting and removing components or
-- nets, in any order: the nets are numbered by their positions, every pin is free or on a net
-- of the circuit, an output that is not tri-state has its net to itself, and every net is as
-- wide as its widest pin.
pub Built-IsSound : (suffixed : ℕ → ℕ) (c : Circuit) → Built suffixed c → IsSound c
Built-IsSound suffixed _ blank = record {
  shaped = record { ids = tt; own_nets = tt; single = λ r some_plain. omega (arith, some_plain) };
  widths = tt;
}
Built-IsSound suffixed _ (created {c = c} {c' = c'} ref name b fresh e) =
    create_net-IsSound suffixed ref name c c' fresh e (Built-IsSound suffixed c b)
Built-IsSound suffixed _ (added {c = c} comp b ins outs) =
    add_component-IsSound comp c ins outs (Built-IsSound suffixed c b)
Built-IsSound suffixed _ (connected {c = c} ci name r b) =
    connect-IsSound ci name r c (Built-IsSound suffixed c b)
Built-IsSound suffixed _ (disconnected {c = c} ci name b) =
    disconnect-IsSound ci name c (Built-IsSound suffixed c b)
Built-IsSound suffixed _ (all_disconnected {c = c} ci b) =
    disconnect_all-IsSound ci c (Built-IsSound suffixed c b)
Built-IsSound suffixed _ (component_removed {c = c} ci b) =
    remove_component-IsSound ci c (Built-IsSound suffixed c b)
Built-IsSound suffixed _ (net_removed {c = c} r b) =
    remove_net-IsSound r c (Built-IsSound suffixed c b)
