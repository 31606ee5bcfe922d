-- ===== src/Netlist/Connected.antt =====
-- `connect` and `disconnect` on every branch.
use digital_circuit_simulati.Prelude.{
  ℕ, zero, suc, ◌+◌, ◌≤◌, ◌≡◌, ◌≢◌, refl, sym, ap, subst, ◌∙◌, inl, inr, true, false, not, ◌&&◌,
  Option, none, some, List, [], ◌∷◌, arith,
}
use digital_circuit_simulati.Prelude.{
  ◌==◌, if◌then◌else◌, get_elem?, set, Bool-cases, Option-cases, ℕ_discrete,
}
use digital_circuit_simulati.Netlist.{
  Pin, Component, Net, Driver, Circuit, Place, input, output, pin_at, with_net, set_pin, find_ref,
  find_pin, widen, recompute_net_widths, reset_widths, widen_all,
}
use digital_circuit_simulati.Netlist.Edit.{
  on_net, detach_pin, is_connected, disconnect, shared, scan_at, attach, connect, release,
}
use digital_circuit_simulati.Netlist.Counts.{
  plain, shareable, total_outputs, own, replace_pin, skip_outputs, skip_outputs_here,
  scan_outputs-Clear, Scan-cases,
}
use digital_circuit_simulati.Netlist.Widths.{reach, joined-Exact}
use digital_circuit_simulati.Netlist.Invariant.{
  InRefs, Single, IsSound, recompute-IsSound, OwnAll-set, OwnAll-kept, detach_pin-IsShaped,
  widen-Numbered, widen-InRefs, fewer-Single, widen_all-InRefs, reset-InRefs, own_free,
}

pub disconnect-IsSound : (ci name : ℕ) (c : Circuit) → IsSound c → IsSound (disconnect ci name c)
unfolding disconnect
disconnect-IsSound ci name c h = elim (Option-cases (get_elem? c.comps ci)) [
  | inl missing ↦ rw (missing, disconnect) h
  | inr (comp, hc) ↦ elim (Option-cases (find_pin name comp)) [
    | inl no_pin ↦ rw (hc, no_pin, disconnect) h
    | inr (at, found) ↦ elim (Bool-cases (is_connected comp at)) [
      | inr free ↦ rw (hc, found, free, disconnect) h
      | inl connected ↦
          let s =
            recompute-IsSound (detach_pin ci comp at c)
              (detach_pin-IsShaped ci comp at c hc h.shaped) in
          rw (hc, found, connected, disconnect)
            (record {
              shaped = record {
                ids = s.shaped.ids;
                own_nets = s.shaped.own_nets;
                single = s.shaped.single;
              };
              widths = s.widths;
            })
    ]
  ]
]

-- A scan that passes leaves the net to the pin, or shares it among tri-state outputs.
pub skip_here :
    (f : Pin → ℕ) (cs : List Component) (ci i : ℕ) (comp : Component) (p : Pin)
    → get_elem? cs ci ≡ some comp
    → get_elem? comp.outputs i ≡ some p
    → skip_outputs f (some (ci, i)) 0 cs + f p ≡ total_outputs f cs
skip_here f cs ci i comp p hc hp =
    let here = skip_outputs_here f 0 ci i cs comp p hc hp in
    let same : skip_outputs f (some (0 + ci, i)) 0 cs ≡ skip_outputs f (some (ci, i)) 0 cs =
      ap (λ k. skip_outputs f (some (k, i)) 0 cs) (omega arith) in
    omega (arith, here, same)

-- The pin that has joined counts once on its net and nowhere else.
joined_count :
    (r x : ℕ) (p : Pin)
    → (plain x (with_net (some r) p) + shareable x (with_net (some r) p) ≤ 1)
      × (x ≢ r → plain x (with_net (some r) p) + shareable x (with_net (some r) p) ≡ 0)
      × (p.tri_state ≡ true → plain x (with_net (some r) p) ≡ 0)
joined_count r x p = (ground arith, λ ne. ground arith, λ tri. ground arith)

-- The circuit in which the pin has moved to the net `r`, by its sums.
record Moved (at : Place) (p : Pin) (r : ℕ) (cs cs' : List Component) : Type 0 where
  pub plain_sum :
      (x : ℕ)
      → total_outputs (plain x) cs' + own (plain x) at p
        ≡ total_outputs (plain x) cs + own (plain x) at (with_net (some r) p)
  pub shared_sum :
      (x : ℕ)
      → total_outputs (shareable x) cs' + own (shareable x) at p
        ≡ total_outputs (shareable x) cs + own (shareable x) at (with_net (some r) p)

Moved-Single :
    (c : Circuit) (ci : ℕ) (comp : Component) (at : Place) (p : Pin) (r : ℕ) (ds : List Driver)
    (cs' : List Component)
    → get_elem? c.comps ci ≡ some comp
    → pin_at comp at ≡ some p
    → scan_at ci at p r c ≡ shared ds
    → Moved at p r c.comps cs'
    → Single c.comps
    → Single cs'
Moved-Single c ci comp (input i) p r ds cs' hc hp passed m h x some_plain =
    fewer-Single c.comps cs' (λ x. (omega (arith, m.plain_sum x), omega (arith, m.shared_sum x))) h
      x some_plain
Moved-Single c ci comp (output i) p r ds cs' hc hp passed m h x some_plain =
    let (count, elsewhere, of_tri) = joined_count r x p in
    let a = m.plain_sum x in
    let b = m.shared_sum x in
    elim (ℕ_discrete x r) [
      | no other ↦
          let none_here = elsewhere other in
          let before = h x (omega (arith, a, none_here)) in omega (arith, a, b, none_here, before)
      | yes same ↦
          let (clear, alone) =
            scan_outputs-Clear (some (ci, i)) p.tri_state r 0 c.comps [] ds passed in
          let plain_here = skip_here (plain x) c.comps ci i comp p hc hp in
          let shared_here = skip_here (shareable x) c.comps ci i comp p hc hp in
          let clear' : skip_outputs (plain x) (some (ci, i)) 0 c.comps ≡ 0 =
            ap (λ y. skip_outputs (plain y) (some (ci, i)) 0 c.comps) same ∙ clear in
          elim (Bool-cases p.tri_state) [
            | inl tri ↦
                let none_plain = of_tri tri in
                let impossible : ⊥ = omega (arith, a, plain_here, clear', none_plain, some_plain) in
                elim impossible [ ]
            | inr not_tri ↦
                let alone' : skip_outputs (shareable x) (some (ci, i)) 0 c.comps ≡ 0 =
                  ap (λ y. skip_outputs (shareable y) (some (ci, i)) 0 c.comps) same
                  ∙ alone not_tri in
                omega (arith, a, b, plain_here, shared_here, clear', alone', count)
          ]
    ]

attach-IsSound :
    (ci name : ℕ) (comp : Component) (at : Place) (p : Pin) (n : Net) (ds : List Driver)
    (c : Circuit)
    → get_elem? c.comps ci ≡ some comp
    → pin_at comp at ≡ some p
    → InRefs n.ref c.nets
    → ((x : ℕ) → reach x p ≤ reach x (with_net (some n.ref) p))
    → Single (set c.comps ci (set_pin at (with_net (some n.ref) p) comp))
    → IsSound c
    → IsSound (attach ci name at n ds c)
unfolding attach
attach-IsSound ci name comp at p n ds c hc hp there grows single h =
    let p' = with_net (some n.ref) p in
    rw (hc, hp, attach)
      (record {
        shaped = record {
          ids = widen-Numbered p' c.nets h.shaped.ids;
          own_nets =
              OwnAll-set (widen (some n.ref) p.width c.nets) c.comps ci comp at p' hc
                (widen-InRefs p' c.nets n.ref there)
                (OwnAll-kept c.nets (widen (some n.ref) p.width c.nets) (widen-InRefs p' c.nets)
                  c.comps h.shaped.own_nets);
          single = single;
        };
        widths = joined-Exact c.comps ci comp at p p' c.nets hc hp grows h.widths;
      })

-- Reading back what was set.
pub entry-set {ℓ} :
    {A : Type ℓ} (xs : List A) (i : ℕ) (x y : A)
    → get_elem? xs i ≡ some x
    → get_elem? (set xs i y) i ≡ some y
entry-set [] i x y h = cc
entry-set (z ∷ xs) zero x y h = refl
entry-set (z ∷ xs) (suc i) x y h = entry-set xs i x y h

pub pin_at-set_pin :
    (c : Component) (at : Place) (p p' : Pin)
    → pin_at c at ≡ some p
    → pin_at (set_pin at p' c) at ≡ some p'
pin_at-set_pin c (input i) p p' h = entry-set c.inputs i p p' h
pin_at-set_pin c (output i) p p' h = entry-set c.outputs i p p' h

pub find_ref-InRefs :
    (r : ℕ) (ns : List Net) (n : Net) → find_ref r ns ≡ some n → (n.ref ≡ r) × InRefs n.ref ns
find_ref-InRefs r [] n h = cc
find_ref-InRefs r (m ∷ ns) n h = elim (Bool-cases (m.ref == r)) [
  | inl here ↦
      let same : m ≡ n = ground arith in
      (ap (λ x. x.ref) (sym same) ∙ ground arith, inl (ap (λ x. x.ref) same))
  | inr other ↦ let (e, there) = find_ref-InRefs r ns n (ground arith) in (e, inr there)
]

-- A pin that is free, or already on the net, only grows its claims.
free_grows : (r x : ℕ) (p : Pin) → on_net r p.net ≡ true → reach x p ≤ reach x (with_net (some r) p)
free_grows r x p on = ground arith

pub connected_lem :
    (comp : Component) (at : Place) (p : Pin) (y : ℕ)
    → pin_at comp at ≡ some p
    → p.net ≡ some y
    → is_connected comp at ≡ true
connected_lem comp at p y hp on = rw (hp, on, is_connected) refl

pub free_lem :
    (comp : Component) (at : Place) (p : Pin)
    → pin_at comp at ≡ some p
    → p.net ≡ none
    → is_connected comp at ≡ false
free_lem comp at p hp on = rw (hp, on, is_connected) refl

disconnect_lem :
    (ci name : ℕ) (comp : Component) (at : Place) (p : Pin) (y : ℕ) (c : Circuit)
    → get_elem? c.comps ci ≡ some comp
    → find_pin name comp ≡ some at
    → pin_at comp at ≡ some p
    → p.net ≡ some y
    → disconnect ci name c
      ≡ record (recompute_net_widths (detach_pin ci comp at c)) { compiled = false }
unfolding disconnect
disconnect_lem ci name comp at p y c hc found hp on =
    let connected = connected_lem comp at p y hp on in rw (hc, found, connected, disconnect) refl

detach_lem :
    (ci : ℕ) (comp : Component) (at : Place) (p : Pin) (y : ℕ) (c : Circuit)
    → pin_at comp at ≡ some p
    → p.net ≡ some y
    → detach_pin ci comp at c ≡ record c {
      comps = set c.comps ci (set_pin at (with_net none p) comp);
      buses = release at comp.ref (find_ref y c.nets) c.buses;
    }
unfolding detach_pin
detach_lem ci comp at p y c hp on = rw (hp, on, detach_pin) refl

-- The circuit after the pin has left its old net.
pub disconnected :
    (ci name : ℕ) (comp : Component) (at : Place) (p : Pin) (y : ℕ) (c : Circuit)
    → get_elem? c.comps ci ≡ some comp
    → find_pin name comp ≡ some at
    → pin_at comp at ≡ some p
    → p.net ≡ some y
    → ((disconnect ci name c).comps ≡ set c.comps ci (set_pin at (with_net none p) comp))
      × ((x : ℕ) → InRefs x c.nets → InRefs x (disconnect ci name c).nets)
unfolding recompute_net_widths
disconnected ci name comp at p y c hc found hp on =
    let e = disconnect_lem ci name comp at p y c hc found hp on in
    let at_once = recomputed (detach_lem ci comp at p y c hp on) in
    (
      ap (λ d. d.comps) (e ∙ at_once),
      λ x there.
          subst (λ d. InRefs x d.nets) (sym (e ∙ at_once))
            (widen_all-InRefs (set c.comps ci (set_pin at (with_net none p) comp))
              (reset_widths c.nets) x (reset-InRefs x c.nets there)),
    )
  where
    recomputed :
        {d : Circuit}
        → detach_pin ci comp at c ≡ d
        → record (recompute_net_widths (detach_pin ci comp at c)) { compiled = false }
          ≡ record d { nets = widen_all d.comps (reset_widths d.nets); compiled = false }
    recomputed e = ap (λ d. record (recompute_net_widths d) { compiled = false }) e

free_reach : (r : ℕ) (p : Pin) → p.net ≡ none → (x : ℕ) → reach x p ≤ reach x (with_net (some r) p)
free_reach r p free x =
    let zero_now : reach x p ≡ 0 = ap (λ o. if on_net x o then p.width else 0) free in
    omega (arith, zero_now)

rejoin-IsSound :
    (ci name : ℕ) (comp : Component) (at : Place) (p : Pin) (y : ℕ) (n : Net) (ds : List Driver)
    (c : Circuit)
    → get_elem? c.comps ci ≡ some comp
    → find_pin name comp ≡ some at
    → pin_at comp at ≡ some p
    → p.net ≡ some y
    → InRefs n.ref c.nets
    → scan_at ci at p n.ref c ≡ shared ds
    → IsSound c
    → IsSound (attach ci name at n ds (disconnect ci name c))
rejoin-IsSound ci name comp at p y n ds c hc found hp on there passed h =
    let p0 = with_net none p in
    let comp' = set_pin at p0 comp in
    let left = disconnect ci name c in
    let (comps_now, nets_now) = disconnected ci name comp at p y c hc found hp on in
    let hc' : get_elem? left.comps ci ≡ some comp' =
      ap (λ cs. get_elem? cs ci) comps_now ∙ entry-set c.comps ci comp comp' hc in
    let hp' = pin_at-set_pin comp at p p0 hp in
    let twice : (f : Pin → ℕ)
        → own f at p0 ≡ 0
        → total_outputs f (set left.comps ci (set_pin at (with_net (some n.ref) p) comp'))
            + own f at p
          ≡ total_outputs f c.comps + own f at (with_net (some n.ref) p) =
      λ f zero_now.
        let now : total_outputs f left.comps ≡ total_outputs f (set c.comps ci comp') =
          ap (total_outputs f) comps_now in
        omega (
          arith,
          zero_now,
          now,
          replace_pin f c.comps ci comp at p p0 hc hp,
          replace_pin f left.comps ci comp' at p0 (with_net (some n.ref) p) hc' hp',
        ) in
    attach-IsSound ci name comp' at p0 n ds left hc' hp' (nets_now n.ref there) (λ x. omega arith)
      (Moved-Single c ci comp at p n.ref ds
        (set left.comps ci (set_pin at (with_net (some n.ref) p) comp')) hc hp passed
        (record {
          plain_sum = λ x. twice (plain x) (own_free x at p).0;
          shared_sum = λ x. twice (shareable x) (own_free x at p).1;
        })
        h.shaped.single)
      (disconnect-IsSound ci name c h)

join-IsSound :
    (ci name : ℕ) (comp : Component) (at : Place) (p : Pin) (n : Net) (ds : List Driver)
    (c : Circuit)
    → get_elem? c.comps ci ≡ some comp
    → pin_at comp at ≡ some p
    → ((x : ℕ) → reach x p ≤ reach x (with_net (some n.ref) p))
    → InRefs n.ref c.nets
    → scan_at ci at p n.ref c ≡ shared ds
    → IsSound c
    → IsSound (attach ci name at n ds c)
join-IsSound ci name comp at p n ds c hc hp grows there passed h =
    let p' = with_net (some n.ref) p in
    attach-IsSound ci name comp at p n ds c hc hp there grows
      (Moved-Single c ci comp at p n.ref ds (set c.comps ci (set_pin at p' comp)) hc hp passed
        (record {
          plain_sum = λ x. replace_pin (plain x) c.comps ci comp at p p' hc hp;
          shared_sum = λ x. replace_pin (shareable x) c.comps ci comp at p p' hc hp;
        })
        h.shaped.single)
      h

pub connect-IsSound :
    (ci : Option ℕ) (name : ℕ) (r : Option ℕ) (c : Circuit)
    → IsSound c
    → IsSound (connect ci name r c).0
unfolding connect
connect-IsSound none name net c h = h
connect-IsSound (some ci) name none c h = h
connect-IsSound (some ci) name (some r) c h = elim (Option-cases (find_ref r c.nets)) [
  | inl foreign ↦ rw (foreign, connect) h
  | inr (n, hn) ↦ elim (Option-cases (get_elem? c.comps ci)) [
    | inl missing ↦ rw (hn, missing, connect) h
    | inr (comp, hc) ↦ elim (Option-cases (find_pin name comp)) [
      | inl no_pin ↦ rw (hn, hc, no_pin, connect) h
      | inr (at, found) ↦ elim (Option-cases (pin_at comp at)) [
        | inl no_place ↦ rw (hn, hc, found, no_place, connect) h
        | inr (p, hp) ↦ elim (Scan-cases (scan_at ci at p n.ref c)) [
          | inl (other, refused) ↦ rw (hn, hc, found, hp, refused, connect) h
          | inr (ds, passed) ↦
              let there = (find_ref-InRefs r c.nets n hn).1 in
              elim (Option-cases p.net) [
                | inl free ↦
                    let test : (is_connected comp at && not (on_net n.ref p.net)) ≡ false =
                      ap (λ b. b && not (on_net n.ref p.net)) (free_lem comp at p hp free) in
                    rw (hn, hc, found, hp, passed, test, connect)
                      (join-IsSound ci name comp at p n ds c hc hp (free_reach n.ref p free) there
                        passed h)
                | inr (y, on) ↦ elim (Bool-cases (y == n.ref)) [
                  | inl same ↦
                      let already : on_net n.ref p.net ≡ true = ap (on_net n.ref) on ∙ same in
                      let test : (is_connected comp at && not (on_net n.ref p.net)) ≡ false =
                        ground arith in
                      rw (hn, hc, found, hp, passed, test, connect)
                        (join-IsSound ci name comp at p n ds c hc hp
                          (λ x. free_grows n.ref x p already) there passed h)
                  | inr other ↦
                      let connected = connected_lem comp at p y hp on in
                      let elsewhere : on_net n.ref p.net ≡ false = ap (on_net n.ref) on ∙ other in
                      let test : (is_connected comp at && not (on_net n.ref p.net)) ≡ true =
                        ap (λ b. b && not (on_net n.ref p.net)) connected ∙ ap not elsewhere in
                      rw (hn, hc, found, hp, passed, test, connect)
                        (rejoin-IsSound ci name comp at p y n ds c hc found hp on there passed h)
                ]
              ]
        ]
      ]
    ]
  ]
]
