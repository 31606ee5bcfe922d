-- ===== src/Interconnect/Exclusive.antt =====
-- What a tick does with the bus: its owner, and the one slave that is driven.
use digital_circuit_simulati.Prelude.{
  ℕ, ◌≤◌, ◌<◌, ◌≡◌, refl, sym, subst, ◌∙◌, inl, inr, Bool, true, false, not, ◌&&◌, Option, none,
  some, List, arith,
}
use digital_circuit_simulati.Prelude.{length, get_or, if◌then◌else◌, Bool-cases, Option-cases}
use digital_circuit_simulati.Interconnect.{
  Lines, idle, Segment, Interconnect, requests, any_request, arbitrate, drive, release, watch,
  route, decode_from, holds_bus, changes_owner, tick, next_after,
}
use digital_circuit_simulati.Interconnect.Select.{
  Selects, Seen, gated-Seen, decode-Selects, holder, not_held, no_request, arbitrate-none,
  arbitrate-requests,
}
use digital_circuit_simulati.Interconnect.Slaves.{
  IsQuiet, drive-IsQuiet, release-IsQuiet, drive-selected, length-clear_at, length-drive, decode_lt,
}

-- Between two ticks.
pub record IsReady (segments : List Segment) (s : Interconnect) : Type 0 where
  pub quiet : IsQuiet s
  pub ports : length s.slaves ≡ length segments
  pub owned : s.busy ≡ false → s.grant ≡ none
  pub latest : s.busy ≡ true → s.last ≡ s.grant
  pub silent : s.grant ≡ none → s.wsi ≡ none

-- What the bus carries after a tick, `last` being the last owner before it.
pub data Bus (segments : List Segment) (masters : List Lines) (last : Option ℕ) (t : Interconnect)
    : Type 0 where
  unowned : t.grant ≡ none → t.wsi ≡ none → Bus segments masters last t
  owned :
      (g : ℕ)
      → t.grant ≡ some g
      → requests masters g ≡ true
      → t.wsi ≡ some t.si
      → Selects segments (get_or masters g idle).adr t.si
      → Seen last g (get_or masters g idle) (get_or t.slaves t.si idle)
      → Bus segments masters last t

-- A tick from `s` to `t`.
pub record Routed (segments : List Segment) (masters : List Lines) (s t : Interconnect)
    : Type 0 where
  pub ready : IsReady segments t
  pub bus : Bus segments masters s.last t
  pub kept :
      (g : ℕ) → s.busy ≡ true → s.grant ≡ some g → requests masters g ≡ true → t.grant ≡ some g
  pub served :
      (m : ℕ) → m < length masters → requests masters m ≡ true → (g : ℕ) × (t.grant ≡ some g)

module _ (segments : List Segment) (some_slave : 1 ≤ length segments) (masters : List Lines) where
  route-none :
      (gap : Bool) (last : Option ℕ) (s : Interconnect)
      → IsQuiet s
      → length s.slaves ≡ length segments
      → s.grant ≡ none
      → s.busy ≡ false
      → let t = route segments masters none gap s in
        IsReady segments t × Bus segments masters last t
  unfolding route watch release
  route-none gap last s quiet ports free rests =
      let si = decode_from 0 segments 0 in
      let q =
        release-IsQuiet (record s { si = si; gap = gap }) (record { others = quiet.others }) in
      (
        record {
          quiet = record { others = q.others };
          ports = length-clear_at s.wsi s.slaves ∙ ports;
          owned = λ e. free;
          latest = λ e. let clash : true ≡ false = sym e ∙ rests in cc;
          silent = λ e. refl;
        },
        unowned free refl,
      )

  route-some :
      (g : ℕ) (last : Option ℕ) (s : Interconnect)
      → IsQuiet s
      → length s.slaves ≡ length segments
      → s.grant ≡ some g
      → s.busy ≡ true
      → s.last ≡ some g
      → requests masters g ≡ true
      → let t = route segments masters (some g) (changes_owner last g) s in
        IsReady segments t × Bus segments masters last t × (t.grant ≡ some g)
  unfolding route watch drive
  route-some g last s quiet ports owner busy latest asks =
      let l = get_or masters g idle in
      let si = decode_from 0 segments l.adr in
      let gap = changes_owner last g in
      let s1 = record s { si = si; gap = gap } in
      let q = drive-IsQuiet si gap l s1 (record { others = quiet.others }) in
      let fits : si < length s.slaves = elim (decode_lt 0 segments l.adr) [
        | inl e ↦ omega (arith, e, ports, some_slave)
        | inr lt ↦ omega (arith, lt, ports)
      ] in
      (
        record {
          quiet = record { others = q.others };
          ports = length-drive si gap l s1 ∙ ports;
          owned = λ e. let clash : true ≡ false = sym busy ∙ e in cc;
          latest = λ e. latest ∙ sym owner;
          silent = λ e. let clash : some g ≡ none = sym owner ∙ e in cc;
        },
        owned g owner asks refl (decode-Selects segments l.adr)
            (subst (Seen last g l) (sym (drive-selected si gap l s1 fits)) (gated-Seen last g l)),
        owner,
      )

  freed_lem :
      (s : Interconnect)
      → IsReady segments s
      → let f = if s.busy then record s { busy = false; grant = none } else s in
        (f.grant ≡ none) × (f.busy ≡ false) × IsQuiet f × (length f.slaves ≡ length segments)
  freed_lem s h = elim (Bool-cases s.busy) [
    | inl busy ↦ rw busy (refl, refl, record { others = h.quiet.others }, h.ports)
    | inr free ↦ rw free (h.owned free, refl, record { others = h.quiet.others }, h.ports)
  ]

  -- The owner of the bus still asks for it.
  held_lem :
      (s : Interconnect) (g : ℕ)
      → IsReady segments s
      → s.busy ≡ true
      → s.grant ≡ some g
      → requests masters g ≡ true
      → Routed segments masters s (route segments masters (some g) false s)
  held_lem s g h busy owner asks =
      let latest : s.last ≡ some g = h.latest busy ∙ owner in
      let no_gap : changes_owner s.last g ≡ false = rw latest (ground arith) in
      let (ready, bus, granted) =
        rw no_gap at (route-some g s.last s h.quiet h.ports owner busy latest asks) in
      record {
        ready = ready;
        bus = bus;
        kept = λ x b e r. granted ∙ sym owner ∙ e;
        served = λ m lt r. (g, granted);
      }

  -- With at least one slave, from a state in which all slaves but the driven one see idle lines,
  -- a rising edge leaves such a state, and decides the bus by the requests and the last owner. An
  -- owner that still asks keeps the bus. If any master asks, some master owns the bus. A master
  -- that owns it asks for it; the slave that is driven is that of the first segment with the
  -- address of the owner, or slave 0 if there is none, and it sees the lines of the owner, but
  -- without a request in the tick in which the bus goes to another master than the last. Without
  -- an owner no slave is driven.
  pub tick-Routed :
      (s : Interconnect)
      → IsReady segments s
      → Routed segments masters s (tick segments masters true s)
  unfolding tick
  tick-Routed s h = elim (Bool-cases (holds_bus masters s)) [
    | inl held ↦
        let (busy, g, owner, asks) = holder masters s held in
        rw held (
          subst (λ o. Routed segments masters s (route segments masters o false s)) (sym owner)
            (held_lem s g h busy owner asks))
    | inr lost ↦
        let freed = if s.busy then record s { busy = false; grant = none } else s in
        let (free, rests, quiet, ports) = freed_lem s h in
        elim (Bool-cases (not (any_request masters) && not s.busy)) [
          | inl nothing ↦
              let not_busy : s.busy ≡ false = ground arith in
              let nobody : any_request masters ≡ false = ground arith in
              let unchanged : s ≡ freed = rw not_busy refl in
              rw (lost, nothing)
                (subst (Routed segments masters s) unchanged (record {
                  ready = h;
                  bus = unowned (h.owned not_busy) (h.silent (h.owned not_busy));
                  kept = λ g b e r. absurd (not_held masters s g lost b e r);
                  served = λ m lt r. absurd (no_request masters m nobody r);
                }))
          | inr works ↦ elim (Option-cases (arbitrate masters s.next)) [
            | inl none_asks ↦
                let (ready, bus) = route-none false s.last freed quiet ports free rests in
                rw (lost, works, none_asks)
                  (record {
                    ready = ready;
                    bus = bus;
                    kept = λ g b e r. absurd (not_held masters s g lost b e r);
                    served = λ m lt r. absurd (arbitrate-none masters s.next m none_asks lt r);
                  })
            | inr (g, chosen) ↦
                let (ready, bus, granted) =
                  route-some g s.last
                    (record freed {
                      grant = some g;
                      last = some g;
                      busy = true;
                      next = next_after (length masters) g;
                    })
                    (record { others = quiet.others }) ports refl refl refl
                    (arbitrate-requests masters s.next g chosen) in
                rw (lost, works, chosen)
                  (record {
                    ready = ready;
                    bus = bus;
                    kept = λ x b e r. absurd (not_held masters s x lost b e r);
                    served = λ m lt r. (g, granted);
                  })
          ]
        ]
  ]
