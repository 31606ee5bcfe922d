-- ===== src/Watchdog/Fires.antt =====
-- When the watchdog fires.
use digital_circuit_simulati.Prelude.{
  ◌+◌, ◌%◌, ◌^◌, ◌<◌, ◌≡◌, ◌≢◌, refl, ap, ◌∙◌, true, false, not, ◌&&◌, List, [], ◌∷◌, arith,
}
use digital_circuit_simulati.Prelude.{leb, ◌==◌, length, dec_lt}
use digital_circuit_simulati.Watchdog.{Watchdog, Inputs, writes, count, tick}

unfoldable pub run : List Inputs → Watchdog → Watchdog
run [] s = s
run (i ∷ is) s = run is (tick i s).0

-- Ticks with no write: the port reads, or is not selected.
abbrev pub Quiet : List Inputs → Type 0
Quiet [] = Unit
Quiet (i ∷ is) = ((i.en && i.we) ≡ false) × Quiet is

-- The watchdog runs and has not fired.
pub record Armed (s : Watchdog) : Type 0 where
  pub on : s.ctrl ≢ 0
  pub waiting : s.fired ≡ false
  pub word : s.timeout < 2 ^ 32
  pub early : s.cnt < s.timeout

-- A quiet tick only counts.
tick_quiet :
    (i : Inputs) (s : Watchdog)
    → (i.en && i.we) ≡ false
    → (tick i s).0 ≡ count (record s { prev_en = i.en })
unfolding tick
tick_quiet i s q = let none_written : writes i s ≡ false = ground arith in rw none_written refl

count-Armed :
    (s : Watchdog)
    → Armed s
    → count s ≡ record s { cnt = s.cnt + 1; fired = leb s.timeout (s.cnt + 1) }
unfolding count
count-Armed s h =
    let small : (s.cnt + 1) % 2 ^ 32 ≡ s.cnt + 1 = omega (arith, h.word, h.early) in
    let go : (not (s.ctrl == 0) && not s.fired && not (s.timeout == 0)) ≡ true =
      ground (arith, h.on, h.waiting, h.early) in
    rw (go, small) refl

count_of_fired : (s : Watchdog) → s.fired ≡ true → count s ≡ s
unfolding count
count_of_fired s h =
    let stay : (not (s.ctrl == 0) && not s.fired && not (s.timeout == 0)) ≡ false =
      ground (arith, h) in
    rw stay refl

stays_fired :
    (is : List Inputs) (s : Watchdog) → Quiet is → s.fired ≡ true → (run is s).fired ≡ true
unfolding run
stays_fired [] s q h = h
stays_fired (i ∷ is) s (q, qs) h =
    stays_fired is (tick i s).0 qs
      (ap (λ t. t.fired) (tick_quiet i s q ∙ count_of_fired (record s { prev_en = i.en }) h) ∙ h)

-- An armed watchdog that nobody feeds, over any number of ticks without a write, has fired exactly
-- when its counter and the ticks together reach the timeout; it does not fire before, and it stays
-- fired.
pub fires_on_time :
    (is : List Inputs) (s : Watchdog)
    → Armed s
    → Quiet is
    → (run is s).fired ≡ leb s.timeout (s.cnt + length is)
unfolding run
fires_on_time [] s h q = ground (arith, h.waiting, h.early)
fires_on_time (i ∷ is) s h (q, qs) =
    let s' : Watchdog = record s { prev_en = i.en } in
    let armed : Armed s' = record {
      on = h.on;
      waiting = h.waiting;
      word = h.word;
      early = h.early;
    } in
    let e = tick_quiet i s q ∙ count-Armed s' armed in
    let t : Watchdog = record s' { cnt = s.cnt + 1; fired = leb s.timeout (s.cnt + 1) } in
    ap (λ x. (run is x).fired) e ∙ elim (dec_lt (s.cnt + 1) s.timeout) [
      | yes early ↦
          let not_yet : leb s.timeout (s.cnt + 1) ≡ false = ground arith in
          fires_on_time is t (record { on = h.on; waiting = not_yet; word = h.word; early = early })
            qs
          ∙ ap (leb s.timeout) (omega arith)
      | no due ↦
          let now : leb s.timeout (s.cnt + 1) ≡ true = ground arith in
          stays_fired is t qs now ∙ ground arith
    ]
