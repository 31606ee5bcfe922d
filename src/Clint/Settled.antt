-- ===== src/Clint/Settled.antt =====
-- The early return of the `clint` cannot be seen from outside.
use digital_circuit_simulati.Prelude.{
  ◌≡◌, refl, ap, subst, sym, ◌∙◌, inl, inr, Bool, false, not, ◌&&◌, List, [], ◌∷◌, bit_and, arith,
}
use digital_circuit_simulati.Prelude.{leb, ◌==◌, Bool-cases}
use digital_circuit_simulati.Clint.{Clint, Inputs, Outputs, body, tick, write_reg}

-- The outputs fit the registers: with no transaction in the tick before, no data is on the bus.
pub record Settled (p : Clint × Outputs) : Type 0 where
  pub timer : p.1.mti ≡ leb p.0.mtimecmp p.0.mtime
  pub software : p.1.msi ≡ not (bit_and p.0.msip 1 == 0)
  pub silent : p.0.prev_stb ≡ false → (p.1.dat ≡ 0) × (p.1.ack ≡ false)

-- The function without its early return.
unfoldable pub slow_tick : Inputs → Clint → Clint × Outputs
slow_tick i s = body i (i.stb && i.cyc) s.prev_stb (record s { prev_stb = i.stb && i.cyc })

abbrev pub run : List Inputs → Clint × Outputs → Clint × Outputs
run [] p = p
run (i ∷ is) p = run is (tick i p)

abbrev pub slow_run : List Inputs → Clint × Outputs → Clint × Outputs
slow_run [] p = p
slow_run (i ∷ is) p = slow_run is (slow_tick i p.0)

body_outputs :
    (i : Inputs) (active prev : Bool) (s : Clint)
    → ((body i active prev s).1.mti
        ≡ leb (body i active prev s).0.mtimecmp (body i active prev s).0.mtime)
      × ((body i active prev s).1.msi ≡ not (bit_and (body i active prev s).0.msip 1 == 0))
unfolding body
body_outputs i active prev s = (refl, refl)

body-prev :
    (i : Inputs) (active prev : Bool) (s : Clint) → (body i active prev s).0.prev_stb ≡ s.prev_stb
unfolding body write_reg
body-prev i active prev s = ground arith

body_silent :
    (i : Inputs) (active prev : Bool) (s : Clint)
    → active ≡ false
    → ((body i active prev s).1.dat ≡ 0) × ((body i active prev s).1.ack ≡ false)
unfolding body
body_silent i active prev s off = (ground arith, ground arith)

slow_tick-Settled : (i : Inputs) (s : Clint) → Settled (slow_tick i s)
unfolding slow_tick
slow_tick-Settled i s =
    let active = i.stb && i.cyc in
    let now = record s { prev_stb = active } in
    record {
      timer = (body_outputs i active s.prev_stb now).0;
      software = (body_outputs i active s.prev_stb now).1;
      silent =
          λ e. body_silent i active s.prev_stb now (sym (body-prev i active s.prev_stb now) ∙ e);
    }

outputs_ext :
    (o o' : Outputs) → o.dat ≡ o'.dat → o.ack ≡ o'.ack → o.mti ≡ o'.mti → o.msi ≡ o'.msi → o ≡ o'
outputs_ext o o' p q r t = λ k. record { dat = p k; ack = q k; mti = r k; msi = t k }

body_idle :
    (i : Inputs) (s : Clint) (o : Outputs)
    → i.rising ≡ false
    → s.prev_stb ≡ false
    → Settled (s, o)
    → body i false false s ≡ (s, o)
unfolding body
body_idle i s o still off h =
    let (no_dat, no_ack) = h.silent off in
    rw still (ap (λ x. (s, x)) (sym (outputs_ext o _ no_dat no_ack h.timer h.software)))

tick-slow : (i : Inputs) (p : Clint × Outputs) → Settled p → tick i p ≡ slow_tick i p.0
unfolding tick slow_tick
tick-slow i (s, o) h = elim (Bool-cases (not i.rising && not (i.stb && i.cyc) && not s.prev_stb)) [
  | inr works ↦ rw works refl
  | inl idle ↦
      let still : i.rising ≡ false = ground arith in
      let off : (i.stb && i.cyc) ≡ false = ground arith in
      let before : s.prev_stb ≡ false = ground arith in
      let same : record s { prev_stb = false } ≡ s =
        ap (λ b. record s { prev_stb = b }) (sym before) in
      let kept : Settled (record s { prev_stb = false }, o) =
        subst (λ x. Settled (x, o)) (sym same) h in
      rw (idle, off, before) (sym (body_idle i (record s { prev_stb = false }) o still refl kept))
]

-- The outputs of the clint after any ticks are those of the function without its early return, from
-- any state in which the outputs fit the registers as the code writes them, msi from bit 0 of msip.
pub run-slow :
    (is : List Inputs) (p : Clint × Outputs)
    → Settled p
    → (run is p ≡ slow_run is p) × Settled (run is p)
run-slow [] p h = (refl, h)
run-slow (i ∷ is) p h =
    let e = tick-slow i p h in
    let h' : Settled (tick i p) = subst Settled (sym e) (slow_tick-Settled i p.0) in
    let (same, settled) = run-slow is (tick i p) h' in (same ∙ ap (slow_run is) e, settled)
