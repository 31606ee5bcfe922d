-- ===== src/Dma/Copy.antt =====
-- A whole transfer: from the write that starts it to the tick on which the component is done.
use digital_circuit_simulati.Prelude.{
  ℕ, suc, ◌+◌, ◌-◌, ◌*◌, ◌%◌, ◌^◌, ◌≤◌, ◌<◌, ◌≡◌, refl, sym, ap, subst, inl, inr, true, false, List,
  [], ◌∷◌, arith,
}
use digital_circuit_simulati.Prelude.{◌==◌, if◌then◌else◌}
use digital_circuit_simulati.Dma.{Dma, config, master, tick, read_reg, write_reg}
use digital_circuit_simulati.Dma.Transfer.{
  Memory, Event, System, inputs, step, copy_words, Moving, Moved, answer, step_moves,
}

-- The ticks that follow the start, up to the one on which the component is no longer busy.
unfoldable pub run_busy : List Event → System → System
run_busy [] s = s
run_busy (e ∷ es) s =
    let s' = step e s in let rest = run_busy es s' in if s'.dma.busy then rest else s'

abbrev pub answers_of : List Event → ℕ
answers_of [] = 0
answers_of (e ∷ es) = answer e + answers_of es

run_busy_on :
    (e : Event) (es : List Event) (s : System)
    → (step e s).dma.busy ≡ true
    → run_busy (e ∷ es) s ≡ run_busy es (step e s)
unfolding run_busy
run_busy_on e es s h = ap (λ b. if b then run_busy es (step e s) else step e s) h

run_busy_off :
    (e : Event) (es : List Event) (s : System)
    → (step e s).dma.busy ≡ false
    → run_busy (e ∷ es) s ≡ step e s
unfolding run_busy
run_busy_off e es s h = ap (λ b. if b then run_busy es (step e s) else step e s) h

answer_le_one : (e : Event) → answer e ≤ 1
answer_le_one e = ground arith

run_busy_moves :
    (src dst words : ℕ) (before : Memory) (es : List Event) (s : System) (i : ℕ)
    → Moving src dst words before s i
    → 4 * (words - i) + 1 ≤ answers_of es + s.dma.st
    → Moved src dst words before (run_busy es s)
run_busy_moves src dst words before [] s i h enough =
    let impossible : ⊥ = omega (arith, h.state.1, h.progress, enough) in elim impossible [ ]
run_busy_moves src dst words before (e ∷ es) s i h enough =
    let one = answer_le_one e in
    elim (step_moves src dst words before e s i h) [
      | inl (moving, on) ↦
          subst (Moved src dst words before) (sym (run_busy_on e es s moving.busy))
            (run_busy_moves src dst words before es (step e s) i moving (omega arith))
      | inr (inl (moving, restart)) ↦
          subst (Moved src dst words before) (sym (run_busy_on e es s moving.busy)) (
            run_busy_moves src dst words before es (step e s) (suc i) moving
              (omega (arith, h.state.1, h.progress, one)))
      | inr (inr moved) ↦
          subst (Moved src dst words before) (sym (run_busy_off e es s moved.busy)) moved
    ]

-- The write that starts a transfer.
pub record Starts (e : Event) : Type 0 where
  pub ctrl : e.cfg_adr % 32 ≡ 0x0C
  pub go : e.cfg_dat % 2 ≡ 1
  pub we : e.cfg_we ≡ true
  pub stb : e.cfg_stb ≡ true
  pub cyc : e.cfg_cyc ≡ true

-- A component that waits for its next transfer, with `words` words to move.
pub record Idle (words : ℕ) (d : Dma) : Type 0 where
  pub busy : d.busy ≡ false
  pub m_stb : d.m_stb ≡ false
  pub released : d.prev_stb ≡ false
  pub some_words : 0 < words
  pub len_at : d.len ≡ 4 * words
  pub src_word : d.src < 2 ^ 32
  pub dst_word : d.dst < 2 ^ 32

module _ (words : ℕ) (e : Event) (s : System) (idle : Idle words s.dma) (starts : Starts e) where
  started : config (inputs e s) s.dma ≡ (
    record s.dma {
      remain = s.dma.len;
      busy = true;
      done = false;
      st = 1;
      prev_stb = true;
      latched = 0;
    },
    0,
    true,
  )
  unfolding config write_reg read_reg
  started =
      let nonzero : (s.dma.len == 0) ≡ false = ground (arith, idle.len_at, idle.some_words) in
      rw
        (
          starts.stb, starts.cyc, idle.released, starts.we, starts.ctrl, starts.go, idle.busy,
          nonzero,
        )
        refl

  step_start : Moving s.dma.src s.dma.dst words s.mem (step e s) 0 × ((step e s).dma.st ≡ 2)
  unfolding step tick copy_words master
  step_start =
      rw (started, idle.m_stb)
        (
          record {
            progress = idle.some_words;
            busy = refl;
            done = refl;
            src_at = ground (arith, idle.src_word);
            dst_at = ground (arith, idle.dst_word);
            remain_at = ground (arith, idle.len_at);
            mem_at = ground arith;
            state = ground arith;
            reading = λ q. ground arith;
            read = λ q. ground arith;
            writing = λ q. ground arith;
            quiet = λ q. ground arith;
          },
          refl,
        )

-- A transfer of `words` words that a write to the control register starts in an idle component has
-- copied them, upwards and one by one, at the tick on which the component is no longer busy; that
-- tick comes within any ticks of which `4 * words - 1` find the memory ready to answer, whatever is
-- written to the configuration port meanwhile. The component is then done and idle.
pub transfer_copies :
    (words : ℕ) (e : Event) (es : List Event) (s : System)
    → Idle words s.dma
    → Starts e
    → 4 * words ≤ answers_of es + 1
    → Moved s.dma.src s.dma.dst words s.mem (run_busy es (step e s))
transfer_copies words e es s idle starts enough =
    let (moving, st_at) = step_start words e s idle starts in
    run_busy_moves s.dma.src s.dma.dst words s.mem es (step e s) 0 moving (omega arith)
