-- ===== src/Tick/Batch.antt =====
-- The loops over ticks of the emitted code, src/core/CodeGen.cpp: `circuit_tick_batch` and
-- `circuit_tick_forever`. The parameters are what one tick does to the state of the emitted code,
-- and the stop flag in it.
use digital_circuit_simulati.Prelude.{
  ℕ, zero, suc, ◌+◌, ◌-◌, ◌*◌, ◌/◌, ◌%◌, ◌^◌, ◌≤◌, ◌<◌, ◌≡◌, refl, sym, ap, subst, ◌∙◌, inl, inr,
  Bool, true, false, ◌&&◌, Option, none, some, arith,
}
use digital_circuit_simulati.Prelude.{◌==◌, ltb, Bool-cases}

module _ {ℓ} {S : Type ℓ} (circuit_tick : S → S) (stop_flag : S → Bool) where
  -- The iterations from `i` on, `left` of them: how many ticks ran, and the state.
  unfoldable pub batch_from : ℕ → ℕ → S → ℕ × S
  batch_from i zero s = (i, s)
  batch_from i (suc left) s =
      let next = circuit_tick s in
      elim ((i % 256 == 255) && stop_flag next) [
        | true ↦ (i + 1, next)
        | false ↦ batch_from (i + 1) left next
      ]

  unfoldable pub circuit_tick_batch : ℕ → S → ℕ × S
  circuit_tick_batch n s = batch_from 0 n s

  -- `_i` is a 32-bit counter; none without fuel.
  unfoldable pub forever_from : ℕ → ℕ → S → Option S
  forever_from zero i s = none
  forever_from (suc fuel) i s =
      let next = circuit_tick s in
      elim ((i % 16 == 15) && stop_flag next) [
        | true ↦ some next
        | false ↦ forever_from fuel ((i + 1) % 2 ^ 32) next
      ]

  unfoldable pub circuit_tick_forever : ℕ → S → Option S
  circuit_tick_forever fuel s = forever_from fuel 0 s

  -- `n` ticks.
  abbrev pub ticks : ℕ → S → S
  ticks zero s = s
  ticks (suc n) s = ticks n (circuit_tick s)

  ticks-suc : (n : ℕ) (s : S) → ticks (n + 1) s ≡ circuit_tick (ticks n s)
  ticks-suc zero s = refl
  ticks-suc (suc n) s =
      let more : suc n + 1 ≡ suc (n + 1) = omega arith in
      ap (λ k. ticks k s) more ∙ ticks-suc n (circuit_tick s)

  -- The ticks that ran, the state they leave, and when they end.
  pub record Ran (i left : ℕ) (s : S) (r : ℕ × S) : Type ℓ where
    pub at_most : r.0 ≤ i + left
    pub state : r.1 ≡ ticks r.0 s
    pub early : r.0 < i + left → stop_flag r.1 ≡ true
    pub in_time :
        (k : ℕ)
        → stop_flag (ticks (k + 1) s) ≡ true
        → i < (k + 256) / 256 * 256
        → r.0 ≤ (k + 256) / 256 * 256

  module _ (sticky : (s : S) → stop_flag s ≡ true → stop_flag (circuit_tick s) ≡ true) where
    stays : (d a : ℕ) (s : S) → stop_flag (ticks a s) ≡ true → stop_flag (ticks (a + d) s) ≡ true
    stays zero a s h =
        let same : a ≡ a + 0 = omega arith in subst (λ k. stop_flag (ticks k s) ≡ true) same h
    stays (suc d) a s h =
        let later = sticky (ticks (a + d) s) (stays d a s h) in
        let one_more = ap stop_flag (ticks-suc (a + d) s) ∙ later in
        let same : a + d + 1 ≡ a + suc d = omega arith in
        subst (λ k. stop_flag (ticks k s) ≡ true) same one_more

    stopped_by :
        (a b : ℕ) (s : S) → a ≤ b → stop_flag (ticks a s) ≡ true → stop_flag (ticks b s) ≡ true
    stopped_by a b s le h =
        let whole : a + (b - a) ≡ b = omega arith in
        subst (λ k. stop_flag (ticks k s) ≡ true) whole (stays (b - a) a s h)

    batch_from-Ran : (left i : ℕ) (s : S) → Ran i left s (batch_from i left (ticks i s))
    unfolding batch_from
    batch_from-Ran zero i s = record {
      at_most = omega arith;
      state = refl;
      early = λ lt. absurd (omega (arith, lt));
      in_time = λ k h lt. omega (arith, lt);
    }
    batch_from-Ran (suc left) i s =
        let next = ticks-suc i s in
        elim (Bool-cases ((i % 256 == 255) && stop_flag (circuit_tick (ticks i s)))) [
          | inl stops ↦
              rw (stops, batch_from)
                (record {
                  at_most = omega arith;
                  state = sym next;
                  early = λ lt. ground (arith, stops);
                  in_time = λ k h lt. omega (arith, lt);
                })
          | inr runs ↦
              let rest =
                subst (λ t. Ran (i + 1) left s (batch_from (i + 1) left t)) next
                  (batch_from-Ran left (i + 1) s) in
              rw (runs, batch_from)
                (record {
                  at_most = omega (arith, rest.at_most);
                  state = rest.state;
                  early = λ lt. rest.early (omega (arith, lt));
                  in_time = λ k h lt. elim (Bool-cases (ltb (i + 1) ((k + 256) / 256 * 256))) [
                    | inl below ↦ rest.in_time k h (ground arith)
                    | inr last ↦
                        let at_end : (k + 256) / 256 * 256 ≡ i + 1 = ground (arith, lt) in
                        let set =
                          ap stop_flag (sym next)
                          ∙ stopped_by (k + 1) (i + 1) s (omega (arith, at_end)) h in
                        let check : (i % 256 == 255) ≡ true = ground (arith, at_end) in
                        let impossible : ⊥ = ground (arith, runs, check, set) in elim impossible [ ]
                  ];
                })
        ]

    -- `circuit_tick_batch` leaves the state after some first ticks of the `n` that were asked for.
    -- It ends early only with the stop flag set, and once a tick has set the flag it runs at most to
    -- the next multiple of 256 ticks.
    pub circuit_tick_batch-Ran : (n : ℕ) (s : S) → Ran 0 n s (circuit_tick_batch n s)
    unfolding circuit_tick_batch
    circuit_tick_batch-Ran n s = batch_from-Ran n 0 s

    forever_from-returns :
        (k fuel j : ℕ) (s : S)
        → stop_flag (ticks (k + 1) s) ≡ true
        → j < (k + 16) / 16 * 16
        → (k + 16) / 16 * 16 ≤ j + fuel
        → (t : ℕ) × (forever_from fuel (j % 2 ^ 32) (ticks j s) ≡ some (ticks t s))
          × (t ≤ (k + 16) / 16 * 16)
          × (stop_flag (ticks t s) ≡ true)
    unfolding forever_from
    forever_from-returns k zero j s h lt enough = absurd (omega (arith, lt, enough))
    forever_from-returns k (suc fuel) j s h lt enough =
        let next = ticks-suc j s in
        elim (Bool-cases ((j % 2 ^ 32 % 16 == 15) && stop_flag (circuit_tick (ticks j s)))) [
          | inl stops ↦
              let set : stop_flag (circuit_tick (ticks j s)) ≡ true = ground (arith, stops) in
              (
                j + 1,
                rw (stops, forever_from) (ap some (sym next)),
                omega (arith, lt),
                ap stop_flag next ∙ set,
              )
          | inr runs ↦ elim (Bool-cases (ltb (j + 1) ((k + 16) / 16 * 16))) [
            | inl below ↦
                let (t, e, le, set) =
                  forever_from-returns k fuel (j + 1) s h (ground arith) (omega (arith, enough)) in
                let count : (j + 1) % 2 ^ 32 ≡ (j % 2 ^ 32 + 1) % 2 ^ 32 = omega arith in
                let e' =
                  sym (ap (λ c. forever_from fuel c (circuit_tick (ticks j s))) count)
                  ∙ ap (λ x. forever_from fuel ((j + 1) % 2 ^ 32) x) (sym next)
                  ∙ e in
                (t, rw (runs, forever_from) e', le, set)
            | inr last ↦
                let at_end : (k + 16) / 16 * 16 ≡ j + 1 = ground (arith, lt) in
                let set =
                  ap stop_flag (sym next)
                  ∙ stopped_by (k + 1) (j + 1) s (omega (arith, at_end)) h in
                let check : (j % 2 ^ 32 % 16 == 15) ≡ true = ground (arith, at_end) in
                let impossible : ⊥ = ground (arith, runs, check, set) in elim impossible [ ]
          ]
        ]

    -- `circuit_tick_forever` returns once a tick has set the stop flag, at the latest at the next
    -- multiple of 16 ticks, with the flag set.
    pub circuit_tick_forever-returns :
        (k fuel : ℕ) (s : S)
        → stop_flag (ticks (k + 1) s) ≡ true
        → (k + 16) / 16 * 16 ≤ fuel
        → (t : ℕ) × (circuit_tick_forever fuel s ≡ some (ticks t s))
          × (t ≤ (k + 16) / 16 * 16)
          × (stop_flag (ticks t s) ≡ true)
    unfolding circuit_tick_forever
    circuit_tick_forever-returns k fuel s h enough =
        forever_from-returns k fuel 0 s h (omega arith) (omega (arith, enough))
