-- ===== src/AsyncFifo/Sequence.antt =====
-- The words that cross the asynchronous fifo, over every sequence of ticks.
use digital_circuit_simulati.Prelude.{
  ℕ, zero, suc, ◌+◌, ◌-◌, ◌/◌, ◌%◌, ◌^◌, ◌≤◌, ◌≡◌, ◌≢◌, refl, sym, ap, subst, ◌∙◌, Bool, true,
  false, not, ◌&&◌, List, [], ◌∷◌, ◌++◌, bit_and, arith,
}
use digital_circuit_simulati.Prelude.{length, length-replicate, ltb, if◌then◌else◌}
use native.Mathlib.Nat.{pow-suc, one-le-pow, zero-mod}
use digital_circuit_simulati.Fifo.Ring.{length-slots}
use digital_circuit_simulati.AsyncFifo.{
  AsyncFifo, Inputs, init, gray_code, is_full, is_empty, read_edge, write_edge, tick, addr_bits,
}
use digital_circuit_simulati.AsyncFifo.Crossing.{
  Counts, depth, range, Matches, not_empty, not_full, kept, kept_all, after_read-Matches,
  after_write-Matches, joined,
}

-- The address width of a power of two.
addr_bits-pow : (k fuel : ℕ) → k ≤ fuel → addr_bits fuel (2 ^ k) ≡ k
unfolding addr_bits
addr_bits-pow zero zero h = refl
addr_bits-pow zero (suc fuel) h = refl
addr_bits-pow (suc k) zero h = absurd (omega (arith, h))
addr_bits-pow (suc k) (suc fuel) h =
    let half : 2 ^ suc k / 2 ≡ 2 ^ k = omega (arith, pow-suc 2 k) in
    let big : ltb 1 (2 ^ suc k) ≡ true = ground (arith, pow-suc 2 k, one-le-pow k 2) in
    rw (big, half, addr_bits-pow k fuel (omega (arith, h))) (omega arith)

below_pow : (k : ℕ) → k ≤ 2 ^ k
below_pow zero = omega arith
below_pow (suc k) = omega (arith, below_pow k, pow-suc 2 k, one-le-pow k 2)

module _ (a : ℕ) where
  -- Whether a word leaves or enters in a tick, by the flags of its start.
  abbrev pub pops : Inputs → AsyncFifo → Bool
  pops i s = (i.rclk && not s.prev_rclk) && (i.ren && not (is_empty s))

  abbrev pub pushes : Inputs → AsyncFifo → Bool
  pushes i s = (i.wclk && not s.prev_wclk) && (i.wen && not (is_full (suc (suc a)) s))

  record ReadDone (n : Counts) (s s' : AsyncFifo) (q q' : List ℕ) : Type 0 where
    pub counts : Counts
    pub matches : Matches a counts s' q'
    pub same : (counts.w ≡ n.w) × (counts.r1 ≡ n.r1) × (counts.r2 ≡ n.r2) × (n.r ≤ counts.r)

  read_stage :
      (edge ren no_data : Bool) (n : Counts) (s : AsyncFifo) (q : List ℕ)
      → Matches a n s q
      → (no_data ≡ false → n.r ≢ n.w2)
      → let s' =
          if edge then read_edge (depth a) (suc (suc a)) ren no_data (gray_code s.wbin) s else s in
        ReadDone n s s' q (kept a (edge && (ren && not no_data)) q)
        × (edge && (ren && not no_data) ≡ true → q ≡ s'.rdata ∷ kept a true q)
  unfolding read_edge
  read_stage false ren no_data n s q h fresh = (
    record {
      counts = n;
      matches = subst (Matches a n s) (sym (kept_all a q)) h;
      same = (refl, refl, refl, omega arith);
    },
    λ e. cc,
  )
  read_stage true ren no_data n s q h fresh =
      let (m, word) =
        after_read-Matches a (ren && not no_data) n s q h (λ e. fresh (ground arith)) in
      (
        record {
          counts = record n {
            w1 = n.w;
            w2 = n.w1;
            r = if ren && not no_data then n.r + 1 else n.r;
          };
          matches = m;
          same = (refl, refl, refl, ground arith);
        },
        word,
      )

  write_stage :
      (bit_width : ℕ) (edge wen no_room : Bool) (din r0 : ℕ) (n : Counts) (s : AsyncFifo)
      (q : List ℕ)
      → Matches a n s q
      → n.r1 ≤ r0
      → r0 ≤ n.r
      → (no_room ≡ false → n.w ≢ n.r2 + depth a)
      → let s' =
          if edge
          then write_edge bit_width
              (depth a)
              (suc (suc a))
              wen
              no_room
              din
              (gray_code (r0 % range a))
              s
          else s in
        (n' : Counts) × Matches a n' s'
          (joined a (edge && (wen && not no_room)) (bit_and din (2 ^ bit_width - 1)) q)
        × (s'.rdata ≡ s.rdata)
  unfolding write_edge
  write_stage bit_width false wen no_room din r0 n s q h older newer room = (n, h, refl)
  write_stage bit_width true wen no_room din r0 n s q h older newer room = (
    record n { r1 = r0; r2 = n.r1; w = if wen && not no_room then n.w + 1 else n.w },
    after_write-Matches a bit_width (wen && not no_room) din r0 n s q h older newer
        (λ e. room (ground arith)),
    ground arith,
  )

  clocked-Matches :
      (n : Counts) (s : AsyncFifo) (q : List ℕ) (x y : Bool)
      → Matches a n s q
      → Matches a n (record s { prev_wclk = x; prev_rclk = y }) q
  clocked-Matches n s q x y h = record {
    wbin = h.wbin;
    rbin = h.rbin;
    wg_s1 = h.wg_s1;
    wg_s2 = h.wg_s2;
    rg_s1 = h.rg_s1;
    rg_s2 = h.rg_s2;
    written = h.written;
    read = h.read;
    behind = h.behind;
    room = h.room;
    storage = h.storage;
    holds = h.holds;
  }

  -- The state after a tick, for a width of the pointers and a code of the read pointer.
  abbrev stepped : ℕ → Inputs → AsyncFifo → ℕ → ℕ → AsyncFifo
  stepped bit_width i s pw rg =
      let s1 =
        if i.rclk && not s.prev_rclk
        then read_edge (depth a) pw i.ren (is_empty s) (gray_code s.wbin) s
        else s in
      let s2 =
        if i.wclk && not s.prev_wclk
        then write_edge bit_width (depth a) pw i.wen (is_full pw s) i.din rg s1
        else s1 in
      record s2 { prev_wclk = i.wclk; prev_rclk = i.rclk }

  tick-stepped :
      (bit_width : ℕ) (i : Inputs) (n : Counts) (s : AsyncFifo)
      → s.rbin ≡ n.r % range a
      → (tick bit_width (depth a) i s).0
        ≡ stepped bit_width i s (suc (suc a)) (gray_code (n.r % range a))
  unfolding tick
  tick-stepped bit_width i n s at =
      let bits : addr_bits (depth a) (depth a) + 1 ≡ suc (suc a) =
        ap (λ t. t + 1) (addr_bits-pow (suc a) (depth a) (below_pow (suc a))) ∙ omega arith in
      ap (λ pw. stepped bit_width i s pw (gray_code s.rbin)) bits
      ∙ ap (λ t. stepped bit_width i s (suc (suc a)) (gray_code t)) at

  tick-Matches :
      (bit_width : ℕ) (i : Inputs) (n : Counts) (s : AsyncFifo) (q : List ℕ)
      → Matches a n s q
      → let s' = (tick bit_width (depth a) i s).0 in
        (n' : Counts) × Matches a n' s'
          (joined a (pushes i s) (bit_and i.din (2 ^ bit_width - 1)) (kept a (pops i s) q))
        × (pops i s ≡ true → q ≡ s'.rdata ∷ kept a true q)
  tick-Matches bit_width i n s q h =
      let whole = sym (tick-stepped bit_width i n s h.rbin) in
      let (st, word) =
        read_stage (i.rclk && not s.prev_rclk) i.ren (is_empty s) n s q h (not_empty a n s q h) in
      let s1 =
        if i.rclk && not s.prev_rclk
        then read_edge (depth a) (suc (suc a)) i.ren (is_empty s) (gray_code s.wbin) s
        else s in
      let (same_w, same_r1, same_r2, grown) = st.same in
      let (n', m, kept_data) =
        write_stage bit_width (i.wclk && not s.prev_wclk) i.wen (is_full (suc (suc a)) s) i.din n.r
          st.counts s1 (kept a (pops i s) q) st.matches (omega (arith, same_r1, h.read.1)) grown
          (λ e still. not_full a n s q h e (omega (arith, still, same_w, same_r2))) in
      let q' = joined a (pushes i s) (bit_and i.din (2 ^ bit_width - 1)) (kept a (pops i s) q) in
      (
        n',
        subst (λ t. Matches a n' t q') whole (clocked-Matches n' _ q' i.wclk i.rclk m),
        λ p. word p ∙ ap (λ t. t ∷ kept a true q) (sym kept_data ∙ ap (λ t. t.rdata) whole),
      )

  -- The words that enter and leave over a sequence of ticks.
  abbrev pub entered : ℕ → List Inputs → AsyncFifo → List ℕ
  entered bit_width [] s = []
  entered bit_width (i ∷ is) s =
      let rest = entered bit_width is (tick bit_width (depth a) i s).0 in
      if pushes i s then bit_and i.din (2 ^ bit_width - 1) ∷ rest else rest

  abbrev pub left : ℕ → List Inputs → AsyncFifo → List ℕ
  left bit_width [] s = []
  left bit_width (i ∷ is) s =
      let next = (tick bit_width (depth a) i s).0 in
      let rest = left bit_width is next in if pops i s then next.rdata ∷ rest else rest

  joined_assoc :
      (p : Bool) (v : ℕ) (q rest : List ℕ)
      → joined a p v q ++ rest ≡ q ++ (if p then v ∷ rest else rest)
  joined_assoc false v q rest = refl
  joined_assoc true v [] rest = refl
  joined_assoc true v (x ∷ q) rest = ap (λ t. x ∷ t) (joined_assoc true v q rest)

  queue_short : (n : Counts) (s : AsyncFifo) (q : List ℕ) → Matches a n s q → length q ≤ depth a
  queue_short n s q h =
      let size = ap length h.holds in
      omega (
        arith,
        size,
        length-slots s.mem (depth a) (n.r % depth a) (n.w - n.r),
        h.room,
        h.read.0,
        h.read.1,
      )

  run-Matches :
      (bit_width : ℕ) (is : List Inputs) (n : Counts) (s : AsyncFifo) (q : List ℕ)
      → Matches a n s q
      → (q' : List ℕ) × (q ++ entered bit_width is s ≡ left bit_width is s ++ q')
        × (length q' ≤ depth a)
  run-Matches bit_width [] n s q h = (q, append_nil q, queue_short n s q h)
    where
      append_nil : (q : List ℕ) → q ++ [] ≡ q
      append_nil [] = refl
      append_nil (x ∷ q) = ap (λ t. x ∷ t) (append_nil q)
  run-Matches bit_width (i ∷ is) n s q h =
      let v = bit_and i.din (2 ^ bit_width - 1) in
      let next = (tick bit_width (depth a) i s).0 in
      let (n', m, word) = tick-Matches bit_width i n s q h in
      let (q', e, small) =
        run-Matches bit_width is n' next (joined a (pushes i s) v (kept a (pops i s) q)) m in
      let moved : kept a (pops i s) q ++ entered bit_width (i ∷ is) s
          ≡ left bit_width is next ++ q' =
        sym (joined_assoc (pushes i s) v (kept a (pops i s) q) (entered bit_width is next)) ∙ e in
      (
        q',
        front (pops i s) next.rdata q (entered bit_width (i ∷ is) s) (left bit_width is next) q'
            word moved,
        small,
      )
    where
      front :
          (p : Bool) (x : ℕ) (q ins outs q' : List ℕ)
          → (p ≡ true → q ≡ x ∷ kept a true q)
          → kept a p q ++ ins ≡ outs ++ q'
          → q ++ ins ≡ (if p then x ∷ outs else outs) ++ q'
      front false x q ins outs q' word e = ap (λ t. t ++ ins) (sym (kept_all a q)) ∙ e
      front true x q ins outs q' word e = ap (λ t. t ++ ins) (word refl) ∙ ap (λ t. x ∷ t) e

  start : Counts
  start = record { w = 0; w1 = 0; w2 = 0; r = 0; r1 = 0; r2 = 0 }

  init-Matches : Matches a start (init (depth a)) []
  unfolding init start gray_code
  init-Matches =
      let none_yet : 0 ≡ 0 % range a = sym (zero-mod (range a)) in
      let code : 0 ≡ gray_code (0 % range a) = ap gray_code none_yet in
      record {
        wbin = none_yet;
        rbin = none_yet;
        wg_s1 = code;
        wg_s2 = code;
        rg_s1 = code;
        rg_s2 = code;
        written = (omega arith, omega arith);
        read = (omega arith, omega arith);
        behind = omega arith;
        room = omega arith;
        storage = length-replicate (depth a) 0;
        holds = refl;
      }

  -- For a depth of `2 ^ (a + 1)`, over every sequence of ticks of the two clocks from the
  -- start, the words that were read are the first ones of those that were written, in their
  -- order, and at most as many as the depth are still in the fifo.
  pub run_keeps_order :
      (bit_width : ℕ) (is : List Inputs)
      → (q : List ℕ) × (entered bit_width is (init (depth a))
          ≡ left bit_width is (init (depth a)) ++ q)
        × (length q ≤ depth a)
  run_keeps_order bit_width is = run-Matches bit_width is start (init (depth a)) [] init-Matches
