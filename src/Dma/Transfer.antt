-- ===== src/Dma/Transfer.antt =====
-- What a transfer does to the memory behind the bus, whatever the configuration port is used for
-- meanwhile and however long the memory takes to answer.
use digital_circuit_simulati.Prelude.{
  ℕ, zero, suc, ◌+◌, ◌-◌, ◌*◌, ◌%◌, ◌^◌, ◌≤◌, ◌<◌, ◌≡◌, refl, ap, ◌∙◌, ◌⊎◌, inl, inr, Bool, true,
  false, ◌&&◌, arith,
}
use digital_circuit_simulati.Prelude.{leb, ◌==◌, if◌then◌else◌, Bool-cases, ℕ_discrete}
use digital_circuit_simulati.Dma.{Dma, Inputs, config, master, tick, write_reg, word_done}

-- The memory, by word address.
abbrev pub Memory : Type 0
Memory = ℕ → ℕ

abbrev pub store : ℕ → ℕ → Memory → Memory
store a v m = λ x. if x == a then v else m x

-- What a tick brings from outside: the configuration port, and whether the memory answers now.
pub record Event : Type 0 where
  pub cfg_adr : ℕ
  pub cfg_dat : ℕ
  pub cfg_we : Bool
  pub cfg_stb : Bool
  pub cfg_cyc : Bool
  pub answers : Bool

pub record System : Type 0 where
  pub dma : Dma
  pub mem : Memory

-- The memory answers only a request that stands on the bus.
abbrev pub acked : Event → System → Bool
acked e s = e.answers && s.dma.m_stb && s.dma.m_cyc

abbrev pub inputs : Event → System → Inputs
inputs e s = record {
  cfg_adr = e.cfg_adr;
  cfg_dat = e.cfg_dat;
  cfg_we = e.cfg_we;
  cfg_stb = e.cfg_stb;
  cfg_cyc = e.cfg_cyc;
  m_dat_i = s.mem s.dma.m_adr;
  m_ack_i = acked e s;
}

-- One rising edge of the component and its memory.
unfoldable pub step : Event → System → System
step e s = record {
  dma = (tick (inputs e s) s.dma).0;
  mem = if acked e s && s.dma.m_we then store s.dma.m_adr s.dma.m_dat s.mem else s.mem;
}

-- The specification: `n` words are copied one after the other, upwards; addresses are 32 bits wide.
unfoldable pub copy_words : ℕ → ℕ → ℕ → Memory → Memory
copy_words src dst zero m = m
copy_words src dst (suc n) m =
    let m' = copy_words src dst n m in
    store ((dst + 4 * n) % 2 ^ 32) (m' ((src + 4 * n) % 2 ^ 32)) m'

module _ (src dst words : ℕ) (before : Memory) where
  -- `i` words have been copied and the next one is under way.
  pub record Moving (s : System) (i : ℕ) : Type 0 where
    pub progress : i < words
    pub busy : s.dma.busy ≡ true
    pub done : s.dma.done ≡ false
    pub src_at : s.dma.src ≡ (src + 4 * i) % 2 ^ 32
    pub dst_at : s.dma.dst ≡ (dst + 4 * i) % 2 ^ 32
    pub remain_at : s.dma.remain + 4 * i ≡ 4 * words
    pub mem_at : s.mem ≡ copy_words src dst i before
    pub state : (1 ≤ s.dma.st) × (s.dma.st ≤ 4)
    pub reading :
        s.dma.st ≡ 2
        → (s.dma.m_adr ≡ s.dma.src)
          × (s.dma.m_we ≡ false)
          × (s.dma.m_stb ≡ true)
          × (s.dma.m_cyc ≡ true)
    pub read : (s.dma.st ≡ 3) ⊎ (s.dma.st ≡ 4) → s.dma.rd_val ≡ s.mem s.dma.src
    pub writing :
        s.dma.st ≡ 4
        → (s.dma.m_adr ≡ s.dma.dst)
          × (s.dma.m_dat ≡ s.dma.rd_val)
          × (s.dma.m_we ≡ true)
          × (s.dma.m_stb ≡ true)
          × (s.dma.m_cyc ≡ true)
    pub quiet : (s.dma.st ≡ 1) ⊎ (s.dma.st ≡ 3) → s.dma.m_stb ≡ false

  pub record Moved (s : System) : Type 0 where
    pub busy : s.dma.busy ≡ false
    pub done : s.dma.done ≡ true
    pub idle : s.dma.st ≡ 5
    pub mem_at : s.mem ≡ copy_words src dst words before

-- While a transfer runs, the configuration port changes none of its registers.
pub record KeepsTransfer (d d' : Dma) : Type 0 where
  pub src : d'.src ≡ d.src
  pub dst : d'.dst ≡ d.dst
  pub remain : d'.remain ≡ d.remain
  pub rd_val : d'.rd_val ≡ d.rd_val
  pub busy : d'.busy ≡ d.busy
  pub done : d'.done ≡ d.done
  pub st : d'.st ≡ d.st
  pub m_adr : d'.m_adr ≡ d.m_adr
  pub m_dat : d'.m_dat ≡ d.m_dat
  pub m_we : d'.m_we ≡ d.m_we
  pub m_stb : d'.m_stb ≡ d.m_stb
  pub m_cyc : d'.m_cyc ≡ d.m_cyc

write_reg_busy : (i : Inputs) (d : Dma) → d.busy ≡ true → write_reg i d ≡ d
unfolding write_reg
write_reg_busy i d h = ground arith

pub config_busy : (i : Inputs) (d : Dma) → d.busy ≡ true → KeepsTransfer d (config i d).0
unfolding config
config_busy i d h =
    ground (arith, write_reg_busy i (record d { prev_stb = i.cfg_stb && i.cfg_cyc }))

-- The master's rounds, by its state.
master_read :
    (i : Inputs) (d : Dma)
    → d.st ≡ 1
    → master i d ≡ record d { m_adr = d.src; m_we = false; m_stb = true; m_cyc = true; st = 2 }
unfolding master
master_read i d h = rw h refl

master_wait :
    (i : Inputs) (d : Dma)
    → d.st ≡ 2
    → master i d ≡ (
        if i.m_ack_i
        then record d { rd_val = i.m_dat_i; m_stb = false; m_cyc = false; st = 3 }
        else d)
unfolding master
master_wait i d h = rw h refl

master_write :
    (i : Inputs) (d : Dma)
    → d.st ≡ 3
    → master i d ≡ record d {
      m_adr = d.dst;
      m_dat = d.rd_val;
      m_we = true;
      m_stb = true;
      m_cyc = true;
      st = 4;
    }
unfolding master
master_write i d h = rw h refl

master_ack : (i : Inputs) (d : Dma) → d.st ≡ 4 → master i d ≡ (if i.m_ack_i then word_done d else d)
unfolding master
master_ack i d h = ground arith

master_done : (i : Inputs) (d : Dma) → d.st ≡ 4 → i.m_ack_i ≡ true → master i d ≡ word_done d
master_done i d at acked = master_ack i d at ∙ ap (λ b. if b then word_done d else d) acked

master_stay : (i : Inputs) (d : Dma) → d.st ≡ 4 → i.m_ack_i ≡ false → master i d ≡ d
master_stay i d at waits = master_ack i d at ∙ ap (λ b. if b then word_done d else d) waits

word_done_more :
    (d : Dma)
    → 4 < d.remain
    → word_done d ≡ record d {
      m_stb = false;
      m_cyc = false;
      src = (d.src + 4) % 2 ^ 32;
      dst = (d.dst + 4) % 2 ^ 32;
      remain = d.remain - 4;
      st = 1;
    }
unfolding word_done
word_done_more d h =
    let big : leb 4 d.remain ≡ true = ground arith in
    let left : (d.remain - 4 == 0) ≡ false = ground arith in rw (big, left) refl

word_done_last :
    (d : Dma)
    → d.remain ≡ 4
    → word_done d ≡ record d {
      m_stb = false;
      m_cyc = false;
      src = (d.src + 4) % 2 ^ 32;
      dst = (d.dst + 4) % 2 ^ 32;
      remain = 0;
      busy = false;
      done = true;
      st = 5;
    }
unfolding word_done
word_done_last d h = rw h refl

store_eq : {a a' v v' : ℕ} {m m' : Memory} → a ≡ a' → v ≡ v' → m ≡ m' → store a v m ≡ store a' v' m'
store_eq {a' = a'} {v = v} {v' = v'} {m = m} p q r =
    ap (λ x. store x v m) p ∙ ap (λ x. store a' x m) q ∙ ap (λ x. store a' v' x) r

-- The next address of a run of words.
next_at : (a b i : ℕ) → a ≡ (b + 4 * i) % 2 ^ 32 → (a + 4) % 2 ^ 32 ≡ (b + 4 * suc i) % 2 ^ 32
next_at a b i h = omega arith

states : (x : ℕ) → (1 ≤ x) × (x ≤ 4) → (x ≡ 1) ⊎ (x ≡ 2) ⊎ (x ≡ 3) ⊎ (x ≡ 4)
states x h = ground arith

-- One for a tick on which the memory answers.
abbrev pub answer : Event → ℕ
answer e = if e.answers then 1 else 0

-- The step leaves the word unfinished; an answer moves the state machine on.
abbrev pub Stays : ℕ → ℕ → ℕ → Memory → Event → System → ℕ → Type 0
Stays src dst words before e s i =
    Moving src dst words before (step e s) i × (s.dma.st + answer e ≤ (step e s).dma.st)

module _ (src dst words : ℕ) (before : Memory) (e : Event) (s : System) (i : ℕ)
    (h : Moving src dst words before s i) where
  d' : Dma
  d' = (config (inputs e s) s.dma).0

  k : KeepsTransfer s.dma d'
  unfolding d'
  k = config_busy (inputs e s) s.dma h.busy

  step_read : s.dma.st ≡ 1 → Stays src dst words before e s i
  unfolding step tick d'
  step_read at_read =
      let go = master_read (inputs e s) d' (k.st ∙ at_read) in
      let quiet = h.quiet (inl at_read) in
      rw go (
        record {
          progress = h.progress;
          busy = ground (arith, k, h);
          done = ground (arith, k, h);
          src_at = ground (arith, k, h);
          dst_at = ground (arith, k, h);
          remain_at = ground (arith, k, h);
          mem_at = ground (arith, h.mem_at);
          state = ground arith;
          reading = λ q. ground (arith, k);
          read = λ q. ground arith;
          writing = λ q. ground arith;
          quiet = λ q. ground arith;
        },
        ground (arith, at_read),
      )

  step_wait : s.dma.st ≡ 2 → Stays src dst words before e s i
  unfolding step tick d'
  step_wait at_wait =
      let go = master_wait (inputs e s) d' (k.st ∙ at_wait) in
      let asks = h.reading at_wait in
      rw go (
        record {
          progress = h.progress;
          busy = ground (arith, k, h.busy);
          done = ground (arith, k, h.done);
          src_at = ground (arith, k, h.src_at);
          dst_at = ground (arith, k, h.dst_at);
          remain_at = ground (arith, k, h.remain_at);
          mem_at = ground (arith, h.mem_at, asks);
          state = ground (arith, k);
          reading = λ q. ground (arith, k, asks);
          read = λ q. ground (arith, k, asks);
          writing = λ q. ground (arith, k);
          quiet = λ q. ground (arith, k);
        },
        ground (arith, k, at_wait, asks),
      )

  step_write : s.dma.st ≡ 3 → Stays src dst words before e s i
  unfolding step tick d'
  step_write at_write =
      let go = master_write (inputs e s) d' (k.st ∙ at_write) in
      let quiet = h.quiet (inr at_write) in
      let value = h.read (inl at_write) in
      rw go (
        record {
          progress = h.progress;
          busy = ground (arith, k, h.busy);
          done = ground (arith, k, h.done);
          src_at = ground (arith, k, h.src_at);
          dst_at = ground (arith, k, h.dst_at);
          remain_at = ground (arith, k, h.remain_at);
          mem_at = ground (arith, h.mem_at, quiet);
          state = ground (arith, k);
          reading = λ q. ground (arith, k);
          read = λ q. ground (arith, k, value, quiet);
          writing = λ q. ground (arith, k);
          quiet = λ q. ground (arith, k);
        },
        ground (arith, at_write),
      )

  stored : s.dma.st ≡ 4 → e.answers ≡ true → (step e s).mem ≡ copy_words src dst (suc i) before
  unfolding step copy_words
  stored at_ack answers =
      let (at, value, writes, stb, cyc) = h.writing at_ack in
      let take : (acked e s && s.dma.m_we) ≡ true = rw (answers, stb, cyc, writes) refl in
      let read_now =
        value
        ∙ h.read (inr at_ack)
        ∙ ap s.mem h.src_at
        ∙ ap (λ m. m ((src + 4 * i) % 2 ^ 32)) h.mem_at in
      ap (λ b. if b then store s.dma.m_adr s.dma.m_dat s.mem else s.mem) take
      ∙ store_eq (at ∙ h.dst_at) read_now h.mem_at

  step_stay : s.dma.st ≡ 4 → e.answers ≡ false → Stays src dst words before e s i
  unfolding step tick d'
  step_stay at_ack waits =
      let go = master_stay (inputs e s) d' (k.st ∙ at_ack) (ground arith) in
      let asks = h.writing at_ack in
      let value = h.read (inr at_ack) in
      rw (go, waits)
        (
          record {
            progress = h.progress;
            busy = ground (arith, k, h.busy);
            done = ground (arith, k, h.done);
            src_at = ground (arith, k, h.src_at);
            dst_at = ground (arith, k, h.dst_at);
            remain_at = ground (arith, k, h.remain_at);
            mem_at = ground (arith, h.mem_at);
            state = ground (arith, k);
            reading = λ q. ground (arith, k);
            read = λ q. ground (arith, k, value);
            writing = λ q. ground (arith, k, asks);
            quiet = λ q. ground (arith, k);
          },
          ground (arith, k, at_ack),
        )

  step_more :
      s.dma.st ≡ 4
      → e.answers ≡ true
      → suc i < words
      → Moving src dst words before (step e s) (suc i) × ((step e s).dma.st ≡ 1)
  unfolding tick d' step
  step_more at_ack answers more =
      let asks = h.writing at_ack in
      let done_now = master_done (inputs e s) d' (k.st ∙ at_ack) (ground (arith, asks)) in
      let go = done_now ∙ word_done_more d' (omega (arith, k.remain, h.remain_at)) in
      let mem_now = stored at_ack answers in
      rw go (
        record {
          progress = more;
          busy = ground (arith, k, h.busy);
          done = ground (arith, k, h.done);
          src_at = next_at d'.src src i (k.src ∙ h.src_at);
          dst_at = next_at d'.dst dst i (k.dst ∙ h.dst_at);
          remain_at = omega (arith, k.remain, h.remain_at);
          mem_at = mem_now;
          state = ground arith;
          reading = λ q. ground arith;
          read = λ q. ground arith;
          writing = λ q. ground arith;
          quiet = λ q. refl;
        },
        refl,
      )

  step_last :
      s.dma.st ≡ 4 → e.answers ≡ true → suc i ≡ words → Moved src dst words before (step e s)
  unfolding tick d' step
  step_last at_ack answers last =
      let asks = h.writing at_ack in
      let done_now = master_done (inputs e s) d' (k.st ∙ at_ack) (ground (arith, asks)) in
      let go = done_now ∙ word_done_last d' (omega (arith, k.remain, h.remain_at)) in
      let mem_now = stored at_ack answers ∙ ap (λ n. copy_words src dst n before) last in
      rw go (record { busy = refl; done = refl; idle = refl; mem_at = mem_now })

  pub step_moves :
      Stays src dst words before e s i
      ⊎ Moving src dst words before (step e s) (suc i) × ((step e s).dma.st ≡ 1)
      ⊎ Moved src dst words before (step e s)
  step_moves = elim (states s.dma.st h.state) [
    | inl at_read ↦ inl (step_read at_read)
    | inr (inl at_wait) ↦ inl (step_wait at_wait)
    | inr (inr (inl at_write)) ↦ inl (step_write at_write)
    | inr (inr (inr at_ack)) ↦ elim (Bool-cases e.answers) [
      | inr waits ↦ inl (step_stay at_ack waits)
      | inl answers ↦ elim (ℕ_discrete (suc i) words) [
        | yes last ↦ inr (inr (step_last at_ack answers last))
        | no more ↦ inr (inl (step_more at_ack answers (omega (arith, h.progress, more))))
      ]
    ]
  ]
