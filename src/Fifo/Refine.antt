-- ===== src/Fifo/Refine.antt =====
-- The component as a bounded queue: on each tick, and over every sequence of ticks from the start.
use digital_circuit_simulati.Prelude.{
  ℕ, ◌+◌, ◌-◌, ◌%◌, ◌^◌, ◌≤◌, ◌<◌, ◌≡◌, refl, sym, ap, subst, ◌∙◌, inl, inr, Bool, true, false,
  Option, none, some, List, [], ◌∷◌, ◌++◌, arith, bit_and,
}
use digital_circuit_simulati.Prelude.{
  length, replicate, length-set, length-replicate, ltb, leb, ◌==◌, if◌then◌else◌, Bool-cases,
  ltb→lt,
}
use digital_circuit_simulati.Prelude.Bits.{and_mask}
use native.Mathlib.Nat.{mod-add-mod, mod-lt, mod-eq_of_lt}
use digital_circuit_simulati.Fifo.{
  Fifo, Inputs, Outputs, accepts, init, reset, read, write, outputs, tick,
}
use digital_circuit_simulati.Fifo.Ring.{slots, length-slots, slots_pop, slots_push, power_of_two}

pub record IsValid (depth : ℕ) (s : Fifo) : Type 0 where
  pub storage : length s.mem ≡ depth
  pub rd_in : s.rd_ptr < depth
  pub count_in : s.count ≤ depth
  pub wr_at : s.wr_ptr ≡ (s.rd_ptr + s.count) % depth

abbrev pub contents : ℕ → Fifo → List ℕ
contents depth s = slots s.mem depth s.rd_ptr s.count

-- The queue that the component promises.
abbrev pub pop_front : List ℕ → List ℕ
pop_front [] = []
pop_front (x ∷ xs) = xs

abbrev pub push_back : ℕ → ℕ → List ℕ → List ℕ
push_back depth v q = if ltb (length q) depth then q ++ v ∷ [] else q

unfoldable pub next : ℕ → Inputs → List ℕ → List ℕ
next depth i q =
    let kept = if i.rd_en then pop_front q else q in
    let stepped = if i.wr_en then push_back depth i.din kept else kept in
    if i.rst then [] else (if i.rising then stepped else q)

module _ (depth k : ℕ) (power : depth ≡ 2 ^ k) where
  wrap : (x : ℕ) → bit_and x (depth - 1) ≡ x % depth
  wrap x = rw power (and_mask k x)

  reset-IsValid :
      (rst : Bool) (s : Fifo) → 0 < depth → IsValid depth s → IsValid depth (reset rst s)
  unfolding reset
  reset-IsValid true s pos h = record {
    storage = h.storage;
    rd_in = pos;
    count_in = omega arith;
    wr_at = sym (mod-eq_of_lt pos);
  }
  reset-IsValid false s pos h = h

  read_refines :
      (rd_en : Bool) (s : Fifo)
      → IsValid depth s
      → IsValid depth (read depth rd_en s)
        × (contents depth (read depth rd_en s)
            ≡ (if rd_en then pop_front (contents depth s) else contents depth s))
  unfolding read
  read_refines false s h = (h, refl)
  read_refines true s h = elim (Bool-cases (ltb 0 s.count)) [
    | inl some_left ↦
        let pos = ltb→lt 0 s.count some_left in
        rw (some_left, wrap (s.rd_ptr + 1))
          (
            record {
              storage = h.storage;
              rd_in = mod-lt (s.rd_ptr + 1) (omega (arith, h.rd_in));
              count_in = omega (arith, h.count_in);
              wr_at =
                  h.wr_at
                  ∙ ap (λ t. t % depth) (omega arith)
                  ∙ sym (mod-add-mod (s.rd_ptr + 1) depth (s.count - 1));
            },
            rw (slots_pop s.mem depth s.rd_ptr s.count h.rd_in pos) refl,
          )
    | inr none_left ↦ let zero_left : s.count ≡ 0 = ground arith in rw none_left (h, ground arith)
  ]

  write_refines :
      (wr_en : Bool) (v : ℕ) (s : Fifo)
      → IsValid depth s
      → IsValid depth (write depth wr_en v s)
        × (contents depth (write depth wr_en v s)
            ≡ (if wr_en then push_back depth v (contents depth s) else contents depth s))
  unfolding write
  write_refines false v s h = (h, refl)
  write_refines true v s h = elim (Bool-cases (ltb s.count depth)) [
    | inl room ↦
        let lt = ltb→lt s.count depth room in
        rw (room, wrap (s.wr_ptr + 1), length-slots s.mem depth s.rd_ptr s.count, room)
          (
            record {
              storage = rw length-set h.storage;
              rd_in = h.rd_in;
              count_in = omega arith;
              wr_at =
                  ap (λ t. (t + 1) % depth) h.wr_at
                  ∙ mod-add-mod (s.rd_ptr + s.count) depth 1
                  ∙ ap (λ t. t % depth) (omega arith);
            },
            slots_push s.mem depth s.rd_ptr s.count s.wr_ptr v h.storage lt h.wr_at,
          )
    | inr full ↦ rw (full, length-slots s.mem depth s.rd_ptr s.count, full) (h, refl)
  ]

  edge_refines :
      (i : Inputs) (s : Fifo)
      → IsValid depth s
      → let s' = write depth i.wr_en i.din (read depth i.rd_en s) in
        let kept = if i.rd_en then pop_front (contents depth s) else contents depth s in
        IsValid depth s'
        × (contents depth s' ≡ (if i.wr_en then push_back depth i.din kept else kept))
  edge_refines i s h =
      let (valid, same) = read_refines i.rd_en s h in
      let (valid', same') = write_refines i.wr_en i.din (read depth i.rd_en s) valid in
      (valid', same' ∙ ap (λ q. if i.wr_en then push_back depth i.din q else q) same)

  tick_state :
      (i : Inputs) (s : Fifo)
      → 0 < depth
      → IsValid depth s
      → IsValid depth (tick depth i s).0
        × (contents depth (tick depth i s).0 ≡ next depth i (contents depth s))
  unfolding tick next reset
  tick_state i s pos h = elim (Bool-cases i.rst) [
    | inl r ↦ elim (Bool-cases i.rising) [
      | inl u ↦ rw (r, u) (reset-IsValid true s pos h, refl)
      | inr u ↦ rw (r, u) (reset-IsValid true s pos h, refl)
    ]
    | inr r ↦ elim (Bool-cases i.rising) [
      | inl u ↦ rw (r, u) (edge_refines i s h)
      | inr u ↦ rw (r, u) (h, refl)
    ]
  ]

-- What a user sees: the flags, and the data output while the queue is not empty.
pub record Seen : Type 0 where
  pub full : Bool
  pub front : Option ℕ

abbrev pub observe : Outputs → Seen
observe o = record { full = o.full; front = if o.is_empty then none else some o.dout }

abbrev pub head_of : List ℕ → Option ℕ
head_of [] = none
head_of (x ∷ xs) = some x

abbrev pub show : ℕ → List ℕ → Seen
show depth q = record { full = leb depth (length q); front = head_of q }

unfoldable pub run : ℕ → Fifo → List Inputs → List Seen
run depth s [] = []
run depth s (i ∷ is) = let (s', o) = tick depth i s in observe o ∷ run depth s' is

unfoldable pub run_queue : ℕ → List ℕ → List Inputs → List Seen
run_queue depth q [] = []
run_queue depth q (i ∷ is) = show depth (next depth i q) ∷ run_queue depth (next depth i q) is

observe-outputs :
    (depth : ℕ) (s : Fifo)
    → IsValid depth s
    → observe (outputs depth s) ≡ show depth (contents depth s)
unfolding outputs
observe-outputs depth s h = elim (Bool-cases (s.count == 0)) [
  | inl none_left ↦
      let zero_left : s.count ≡ 0 = ground arith in
      ground (arith, ap (slots s.mem depth s.rd_ptr) zero_left)
  | inr some_left ↦ ground (
    arith,
    length-slots s.mem depth s.rd_ptr s.count,
    slots_pop s.mem depth s.rd_ptr s.count h.rd_in,
  )
]

tick-outputs :
    (depth : ℕ) (i : Inputs) (s : Fifo) → (tick depth i s).1 ≡ outputs depth (tick depth i s).0
unfolding tick
tick-outputs depth i s = refl

accepts_depth :
    (data_width depth : ℕ)
    → accepts data_width depth ≡ true
    → (2 ≤ depth) × (depth ≤ 65536) × (bit_and depth (depth - 1) ≡ 0)
unfolding accepts
accepts_depth data_width depth h = ground arith

pub init-IsValid :
    (data_width depth : ℕ) (s : Fifo)
    → init data_width depth ≡ some s
    → (2 ≤ depth) × ((k : ℕ) × (depth ≡ 2 ^ k)) × IsValid depth s × (s.count ≡ 0)
unfolding init
init-IsValid data_width depth s e = elim (Bool-cases (accepts data_width depth)) [
  | inr refused ↦ absurd (cc (rw refused at e))
  | inl fine ↦
      let (two, limit, power) = accepts_depth data_width depth fine in
      let fresh : Fifo = record { mem = replicate depth 0; wr_ptr = 0; rd_ptr = 0; count = 0 } in
      let same : fresh ≡ s = cc (rw fine at e) in
      (
        two,
        power_of_two depth (omega arith) power,
        subst (IsValid depth) same (record {
          storage = length-replicate depth 0;
          rd_in = omega arith;
          count_in = omega arith;
          wr_at = sym (mod-eq_of_lt (omega arith));
        }),
        ap (λ (t : Fifo). t.count) (sym same),
      )
]

run_refines :
    (depth k : ℕ) (power : depth ≡ 2 ^ k) (is : List Inputs) (s : Fifo)
    → 0 < depth
    → IsValid depth s
    → run depth s is ≡ run_queue depth (contents depth s) is
unfolding run run_queue
run_refines depth k power [] s pos h = refl
run_refines depth k power (i ∷ is) s pos h =
    let (valid, same) = tick_state depth k power i s pos h in
    cc (
      tick-outputs depth i s,
      observe-outputs depth (tick depth i s).0 valid,
      same,
      run_refines depth k power is (tick depth i s).0 pos valid,
    )

-- From the constructor on, for every accepted width and depth and every sequence of ticks, the
-- flags and the data output are those of a queue of at most `depth` words: reset empties it, a
-- rising edge takes the oldest word off when `rd_en` is set and then adds `din` when `wr_en` is set
-- and there is room, and nothing else changes it.
pub fifo_refines_queue :
    (data_width depth : ℕ) (s : Fifo) (is : List Inputs)
    → init data_width depth ≡ some s
    → run depth s is ≡ run_queue depth [] is
unfolding init
fifo_refines_queue data_width depth s is e =
    let (two, (k, power), valid, none_yet) = init-IsValid data_width depth s e in
    run_refines depth k power is s (omega arith) valid
    ∙ ap (λ n. run_queue depth (slots s.mem depth s.rd_ptr n) is) none_yet
