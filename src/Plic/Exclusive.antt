-- ===== src/Plic/Exclusive.antt =====
-- No source is claimed twice: a source is pending, or in service in one context, or neither.
use digital_circuit_simulati.Prelude.{
  ℕ, suc, ◌+◌, ◌-◌, ◌*◌, ◌/◌, ◌%◌, ◌^◌, ◌≤◌, ◌<◌, ◌≡◌, ◌≢◌, sym, ap, ◌∙◌, inl, inr, true, false,
  not, ◌&&◌, List, [], ◌∷◌, arith, bit_and, bit_or,
}
use digital_circuit_simulati.Prelude.{ltb, leb, ◌==◌, Bool-cases, ℕ_discrete}
use digital_circuit_simulati.Prelude.Bits.{
  bit, bit_le_one, bit-zero, bit-bit_and, bit-bit_or, bit-pow_self, bit-pow_ne, bit_complement,
  and_pow, or_lt, and_le,
}
use native.Mathlib.Nat.{pow-suc, pow-le-pow_right, one-le-pow}
use digital_circuit_simulati.Plic.{
  Plic, Context, Inputs, init, complement, has, context, with_context, arrive, best_source, claim,
  complete, access, tick, enable_mask, clamp,
}
use digital_circuit_simulati.Plic.Claim.{best_source-IsBest}

-- The pending mask and the two service masks: 32 bits wide, and no bit in two of them.
pub record Apart (p a b : ℕ) : Type 0 where
  pub p_word : p < 2 ^ 32
  pub a_word : a < 2 ^ 32
  pub b_word : b < 2 ^ 32
  pub once : (id : ℕ) → id < 32 → bit p id + bit a id + bit b id ≤ 1

Apart-swap : {p a b : ℕ} → Apart p a b → Apart p b a
Apart-swap h = record {
  p_word = h.p_word;
  a_word = h.b_word;
  b_word = h.a_word;
  once = λ id below. omega (arith, h.once id below);
}

arrive-Apart :
    {p a b : ℕ} (src : ℕ)
    → src < 2 ^ 32
    → Apart p a b
    → Apart (bit_or p (bit_and src (complement (bit_or a b)))) a b
arrive-Apart {p = p} {a = a} {b = b} src word h =
    let both = or_lt 32 a b h.a_word h.b_word in
    let new = bit_and src (complement (bit_or a b)) in
    record {
      p_word =
          or_lt 32 p new h.p_word (omega (arith, and_le 32 src (complement (bit_or a b)) word));
      a_word = h.a_word;
      b_word = h.b_word;
      once = λ id below. omega (
        arith,
        h.once id below,
        bit-bit_or p new id,
        bit-bit_and src (complement (bit_or a b)) id,
        bit_complement 32 (bit_or a b) id both below,
        bit-bit_or a b id,
        bit_le_one src id,
      );
    }

-- A source moves from the pending mask to a service mask.
claim-Apart :
    {p a b : ℕ} (id : ℕ)
    → id < 32
    → 2 ^ id < 2 ^ 32
    → bit p id ≡ 1
    → Apart p a b
    → Apart (bit_and p (complement (2 ^ id))) (bit_or a (2 ^ id)) b
claim-Apart {p = p} {a = a} {b = b} id low word waiting h = record {
  p_word = omega (arith, h.p_word, and_le 32 p (complement (2 ^ id)) h.p_word);
  a_word = or_lt 32 a (2 ^ id) h.a_word word;
  b_word = h.b_word;
  once = λ j below.
      let masked = bit-bit_and p (complement (2 ^ id)) j in
      let others = bit_complement 32 (2 ^ id) j word below in
      let joined = bit-bit_or a (2 ^ id) j in
      let before = h.once j below in
      elim (ℕ_discrete id j) [
        | yes same ↦
            let this : bit (2 ^ id) j ≡ 1 = ap (bit (2 ^ id)) (sym same) ∙ bit-pow_self id in
            let was : bit p j ≡ 1 = ap (bit p) (sym same) ∙ waiting in
            omega (arith, masked, others, joined, before, this, was)
        | no other ↦ omega (arith, masked, others, joined, before, bit-pow_ne id j other)
      ];
}

complete-Apart : {p a b : ℕ} (x : ℕ) → Apart p a b → Apart p (bit_and a x) b
complete-Apart {a = a} x h = record {
  p_word = h.p_word;
  a_word = omega (arith, h.a_word, and_le 32 a x h.a_word);
  b_word = h.b_word;
  once = λ id below. omega (arith, h.once id below, bit-bit_and a x id);
}

has-bit : (mask id : ℕ) → has mask id ≡ true → bit mask id ≡ 1
has-bit mask id h = ground (arith, and_pow id mask, bit_le_one mask id)

abbrev pub IsValid : Plic → Type 0
IsValid s = Apart s.pending s.c0.insvc s.c1.insvc

clamp_lt : (n : ℕ) → clamp n < 32
unfolding clamp
clamp_lt n = omega arith

pow_lt : (i k : ℕ) → i < k → 2 ^ i < 2 ^ k
pow_lt i k h =
    let grows : 2 ^ suc i ≤ 2 ^ k = pow-le-pow_right {n = 2} (omega arith) h in
    omega (arith, grows, pow-suc 2 i, one-le-pow i 2 (omega arith))

not_zeroth : (ctx : ℕ) → ctx ≢ 0 → (ctx == 0) ≡ false
not_zeroth ctx other = ground arith

zeroth : (ctx : ℕ) → ctx ≡ 0 → (ctx == 0) ≡ true
zeroth ctx h = ground arith

-- An update of one context alone, by its number.
with_context-IsValid :
    (ctx : ℕ) (c : Context) (s : Plic)
    → (ctx ≡ 0 → Apart s.pending c.insvc s.c1.insvc)
    → (ctx ≢ 0 → Apart s.pending s.c0.insvc c.insvc)
    → IsValid (with_context ctx c s)
with_context-IsValid ctx c s first second = elim (ℕ_discrete ctx 0) [
  | yes is_zero ↦ rw (zeroth ctx is_zero) (first is_zero)
  | no other ↦ rw (not_zeroth ctx other) (second other)
]

claim-IsValid : (n ctx : ℕ) (s : Plic) → n < 32 → IsValid s → IsValid (claim n ctx s)
unfolding claim
claim-IsValid n ctx s small h = elim (ℕ_discrete (best_source n ctx s) 0) [
  | yes none_waits ↦ rw none_waits h
  | no found ↦
      let best = best_source n ctx s in
      let test : (best == 0) ≡ false = ground arith in
      let (top, picked) = best_source-IsBest n ctx s in
      let (wants, at, below) = picked.chosen found in
      let word = pow_lt best 32 (omega arith) in
      let both = has-bit (bit_and s.pending (context ctx s).en) best wants.asks in
      let waiting : bit s.pending best ≡ 1 =
        omega
          (arith, both, bit-bit_and s.pending (context ctx s).en best, bit_le_one s.pending best) in
      rw test (
        with_context-IsValid ctx _ _
          (λ z. rw (zeroth ctx z) (claim-Apart best (omega arith) word waiting h))
          (λ z.
            rw (not_zeroth ctx z)
              (Apart-swap (claim-Apart best (omega arith) word waiting (Apart-swap h)))))
]

complete-IsValid : (n ctx id : ℕ) (s : Plic) → IsValid s → IsValid (complete n ctx id s)
unfolding complete
complete-IsValid n ctx id s h =
    elim (Bool-cases (leb id n && not (id == 0) && has (context ctx s).en id)) [
      | inl taken ↦ rw taken (
          with_context-IsValid ctx _ s
            (λ z. rw (zeroth ctx z) (complete-Apart (complement (2 ^ id)) h))
            (λ z.
              rw (not_zeroth ctx z)
                (Apart-swap (complete-Apart (complement (2 ^ id)) (Apart-swap h)))))
      | inr ignored ↦ rw ignored h
    ]

-- The writes to registers leave the masks alone.
set_en-IsValid :
    (ctx : ℕ) (v : ℕ) (s : Plic)
    → IsValid s
    → IsValid (with_context ctx (record (context ctx s) { en = v }) s)
set_en-IsValid ctx v s h =
    with_context-IsValid ctx _ s (λ z. rw (zeroth ctx z) h) (λ z. rw (not_zeroth ctx z) h)

set_thr-IsValid :
    (ctx : ℕ) (v : ℕ) (s : Plic)
    → IsValid s
    → IsValid (with_context ctx (record (context ctx s) { thr = v }) s)
set_thr-IsValid ctx v s h =
    with_context-IsValid ctx _ s (λ z. rw (zeroth ctx z) h) (λ z. rw (not_zeroth ctx z) h)

access-IsValid : (n : ℕ) (i : Inputs) (s : Plic) → n < 32 → IsValid s → IsValid (access n i s).0
unfolding access
access-IsValid n i s small h = elim (Bool-cases (ltb (i.adr % 2 ^ 24) (4 * (n + 1)))) [
  | inl q ↦ rw q (elim (Bool-cases (not i.we)) [
    | inl q ↦ rw q (h)
    | inr q ↦
        rw q
          (elim (Bool-cases (leb 1 ((i.adr % 2 ^ 24) / 4))) [ inl q ↦ rw q (h) | inr q ↦ rw q (h) ])
  ])
  | inr q ↦
      rw q
        (elim (Bool-cases
          (leb 0x1000 (i.adr % 2 ^ 24) && ltb (i.adr % 2 ^ 24) (0x1000 + 4 * (n + 1)))) [
            | inl q ↦ rw q (elim (Bool-cases (not i.we && (((i.adr % 2 ^ 24) - 0x1000) / 4 == 0))) [
              | inl q ↦ rw q (h)
              | inr q ↦ rw q (h)
            ])
            | inr q ↦
                rw q
                  (elim (Bool-cases
                    (leb 0x2000 (i.adr % 2 ^ 24) && ltb (i.adr % 2 ^ 24) (0x2000 + 2 * 0x80))) [
                      | inl q ↦
                          rw q (elim (Bool-cases (((i.adr % 2 ^ 24) - 0x2000) % 2 ^ 7 / 4 == 0)) [
                            | inl q ↦ rw q (elim (Bool-cases (not i.we)) [
                              | inl q ↦ rw q (h)
                              | inr q ↦ rw q (
                                  set_en-IsValid (((i.adr % 2 ^ 24) - 0x2000) / 2 ^ 7)
                                    (bit_and i.wdat (enable_mask n)) s h)
                            ])
                            | inr q ↦ rw q (h)
                          ])
                      | inr q ↦
                          rw q
                            (elim (Bool-cases (
                              leb 0x200000 (i.adr % 2 ^ 24)
                              && ltb (i.adr % 2 ^ 24) (0x200000 + 2 * 0x1000))) [
                                | inl q ↦
                                    rw q
                                      (elim (Bool-cases
                                        (((i.adr % 2 ^ 24) - 0x200000) % 2 ^ 12 == 0)) [
                                          | inl q ↦ rw q (elim (Bool-cases (not i.we)) [
                                            | inl q ↦ rw q (h)
                                            | inr q ↦ rw q (
                                                set_thr-IsValid
                                                  (((i.adr % 2 ^ 24) - 0x200000) / 2 ^ 12)
                                                  (i.wdat % 8) s h)
                                          ])
                                          | inr q ↦
                                              rw q
                                                (elim (Bool-cases
                                                  (((i.adr % 2 ^ 24) - 0x200000) % 2 ^ 12 == 4)) [
                                                    | inl q ↦ rw q (elim (Bool-cases (not i.we)) [
                                                      | inl q ↦ rw q (
                                                          claim-IsValid n
                                                            (((i.adr % 2 ^ 24) - 0x200000) / 2 ^ 12)
                                                            s small h)
                                                      | inr q ↦ rw q (
                                                          complete-IsValid n
                                                            (((i.adr % 2 ^ 24) - 0x200000) / 2 ^ 12)
                                                            i.wdat s h)
                                                    ])
                                                    | inr q ↦ rw q (h)
                                                  ])
                                        ])
                                | inr q ↦ rw q (h)
                              ])
                    ])
          ])
]

arrive-IsValid : (src : ℕ) (s : Plic) → IsValid s → IsValid (arrive src s)
unfolding arrive
arrive-IsValid src s h = arrive-Apart (src * 2 % 2 ^ 32) (omega arith) h

tick-IsValid : (n : ℕ) (i : Inputs) (s : Plic) → n < 32 → IsValid s → IsValid (tick n i s).0
unfolding tick
tick-IsValid n i s small h =
    let src = i.src % 2 ^ n in
    let active = i.stb && i.cyc in
    let woken = record s { prev_stb = active; last_src = src } in
    let arrived = arrive-IsValid src woken h in
    elim (Bool-cases (not active && not s.prev_stb && (src == s.last_src))) [
      | inl idle ↦ rw idle h
      | inr busy ↦ elim (Bool-cases (active && not s.prev_stb)) [
        | inl rise ↦ rw (busy, rise) (access-IsValid n i (arrive src woken) small arrived)
        | inr goes_on ↦ elim (Bool-cases active) [
          | inl held ↦
              rw (busy, goes_on, held)
                (arrive-IsValid src (record s { prev_stb = true; last_src = src }) h)
          | inr over ↦
              rw (busy, goes_on, over)
                (arrive-IsValid src (record s { prev_stb = false; last_src = src }) h)
        ]
      ]
    ]

unfoldable pub run : ℕ → List Inputs → Plic → Plic
run n [] s = s
run n (i ∷ is) s = run n is (tick n i s).0

run-IsValid : (n : ℕ) (is : List Inputs) (s : Plic) → n < 32 → IsValid s → IsValid (run n is s)
unfolding run
run-IsValid n [] s small h = h
run-IsValid n (i ∷ is) s small h =
    run-IsValid n is (tick n i s).0 small (tick-IsValid n i s small h)

init-IsValid : (n : ℕ) → IsValid (init n)
unfolding init
init-IsValid n = record {
  p_word = omega arith;
  a_word = omega arith;
  b_word = omega arith;
  once = λ id below. omega (arith, bit-zero id);
}

picked-IsFree :
    (n ctx : ℕ) (s : Plic)
    → n < 32
    → IsValid s
    → best_source n ctx s ≢ 0
    → (bit s.c0.insvc (best_source n ctx s) ≡ 0) × (bit s.c1.insvc (best_source n ctx s) ≡ 0)
picked-IsFree n ctx s small h found =
    let best = best_source n ctx s in
    let (top, picked) = best_source-IsBest n ctx s in
    let (wants, at, below) = picked.chosen found in
    let both = has-bit (bit_and s.pending (context ctx s).en) best wants.asks in
    let masked = bit-bit_and s.pending (context ctx s).en best in
    let once = h.once best (omega arith) in
    (
      omega (arith, both, masked, once, bit_le_one s.pending best),
      omega (arith, both, masked, once, bit_le_one s.pending best),
    )

-- After any sequence of ticks of a controller with any number of sources, no source is both
-- pending and in service or in service in both contexts, and the source that a claim of either
-- context would take is in service in none.
pub claims_stay_apart :
    (n : ℕ) (is : List Inputs)
    → let s = run (clamp n) is (init (clamp n)) in
      IsValid s
      × ((ctx : ℕ)
          → best_source (clamp n) ctx s ≢ 0
          → (bit s.c0.insvc (best_source (clamp n) ctx s) ≡ 0)
            × (bit s.c1.insvc (best_source (clamp n) ctx s) ≡ 0))
claims_stay_apart n is =
    let small = clamp_lt n in
    let valid = run-IsValid (clamp n) is (init (clamp n)) small (init-IsValid (clamp n)) in
    (valid, λ ctx found. picked-IsFree (clamp n) ctx _ small valid found)
