-- ===== src/AsyncFifo/Crossing.antt =====
-- The asynchronous fifo as a queue between two clocks.
use digital_circuit_simulati.Prelude.{
  ℕ, suc, ◌+◌, ◌-◌, ◌*◌, ◌/◌, ◌%◌, ◌^◌, ◌≤◌, ◌<◌, ◌≡◌, ◌≢◌, refl, sym, ap, ◌∙◌, Bool, true, false,
  List, [], ◌∷◌, ◌++◌, bit_and, bit_xor, arith,
}
use digital_circuit_simulati.Prelude.{length, get_or, set, length-set, if◌then◌else◌}
use digital_circuit_simulati.Prelude.Bits.{and_mask}
use native.Mathlib.Nat.{
  pow-suc, one-le-pow, mod-lt, mod-add-mod, div-add-mod, add-mul-mod_self_left,
}
use digital_circuit_simulati.Fifo.Ring.{slots, slots_pop, slots_push}
use digital_circuit_simulati.AsyncFifo.{AsyncFifo, gray_code, is_full, is_empty}
use digital_circuit_simulati.AsyncFifo.Gray.{gray_code-ahead}

-- How many words were written and read, and the counts that the two synchronisers hold.
pub record Counts : Type 0 where
  pub w : ℕ
  pub w1 : ℕ
  pub w2 : ℕ
  pub r : ℕ
  pub r1 : ℕ
  pub r2 : ℕ

module _ (a : ℕ) where
  abbrev pub depth : ℕ
  depth = 2 ^ suc a

  abbrev pub range : ℕ
  range = 2 ^ suc (suc a)

  -- The pointers are the counts modulo their range, and the memory holds the queue.
  pub record Matches (n : Counts) (s : AsyncFifo) (q : List ℕ) : Type 0 where
    pub wbin : s.wbin ≡ n.w % range
    pub rbin : s.rbin ≡ n.r % range
    pub wg_s1 : s.wg_s1 ≡ gray_code (n.w1 % range)
    pub wg_s2 : s.wg_s2 ≡ gray_code (n.w2 % range)
    pub rg_s1 : s.rg_s1 ≡ gray_code (n.r1 % range)
    pub rg_s2 : s.rg_s2 ≡ gray_code (n.r2 % range)
    pub written : (n.w2 ≤ n.w1) × (n.w1 ≤ n.w)
    pub read : (n.r2 ≤ n.r1) × (n.r1 ≤ n.r)
    pub behind : n.r ≤ n.w2
    pub room : n.w ≤ n.r2 + depth
    pub storage : length s.mem ≡ depth
    pub holds : slots s.mem depth (n.r % depth) (n.w - n.r) ≡ q

  low_part : (x : ℕ) → x % range % depth ≡ x % depth
  low_part x =
      let split : x ≡ x % range + depth * (2 * (x / range)) =
        omega (arith, div-add-mod x range, ap (λ m. m * (x / range)) (pow-suc 2 (suc a))) in
      sym (ap (λ t. t % depth) split ∙ add-mul-mod_self_left (x % range) depth (2 * (x / range)))

  slot_at : (x : ℕ) → bit_and (x % range) (depth - 1) ≡ x % depth
  slot_at x = and_mask (suc a) (x % range) ∙ low_part x

  advance : (x : ℕ) → bit_and (x % range + 1) (range - 1) ≡ (x + 1) % range
  advance x = and_mask (suc (suc a)) (x % range + 1) ∙ mod-add-mod x range 1

  -- A flag that is not raised.
  pub not_empty :
      (n : Counts) (s : AsyncFifo) (q : List ℕ) → Matches n s q → is_empty s ≡ false → n.r ≢ n.w2
  not_empty n s q h e same =
      let codes : gray_code s.rbin ≡ s.wg_s2 =
        ap gray_code h.rbin ∙ ap (λ t. gray_code (t % range)) same ∙ sym h.wg_s2 in
      let impossible : ⊥ = ground (arith, codes, e) in elim impossible [ ]

  ahead_code :
      (x : ℕ) → gray_code ((x + depth) % range) ≡ bit_xor (gray_code (x % range)) (3 * 2 ^ a)
  ahead_code x =
      ap gray_code (sym (mod-add-mod x range depth))
      ∙ gray_code-ahead a (x % range) (mod-lt x (omega (arith, one-le-pow (suc (suc a)) 2)))

  flip :
      (n : Counts) (s : AsyncFifo) (q : List ℕ)
      → Matches n s q
      → bit_xor s.rg_s2 (3 * 2 ^ (suc (suc a) - 2)) ≡ gray_code ((n.r2 + depth) % range)
  flip n s q h =
      let exponent : suc (suc a) - 2 ≡ a = omega arith in
      ap (λ t. bit_xor s.rg_s2 (3 * 2 ^ t)) exponent
      ∙ ap (λ t. bit_xor t (3 * 2 ^ a)) h.rg_s2
      ∙ sym (ahead_code n.r2)

  pub not_full :
      (n : Counts) (s : AsyncFifo) (q : List ℕ)
      → Matches n s q
      → is_full (suc (suc a)) s ≡ false
      → n.w ≢ n.r2 + depth
  not_full n s q h e same =
      let codes : gray_code s.wbin ≡ bit_xor s.rg_s2 (3 * 2 ^ (suc (suc a) - 2)) =
        ap gray_code h.wbin ∙ ap (λ t. gray_code (t % range)) same ∙ sym (flip n s q h) in
      let impossible : ⊥ = ground (arith, codes, e) in elim impossible [ ]

  -- The queue after a word was read or not.
  abbrev pub kept : Bool → List ℕ → List ℕ
  kept pops [] = []
  kept pops (x ∷ q) = if pops then q else x ∷ q

  pub kept_all : (q : List ℕ) → kept false q ≡ q
  kept_all [] = refl
  kept_all (x ∷ q) = refl

  abbrev pub after_read : Bool → ℕ → AsyncFifo → AsyncFifo
  after_read pops wg s =
      let popped =
        if pops
        then record s {
          rdata = get_or s.mem (bit_and s.rbin (depth - 1)) 0;
          rbin = bit_and (s.rbin + 1) (range - 1);
        }
        else s in
      record popped { wg_s2 = s.wg_s1; wg_s1 = wg }

  oldest :
      (n : Counts) (s : AsyncFifo) (q : List ℕ)
      → Matches n s q
      → n.r ≢ n.w2
      → q
        ≡ get_or s.mem (bit_and s.rbin (depth - 1)) 0
          ∷ slots s.mem depth ((n.r + 1) % depth) (n.w - (n.r + 1))
  oldest n s q h fresh =
      let some_word : 0 < n.w - n.r = omega (arith, h.written.0, h.written.1, h.behind, fresh) in
      let pos : 0 < depth = omega (arith, one-le-pow (suc a) 2) in
      let at : bit_and s.rbin (depth - 1) ≡ n.r % depth =
        ap (λ t. bit_and t (depth - 1)) h.rbin ∙ slot_at n.r in
      let left : n.w - n.r - 1 ≡ n.w - (n.r + 1) = omega arith in
      sym h.holds
      ∙ slots_pop s.mem depth (n.r % depth) (n.w - n.r) (mod-lt n.r pos) some_word
      ∙ ap (λ t. get_or s.mem t 0 ∷ slots s.mem depth ((n.r % depth + 1) % depth) (n.w - n.r - 1))
          (sym at)
      ∙ ap (λ t. get_or s.mem (bit_and s.rbin (depth - 1)) 0 ∷ slots s.mem depth t (n.w - n.r - 1))
          (mod-add-mod n.r depth 1)
      ∙ ap
          (λ t.
            get_or s.mem (bit_and s.rbin (depth - 1)) 0 ∷ slots s.mem depth ((n.r + 1) % depth) t)
          left

  pub after_read-Matches :
      (pops : Bool) (n : Counts) (s : AsyncFifo) (q : List ℕ)
      → Matches n s q
      → (pops ≡ true → n.r ≢ n.w2)
      → let s' = after_read pops (gray_code s.wbin) s in
        let n' = record n { w1 = n.w; w2 = n.w1; r = if pops then n.r + 1 else n.r } in
        Matches n' s' (kept pops q) × (pops ≡ true → q ≡ s'.rdata ∷ kept true q)
  after_read-Matches false n s q h fresh = (
    record {
      wbin = h.wbin;
      rbin = h.rbin;
      wg_s1 = ap gray_code h.wbin;
      wg_s2 = h.wg_s1;
      rg_s1 = h.rg_s1;
      rg_s2 = h.rg_s2;
      written = (h.written.1, omega arith);
      read = h.read;
      behind = omega (arith, h.behind, h.written.0);
      room = h.room;
      storage = h.storage;
      holds = h.holds ∙ sym (kept_all q);
    },
    λ e. cc,
  )
  after_read-Matches true n s q h fresh =
      let word = oldest n s q h (fresh refl) in
      let rest = ap (kept true) word in
      (
        record {
          wbin = h.wbin;
          rbin = ap (λ t. bit_and (t + 1) (range - 1)) h.rbin ∙ advance n.r;
          wg_s1 = ap gray_code h.wbin;
          wg_s2 = h.wg_s1;
          rg_s1 = h.rg_s1;
          rg_s2 = h.rg_s2;
          written = (h.written.1, omega arith);
          read = (h.read.0, omega (arith, h.read.1));
          behind = omega (arith, h.behind, h.written.0, fresh refl);
          room = h.room;
          storage = h.storage;
          holds = sym rest;
        },
        λ e. word ∙ ap (λ t. get_or s.mem (bit_and s.rbin (depth - 1)) 0 ∷ t) (sym rest),
      )

  abbrev pub after_write : ℕ → Bool → ℕ → ℕ → AsyncFifo → AsyncFifo
  after_write bit_width pushes din rg s =
      let pushed =
        if pushes
        then record s {
          mem = set s.mem (bit_and s.wbin (depth - 1)) (bit_and din (2 ^ bit_width - 1));
          wbin = bit_and (s.wbin + 1) (range - 1);
        }
        else s in
      record pushed { rg_s2 = s.rg_s1; rg_s1 = rg }

  -- The queue after a word was written or not.
  abbrev pub joined : Bool → ℕ → List ℕ → List ℕ
  joined pushes v q = if pushes then q ++ v ∷ [] else q

  pub after_write-Matches :
      (bit_width : ℕ) (pushes : Bool) (din r0 : ℕ) (n : Counts) (s : AsyncFifo) (q : List ℕ)
      → Matches n s q
      → n.r1 ≤ r0
      → r0 ≤ n.r
      → (pushes ≡ true → n.w ≢ n.r2 + depth)
      → let n' = record n { r1 = r0; r2 = n.r1; w = if pushes then n.w + 1 else n.w } in
        Matches n'
          (after_write bit_width pushes din (gray_code (r0 % range)) s)
          (joined pushes (bit_and din (2 ^ bit_width - 1)) q)
  after_write-Matches bit_width false din r0 n s q h older newer room = record {
    wbin = h.wbin;
    rbin = h.rbin;
    wg_s1 = h.wg_s1;
    wg_s2 = h.wg_s2;
    rg_s1 = refl;
    rg_s2 = h.rg_s1;
    written = h.written;
    read = (older, newer);
    behind = h.behind;
    room = omega (arith, h.room, h.read.0);
    storage = h.storage;
    holds = h.holds;
  }
  after_write-Matches bit_width true din r0 n s q h older newer room =
      let v = bit_and din (2 ^ bit_width - 1) in
      let spot = bit_and s.wbin (depth - 1) in
      let at : spot ≡ n.w % depth = ap (λ t. bit_and t (depth - 1)) h.wbin ∙ slot_at n.w in
      let total : n.r + (n.w - n.r) ≡ n.w = omega (arith, h.written.0, h.written.1, h.behind) in
      let place : spot ≡ (n.r % depth + (n.w - n.r)) % depth =
        at ∙ ap (λ t. t % depth) (sym total) ∙ sym (mod-add-mod n.r depth (n.w - n.r)) in
      let fits : n.w - n.r < depth =
        omega (arith, h.room, h.read.0, h.read.1, room refl, h.written.0, h.written.1, h.behind) in
      let more : n.w + 1 - n.r ≡ n.w - n.r + 1 =
        omega (arith, h.written.0, h.written.1, h.behind) in
      record {
        wbin = ap (λ t. bit_and (t + 1) (range - 1)) h.wbin ∙ advance n.w;
        rbin = h.rbin;
        wg_s1 = h.wg_s1;
        wg_s2 = h.wg_s2;
        rg_s1 = refl;
        rg_s2 = h.rg_s1;
        written = (h.written.0, omega (arith, h.written.1));
        read = (older, newer);
        behind = h.behind;
        room = omega (arith, h.room, h.read.0, room refl);
        storage = length-set s.mem spot v ∙ h.storage;
        holds =
            ap (slots (set s.mem spot v) depth (n.r % depth)) more
            ∙ slots_push s.mem depth (n.r % depth) (n.w - n.r) spot v h.storage fits place
            ∙ ap (λ t. t ++ v ∷ []) h.holds;
      }
