-- ===== src/Plic/Claim.antt =====
-- What a claim picks: among the candidates the one of the highest priority, and the lowest number
-- among equals.
use digital_circuit_simulati.Prelude.{
  ℕ, zero, suc, ◌+◌, ◌≤◌, ◌<◌, ◌≡◌, ◌≢◌, refl, sym, ap, subst, ◌∙◌, inl, inr, true, false, ◌&&◌,
  List, arith, bit_and,
}
use digital_circuit_simulati.Prelude.{ltb, get_or, Bool-cases, ℕ_discrete}
use digital_circuit_simulati.Plic.{has, scan, Plic, context, best_source}

-- The sources from `id` up to `limit` that want service, with a priority above 0.
module _ (prio : List ℕ) (cand : ℕ) where
  pub record Wants (id : ℕ) : Type 0 where
    pub asks : has cand id ≡ true
    pub some_priority : 0 < get_or prio id 0

  -- `best` is 0 when no source below `limit` wants service, and otherwise the first of the
  -- sources of the highest priority.
  pub record IsBest (limit bestp best : ℕ) : Type 0 where
    pub nothing : best ≡ 0 → bestp ≡ 0
    pub chosen : best ≢ 0 → Wants best × (bestp ≡ get_or prio best 0) × (best < limit)
    pub highest : (id : ℕ) → 1 ≤ id → id < limit → has cand id ≡ true → get_or prio id 0 ≤ bestp
    pub first : (id : ℕ) → 1 ≤ id → id < best → has cand id ≡ true → get_or prio id 0 < bestp

  step_up :
      (id bestp best : ℕ)
      → 1 ≤ id
      → IsBest id bestp best
      → (has cand id && ltb bestp (get_or prio id 0)) ≡ true
      → IsBest (suc id) (get_or prio id 0) id
  step_up id bestp best pos h up =
      let asks : has cand id ≡ true = ground arith in
      let more : bestp < get_or prio id 0 = ground arith in
      record {
        nothing = λ z. let impossible : ⊥ = omega arith in elim impossible [ ];
        chosen = λ z. (record { asks = asks; some_priority = omega arith }, refl, omega arith);
        highest = λ j one below j_asks. elim (ℕ_discrete j id) [
          | yes same ↦ omega (arith, ap (λ k. get_or prio k 0) same)
          | no other ↦ omega (arith, h.highest j one (omega arith) j_asks)
        ];
        first = λ j one below j_asks. omega (arith, h.highest j one below j_asks);
      }

  step_keep :
      (id bestp best : ℕ)
      → 1 ≤ id
      → IsBest id bestp best
      → (has cand id && ltb bestp (get_or prio id 0)) ≡ false
      → IsBest (suc id) bestp best
  step_keep id bestp best pos h keep =
      let low : has cand id ≡ true → get_or prio id 0 ≤ bestp = λ a. ground arith in
      record {
        nothing = h.nothing;
        chosen = λ z. let (wants, at, below) = h.chosen z in (wants, at, omega arith);
        highest = λ j one below j_asks. elim (ℕ_discrete j id) [
          | yes same ↦
              omega (arith, ap (λ k. get_or prio k 0) same, low (ap (has cand) (sym same) ∙ j_asks))
          | no other ↦ omega (arith, h.highest j one (omega arith) j_asks)
        ];
        first = h.first;
      }

  scan-IsBest :
      (id todo bestp best : ℕ)
      → 1 ≤ id
      → IsBest id bestp best
      → IsBest
          (id + todo)
          (scan id todo prio cand bestp best).0
          (scan id todo prio cand bestp best).1
  unfolding scan
  scan-IsBest id zero bestp best pos h = subst (λ l. IsBest l bestp best) (omega arith) h
  scan-IsBest id (suc todo) bestp best pos h =
      let later : suc id + todo ≡ id + suc todo = omega arith in
      elim (Bool-cases (has cand id && ltb bestp (get_or prio id 0))) [
        | inl up ↦
            rw (up, ← later)
              (scan-IsBest (suc id) todo (get_or prio id 0) id (omega arith)
                (step_up id bestp best pos h up))
        | inr keep ↦
            rw (keep, ← later)
              (scan-IsBest (suc id) todo bestp best (omega arith)
                (step_keep id bestp best pos h keep))
      ]

-- Source 0 does not exist, so a claim reads 0 exactly when no enabled pending source has a
-- priority above 0; otherwise it reads a source that is pending, enabled and of the highest
-- priority among those, and the one of the lowest number of them.
pub best_source-IsBest :
    (n ctx : ℕ) (s : Plic)
    → (top : ℕ) × IsBest s.prio
        (bit_and s.pending (context ctx s).en)
        (1 + n)
        top
        (best_source n ctx s)
unfolding best_source
best_source-IsBest n ctx s = (
  _,
  scan-IsBest s.prio (bit_and s.pending (context ctx s).en) 1 n 0 0 (omega arith) (record {
    nothing = λ z. refl;
    chosen = λ z. let impossible : ⊥ = z refl in elim impossible [ ];
    highest = λ j one below j_asks. let impossible : ⊥ = omega arith in elim impossible [ ];
    first = λ j one below j_asks. let impossible : ⊥ = omega arith in elim impossible [ ];
  }),
)
