-- ===== src/Interconnect/Slaves.antt =====
-- The lines of the slaves after the bus is driven or released.
use digital_circuit_simulati.Prelude.{
  ℕ, zero, suc, ◌+◌, ◌<◌, ◌≡◌, ◌≢◌, refl, sym, ap, subst, ◌∙◌, ◌⊎◌, inl, inr, Bool, true, false,
  ◌&&◌, Option, none, some, List, [], ◌∷◌, arith,
}
use digital_circuit_simulati.Prelude.{
  length, get_or, set, ltb, leb, Bool-cases, ℕ_discrete, get_or-set_ne, get_or-set_self, length-set,
}
use digital_circuit_simulati.Interconnect.{
  Lines, idle, Segment, Interconnect, clear_at, same_slave, drive, release, decode_from,
}
use digital_circuit_simulati.Interconnect.Select.{gated}

-- All slaves but the driven one see idle lines.
pub record IsQuiet (s : Interconnect) : Type 0 where
  pub others : (k : ℕ) → some k ≢ s.wsi → get_or s.slaves k idle ≡ idle

cleared_at : (xs : List Lines) (k : ℕ) → get_or (set xs k idle) k idle ≡ idle
cleared_at [] k = refl
cleared_at (x ∷ xs) zero = refl
cleared_at (x ∷ xs) (suc k) = cleared_at xs k

clear_at-others :
    (o : Option ℕ) (xs : List Lines) (si : ℕ)
    → ((k : ℕ) → some k ≢ o → k ≢ si → get_or xs k idle ≡ idle)
    → (k : ℕ) → k ≢ si
    → get_or (clear_at o xs) k idle ≡ idle
clear_at-others none xs si h k ne = h k (λ e. cc) ne
clear_at-others (some x) xs si h k ne = elim (ℕ_discrete x k) [
  | yes same ↦ subst (λ t. get_or (set xs t idle) k idle ≡ idle) (sym same) (cleared_at xs k)
  | no other ↦ get_or-set_ne xs x k idle idle other ∙ h k (λ e. other (ground arith)) ne
]

clear_at-all :
    (o : Option ℕ) (xs : List Lines)
    → ((k : ℕ) → some k ≢ o → get_or xs k idle ≡ idle)
    → (k : ℕ) → get_or (clear_at o xs) k idle ≡ idle
clear_at-all none xs h k = h k (λ e. cc)
clear_at-all (some x) xs h k = elim (ℕ_discrete x k) [
  | yes same ↦ subst (λ t. get_or (set xs t idle) k idle ≡ idle) (sym same) (cleared_at xs k)
  | no other ↦ get_or-set_ne xs x k idle idle other ∙ h k (λ e. other (ground arith))
]

driven : (o : Option ℕ) (si : ℕ) → same_slave o si ≡ true → o ≡ some si
driven none si h = cc
driven (some x) si h = let same : x ≡ si = ground arith in ap some same

pub drive-IsQuiet :
    (si : ℕ) (gap : Bool) (l : Lines) (s : Interconnect) → IsQuiet s → IsQuiet (drive si gap l s)
unfolding drive
drive-IsQuiet si gap l s h =
    let written = set s.slaves si (gated gap l) in
    let before : (k : ℕ) → some k ≢ s.wsi → k ≢ si → get_or written k idle ≡ idle = λ k out ne.
      get_or-set_ne s.slaves si k (gated gap l) idle (λ e. ne (sym e)) ∙ h.others k out in
    elim (Bool-cases (same_slave s.wsi si)) [
      | inl stays ↦ rw stays (record {
        others = λ k out. before k (λ e. out (e ∙ driven s.wsi si stays)) (λ e. out (ap some e));
      })
      | inr moves ↦ rw moves (record {
        others = λ k out. clear_at-others s.wsi written si before k (λ e. out (ap some e));
      })
    ]

pub release-IsQuiet : (s : Interconnect) → IsQuiet s → IsQuiet (release s)
unfolding release
release-IsQuiet s h = record { others = λ k out. clear_at-all s.wsi s.slaves h.others k }

-- The selected slave sees the lines.
clear_at-kept :
    (o : Option ℕ) (xs : List Lines) (si : ℕ)
    → same_slave o si ≡ false
    → get_or (clear_at o xs) si idle ≡ get_or xs si idle
clear_at-kept none xs si h = refl
clear_at-kept (some x) xs si h = get_or-set_ne xs x si idle idle (λ e. ground arith)

pub drive-selected :
    (si : ℕ) (gap : Bool) (l : Lines) (s : Interconnect)
    → si < length s.slaves
    → get_or (drive si gap l s).slaves si idle ≡ gated gap l
unfolding drive
drive-selected si gap l s lt =
    let here = get_or-set_self s.slaves si (gated gap l) idle lt in
    elim (Bool-cases (same_slave s.wsi si)) [
      | inl stays ↦ rw stays here
      | inr moves ↦ rw moves (clear_at-kept s.wsi (set s.slaves si (gated gap l)) si moves ∙ here)
    ]

pub length-clear_at : (o : Option ℕ) (xs : List Lines) → length (clear_at o xs) ≡ length xs
length-clear_at none xs = refl
length-clear_at (some k) xs = length-set xs k idle

pub length-drive :
    (si : ℕ) (gap : Bool) (l : Lines) (s : Interconnect)
    → length (drive si gap l s).slaves ≡ length s.slaves
unfolding drive
length-drive si gap l s = elim (Bool-cases (same_slave s.wsi si)) [
  | inl stays ↦ rw stays (length-set s.slaves si (gated gap l))
  | inr moves ↦
      rw moves (
        length-clear_at s.wsi (set s.slaves si (gated gap l))
        ∙ length-set s.slaves si (gated gap l))
]

pub decode_lt :
    (i : ℕ) (ss : List Segment) (adr : ℕ)
    → (decode_from i ss adr ≡ 0) ⊎ (decode_from i ss adr < i + length ss)
unfolding decode_from
decode_lt i [] adr = inl refl
decode_lt i (x ∷ ss) adr = elim (Bool-cases (leb x.base adr && ltb adr (x.base + x.size))) [
  | inl hit ↦ rw hit (inr (omega arith))
  | inr miss ↦
      rw miss (elim (decode_lt (suc i) ss adr) [ inl e ↦ inl e | inr lt ↦ inr (omega (arith, lt)) ])
]
