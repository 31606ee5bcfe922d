-- ===== src/LoopCheck/Report.antt =====
-- The report of a loop: from the path that the search leaves to the nets that the message names.
use digital_circuit_simulati.Prelude.{
  ℕ, ◌≡◌, refl, sym, ap, subst, inl, inr, true, false, List, [], ◌∷◌, ◌++◌, arith,
}
use digital_circuit_simulati.Prelude.{In, Bool-cases, ◌==◌, ==_iff}
use digital_circuit_simulati.LoopCheck.{Graph, last_or, report, report_loop}
use digital_circuit_simulati.LoopCheck.Walk.{IsWalk, last_or-snoc}

-- A walk whose last net stands on it before.
abbrev pub IsLoop : Graph → List ℕ → Type 0
IsLoop g p = (q : List ℕ) × (s : ℕ) × (p ≡ q ++ s ∷ []) × In s q × IsWalk g p

-- A closed walk: it ends where it begins.
abbrev pub IsCycle : Graph → List ℕ → Type 0
IsCycle g p = (s : ℕ) × (mid : List ℕ) × (p ≡ s ∷ mid ++ s ∷ []) × IsWalk g p

report_inside : (s : ℕ) (q : List ℕ) → report_loop s true (q ++ s ∷ []) ≡ q ++ s ∷ []
unfolding report_loop
report_inside s [] = refl
report_inside s (x ∷ []) = refl
report_inside s (x ∷ y ∷ q) = ap (λ t. x ∷ t) (report_inside s (y ∷ q))

report_loop-IsCycle :
    (g : Graph) (s : ℕ) (q : List ℕ)
    → In s q
    → IsWalk g (q ++ s ∷ [])
    → IsCycle g (report_loop s false (q ++ s ∷ []))
unfolding report_loop
report_loop-IsCycle g s [] m w = absurd m
report_loop-IsCycle g s (x ∷ []) m w = elim (Bool-cases (x == s)) [
  | inl c ↦ rw c (s, [], rw ((==_iff x s).0 c), w)
  | inr c ↦ absurd (elim m [ inl same ↦ cc (c, (==_iff x s).1 same) | inr none_left ↦ none_left ])
]
report_loop-IsCycle g s (x ∷ y ∷ q) m w = elim (Bool-cases (x == s)) [
  | inl c ↦ rw (c, report_inside s (y ∷ q)) (s, y ∷ q, rw ((==_iff x s).0 c), w)
  | inr c ↦ rw c (report_loop-IsCycle g s (y ∷ q) (ground (arith, (==_iff x s).1)) w.1)
]

pub report-IsCycle : (g : Graph) (p : List ℕ) → IsLoop g p → IsCycle g (report p)
unfolding report
report-IsCycle g p (q, s, e, m, w) =
    subst (λ t. IsCycle g (report_loop (last_or t 0) false t)) (sym e)
      (rw (last_or-snoc q s 0) (report_loop-IsCycle g s q m (subst (IsWalk g) e w)))
