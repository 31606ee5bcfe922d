-- ===== src/LoopCheck/Tests.antt =====
-- Runs of the loop check on small graphs.
use digital_circuit_simulati.Prelude.{
  ℕ, zero, suc, ◌<◌, ◌≡◌, ◌⊎◌, refl, some, List, [], ◌∷◌, get_elem?, arith,
}
use digital_circuit_simulati.LoopCheck.Walk.{IsClosed, Reach}
use digital_circuit_simulati.LoopCheck.Report.{IsCycle}
use digital_circuit_simulati.LoopCheck.Decides.{check_loops_decides}
use digital_circuit_simulati.LoopCheck.{Graph, check_loops, accepted, combinational_loop}
use digital_circuit_simulati.LoopCheck.{search_loop, dfs_cycle, start_loop, report}

-- 0 → 1 → 2 → 3 and 1 → 3
abbrev chain : Graph
chain = (1 ∷ []) ∷ (2 ∷ 3 ∷ []) ∷ (3 ∷ []) ∷ [] ∷ []

-- 0 → 1 → 2 → 1
abbrev looped : Graph
looped = (1 ∷ []) ∷ (2 ∷ []) ∷ (1 ∷ []) ∷ []

looped-IsClosed : IsClosed looped
looped-IsClosed zero v (i, e) = first i e
  where
    first : (i : ℕ) → get_elem? {A = ℕ} (1 ∷ []) i ≡ some v → v < 3
    first zero e = ground arith
    first (suc i) e = cc
looped-IsClosed (suc zero) v (i, e) = first i e
  where
    first : (i : ℕ) → get_elem? {A = ℕ} (2 ∷ []) i ≡ some v → v < 3
    first zero e = ground arith
    first (suc i) e = cc
looped-IsClosed (suc (suc zero)) v (i, e) = first i e
  where
    first : (i : ℕ) → get_elem? {A = ℕ} (1 ∷ []) i ≡ some v → v < 3
    first zero e = ground arith
    first (suc i) e = cc
looped-IsClosed (suc (suc (suc u))) v (i, e) = cc

chain_accepted : check_loops chain ≡ accepted
unfolding check_loops start_loop dfs_cycle search_loop
chain_accepted = refl

looped_refused : check_loops looped ≡ combinational_loop (1 ∷ 2 ∷ 1 ∷ [])
unfolding check_loops start_loop dfs_cycle search_loop report
looped_refused = refl

check_loops_decides_example :
    ((check_loops looped ≡ accepted) × ((u : ℕ) → ¬ Reach looped u u))
    ⊎ ((p : List ℕ) × (check_loops looped ≡ combinational_loop p) × IsCycle looped p)
check_loops_decides_example = check_loops_decides looped looped-IsClosed
