-- ===== src/LoopCheck/Decides.antt =====
-- The search from one net and from all nets: it ends, a loop that it reports is one, and where it
-- reports none there is none.
use digital_circuit_simulati.Prelude.{
  ℕ, zero, suc, ◌+◌, ◌≤◌, ◌<◌, ◌≡◌, ◌≢◌, refl, sym, subst, ◌⊎◌, inl, inr, List, [], ◌∷◌, ◌++◌,
  arith,
}
use digital_circuit_simulati.Prelude.{
  length, get_elem?, get_elem?-lt, set, replicate, get_or-set, length-replicate, get_or-replicate,
  In, Option-cases, ℕ_discrete,
}
use digital_circuit_simulati.LoopCheck.{
  Graph, targets, Color, white, gray, black, color_at, Frame, drop_last, Outcome, cycle, clear,
  out_of_fuel, search_loop, dfs_cycle, start_loop, size, report, check_loops, Verdict, verdict,
  accepted, combinational_loop,
}
use digital_circuit_simulati.LoopCheck.Walk.{IsClosed, Reach, IsWalk, Reach_source-lt, IsWalk-snoc}
use digital_circuit_simulati.LoopCheck.Invariant.{trace, Inv}
use digital_circuit_simulati.LoopCheck.Rounds.{push-Inv, advance-Inv, pop-Inv, start-Inv}
use digital_circuit_simulati.LoopCheck.Report.{IsLoop, IsCycle, report-IsCycle}
use digital_circuit_simulati.LoopCheck.Finish.{
  white_work, stack_work, white_work-le-size, white_work-set_gray, white_work-set_black,
}

Color-cases : (c : Color) → (c ≡ white) ⊎ (c ≡ gray) ⊎ (c ≡ black)
Color-cases white = inl refl
Color-cases gray = inr (inl refl)
Color-cases black = inr (inr refl)

-- What a search that starts with the colours `before` leaves: nothing turns white again.
abbrev Post : Graph → List Color → Outcome → Type 0
Post g before (cycle cs p) = IsLoop g p
Post g before (clear cs p) =
    Inv g cs [] p × ((v : ℕ) → color_at before v ≢ white → color_at cs v ≢ white)
Post g before out_of_fuel = ⊥

Post-weaken :
    (g : Graph) (before cs : List Color) (o : Outcome)
    → ((v : ℕ) → color_at before v ≢ white → color_at cs v ≢ white)
    → Post g cs o
    → Post g before o
Post-weaken g before cs (cycle cs' p) k h = h
Post-weaken g before cs (clear cs' p) k h = (h.0, λ v n. h.1 v (k v n))
Post-weaken g before cs out_of_fuel k h = h

seen-set :
    (cs : List Color) (i v : ℕ) (c : Color)
    → i < length cs
    → c ≢ white
    → color_at cs v ≢ white
    → color_at (set cs i c) v ≢ white
seen-set cs i v c lt new old = ground (arith, get_or-set cs i v c white lt)

seen_next :
    (cs : List Color) (i : ℕ)
    → ((v : ℕ) → v < i → color_at cs v ≢ white)
    → color_at cs i ≢ white
    → (v : ℕ) → v < i + 1
    → color_at cs v ≢ white
seen_next cs i seen new v lt = elim (ℕ_discrete v i) [
  | yes same ↦ subst (λ t. color_at cs t ≢ white) (sym same) new
  | no other ↦ seen v (omega arith)
]

module _ (g : Graph) (in_range : IsClosed g) where
  search_loop-Post :
      (fuel : ℕ) (stack : List Frame) (cs : List Color) (path : List ℕ)
      → Inv g cs stack path
      → white_work g cs + stack_work g stack ≤ fuel
      → Post g cs (search_loop fuel g stack cs path)
  unfolding search_loop
  search_loop-Post zero [] cs path h w = (h, λ v n. n)
  search_loop-Post (suc fuel) [] cs path h w = (h, λ v n. n)
  search_loop-Post zero (f ∷ stack) cs path h w = absurd (omega arith)
  search_loop-Post (suc fuel) (f ∷ stack) cs path h w =
      elim (Option-cases (get_elem? (targets g f.u) f.next)) [
        | inl e ↦
            rw (e, search_loop)
              (let fr = h.frames in
                let next_inv = pop-Inv g in_range cs f stack path h e in
                Post-weaken g cs (set cs f.u black) _
                  (λ v. seen-set cs f.u v black (omega (arith, fr.0, h.sized)) (λ same. cc))
                  (search_loop-Post fuel stack (set cs f.u black) (drop_last path) next_inv
                    (omega (arith, white_work-set_black g cs f.u fr.2))))
        | inr (v, e) ↦ elim (Color-cases (color_at cs v)) [
          | inl c ↦
              rw (e, search_loop, c)
                (let size : v < length cs = omega (arith, in_range f.u v (f.next, e), h.sized) in
                  Post-weaken g cs (set cs v gray) _ (λ x. seen-set cs v x gray size (λ same. cc))
                    (search_loop-Post fuel
                      (record { u = v; next = 0 } ∷ record { u = f.u; next = f.next + 1 } ∷ stack)
                      (set cs v gray) (path ++ v ∷ []) (push-Inv g in_range cs f stack path h v e c)
                      (omega (
                        arith,
                        white_work-set_gray g cs v size h.sized c,
                        get_elem?-lt (targets g f.u) f.next v e,
                      ))))
          | inr (inl c) ↦
              rw (e, search_loop, c)
                (
                  path,
                  v,
                  refl,
                  h.grays v c,
                  subst (λ t. IsWalk g (t ++ v ∷ [])) (sym h.traced)
                      (IsWalk-snoc g (trace stack) f.u v (subst (IsWalk g) h.traced h.walk)
                        (f.next, e)),
                )
          | inr (inr c) ↦
              rw (e, search_loop, c)
                (search_loop-Post fuel (record { u = f.u; next = f.next + 1 } ∷ stack) cs path
                  (advance-Inv g in_range cs f stack path h v e c)
                  (omega (arith, get_elem?-lt (targets g f.u) f.next v e)))
        ]
      ]

  -- The search from a white net, between two searches: no net is gray.
  dfs_cycle-Post :
      (i : ℕ) (cs : List Color) (path : List ℕ)
      → Inv g cs [] path
      → i < length g
      → color_at cs i ≡ white
      → Post g (set cs i gray) (dfs_cycle (size g) i g cs path)
  unfolding dfs_cycle
  dfs_cycle-Post i cs path h lt c =
      search_loop-Post (size g) (record { u = i; next = 0 } ∷ []) (set cs i gray) (path ++ i ∷ [])
        (start-Inv g cs path i h lt c)
        (omega (
          arith,
          white_work-set_gray g cs i (omega (arith, h.sized)) h.sized c,
          white_work-le-size g cs,
        ))

  -- What the loop over all nets leaves.
  abbrev Checked : Outcome → Type 0
  Checked (cycle cs p) = IsLoop g p
  Checked (clear cs p) = Inv g cs [] p × ((v : ℕ) → v < length g → color_at cs v ≢ white)
  Checked out_of_fuel = ⊥

  -- One round of that loop, with the outcome of its search and the rest of the loop given.
  searched :
      (rest : List Color → List ℕ → Outcome) (cs : List Color) (i : ℕ) (o : Outcome)
      → ((cs' : List Color) (p : List ℕ)
          → Inv g cs' [] p
          → ((v : ℕ) → v < i + 1 → color_at cs' v ≢ white)
          → Checked (rest cs' p))
      → i < length cs
      → ((v : ℕ) → v < i → color_at cs v ≢ white)
      → Post g (set cs i gray) o
      → Checked (elim o [
        | cycle cs' p ↦ cycle cs' p
        | clear cs' p ↦ rest cs' p
        | out_of_fuel ↦ out_of_fuel
      ])
  searched rest cs i (cycle cs' p) next lt seen q = q
  searched rest cs i out_of_fuel next lt seen q = q
  searched rest cs i (clear cs' p) next lt seen q = next cs' p q.0 (
      seen_next cs' i (λ v l. q.1 v (seen-set cs i v gray lt (λ same. cc) (seen v l)))
        (q.1 i (ground (arith, get_or-set cs i i gray white lt))))

  start_loop-Checked :
      (todo i : ℕ) (cs : List Color) (path : List ℕ)
      → Inv g cs [] path
      → i + todo ≡ length g
      → ((v : ℕ) → v < i → color_at cs v ≢ white)
      → Checked (start_loop (size g) g i todo cs path)
  unfolding start_loop
  start_loop-Checked zero i cs path h e seen = (h, λ v lt. seen v (omega arith))
  start_loop-Checked (suc todo) i cs path h e seen =
      let next = λ (cs' : List Color) (p : List ℕ) (h' : Inv g cs' [] p).
        start_loop-Checked todo (i + 1) cs' p h' (omega arith) in
      elim (Color-cases (color_at cs i)) [
        | inl c ↦
            rw (c, start_loop)
              (searched (λ cs' p. start_loop (size g) g (i + 1) todo cs' p) cs i
                (dfs_cycle (size g) i g cs path) next (omega (arith, h.sized)) seen
                (dfs_cycle-Post i cs path h (omega arith) c))
        | inr (inl c) ↦ rw (c, start_loop) (next cs path h (seen_next cs i seen (λ w. cc)))
        | inr (inr c) ↦ rw (c, start_loop) (next cs path h (seen_next cs i seen (λ w. cc)))
      ]

-- Where every net in range is black, no net reaches itself.
no_cycle_left :
    (g : Graph) (cs : List Color) (p : List ℕ)
    → Inv g cs [] p
    → ((v : ℕ) → v < length g → color_at cs v ≢ white)
    → (u : ℕ) → ¬ Reach g u u
no_cycle_left g cs p h seen u r = elim (Color-cases (color_at cs u)) [
  | inl c ↦ seen u (Reach_source-lt g r) c
  | inr (inl c) ↦ subst (In u) h.traced (h.grays u c)
  | inr (inr c) ↦ h.no_cycle u c r
]

abbrev IsRight : Graph → Verdict → Type 0
IsRight g v =
    ((v ≡ accepted) × ((u : ℕ) → ¬ Reach g u u))
    ⊎ ((p : List ℕ) × (v ≡ combinational_loop p) × IsCycle g p)

verdict-IsRight :
    (g : Graph) (in_range : IsClosed g) (o : Outcome) → Checked g in_range o → IsRight g (verdict o)
verdict-IsRight g in_range (cycle cs p) q = inr (report p, refl, report-IsCycle g p q)
verdict-IsRight g in_range (clear cs p) q = inl (refl, no_cycle_left g cs p q.0 q.1)
verdict-IsRight g in_range out_of_fuel q = absurd q

blank-Inv : (g : Graph) → Inv g (replicate (length g) white) [] []
blank-Inv g =
    let color = λ (w : ℕ). get_or-replicate (length g) w white in
    record {
      sized = length-replicate (length g) white;
      traced = refl;
      walk = tt;
      grays = λ w c. cc (color w);
      closed = λ u w b d. cc (color u);
      no_cycle = λ u b r. cc (color u);
      frames = tt;
    }

-- Every verdict is right. When every successor is a net of the circuit, the check ends; it accepts
-- only a graph in which no net reaches itself, and otherwise it names the nets of a closed walk
-- along the edges, from a net back to that net.
pub check_loops_decides :
    (g : Graph)
    → IsClosed g
    → ((check_loops g ≡ accepted) × ((u : ℕ) → ¬ Reach g u u))
      ⊎ ((p : List ℕ) × (check_loops g ≡ combinational_loop p) × IsCycle g p)
unfolding check_loops
check_loops_decides g in_range = verdict-IsRight g in_range _ (
    start_loop-Checked g in_range (length g) 0 (replicate (length g) white) [] (blank-Inv g)
      (omega arith) (λ v lt. absurd (omega arith)))
