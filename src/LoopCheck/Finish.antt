-- ===== src/LoopCheck/Finish.antt =====
-- The work that is left to the search: one round for each net that is still white and for each of
-- its successors, and the rounds that the frames on the stack still need.
use digital_circuit_simulati.Prelude.{
  ℕ, zero, suc, ◌+◌, ◌-◌, ◌≤◌, ◌<◌, ◌≡◌, refl, List, [], ◌∷◌, arith,
}
use digital_circuit_simulati.Prelude.{length, set}
use digital_circuit_simulati.LoopCheck.{
  Graph, targets, Color, white, gray, black, color_at, Frame, size,
}

abbrev pub white_work : Graph → List Color → ℕ
white_work [] cs = 0
white_work (ts ∷ g) [] = 0
white_work (ts ∷ g) (white ∷ cs) = suc (length ts) + white_work g cs
white_work (ts ∷ g) (gray ∷ cs) = white_work g cs
white_work (ts ∷ g) (black ∷ cs) = white_work g cs

abbrev pub stack_work : Graph → List Frame → ℕ
stack_work g [] = 0
stack_work g (f ∷ stack) = suc (length (targets g f.u) - f.next) + stack_work g stack

pub white_work-le-size : (g : Graph) (cs : List Color) → white_work g cs ≤ size g
white_work-le-size [] cs = omega arith
white_work-le-size (ts ∷ g) [] = omega arith
white_work-le-size (ts ∷ g) (white ∷ cs) = omega (arith, white_work-le-size g cs)
white_work-le-size (ts ∷ g) (gray ∷ cs) = omega (arith, white_work-le-size g cs)
white_work-le-size (ts ∷ g) (black ∷ cs) = omega (arith, white_work-le-size g cs)

-- Painting a white net gray takes its work out.
pub white_work-set_gray :
    (g : Graph) (cs : List Color) (v : ℕ)
    → v < length cs
    → length cs ≡ length g
    → color_at cs v ≡ white
    → white_work g (set cs v gray) + suc (length (targets g v)) ≡ white_work g cs
white_work-set_gray g [] v lt s c = absurd (omega arith)
white_work-set_gray [] (x ∷ cs) v lt s c = absurd (omega arith)
white_work-set_gray (ts ∷ g) (white ∷ cs) zero lt s c = omega arith
white_work-set_gray (ts ∷ g) (gray ∷ cs) zero lt s c = cc
white_work-set_gray (ts ∷ g) (black ∷ cs) zero lt s c = cc
white_work-set_gray (ts ∷ g) (white ∷ cs) (suc v) lt s c =
    omega (arith, white_work-set_gray g cs v (omega arith) (omega arith) c)
white_work-set_gray (ts ∷ g) (gray ∷ cs) (suc v) lt s c =
    omega (arith, white_work-set_gray g cs v (omega arith) (omega arith) c)
white_work-set_gray (ts ∷ g) (black ∷ cs) (suc v) lt s c =
    omega (arith, white_work-set_gray g cs v (omega arith) (omega arith) c)

pub white_work-set_black :
    (g : Graph) (cs : List Color) (u : ℕ)
    → color_at cs u ≡ gray
    → white_work g (set cs u black) ≡ white_work g cs
white_work-set_black g [] u c = refl
white_work-set_black [] (x ∷ cs) u c = refl
white_work-set_black (ts ∷ g) (white ∷ cs) zero c = cc
white_work-set_black (ts ∷ g) (gray ∷ cs) zero c = refl
white_work-set_black (ts ∷ g) (black ∷ cs) zero c = refl
white_work-set_black (ts ∷ g) (white ∷ cs) (suc u) c = omega (arith, white_work-set_black g cs u c)
white_work-set_black (ts ∷ g) (gray ∷ cs) (suc u) c = white_work-set_black g cs u c
white_work-set_black (ts ∷ g) (black ∷ cs) (suc u) c = white_work-set_black g cs u c
