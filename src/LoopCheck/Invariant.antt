-- ===== src/LoopCheck/Invariant.antt =====
-- What the search knows between two rounds, and that each round keeps it.
use digital_circuit_simulati.Prelude.{
  ℕ, ◌<◌, ◌≡◌, refl, subst, ◌⊎◌, inl, inr, Option, none, some, List, [], ◌∷◌, ◌++◌, arith,
}
use digital_circuit_simulati.Prelude.{length, get_elem?, In, In-append}
use digital_circuit_simulati.LoopCheck.{Graph, targets, Color, gray, black, color_at, Frame}
use digital_circuit_simulati.LoopCheck.Walk.{Edge, Reach, edge, next, IsWalk}

-- The nets on the stack, the oldest first.
abbrev pub trace : List Frame → List ℕ
trace [] = []
trace (f ∷ stack) = trace stack ++ f.u ∷ []

-- The net of each frame is gray and on the stack once; the successors it has gone through are
-- black, but for the one whose frame lies above.
abbrev pub FramesOk : Graph → List Color → Option ℕ → List Frame → Type 0
FramesOk g cs above [] = Unit
FramesOk g cs above (f ∷ stack) =
    (f.u < length g)
    × ¬ In f.u (trace stack)
    × (color_at cs f.u ≡ gray)
    × ((i w : ℕ)
        → i < f.next
        → get_elem? (targets g f.u) i ≡ some w
        → (color_at cs w ≡ black) ⊎ (above ≡ some w))
    × FramesOk g cs (some f.u) stack

pub record Inv (g : Graph) (cs : List Color) (stack : List Frame) (path : List ℕ) : Type 0 where
  pub sized : length cs ≡ length g
  pub traced : path ≡ trace stack
  pub walk : IsWalk g path
  pub grays : (v : ℕ) → color_at cs v ≡ gray → In v path
  pub closed : (u v : ℕ) → color_at cs u ≡ black → Edge g u v → color_at cs v ≡ black
  pub no_cycle : (u : ℕ) → color_at cs u ≡ black → ¬ Reach g u u
  pub frames : FramesOk g cs none stack

-- From a black net only black nets are reached.
pub black_reach :
    (g : Graph) (cs : List Color)
    → ((u v : ℕ) → color_at cs u ≡ black → Edge g u v → color_at cs v ≡ black)
    → {u v : ℕ} → color_at cs u ≡ black
    → Reach g u v
    → color_at cs v ≡ black
black_reach g cs closed {u} {v} b (edge e) = closed u v b e
black_reach g cs closed {u} b (next {v} e r) = black_reach g cs closed (closed u v b e) r

-- Frames stay right when black nets stay black, gray ones on the stack stay gray.
pub FramesOk-mono :
    (g : Graph) (cs cs' : List Color) (above : Option ℕ) (stack : List Frame)
    → ((w : ℕ) → color_at cs w ≡ black → color_at cs' w ≡ black)
    → ((w : ℕ) → In w (trace stack) → color_at cs w ≡ gray → color_at cs' w ≡ gray)
    → FramesOk g cs above stack
    → FramesOk g cs' above stack
FramesOk-mono g cs cs' above [] b k h = tt
FramesOk-mono g cs cs' above (f ∷ stack) b k h = (
  h.0,
  h.1,
  k f.u ((In-append f.u (trace stack) (f.u ∷ [])).1 (inr (inl refl))) h.2,
  λ i w lt e. ground (arith, h.3 i w lt e, b w),
  FramesOk-mono g cs cs' (some f.u) stack b
      (λ w m. k w ((In-append w (trace stack) (f.u ∷ [])).1 (inl m))) h.4,
)

pub gray_of_traced :
    (g : Graph) (cs : List Color) (above : Option ℕ) (stack : List Frame) (w : ℕ)
    → FramesOk g cs above stack
    → In w (trace stack)
    → color_at cs w ≡ gray
gray_of_traced g cs above [] w h m = absurd m
gray_of_traced g cs above (f ∷ stack) w h m = elim ((In-append w (trace stack) (f.u ∷ [])).0 m) [
  | inl deeper ↦ gray_of_traced g cs (some f.u) stack w h.4 deeper
  | inr (inl here) ↦ subst (λ t. color_at cs t ≡ gray) here h.2
  | inr (inr none_left) ↦ absurd none_left
]

-- The frame above is gone, and its net `u` is black.
pub FramesOk-pop :
    (g : Graph) (cs cs' : List Color) (u : ℕ) (stack : List Frame)
    → color_at cs' u ≡ black
    → ((w : ℕ) → color_at cs w ≡ black → color_at cs' w ≡ black)
    → ((w : ℕ) → In w (trace stack) → color_at cs w ≡ gray → color_at cs' w ≡ gray)
    → FramesOk g cs (some u) stack
    → FramesOk g cs' none stack
FramesOk-pop g cs cs' u [] done b k h = tt
FramesOk-pop g cs cs' u (f ∷ stack) done b k h = (
  h.0,
  h.1,
  k f.u ((In-append f.u (trace stack) (f.u ∷ [])).1 (inr (inl refl))) h.2,
  λ i w lt e. ground (arith, h.3 i w lt e, b w),
  FramesOk-mono g cs cs' (some f.u) stack b
      (λ w m. k w ((In-append w (trace stack) (f.u ∷ [])).1 (inl m))) h.4,
)
