-- ===== src/LoopCheck/Rounds.antt =====
-- One round of the search loop, by the colour of the successor that it looks at.
use digital_circuit_simulati.Prelude.{
  ℕ, ◌+◌, ◌<◌, ◌≡◌, ◌≢◌, sym, ap, subst, ◌∙◌, ◌⊎◌, inl, inr, none, some, List, [], ◌∷◌, ◌++◌, arith,
}
use digital_circuit_simulati.Prelude.{
  length, get_elem?, get_elem?-lt, get_elem?-none, set, length-set, get_or-set, In, In-append,
}
use digital_circuit_simulati.LoopCheck.{
  Graph, targets, Color, white, gray, black, color_at, Frame, drop_last,
}
use digital_circuit_simulati.LoopCheck.Walk.{
  Edge, IsClosed, Reach, edge, next, IsWalk, IsWalk-snoc, IsWalk-init, drop_last-snoc,
}
use digital_circuit_simulati.LoopCheck.Invariant.{
  trace, Inv, black_reach, FramesOk-mono, FramesOk-pop, gray_of_traced,
}

module _ (g : Graph) (in_range : IsClosed g) (cs : List Color) (f : Frame) (stack : List Frame)
    (path : List ℕ) (h : Inv g cs (f ∷ stack) path) where
  module _ (v : ℕ) (e : get_elem? (targets g f.u) f.next ≡ some v) where
    here : Edge g f.u v
    here = (f.next, e)

    -- A white successor turns gray and gets a frame.
    pub push-Inv :
        color_at cs v ≡ white
        → Inv g
            (set cs v gray)
            (record { u = v; next = 0 } ∷ record { u = f.u; next = f.next + 1 } ∷ stack)
            (path ++ v ∷ [])
    push-Inv new =
        let size : v < length cs = omega (arith, in_range f.u v here, h.sized) in
        let color = λ (w : ℕ). get_or-set cs v w gray white size in
        let fr = h.frames in
        record {
          sized = rw length-set h.sized;
          traced = ap (λ t. t ++ v ∷ []) h.traced;
          walk =
              subst (λ t. IsWalk g (t ++ v ∷ [])) (sym h.traced)
                (IsWalk-snoc g (trace stack) f.u v (subst (IsWalk g) h.traced h.walk) here);
          grays = λ w c. ground (arith, color w, h.grays w, In-append w path (v ∷ []));
          closed = λ u w b d.
              ground (arith, color u, color w, λ (c : color_at cs u ≡ black). h.closed u w c d);
          no_cycle = λ u b. h.no_cycle u (ground (arith, color u));
          frames = (
            in_range f.u v here,
            λ m. cc (gray_of_traced g cs none (f ∷ stack) v fr m),
            ground (arith, color v),
            λ i w lt d. absurd (omega arith),
            (
              fr.0,
              fr.1,
              ground (arith, color f.u, fr.2),
              λ i w lt d. ground (arith, fr.3 i w, color w),
              FramesOk-mono g cs (set cs v gray) (some f.u) stack (λ w b. ground (arith, color w))
                  (λ w m c. ground (arith, color w)) fr.4,
            ),
          );
        }

    -- A black successor is passed over.
    pub advance-Inv :
        color_at cs v ≡ black → Inv g cs (record { u = f.u; next = f.next + 1 } ∷ stack) path
    advance-Inv done = record {
      sized = h.sized;
      traced = h.traced;
      walk = h.walk;
      grays = h.grays;
      closed = h.closed;
      no_cycle = h.no_cycle;
      frames = (
        h.frames.0,
        h.frames.1,
        h.frames.2,
        λ i w lt d. ground (arith, h.frames.3 i w),
        h.frames.4,
      );
    }

  -- All successors of the net on top have been gone through, and are black.
  module _ (e : get_elem? (targets g f.u) f.next ≡ none) where
    successor_black : (w : ℕ) → Edge g f.u w → color_at cs w ≡ black
    successor_black w (i, d) =
        let lt : i < f.next =
          omega
            (arith, get_elem?-lt (targets g f.u) i w d, get_elem?-none (targets g f.u) f.next e) in
        ground (arith, h.frames.3 i w lt d)

    reached_black : {w : ℕ} → Reach g f.u w → color_at cs w ≡ black
    reached_black (edge {v = w} d) = successor_black w d
    reached_black (next {v} d r) = black_reach g cs h.closed (successor_black v d) r

    was_black :
        (u : ℕ) → color_at (set cs f.u black) u ≡ black → (f.u ≡ u) ⊎ (color_at cs u ≡ black)
    was_black u b =
        let size : f.u < length cs = omega (arith, h.frames.0, h.sized) in
        ground (arith, get_or-set cs f.u u black white size)

    -- A net whose successors are all black turns black and leaves the stack.
    pub pop-Inv : Inv g (set cs f.u black) stack (drop_last path)
    pop-Inv =
        let fr = h.frames in
        let size : f.u < length cs = omega (arith, fr.0, h.sized) in
        let color = λ (w : ℕ). get_or-set cs f.u w black white size in
        let shorter : drop_last path ≡ trace stack =
          ap drop_last h.traced ∙ drop_last-snoc (trace stack) f.u in
        record {
          sized = rw length-set h.sized;
          traced = shorter;
          walk = rw shorter (IsWalk-init g (trace stack) f.u (subst (IsWalk g) h.traced h.walk));
          grays = λ w c.
              let old : color_at cs w ≡ gray = ground (arith, color w) in
              rw shorter (
                ground (
                  arith,
                  color w,
                  subst (In w) h.traced (h.grays w old),
                  In-append w (trace stack) (f.u ∷ []),
                ));
          closed = λ u w b d. elim (was_black u b) [
            | inl top ↦
                let now : color_at cs w ≡ black =
                  successor_black w (subst (λ t. Edge g t w) (sym top) d) in
                ground (arith, color w)
            | inr old ↦ let now = h.closed u w old d in ground (arith, color w)
          ];
          no_cycle = λ u b r. elim (was_black u b) [
            | inl top ↦ cc (
              fr.2,
              reached_black (subst (λ t. Reach g t f.u) (sym top) (subst (Reach g u) (sym top) r)),
            )
            | inr old ↦ h.no_cycle u old r
          ];
          frames =
              FramesOk-pop g cs (set cs f.u black) f.u stack (ground (arith, color f.u))
                (λ w b. ground (arith, color w))
                (λ w m c.
                  let other : f.u ≢ w =
                    λ same. fr.1 (subst (λ t. In t (trace stack)) (sym same) m) in
                  ground (arith, color w))
                fr.4;
        }

-- The search from a white net `i` begins with that net gray and alone on the stack.
pub start-Inv :
    (g : Graph) (cs : List Color) (path : List ℕ) (i : ℕ)
    → Inv g cs [] path
    → i < length g
    → color_at cs i ≡ white
    → Inv g (set cs i gray) (record { u = i; next = 0 } ∷ []) (path ++ i ∷ [])
start-Inv g cs path i h lt new =
    let size : i < length cs = omega (arith, h.sized) in
    let color = λ (w : ℕ). get_or-set cs i w gray white size in
    let gone : path ++ i ∷ [] ≡ i ∷ [] = ap (λ t. t ++ i ∷ []) h.traced in
    record {
      sized = rw length-set h.sized;
      traced = gone;
      walk = rw gone tt;
      grays = λ w c. rw gone (
          ground
            (arith, color w, λ (d : color_at cs w ≡ gray). subst (In w) h.traced (h.grays w d)));
      closed = λ u w b d.
          ground (arith, color u, color w, λ (c : color_at cs u ≡ black). h.closed u w c d);
      no_cycle = λ u b. h.no_cycle u (ground (arith, color u));
      frames = (lt, λ m. m, ground (arith, color i), λ j w l d. absurd (omega arith), tt);
    }
