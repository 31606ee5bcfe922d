-- ===== src/TopoSort/Drivers.antt =====
-- Which component drives which, said of the list of components alone, and that the graph that is
-- built from the map of the writers has exactly these links.
use digital_circuit_simulati.Prelude.{
  ℕ, zero, suc, ◌+◌, ◌<◌, ◌≡◌, ◌≢◌, refl, sym, ap, subst, ◌∙◌, ◌↔◌, ◌⊎◌, inl, inr, Bool, true,
  false, ◌||◌, Option, none, some, List, [], ◌∷◌, arith,
}
use digital_circuit_simulati.Prelude.{◌==◌, if◌then◌else◌, Bool-cases}
use digital_circuit_simulati.LoopCheck.Walk.{Edge}
use digital_circuit_simulati.TopoSort.{Node, Writers, add_outs, net_writer, build}
use digital_circuit_simulati.TopoSort.Edges.{Reads, DrivesFrom, build-DrivesFrom}

abbrev pub on_net : ℕ → List (Option ℕ) → Bool
on_net net [] = false
on_net net (none ∷ pins) = on_net net pins
on_net net (some n ∷ pins) = (n == net) || on_net net pins

-- Whether the component at a position has an output pin, or an input pin, on the net.
abbrev pub writes : List Node → ℕ → ℕ → Bool
writes [] net x = false
writes (node ∷ nodes) net zero = on_net net node.outs
writes (node ∷ nodes) net (suc x) = writes nodes net x

abbrev pub reads : List Node → ℕ → ℕ → Bool
reads [] net x = false
reads (node ∷ nodes) net zero = on_net net node.ins
reads (node ∷ nodes) net (suc x) = reads nodes net x

-- The last component that writes the net; where only one does, that one.
pub record LastWriter (nodes : List Node) (net x : ℕ) : Type 0 where
  pub writer : writes nodes net x ≡ true
  pub last : (y : ℕ) → x < y → writes nodes net y ≡ false

-- Component `y` reads a net that another component, `x`, is the last to write.
pub record Drives (nodes : List Node) (x y : ℕ) : Type 0 where
  pub net : ℕ
  pub written : LastWriter nodes net x
  pub read : reads nodes net y ≡ true
  pub distinct : x ≢ y

add_outs-on_net :
    (m : Writers) (a : ℕ) (outs : List (Option ℕ)) (net : ℕ)
    → add_outs m a outs net ≡ (if on_net net outs then some a else m net)
unfolding add_outs
add_outs-on_net m a [] net = refl
add_outs-on_net m a (none ∷ outs) net = add_outs-on_net m a outs net
add_outs-on_net m a (some n ∷ outs) net =
    add_outs-on_net (λ k. if k == n then some a else m k) a outs net ∙ ground arith

net_writer-unwritten :
    (m : Writers) (i : ℕ) (nodes : List Node) (net : ℕ)
    → ((y : ℕ) → writes nodes net y ≡ false)
    → net_writer m i nodes net ≡ m net
unfolding net_writer
net_writer-unwritten m i [] net h = refl
net_writer-unwritten m i (node ∷ nodes) net h =
    let first = h 0 in
    net_writer-unwritten (add_outs m i node.outs) (i + 1) nodes net (λ y. h (suc y))
    ∙ add_outs-on_net m i node.outs net
    ∙ ground (arith, first)

net_writer-last :
    (m : Writers) (i : ℕ) (nodes : List Node) (net k : ℕ)
    → LastWriter nodes net k
    → net_writer m i nodes net ≡ some (i + k)
unfolding net_writer
net_writer-last m i [] net k h = let clash = h.writer in cc
net_writer-last m i (node ∷ nodes) net zero h =
    let first = h.writer in
    net_writer-unwritten (add_outs m i node.outs) (i + 1) nodes net
      (λ y. h.last (suc y) (omega arith))
    ∙ add_outs-on_net m i node.outs net
    ∙ ground (arith, first)
net_writer-last m i (node ∷ nodes) net (suc k) h =
    let later : LastWriter nodes net k = record {
      writer = h.writer;
      last = λ y lt. h.last (suc y) (omega (arith, lt));
    } in
    net_writer-last (add_outs m i node.outs) (i + 1) nodes net k later
    ∙ (let same : i + 1 + k ≡ i + suc k = omega arith in ap some same)

-- A net is written by nobody, or somebody is the last.
LastWriter-cases :
    (nodes : List Node) (net : ℕ)
    → ((y : ℕ) → writes nodes net y ≡ false) ⊎ ((x : ℕ) × LastWriter nodes net x)
LastWriter-cases [] net = inl (λ y. refl)
LastWriter-cases (node ∷ nodes) net = elim (LastWriter-cases nodes net) [
  | inr (x, h) ↦ inr (suc x, record { writer = h.writer; last = after x h })
  | inl nobody ↦ elim (Bool-cases (on_net net node.outs)) [
    | inl here ↦ inr (0, record { writer = here; last = beyond nobody })
    | inr not_here ↦ inl (all_of not_here nobody)
  ]
]
  where
    after :
        (x : ℕ) → LastWriter nodes net x → (y : ℕ) → suc x < y → writes (node ∷ nodes) net y ≡ false
    after x h zero lt = absurd (omega (arith, lt))
    after x h (suc y) lt = h.last y (omega (arith, lt))

    beyond :
        ((y : ℕ) → writes nodes net y ≡ false)
        → (y : ℕ) → 0 < y
        → writes (node ∷ nodes) net y ≡ false
    beyond h zero lt = absurd (omega (arith, lt))
    beyond h (suc y) lt = h y

    all_of :
        on_net net node.outs ≡ false
        → ((y : ℕ) → writes nodes net y ≡ false)
        → (y : ℕ) → writes (node ∷ nodes) net y ≡ false
    all_of e h zero = e
    all_of e h (suc y) = h y

-- The map holds the last writer of each net.
net_writer_iff :
    (nodes : List Node) (net x : ℕ)
    → (net_writer (λ _. none) 0 nodes net ≡ some x) ↔ LastWriter nodes net x
net_writer_iff nodes net x = (
  down (LastWriter-cases nodes net),
  λ h.
      let first : 0 + x ≡ x = omega arith in
      net_writer-last (λ _. none) 0 nodes net x h ∙ ap some first,
)
  where
    down :
        ((y : ℕ) → writes nodes net y ≡ false) ⊎ ((z : ℕ) × LastWriter nodes net z)
        → net_writer (λ _. none) 0 nodes net ≡ some x
        → LastWriter nodes net x
    down (inl nobody) e =
        let free = net_writer-unwritten (λ _. none) 0 nodes net nobody in
        let impossible : ⊥ = ground (arith, free, e) in elim impossible [ ]
    down (inr (z, h)) e =
        let found = net_writer-last (λ _. none) 0 nodes net z h in
        let same : z ≡ x = ground (arith, found, e) in subst (LastWriter nodes net) same h

Reads-on_net :
    (m : Writers) (b : ℕ) (pins : List (Option ℕ)) (a : ℕ)
    → Reads m b pins a
    → (net : ℕ) × (on_net net pins ≡ true) × (m net ≡ some a) × (a ≢ b)
Reads-on_net m b [] a h = elim h [ ]
Reads-on_net m b (none ∷ pins) a (inl h) = elim h [ ]
Reads-on_net m b (none ∷ pins) a (inr h) = Reads-on_net m b pins a h
Reads-on_net m b (some n ∷ pins) a (inl (e, ne)) = (n, ground arith, e, ne)
Reads-on_net m b (some n ∷ pins) a (inr h) =
    let (net, on, e, ne) = Reads-on_net m b pins a h in (net, ground (arith, on), e, ne)

on_net-Reads :
    (m : Writers) (b : ℕ) (pins : List (Option ℕ)) (a net : ℕ)
    → on_net net pins ≡ true
    → m net ≡ some a
    → a ≢ b
    → Reads m b pins a
on_net-Reads m b [] a net on e ne = cc
on_net-Reads m b (none ∷ pins) a net on e ne = inr (on_net-Reads m b pins a net on e ne)
on_net-Reads m b (some n ∷ pins) a net on e ne = elim (Bool-cases (n == net)) [
  | inl here ↦ let same : net ≡ n = ground arith in inl (subst (λ t. m t ≡ some a) same e, ne)
  | inr other ↦ inr (on_net-Reads m b pins a net (ground (arith, on, other)) e ne)
]

DrivesFrom-reads :
    (m : Writers) (b : ℕ) (nodes : List Node) (x y : ℕ)
    → DrivesFrom m b nodes x y
    → (k : ℕ) × (net : ℕ) × (y ≡ b + k) × (reads nodes net k ≡ true) × (m net ≡ some x) × (x ≢ y)
DrivesFrom-reads m b [] x y h = elim h [ ]
DrivesFrom-reads m b (node ∷ nodes) x y (inl (at, h)) =
    let (net, on, e, ne) = Reads-on_net m b node.ins x h in
    (0, net, omega (arith, at), on, e, λ same. ne (same ∙ sym at))
DrivesFrom-reads m b (node ∷ nodes) x y (inr h) =
    let (k, net, at, on, e, ne) = DrivesFrom-reads m (b + 1) nodes x y h in
    (suc k, net, omega (arith, at), on, e, ne)

reads-DrivesFrom :
    (m : Writers) (b : ℕ) (nodes : List Node) (x y k net : ℕ)
    → y ≡ b + k
    → reads nodes net k ≡ true
    → m net ≡ some x
    → x ≢ y
    → DrivesFrom m b nodes x y
reads-DrivesFrom m b [] x y k net at on e ne = cc
reads-DrivesFrom m b (node ∷ nodes) x y zero net at on e ne =
    let here : b ≡ y = omega (arith, at) in
    inl (here, on_net-Reads m b node.ins x net on e (λ same. ne (same ∙ here)))
reads-DrivesFrom m b (node ∷ nodes) x y (suc k) net at on e ne =
    inr (reads-DrivesFrom m (b + 1) nodes x y k net (omega (arith, at)) on e ne)

-- The links of the graph that is built are exactly the pairs of different components of which the
-- second reads, by some input pin, a net that the first is the last of all components to write.
pub build-Drives : (nodes : List Node) (x y : ℕ) → Edge (build nodes).adj x y ↔ Drives nodes x y
build-Drives nodes x y =
    let (out, back) = build-DrivesFrom nodes x y in (λ e. independent (out e), λ d. back (tabled d))
  where
    independent : DrivesFrom (net_writer (λ _. none) 0 nodes) 0 nodes x y → Drives nodes x y
    independent h =
        let (k, net, at, on, e, ne) =
          DrivesFrom-reads (net_writer (λ _. none) 0 nodes) 0 nodes x y h in
        let same : k ≡ y = omega (arith, at) in
        record {
          net = net;
          written = (net_writer_iff nodes net x).0 e;
          read = subst (λ t. reads nodes net t ≡ true) same on;
          distinct = ne;
        }

    tabled : Drives nodes x y → DrivesFrom (net_writer (λ _. none) 0 nodes) 0 nodes x y
    tabled d =
        reads-DrivesFrom (net_writer (λ _. none) 0 nodes) 0 nodes x y y d.net (omega arith) d.read
          ((net_writer_iff nodes d.net x).1 d.written) d.distinct
