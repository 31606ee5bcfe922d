-- ===== src/TopoSort/Edges.antt =====
-- The links that `build` makes, in terms of the map of the writers, and that the degrees count them.
use digital_circuit_simulati.Prelude.{
  ℕ, zero, suc, ◌+◌, ◌≤◌, ◌<◌, ◌≡◌, ◌≢◌, refl, sym, ◌∙◌, ◌↔◌, ◌⊎◌, inl, inr, Option, none, some,
  List, [], ◌∷◌, ◌++◌, arith,
}
use digital_circuit_simulati.Prelude.{
  length, get_or, set, replicate, ltb, length-set, get_or-set, length-replicate, get_or-replicate,
  ◌==◌, if◌then◌else◌, Option-cases, Bool-cases,
}
use digital_circuit_simulati.LoopCheck.{Graph, targets}
use digital_circuit_simulati.LoopCheck.Walk.{Edge}
use digital_circuit_simulati.TopoSort.{
  Node, Writers, add_outs, net_writer, Links, link, link_pin, link_pins, link_nodes, build,
}
use digital_circuit_simulati.TopoSort.Degrees.{
  count, count-snoc, remaining, count_pos_of_get_elem?, get_elem?_of_count_pos,
}

-- A link, counted.
abbrev pub Linked : Graph → ℕ → ℕ → Type 0
Linked g a b = 0 < count b (targets g a)

pub Edge-iff : (g : Graph) (a b : ℕ) → Edge g a b ↔ Linked g a b
Edge-iff g a b =
    (λ e. count_pos_of_get_elem? (targets g a) e.0 b e.1, get_elem?_of_count_pos (targets g a) b)

-- A new link shows in the degree of its target, once its source is counted.
remaining-set :
    (g : Graph) (a b v n : ℕ)
    → a < length g
    → remaining (set g a (targets g a ++ b ∷ [])) [] v n
      ≡ remaining g [] v n + (if ltb a n then (if b == v then 1 else 0) else 0)
unfolding remaining
remaining-set g a b v zero lt = ground arith
remaining-set g a b v (suc n) lt = ground (
  arith,
  get_or-set g a n (targets g a ++ b ∷ []) [] lt,
  count-snoc v b (targets g a),
  remaining-set g a b v n lt,
)

-- The links made so far among `n` components.
pub record IsBuilt (n : ℕ) (l : Links) : Type 0 where
  pub nodes : length l.adj ≡ n
  pub sized : length l.indeg ≡ n
  pub degrees : (v : ℕ) → v < n → get_or l.indeg v 0 ≡ remaining l.adj [] v n
  pub in_range : (a b : ℕ) → Linked l.adj a b → b < n

link-IsBuilt : (n : ℕ) (l : Links) (a b : ℕ) → a < n → b < n → IsBuilt n l → IsBuilt n (link l a b)
unfolding link
link-IsBuilt n l a b p q h =
    let src : a < length l.adj = omega (arith, h.nodes) in
    let tgt : b < length l.indeg = omega (arith, h.sized) in
    record {
      nodes = rw length-set h.nodes;
      sized = rw length-set h.sized;
      degrees = λ v lt. ground (
        arith,
        h.degrees v lt,
        h.degrees b q,
        get_or-set l.indeg b v (get_or l.indeg b 0 + 1) 0 tgt,
        remaining-set l.adj a b v n src,
      );
      in_range = λ x y e. ground (
        arith,
        h.in_range x y,
        get_or-set l.adj a x (targets l.adj a ++ b ∷ []) [] src,
        count-snoc y b (targets l.adj a),
      );
    }

-- The links of the result: the old ones and the new one.
link-Linked :
    (n : ℕ) (l : Links) (a b x y : ℕ)
    → a < n
    → IsBuilt n l
    → Linked (link l a b).adj x y ↔ (Linked l.adj x y ⊎ (a ≡ x) × (b ≡ y))
unfolding link
link-Linked n l a b x y p h =
    let src : a < length l.adj = omega (arith, h.nodes) in
    ground (
      arith,
      get_or-set l.adj a x (targets l.adj a ++ b ∷ []) [] src,
      count-snoc y b (targets l.adj a),
    )

-- Component `b` reads, by one of the pins, a net that another component `a` writes.
abbrev pub ReadsPin : Writers → ℕ → Option ℕ → ℕ → Type 0
ReadsPin m b none a = ⊥
ReadsPin m b (some net) a = (m net ≡ some a) × (a ≢ b)

abbrev pub Reads : Writers → ℕ → List (Option ℕ) → ℕ → Type 0
Reads m b [] a = ⊥
Reads m b (pin ∷ pins) a = ReadsPin m b pin a ⊎ Reads m b pins a

or_chain : {X Y Z Q R S : Type 0} → X ↔ (Y ⊎ Q × S) → Y ↔ (Z ⊎ Q × R) → X ↔ (Z ⊎ Q × (R ⊎ S))
or_chain {X} {Y} {Z} {Q} {R} {S} e f = (λ x. down (e.0 x), up)
  where
    middle : Z ⊎ Q × R → Z ⊎ Q × (R ⊎ S)
    middle (inl z) = inl z
    middle (inr c) = inr (c.0, inl c.1)

    down : Y ⊎ Q × S → Z ⊎ Q × (R ⊎ S)
    down (inl y) = middle (f.0 y)
    down (inr c) = inr (c.0, inr c.1)

    up : Z ⊎ Q × (R ⊎ S) → X
    up (inl z) = e.1 (inl (f.1 (inl z)))
    up (inr (q, inl r)) = e.1 (inl (f.1 (inr (q, r))))
    up (inr (q, inr s)) = e.1 (inr (q, s))

or_assoc : {X Y Z R S : Type 0} → X ↔ (Y ⊎ S) → Y ↔ (Z ⊎ R) → X ↔ (Z ⊎ (R ⊎ S))
or_assoc {X} {Y} {Z} {R} {S} e f = (λ x. down (e.0 x), up)
  where
    middle : Z ⊎ R → Z ⊎ (R ⊎ S)
    middle (inl z) = inl z
    middle (inr r) = inr (inl r)

    down : Y ⊎ S → Z ⊎ (R ⊎ S)
    down (inl y) = middle (f.0 y)
    down (inr s) = inr (inr s)

    up : Z ⊎ (R ⊎ S) → X
    up (inl z) = e.1 (inl (f.1 (inl z)))
    up (inr (inl r)) = e.1 (inl (f.1 (inr r)))
    up (inr (inr s)) = e.1 (inr s)

module _ (m : Writers) (n : ℕ) (written : (net a : ℕ) → m net ≡ some a → a < n) where
  link_pin-IsBuilt :
      (b : ℕ) (l : Links) (pin : Option ℕ) → b < n → IsBuilt n l → IsBuilt n (link_pin m b l pin)
  unfolding link_pin
  link_pin-IsBuilt b l none q h = h
  link_pin-IsBuilt b l (some net) q h = elim (Option-cases (m net)) [
    | inl e ↦ rw (e, link_pin) h
    | inr (a, e) ↦ elim (Bool-cases (a == b)) [
      | inl self ↦ rw (e, link_pin, self) h
      | inr other ↦ rw (e, link_pin, other) (link-IsBuilt n l a b (written net a e) q h)
    ]
  ]

  link_pin-Linked :
      (b : ℕ) (l : Links) (pin : Option ℕ) (x y : ℕ)
      → IsBuilt n l
      → Linked (link_pin m b l pin).adj x y ↔ (Linked l.adj x y ⊎ (b ≡ y) × ReadsPin m b pin x)
  unfolding link_pin
  link_pin-Linked b l none x y h = (inl, λ c. ground arith)
  link_pin-Linked b l (some net) x y h = elim (Option-cases (m net)) [
    | inl e ↦ rw (e, link_pin) (inl, λ c. ground arith)
    | inr (a, e) ↦ elim (Bool-cases (a == b)) [
      | inl self ↦ rw (e, link_pin, self) (inl, λ c. ground arith)
      | inr other ↦
          rw (e, link_pin, other) (ground (arith, link-Linked n l a b x y (written net a e) h))
    ]
  ]

  link_pins-IsBuilt :
      (b : ℕ) (l : Links) (pins : List (Option ℕ))
      → b < n
      → IsBuilt n l
      → IsBuilt n (link_pins m b l pins)
  unfolding link_pins
  link_pins-IsBuilt b l [] q h = h
  link_pins-IsBuilt b l (pin ∷ pins) q h =
      link_pins-IsBuilt b (link_pin m b l pin) pins q (link_pin-IsBuilt b l pin q h)

  link_pins-Linked :
      (b : ℕ) (l : Links) (pins : List (Option ℕ)) (x y : ℕ)
      → b < n
      → IsBuilt n l
      → Linked (link_pins m b l pins).adj x y ↔ (Linked l.adj x y ⊎ (b ≡ y) × Reads m b pins x)
  unfolding link_pins
  link_pins-Linked b l [] x y q h = (inl, λ c. ground arith)
  link_pins-Linked b l (pin ∷ pins) x y q h =
      let first = link_pin-Linked b l pin x y h in
      let others =
        link_pins-Linked b (link_pin m b l pin) pins x y q (link_pin-IsBuilt b l pin q h) in
      or_chain others first

  link_nodes-IsBuilt :
      (b : ℕ) (l : Links) (nodes : List Node)
      → b + length nodes ≤ n
      → IsBuilt n l
      → IsBuilt n (link_nodes m b l nodes)
  unfolding link_nodes
  link_nodes-IsBuilt b l [] q h = h
  link_nodes-IsBuilt b l (node ∷ nodes) q h =
      link_nodes-IsBuilt (b + 1) (link_pins m b l node.ins) nodes (omega arith)
        (link_pins-IsBuilt b l node.ins (omega arith) h)

-- Among the components from position `b` on, the one at `y` reads a net that `x` writes.
abbrev pub DrivesFrom : Writers → ℕ → List Node → ℕ → ℕ → Type 0
DrivesFrom m b [] x y = ⊥
DrivesFrom m b (node ∷ nodes) x y = (b ≡ y) × Reads m b node.ins x ⊎ DrivesFrom m (b + 1) nodes x y

link_nodes-Linked :
    (m : Writers) (n : ℕ) (written : (net a : ℕ) → m net ≡ some a → a < n) (b : ℕ) (l : Links)
    (nodes : List Node) (x y : ℕ)
    → b + length nodes ≤ n
    → IsBuilt n l
    → Linked (link_nodes m b l nodes).adj x y ↔ (Linked l.adj x y ⊎ DrivesFrom m b nodes x y)
unfolding link_nodes
link_nodes-Linked m n written b l [] x y q h = (inl, λ c. ground arith)
link_nodes-Linked m n written b l (node ∷ nodes) x y q h =
    or_assoc
      (link_nodes-Linked m n written (b + 1) (link_pins m b l node.ins) nodes x y (omega arith)
        (link_pins-IsBuilt m n written b l node.ins (omega arith) h))
      (link_pins-Linked m n written b l node.ins x y (omega arith) h)

add_outs-lt :
    (m : Writers) (a n : ℕ) (outs : List (Option ℕ))
    → a < n
    → ((net x : ℕ) → m net ≡ some x → x < n)
    → (net x : ℕ) → add_outs m a outs net ≡ some x
    → x < n
unfolding add_outs
add_outs-lt m a n [] lt h = h
add_outs-lt m a n (none ∷ outs) lt h = add_outs-lt m a n outs lt h
add_outs-lt m a n (some net ∷ outs) lt h =
    add_outs-lt (λ k. if k == net then some a else m k) a n outs lt (λ k x e. ground (arith, h k x))

net_writer-lt :
    (m : Writers) (i n : ℕ) (nodes : List Node)
    → i + length nodes ≤ n
    → ((net x : ℕ) → m net ≡ some x → x < n)
    → (net x : ℕ) → net_writer m i nodes net ≡ some x
    → x < n
unfolding net_writer
net_writer-lt m i n [] le h = h
net_writer-lt m i n (node ∷ nodes) le h =
    net_writer-lt (add_outs m i node.outs) (i + 1) n nodes (omega arith)
      (add_outs-lt m i n node.outs (omega arith) h)

remaining-replicate : (n v k : ℕ) → remaining (replicate n []) [] v k ≡ 0
unfolding remaining
remaining-replicate n v zero = refl
remaining-replicate n v (suc k) =
    ground (arith, remaining-replicate n v k, get_or-replicate {A = List ℕ} n k [])

empty-IsBuilt : (n : ℕ) → IsBuilt n (record { adj = replicate n []; indeg = replicate n 0 })
empty-IsBuilt n =
    let no_targets = λ (a : ℕ). get_or-replicate {A = List ℕ} n a [] in
    record {
      nodes = length-replicate n _;
      sized = length-replicate n _;
      degrees = λ v lt. get_or-replicate n v 0 ∙ sym (remaining-replicate n v n);
      in_range = λ a b e. ground (arith, no_targets a);
    }

pub build-IsBuilt : (nodes : List Node) → IsBuilt (length nodes) (build nodes)
unfolding build
build-IsBuilt nodes =
    link_nodes-IsBuilt (net_writer (λ _. none) 0 nodes) (length nodes)
      (net_writer-lt (λ _. none) 0 (length nodes) nodes (omega arith) (λ net x e. cc)) 0 _ nodes
      (omega arith) (empty-IsBuilt (length nodes))

-- The links of the graph that is built, in terms of the map of the writers.
pub build-DrivesFrom :
    (nodes : List Node) (x y : ℕ)
    → Edge (build nodes).adj x y ↔ DrivesFrom (net_writer (λ _. none) 0 nodes) 0 nodes x y
unfolding build
build-DrivesFrom nodes x y =
    let writers = net_writer (λ _. none) 0 nodes in
    let n = length nodes in
    let below = net_writer-lt (λ _. none) 0 n nodes (omega arith) (λ net x e. cc) in
    let (out, back) =
      link_nodes-Linked writers n below 0 _ nodes x y (omega arith) (empty-IsBuilt n) in
    let (linked, listed) = Edge-iff (build nodes).adj x y in
    let no_targets = get_or-replicate {A = List ℕ} n x [] in
    (
      λ e. elim (out (linked e)) [ inl old ↦ ground (arith, no_targets) | inr new ↦ new ],
      λ d. listed (back (inr d)),
    )
