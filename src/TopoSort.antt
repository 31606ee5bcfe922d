-- ===== src/TopoSort.antt =====
-- `topoOrder` of src/core/CodeGen.cpp: the graph of which component drives which, by the nets that
-- they share, and Kahn's algorithm on it. A component is given by the nets of its input and output
-- pins (`none` for an open pin), and is named by its position in the list. The vector `q` is a list
-- whose head is `q.back()`.
pub mod Edges
pub mod Drivers
pub mod Scans
pub mod Degrees
pub mod Order
pub mod Result
mod Tests
use digital_circuit_simulati.Prelude.{
  ℕ, zero, suc, ◌+◌, ◌-◌, Option, none, some, Bool, List, [], ◌∷◌, ◌++◌,
}
use digital_circuit_simulati.Prelude.{length, get_or, set, replicate, ltb, ◌==◌, if◌then◌else◌}
use digital_circuit_simulati.LoopCheck.{Graph, targets}

pub record Node : Type 0 where
  pub ins : List (Option ℕ)
  pub outs : List (Option ℕ)

-- The map `net_writer`: the component that writes a net, the last one where there are several.
abbrev pub Writers : Type 0
Writers = ℕ → Option ℕ

unfoldable pub add_outs : Writers → ℕ → List (Option ℕ) → Writers
add_outs m a [] = m
add_outs m a (none ∷ outs) = add_outs m a outs
add_outs m a (some n ∷ outs) = add_outs (λ k. if k == n then some a else m k) a outs

unfoldable pub net_writer : Writers → ℕ → List Node → Writers
unfolding add_outs
net_writer m i [] = m
net_writer m i (node ∷ nodes) = net_writer (add_outs m i node.outs) (i + 1) nodes

pub record Links : Type 0 where
  pub adj : Graph
  pub indeg : List ℕ

-- `adj[ai].push_back(bi); indeg[bi]++;`
unfoldable pub link : Links → ℕ → ℕ → Links
link l a b = record {
  adj = set l.adj a (targets l.adj a ++ b ∷ []);
  indeg = set l.indeg b (get_or l.indeg b 0 + 1);
}

-- One pass of the loop over the input pins of component `b`.
unfoldable pub link_pin : Writers → ℕ → Links → Option ℕ → Links
unfolding link
link_pin m b l none = l
link_pin m b l (some n) = elim (m n) [ none ↦ l | some a ↦ if a == b then l else link l a b ]

unfoldable pub link_pins : Writers → ℕ → Links → List (Option ℕ) → Links
unfolding link_pin
link_pins m b l [] = l
link_pins m b l (pin ∷ pins) = link_pins m b (link_pin m b l pin) pins

unfoldable pub link_nodes : Writers → ℕ → Links → List Node → Links
unfolding link_pins
link_nodes m b l [] = l
link_nodes m b l (node ∷ nodes) = link_nodes m (b + 1) (link_pins m b l node.ins) nodes

unfoldable pub build : List Node → Links
unfolding link_nodes net_writer
build nodes =
    link_nodes (net_writer (λ _. none) 0 nodes) 0
      (record { adj = replicate (length nodes) []; indeg = replicate (length nodes) 0 }) nodes

-- `for (int v: adj[u]) if (--indeg[v] == 0) q.push_back(v);`
unfoldable pub relax : List ℕ → List ℕ → List ℕ → List ℕ × List ℕ
relax [] indeg q = (indeg, q)
relax (v ∷ vs) indeg q =
    relax vs (set indeg v (get_or indeg v 0 - 1)) (if get_or indeg v 0 - 1 == 0 then v ∷ q else q)

-- The loop `while (!q.empty())`: the degrees left and the order found, or `none` without fuel.
unfoldable pub kahn : ℕ → Graph → List ℕ → List ℕ → List ℕ → Option (List ℕ × List ℕ)
unfolding relax
kahn fuel g indeg [] order = some (indeg, order)
kahn zero g indeg (u ∷ q) order = none
kahn (suc fuel) g indeg (u ∷ q) order =
    let (indeg', q') = relax (targets g u) indeg q in kahn fuel g indeg' q' (order ++ u ∷ [])

-- The positions from `i` on with degree 0, pushed in order.
unfoldable pub sources : ℕ → List ℕ → List ℕ → List ℕ
sources i [] q = q
sources i (d ∷ indeg) q = sources (i + 1) indeg (if d == 0 then i ∷ q else q)

-- The positions from `i` on whose degree is still positive.
unfoldable pub leftovers : ℕ → List ℕ → List ℕ
leftovers i [] = []
leftovers i (d ∷ indeg) = let rest = leftovers (i + 1) indeg in if ltb 0 d then i ∷ rest else rest

pub record TopoResult : Type 0 where
  pub order : List ℕ
  pub left : List ℕ

unfoldable pub topo_order : List Node → Option TopoResult
unfolding build kahn sources leftovers
topo_order nodes =
    let l = build nodes in
    elim (kahn (length nodes) l.adj l.indeg (sources 0 l.indeg []) []) [
      | none ↦ none
      | some (indeg, order) ↦ some (record { order = order; left = leftovers 0 indeg })
    ]
