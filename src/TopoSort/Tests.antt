-- ===== src/TopoSort/Tests.antt =====
-- Runs of the sort on small circuits.
use digital_circuit_simulati.Prelude.{
  ℕ, ◌<◌, ◌≡◌, ◌↔◌, refl, none, some, List, [], ◌∷◌, arith, ◌==◌, if◌then◌else◌,
}
use digital_circuit_simulati.TopoSort.{Node, TopoResult, build, topo_order, net_writer}
use digital_circuit_simulati.LoopCheck.Walk.{Edge}
use digital_circuit_simulati.TopoSort.Drivers.{Drives, build-Drives}
use digital_circuit_simulati.TopoSort.Result.{IsTopological, topo_order_sorts, topo_order_acyclic}

-- A gate from net 1 to 2, one from net 0 to 1, and one from nets 1 and 2 to 3.
abbrev gates : List Node
gates =
    record { ins = some 1 ∷ []; outs = some 2 ∷ [] }
    ∷ record { ins = some 0 ∷ none ∷ []; outs = some 1 ∷ [] }
    ∷ record { ins = some 1 ∷ some 2 ∷ []; outs = some 3 ∷ [] }
    ∷ []

gates_sorted : topo_order gates ≡ some (record { order = 1 ∷ 0 ∷ 2 ∷ []; left = [] })
unfolding topo_order
gates_sorted = refl

-- Component 1 drives 0 and 2, and component 0 drives 2.
abbrev rank : ℕ → ℕ
rank a = if a == 1 then 0 else if a == 0 then 1 else 2

rank_grows : (a b : ℕ) → Drives gates a b → rank a < rank b
unfolding net_writer
rank_grows a b d = ground arith

topo_order_sorts_example : (r : TopoResult) × (topo_order gates ≡ some r) × IsTopological gates r
topo_order_sorts_example = topo_order_sorts gates

topo_order_acyclic_example :
    (r : TopoResult) × (topo_order gates ≡ some r) × IsTopological gates r × (r.left ≡ [])
topo_order_acyclic_example = topo_order_acyclic gates rank rank_grows

build-Drives_example : Edge (build gates).adj 1 2 ↔ Drives gates 1 2
build-Drives_example = build-Drives gates 1 2
