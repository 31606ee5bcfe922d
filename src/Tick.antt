-- ===== src/Tick.antt =====
-- What the stages of a tick run, src/core/CodeGen.cpp: the order of the components with the clock
-- sources (`topologicalSort`, `topologicalSortWithClocks`), the components that stage 2b runs again
-- (`computeTriAffected`) and the calls of the combinational stage (`emitCombStage`). A component is
-- named by its position in `sorted`, and a net by its number.
pub mod Collect
pub mod Affected
pub mod Clocks
pub mod Batch
mod Tests
use digital_circuit_simulati.Prelude.{
  ℕ, zero, suc, ◌+◌, Bool, true, false, not, ◌&&◌, ◌||◌, Option, none, some, List, [], ◌∷◌, ◌++◌,
}
use digital_circuit_simulati.Prelude.{length, get_elem?, ◌==◌, if◌then◌else◌}
use digital_circuit_simulati.TopoSort.{Node, TopoResult, topo_order}
use digital_circuit_simulati.TopoSort.Degrees.{elem}

pub record Output : Type 0 where
  pub net : Option ℕ
  pub tri_state : Bool

pub record Component : Type 0 where
  pub comb : Bool
  pub ins : List (Option ℕ)
  pub outs : List Output

-- The set `tri_nets`, as a list.
unfoldable pub add_tri : List Output → List ℕ → List ℕ
add_tri [] s = s
add_tri (o ∷ os) s =
    add_tri os (if o.tri_state then (elim o.net [ none ↦ s | some n ↦ n ∷ s ]) else s)

unfoldable pub tri_nets : List Component → List ℕ → List ℕ
tri_nets [] s = s
tri_nets (c ∷ cs) s = tri_nets cs (add_tri c.outs s)

-- Whether a pin of the list is on a net of the set, or on one net.
abbrev pub reads_any : List ℕ → List (Option ℕ) → Bool
reads_any s [] = false
reads_any s (pin ∷ pins) =
    let rest = reads_any s pins in elim pin [ none ↦ rest | some n ↦ elem n s || rest ]

abbrev pub reads : ℕ → List (Option ℕ) → Bool
reads n [] = false
reads n (pin ∷ pins) =
    let rest = reads n pins in elim pin [ none ↦ rest | some k ↦ (k == n) || rest ]

-- The queue is the components that have been followed, `done`, and the others, `todo`; the set
-- `tri_affected` has the same components. The combinational ones that pass the test join it.
unfoldable pub collect : (Component → Bool) → List ℕ → ℕ → List Component → List ℕ → List ℕ
collect test done i [] todo = todo
collect test done i (c ∷ cs) todo =
    collect test done (suc i) cs
      (if c.comb && test c && not (elem i done || elem i todo) then todo ++ i ∷ [] else todo)

unfoldable pub follow : List Output → List Component → List ℕ → List ℕ → List ℕ
follow [] sorted done todo = todo
follow (o ∷ os) sorted done todo =
    follow os sorted done
      (elim o.net [ none ↦ todo | some n ↦ collect (λ c. reads n c.ins) done 0 sorted todo ])

abbrev pub outs_at : List Component → ℕ → List Output
outs_at sorted u = elim (get_elem? sorted u) [ none ↦ [] | some c ↦ c.outs ]

-- The loop over the queue, or `none` without fuel.
unfoldable pub spread : ℕ → List Component → List ℕ → List ℕ → Option (List ℕ)
spread fuel sorted done [] = some done
spread zero sorted done (u ∷ todo) = none
spread (suc fuel) sorted done (u ∷ todo) =
    spread fuel sorted (done ++ u ∷ []) (follow (outs_at sorted u) sorted (done ++ u ∷ []) todo)

unfoldable pub compute_tri_affected : List Component → List Component → Option (List ℕ)
compute_tri_affected sorted components =
    let nets = tri_nets components [] in
    spread (length sorted) sorted [] (collect (λ c. reads_any nets c.ins) [] 0 sorted [])

-- `topologicalSort`
unfoldable pub topological_sort : List Node → Option (List ℕ)
topological_sort nodes = elim (topo_order nodes) [ none ↦ none | some r ↦ some (r.order ++ r.left) ]

-- A component of the joint sort.
pub record Source : Type 0 where
  pub node : Node
  pub is_clock_source : Bool

abbrev pub nodes_of : List Source → List Node
nodes_of [] = []
nodes_of (s ∷ ss) = s.node ∷ nodes_of ss

abbrev pub is_clock_at : List Source → ℕ → Bool
is_clock_at ss v = elim (get_elem? ss v) [ none ↦ false | some s ↦ s.is_clock_source ]

unfoldable pub any_clock : List Source → List ℕ → Bool
any_clock ss [] = false
any_clock ss (v ∷ vs) = let rest = any_clock ss vs in if is_clock_at ss v then true else rest

-- The exception that is thrown for a clock source in a loop.
pub data Order : Type 0 where
  sorted : List ℕ → Order
  clock_loop : Order

unfoldable pub topological_sort_with_clocks : List Source → List Source → Option Order
topological_sort_with_clocks comb clock_sources =
    let nodes = comb ++ clock_sources in
    elim (topo_order (nodes_of nodes)) [
      | none ↦ none
      | some r ↦ some (if any_clock nodes r.left then clock_loop else sorted (r.order ++ r.left))
    ]
