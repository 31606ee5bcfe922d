-- ===== src/Check.antt =====
-- `Circuit::check` of src/core/Circuit.cpp as a whole: the nets of all pins, the drivers of each
-- net, the tri-state buses and the dependency graph, which goes to the loop check. A net is
-- its id, and a component is its position in `_components`, which is its id at that time.
-- `createNet` numbers the nets from 0, so no id is negative and the test for it is left out.
pub mod Drivers
pub mod Edges
pub mod Ranges
pub mod Verdict
pub mod Buses
mod Tests
use digital_circuit_simulati.Prelude.{
  ℕ, zero, suc, ◌+◌, Bool, true, false, not, ◌&&◌, ◌||◌, Option, none, some, List, [], ◌∷◌, ◌++◌,
  map,
}
use digital_circuit_simulati.Prelude.{
  ltb, leb, ◌==◌, if◌then◌else◌, length, get_elem?, set, replicate,
}
use digital_circuit_simulati.LoopCheck.{Graph, targets}
use digital_circuit_simulati.LoopCheck

pub record Pin : Type 0 where
  pub net : Option ℕ
  pub tri_state : Bool
  pub sequential : Bool

-- `deps` is the virtual `getCombinationalDeps`.
pub record Component : Type 0 where
  pub inputs : List (Option ℕ)
  pub outputs : List Pin
  pub deps : ℕ → List ℕ

-- `Component::getCombinationalDeps`, which most components inherit.
abbrev pub below : ℕ → ℕ → List ℕ
below i zero = []
below i (suc n) = i ∷ below (suc i) n

unfoldable pub default_deps : List (Option ℕ) → List Pin → ℕ → List ℕ
default_deps inputs outputs oi = elim (get_elem? outputs oi) [
  | some p ↦ if p.sequential || p.tri_state then [] else below 0 (length inputs)
  | none ↦ below 0 (length inputs)
]

-- `bad_net`, and the first pin it holds for.
unfoldable pub first_bad : ℕ → List (Option ℕ) → Option ℕ
first_bad n [] = none
first_bad n (none ∷ pins) = first_bad n pins
first_bad n (some k ∷ pins) = let rest = first_bad n pins in if leb n k then some k else rest

abbrev pub out_nets : List Pin → List (Option ℕ)
out_nets [] = []
out_nets (p ∷ ps) = p.net ∷ out_nets ps

unfoldable pub invalid_pin : ℕ → ℕ → List Component → Option (ℕ × ℕ)
invalid_pin n ci [] = none
invalid_pin n ci (c ∷ cs) =
    let rest = invalid_pin n (suc ci) cs in
    elim (first_bad n c.inputs) [
      | some k ↦ some (k, ci)
      | none ↦ elim (first_bad n (out_nets c.outputs)) [ some k ↦ some (k, ci) | none ↦ rest ]
    ]

-- `driver_ids`; `driver_count` counts the entries of each of its lists.
abbrev pub Drivers : Type 0
Drivers = ℕ → List ℕ

abbrev pub add_driver : Drivers → ℕ → Option ℕ → Drivers
add_driver m ci none = m
add_driver m ci (some k) = λ x. if x == k then m x ++ ci ∷ [] else m x

unfoldable pub add_outputs : Drivers → ℕ → List Pin → Drivers
add_outputs m ci [] = m
add_outputs m ci (p ∷ ps) = add_outputs (add_driver m ci p.net) ci ps

unfoldable pub drivers : Drivers → ℕ → List Component → Drivers
drivers m ci [] = m
drivers m ci (c ∷ cs) = drivers (add_outputs m ci c.outputs) (suc ci) cs

-- The first output that is not tri-state and shares its net.
unfoldable pub shared_pin : Drivers → List Pin → Option ℕ
shared_pin m [] = none
shared_pin m (p ∷ ps) =
    let rest = shared_pin m ps in
    elim p.net [
      | none ↦ rest
      | some k ↦ if not p.tri_state && ltb 1 (length (m k)) then some k else rest
    ]

unfoldable pub shared_net : Drivers → List Component → Option ℕ
shared_net m [] = none
shared_net m (c ∷ cs) =
    let rest = shared_net m cs in elim (shared_pin m c.outputs) [ some k ↦ some k | none ↦ rest ]

-- The rebuilt `_bus_nets`: the tri-state outputs of each net that has at least two.
abbrev pub Buses : Type 0
Buses = ℕ → List (ℕ × ℕ)

abbrev pub add_tri_state : Buses → ℕ → ℕ → Pin → Buses
add_tri_state m ci oi p = elim p.net [
  | none ↦ m
  | some k ↦ λ x. if p.tri_state && (x == k) then m x ++ (ci, oi) ∷ [] else m x
]

unfoldable pub add_tri_states : Buses → ℕ → ℕ → List Pin → Buses
add_tri_states m ci oi [] = m
add_tri_states m ci oi (p ∷ ps) = add_tri_states (add_tri_state m ci oi p) ci (suc oi) ps

unfoldable pub collect : Buses → ℕ → List Component → Buses
collect m ci [] = m
collect m ci (c ∷ cs) = collect (add_tri_states m ci 0 c.outputs) (suc ci) cs

unfoldable pub buses : List Component → Buses
buses cs k = let all = collect (λ x. []) 0 cs k in if ltb (length all) 2 then [] else all

-- `adj[u].push_back(v)`
unfoldable pub push : Graph → ℕ → ℕ → Graph
push g u v = set g u (targets g u ++ v ∷ [])

-- The loops that fill `adj`, from the inside out.
unfoldable pub add_deps : Graph → List (Option ℕ) → ℕ → List ℕ → Graph
add_deps g inputs v [] = g
add_deps g inputs v (di ∷ ds) = elim (get_elem? inputs di) [
  | some (some u) ↦ add_deps (push g u v) inputs v ds
  | _ ↦ add_deps g inputs v ds
]

unfoldable pub add_pins : Graph → Component → ℕ → List Pin → Graph
add_pins g c oi [] = g
add_pins g c oi (p ∷ ps) = elim p.net [
  | none ↦ add_pins g c (suc oi) ps
  | some v ↦ add_pins (add_deps g c.inputs v (c.deps oi)) c (suc oi) ps
]

unfoldable pub add_components : Graph → List Component → Graph
add_components g [] = g
add_components g (c ∷ cs) = add_components (add_pins g c 0 c.outputs) cs

unfoldable pub dependencies : ℕ → List Component → Graph
dependencies n cs = add_components (replicate n []) cs

pub data Result : Type 0 where
  ok : Buses → Result
  invalid_net : ℕ → ℕ → Result
  multiple_drivers : ℕ → List ℕ → Result
  refused : LoopCheck.Verdict → Result

unfoldable pub check : ℕ → List Component → Result
check n cs =
    let driven = drivers (λ x. []) 0 cs in
    elim (invalid_pin n 0 cs) [
      | some (k, ci) ↦ invalid_net k ci
      | none ↦ elim (shared_net driven cs) [
        | some k ↦ multiple_drivers k (driven k)
        | none ↦ elim (LoopCheck.check_loops (dependencies n cs)) [
          | LoopCheck.accepted ↦ ok (buses cs)
          | v ↦ refused v
        ]
      ]
    ]
