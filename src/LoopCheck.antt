-- ===== src/LoopCheck.antt =====
-- The combinational loop check of src/core/Circuit.cpp: `Circuit::dfsCycle`, a depth-first search
-- on an explicit stack with three colours, and the part of `Circuit::check` that starts it at
-- every white net and reports the loop. A graph is `adj`: the list of successors of each net.
-- A vector with `push_back` and `pop_back` at its end is a list that grows at its end, except the
-- stack of frames, whose top is the head of the list.
pub mod Walk
pub mod Finish
pub mod Invariant
pub mod Rounds
pub mod Report
pub mod Decides
mod Tests
use digital_circuit_simulati.Prelude.{
  ℕ, zero, suc, ◌+◌, ◌≡◌, Bool, true, false, ◌||◌, Option, none, some, List, [], ◌∷◌, ◌++◌,
}
use digital_circuit_simulati.Prelude.{length, get_elem?, get_or, set, replicate, ◌==◌}
use digital_circuit_simulati.Prelude.{if◌then◌else◌}

-- `adj`
abbrev pub Graph : Type 0
Graph = List (List ℕ)

abbrev pub targets : Graph → ℕ → List ℕ
targets g u = get_or g u []

pub data Color : Type 0 where
  white gray black : Color

abbrev pub color_at : List Color → ℕ → Color
color_at cs v = get_or cs v white

-- The local `struct Frame`.
pub record Frame : Type 0 where
  pub u : ℕ
  pub next : ℕ

-- `true` with the closed walk left in `path`, or `false`.
pub data Outcome : Type 0 where
  cycle : List Color → List ℕ → Outcome
  clear : List Color → List ℕ → Outcome
  out_of_fuel : Outcome

-- `path.pop_back()`
abbrev pub drop_last : List ℕ → List ℕ
drop_last [] = []
drop_last (x ∷ []) = []
drop_last (x ∷ y ∷ xs) = x ∷ drop_last (y ∷ xs)

-- The `while (!stack.empty())` loop.
unfoldable pub search_loop : ℕ → Graph → List Frame → List Color → List ℕ → Outcome
search_loop fuel g [] cs path = clear cs path
search_loop zero g (f ∷ stack) cs path = out_of_fuel
search_loop (suc fuel) g (f ∷ stack) cs path = elim (get_elem? (targets g f.u) f.next) [
  | some v ↦ elim (color_at cs v) [
    | gray ↦ cycle cs (path ++ v ∷ [])
    | white ↦
        search_loop fuel g
          (record { u = v; next = 0 } ∷ record { u = f.u; next = f.next + 1 } ∷ stack)
          (set cs v gray) (path ++ v ∷ [])
    | black ↦ search_loop fuel g (record { u = f.u; next = f.next + 1 } ∷ stack) cs path
  ]
  | none ↦ search_loop fuel g stack (set cs f.u black) (drop_last path)
]

-- `Circuit::dfsCycle`
unfoldable pub dfs_cycle : ℕ → ℕ → Graph → List Color → List ℕ → Outcome
dfs_cycle fuel start g cs path =
    search_loop fuel g (record { u = start; next = 0 } ∷ []) (set cs start gray)
      (path ++ start ∷ [])

-- The loop `for (int i = 0; i < N; i++)`, `todo` rounds of it from `i` on. The path is read out
-- by the report.
unfoldable pub start_loop : ℕ → Graph → ℕ → ℕ → List Color → List ℕ → Outcome
start_loop fuel g i zero cs path = clear cs path
start_loop fuel g i (suc todo) cs path = elim (color_at cs i) [
  | white ↦ elim (dfs_cycle fuel i g cs path) [
    | cycle cs' path' ↦ cycle cs' path'
    | clear cs' path' ↦ start_loop fuel g (i + 1) todo cs' path'
    | out_of_fuel ↦ out_of_fuel
  ]
  | _ ↦ start_loop fuel g (i + 1) todo cs path
]

-- `path.back()`
abbrev pub last_or : List ℕ → ℕ → ℕ
last_or [] d = d
last_or (x ∷ xs) d = last_or xs x

-- The loop that prints the net names: from the first occurrence of the repeated net on, without
-- the last entry, and the repeated net once more at the end.
unfoldable pub report_loop : ℕ → Bool → List ℕ → List ℕ
report_loop start in_cycle [] = []
report_loop start in_cycle (x ∷ []) = start ∷ []
report_loop start in_cycle (x ∷ y ∷ rest) =
    let in_cycle' = in_cycle || (x == start) in
    let later = report_loop start in_cycle' (y ∷ rest) in if in_cycle' then x ∷ later else later

unfoldable pub report : List ℕ → List ℕ
unfolding report_loop
report path = report_loop (last_or path 0) false path

-- The result of the loop part of `Circuit::check`: `OK`, or `COMBINATIONAL_LOOP` with the nets that
-- the message names.
pub data Verdict : Type 0 where
  accepted : Verdict
  combinational_loop : List ℕ → Verdict
  unfinished : Verdict

-- The edges and the nets: every round uses up one of them.
abbrev pub size : Graph → ℕ
size [] = 0
size (ts ∷ g) = suc (length ts) + size g

abbrev pub verdict : Outcome → Verdict
verdict (cycle cs path) = combinational_loop (report path)
verdict (clear cs path) = accepted
verdict out_of_fuel = unfinished

unfoldable pub check_loops : Graph → Verdict
check_loops g = verdict (start_loop (size g) g 0 (length g) (replicate (length g) white) [])
