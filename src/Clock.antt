-- ===== src/Clock.antt =====
-- The clock components of src/components/sequential/Sequential.cpp: `clkgen`, `clkdiv` and the edge
-- detectors, the C functions that they emit, one call for each tick.
pub mod Wave
mod Tests
use digital_circuit_simulati.Prelude.{
  ℕ, zero, suc, ◌+◌, ◌-◌, ◌*◌, ◌/◌, ◌%◌, ◌^◌, Bool, true, false, not, ◌&&◌, ◌||◌,
}
use digital_circuit_simulati.Prelude.{leb, ltb, if◌then◌else◌}

-- `clkgen` by its counter: the next state and the output.
unfoldable pub clkgen_tick : ℕ → ℕ → ℕ → ℕ × Bool
clkgen_tick high low cnt = (if leb (high + low) (cnt + 1) then 0 else cnt + 1, ltb cnt high)

-- The state of one bit that stands for one tick high and one tick low.
unfoldable pub toggle_tick : Bool → Bool × Bool
toggle_tick clk = (not clk, not clk)

pub record Divider : Type 0 where
  pub prev_clk : Bool
  pub counter : ℕ

unfoldable pub divider_tick : ℕ → Bool → Divider → Divider × Bool
divider_tick divisor clk d =
    let rising = clk && not d.prev_clk in
    let counter = if rising then (d.counter + 1) % 2 ^ 64 % divisor else d.counter in
    (record { prev_clk = clk; counter = counter }, ltb counter (divisor / 2))

pub data EdgeType : Type 0 where
  rising_edge falling_edge both_edges : EdgeType

pub record Detector : Type 0 where
  pub prev_in : Bool
  pub out_val : Bool

unfoldable pub is_edge : EdgeType → Bool → Bool → Bool
is_edge rising_edge before now = now && not before
is_edge falling_edge before now = not now && before
is_edge both_edges before now = if before then not now else now

unfoldable pub detector_tick : EdgeType → Bool → Bool → Detector → Detector
detector_tick edge rising now d =
    if rising then record { prev_in = now; out_val = is_edge edge d.prev_in now } else d
