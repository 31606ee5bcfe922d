-- ===== src/Registers.antt =====
-- The `register`, `latch`, `counter` and `shift` components of
-- src/components/sequential/Sequential.cpp: the C functions that they emit, one call for each tick.
-- The state is the bytes of `q`, lowest first. Pins that a component does not have, or that are not
-- connected, read as the emitted constants: `en` as true (of a latch as false), the others as false.
pub mod Carry
pub mod Count
pub mod Shift
mod Tests
use digital_circuit_simulati.Prelude.{
  ℕ, zero, suc, ◌+◌, ◌-◌, ◌*◌, ◌/◌, ◌%◌, ◌^◌, Bool, true, false, not, ◌&&◌, List, [], ◌∷◌, bit_and,
  bit_or,
}
use digital_circuit_simulati.Prelude.{leb, if◌then◌else◌}
use digital_circuit_simulati.FlipFlop.{byte_count, tail_byte_mask, mask_tail, bytes_of, clear}

unfoldable pub register_tick : ℕ → ℕ → Bool → Bool → Bool → List ℕ → List ℕ
register_tick width d en rst rising q =
    if rst then clear width else if rising && en then bytes_of (byte_count width) d else q

unfoldable pub latch_tick : ℕ → ℕ → Bool → List ℕ → List ℕ
latch_tick width d en q = if en then bytes_of (byte_count width) d else q

-- `_tmp = count[_i] + _carry`, a 16-bit word.
unfoldable pub increment : ℕ → List ℕ → List ℕ
increment carry [] = []
increment carry (b ∷ bs) =
    let tmp = (b + carry) % 2 ^ 16 in tmp % 256 ∷ increment (tmp / 256 % 2) bs

-- `_tmp = count[_i] - _borrow`, which wraps around at 0.
unfoldable pub decrement : ℕ → List ℕ → List ℕ
decrement borrow [] = []
decrement borrow (b ∷ bs) =
    let tmp = (b + 2 ^ 16 - borrow) % 2 ^ 16 in tmp % 256 ∷ decrement (tmp / 256 % 2) bs

pub record CounterInputs : Type 0 where
  pub load : Bool
  pub din : ℕ
  pub en : Bool
  pub updown : Bool
  pub clr : Bool
  pub rising : Bool

unfoldable pub count_one : ℕ → Bool → List ℕ → List ℕ
count_one width updown q =
    mask_tail (tail_byte_mask width) (if updown then decrement 1 q else increment 1 q)

unfoldable pub counter_tick : ℕ → CounterInputs → List ℕ → List ℕ
counter_tick width i q =
    if i.clr
    then clear width
    else if i.rising && i.en
    then (if i.load then bytes_of (byte_count width) i.din else count_one width i.updown q)
    else q

-- The type of `_tmp` in a shift register.
unfoldable pub word_width : ℕ → ℕ
word_width length =
    if leb length 8 then 8 else if leb length 16 then 16 else if leb length 32 then 32 else 64

-- `dcs_memcpy(&_tmp, stages, bytes)`
unfoldable pub word_of : List ℕ → ℕ
word_of [] = 0
word_of (b ∷ bs) = b + 256 * word_of bs

unfoldable pub shift_left : ℕ → Bool → List ℕ → List ℕ
shift_left length sin q =
    let tmp = bit_or (word_of q * 2 % 2 ^ word_width length) (if sin then 1 else 0) in
    bytes_of (byte_count length) (bit_and tmp (2 ^ length - 1))

unfoldable pub shift_right : ℕ → Bool → List ℕ → List ℕ
shift_right length sin q =
    let tmp = bit_or (word_of q / 2) (if sin then 2 ^ (length - 1) else 0) in
    bytes_of (byte_count length) (bit_and tmp (2 ^ length - 1))

pub record ShiftInputs : Type 0 where
  pub sin : Bool
  pub dir : Bool
  pub clr : Bool
  pub rising : Bool

unfoldable pub shift_tick : ℕ → ShiftInputs → List ℕ → List ℕ
shift_tick length i q =
    if i.clr
    then clear length
    else if i.rising
    then (if i.dir then shift_right length i.sin q else shift_left length i.sin q)
    else q
