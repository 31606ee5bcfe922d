-- ===== src/FlipFlop.antt =====
-- The flip-flops of src/components/sequential/Sequential.cpp (`dff`, `tff`, `jkff`): the C
-- functions that they emit, one call of them for each tick. The state is the bytes of `q`, lowest
-- first, as many as the width needs.
pub mod Bytes
pub mod Refine
mod Tests
use digital_circuit_simulati.Prelude.{
  ℕ, zero, suc, ◌+◌, ◌-◌, ◌*◌, ◌/◌, ◌%◌, ◌^◌, Bool, true, false, not, ◌&&◌, Option, none, some,
  List, [], ◌∷◌, bit_and,
}
use digital_circuit_simulati.Prelude.{leb, ◌==◌, if◌then◌else◌, replicate}

-- `byte_count`
abbrev pub byte_count : ℕ → ℕ
byte_count width = (width + 7) / 8

-- `tailByteMask`
unfoldable pub tail_byte_mask : ℕ → ℕ
tail_byte_mask width = if width % 8 == 0 then 0xFF else 2 ^ (width % 8) - 1

-- `q[bytes - 1] &= mask`
unfoldable pub mask_tail : ℕ → List ℕ → List ℕ
mask_tail mask [] = []
mask_tail mask (b ∷ []) = bit_and b mask ∷ []
mask_tail mask (b ∷ c ∷ bs) = b ∷ mask_tail mask (c ∷ bs)

-- `q[_i] = ~q[_i]` for all bytes.
unfoldable pub complement : List ℕ → List ℕ
complement [] = []
complement (b ∷ bs) = (255 - b) ∷ complement bs

-- `dcs_memcpy(q, &_dval, bytes)`
unfoldable pub bytes_of : ℕ → ℕ → List ℕ
bytes_of zero v = []
bytes_of (suc n) v = v % 256 ∷ bytes_of n (v / 256)

unfoldable pub init : ℕ → List ℕ
init width = replicate (byte_count width) 0

unfoldable pub clear : ℕ → List ℕ
clear width = replicate (byte_count width) 0

unfoldable pub preset : ℕ → List ℕ
preset width = mask_tail (tail_byte_mask width) (replicate (byte_count width) 0xFF)

unfoldable pub toggle : ℕ → List ℕ → List ℕ
toggle width q = mask_tail (tail_byte_mask width) (complement q)

-- Pins that a flip-flop does not have, or that are not connected, read as the emitted constants:
-- `en` as true, `rst` and `pre` as false.
pub record DInputs : Type 0 where
  pub d : ℕ
  pub en : Bool
  pub rst : Bool
  pub pre : Bool
  pub rising : Bool

unfoldable pub d_tick : ℕ → DInputs → List ℕ → List ℕ
d_tick width i q =
    if i.rst
    then clear width
    else if i.pre
    then preset width
    else if i.rising && i.en
    then bytes_of (byte_count width) i.d
    else q

unfoldable pub t_tick : ℕ → Bool → Bool → List ℕ → List ℕ
t_tick width t rising q = if rising && t then toggle width q else q

unfoldable pub jk_tick : ℕ → Bool → Bool → Bool → List ℕ → List ℕ
jk_tick width j k rising q =
    if not rising
    then q
    else if j && k
    then toggle width q
    else if j
    then preset width
    else if k
    then clear width
    else q
