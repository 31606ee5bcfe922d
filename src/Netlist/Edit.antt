-- ===== src/Netlist/Edit.antt =====
-- `createNet`, `connect`, `detachPin`, `disconnect` and `disconnectAll` of src/core/Circuit.cpp.
use digital_circuit_simulati.Prelude.{
  ℕ, zero, suc, Bool, true, false, not, ◌&&◌, ◌||◌, Option, none, some, List, [], ◌∷◌, ◌++◌,
}
use digital_circuit_simulati.Prelude.{◌==◌, if◌then◌else◌, length, get_elem?, set}
use digital_circuit_simulati.Netlist.{
  Pin, Component, Net, Driver, Buses, Circuit, ErrorCode, ok, pin_not_found, invalid_net,
  multiple_drivers, Place, input, output, lookup, insert, erase, find_ref, find_pin, find_net,
  pin_at, with_net, set_pin, widen, recompute_net_widths,
}

-- `createNet`: `suffixed k` is the number of the name with the suffix `k`, and `tries` bounds the
-- search for a name that is not taken. The new object is at `ref`.
unfoldable pub free_name : ℕ → (ℕ → ℕ) → ℕ → ℕ → List Net → Option ℕ
free_name zero suffixed name suffix ns = elim (find_net name ns) [
  | none ↦ some name
  | some _ ↦ none
]
free_name (suc tries) suffixed name suffix ns = elim (find_net name ns) [
  | none ↦ some name
  | some _ ↦ free_name tries suffixed (suffixed suffix) (suc suffix) ns
]

unfoldable pub create_net : (ℕ → ℕ) → ℕ → ℕ → Circuit → Option Circuit
create_net suffixed ref name c = elim (free_name (length c.nets) suffixed name 2 c.nets) [
  | none ↦ none
  | some unique ↦ some (record c {
    nets = c.nets ++ record { ref = ref; name = unique; id = length c.nets; width = 0 } ∷ [];
    compiled = false;
  })
]

abbrev pub on_net : ℕ → Option ℕ → Bool
on_net r none = false
on_net r (some x) = x == r

-- The two loops over the other outputs on the net: the component of a clash, or the drivers that
-- share it.
pub data Scan : Type 0 where
  clash : ℕ → Scan
  shared : List Driver → Scan

abbrev pub is_me : Option (ℕ × ℕ) → ℕ → ℕ → Bool
is_me none ci oi = false
is_me (some (mi, mo)) ci oi = (mi == ci) && (mo == oi)

unfoldable pub scan_pins : Option (ℕ × ℕ) → Bool → ℕ → ℕ → ℕ → ℕ → ℕ → List Pin → List Driver → Scan
scan_pins me tri r ci ref id oi [] found = shared found
scan_pins me tri r ci ref id oi (p ∷ ps) found =
    if not (on_net r p.net) || is_me me ci oi
    then scan_pins me tri r ci ref id (suc oi) ps found
    else if not tri || not p.tri_state
    then clash id
    else scan_pins me tri r ci ref id (suc oi) ps
        (found ++ record { comp = ref; out_idx = oi } ∷ [])

unfoldable pub scan_outputs : Option (ℕ × ℕ) → Bool → ℕ → ℕ → List Component → List Driver → Scan
scan_outputs me tri r ci [] found = shared found
scan_outputs me tri r ci (c ∷ cs) found =
    elim (scan_pins me tri r ci c.ref c.id 0 c.outputs found) [
      | clash id ↦ clash id
      | shared more ↦ scan_outputs me tri r (suc ci) cs more
    ]

-- `add_driver`
abbrev pub same_driver : Driver → Driver → Bool
same_driver a b = (a.comp == b.comp) && (a.out_idx == b.out_idx)

abbrev pub has_driver : Driver → List Driver → Bool
has_driver d [] = false
has_driver d (e ∷ es) = let rest = has_driver d es in same_driver e d || rest

unfoldable pub add_driver : List Driver → Driver → List Driver
add_driver ds d = if has_driver d ds then ds else ds ++ d ∷ []

unfoldable pub add_drivers : List Driver → List Driver → List Driver
add_drivers ds [] = ds
add_drivers ds (d ∷ new) = add_drivers (add_driver ds d) new

abbrev pub drivers_at : ℕ → Buses → List Driver
drivers_at k m = elim (lookup k m) [ none ↦ [] | some ds ↦ ds ]

unfoldable pub remove_driver : Driver → List Driver → List Driver
remove_driver d [] = []
remove_driver d (e ∷ es) =
    let rest = remove_driver d es in if same_driver e d then rest else e ∷ rest

-- The bus entry of an output that is detached from the net with id `k`.
unfoldable pub drop_driver : ℕ → Driver → Buses → Buses
drop_driver k d m = elim (lookup k m) [
  | none ↦ m
  | some ds ↦ elim (remove_driver d ds) [ [] ↦ erase k m | e ∷ es ↦ insert k (e ∷ es) m ]
]

abbrev pub release : Place → ℕ → Option Net → Buses → Buses
release (input i) ref n m = m
release (output i) ref none m = m
release (output i) ref (some n) m = drop_driver n.id (record { comp = ref; out_idx = i }) m

-- `detachPin` of the component at position `ci`.
unfoldable pub detach_pin : ℕ → Component → Place → Circuit → Circuit
detach_pin ci comp at c = elim (pin_at comp at) [
  | none ↦ c
  | some p ↦ elim p.net [
    | none ↦ c
    | some r ↦ record c {
      comps = set c.comps ci (set_pin at (with_net none p) comp);
      buses = release at comp.ref (find_ref r c.nets) c.buses;
    }
  ]
]

abbrev pub is_connected : Component → Place → Bool
is_connected comp at = elim (pin_at comp at) [
  | none ↦ false
  | some p ↦ elim p.net [ none ↦ false | some r ↦ true ]
]

-- `disconnect`
unfoldable pub disconnect : ℕ → ℕ → Circuit → Circuit
disconnect ci name c = elim (get_elem? c.comps ci) [
  | none ↦ c
  | some comp ↦ elim (find_pin name comp) [
    | none ↦ c
    | some at ↦
        if is_connected comp at
        then record (recompute_net_widths (detach_pin ci comp at c)) { compiled = false }
        else c
  ]
]

-- The place of an output among the drivers.
abbrev pub me_at : ℕ → Place → Option (ℕ × ℕ)
me_at ci (input i) = none
me_at ci (output i) = some (ci, i)

abbrev pub scan_at : ℕ → Place → Pin → ℕ → Circuit → Scan
scan_at ci (input i) p r c = shared []
scan_at ci (output i) p r c = scan_outputs (some (ci, i)) p.tri_state r 0 c.comps []

abbrev pub join_bus : Place → ℕ → Net → List Driver → Buses → Buses
join_bus (input i) ref n ds m = m
join_bus (output i) ref n [] m = m
join_bus (output i) ref n (d ∷ ds) m =
    insert n.id
      (add_driver (add_drivers (drivers_at n.id m) (d ∷ ds)) (record { comp = ref; out_idx = i })) m

-- What `connect` does once nothing speaks against it: a pin on another net leaves it first.
unfoldable pub attach : ℕ → ℕ → Place → Net → List Driver → Circuit → Circuit
attach ci name at n ds c = elim (get_elem? c.comps ci) [
  | none ↦ c
  | some comp ↦ elim (pin_at comp at) [
    | none ↦ c
    | some p ↦ record c {
      nets = widen (some n.ref) p.width c.nets;
      comps = set c.comps ci (set_pin at (with_net (some n.ref) p) comp);
      buses = join_bus at comp.ref n ds c.buses;
      compiled = false;
    }
  ]
]

unfoldable pub connect : Option ℕ → ℕ → Option ℕ → Circuit → Circuit × ErrorCode
connect none name net c = (c, pin_not_found)
connect (some ci) name none c = (c, invalid_net)
connect (some ci) name (some r) c = elim (find_ref r c.nets) [
  | none ↦ (c, invalid_net)
  | some n ↦ elim (get_elem? c.comps ci) [
    | none ↦ (c, pin_not_found)
    | some comp ↦ elim (find_pin name comp) [
      | none ↦ (c, pin_not_found)
      | some at ↦ elim (pin_at comp at) [
        | none ↦ (c, pin_not_found)
        | some p ↦ elim (scan_at ci at p n.ref c) [
          | clash other ↦ (c, multiple_drivers other)
          | shared ds ↦
              let moved =
                if is_connected comp at && not (on_net n.ref p.net)
                then disconnect ci name c
                else c in
              (attach ci name at n ds moved, ok)
        ]
      ]
    ]
  ]
]

-- `disconnectAll`: all outputs, then all inputs, of the component at position `ci`.
abbrev pub count_up : ℕ → ℕ → List ℕ
count_up i zero = []
count_up i (suc n) = i ∷ count_up (suc i) n

unfoldable pub detach_at : ℕ → Place → Circuit → Circuit
detach_at ci at c = elim (get_elem? c.comps ci) [ none ↦ c | some comp ↦ detach_pin ci comp at c ]

unfoldable pub detach_list : ℕ → List Place → Circuit → Circuit
detach_list ci [] c = c
detach_list ci (at ∷ ats) c = detach_list ci ats (detach_at ci at c)

abbrev pub places : (ℕ → Place) → List ℕ → List Place
places f [] = []
places f (i ∷ is) = f i ∷ places f is

abbrev pub any_connected : List Pin → Bool
any_connected [] = false
any_connected (p ∷ ps) = let rest = any_connected ps in elim p.net [ none ↦ rest | some r ↦ true ]

unfoldable pub disconnect_all : ℕ → Circuit → Circuit
disconnect_all ci c = elim (get_elem? c.comps ci) [
  | none ↦ c
  | some comp ↦
      let outs = places output (count_up 0 (length comp.outputs)) in
      let ins = places input (count_up 0 (length comp.inputs)) in
      let c' = detach_list ci (outs ++ ins) c in
      if any_connected comp.outputs || any_connected comp.inputs
      then record (recompute_net_widths c') { compiled = false }
      else c'
]
