-- ===== src/Interconnect/Tests.antt =====
-- Two masters and two slaves, and the theorems at them.
use digital_circuit_simulati.Prelude.{
  ℕ, zero, suc, ◌<◌, ◌≡◌, ◌⊎◌, refl, true, false, some, List, [], ◌∷◌, arith,
}
use digital_circuit_simulati.Prelude.{length, get_or}
use digital_circuit_simulati.Interconnect.{
  Lines, idle, Segment, Interconnect, init, any_request, pick, arbitrate, next_after, decode_from,
  drive, release, watch, route, tick,
}
use digital_circuit_simulati.Interconnect.Arbiter.{distance, arbitrate-fair}
use digital_circuit_simulati.Interconnect.Exclusive.{IsReady, Routed, tick-Routed}

abbrev segments : List Segment
segments = record { base = 0; size = 0x1000 } ∷ record { base = 0x8000; size = 0x100 } ∷ []

abbrev asks : ℕ → Lines
asks adr = record { adr = adr; dat = 5; we = true; sel = 15; stb = true; cyc = true }

abbrev both : List Lines
both = asks 0x10 ∷ asks 0x8004 ∷ []

abbrev fresh : Interconnect
fresh = init (idle ∷ idle ∷ [])

-- The first master is served first, then the other one after a tick without a request.
first_owner : (tick segments both true fresh).grant ≡ some 0
unfolding tick init any_request arbitrate pick next_after route decode_from drive watch
first_owner = refl

second_owner :
    (tick segments (idle ∷ asks 0x8004 ∷ []) true (tick segments both true fresh)).slaves
    ≡ idle ∷ record { adr = 0x8004; dat = 5; we = true; sel = 15; stb = false; cyc = false } ∷ []
unfolding tick init any_request arbitrate pick next_after route decode_from drive watch release
second_owner = refl

fresh-IsReady : IsReady segments fresh
unfolding init
fresh-IsReady = record {
  quiet = record { others = λ k out. none_driven k };
  ports = refl;
  owned = λ e. refl;
  latest = λ e. cc;
  silent = λ e. refl;
}
  where
    none_driven : (k : ℕ) → get_or (idle ∷ idle ∷ []) k idle ≡ idle
    none_driven zero = refl
    none_driven (suc zero) = refl
    none_driven (suc (suc k)) = refl

tick-Routed_example : Routed segments both fresh (tick segments both true fresh)
tick-Routed_example = tick-Routed segments (omega arith) both fresh fresh-IsReady

arbitrate-fair_example :
    (g : ℕ) × (arbitrate both 0 ≡ some g)
    × (g < length both)
    × ((g ≡ 1)
        ⊎ (distance (length both) (next_after (length both) g) 1 < distance (length both) 0 1))
arbitrate-fair_example = arbitrate-fair both 0 1 (omega arith) (omega arith) refl
