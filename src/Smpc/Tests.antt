-- ===== src/Smpc/Tests.antt =====
-- Reports of the SMPC.
use libyaul.Base.{inr, ℕ, ◌≡◌, refl, true, false, List, [], ◌∷◌, ◌++◌, none, some, arith, replicate}
use libyaul.Memb.{Memb, available, reserved}
use libyaul.Memb.Inv.{IsValid}
use libyaul.Smpc.{
  State, Peripheral, Time, process_port, connections, port_at, peripheral_update, head_byte,
  take_one, known_type, known_id, take_bytes,
}
use libyaul.Smpc.Collect.{Answer, Collector, collect, system_manager_handler}
use libyaul.Smpc.Collect.Whole.{AreBefore, answers, whole, collect-whole, handler-overruns}
use libyaul.Smpc.Tap.{HasRoom, process_port-tap}

-- Four blocks, of which the two ports have the first ones.
abbrev pool : Memb
pool = record {
  bsize = 4;
  bnum = 4;
  breftype = reserved ∷ reserved ∷ available ∷ available ∷ [];
  bidx = 2;
  size = 2;
  bpool = 0x1000;
  bytes = [];
}

pool-IsValid : IsValid pool
pool-IsValid = ground arith

pool_room : HasRoom pool
pool_room = (pool-IsValid, 2, omega arith, omega arith, refl)

abbrev empty : Peripheral
empty = record {
  connected = 0;
  port = 0;
  type = 0;
  size = 0;
  parent = none;
  bytes = 0 ∷ 0 ∷ [];
  previous = 0 ∷ 0 ∷ [];
}

abbrev midnight : Time
midnight = record { year = 0; day = 0; month = 0; days = 0; hours = 0; minutes = 0; seconds = 0 }

abbrev state : List ℕ → State
state reports = record {
  pool = pool;
  memory = λ a. empty;
  port1 = record { peripheral = 0x1000; peripherals = [] };
  port2 = record { peripheral = 0x1004; peripherals = [] };
  oreg = replicate 32 0 ++ reports;
  offset = 32;
  complete = true;
  time = midnight;
}

-- A 6P multi-tap with a pad.
process_port-tap_example :
    (s' : State) × (process_port false (state (0x16 ∷ 0x02 ∷ 0x7F ∷ 0xFF ∷ [])) ≡ some s')
    × ((port_at false s').peripherals ≡ [])
    × (s'.offset ≡ 33)
    × (s'.pool.breftype ≡ pool.breftype)
unfolding connections
process_port-tap_example =
    process_port-tap false (state (0x16 ∷ 0x02 ∷ 0x7F ∷ 0xFF ∷ [])) 0x16 refl (omega arith) refl
      pool_room

-- A racing wheel is known, but its three bytes of data are not.
wheel_example : process_port false (state (0xF1 ∷ 0x13 ∷ 0 ∷ 0 ∷ 0 ∷ [])) ≡ none
unfolding process_port peripheral_update head_byte connections take_one known_type known_id
    take_bytes
wheel_example = refl

abbrev collector : Collector
collector = record { buffer = replicate 6 0; offset = 0; complete = false }

collect-whole_example :
    collect ((1 ∷ 2 ∷ [], 0xE0) ∷ (3 ∷ 4 ∷ [], 0xC0) ∷ []) collector
    ≡ some (
      Answer.go_on ∷ Answer.stop ∷ [],
      record { buffer = 1 ∷ 2 ∷ 3 ∷ 4 ∷ 0 ∷ 0 ∷ []; offset = 0; complete = true },
    )
unfolding whole answers
collect-whole_example =
    collect-whole ((1 ∷ 2 ∷ [], 0xE0) ∷ []) (3 ∷ 4 ∷ []) 0xC0 collector
      (AreBefore.one_more (omega arith, inr refl) AreBefore.no_more) (omega arith, refl, refl) refl
      (omega arith)

handler-overruns_example :
    system_manager_handler (1 ∷ 2 ∷ []) 0xA0 (record collector { offset = 5 }) ≡ none
handler-overruns_example =
    handler-overruns (1 ∷ 2 ∷ []) 0xA0 (record collector { offset = 5 }) (omega arith) (omega arith)
