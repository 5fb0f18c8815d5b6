-- ===== src/ScuDma/Levels/Tests.antt =====
-- Runs of the SCU-DMA levels.
use libyaul.Base.{bit_or, ◌≡◌, ◌≢◌, refl, true, false, [], ◌∷◌, none, some, arith}
use libyaul.CallbackList.{user}
use libyaul.DmaRing.{Handle}
use libyaul.ScuDma.Levels.{
  Level, level0, level1, level2, writes, called, State, LevelState, busy, wait, unused_get,
}
use libyaul.ScuDma.Levels.Wait.{returned, freed, returned-wait, busy-unused_get}
use libyaul.ScuDma.Levels.Transfer.{
  quiet, ending, quiet_then, all_busy, transfer, transfer_lem, programmed, registers_at,
}

abbrev idle : LevelState
idle = record { working = false; callback = record { handler = user 5; work = 9 } }

abbrev all_idle : State
all_idle = record { state0 = idle; state1 = idle; state2 = idle }

abbrev handle : Handle
handle = record { dnr = 0x26000000; dnw = 0x25C00000; dnc = 64; dnad = 0x101; dnmd = 0x10100 }

-- A transfer of level 2, which is busy for a round after it was started.
transfer_lem_example :
    transfer level2 7 handle all_idle
      (quiet 0 ∷ quiet 0 ∷ quiet 0 ∷ quiet 0 ∷ quiet 0x1000 ∷ ending level2 0 ∷ [])
    ≡ some (record {
      state = all_idle;
      events =
          writes 0x25FE0050 0
          ∷ writes 0x25FE0040 handle.dnr
          ∷ writes 0x25FE0044 handle.dnw
          ∷ writes 0x25FE0048 handle.dnc
          ∷ writes 0x25FE004C handle.dnad
          ∷ writes 0x25FE0054 (bit_or handle.dnmd 7)
          ∷ writes 0x25FE0050 257
          ∷ called (record { handler = user 5; work = 9 })
          ∷ [];
      rounds = [];
    })
unfolding quiet_then all_busy busy programmed registers_at
transfer_lem_example =
    transfer_lem level2 7 handle all_idle 0 0 0 (0x1000 ∷ []) [] (omega arith) refl refl refl refl

abbrev one_works : State
one_works = record all_idle { state1 = record idle { working = true } }

returned-wait_example :
    returned (wait level1 one_works (quiet 0x100 ∷ ending level0 0x100 ∷ ending level1 0x100 ∷ []))
    ≡ freed level1 (quiet 0x100 ∷ ending level0 0x100 ∷ ending level1 0x100 ∷ [])
returned-wait_example =
    returned-wait level1 one_works (quiet 0x100 ∷ ending level0 0x100 ∷ ending level1 0x100 ∷ [])
      refl

busy-unused_get_example :
    ((level : Level) → unused_get 0x100 0x100 0x100 ≡ some level → busy level 0x100 ≢ 0)
    × (unused_get 0x100 0x100 0x100 ≡ none → (level : Level) → busy level 0x100 ≡ 0)
busy-unused_get_example = busy-unused_get 0x100

-- Level 1 is the only busy level, and is returned.
unused_example : unused_get 0x100 0x100 0x100 ≡ some level1
unfolding unused_get busy
unused_example = refl
