-- ===== src/ScuDma/Levels.antt =====
-- scu/scu_dma.c: the three levels, without the copies of DEBUG_COPY_DMA_HANDLES_ENABLE. The writes
-- to registers, the calls of scu/ic and the callbacks are events; what the status register holds,
-- and the interrupts that arrive, are given round by round.
pub mod Wait
pub mod Transfer
mod Tests
use libyaul.Base.{
  ℕ, ◌+◌, ◌*◌, ◌^◌, ◌≡◌, Bool, true, false, not, List, [], ◌∷◌, ◌++◌, Option, none, some, ltb, ◌==◌,
  if◌then◌else◌, bit_and, bit_or,
}
use libyaul.CallbackList.{Callback, Handler, unset, callback_set}
use libyaul.DmaRing.{Handle}

-- A level; any other number is refused by an assert or is outside `_level_state`.
pub data Level : Type 0 where
  level0 level1 level2 : Level

pub data Event : Type 0 where
  writes : (address value : ℕ) → Event
  mask_chg : (and_mask or_mask : ℕ) → Event
  ihr_set : ℕ → Option Level → Event
  called : Callback → Event

-- `struct level_state`; `working` is LEVEL_STATE_WORKING.
pub record LevelState : Type 0 where
  pub working : Bool
  pub callback : Callback

-- `_level_state`
pub record State : Type 0 where
  pub state0 : LevelState
  pub state1 : LevelState
  pub state2 : LevelState

abbrev pub at : Level → State → LevelState
at level0 s = s.state0
at level1 s = s.state1
at level2 s = s.state2

abbrev pub put : Level → LevelState → State → State
put level0 l s = record s { state0 = l }
put level1 l s = record s { state1 = l }
put level2 l s = record s { state2 = l }

abbrev pub set_working : Level → Bool → State → State
set_working level b s = put level (record (at level s) { working = b }) s

abbrev pub number : Level → ℕ
number level0 = 0
number level1 = 1
number level2 = 2

-- SCU(offset | REGISTER_BLOCK_OFFSET(level)): the offsets are below 0x20.
abbrev pub address : Level → ℕ → ℕ
address level offset = 0x25FE0000 + number level * 2 ^ 5 + offset

-- `scu_dma_level_busy`, on what DSTA holds.
unfoldable pub busy : Level → ℕ → ℕ
busy level0 dsta = bit_and dsta 0x00010030
busy level1 dsta = bit_and dsta 0x00020300
busy level2 dsta = bit_and dsta 0x00003000

-- The handler of a level's interrupt: `_scu_dma_level0_handler` and its like.
unfoldable pub end_handler : Level → State → State × List Event
end_handler level s = (set_working level false s, called (at level s).callback ∷ [])

-- The interrupts that arrive, one after the other.
unfoldable pub interrupted : List Level → State → State × List Event
unfolding end_handler
interrupted [] s = (s, [])
interrupted (l ∷ ls) s =
    let (s₁, e₁) = end_handler l s in let (s₂, e₂) = interrupted ls s₁ in (s₂, e₁ ++ e₂)

-- A round of a wait: what arrives before the flags are read, and DSTA.
pub record Round : Type 0 where
  pub arrived : List Level
  pub dsta : ℕ

-- A state, what happened, and the rounds to come.
pub record Outcome : Type 0 where
  pub state : State
  pub events : List Event
  pub rounds : List Round

-- The events of before, in front.
abbrev pub before : List Event → Option Outcome → Option Outcome
before es none = none
before es (some o) = some (record o { events = es ++ o.events })

-- `scu_dma_level_wait`: `none` while it has not returned.
unfoldable pub wait : Level → State → List Round → Option Outcome
unfolding interrupted busy
wait level s [] = none
wait level s (r ∷ rs) =
    let (s', es) = interrupted r.arrived s in
    let rest = wait level s' rs in
    if not (at level s').working
    then some (record { state = s'; events = es; rounds = rs })
    else if busy level r.dsta == 0
    then some (record { state = s'; events = es; rounds = rs })
    else before es rest

-- What comes after a call that may not return.
abbrev pub then_do : Option Outcome → (State → List Round → Option Outcome) → Option Outcome
then_do none f = none
then_do (some o) f = before o.events (f o.state o.rounds)

-- The wait for level 1, if the level is 2.
unfoldable pub wait_first : Level → State → List Round → Option Outcome
unfolding wait
wait_first level0 s rs = some (record { state = s; events = []; rounds = rs })
wait_first level1 s rs = some (record { state = s; events = []; rounds = rs })
wait_first level2 s rs = wait level1 s rs

unfoldable pub fast_start : Level → Event
fast_start level = writes (address level 0x10) 0x00000101

unfoldable pub start : Level → State → List Round → Option Outcome
unfolding wait_first wait fast_start
start level s rs = then_do (wait_first level s rs) (λ s₁ rs₁.
    then_do (wait level s₁ rs₁)
      (λ s₂ rs₂. some (record { state = s₂; events = fast_start level ∷ []; rounds = rs₂ })))

-- `scu_dma_level_stop`
unfoldable pub stop : Level → State → State × List Event
stop level s = (set_working level false s, writes (address level 0x10) 0 ∷ [])

-- What `scu_dma_config_set` writes into the registers, for a start factor.
unfoldable pub config_writes : Level → ℕ → Handle → List Event
config_writes level start_factor handle =
    writes (address level 0x00) handle.dnr
    ∷ writes (address level 0x04) handle.dnw
    ∷ writes (address level 0x08) handle.dnc
    ∷ writes (address level 0x0C) handle.dnad
    ∷ writes (address level 0x14) (bit_or handle.dnmd start_factor)
    ∷ (if start_factor == 7 then [] else writes (address level 0x10) 0x00000100 ∷ [])

-- `scu_dma_config_set`; `none` also for a start factor that the assert refuses.
unfoldable pub config_set : Level → ℕ → Handle → State → List Round → Option Outcome
unfolding wait_first wait stop config_writes
config_set level start_factor handle s rs =
    if ltb 7 start_factor
    then none
    else then_do (wait_first level s rs) (λ s₁ rs₁. then_do (wait level s₁ rs₁) (λ s₂ rs₂.
      let (s₃, es) = stop level s₂ in
      some (record {
        state = set_working level true s₃;
        events = es ++ config_writes level start_factor handle;
        rounds = rs₂;
      })))

-- `scu_dma_level_end_set`
unfoldable pub end_set : Level → Option Handler → ℕ → State → State
end_set level callback work s =
    put level (record (at level s) { callback = callback_set callback work }) s

-- `scu_dma_level_unused_get`, which reads DSTA for each level anew; `none` is -1.
unfoldable pub unused_get : ℕ → ℕ → ℕ → Option Level
unfolding busy
unused_get dsta0 dsta1 dsta2 =
    if not (busy level0 dsta0 == 0)
    then some level0
    else if not (busy level1 dsta1 == 0)
    then some level1
    else if not (busy level2 dsta2 == 0)
    then some level2
    else none

-- `_internal_scu_dma_init`: all levels are stopped before anything else.
unfoldable pub init : State → State × List Event
unfolding stop
init s =
    let (s₁, e₁) = stop level0 s in
    let (s₂, e₂) = stop level1 s₁ in
    let (s₃, e₃) = stop level2 s₂ in
    let idle : LevelState = record { working = false; callback = unset } in
    (
      record { state0 = idle; state1 = idle; state2 = idle },
      e₁
          ++ (e₂
              ++ (e₃
                  ++ (mask_chg 0xBFFF 0x1E00
                      ∷ ihr_set 0x4B (some level0)
                      ∷ ihr_set 0x4A (some level1)
                      ∷ ihr_set 0x49 (some level2)
                      ∷ ihr_set 0x4C none
                      ∷ mask_chg 0xFFFFE1FF 0
                      ∷ []))),
    )
