-- ===== src/Smpc/Collect.antt =====
-- libyaul/scu/bus/cpu/smpc/smpc_peripheral_init.c: the interrupt handler that collects what the
-- SMPC reports, 32 bytes at a time.
pub mod Whole
use libyaul.Base.{
  ℕ, zero, suc, ◌+◌, ◌-◌, ◌*◌, ◌≤◌, ◌<◌, ◌≡◌, refl, sym, ap, ◌∙◌, Bool, true, false, ◌&&◌, List, [],
  ◌∷◌, ◌++◌, Option, none, some, ◌==◌, if◌then◌else◌, bit_and, ltb, set, length, get_elem?, take,
  drop, arith,
}
use libyaul.Smpc.{oregs}

-- The buffer, the handler's own `offset`, and `_collection_complete`.
pub record Collector : Type 0 where
  pub buffer : List ℕ
  pub offset : ℕ
  pub complete : Bool

-- What is written to IREG0.
pub data Answer : Type 0 where
  stop go_on : Answer

-- OREG_SET for each register, from `offset` on; `none` outside the buffer.
unfoldable pub put_oregs : List ℕ → ℕ → List ℕ → Option (List ℕ)
put_oregs [] i buffer = some buffer
put_oregs (v ∷ vs) i buffer =
    let rest = put_oregs vs (i + 1) (set buffer i v) in if ltb i (length buffer) then rest else none

-- `_system_manager_handler`, on what the OREGs and SR hold.
unfoldable pub system_manager_handler : List ℕ → ℕ → Collector → Option (Answer × Collector)
unfolding put_oregs
system_manager_handler registers sr c = elim (put_oregs registers c.offset c.buffer) [
  | none ↦ none
  | some buffer ↦
      if bit_and sr 0x80 == 0x80 && (bit_and sr 0x20 == 0)
      then some (Answer.stop, record { buffer = buffer; offset = 0; complete = true })
      else some (
        Answer.go_on,
        record { buffer = buffer; offset = c.offset + length registers; complete = c.complete },
      )
]

-- Interrupts one after the other, each with what the OREGs and SR hold: what is written to IREG0,
-- and the state at the end.
unfoldable pub collect : List (List ℕ × ℕ) → Collector → Option (List Answer × Collector)
unfolding system_manager_handler
collect [] c = some ([], c)
collect ((registers, sr) ∷ rs) c = elim (system_manager_handler registers sr c) [
  | none ↦ none
  | some (a, c') ↦ elim (collect rs c') [
    | none ↦ none
    | some (answers, c'') ↦ some (a ∷ answers, c'')
  ]
]
