-- ===== src/VdpSync.antt =====
-- scu/bus/b/vdp/vdp_sync.c: the state behind `vdp_sync`, the VDP1 modes and the interrupt handlers.
-- Flags are the bit patterns of the source, and what the code does outside its state is a list of
-- actions.
pub mod Program
pub mod Frame
pub mod Auto
pub mod Variable
mod Tests
use libyaul.Base.{
  ℕ, ◌+◌, ◌-◌, ◌%◌, ◌^◌, ◌≡◌, Bool, true, false, ◌&&◌, ◌||◌, not, List, [], ◌∷◌, ◌++◌, map, Option,
  none, some, ◌==◌, leb, ltb, if◌then◌else◌, bit_and, bit_or,
}
use libyaul.CallbackList
use libyaul.CallbackList.{Callback}
use libyaul.DmaRing
use libyaul.DmaQueue

-- The rows of `_vdp1_mode_table`, which `interval_mode` and `_current_vdp1_mode` both name.
pub data Mode : Type 0 where
  auto fixed variable : Mode

-- `_state`, with the callbacks, the copies of the registers TVMR and TVMD, and the DMA queues.
pub record State : Type 0 where
  pub flags : ℕ
  pub vdp1_flags : ℕ
  pub vdp2_flags : ℕ
  pub interval_mode : Mode
  pub fb_mode : ℕ
  pub vdp1_callback : Callback
  pub vblank_in_callback : Callback
  pub vblank_out_callback : Callback
  pub user_callbacks : CallbackList.CallbackList
  pub tvmr : ℕ
  pub tvmd : ℕ
  pub dma : DmaQueue.State

-- The VDP1's TVMR, FBCR and PTMR, and the VDP2's TVMD.
pub data Register : Type 0 where
  tvmr fbcr ptmr : Register
  tvmd : Register

-- What the CPU-DMAC copies to the VDP2.
pub data Copied : Type 0 where
  back_screen registers : Copied

-- A write to a register, a copy to the VDP2, the call of a callback, the start of a DMA transfer, and
-- the call of a DMA handler that is not this file's.
pub data Action : Type 0 where
  writes : Register → ℕ → Action
  copies : Copied → Action
  calls : Callback → Action
  starts : DmaRing.Handle → Action
  reports : DmaRing.Handler → ℕ → ℕ → Action

-- SYNC_FLAG_SYNC, SYNC_FLAG_INTERLACE_SINGLE and SYNC_FLAG_INTERLACE_DOUBLE
abbrev pub sync_requested : ℕ
sync_requested = 0x01

-- VDP1_FLAG_*
abbrev pub request_xfer_list : ℕ
request_xfer_list = 0x01

abbrev pub request_commit_list : ℕ
request_commit_list = 0x02

abbrev pub request_change : ℕ
request_change = 0x04

abbrev pub list_xferred : ℕ
list_xferred = 0x08

abbrev pub list_committed : ℕ
list_committed = 0x10

abbrev pub changed : ℕ
changed = 0x20

-- VDP2_FLAG_*
abbrev pub request_commit : ℕ
request_commit = 0x01

abbrev pub comitting : ℕ
comitting = 0x02

abbrev pub committed : ℕ
committed = 0x04

-- `flags & bit`, `flags |= bit` and `flags &= ~bit`, on at most eight bits.
abbrev pub has : ℕ → ℕ → Bool
has flags bit = not (bit_and flags bit == 0)

abbrev pub with_bit : ℕ → ℕ → ℕ
with_bit flags bit = bit_or flags bit

abbrev pub without : ℕ → ℕ → ℕ
without flags bit = bit_and flags (255 - bit)

-- `vdp1_sync_rendering`, on the flags.
pub rendering : ℕ → Bool
rendering flags =
    if has flags request_xfer_list
    then not (bit_and flags (request_commit_list + list_committed) == list_committed)
    else false

-- `_vdp1_mode_auto_*`. The VBLANK-IN handler is `none` where its `assert(false)` is.
pub auto_dma : State → State
auto_dma s = record s { vdp1_flags = with_bit s.vdp1_flags list_xferred }

pub auto_sprite_end : State → List Action × State
auto_sprite_end s =
    (calls s.vdp1_callback ∷ [], record s { vdp1_flags = with_bit s.vdp1_flags list_committed })

pub auto_vblank_in : State → Option (List Action × State)
auto_vblank_in s =
    if has s.vdp1_flags request_xfer_list
    then (if has s.vdp1_flags list_xferred
        then some (
          writes fbcr 0 ∷ writes ptmr 0 ∷ writes ptmr 2 ∷ [],
          record s {
            vdp1_flags = with_bit (with_bit s.vdp1_flags request_commit_list) request_change;
          },
        )
        else none)
    else some ([], s)

pub erase_change : ℕ → List Action
erase_change mode =
    if mode == 0 then writes fbcr 0 ∷ [] else if mode == 1 then writes fbcr 3 ∷ [] else []

pub auto_vblank_out : State → List Action × State
unfolding erase_change
auto_vblank_out s =
    if has s.vdp1_flags request_change
    then (
      erase_change s.fb_mode,
      record s {
        vdp1_flags =
            with_bit (with_bit (without s.vdp1_flags request_change) list_committed) changed;
      },
    )
    else ([], s)

-- `_vdp1_mode_variable_*`
pub variable_dma : State → List Action × State
variable_dma s = (
  writes ptmr 0 ∷ writes ptmr 1 ∷ writes ptmr 1 ∷ [],
  record s { vdp1_flags = with_bit (with_bit s.vdp1_flags list_xferred) request_commit_list },
)

pub variable_sprite_end : State → List Action × State
variable_sprite_end s = (
  calls s.vdp1_callback ∷ [],
  record s { vdp1_flags = with_bit (without s.vdp1_flags request_commit_list) list_committed },
)

pub variable_vblank_in : State → List Action × State
unfolding rendering
variable_vblank_in s =
    if has s.vdp1_flags list_committed
    then (if rendering s.vdp1_flags then ([], s) else (
      writes tvmr (bit_or s.tvmr 8) ∷ writes fbcr 3 ∷ [],
      record s { vdp1_flags = with_bit s.vdp1_flags request_change; tvmr = bit_or s.tvmr 8 },
    ))
    else ([], s)

-- `regs->tvmr &= ~VDP1_TVMR_VBE`
abbrev pub clear_vbe : ℕ → ℕ
clear_vbe r = bit_and r 0xFFF7

pub variable_vblank_out : State → List Action × State
variable_vblank_out s =
    if has s.vdp1_flags request_change
    then (
      writes tvmr (clear_vbe s.tvmr) ∷ [],
      record s {
        vdp1_flags = with_bit (without s.vdp1_flags request_change) changed;
        tvmr = clear_vbe s.tvmr;
      },
    )
    else ([], s)

-- The calls through `_current_vdp1_mode`; the functions of the mode `fixed` do nothing.
pub dma_call : State → List Action × State
unfolding auto_dma variable_dma
dma_call s = elim s.interval_mode [
  | auto ↦ ([], auto_dma s)
  | fixed ↦ ([], s)
  | variable ↦ variable_dma s
]

pub sprite_end_call : State → List Action × State
unfolding auto_sprite_end variable_sprite_end
sprite_end_call s = elim s.interval_mode [
  | auto ↦ auto_sprite_end s
  | fixed ↦ ([], s)
  | variable ↦ variable_sprite_end s
]

pub vblank_in_call : State → Option (List Action × State)
unfolding auto_vblank_in variable_vblank_in
vblank_in_call s = elim s.interval_mode [
  | auto ↦ auto_vblank_in s
  | fixed ↦ some ([], s)
  | variable ↦ some (variable_vblank_in s)
]

pub vblank_out_call : State → List Action × State
unfolding auto_vblank_out variable_vblank_out
vblank_out_call s = elim s.interval_mode [
  | auto ↦ auto_vblank_out s
  | fixed ↦ ([], s)
  | variable ↦ variable_vblank_out s
]

-- `_vdp1_dma_handler` and `_vdp2_dma_handler`, given the status of the transfer.
pub vdp1_dma_handler : ℕ → State → List Action × State
unfolding dma_call
vdp1_dma_handler status s = if has status 0x08 then dma_call s else ([], s)

pub vdp2_dma_handler : ℕ → State → List Action × State
vdp2_dma_handler status s =
    if has status 0x08
    then ([], record s { vdp2_flags = without (with_bit s.vdp2_flags committed) comitting })
    else ([], s)

-- The interrupts that the file handles.
pub data Interrupt : Type 0 where
  vblank_in vblank_out sprite_end : Interrupt

-- `_vblank_in_handler`, `_vblank_out_handler` and `_sprite_end_handler`
pub vblank_in_handler : State → Option (List Action × State)
unfolding vblank_in_call
vblank_in_handler s =
    if has s.flags sync_requested
    then elim (vblank_in_call s) [
      | none ↦ none
      | some (out, s') ↦ some (
        out ++ calls s'.vblank_in_callback ∷ [],
        record s' {
          vdp2_flags =
              if s'.vdp2_flags == 0 then with_bit s'.vdp2_flags request_commit else s'.vdp2_flags;
        },
      )
    ]
    else some (calls s.vblank_in_callback ∷ [], s)

pub vblank_out_handler : State → List Action × State
unfolding vblank_out_call
vblank_out_handler s =
    if has s.flags sync_requested
    then (
      (vblank_out_call s).0 ++ calls (vblank_out_call s).1.vblank_out_callback ∷ [],
      (vblank_out_call s).1,
    )
    else (calls s.vblank_out_callback ∷ [], s)

pub handle : Interrupt → State → Option (List Action × State)
unfolding vblank_in_handler vblank_out_handler sprite_end_call
handle vblank_in s = vblank_in_handler s
handle vblank_out s = some (vblank_out_handler s)
handle sprite_end s = some (sprite_end_call s)

-- The interrupts of a list, one after the other.
pub handle_all : List Interrupt → State → Option (List Action × State)
handle_all [] s = some ([], s)
handle_all (i ∷ is) s = elim (handle i s) [
  | none ↦ none
  | some (out, s') ↦ elim (handle_all is s') [
    | none ↦ none
    | some (out', s'') ↦ some (out ++ out', s'')
  ]
]
