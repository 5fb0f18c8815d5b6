-- ===== src/VdpSync/Program.antt =====
-- scu/bus/b/vdp/vdp_sync.c: the functions that the program calls. The interrupts that arrive while one
-- of them waits are an argument: a list for each round of the wait.
pub mod Hang
pub mod Commit
pub mod Ends
pub mod Returns
pub mod Sync
pub mod Stuck
use libyaul.Base.{
  ℕ, ◌+◌, ◌*◌, ◌/◌, ◌%◌, ◌^◌, ◌≡◌, Bool, true, false, ◌&&◌, ◌||◌, not, List, [], ◌∷◌, ◌++◌, map,
  Option, none, some, ◌==◌, leb, ltb, if◌then◌else◌, bit_and, bit_or,
}
use libyaul.CallbackList
use libyaul.CallbackList.{Callback, CallbackList, Handler, Invocation, callback_set, unset}
use libyaul.DmaRing
use libyaul.DmaQueue
use libyaul.ScuDma.{Xfer, direct, indirect, config_buffer}
use libyaul.VdpSync.{
  State, Action, writes, starts, reports, calls, Register, tvmr, fbcr, ptmr, Mode, auto, fixed,
  variable, Interrupt, handle, handle_all, vdp1_dma_handler, vdp2_dma_handler, has, with_bit,
  without, request_xfer_list, list_xferred, changed, request_commit, comitting, committed,
  clear_vbe,
}

-- This file's handlers, as the DMA queues name them.
abbrev pub vdp1_handler : DmaRing.Handler
vdp1_handler = DmaRing.user 1

abbrev pub vdp2_handler : DmaRing.Handler
vdp2_handler = DmaRing.user 2

-- What one event of the DMA queues does.
pub deliver_one : DmaQueue.Event → State → List Action × State
unfolding vdp1_dma_handler vdp2_dma_handler
deliver_one DmaQueue.waits s = ([], s)
deliver_one (DmaQueue.starts h) s = (starts h ∷ [], s)
deliver_one (DmaQueue.calls DmaRing.default_handler status work) s = ([], s)
deliver_one (DmaQueue.calls (DmaRing.user h) status work) s =
    if h == 1
    then vdp1_dma_handler status s
    else if h == 2
    then vdp2_dma_handler status s
    else (reports (DmaRing.user h) status work ∷ [], s)

pub deliver : List DmaQueue.Event → State → List Action × State
unfolding deliver_one
deliver [] s = ([], s)
deliver (e ∷ es) s = let r = deliver_one e s in let r' = deliver es r.1 in (r.0 ++ r'.0, r'.1)

-- `dma_queue_flush_wait` and `dma_queue_flush` with their handlers' effects on this file's state; an
-- `assert(ret >= 0)` that fails is `none`.
pub flush_wait : State → Option (List Action × State)
unfolding deliver
flush_wait s = elim (DmaQueue.flush_wait s.dma) [
  | none ↦ none
  | some (es, d) ↦ some (deliver es (record s { dma = d }))
]

pub flush : ℕ → State → Option (List Action × State)
unfolding deliver
flush tag s = elim (DmaQueue.flush tag s.dma) [
  | none ↦ none
  | some (ret, es, d) ↦ if ret == 0 then some (deliver es (record s { dma = d })) else none
]

-- `dma_queue_enqueue` with its `assert(ret == 0)`
pub enqueue : DmaRing.Handle → ℕ → DmaRing.Handler → State → Option State
enqueue h tag handler s = elim (DmaQueue.enqueue h tag (some handler) 0 s.dma) [
  | none ↦ none
  | some (ret, d) ↦ if ret == 0 then some (record s { dma = d }) else none
]

-- The static handle that a list's transfer is encoded into: each call leaves in it only bits that the
-- next one writes again.
abbrev pub zero_handle : DmaRing.Handle
zero_handle = record { dnr = 0; dnw = 0; dnc = 0; dnad = 0; dnmd = 0 }

-- `vdp1_sync_put_args_t`
pub data PutArgs : Type 0 where
  buffer : (cmdts index count : ℕ) → PutArgs
  orderlist : ℕ → PutArgs

-- The transfers of `_vdp1_cmdt_transfer`, where a command table takes 32 bytes, and of
-- `_vdp1_cmdt_orderlist_transfer`.
pub xfer_of : PutArgs → Xfer
xfer_of (buffer cmdts index count) =
    direct (count * 32) (0x25C00000 + index) (bit_or 0x20000000 cmdts)
xfer_of (orderlist list) = indirect list

pub transfer : PutArgs → State → Option (List Action × State)
unfolding xfer_of flush enqueue
transfer args s =
    elim (config_buffer zero_handle (record { xfer = xfer_of args; stride = 1; update = 0 })) [
      | none ↦ none
      | some h ↦ elim (enqueue h 0 vdp1_handler s) [ none ↦ none | some s' ↦ flush 0 s' ]
    ]

-- The wait of `_vdp1_mode_auto_sync_put`: `none` if it is not over after the interrupts given.
pub wait_xferred : List Interrupt → State → Option (List Action × State)
wait_xferred [] s = if has s.vdp1_flags list_xferred then some ([], s) else none
wait_xferred (i ∷ is) s =
    if has s.vdp1_flags list_xferred then some ([], s) else elim (handle i s) [
      | none ↦ none
      | some (out, s') ↦ elim (wait_xferred is s') [
        | none ↦ none
        | some (out', s'') ↦ some (out ++ out', s'')
      ]
    ]

-- `_vdp1_mode_auto_sync_put`
pub auto_sync_put : List Interrupt → PutArgs → State → Option (List Action × State)
unfolding wait_xferred transfer
auto_sync_put is args s =
    elim (if has s.vdp1_flags request_xfer_list then wait_xferred is s else some ([], s)) [
      | none ↦ none
      | some (out, s') ↦
          elim (transfer args
            (record s' { vdp1_flags = with_bit (bit_and s'.vdp1_flags 0xC0) request_xfer_list })) [
              | none ↦ none
              | some (out', s'') ↦ some (out ++ out', s'')
            ]
    ]

-- `_vdp1_sync_put_call`
pub sync_put_call : List Interrupt → PutArgs → State → Option (List Action × State)
unfolding auto_sync_put
sync_put_call is args s = elim s.interval_mode [
  | auto ↦ auto_sync_put is args s
  | fixed ↦ some ([], s)
  | variable ↦ auto_sync_put is args s
]

-- `vdp1_sync_cmdt_put`, with the callback and its argument; NULL is 0.
pub cmdt_put :
    List Interrupt → ℕ → ℕ → ℕ → Option Handler → ℕ → State → Option (List Action × State)
unfolding sync_put_call
cmdt_put is cmdts count index callback work s =
    if cmdts == 0
    then none
    else if count == 0
    then some ([], s)
    else sync_put_call is (buffer cmdts index count) s

-- `vdp1_sync_cmdt_orderlist_put`
pub cmdt_orderlist_put :
    List Interrupt → ℕ → Option Handler → ℕ → State → Option (List Action × State)
unfolding sync_put_call
cmdt_orderlist_put is list callback work s =
    if list == 0 then none else sync_put_call is (orderlist list) s

-- `vdp1_sync_interval_set`; an `int8_t` is its pattern below 256.
pub interval_set : ℕ → State → List Action × State
interval_set interval s =
    let s' : State = record s { tvmr = clear_vbe s.tvmr } in
    if interval == 0 || (ltb 60 interval && ltb interval 128)
    then (writes tvmr (clear_vbe s.tvmr) ∷ writes fbcr 0 ∷ [], record s' { interval_mode = auto })
    else if leb 128 interval
    then (
      writes tvmr (clear_vbe s.tvmr) ∷ writes fbcr 3 ∷ [],
      record s' { interval_mode = variable },
    )
    else (writes tvmr (clear_vbe s.tvmr) ∷ [], record s' { interval_mode = fixed })

-- `vdp1_sync_mode_set`, a field of two bits.
pub mode_set : ℕ → State → State
mode_set mode s = record s { fb_mode = mode % 4 }

-- `vdp_sync_vblank_in_set` and `vdp_sync_vblank_out_set`
pub vblank_in_set : Option Handler → State → State
vblank_in_set callback s = record s { vblank_in_callback = callback_set callback 0 }

pub vblank_out_set : Option Handler → State → State
vblank_out_set callback s = record s { vblank_out_callback = callback_set callback 0 }

-- The interlace bits that `vdp_sync` puts into `_state.flags`, by bits 6 and 7 of TVMD.
pub interlace : ℕ → ℕ
interlace tvmd = let lsmd = tvmd / 64 % 4 in if lsmd == 2 then 2 else if lsmd == 3 then 4 else 0

-- One round of the loop of `vdp_sync`, up to its test.
pub round : List Interrupt → State → Option (List Action × State)
unfolding flush flush_wait
round is s = elim (handle_all is s) [
  | none ↦ none
  | some (out, s₁) ↦
      elim (if has s₁.vdp2_flags request_commit
        then flush 1
            (record s₁ { vdp2_flags = with_bit (without s₁.vdp2_flags request_commit) comitting })
        else some ([], s₁)) [
          | none ↦ none
          | some (out', s₂) ↦ elim (flush_wait s₂) [
            | none ↦ none
            | some (out'', s₃) ↦ some (out ++ out' ++ out'', s₃)
          ]
        ]
]

-- The loop's test: `!vdp1_working && !vdp2_working`.
pub finished : State → Bool
finished s =
    not (bit_and s.vdp1_flags (request_xfer_list + changed) == request_xfer_list)
    && s.vdp2_flags == committed

-- The loop, for the rounds whose interrupts are given; `none` if it is not over after them.
pub loop : List (List Interrupt) → State → Option (List Action × State)
unfolding round finished
loop [] s = none
loop (is ∷ rest) s = elim (round is s) [
  | none ↦ none
  | some (out, s') ↦
      if finished s'
      then some (out, s')
      else elim (loop rest s') [ none ↦ none | some (out', s'') ↦ some (out ++ out', s'') ]
]

-- What a call out of the table does.
abbrev pub invoked : Invocation → Action
invoked i = calls (record { handler = i.handler; work = i.work })

-- `cpu_intc_mask_set`
abbrev pub masked : ℕ → State → State
masked mask s = record s { dma = record s.dma { intc_mask = mask } }

module _ (act : ℕ → ℕ → CallbackList → CallbackList) where
  -- `vdp_sync`, given the DMA handle of the VDP2 state and the interrupts of each round. The calls of
  -- the user callbacks come last.
  pub vdp_sync : DmaRing.Handle → List (List Interrupt) → State → Option (List Action × State)
  unfolding flush_wait enqueue loop interlace
  vdp_sync commit rounds s = elim (flush_wait s) [
    | none ↦ none
    | some (out, s₁) ↦ elim (enqueue commit 1 vdp2_handler (masked 15 s₁)) [
      | none ↦ none
      | some s₂ ↦
          elim (loop rounds (
            masked 0 (record s₂ {
              flags = bit_or (bit_or (bit_and s₂.flags 0xF9) (interlace s₂.tvmd)) 1;
            }))) [
              | none ↦ none
              | some (out', s₃) ↦ elim (CallbackList.process act s₃.user_callbacks true) [
                | none ↦ none
                | some (called, l) ↦ some (
                  out ++ out' ++ map invoked called,
                  masked s.dma.intc_mask (record (masked 15 s₃) {
                    flags = bit_and s₃.flags 0xF8;
                    vdp1_flags = bit_and s₃.vdp1_flags 0xC0;
                    vdp2_flags = bit_and s₃.vdp2_flags 0xF8;
                    user_callbacks = l;
                  }),
                )
              ]
            ]
    ]
  ]
