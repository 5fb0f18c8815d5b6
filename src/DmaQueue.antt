-- ===== src/DmaQueue.antt =====
-- kernel/sys/dma-queue.{h,c}: the queues of DMA requests, one for each tag, that share level 0 of
-- the SCU-DMA. The functions of the callers and the hardware appear as events, in order; a function
-- of a caller is taken not to use the queues itself. A failed `assert` is `none`.
pub mod Enqueue
pub mod Drain
pub mod Flush
pub mod Clear
mod Tests
use libyaul.Base.{
  ℕ, zero, suc, ◌+◌, ◌-◌, ◌%◌, ◌^◌, ◌≡◌, Bool, true, false, List, [], ◌∷◌, ◌++◌, map, Option, none,
  some, ltb, leb, ◌==◌, if◌then◌else◌, get_elem?, set, bit_and,
}
use libyaul.DmaRing.{
  Handle, Handler, default_handler, user, Request, Ring, mark_canceled, mark_complete, slot, top,
  empty, flush_empty, full, size, put, dequeue,
}
use libyaul.DmaRing

-- DMA_QUEUE_TAG_COUNT and DMA_QUEUE_TAG_INVALID.
abbrev pub tag_count : ℕ
tag_count = 3

abbrev pub no_tag : ℕ
no_tag = 255

-- `_state`, with the masks of the CPU and of the SCU.
pub record State : Type 0 where
  pub rings : List Ring
  pub current_tag : ℕ
  pub intc_mask : ℕ
  pub scu_mask : ℕ

-- What happens outside: `scu_dma_level_wait` returns, a transfer is started by
-- `_queue_request_start`, a request's handler is called with a status and its argument.
pub data Event : Type 0 where
  waits : Event
  starts : Handle → Event
  calls : Handler → ℕ → ℕ → Event

abbrev pub call_of : Request → Event
call_of r = calls r.handler r.status r.work

abbrev pub put_ring : State → ℕ → Ring → State
put_ring s tag q = record s { rings = set s.rings tag q }

-- `_internal_dma_queue_init`, over the memory of the three rings.
pub init : List (List Request) → ℕ → ℕ → State
init memory intc_mask scu_mask = record {
  rings = map DmaRing.init memory;
  current_tag = no_tag;
  intc_mask = intc_mask;
  scu_mask = scu_mask;
}

-- The CPU's mask is lowered below the DMA interrupt, if it is not below already; the SCU's mask
-- lets the interrupt of level 0 through.
pub lower_intc : ℕ → ℕ
lower_intc mask = if leb 6 mask then 1 else mask

pub open_scu : ℕ → ℕ
open_scu mask = bit_and mask 0xFFFFF7FF

-- What `handler` points to after `handler != NULL` was tested.
unfoldable pub or_default : Option Handler → Handler
or_default none = default_handler
or_default (some h) = h

-- `dma_queue_enqueue`: the `int8_t` result is 0, or 255 for -1. The masks are restored.
pub enqueue : Handle → ℕ → Option Handler → ℕ → State → Option (ℕ × State)
unfolding or_default
enqueue handle tag handler work s = elim (get_elem? s.rings tag) [
  | none ↦ none
  | some q ↦ if full q then some (255, s) else elim (put handle (or_default handler) work q) [
    | none ↦ none
    | some q' ↦ some (0, put_ring s tag q')
  ]
]

-- `dma_queue_simple_enqueue`
pub simple_enqueue : ℕ → ℕ → ℕ → ℕ → State → Option (ℕ × State)
simple_enqueue tag dst src len s =
    enqueue (record { dnr = src; dnw = dst; dnc = len; dnad = 0x101; dnmd = 0x10100 }) tag none 0 s

-- The request dequeued last is marked complete.
pub complete_top : Ring → Option (Request × Ring)
complete_top q = elim (get_elem? q.requests (top q)) [
  | none ↦ none
  | some r ↦
      let r' : Request = record r { status = mark_complete r.status } in
      some (r', record q { requests = set q.requests (top q) r' })
]

-- One round of `dma_queue_flush_wait` while a tag is current.
pub flush_round : State → Option (List Event × State)
flush_round s = elim (get_elem? s.rings s.current_tag) [
  | none ↦ none
  | some q ↦ elim (complete_top q) [
    | none ↦ none
    | some (r, q') ↦
        if flush_empty q'
        then some
            (waits ∷ call_of r ∷ [], record (put_ring s s.current_tag q') { current_tag = no_tag })
        else elim (dequeue q') [
          | none ↦ none
          | some (n, q'') ↦ some (
            waits ∷ call_of r ∷ starts n.handle ∷ [],
            record s {
              rings = set s.rings s.current_tag q'';
              intc_mask = lower_intc s.intc_mask;
              scu_mask = open_scu s.scu_mask;
            },
          )
        ]
  ]
]

-- The loop of `dma_queue_flush_wait`, for at most `fuel` rounds.
pub flush_loop : ℕ → State → Option (List Event × State)
flush_loop zero s = if s.current_tag == no_tag then some ([], s) else none
flush_loop (suc fuel) s = if s.current_tag == no_tag then some ([], s) else elim (flush_round s) [
  | none ↦ none
  | some (es, s') ↦ elim (flush_loop fuel s') [
    | none ↦ none
    | some (es', s'') ↦ some (es ++ es', s'')
  ]
]

-- `dma_queue_flush_wait`; a ring's positions are 256, so 256 rounds do.
pub flush_wait : State → Option (List Event × State)
flush_wait s = flush_loop 256 s

-- `dma_queue_flush` after its wait, of the ring of `tag`.
pub flush_ring : ℕ → State → Ring → Option (ℕ × List Event × State)
flush_ring tag s q =
    if empty q
    then some (2 ^ 32 - 1, [], s)
    else elim (dequeue (record q { flush_tail = q.tail })) [
      | none ↦ none
      | some (r, q') ↦ some (
        0,
        call_of r ∷ starts r.handle ∷ [],
        record {
          rings = set s.rings tag q';
          current_tag = tag;
          intc_mask = lower_intc s.intc_mask;
          scu_mask = open_scu s.scu_mask;
        },
      )
    ]

-- `dma_queue_flush`: the `uint32_t` result is 0, or 2 ^ 32 - 1 for -1.
pub flush : ℕ → State → Option (ℕ × List Event × State)
flush tag s =
    if ltb tag tag_count
    then elim (flush_wait s) [
      | none ↦ none
      | some (es, s') ↦ elim (get_elem? s'.rings tag) [
        | none ↦ none
        | some q ↦ elim (flush_ring tag s' q) [
          | none ↦ none
          | some (r, es', s'') ↦ some (r, es ++ es', s'')
        ]
      ]
    ]
    else none

-- The loop of `dma_queue_tag_clear`, for at most `fuel` rounds.
pub cancel_loop : ℕ → Ring → Option (List Event × Ring)
cancel_loop zero q = if empty q then some ([], q) else none
cancel_loop (suc fuel) q = if empty q then some ([], q) else elim (dequeue q) [
  | none ↦ none
  | some (r, q') ↦
      let r' : Request = record r { status = mark_canceled r.status } in
      elim (cancel_loop fuel (record q' { requests = set q'.requests (top q') r' })) [
        | none ↦ none
        | some (es, q'') ↦ some (call_of r' ∷ es, q'')
      ]
]

-- `dma_queue_tag_clear`
pub tag_clear : ℕ → State → Option (List Event × State)
tag_clear tag s =
    if ltb tag tag_count
    then elim (flush_wait s) [
      | none ↦ none
      | some (es, s') ↦ elim (get_elem? s'.rings tag) [
        | none ↦ none
        | some q ↦ elim (cancel_loop 256 q) [
          | none ↦ none
          | some (es', q') ↦ some (es ++ es', put_ring s' tag q')
        ]
      ]
    ]
    else none

-- The loop of `dma_queue_clear`, for the `n` tags from `tag` on.
pub clear_tags : ℕ → ℕ → State → Option (List Event × State)
clear_tags zero tag s = some ([], s)
clear_tags (suc n) tag s = elim (tag_clear tag s) [
  | none ↦ none
  | some (es, s') ↦ elim (clear_tags n (tag + 1) s') [
    | none ↦ none
    | some (es', s'') ↦ some (es ++ es', s'')
  ]
]

-- `dma_queue_clear`: the CPU's mask is 15 meanwhile, and is restored.
pub clear : State → Option (List Event × State)
clear s = elim (clear_tags tag_count 0 (record s { intc_mask = 15 })) [
  | none ↦ none
  | some (es, s') ↦ some (es, record s' { intc_mask = s.intc_mask })
]

-- `dma_queue_count_get` and `dma_queue_capacity_get`.
pub count_get : ℕ → State → Option ℕ
count_get tag s = elim (get_elem? s.rings tag) [ none ↦ none | some q ↦ some (size q) ]

abbrev pub capacity : ℕ
capacity = 32
