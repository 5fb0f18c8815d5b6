-- ===== src/DmaRing.antt =====
-- kernel/sys/dma-queue.c, the `_queue_*` functions: one ring of 32 DMA requests, with `int8_t`
-- positions that run on and wrap at 8 bits. A position is its bit pattern, below 256, and a request
-- stands in the slot of its position modulo 32.
pub mod Size
pub mod Refine
pub mod Overrun
mod Tests
use libyaul.Base.{
  ℕ, zero, suc, ◌+◌, ◌-◌, ◌*◌, ◌%◌, ◌^◌, ◌≡◌, Bool, true, false, List, [], ◌∷◌, Option, none, some,
  ltb, ◌==◌, if◌then◌else◌, get_elem?, set, bit_and, bit_or, map,
}
use libyaul.Base.Words.{sub32}

-- `scu_dma_handle_t`
pub record Handle : Type 0 where
  pub dnr : ℕ
  pub dnw : ℕ
  pub dnc : ℕ
  pub dnad : ℕ
  pub dnmd : ℕ

-- `dma_queue_request_hdl_t`: the file's own `_default_handler`, or a function of the caller.
pub data Handler : Type 0 where
  default_handler : Handler
  user : ℕ → Handler

-- `struct dma_queue_request`, with the fields of its `transfer`.
pub record Request : Type 0 where
  pub handle : Handle
  pub handler : Handler
  pub status : ℕ
  pub work : ℕ

-- `struct dma_queue`
pub record Ring : Type 0 where
  pub requests : List Request
  pub head : ℕ
  pub tail : ℕ
  pub flush_tail : ℕ

-- The DMA_QUEUE_STATUS_* values and the updates that the code makes with them.
abbrev pub unknown : ℕ
unknown = 0x00

abbrev pub unprocessed : ℕ
unprocessed = 0x01

unfoldable pub mark_processing : ℕ → ℕ
mark_processing s = bit_or (bit_and s 0xFE) 0x02

pub mark_canceled : ℕ → ℕ
mark_canceled s = bit_or s 0x04

unfoldable pub mark_complete : ℕ → ℕ
mark_complete s = bit_or (bit_and s 0xFD) 0x08

-- `p++` on an `int8_t`, and `p & DMA_QUEUE_REQUESTS_MASK`.
abbrev pub next : ℕ → ℕ
next p = (p + 1) % 256

abbrev pub slot : ℕ → ℕ
slot p = p % 32

-- What `_queue_init` makes of a request.
pub clean : Request → Request
clean r = record r { handler = default_handler; status = unknown; work = 0 }

-- `_queue_init`, over the memory of the requests.
pub init : List Request → Ring
init memory = record { requests = map clean memory; head = 255; tail = 255; flush_tail = 255 }

-- An `int8_t` as an `int`, in 32 bits.
abbrev pub sign_extend : ℕ → ℕ
sign_extend p = if ltb p 128 then p else p + 2 ^ 32 - 256

-- `_queue_size`
pub size : Ring → ℕ
size q = sub32 (sign_extend q.tail) (sign_extend q.head)

-- `_queue_full`
pub full : Ring → Bool
full q = size q == 32

-- `_queue_empty`
abbrev pub empty : Ring → Bool
empty q = q.head == q.tail

-- `_queue_flush_empty`
abbrev pub flush_empty : Ring → Bool
flush_empty q = q.head == q.flush_tail

-- The update of a request in place; `none` if the ring has no such slot.
pub modify : (Request → Request) → Ring → ℕ → Option Ring
modify f q i = elim (get_elem? q.requests i) [
  | none ↦ none
  | some r ↦ some (record q { requests = set q.requests i (f r) })
]

-- `_queue_top`: the slot of the request that was dequeued last.
abbrev pub top : Ring → ℕ
top q = slot q.head

-- `_queue_enqueue`: the slot that the caller fills, and the ring. A failed `assert` is `none`.
pub enqueue : Ring → Option (ℕ × Ring)
unfolding modify
enqueue q =
    if full q
    then none
    else elim (modify (λ r. record r { status = unprocessed }) q (slot (q.tail + 1))) [
      | none ↦ none
      | some q' ↦ some (slot (q.tail + 1), record q' { tail = next q.tail })
    ]

-- `_queue_dequeue`: the request taken, as it stands in its slot, and the ring.
pub dequeue : Ring → Option (Request × Ring)
unfolding modify
dequeue q = if empty q then none else elim (get_elem? q.requests (slot (q.head + 1))) [
  | none ↦ none
  | some r ↦
      let r' : Request = record r { status = mark_processing r.status } in
      some (r', record q { requests = set q.requests (slot (q.head + 1)) r'; head = next q.head })
]

-- `dma_queue_enqueue` between `_queue_enqueue` and its label `exit`: the new request is filled in.
pub put : Handle → Handler → ℕ → Ring → Option Ring
unfolding modify
put handle handler work q = elim (enqueue q) [
  | none ↦ none
  | some (i, q') ↦ modify (λ r. record r { handle = handle; handler = handler; work = work }) q' i
]
