-- ===== src/DmaRing/Size.antt =====
-- kernel/sys/dma-queue.c: what `_queue_size` and `_queue_full` count.
use libyaul.Base.{ℕ, ◌+◌, ◌-◌, ◌%◌, ◌^◌, ◌≤◌, ◌<◌, ◌≡◌, ◌↔◌, true, false, arith, length}
use libyaul.DmaRing.{Ring, size, full, empty}

-- The number of requests between the two positions.
abbrev pub occupancy : Ring → ℕ
occupancy q = (q.tail + 256 - q.head) % 256

-- A ring of 32 slots whose positions are 8 bits wide and at most 32 apart.
pub record IsValid (q : Ring) : Type 0 where
  pub slots : length q.requests ≡ 32
  pub head_byte : q.head < 256
  pub tail_byte : q.tail < 256
  pub flush_byte : q.flush_tail < 256
  pub held : occupancy q ≤ 32

-- The tail has passed 127 and become negative, and the head has not.
abbrev pub SignSplit : Ring → Type 0
SignSplit q = (q.head < 128) × (128 ≤ q.tail)

-- `_queue_size` of a valid ring is the number of requests held, unless the tail alone has turned
-- negative: then it is 256 less than that, as a `uint32_t`.
pub size_lem :
    (q : Ring)
    → IsValid q
    → (((q.head < 128) → q.tail < 128) → size q ≡ occupancy q)
      × (SignSplit q → size q ≡ 2 ^ 32 - 256 + occupancy q)
unfolding size
size_lem q v = (λ same. ground arith, λ split. ground arith)

-- `_queue_full` of a valid ring says that 32 requests are held, unless the tail alone has turned
-- negative: then it says no, however many are held.
pub full_lem :
    (q : Ring)
    → IsValid q
    → (((q.head < 128) → q.tail < 128) → (full q ≡ true) ↔ (occupancy q ≡ 32))
      × (SignSplit q → full q ≡ false)
unfolding full
full_lem q v = (
  λ same. (λ e. ground (arith, (size_lem q v).0 same), λ e. ground (arith, (size_lem q v).0 same)),
  λ split. ground (arith, (size_lem q v).1 split),
)

-- `_queue_empty` of a valid ring says that no request is held.
pub empty_lem : (q : Ring) → IsValid q → (empty q ≡ true) ↔ (occupancy q ≡ 0)
empty_lem q v = (λ e. ground arith, λ e. ground arith)
