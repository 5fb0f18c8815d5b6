-- ===== src/DmaRing/Overrun.antt =====
-- kernel/sys/dma-queue.c: requests that `_queue_enqueue` writes over.
use libyaul.Base.{ℕ, ◌+◌, ◌≡◌, refl, some, arith}
use libyaul.DmaRing.{Handle, Handler, Ring, top, slot, put}
use libyaul.DmaRing.Size.{occupancy, IsValid, SignSplit, full_lem}
use libyaul.DmaRing.Refine.{at_position, new_request, put_ring, put_lem, put_slot, not_full}

-- A ring that holds 32 requests takes another one while its tail alone is negative: the new request
-- takes the slot of the oldest request held, which is lost, and 33 requests are counted.
pub put-overruns :
    (handle : Handle) (handler : Handler) (work : ℕ) (q : Ring)
    → IsValid q
    → occupancy q ≡ 32
    → SignSplit q
    → (q' : Ring) × (put handle handler work q ≡ some q')
      × (at_position q'.requests (q.head + 1) ≡ some (new_request handle handler work))
      × (occupancy q' ≡ 33)
put-overruns handle handler work q v e split = (
  put_ring handle handler work q,
  put_lem handle handler work q v ((full_lem q v).1 split),
  put_slot handle handler work q v (q.head + 1) (omega (arith, v.head_byte, v.tail_byte)),
  omega (arith, v.head_byte, v.tail_byte),
)

-- A ring that holds 31 requests besides the one dequeued last gives a new request the slot of that
-- one, although its transfer may still be running.
pub put-overwrites-top :
    (handle : Handle) (handler : Handler) (work : ℕ) (q : Ring)
    → IsValid q
    → occupancy q ≡ 31
    → (q' : Ring) × (put handle handler work q ≡ some q')
      × (top q' ≡ top q)
      × (at_position q'.requests (top q') ≡ some (new_request handle handler work))
put-overwrites-top handle handler work q v e = (
  put_ring handle handler work q,
  put_lem handle handler work q v (not_full q v (omega arith)),
  refl,
  put_slot handle handler work q v (slot q.head) (omega (arith, v.head_byte, v.tail_byte)),
)
