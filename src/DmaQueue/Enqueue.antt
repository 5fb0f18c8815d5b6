-- ===== src/DmaQueue/Enqueue.antt =====
-- kernel/sys/dma-queue.c: `dma_queue_enqueue` and `dma_queue_count_get`.
use libyaul.Base.{ℕ, ◌<◌, ◌≡◌, refl, [], ◌∷◌, ◌++◌, Option, none, some, length, get_elem?, set}
use libyaul.DmaRing.{Handle, Handler, Ring}
use libyaul.DmaRing.Size.{occupancy, IsValid, full_lem}
use libyaul.DmaRing.Refine.{not_full, pending, new_request, put_refines}
use libyaul.DmaQueue.{State, tag_count, or_default, enqueue}

-- Each tag has a ring, and each ring is valid.
pub record IsReady (s : State) : Type 0 where
  pub rings : length s.rings ≡ tag_count
  pub each : (tag : ℕ) (q : Ring) → get_elem? s.rings tag ≡ some q → IsValid q

-- `dma_queue_enqueue`, at a tag whose ring has room, returns 0 and appends the request, not yet
-- processed, to those of the tag; the other rings, the current tag and the masks stay.
pub enqueue-room :
    (handle : Handle) (tag : ℕ) (handler : Option Handler) (work : ℕ) (s : State) (q : Ring)
    → get_elem? s.rings tag ≡ some q
    → IsValid q
    → occupancy q < 32
    → (q' : Ring) × (enqueue handle tag handler work s
        ≡ some (0, record s { rings = set s.rings tag q' }))
      × (pending q' ≡ pending q ++ (some (new_request handle (or_default handler) work) ∷ []))
      × IsValid q'
      × (q'.flush_tail ≡ q.flush_tail)
unfolding enqueue
enqueue-room handle tag handler work s q g v room =
    let (q', e, p, w, h, f) = put_refines handle (or_default handler) work q v room in
    (q', rw (g, enqueue) (rw (not_full q v room) (rw e refl)), p, w, f)

-- `dma_queue_enqueue`, at a tag whose ring holds 32 requests, returns -1 and changes nothing, if
-- the positions of the ring's head and tail have one sign, or the head alone is negative.
pub enqueue-full :
    (handle : Handle) (tag : ℕ) (handler : Option Handler) (work : ℕ) (s : State) (q : Ring)
    → get_elem? s.rings tag ≡ some q
    → IsValid q
    → occupancy q ≡ 32
    → ((q.head < 128) → q.tail < 128)
    → enqueue handle tag handler work s ≡ some (255, s)
unfolding enqueue
enqueue-full handle tag handler work s q g v e same =
    rw (g, enqueue) (rw (((full_lem q v).0 same).1 e) refl)

-- `dma_queue_enqueue` aborts at a tag that has no ring.
pub enqueue-no_ring :
    (handle : Handle) (tag : ℕ) (handler : Option Handler) (work : ℕ) (s : State)
    → get_elem? s.rings tag ≡ none
    → enqueue handle tag handler work s ≡ none
unfolding enqueue
enqueue-no_ring handle tag handler work s g = rw (g, enqueue) refl
