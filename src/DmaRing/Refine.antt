-- ===== src/DmaRing/Refine.antt =====
-- kernel/sys/dma-queue.c: a ring of requests behaves as a queue of at most 32.
use libyaul.Base.{
  ℕ, zero, suc, ◌+◌, ◌%◌, ◌≤◌, ◌<◌, ◌≡◌, ◌≢◌, refl, sym, ap, ap₂, ◌∙◌, List, [], ◌∷◌, ◌++◌, Option,
  none, some, false, arith, get_elem?, set, length-set, set-set, ne→not-==, get_elem?-set_self,
  get_elem?-set_ne, get_elem?-lt,
}
use libyaul.DmaRing.{
  Handle, Handler, Request, Ring, mark_processing, unprocessed, next, slot, full, size, modify,
  enqueue, dequeue, put,
}
use libyaul.DmaRing.Size.{occupancy, IsValid}

-- The request in the slot of position `p`.
abbrev pub at_position : List Request → ℕ → Option Request
at_position rs p = get_elem? rs (slot p)

-- The `n` slots from position `p` on.
abbrev pub window : List Request → ℕ → ℕ → List (Option Request)
window rs p zero = []
window rs p (suc n) = at_position rs p ∷ window rs (p + 1) n

-- What the ring holds, oldest first.
abbrev pub pending : Ring → List (Option Request)
pending q = window q.requests (q.head + 1) (occupancy q)

pub window-set_outside :
    (rs : List Request) (r : Request) (i p n : ℕ)
    → ((k : ℕ) → k < n → (p + k) % 32 ≢ i)
    → window (set rs i r) p n ≡ window rs p n
window-set_outside rs r i p zero h = refl
window-set_outside rs r i p (suc n) h =
    ap₂ ◌∷◌ (get_elem?-set_ne rs i (slot p) r (λ e. h 0 (omega arith) (omega arith)))
      (window-set_outside rs r i (p + 1) n (λ k l e. h (k + 1) (omega arith) (omega arith)))

-- Positions that agree modulo 32 stand for the same slots.
window-congruent :
    (rs : List Request) (p p' n : ℕ) → p % 32 ≡ p' % 32 → window rs p n ≡ window rs p' n
window-congruent rs p p' zero e = refl
window-congruent rs p p' (suc n) e =
    ap₂ ◌∷◌ (ap (get_elem? rs) e) (window-congruent rs (p + 1) (p' + 1) n (omega arith))

-- A window by one longer ends with one more slot.
window-snoc :
    (rs : List Request) (p n : ℕ)
    → window rs p (suc n) ≡ window rs p n ++ (at_position rs (p + n) ∷ [])
window-snoc rs p zero = ap (λ (k : ℕ). at_position rs k ∷ []) (omega arith)
window-snoc rs p (suc n) = ap (◌∷◌ (at_position rs p)) (
    window-snoc rs (p + 1) n
    ∙ ap (λ (k : ℕ). window rs (p + 1) n ++ (at_position rs k ∷ [])) (omega arith))

-- A ring with room is not taken for full.
pub not_full : (q : Ring) → IsValid q → occupancy q < 32 → full q ≡ false
unfolding full size
not_full q v room = ground arith

-- The request that `dma_queue_enqueue` stores.
abbrev pub new_request : Handle → Handler → ℕ → Request
new_request handle handler work = record {
  handle = handle;
  handler = handler;
  status = unprocessed;
  work = work;
}

module _ (handle : Handle) (handler : Handler) (work : ℕ) (q : Ring) where
  abbrev pub put_ring : Ring
  put_ring = record q {
    requests = set q.requests (slot (q.tail + 1)) (new_request handle handler work);
    tail = next q.tail;
  }

  put_at :
      IsValid q
      → full q ≡ false
      → (r : Request) → get_elem? q.requests (slot (q.tail + 1)) ≡ some r
      → put handle handler work q ≡ some put_ring
  unfolding put enqueue
  put_at v open_ring r g =
      rw (open_ring, put)
        (rw (g, modify)
          (rw
            (
              get_elem?-set_self q.requests (slot (q.tail + 1)) (record r { status = unprocessed })
                  (omega (arith, v.slots)),
              modify,
            )
            (rw set-set refl)))

  pub put_lem : IsValid q → full q ≡ false → put handle handler work q ≡ some put_ring
  put_lem v open_ring =
      let (r, g) = get_elem?-lt q.requests (slot (q.tail + 1)) (omega (arith, v.slots)) in
      put_at v open_ring r g

  pub put_slot :
      IsValid q
      → (p : ℕ) → p % 32 ≡ (q.tail + 1) % 32
      → at_position put_ring.requests p ≡ some (new_request handle handler work)
  put_slot v p e =
      ap (get_elem? put_ring.requests) e
      ∙ get_elem?-set_self q.requests (slot (q.tail + 1)) (new_request handle handler work)
          (omega (arith, v.slots))

module _ (handle : Handle) (handler : Handler) (work : ℕ) (q : Ring) (v : IsValid q)
    (room : occupancy q < 32) where
  pub put_ring-IsValid : IsValid (put_ring handle handler work q)
  put_ring-IsValid = record {
    slots = length-set q.requests (slot (q.tail + 1)) (new_request handle handler work) ∙ v.slots;
    head_byte = v.head_byte;
    tail_byte = omega arith;
    flush_byte = v.flush_byte;
    held = omega (arith, v.head_byte, v.tail_byte);
  }

  pub pending-put_ring :
      pending (put_ring handle handler work q)
      ≡ pending q ++ (some (new_request handle handler work) ∷ [])
  pending-put_ring =
      let rs = set q.requests (slot (q.tail + 1)) (new_request handle handler work) in
      let grown : occupancy (put_ring handle handler work q) ≡ suc (occupancy q) =
        omega (arith, v.head_byte, v.tail_byte) in
      let last : (q.head + 1 + occupancy q) % 32 ≡ (q.tail + 1) % 32 =
        omega (arith, v.head_byte, v.tail_byte) in
      ap (window rs (q.head + 1)) grown
      ∙ window-snoc rs (q.head + 1) (occupancy q)
      ∙ ap₂ (λ (a : List (Option Request)) (b : Option Request). a ++ (b ∷ []))
          (window-set_outside q.requests (new_request handle handler work) (slot (q.tail + 1))
            (q.head + 1) (occupancy q) (λ k l. omega (arith, v.head_byte, v.tail_byte)))
          (put_slot handle handler work q v (q.head + 1 + occupancy q) last)

module _ (q : Ring) (v : IsValid q) (held : 0 < occupancy q) where
  -- The oldest request held.
  pub oldest : (r : Request) × (at_position q.requests (q.head + 1) ≡ some r)
  oldest = get_elem?-lt q.requests (slot (q.head + 1)) (omega (arith, v.slots))

  abbrev pub taken_ring : Request → Ring
  taken_ring r = record q {
    requests = set q.requests (slot (q.head + 1)) (record r { status = mark_processing r.status });
    head = next q.head;
  }

  pub dequeue_lem :
      (r : Request)
      → at_position q.requests (q.head + 1) ≡ some r
      → dequeue q ≡ some (record r { status = mark_processing r.status }, taken_ring r)
  unfolding dequeue
  dequeue_lem r g = rw (ne→not-== q.head q.tail (omega (arith, v.head_byte))) (rw g)

  pub taken_ring-IsValid : (r : Request) → IsValid (taken_ring r)
  taken_ring-IsValid r = record {
    slots = length-set q.requests (slot (q.head + 1)) _ ∙ v.slots;
    head_byte = omega arith;
    tail_byte = v.tail_byte;
    flush_byte = v.flush_byte;
    held = omega (arith, v.held, v.head_byte, v.tail_byte);
  }

  pub window-taken_ring :
      (r : Request) (m : ℕ)
      → m ≤ 31
      → window q.requests (q.head + 1 + 1) m
        ≡ window (taken_ring r).requests ((taken_ring r).head + 1) m
  window-taken_ring r m small =
      let r' : Request = record r { status = mark_processing r.status } in
      window-congruent q.requests (q.head + 1 + 1) (next q.head + 1) m (omega arith)
      ∙ sym (
          window-set_outside q.requests r' (slot (q.head + 1)) (next q.head + 1) m
            (λ k l. omega (arith, v.held, v.head_byte, v.tail_byte)))

  pub pending-taken_ring :
      (r : Request)
      → at_position q.requests (q.head + 1) ≡ some r
      → pending q ≡ some r ∷ pending (taken_ring r)
  pending-taken_ring r g =
      let fewer : occupancy q ≡ suc (occupancy (taken_ring r)) =
        omega (arith, v.head_byte, v.tail_byte) in
      ap (window q.requests (q.head + 1)) fewer
      ∙ ap₂ ◌∷◌ g (
          window-taken_ring r (occupancy (taken_ring r))
            (omega (arith, v.held, v.head_byte, v.tail_byte)))

-- `_queue_enqueue` of a valid ring with room, and the writes that fill the request in, append an
-- unprocessed request to those held, keep the ring valid, and move neither head nor flush tail.
pub put_refines :
    (handle : Handle) (handler : Handler) (work : ℕ) (q : Ring)
    → IsValid q
    → occupancy q < 32
    → (q' : Ring) × (put handle handler work q ≡ some q')
      × (pending q' ≡ pending q ++ (some (new_request handle handler work) ∷ []))
      × IsValid q'
      × (q'.head ≡ q.head)
      × (q'.flush_tail ≡ q.flush_tail)
put_refines handle handler work q v room = (
  put_ring handle handler work q,
  put_lem handle handler work q v (not_full q v room),
  pending-put_ring handle handler work q v room,
  put_ring-IsValid handle handler work q v room,
  refl,
  refl,
)

-- `_queue_dequeue` of a valid ring that holds requests returns the oldest, marked as being
-- processed, leaves the others in order, and keeps the ring valid.
pub dequeue_refines :
    (q : Ring)
    → IsValid q
    → 0 < occupancy q
    → (r : Request) × (q' : Ring) × (dequeue q
        ≡ some (record r { status = mark_processing r.status }, q'))
      × (pending q ≡ some r ∷ pending q')
      × IsValid q'
      × (at_position q'.requests q'.head ≡ some (record r { status = mark_processing r.status }))
dequeue_refines q v held =
    let (r, g) = oldest q v held in
    (
      r,
      taken_ring q v held r,
      dequeue_lem q v held r g,
      pending-taken_ring q v held r g,
      taken_ring-IsValid q v held r,
      ap (get_elem? (taken_ring q v held r).requests) (omega arith)
          ∙ get_elem?-set_self q.requests (slot (q.head + 1))
              (record r { status = mark_processing r.status }) (omega (arith, v.slots)),
    )

-- `_queue_dequeue` of a valid ring that holds nothing fails its assertion.
pub dequeue-empty : (q : Ring) → IsValid q → occupancy q ≡ 0 → dequeue q ≡ none
unfolding dequeue
dequeue-empty q v e = ground (arith, v.head_byte, v.tail_byte)
