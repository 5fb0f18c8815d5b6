-- ===== src/DmaQueue/Flush.antt =====
-- kernel/sys/dma-queue.c: `dma_queue_flush`, and the wait that completes what it began.
use libyaul.Base.{
  ℕ, ◌+◌, ◌-◌, ◌^◌, ◌<◌, ◌≡◌, refl, ap, ◌∙◌, List, [], ◌∷◌, ◌++◌, map, Option, some, arith,
  get_elem?, set, get_elem?-set_self, get_elem?-some, lt→ltb, set-set, ne→not-==, eq→==,
}
use mathlib.Core.List.{append-nil}
use libyaul.DmaRing.{Request, Ring, slot}
use libyaul.DmaRing.Size.{occupancy, IsValid}
use libyaul.DmaRing.Refine.{
  at_position, window, pending, oldest, taken_ring, dequeue_lem, pending-taken_ring,
  taken_ring-IsValid,
}
use libyaul.DmaQueue.{
  State, starts, call_of, no_tag, tag_count, flush_wait, flush_ring, flush, lower_intc, open_scu,
}
use libyaul.DmaQueue.Drain.{Flushing, drain, started, flush_loop-idle, flush_wait-Drained}

-- With no tag current, `dma_queue_flush_wait` does nothing.
pub flush_wait-idle : (s : State) → s.current_tag ≡ no_tag → flush_wait s ≡ some ([], s)
unfolding flush_wait
flush_wait-idle s e = flush_loop-idle 256 s e

-- `dma_queue_flush` of a tag with no requests, when no flush is under way, returns -1 and changes
-- nothing.
pub flush-empty :
    (s : State) (tag : ℕ) (q : Ring)
    → s.current_tag ≡ no_tag
    → tag < tag_count
    → get_elem? s.rings tag ≡ some q
    → IsValid q
    → occupancy q ≡ 0
    → flush tag s ≡ some (2 ^ 32 - 1, [], s)
unfolding flush flush_ring
flush-empty s tag q idle l g v e = rw (lt→ltb tag tag_count l) (
    rw (flush_wait-idle s idle, flush)
      (rw (g, flush_ring)
        (rw (eq→== q.head q.tail (omega (arith, v.head_byte, v.tail_byte))) refl)))

module _ (s : State) (tag : ℕ) (q : Ring) (idle : s.current_tag ≡ no_tag) (l : tag < tag_count)
    (g : get_elem? s.rings tag ≡ some q) (v : IsValid q) (held : 0 < occupancy q) where
  -- The ring with its flush tail set.
  abbrev aimed : Ring
  aimed = record q { flush_tail = q.tail }

  aimed-IsValid : IsValid aimed
  aimed-IsValid = record {
    slots = v.slots;
    head_byte = v.head_byte;
    tail_byte = v.tail_byte;
    flush_byte = v.tail_byte;
    held = v.held;
  }

  abbrev begun : Request → State
  begun r = record {
    rings = set s.rings tag (taken_ring aimed aimed-IsValid held r);
    current_tag = tag;
    intc_mask = lower_intc s.intc_mask;
    scu_mask = open_scu s.scu_mask;
  }

  flush-begins :
      (r : Request)
      → at_position q.requests (q.head + 1) ≡ some r
      → flush tag s ≡ some (0, call_of (started r) ∷ starts r.handle ∷ [], begun r)
  unfolding flush flush_ring
  flush-begins r h = rw (lt→ltb tag tag_count l) (
      rw (flush_wait-idle s idle, flush)
        (rw (g, flush_ring)
          (rw (ne→not-== q.head q.tail (omega (arith, v.head_byte)))
            (rw (dequeue_lem aimed aimed-IsValid held r h) refl))))

  begun-Flushing :
      (r : Request)
      → at_position q.requests (q.head + 1) ≡ some r
      → Flushing (begun r) (taken_ring aimed aimed-IsValid held r) (started r)
  begun-Flushing r h = record {
    tagged = omega arith;
    current = get_elem?-set_self s.rings tag _ (get_elem?-some s.rings tag q g);
    ring = record {
      valid = taken_ring-IsValid aimed aimed-IsValid held r;
      top_free = omega (arith, v.held, v.head_byte, v.tail_byte);
      ahead = omega (arith, v.head_byte, v.tail_byte);
    };
    running =
        ap (get_elem? (taken_ring aimed aimed-IsValid held r).requests) (omega arith)
        ∙ get_elem?-set_self q.requests (slot (q.head + 1)) (started r) (omega (arith, v.slots));
  }

-- A whole flush of a tag, seen from outside: the first request `r` is announced to its handler and
-- started, and the wait then completes it and the others, `rs`, in order.
pub record Flushed (s : State) (tag : ℕ) (q : Ring) : Type 0 where
  pub r : Request
  pub rs : List Request
  pub s' : State
  pub s'' : State
  pub q' : Ring
  pub held : pending q ≡ map some (r ∷ rs)
  pub begins : flush tag s ≡ some (0, call_of (started r) ∷ starts r.handle ∷ [], s')
  pub ends : flush_wait s' ≡ some (drain (started r) rs, s'')
  pub idle : s''.current_tag ≡ no_tag
  pub left : s''.rings ≡ set s.rings tag q'
  pub emptied : occupancy q' ≡ 0
  pub valid : IsValid q'

-- `dma_queue_flush` of a tag that holds requests in a valid ring, when no flush is under way,
-- and the `dma_queue_flush_wait` after it start and complete every request of the tag, in the
-- order of their enqueueing, and leave the tag empty, no tag current and the other tags as they
-- were.
pub flush-Flushed :
    (s : State) (tag : ℕ) (q : Ring)
    → s.current_tag ≡ no_tag
    → tag < tag_count
    → get_elem? s.rings tag ≡ some q
    → IsValid q
    → 0 < occupancy q
    → Flushed s tag q
flush-Flushed s tag q i l g v held =
    let (r, h) = oldest q v held in
    let f = begun-Flushing s tag q i l g v held r h in
    let d = flush_wait-Drained _ _ _ f in
    let emptied : occupancy d.q' ≡ 0 = omega (arith, d.reached, d.kept, v.tail_byte) in
    record {
      r = r;
      rs = d.rs;
      s' = begun s tag q i l g v held r;
      s'' = record {
        rings =
            set
              (set s.rings tag (
                taken_ring (aimed s tag q i l g v held) (aimed-IsValid s tag q i l g v held) held
                  r))
              tag d.q';
        current_tag = no_tag;
        intc_mask = d.intc;
        scu_mask = d.scu;
      };
      q' = d.q';
      held =
          pending-taken_ring (aimed s tag q i l g v held) (aimed-IsValid s tag q i l g v held) held
            r h
          ∙ ap (◌∷◌ (some r)) (
              d.rest
              ∙ ap (λ (z : List (Option Request)). map some d.rs ++ z)
                  (ap (window d.q'.requests (d.q'.head + 1)) emptied)
              ∙ append-nil (map some d.rs));
      begins = flush-begins s tag q i l g v held r h;
      ends = d.returns;
      idle = refl;
      left = set-set s.rings tag _ d.q';
      emptied = emptied;
      valid = d.valid;
    }
