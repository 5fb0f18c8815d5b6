-- ===== src/DmaQueue/Drain.antt =====
-- kernel/sys/dma-queue.c: what `dma_queue_flush_wait` runs.
use libyaul.Base.{
  ℕ, zero, suc, ◌+◌, ◌-◌, ◌%◌, ◌≤◌, ◌<◌, ◌≡◌, ◌≢◌, refl, sym, ap, ◌∙◌, List, [], ◌∷◌, ◌++◌, map,
  Option, some, arith, length, get_elem?, set, length-set, set-set, ne→not-==, eq→==,
  get_elem?-set_self, get_elem?-some,
}
use native.Mathlib.Decide.{dec_lt}
use libyaul.DmaRing.{Request, Ring, mark_processing, mark_complete, slot, top}
use libyaul.DmaRing.Size.{occupancy, IsValid}
use libyaul.DmaRing.Refine.{
  at_position, pending, window-set_outside, oldest, taken_ring, dequeue_lem, pending-taken_ring,
  taken_ring-IsValid,
}
use libyaul.DmaQueue.{
  State, Event, waits, starts, call_of, no_tag, complete_top, flush_round, flush_loop, flush_wait,
  lower_intc, open_scu, put_ring,
}

-- How many requests are still to be dequeued until the flush tail.
abbrev pub remaining : Ring → ℕ
remaining q = (q.flush_tail + 256 - q.head) % 256

-- A ring whose flush is under way: the slot of the request dequeued last is not among those held,
-- and the flush tail lies between head and tail.
pub record IsFlushing (q : Ring) : Type 0 where
  pub valid : IsValid q
  pub top_free : occupancy q ≤ 31
  pub ahead : remaining q ≤ occupancy q

abbrev pub completed : Request → Request
completed r = record r { status = mark_complete r.status }

abbrev pub started : Request → Request
started r = record r { status = mark_processing r.status }

-- What is seen of a flush while `r` is being transferred and the `rs` are to follow.
abbrev pub drain : Request → List Request → List Event
drain r [] = waits ∷ call_of (completed r) ∷ []
drain r (n ∷ ns) = waits ∷ call_of (completed r) ∷ starts n.handle ∷ drain (started n) ns

-- Completing the request dequeued last.
abbrev completed_ring : Ring → Request → Ring
completed_ring q r = record q { requests = set q.requests (top q) (completed r) }

complete_top_lem :
    (q : Ring) (r : Request)
    → at_position q.requests q.head ≡ some r
    → complete_top q ≡ some (completed r, completed_ring q r)
unfolding complete_top
complete_top_lem q r g = rw (g, complete_top)

completed_ring-IsFlushing :
    (q : Ring) (r : Request) → IsFlushing q → IsFlushing (completed_ring q r)
completed_ring-IsFlushing q r f = record {
  valid = record {
    slots = length-set q.requests (top q) (completed r) ∙ f.valid.slots;
    head_byte = f.valid.head_byte;
    tail_byte = f.valid.tail_byte;
    flush_byte = f.valid.flush_byte;
    held = f.valid.held;
  };
  top_free = f.top_free;
  ahead = f.ahead;
}

pending-completed_ring :
    (q : Ring) (r : Request) → IsFlushing q → pending (completed_ring q r) ≡ pending q
pending-completed_ring q r f =
    window-set_outside q.requests (completed r) (top q) (q.head + 1) (occupancy q)
      (λ k l. omega (arith, f.top_free))

-- The rings' state is that of a flush of `q`, which is transferring `r`.
pub record Flushing (s : State) (q : Ring) (r : Request) : Type 0 where
  pub tagged : s.current_tag ≢ no_tag
  pub current : get_elem? s.rings s.current_tag ≡ some q
  pub ring : IsFlushing q
  pub running : at_position q.requests q.head ≡ some r

round_last :
    (s : State) (q : Ring) (r : Request)
    → Flushing s q r
    → remaining q ≡ 0
    → flush_round s
      ≡ some (
        waits ∷ call_of (completed r) ∷ [],
        record (put_ring s s.current_tag (completed_ring q r)) { current_tag = no_tag },
      )
unfolding flush_round
round_last s q r f e =
    rw (f.current, flush_round)
      (rw (complete_top_lem q r f.running) (
        rw (
          eq→== q.head q.flush_tail
            (omega (arith, f.ring.valid.head_byte, f.ring.valid.flush_byte)))))

-- The ring after the next request was dequeued.
abbrev advanced : (q : Ring) (r : Request) → IsFlushing q → 0 < remaining q → Request → Ring
advanced q r f more n =
    taken_ring (completed_ring q r) (completed_ring-IsFlushing q r f).valid (omega (arith, f.ahead))
      n

round_more :
    (s : State) (q : Ring) (r n : Request)
    → (f : Flushing s q r) → (more : 0 < remaining q)
    → at_position (completed_ring q r).requests (q.head + 1) ≡ some n
    → flush_round s
      ≡ some (
        waits ∷ call_of (completed r) ∷ starts n.handle ∷ [],
        record s {
          rings = set s.rings s.current_tag (advanced q r f.ring more n);
          intc_mask = lower_intc s.intc_mask;
          scu_mask = open_scu s.scu_mask;
        },
      )
unfolding flush_round
round_more s q r n f more g =
    rw (f.current, flush_round)
      (rw (complete_top_lem q r f.running) (
        rw
          (ne→not-== q.head q.flush_tail
            (omega (arith, f.ring.valid.head_byte, f.ring.valid.flush_byte)))
          (rw (
            dequeue_lem (completed_ring q r) (completed_ring-IsFlushing q r f.ring).valid
              (omega (arith, f.ring.ahead)) n g))))

-- How a flush of `q` that was transferring `r` ends, after `rs`: what was seen, and what is left.
pub record Drained (s : State) (q : Ring) (r : Request) (out : Option (List Event × State))
    : Type 0 where
  pub rs : List Request
  pub q' : Ring
  pub intc : ℕ
  pub scu : ℕ
  pub returns :
      out
      ≡ some (
        drain r rs,
        record {
          rings = set s.rings s.current_tag q';
          current_tag = no_tag;
          intc_mask = intc;
          scu_mask = scu;
        },
      )
  pub flushed : length rs ≡ remaining q
  pub rest : pending q ≡ map some rs ++ pending q'
  pub valid : IsValid q'
  pub reached : q'.head ≡ q.flush_tail
  pub kept : q'.tail ≡ q.tail

-- After the next request was dequeued, the flush is under way with that request.
advance-Flushing :
    (s : State) (q : Ring) (r n : Request)
    → (f : Flushing s q r) → (more : 0 < remaining q) → (m c : ℕ)
    → Flushing
        (record {
          rings = set s.rings s.current_tag (advanced q r f.ring more n);
          current_tag = s.current_tag;
          intc_mask = m;
          scu_mask = c;
        })
        (advanced q r f.ring more n)
        (started n)
advance-Flushing s q r n f more m c = record {
  tagged = f.tagged;
  current =
      get_elem?-set_self s.rings s.current_tag (advanced q r f.ring more n)
        (get_elem?-some s.rings s.current_tag q f.current);
  ring = record {
    valid = taken_ring-IsValid (completed_ring q r) v held n;
    top_free =
        omega
          (arith, f.ring.top_free, f.ring.valid.head_byte, f.ring.valid.tail_byte, f.ring.ahead);
    ahead = omega (
      arith, f.ring.ahead, f.ring.valid.head_byte, f.ring.valid.tail_byte, f.ring.valid.flush_byte,
    );
  };
  running =
      ap (get_elem? (advanced q r f.ring more n).requests) (omega arith)
      ∙ get_elem?-set_self (completed_ring q r).requests (slot (q.head + 1)) (started n)
          (omega (arith, v.slots));
}
  where
    v : IsValid (completed_ring q r)
    v = (completed_ring-IsFlushing q r f.ring).valid

    held : 0 < occupancy q
    held = omega (arith, f.ring.ahead)

-- With no tag current the loop ends at once.
pub flush_loop-idle :
    (fuel : ℕ) (s : State) → s.current_tag ≡ no_tag → flush_loop fuel s ≡ some ([], s)
unfolding flush_loop
flush_loop-idle zero s e = rw e refl
flush_loop-idle (suc fuel) s e = rw e refl

Drained-last :
    (fuel : ℕ) (s : State) (q : Ring) (r : Request)
    → Flushing s q r
    → remaining q ≡ 0
    → Drained s q r (flush_loop (suc fuel) s)
unfolding flush_loop
Drained-last fuel s q r f e = record {
  rs = [];
  q' = completed_ring q r;
  intc = s.intc_mask;
  scu = s.scu_mask;
  returns = rw (ne→not-== s.current_tag no_tag f.tagged) (
      rw (round_last s q r f e) (
        rw
          (flush_loop-idle fuel
            (record (put_ring s s.current_tag (completed_ring q r)) { current_tag = no_tag }) refl)
          refl));
  flushed = sym e;
  rest = sym (pending-completed_ring q r f.ring);
  valid = (completed_ring-IsFlushing q r f.ring).valid;
  reached = omega (arith, f.ring.valid.head_byte, f.ring.valid.flush_byte);
  kept = refl;
}

Drained-more :
    (fuel : ℕ) (s : State) (q : Ring) (r n : Request)
    → (f : Flushing s q r) → (more : 0 < remaining q)
    → at_position (completed_ring q r).requests (q.head + 1) ≡ some n
    → Drained
        (record {
          rings = set s.rings s.current_tag (advanced q r f.ring more n);
          current_tag = s.current_tag;
          intc_mask = lower_intc s.intc_mask;
          scu_mask = open_scu s.scu_mask;
        })
        (advanced q r f.ring more n)
        (started n)
        (flush_loop fuel (record {
          rings = set s.rings s.current_tag (advanced q r f.ring more n);
          current_tag = s.current_tag;
          intc_mask = lower_intc s.intc_mask;
          scu_mask = open_scu s.scu_mask;
        }))
    → Drained s q r (flush_loop (suc fuel) s)
unfolding flush_loop
Drained-more fuel s q r n f more g d = record {
  rs = n ∷ d.rs;
  q' = d.q';
  intc = d.intc;
  scu = d.scu;
  returns = rw (ne→not-== s.current_tag no_tag f.tagged) (
      rw (round_more s q r n f more g)
        (rw d.returns (rw (set-set s.rings s.current_tag (advanced q r f.ring more n) d.q') refl)));
  flushed = omega (arith, d.flushed, f.ring.valid.head_byte, f.ring.valid.flush_byte);
  rest =
      sym (pending-completed_ring q r f.ring)
      ∙ pending-taken_ring (completed_ring q r) (completed_ring-IsFlushing q r f.ring).valid
          (omega (arith, f.ring.ahead)) n g
      ∙ ap (◌∷◌ (some n)) d.rest;
  valid = d.valid;
  reached = d.reached;
  kept = d.kept;
}

flush_loop-Drained :
    (fuel : ℕ) (s : State) (q : Ring) (r : Request)
    → Flushing s q r
    → remaining q < fuel
    → Drained s q r (flush_loop fuel s)
flush_loop-Drained zero s q r f l = elim l [ ]
flush_loop-Drained (suc fuel) s q r f l = elim (dec_lt 0 (remaining q)) [
  | no last ↦ Drained-last fuel s q r f (omega arith)
  | yes more ↦
      let (n, g) =
        oldest (completed_ring q r) (completed_ring-IsFlushing q r f.ring).valid
          (omega (arith, f.ring.ahead)) in
      Drained-more fuel s q r n f more g (
        flush_loop-Drained fuel _ (advanced q r f.ring more n) (started n)
          (advance-Flushing s q r n f more (lower_intc s.intc_mask) (open_scu s.scu_mask))
          (omega (arith, f.ring.valid.head_byte, f.ring.valid.flush_byte)))
]

-- While a flush is under way in a valid ring, whose flush tail lies between head and tail and
-- that holds at most 31 requests besides the running one, so that the slot of the running one
-- has not been taken, `dma_queue_flush_wait` returns. It waits for the running transfer, then
-- starts and waits for each request up to the flush tail, in the order of their enqueueing, and
-- calls each request's handler when its transfer is complete; the requests beyond the flush tail
-- stay, and no tag is current.
pub flush_wait-Drained :
    (s : State) (q : Ring) (r : Request) → Flushing s q r → Drained s q r (flush_wait s)
unfolding flush_wait
flush_wait-Drained s q r f = flush_loop-Drained 256 s q r f (omega arith)
