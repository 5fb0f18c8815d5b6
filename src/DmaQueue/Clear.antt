-- ===== src/DmaQueue/Clear.antt =====
-- kernel/sys/dma-queue.c: `dma_queue_tag_clear` and `dma_queue_clear`.
use libyaul.Base.{
  ℕ, zero, suc, ◌+◌, ◌≤◌, ◌<◌, ◌≡◌, refl, sym, ap, ◌∙◌, List, [], ◌∷◌, ◌++◌, map, Option, some,
  arith, length, get_elem?, set, get_elem?-set_self, get_elem?-some, lt→ltb, ne→not-==, eq→==,
  length-set, get_elem?-set_ne, get_elem?-lt, some_eq,
}
use native.Mathlib.Decide.{dec_lt, ℕ_discrete}
use libyaul.DmaRing.{Request, Ring, mark_canceled, top}
use libyaul.DmaRing.Size.{occupancy, IsValid}
use libyaul.DmaRing.Refine.{
  at_position, window, window-set_outside, pending, oldest, taken_ring, dequeue_lem,
  pending-taken_ring, taken_ring-IsValid,
}
use libyaul.DmaQueue.{
  State, Event, call_of, no_tag, tag_count, tag_clear, cancel_loop, put_ring, clear_tags, clear,
}
use libyaul.DmaQueue.Drain.{started}
use libyaul.DmaQueue.Enqueue.{IsReady}
use libyaul.DmaQueue.Flush.{flush_wait-idle}

abbrev pub canceled : Request → Request
canceled r = record r { status = mark_canceled r.status }

-- The ring after its oldest request was canceled.
abbrev canceled_ring : (q : Ring) → IsValid q → 0 < occupancy q → Request → Ring
canceled_ring q v held r =
    let q' = taken_ring q v held r in
    record q' { requests = set q'.requests (top q') (canceled (started r)) }

canceled_ring-IsValid :
    (q : Ring) (v : IsValid q) (held : 0 < occupancy q) (r : Request)
    → IsValid (canceled_ring q v held r)
canceled_ring-IsValid q v held r =
    let w = taken_ring-IsValid q v held r in
    record {
      slots =
          length-set (taken_ring q v held r).requests (top (taken_ring q v held r))
            (canceled (started r))
          ∙ w.slots;
      head_byte = w.head_byte;
      tail_byte = w.tail_byte;
      flush_byte = w.flush_byte;
      held = w.held;
    }

pending-canceled_ring :
    (q : Ring) (v : IsValid q) (held : 0 < occupancy q) (r : Request)
    → at_position q.requests (q.head + 1) ≡ some r
    → pending q ≡ some r ∷ pending (canceled_ring q v held r)
pending-canceled_ring q v held r h =
    let q' = taken_ring q v held r in
    pending-taken_ring q v held r h
    ∙ ap (◌∷◌ (some r)) (
        sym (
          window-set_outside q'.requests (canceled (started r)) (top q') (q'.head + 1)
            (occupancy q') (λ k l. omega (arith, v.held, v.head_byte, v.tail_byte))))

-- What the loop has done when it stops.
record Canceled (q : Ring) (out : Option (List Event × Ring)) : Type 0 where
  rs : List Request
  q' : Ring
  returns : out ≡ some (map (λ r. call_of (canceled (started r))) rs, q')
  held : pending q ≡ map some rs
  emptied : occupancy q' ≡ 0
  valid : IsValid q'

nothing_held :
    (q : Ring)
    → IsValid q
    → occupancy q ≡ 0
    → {out : Option (List Event × Ring)} → out ≡ some ([], q)
    → Canceled q out
nothing_held q v e returns = record {
  rs = [];
  q' = q;
  returns = returns;
  held = ap (window q.requests (q.head + 1)) e;
  emptied = e;
  valid = v;
}

cancel_loop-Canceled :
    (fuel : ℕ) (q : Ring) → IsValid q → occupancy q ≤ fuel → Canceled q (cancel_loop fuel q)
unfolding cancel_loop
cancel_loop-Canceled zero q v l =
    nothing_held q v (omega arith)
      (rw (eq→== q.head q.tail (omega (arith, v.head_byte, v.tail_byte))) refl)
cancel_loop-Canceled (suc fuel) q v l = elim (dec_lt 0 (occupancy q)) [
  | no none_held ↦
      nothing_held q v (omega arith)
        (rw (eq→== q.head q.tail (omega (arith, v.head_byte, v.tail_byte))) refl)
  | yes held ↦
      let (r, h) = oldest q v held in
      let d =
        cancel_loop-Canceled fuel (canceled_ring q v held r) (canceled_ring-IsValid q v held r)
          (omega (arith, v.head_byte, v.tail_byte)) in
      record {
        rs = r ∷ d.rs;
        q' = d.q';
        returns =
            rw (ne→not-== q.head q.tail (omega (arith, v.head_byte)))
              (rw (dequeue_lem q v held r h) (rw d.returns refl));
        held = pending-canceled_ring q v held r h ∙ ap (◌∷◌ (some r)) d.held;
        emptied = d.emptied;
        valid = d.valid;
      }
]

-- What clearing one tag does.
pub record TagCleared (s : State) (tag : ℕ) (q : Ring) : Type 0 where
  pub rs : List Request
  pub q' : Ring
  pub returns :
      tag_clear tag s ≡ some (map (λ r. call_of (canceled (started r))) rs, put_ring s tag q')
  pub held : pending q ≡ map some rs
  pub emptied : occupancy q' ≡ 0
  pub valid : IsValid q'

-- `dma_queue_tag_clear`, when no flush is under way, takes every request of the tag, in the order of
-- their enqueueing, calls its handler with the mark that it is canceled, starts no transfer, and
-- leaves the tag empty and all else as it was.
pub tag_clear-TagCleared :
    (s : State) (tag : ℕ) (q : Ring)
    → s.current_tag ≡ no_tag
    → tag < tag_count
    → get_elem? s.rings tag ≡ some q
    → IsValid q
    → TagCleared s tag q
unfolding tag_clear
tag_clear-TagCleared s tag q idle l g v =
    let d = cancel_loop-Canceled 256 q v (omega (arith, v.held)) in
    record {
      rs = d.rs;
      q' = d.q';
      returns =
          rw (lt→ltb tag tag_count l)
            (rw (flush_wait-idle s idle, tag_clear) (rw (g, tag_clear) (rw d.returns refl)));
      held = d.held;
      emptied = d.emptied;
      valid = d.valid;
    }

-- Replacing a ring by a valid one keeps each ring valid.
put_ring-IsReady :
    (s : State) (tag : ℕ) (q : Ring) → IsReady s → IsValid q → IsReady (put_ring s tag q)
put_ring-IsReady s tag q w v = record {
  rings = length-set s.rings tag q ∙ w.rings;
  each = λ u p g. elim (ℕ_discrete tag u) [
    | yes same ↦
        let room : u < length (set s.rings tag q) = get_elem?-some (set s.rings tag q) u p g in
        let here : get_elem? (set s.rings tag q) u ≡ some q =
          rw (← same)
            (get_elem?-set_self s.rings tag q (omega (arith, length-set s.rings tag q))) in
        let ring : q ≡ p = some_eq q p (sym here ∙ g) in rw (← ring) v
    | no other ↦ w.each u p (sym (get_elem?-set_ne s.rings tag u q other) ∙ g)
  ];
}

-- The tags below `tag` that a clearing loop has done with, and those that it has not.
record TagsCleared (n tag : ℕ) (s : State) : Type 0 where
  es : List Event
  s' : State
  returns : clear_tags n tag s ≡ some (es, s')
  ready : IsReady s'
  idle : s'.current_tag ≡ no_tag
  before : (t : ℕ) → t < tag → get_elem? s'.rings t ≡ get_elem? s.rings t
  emptied :
      (t : ℕ) (q : Ring) → tag ≤ t → t < tag + n → get_elem? s'.rings t ≡ some q → occupancy q ≡ 0

-- One tag, and then the tags behind it.
clear_tags_step :
    (n tag : ℕ) (s : State) (q' : Ring) (es : List Event)
    → tag_clear tag s ≡ some (es, put_ring s tag q')
    → occupancy q' ≡ 0
    → tag + suc n ≡ tag_count
    → length s.rings ≡ tag_count
    → TagsCleared n (tag + 1) (put_ring s tag q')
    → TagsCleared (suc n) tag s
unfolding clear_tags
clear_tags_step n tag s q' es h z e len t = record {
  es = es ++ t.es;
  s' = t.s';
  returns = rw (h, clear_tags) (rw t.returns refl);
  ready = t.ready;
  idle = t.idle;
  before = λ u l. t.before u (omega arith) ∙ get_elem?-set_ne s.rings tag u q' (omega arith);
  emptied = λ u p a b k. elim (dec_lt tag u) [
    | yes later ↦ t.emptied u p (omega arith) (omega arith) k
    | no not ↦
        let same : tag ≡ u = omega arith in
        let own : get_elem? t.s'.rings tag ≡ some q' =
          t.before tag (omega arith) ∙ get_elem?-set_self s.rings tag q' (omega arith) in
        let ring : q' ≡ p = some_eq q' p (sym own ∙ rw same k) in rw (← ring) z
  ];
}

clear_tags-TagsCleared :
    (n tag : ℕ) (s : State)
    → tag + n ≡ tag_count
    → s.current_tag ≡ no_tag
    → IsReady s
    → TagsCleared n tag s
unfolding clear_tags
clear_tags-TagsCleared zero tag s e idle w = record {
  es = [];
  s' = s;
  returns = refl;
  ready = w;
  idle = idle;
  before = λ t l. refl;
  emptied = λ t q a b g. absurd (omega arith);
}
clear_tags-TagsCleared (suc n) tag s e idle w =
    let (q, g) = get_elem?-lt s.rings tag (omega (arith, w.rings)) in
    let d = tag_clear-TagCleared s tag q idle (omega arith) g (w.each tag q g) in
    clear_tags_step n tag s d.q' _ d.returns d.emptied e w.rings (
      clear_tags-TagsCleared n (tag + 1) (put_ring s tag d.q') (omega arith) idle
        (put_ring-IsReady s tag d.q' w d.valid))

-- `dma_queue_clear`, when no flush is under way, returns with every tag empty, the CPU's mask as
-- it was and still no tag current.
pub clear-empties :
    (s : State)
    → s.current_tag ≡ no_tag
    → IsReady s
    → (es : List Event) × (s' : State) × (clear s ≡ some (es, s'))
      × IsReady s'
      × (s'.current_tag ≡ no_tag)
      × (s'.intc_mask ≡ s.intc_mask)
      × ((tag : ℕ) (q : Ring) → tag < tag_count → get_elem? s'.rings tag ≡ some q → occupancy q ≡ 0)
unfolding clear
clear-empties s idle w =
    let t =
      clear_tags-TagsCleared tag_count 0 (record s { intc_mask = 15 }) refl idle
        (record { rings = w.rings; each = w.each }) in
    (
      t.es,
      record t.s' { intc_mask = s.intc_mask },
      rw (t.returns, clear) refl,
      record { rings = t.ready.rings; each = t.ready.each },
      t.idle,
      refl,
      λ tag q l g. t.emptied tag q (omega arith) (omega arith) g,
    )
