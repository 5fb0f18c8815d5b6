-- ===== src/DmaQueue/Tests.antt =====
-- kernel/sys/dma-queue.c at three small queues.
use libyaul.Base.{
  ℕ, zero, suc, ◌-◌, ◌^◌, ◌<◌, ◌≡◌, refl, List, [], ◌∷◌, some, none, arith, replicate, get_elem?,
  some_eq,
}
use libyaul.DmaRing.{Handle, user, Request, Ring}
use libyaul.DmaRing.Size.{occupancy, IsValid}
use libyaul.DmaRing.Refine.{pending, new_request}
use libyaul.DmaQueue.{
  State, Event, waits, starts, calls, no_tag, tag_count, or_default, flush, flush_wait, tag_clear,
  clear,
}
use libyaul.DmaQueue
use libyaul.DmaQueue.Enqueue.{IsReady, enqueue-room, enqueue-full}
use libyaul.DmaQueue.Drain.{Flushing, Drained, flush_wait-Drained}
use libyaul.DmaQueue.Flush.{Flushed, flush-empty, flush-Flushed}
use libyaul.DmaQueue.Clear.{TagCleared, tag_clear-TagCleared, clear-empties}

abbrev some_handle : Handle
some_handle = record { dnr = 0x100; dnw = 0x200; dnc = 16; dnad = 0x101; dnmd = 0 }

abbrev blank : Request
blank = record { handle = some_handle; handler = user 1; status = 1; work = 0 }

abbrev ring_at : ℕ → ℕ → ℕ → Ring
ring_at h t f = record { requests = replicate 32 blank; head = h; tail = t; flush_tail = f }

-- Two requests at tag 0, none at tag 1, a full ring at tag 2.
abbrev idle_state : State
idle_state = record {
  rings = ring_at 255 1 255 ∷ ring_at 4 4 4 ∷ ring_at 0 32 0 ∷ [];
  current_tag = 255;
  intc_mask = 3;
  scu_mask = 0xFFFFFFFF;
}

-- One request of tag 0 is being transferred, and one is to follow.
abbrev busy_state : State
busy_state = record idle_state {
  rings = ring_at 0 1 1 ∷ ring_at 4 4 4 ∷ ring_at 0 32 0 ∷ [];
  current_tag = 0;
}

two_held-IsValid : IsValid (ring_at 255 1 255)
two_held-IsValid = ground arith

none_held-IsValid : IsValid (ring_at 4 4 4)
none_held-IsValid = ground arith

full_ring-IsValid : IsValid (ring_at 0 32 0)
full_ring-IsValid = ground arith

idle_state-IsReady : IsReady idle_state
idle_state-IsReady = record { rings = refl; each = each }
  where
    each : (tag : ℕ) (q : Ring) → get_elem? idle_state.rings tag ≡ some q → IsValid q
    each zero q g = rw (← some_eq (ring_at 255 1 255) q g) two_held-IsValid
    each (suc zero) q g = rw (← some_eq (ring_at 4 4 4) q g) none_held-IsValid
    each (suc (suc zero)) q g = rw (← some_eq (ring_at 0 32 0) q g) full_ring-IsValid
    each (suc (suc (suc tag))) q g = absurd (cc)

busy_state-Flushing : Flushing busy_state (ring_at 0 1 1) blank
busy_state-Flushing = record {
  tagged = omega arith;
  current = refl;
  ring = ground arith;
  running = refl;
}

enqueue-room_example :
    (q' : Ring) × (DmaQueue.enqueue some_handle 1 none 5 idle_state
      ≡ some (0, record idle_state { rings = ring_at 255 1 255 ∷ q' ∷ ring_at 0 32 0 ∷ [] }))
    × (pending q' ≡ some (new_request some_handle (or_default none) 5) ∷ [])
    × IsValid q'
    × (q'.flush_tail ≡ 4)
enqueue-room_example =
    enqueue-room some_handle 1 none 5 idle_state (ring_at 4 4 4) refl none_held-IsValid
      (omega arith)

enqueue-full_example : DmaQueue.enqueue some_handle 2 none 5 idle_state ≡ some (255, idle_state)
enqueue-full_example =
    enqueue-full some_handle 2 none 5 idle_state (ring_at 0 32 0) refl full_ring-IsValid refl
      (λ h. omega arith)

flush_wait-Drained_example : Drained busy_state (ring_at 0 1 1) blank (flush_wait busy_state)
flush_wait-Drained_example = flush_wait-Drained busy_state (ring_at 0 1 1) blank busy_state-Flushing

flush-empty_example : flush 1 idle_state ≡ some (2 ^ 32 - 1, [], idle_state)
flush-empty_example =
    flush-empty idle_state 1 (ring_at 4 4 4) refl (omega arith) refl none_held-IsValid refl

flush-Flushed_example : Flushed idle_state 0 (ring_at 255 1 255)
flush-Flushed_example =
    flush-Flushed idle_state 0 (ring_at 255 1 255) refl (omega arith) refl two_held-IsValid
      (omega arith)

tag_clear-TagCleared_example : TagCleared idle_state 0 (ring_at 255 1 255)
tag_clear-TagCleared_example =
    tag_clear-TagCleared idle_state 0 (ring_at 255 1 255) refl (omega arith) refl two_held-IsValid

clear-empties_example :
    (es : List Event) × (s' : State) × (clear idle_state ≡ some (es, s'))
    × IsReady s'
    × (s'.current_tag ≡ 255)
    × (s'.intc_mask ≡ 3)
    × ((tag : ℕ) (q : Ring) → tag < 3 → get_elem? s'.rings tag ≡ some q → occupancy q ≡ 0)
clear-empties_example = clear-empties idle_state refl idle_state-IsReady
