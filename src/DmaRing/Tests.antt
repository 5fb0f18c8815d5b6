-- ===== src/DmaRing/Tests.antt =====
-- kernel/sys/dma-queue.c, the `_queue_*` functions at rings of 32 equal requests.
use libyaul.Base.{
  ℕ, ◌+◌, ◌^◌, ◌<◌, ◌≡◌, ◌↔◌, ◌-◌, refl, [], ◌∷◌, some, none, true, false, arith, replicate,
}
use libyaul.DmaRing.{
  Handle, user, Request, Ring, size, full, empty, put, dequeue, top, mark_processing, mark_canceled,
  mark_complete, init,
}
use libyaul.DmaRing.Size.{occupancy, IsValid, SignSplit, size_lem, full_lem}
use libyaul.DmaRing.Refine.{
  at_position, pending, new_request, put_refines, dequeue_refines, dequeue-empty,
}
use libyaul.DmaRing.Overrun.{put-overruns, put-overwrites-top}

abbrev pub some_handle : Handle
some_handle = record { dnr = 0x100; dnw = 0x200; dnc = 16; dnad = 0x101; dnmd = 0 }

abbrev pub blank : Request
blank = record { handle = some_handle; handler = user 1; status = 1; work = 0 }

-- A ring with the given positions.
abbrev pub ring_at : ℕ → ℕ → ℕ → Ring
ring_at h t f = record { requests = replicate 32 blank; head = h; tail = t; flush_tail = f }

pub two_held-IsValid : IsValid (ring_at 255 1 255)
two_held-IsValid = ground arith

none_held-IsValid : IsValid (ring_at 4 4 4)
none_held-IsValid = ground arith

split-IsValid : IsValid (ring_at 100 132 100)
split-IsValid = ground arith

almost_full-IsValid : IsValid (ring_at 0 31 0)
almost_full-IsValid = ground arith

size_lem_example :
    (((100 < 128) → 132 < 128) → size (ring_at 100 132 100) ≡ 32)
    × (SignSplit (ring_at 100 132 100) → size (ring_at 100 132 100) ≡ 2 ^ 32 - 256 + 32)
size_lem_example = size_lem (ring_at 100 132 100) split-IsValid

full_lem_example :
    (((100 < 128) → 132 < 128)
      → (full (ring_at 100 132 100) ≡ true) ↔ (occupancy (ring_at 100 132 100) ≡ 32))
    × (SignSplit (ring_at 100 132 100) → full (ring_at 100 132 100) ≡ false)
full_lem_example = full_lem (ring_at 100 132 100) split-IsValid

put_refines_example :
    (q' : Ring) × (put some_handle (user 7) 5 (ring_at 255 1 255) ≡ some q')
    × (pending q' ≡ some blank ∷ some blank ∷ some (new_request some_handle (user 7) 5) ∷ [])
    × IsValid q'
    × (q'.head ≡ 255)
    × (q'.flush_tail ≡ 255)
put_refines_example =
    put_refines some_handle (user 7) 5 (ring_at 255 1 255) two_held-IsValid (omega arith)

dequeue_refines_example :
    (r : Request) × (q' : Ring) × (dequeue (ring_at 255 1 255)
      ≡ some (record r { status = mark_processing r.status }, q'))
    × (pending (ring_at 255 1 255) ≡ some r ∷ pending q')
    × IsValid q'
    × (at_position q'.requests q'.head ≡ some (record r { status = mark_processing r.status }))
dequeue_refines_example = dequeue_refines (ring_at 255 1 255) two_held-IsValid (omega arith)

dequeue-empty_example : dequeue (ring_at 4 4 4) ≡ none
dequeue-empty_example = dequeue-empty (ring_at 4 4 4) none_held-IsValid refl

put-overruns_example :
    (q' : Ring) × (put some_handle (user 7) 5 (ring_at 100 132 100) ≡ some q')
    × (at_position q'.requests 101 ≡ some (new_request some_handle (user 7) 5))
    × (occupancy q' ≡ 33)
put-overruns_example =
    put-overruns some_handle (user 7) 5 (ring_at 100 132 100) split-IsValid refl (omega arith)

put-overwrites-top_example :
    (q' : Ring) × (put some_handle (user 7) 5 (ring_at 0 31 0) ≡ some q')
    × (top q' ≡ 0)
    × (at_position q'.requests (top q') ≡ some (new_request some_handle (user 7) 5))
put-overwrites-top_example =
    put-overwrites-top some_handle (user 7) 5 (ring_at 0 31 0) almost_full-IsValid refl

-- The marks that a request goes through.
marks :
    (mark_processing 0x01 ≡ 0x02)
    × (mark_complete (mark_processing 0x01) ≡ 0x08)
    × (mark_canceled (mark_processing 0x01) ≡ 0x06)
unfolding mark_processing mark_complete mark_canceled
marks = (refl, refl, refl)

fresh_empty : empty (init (replicate 32 blank)) ≡ true
unfolding init
fresh_empty = refl
