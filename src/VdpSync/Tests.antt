-- ===== src/VdpSync/Tests.antt =====
-- scu/bus/b/vdp/vdp_sync.c in each mode, with the commit of the VDP2 state waiting in its queue.
use libyaul.Base.{ℕ, ◌≡◌, refl, true, false, List, [], ◌∷◌, ◌++◌, some, none, arith, replicate, set}
use libyaul.CallbackList.{CallbackList, unset}
use libyaul.DmaRing
use libyaul.DmaRing.{Ring}
use libyaul.DmaRing.Size.{occupancy, IsValid}
use libyaul.DmaQueue
use libyaul.VdpSync.{
  Interrupt, State, Action, calls, starts, writes, Mode, auto, variable, vblank_in, vblank_out,
  sprite_end, handle, handle_all, dma_call, has, changed, committed, fbcr, ptmr, vblank_in_handler,
  vblank_in_call, auto_vblank_in,
}
use libyaul.VdpSync.Frame.{same, advance, arrive}
use libyaul.VdpSync.Auto.{auto-changed}
use libyaul.VdpSync.Variable.{variable-changed}
use libyaul.VdpSync.Program.{vdp_sync, buffer, sync_put_call, round}
use libyaul.VdpSync.Program.Ends.{Ended, flatten}
use libyaul.VdpSync.Program.Returns.{pattern_of, loop-Ended}
use libyaul.VdpSync.Program.Sync.{Returned, vdp_sync-Returned}
use libyaul.VdpSync.Program.Stuck.{sync_commit, vdp_sync-sync_commit}
use libyaul.VdpSync.Program.Hang.{sync_put_call-hangs}
use libyaul.VdpSync.Program.Commit.{commit_request, round-commits}

abbrev table : DmaRing.Handle
table = record { dnr = 0x26000000; dnw = 0x25F80000; dnc = 0x120; dnad = 0x101; dnmd = 0 }

-- A ring that holds the first request alone.
abbrev queued : Ring
queued = record {
  requests = replicate 32 (commit_request table);
  head = 255;
  tail = 0;
  flush_tail = 255;
}

queued-IsValid : IsValid queued
queued-IsValid = ground arith

abbrev queues : DmaQueue.State
queues = record {
  rings = record queued { tail = 255 } ∷ queued ∷ record queued { tail = 255 } ∷ [];
  current_tag = 255;
  intc_mask = 0;
  scu_mask = 0xFFFF;
}

-- A state while a sync is requested.
abbrev state : Mode → ℕ → ℕ → ℕ → State
state mode flags vdp1_flags vdp2_flags = record {
  flags = flags;
  vdp1_flags = vdp1_flags;
  vdp2_flags = vdp2_flags;
  interval_mode = mode;
  fb_mode = 0;
  vdp1_callback = unset;
  vblank_in_callback = unset;
  vblank_out_callback = unset;
  user_callbacks = record { callbacks = replicate 4 unset; count = 4 };
  tvmr = 0;
  tvmd = 0x8000;
  dma = queues;
}

auto-changed_example :
    (out : List Action) × (s' : State) × (handle_all
        (sprite_end ∷ vblank_in ∷ vblank_out ∷ [])
        (dma_call (state auto 1 1 0)).1
      ≡ some (out, s'))
    × (has s'.vdp1_flags changed ≡ true)
unfolding arrive same advance
auto-changed_example =
    auto-changed (state auto 1 1 0) (sprite_end ∷ vblank_in ∷ vblank_out ∷ []) refl refl refl

variable-changed_example :
    (out : List Action) × (s' : State) × (handle_all
        (vblank_in ∷ sprite_end ∷ vblank_out ∷ [])
        (dma_call (state variable 1 1 0)).1
      ≡ some (out, s'))
    × (has s'.vdp1_flags changed ≡ false)
unfolding arrive same advance
variable-changed_example =
    variable-changed (state variable 1 1 0) (vblank_in ∷ sprite_end ∷ vblank_out ∷ []) refl refl
      refl

sync_put_call-hangs_example :
    sync_put_call (vblank_in ∷ sprite_end ∷ []) (buffer 0x6000000 4 0) (state auto 0 1 0) ≡ none
sync_put_call-hangs_example =
    sync_put_call-hangs (vblank_in ∷ sprite_end ∷ []) (buffer 0x6000000 4 0) (state auto 0 1 0)
      (λ e. cc) refl (omega arith) refl refl

-- The state after VBLANK-IN.
vblank_in_test :
    handle_all (vblank_in ∷ []) (state auto 1 9 0)
    ≡ some (writes fbcr 0 ∷ writes ptmr 0 ∷ writes ptmr 2 ∷ calls unset ∷ [], state auto 1 15 1)
unfolding handle_all handle vblank_in_handler vblank_in_call auto_vblank_in
vblank_in_test = refl

round-commits_example :
    (d : DmaQueue.State) × (q' : Ring) × (round (vblank_in ∷ []) (state auto 1 9 0)
      ≡ some (
        (writes fbcr 0 ∷ writes ptmr 0 ∷ writes ptmr 2 ∷ calls unset ∷ [])
            ++ (starts table ∷ [])
            ++ [],
        record (state auto 1 15 1) { vdp2_flags = committed; dma = d },
      ))
    × (d.current_tag ≡ DmaQueue.no_tag)
    × (d.rings ≡ set queues.rings 1 q')
    × (occupancy q' ≡ 0)
round-commits_example =
    round-commits (vblank_in ∷ []) (state auto 1 9 0) (state auto 1 15 1) _ queued table
      vblank_in_test refl refl refl queued-IsValid refl

-- Rounds of the loop, two of them without an interrupt.
abbrev rounds : List (List Interrupt)
rounds = [] ∷ (vblank_in ∷ []) ∷ [] ∷ (vblank_out ∷ sprite_end ∷ []) ∷ []

loop-Ended_example : Ended rounds (dma_call (state auto 1 1 0)).1
unfolding pattern_of flatten arrive same advance
loop-Ended_example =
    loop-Ended rounds (state auto 1 1 0) queued table (λ e. cc) refl refl refl refl refl
      queued-IsValid refl refl

-- The queues with no request in them.
abbrev no_requests : DmaQueue.State
no_requests = record queues {
  rings =
      record queued { tail = 255 }
      ∷ record queued { tail = 255 }
      ∷ record queued { tail = 255 }
      ∷ [];
}

-- Callbacks that leave their table alone.
abbrev leaves : ℕ → ℕ → CallbackList → CallbackList
leaves h work l = l

vdp_sync-Returned_example :
    Returned leaves
      (λ h work l. (refl, refl))
      table
      rounds
      (dma_call (record (state auto 0 1 0) { dma = no_requests })).1
unfolding pattern_of flatten arrive same advance
vdp_sync-Returned_example =
    vdp_sync-Returned leaves (λ h work l. (refl, refl)) rounds
      (record (state auto 0 1 0) { dma = no_requests }) (record queued { tail = 255 }) table
      (λ e. cc) (omega arith) refl refl refl refl (ground arith) refl
      (record { slots = refl; some_slots = omega arith; id_range = omega arith }) refl

vdp_sync-sync_commit_example :
    vdp_sync leaves table rounds
      (sync_commit (record (state variable 0 0 0) { dma = no_requests })).1
    ≡ none
vdp_sync-sync_commit_example =
    vdp_sync-sync_commit leaves table rounds (record (state variable 0 0 0) { dma = no_requests })
      (record queued { tail = 255 }) (omega arith) refl refl refl (ground arith) refl
