-- ===== src/VdpSync/Auto.antt =====
-- scu/bus/b/vdp/vdp_sync.c: the mode `auto` between the transfer of a list and the change of the
-- frame buffers.
use mathlib.Core.List.{append-nil}
use libyaul.Base.{ℕ, ◌≡◌, refl, ap, ap₂, ◌∙◌, true, List, [], ◌∷◌, some}
use libyaul.VdpSync.{
  Interrupt, vblank_in, vblank_out, sprite_end, State, Action, Mode, auto, has, handle, handle_all,
  dma_call, changed, request_xfer_list, sync_requested, sprite_end_call, vblank_in_call,
  vblank_out_call, auto_vblank_in, auto_vblank_out, auto_sprite_end, auto_dma, erase_change,
}
use libyaul.VdpSync.Frame.{
  same, advance, arrive, arrive-advance_all, asked, asked_all, state_at, handle_all-Phase,
  vblank_in-synced, vblank_out-synced,
}

-- The flags while these interrupts are still to come, in this order, until the frame buffers change.
pub data Phase : List Interrupt → ℕ → Type 0 where
  sent : Phase (vblank_in ∷ vblank_out ∷ []) 0x09
  drawn : Phase (vblank_in ∷ vblank_out ∷ []) 0x19
  changing : Phase (vblank_out ∷ []) 0x0F
  ready : Phase (vblank_out ∷ []) 0x1F
  done : Phase [] 0x3B
  again : Phase [] 0x3F

-- One interrupt leaves a state of the same form.
pub step :
    (i : Interrupt) (ps : List Interrupt) (f v t : ℕ) (s : State)
    → has s.flags sync_requested ≡ true
    → Phase ps f
    → (out : List Action) × (f' t' : ℕ) × (handle i (state_at auto s f v t)
        ≡ some (out, state_at auto s f' (asked i v) t'))
      × Phase (advance i ps) f'
unfolding handle vblank_in_call vblank_out_call sprite_end_call auto_vblank_in auto_vblank_out asked
    auto_sprite_end erase_change advance same
step vblank_in _ _ v t s h sent = (_, _, _, vblank_in-synced (state_at auto s 0x09 v t) h, changing)
step vblank_in _ _ v t s h drawn = (_, _, _, vblank_in-synced (state_at auto s 0x19 v t) h, ready)
step vblank_in _ _ v t s h changing =
    (_, _, _, vblank_in-synced (state_at auto s 0x0F v t) h, changing)
step vblank_in _ _ v t s h ready = (_, _, _, vblank_in-synced (state_at auto s 0x1F v t) h, ready)
step vblank_in _ _ v t s h done = (_, _, _, vblank_in-synced (state_at auto s 0x3B v t) h, again)
step vblank_in _ _ v t s h again = (_, _, _, vblank_in-synced (state_at auto s 0x3F v t) h, again)
step vblank_out _ _ v t s h sent =
    (_, _, _, ap some (vblank_out-synced (state_at auto s 0x09 v t) h), sent)
step vblank_out _ _ v t s h drawn =
    (_, _, _, ap some (vblank_out-synced (state_at auto s 0x19 v t) h), drawn)
step vblank_out _ _ v t s h changing =
    (_, _, _, ap some (vblank_out-synced (state_at auto s 0x0F v t) h), done)
step vblank_out _ _ v t s h ready =
    (_, _, _, ap some (vblank_out-synced (state_at auto s 0x1F v t) h), done)
step vblank_out _ _ v t s h done =
    (_, _, _, ap some (vblank_out-synced (state_at auto s 0x3B v t) h), done)
step vblank_out _ _ v t s h again =
    (_, _, _, ap some (vblank_out-synced (state_at auto s 0x3F v t) h), done)
step sprite_end _ _ v t s h sent = (_, _, _, refl, drawn)
step sprite_end _ _ v t s h drawn = (_, _, _, refl, drawn)
step sprite_end _ _ v t s h changing = (_, _, _, refl, ready)
step sprite_end _ _ v t s h ready = (_, _, _, refl, ready)
step sprite_end _ _ v t s h done = (_, _, _, refl, done)
step sprite_end _ _ v t s h again = (_, _, _, refl, again)

pub ends : (ps : List Interrupt) (f : ℕ) → Phase ps f → has f changed ≡ arrive ps []
unfolding arrive
ends _ _ sent = refl
ends _ _ drawn = refl
ends _ _ changing = refl
ends _ _ ready = refl
ends _ _ done = refl
ends _ _ again = refl

-- In the mode `auto`, while a sync is requested and once the DMA transfer of a list is complete, no
-- interrupt aborts, and the frame buffers have been changed after some interrupts exactly if among
-- these were a VBLANK-IN and later a VBLANK-OUT.
pub auto-changed :
    (s : State) (is : List Interrupt)
    → s.interval_mode ≡ auto
    → has s.flags sync_requested ≡ true
    → s.vdp1_flags ≡ request_xfer_list
    → (out : List Action) × (s' : State) × (handle_all is (dma_call s).1 ≡ some (out, s'))
      × (has s'.vdp1_flags changed ≡ arrive (vblank_in ∷ vblank_out ∷ []) is)
unfolding dma_call auto_dma
auto-changed s is m h f =
    let (out, f', t', e, p) =
      handle_all-Phase auto Phase step is _ 0x09 s.vdp2_flags s.tvmr s h sent in
    (
      out,
      state_at auto s f' (asked_all is s.vdp2_flags) t',
      ap (λ (x : State). handle_all is (dma_call x).1) (fields s m f) ∙ e,
      ends _ _ p
          ∙ arrive-advance_all is [] (vblank_in ∷ vblank_out ∷ [])
          ∙ ap (arrive (vblank_in ∷ vblank_out ∷ [])) (append-nil is),
    )
  where
    fields :
        (s : State)
        → s.interval_mode ≡ auto
        → s.vdp1_flags ≡ request_xfer_list
        → s ≡ record s { interval_mode = auto; vdp1_flags = request_xfer_list }
    fields s m f = ap₂ (λ (a : Mode) (b : ℕ). record s { interval_mode = a; vdp1_flags = b }) m f
