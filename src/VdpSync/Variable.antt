-- ===== src/VdpSync/Variable.antt =====
-- scu/bus/b/vdp/vdp_sync.c: the mode `variable` between the transfer of a list and the change of the
-- frame buffers.
use mathlib.Core.List.{append-nil}
use libyaul.Base.{ℕ, ◌≡◌, refl, ap, ap₂, ◌∙◌, true, List, [], ◌∷◌, some}
use libyaul.VdpSync.{
  Interrupt, vblank_in, vblank_out, sprite_end, State, Action, Mode, variable, has, handle,
  handle_all, dma_call, changed, request_xfer_list, sync_requested, sprite_end_call, vblank_in_call,
  vblank_out_call, variable_vblank_in, variable_vblank_out, variable_sprite_end, variable_dma,
  rendering,
}
use libyaul.VdpSync.Frame.{
  same, advance, arrive, arrive-advance_all, asked, asked_all, state_at, handle_all-Phase,
  vblank_in-synced, vblank_out-synced,
}

-- The flags while these interrupts are still to come, in this order, until the frame buffers change.
pub data Phase : List Interrupt → ℕ → Type 0 where
  drawing : Phase (sprite_end ∷ vblank_in ∷ vblank_out ∷ []) 0x0B
  drawn : Phase (vblank_in ∷ vblank_out ∷ []) 0x19
  changing : Phase (vblank_out ∷ []) 0x1D
  done : Phase [] 0x39
  again : Phase [] 0x3D

-- One interrupt leaves a state of the same form.
pub step :
    (i : Interrupt) (ps : List Interrupt) (f v t : ℕ) (s : State)
    → has s.flags sync_requested ≡ true
    → Phase ps f
    → (out : List Action) × (f' t' : ℕ) × (handle i (state_at variable s f v t)
        ≡ some (out, state_at variable s f' (asked i v) t'))
      × Phase (advance i ps) f'
unfolding handle vblank_in_call vblank_out_call sprite_end_call variable_vblank_in asked
    variable_vblank_out variable_sprite_end rendering advance same
step vblank_in _ _ v t s h drawing =
    (_, _, _, vblank_in-synced (state_at variable s 0x0B v t) h, drawing)
step vblank_in _ _ v t s h drawn =
    (_, _, _, vblank_in-synced (state_at variable s 0x19 v t) h, changing)
step vblank_in _ _ v t s h changing =
    (_, _, _, vblank_in-synced (state_at variable s 0x1D v t) h, changing)
step vblank_in _ _ v t s h done =
    (_, _, _, vblank_in-synced (state_at variable s 0x39 v t) h, again)
step vblank_in _ _ v t s h again =
    (_, _, _, vblank_in-synced (state_at variable s 0x3D v t) h, again)
step vblank_out _ _ v t s h drawing =
    (_, _, _, ap some (vblank_out-synced (state_at variable s 0x0B v t) h), drawing)
step vblank_out _ _ v t s h drawn =
    (_, _, _, ap some (vblank_out-synced (state_at variable s 0x19 v t) h), drawn)
step vblank_out _ _ v t s h changing =
    (_, _, _, ap some (vblank_out-synced (state_at variable s 0x1D v t) h), done)
step vblank_out _ _ v t s h done =
    (_, _, _, ap some (vblank_out-synced (state_at variable s 0x39 v t) h), done)
step vblank_out _ _ v t s h again =
    (_, _, _, ap some (vblank_out-synced (state_at variable s 0x3D v t) h), done)
step sprite_end _ _ v t s h drawing = (_, _, _, refl, drawn)
step sprite_end _ _ v t s h drawn = (_, _, _, refl, drawn)
step sprite_end _ _ v t s h changing = (_, _, _, refl, changing)
step sprite_end _ _ v t s h done = (_, _, _, refl, done)
step sprite_end _ _ v t s h again = (_, _, _, refl, again)

pub ends : (ps : List Interrupt) (f : ℕ) → Phase ps f → has f changed ≡ arrive ps []
unfolding arrive
ends _ _ drawing = refl
ends _ _ drawn = refl
ends _ _ changing = refl
ends _ _ done = refl
ends _ _ again = refl

-- In the mode `variable`, while a sync is requested and once the DMA transfer of a list is complete,
-- the frame buffers have been changed after some interrupts exactly if among these were a sprite-end
-- interrupt, later a VBLANK-IN and later a VBLANK-OUT.
pub variable-changed :
    (s : State) (is : List Interrupt)
    → s.interval_mode ≡ variable
    → has s.flags sync_requested ≡ true
    → s.vdp1_flags ≡ request_xfer_list
    → (out : List Action) × (s' : State) × (handle_all is (dma_call s).1 ≡ some (out, s'))
      × (has s'.vdp1_flags changed ≡ arrive (sprite_end ∷ vblank_in ∷ vblank_out ∷ []) is)
unfolding dma_call variable_dma
variable-changed s is m h f =
    let (out, f', t', e, p) =
      handle_all-Phase variable Phase step is _ 0x0B s.vdp2_flags s.tvmr s h drawing in
    (
      out,
      state_at variable s f' (asked_all is s.vdp2_flags) t',
      ap (λ (x : State). handle_all is (dma_call x).1) (fields s m f) ∙ e,
      ends _ _ p
          ∙ arrive-advance_all is [] (sprite_end ∷ vblank_in ∷ vblank_out ∷ [])
          ∙ ap (arrive (sprite_end ∷ vblank_in ∷ vblank_out ∷ [])) (append-nil is),
    )
  where
    fields :
        (s : State)
        → s.interval_mode ≡ variable
        → s.vdp1_flags ≡ request_xfer_list
        → s ≡ record s { interval_mode = variable; vdp1_flags = request_xfer_list }
    fields s m f = ap₂ (λ (a : Mode) (b : ℕ). record s { interval_mode = a; vdp1_flags = b }) m f
