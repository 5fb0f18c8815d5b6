-- ===== src/VdpSync/Frame.antt =====
-- scu/bus/b/vdp/vdp_sync.c: which interrupts lead to a change of the frame buffers.
use libyaul.Base.{
  ℕ, ◌≡◌, refl, ◌∙◌, Bool, true, false, List, [], ◌∷◌, ◌++◌, none, some, ◌==◌, if◌then◌else◌,
}
use libyaul.VdpSync.{
  Interrupt, vblank_in, vblank_out, sprite_end, State, Action, Mode, handle, handle_all, calls, has,
  with_bit, sync_requested, request_commit, vblank_in_handler, vblank_out_handler, vblank_in_call,
  vblank_out_call,
}

unfoldable pub same : Interrupt → Interrupt → Bool
same vblank_in vblank_in = true
same vblank_out vblank_out = true
same sprite_end sprite_end = true
same _ _ = false

-- What is left of a pattern after an interrupt.
unfoldable pub advance : Interrupt → List Interrupt → List Interrupt
unfolding same
advance i [] = []
advance i (p ∷ ps) = if same i p then ps else p ∷ ps

-- Do the interrupts of a pattern arrive in its order, whatever else does?
unfoldable pub arrive : List Interrupt → List Interrupt → Bool
unfolding advance
arrive [] is = true
arrive (p ∷ ps) [] = false
arrive (p ∷ ps) (i ∷ is) = arrive (advance i (p ∷ ps)) is

arrive-advance :
    (i : Interrupt) (is ps : List Interrupt) → arrive (advance i ps) is ≡ arrive ps (i ∷ is)
unfolding advance arrive
arrive-advance i is [] = refl
arrive-advance i is (p ∷ ps) = refl

-- What the VBLANK handlers do while a sync is requested.
pub vblank_in-synced :
    (s : State)
    → has s.flags sync_requested ≡ true
    → vblank_in_handler s ≡ elim (vblank_in_call s) [
      | none ↦ none
      | some (out, s') ↦ some (
        out ++ calls s'.vblank_in_callback ∷ [],
        record s' {
          vdp2_flags =
              if s'.vdp2_flags == 0 then with_bit s'.vdp2_flags request_commit else s'.vdp2_flags;
        },
      )
    ]
unfolding vblank_in_handler
vblank_in-synced s h = rw h refl

pub vblank_out-synced :
    (s : State)
    → has s.flags sync_requested ≡ true
    → vblank_out_handler s ≡ (
      (vblank_out_call s).0 ++ calls (vblank_out_call s).1.vblank_out_callback ∷ [],
      (vblank_out_call s).1,
    )
unfolding vblank_out_handler
vblank_out-synced s h = rw h refl

-- What is left of a pattern after several interrupts.
unfoldable pub advance_all : List Interrupt → List Interrupt → List Interrupt
advance_all [] ps = ps
advance_all (i ∷ is) ps = advance_all is (advance i ps)

pub arrive-advance_all :
    (is js ps : List Interrupt) → arrive (advance_all is ps) js ≡ arrive ps (is ++ js)
unfolding advance_all
arrive-advance_all [] js ps = refl
arrive-advance_all (i ∷ is) js ps =
    arrive-advance_all is js (advance i ps) ∙ arrive-advance i (is ++ js) ps

-- The VDP2's flags after interrupts while a sync is requested.
unfoldable pub asked : Interrupt → ℕ → ℕ
asked vblank_in v = if v == 0 then with_bit v request_commit else v
asked vblank_out v = v
asked sprite_end v = v

unfoldable pub asked_all : List Interrupt → ℕ → ℕ
unfolding asked
asked_all [] v = v
asked_all (i ∷ is) v = asked_all is (asked i v)

abbrev pub state_at : Mode → State → ℕ → ℕ → ℕ → State
state_at mode s f v t = record s { interval_mode = mode; vdp1_flags = f; vdp2_flags = v; tvmr = t }

pub handle_all_step :
    (i : Interrupt) (is : List Interrupt) (s s' s'' : State) (out out' : List Action)
    → handle i s ≡ some (out, s')
    → handle_all is s' ≡ some (out', s'')
    → handle_all (i ∷ is) s ≡ some (out ++ out', s'')
unfolding handle_all
handle_all_step i is s s' s'' out out' e e' = rw (e, handle_all) (rw e' refl)

-- The phases of a mode: the flags while the interrupts of a pattern are still to come.
module _ (mode : Mode) (Phase : List Interrupt → ℕ → Type 0)
    (step : (i : Interrupt) (ps : List Interrupt) (f v t : ℕ) (s : State)
      → has s.flags sync_requested ≡ true
      → Phase ps f
      → (out : List Action) × (f' t' : ℕ) × (handle i (state_at mode s f v t)
          ≡ some (out, state_at mode s f' (asked i v) t'))
        × Phase (advance i ps) f') where
  pub handle_all-Phase :
      (is ps : List Interrupt) (f v t : ℕ) (s : State)
      → has s.flags sync_requested ≡ true
      → Phase ps f
      → (out : List Action) × (f' t' : ℕ) × (handle_all is (state_at mode s f v t)
          ≡ some (out, state_at mode s f' (asked_all is v) t'))
        × Phase (advance_all is ps) f'
  unfolding handle_all advance_all asked_all
  handle_all-Phase [] ps f v t s h p = ([], f, t, refl, p)
  handle_all-Phase (i ∷ is) ps f v t s h p =
      let (out, f', t', e, p') = step i ps f v t s h p in
      let (out', f'', t'', e', p'') = handle_all-Phase is (advance i ps) f' (asked i v) t' s h p' in
      (out ++ out', f'', t'', handle_all_step i is _ _ _ out out' e e', p'')
