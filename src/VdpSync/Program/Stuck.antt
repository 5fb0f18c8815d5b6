-- ===== src/VdpSync/Program/Stuck.antt =====
-- scu/bus/b/vdp/vdp_sync.c: `vdp2_sync_commit`, and the loop of `vdp_sync` after it.
use libyaul.Base.{
  ℕ, ◌≡◌, refl, ap, ◌∙◌, Bool, true, false, ◌&&◌, List, [], ◌∷◌, ◌++◌, none, some, ◌⊎◌, inl, inr,
  bit_or, Bool-cases, ◌<◌, get_elem?, set,
}
use libyaul.CallbackList.{CallbackList}
use libyaul.DmaRing
use libyaul.DmaRing.{Ring}
use libyaul.DmaRing.Size.{IsValid, occupancy}
use libyaul.DmaQueue
use libyaul.VdpSync.Program.Sync.{
  sync_flags, sync_flags-has, flush_wait_nothing, enqueue_lem, enqueue-commit,
}
use libyaul.VdpSync.{
  State, Action, writes, copies, back_screen, registers, tvmd, calls, tvmr, fbcr, ptmr, Mode, auto,
  fixed, variable, Interrupt, vblank_in, vblank_out, sprite_end, handle, handle_all, has, with_bit,
  without, sync_requested, request_xfer_list, list_xferred, request_commit_list, request_change,
  list_committed, changed, comitting, committed, vblank_in_call, vblank_out_call, sprite_end_call,
  auto_vblank_in, auto_vblank_out, auto_sprite_end, variable_vblank_in, variable_vblank_out,
  variable_sprite_end, rendering, erase_change, clear_vbe,
}
use libyaul.VdpSync.Frame.{asked, state_at, vblank_in-synced, vblank_out-synced, handle_all_step}
use libyaul.VdpSync.Program.{
  round, finished, loop, flush_wait, enqueue, vdp2_handler, vdp_sync, masked,
}
use libyaul.VdpSync.Program.Ends.{round-quiet}

-- `vdp2_sync_commit`, given the copies that its two transfers by the CPU-DMAC make: the back screen,
-- and the registers behind TVMD, which it writes before the second.
pub sync_commit : State → List Action × State
sync_commit s = (
  copies back_screen ∷ writes tvmd s.tvmd ∷ copies registers ∷ [],
  record s {
    vdp2_flags = with_bit (with_bit (without s.vdp2_flags committed) comitting) committed;
  },
)

-- An interrupt aborts, or changes no more than the flags and TVMR.
abbrev Outcome : Interrupt → Mode → ℕ → ℕ → ℕ → State → Type 0
Outcome i m f v t s =
    (handle i (state_at m s f v t) ≡ none)
    ⊎ ((out : List Action) × (f' t' : ℕ) × (handle i (state_at m s f v t)
          ≡ some (out, state_at m s f' (asked i v) t')))

vblank_in-auto :
    (f v t : ℕ) (s : State) → has s.flags sync_requested ≡ true → Outcome vblank_in auto f v t s
unfolding handle vblank_in_call auto_vblank_in asked
vblank_in-auto f v t s h = elim (Bool-cases (has f request_xfer_list)) [
  | inr a ↦ inr (
    calls s.vblank_in_callback ∷ [],
    f,
    t,
    vblank_in-synced (state_at auto s f v t) h ∙ rw a refl,
  )
  | inl a ↦ elim (Bool-cases (has f list_xferred)) [
    | inr b ↦ inl (vblank_in-synced (state_at auto s f v t) h ∙ rw a (rw b refl))
    | inl b ↦ inr (
      writes fbcr 0 ∷ writes ptmr 0 ∷ writes ptmr 2 ∷ calls s.vblank_in_callback ∷ [],
      with_bit (with_bit f request_commit_list) request_change,
      t,
      vblank_in-synced (state_at auto s f v t) h ∙ rw a (rw b refl),
    )
  ]
]

vblank_in-variable :
    (f v t : ℕ) (s : State) → has s.flags sync_requested ≡ true → Outcome vblank_in variable f v t s
unfolding handle vblank_in_call variable_vblank_in asked
vblank_in-variable f v t s h = elim (Bool-cases (has f list_committed)) [
  | inr a ↦ inr (
    calls s.vblank_in_callback ∷ [],
    f,
    t,
    vblank_in-synced (state_at variable s f v t) h ∙ rw a refl,
  )
  | inl a ↦ elim (Bool-cases (rendering f)) [
    | inl b ↦ inr (
      calls s.vblank_in_callback ∷ [],
      f,
      t,
      vblank_in-synced (state_at variable s f v t) h ∙ rw a (rw b refl),
    )
    | inr b ↦ inr (
      writes tvmr (bit_or t 8) ∷ writes fbcr 3 ∷ calls s.vblank_in_callback ∷ [],
      with_bit f request_change,
      bit_or t 8,
      vblank_in-synced (state_at variable s f v t) h ∙ rw a (rw b refl),
    )
  ]
]

vblank_out-auto :
    (f v t : ℕ) (s : State) → has s.flags sync_requested ≡ true → Outcome vblank_out auto f v t s
unfolding handle vblank_out_call auto_vblank_out asked
vblank_out-auto f v t s h = elim (Bool-cases (has f request_change)) [
  | inr a ↦ inr (
    calls s.vblank_out_callback ∷ [],
    f,
    t,
    ap some (vblank_out-synced (state_at auto s f v t) h) ∙ rw a refl,
  )
  | inl a ↦ inr (
    erase_change s.fb_mode ++ calls s.vblank_out_callback ∷ [],
    with_bit (with_bit (without f request_change) list_committed) changed,
    t,
    ap some (vblank_out-synced (state_at auto s f v t) h) ∙ rw a refl,
  )
]

vblank_out-variable :
    (f v t : ℕ) (s : State)
    → has s.flags sync_requested ≡ true
    → Outcome vblank_out variable f v t s
unfolding handle vblank_out_call variable_vblank_out asked
vblank_out-variable f v t s h = elim (Bool-cases (has f request_change)) [
  | inr a ↦ inr (
    calls s.vblank_out_callback ∷ [],
    f,
    t,
    ap some (vblank_out-synced (state_at variable s f v t) h) ∙ rw a refl,
  )
  | inl a ↦ inr (
    writes tvmr (clear_vbe t) ∷ calls s.vblank_out_callback ∷ [],
    with_bit (without f request_change) changed,
    clear_vbe t,
    ap some (vblank_out-synced (state_at variable s f v t) h) ∙ rw a refl,
  )
]

outcome :
    (i : Interrupt) (m : Mode) (f v t : ℕ) (s : State)
    → has s.flags sync_requested ≡ true
    → Outcome i m f v t s
unfolding handle vblank_in_call vblank_out_call sprite_end_call auto_sprite_end variable_sprite_end
    asked
outcome vblank_in auto f v t s h = vblank_in-auto f v t s h
outcome vblank_in fixed f v t s h = inr (_, f, t, vblank_in-synced (state_at fixed s f v t) h)
outcome vblank_in variable f v t s h = vblank_in-variable f v t s h
outcome vblank_out auto f v t s h = vblank_out-auto f v t s h
outcome vblank_out fixed f v t s h =
    inr (_, f, t, ap some (vblank_out-synced (state_at fixed s f v t) h))
outcome vblank_out variable f v t s h = vblank_out-variable f v t s h
outcome sprite_end auto f v t s h = inr (_, _, t, refl)
outcome sprite_end fixed f v t s h = inr (_, f, t, refl)
outcome sprite_end variable f v t s h = inr (_, _, t, refl)

asked_six : (i : Interrupt) → asked i 6 ≡ 6
unfolding asked
asked_six vblank_in = refl
asked_six vblank_out = refl
asked_six sprite_end = refl

handle_all_stops :
    (i : Interrupt) (is : List Interrupt) (s : State)
    → handle i s ≡ none
    → handle_all (i ∷ is) s ≡ none
unfolding handle_all
handle_all_stops i is s e = rw (e, handle_all) refl

handle_all_stops_later :
    (i : Interrupt) (is : List Interrupt) (s s' : State) (out : List Action)
    → handle i s ≡ some (out, s')
    → handle_all is s' ≡ none
    → handle_all (i ∷ is) s ≡ none
unfolding handle_all
handle_all_stops_later i is s s' out e n = rw (e, handle_all) (rw n refl)

-- The same for several interrupts, with the flags 6.
outcome_all :
    (is : List Interrupt) (m : Mode) (f t : ℕ) (s : State)
    → has s.flags sync_requested ≡ true
    → (handle_all is (state_at m s f 6 t) ≡ none)
      ⊎ ((out : List Action) × (f' t' : ℕ) × (handle_all is (state_at m s f 6 t)
            ≡ some (out, state_at m s f' 6 t')))
unfolding handle_all
outcome_all [] m f t s h = inr ([], f, t, refl)
outcome_all (i ∷ is) m f t s h = elim (outcome i m f 6 t s h) [
  | inl e ↦ inl (handle_all_stops i is _ e)
  | inr (out, f', t', e) ↦
      let e' = e ∙ ap (λ (v : ℕ). some (out, state_at m s f' v t')) (asked_six i) in
      elim (outcome_all is m f' t' s h) [
        | inl n ↦ inl (handle_all_stops_later i is _ _ out e' n)
        | inr (out', f'', t'', r) ↦
            inr (out ++ out', f'', t'', handle_all_step i is _ _ _ out out' e' r)
      ]
]

round_stops : (is : List Interrupt) (s : State) → handle_all is s ≡ none → round is s ≡ none
unfolding round
round_stops is s e = rw (e, round) refl

loop_stops :
    (is : List Interrupt) (rest : List (List Interrupt)) (s : State)
    → round is s ≡ none
    → loop (is ∷ rest) s ≡ none
unfolding loop
loop_stops is rest s e = rw (e, loop) refl

loop_goes_on :
    (is : List Interrupt) (rest : List (List Interrupt)) (s s' : State) (out : List Action)
    → round is s ≡ some (out, s')
    → finished s' ≡ false
    → loop rest s' ≡ none
    → loop (is ∷ rest) s ≡ none
unfolding loop
loop_goes_on is rest s s' out e f n = rw (e, loop) (rw f (rw n refl))

and_false : (b : Bool) → (b && false) ≡ false
and_false true = refl
and_false false = refl

finished-six : (m : Mode) (f t : ℕ) (s : State) → finished (state_at m s f 6 t) ≡ false
unfolding finished
finished-six m f t s = and_false _

pub loop-six :
    (rounds : List (List Interrupt)) (m : Mode) (f t : ℕ) (s : State)
    → has s.flags sync_requested ≡ true
    → s.dma.current_tag ≡ DmaQueue.no_tag
    → loop rounds (state_at m s f 6 t) ≡ none
unfolding loop
loop-six [] m f t s h i = refl
loop-six (is ∷ rest) m f t s h i = elim (outcome_all is m f t s h) [
  | inl e ↦ loop_stops is rest _ (round_stops is _ e)
  | inr (out, f', t', e) ↦
      loop_goes_on is rest _ _ _ (round-quiet is _ _ out e refl i) (finished-six m f' t' s)
        (loop-six rest m f' t' s h i)
]

vdp_sync_stops :
    (act : ℕ → ℕ → CallbackList → CallbackList) (h : DmaRing.Handle)
    (rounds : List (List Interrupt)) (t t' : State)
    → flush_wait t ≡ some ([], t)
    → enqueue h 1 vdp2_handler (masked 15 t) ≡ some t'
    → loop rounds (masked 0 (record t' { flags = sync_flags t'.flags t'.tvmd })) ≡ none
    → vdp_sync act h rounds t ≡ none
unfolding vdp_sync
vdp_sync_stops act h rounds t t' a b c = rw (a, vdp_sync) (rw b (rw c refl))

-- `vdp_sync` after `vdp2_sync_commit` at an idle VDP2 does not return, in any mode and whatever
-- interrupts arrive, if no flush is under way and the tag for VBLANK-IN is empty.
pub vdp_sync-sync_commit :
    (act : ℕ → ℕ → CallbackList → CallbackList) (h : DmaRing.Handle)
    (rounds : List (List Interrupt)) (s : State) (q : Ring)
    → s.flags < 256
    → s.vdp2_flags ≡ 0
    → s.dma.current_tag ≡ DmaQueue.no_tag
    → get_elem? s.dma.rings 1 ≡ some q
    → IsValid q
    → occupancy q ≡ 0
    → vdp_sync act h rounds (sync_commit s).1 ≡ none
unfolding sync_commit
vdp_sync-sync_commit act h rounds s q b y i g v z =
    let (q', e, g', v', p) = enqueue-commit h (record s.dma { intc_mask = 15 }) q g v z in
    let d : DmaQueue.State = record s.dma { rings = set s.dma.rings 1 q'; intc_mask = 15 } in
    let t : State = (sync_commit s).1 in
    vdp_sync_stops act h rounds t (record t { dma = d }) (flush_wait_nothing t i)
      (enqueue_lem h (masked 15 t) d e)
      (ap
          (λ (f : ℕ). loop rounds (record s {
            flags = sync_flags s.flags s.tvmd;
            dma = record d { intc_mask = 0 };
            vdp2_flags = with_bit (with_bit (without f committed) comitting) committed;
          }))
          y
        ∙ loop-six rounds s.interval_mode s.vdp1_flags s.tvmr
            (record s { flags = sync_flags s.flags s.tvmd; dma = record d { intc_mask = 0 } })
            (sync_flags-has s.flags s.tvmd b) i)
