-- ===== src/VdpSync/Program/Sync.antt =====
-- scu/bus/b/vdp/vdp_sync.c: `vdp_sync` from its entry to its return.
use mathlib.Core.Path.{subst}
use libyaul.Base.{
  ℕ, ◌+◌, ◌/◌, ◌%◌, ◌<◌, ◌≡◌, ◌≢◌, refl, ap, ◌∙◌, sym, Bool, true, List, [], ◌∷◌, ◌++◌, map, some,
  ◌==◌, bit_and, bit_or, arith, get_elem?, set, get_elem?-set_self, get_elem?-some, Bool-cases, ◌⊎◌,
  inl, inr,
}
use libyaul.Base.Ranges.{all_below, all_below_sound}
use libyaul.CallbackList
use libyaul.CallbackList.{CallbackList, Invocation}
use libyaul.CallbackList.Process.{KeepsSize, process_total}
use libyaul.CallbackList.Add
use libyaul.DmaRing
use libyaul.DmaRing.{Ring}
use libyaul.DmaRing.Size.{IsValid, occupancy}
use libyaul.DmaRing.Refine.{pending, window}
use libyaul.DmaQueue
use libyaul.DmaQueue.{or_default}
use libyaul.DmaQueue.Enqueue.{enqueue-room}
use libyaul.DmaQueue.Flush.{flush_wait-idle}
use libyaul.VdpSync.{
  State, Action, Mode, auto, fixed, variable, Interrupt, dma_call, auto_dma, variable_dma, has,
  request_xfer_list, sync_requested,
}
use libyaul.VdpSync.Frame.{arrive}
use libyaul.VdpSync.Program.{
  vdp2_handler, flush_wait, deliver, enqueue, interlace, loop, invoked, vdp_sync, masked,
}
use libyaul.VdpSync.Program.Commit.{commit_request}
use libyaul.VdpSync.Program.Ends.{flatten, Ended}
use libyaul.VdpSync.Program.Returns.{pattern_of, loop-Ended}

-- The flags with which the loop starts.
abbrev pub sync_flags : ℕ → ℕ → ℕ
sync_flags flags tvmd = bit_or (bit_or (bit_and flags 0xF9) (interlace tvmd)) 1

-- Interlace bits `k` leave the request to synchronize.
requested : ℕ → ℕ → Bool
requested k f = has (bit_or (bit_or (bit_and f 0xF9) k) 1) sync_requested

interlace-cases : (tvmd : ℕ) → (interlace tvmd ≡ 0) ⊎ (interlace tvmd ≡ 2) ⊎ (interlace tvmd ≡ 4)
unfolding interlace
interlace-cases tvmd = elim (Bool-cases (tvmd / 64 % 4 == 2)) [
  | inl a ↦ inr (inl (rw a refl))
  | inr a ↦ elim (Bool-cases (tvmd / 64 % 4 == 3)) [
    | inl b ↦ inr (inr (rw a (rw b refl)))
    | inr b ↦ inl (rw a (rw b refl))
  ]
]

pub sync_flags-has :
    (flags tvmd : ℕ) → flags < 256 → has (sync_flags flags tvmd) sync_requested ≡ true
unfolding requested all_below
sync_flags-has flags tvmd l = elim (interlace-cases tvmd) [
  | inl e ↦ ap (λ (k : ℕ). requested k flags) e ∙ all_below_sound 256 (requested 0) flags refl l
  | inr (inl e) ↦
      ap (λ (k : ℕ). requested k flags) e ∙ all_below_sound 256 (requested 2) flags refl l
  | inr (inr e) ↦
      ap (λ (k : ℕ). requested k flags) e ∙ all_below_sound 256 (requested 4) flags refl l
]

pub flush_wait_nothing :
    (t : State) → t.dma.current_tag ≡ DmaQueue.no_tag → flush_wait t ≡ some ([], t)
unfolding flush_wait deliver
flush_wait_nothing t i = rw (flush_wait-idle t.dma i, flush_wait) refl

pub enqueue_lem :
    (h : DmaRing.Handle) (t : State) (d : DmaQueue.State)
    → DmaQueue.enqueue h 1 (some vdp2_handler) 0 t.dma ≡ some (0, d)
    → enqueue h 1 vdp2_handler t ≡ some (record t { dma = d })
unfolding enqueue
enqueue_lem h t d e = rw (e, enqueue) refl

-- The tag's ring with the request of the commit alone in it.
pub enqueue-commit :
    (h : DmaRing.Handle) (d : DmaQueue.State) (q : Ring)
    → get_elem? d.rings 1 ≡ some q
    → IsValid q
    → occupancy q ≡ 0
    → (q' : Ring) × (DmaQueue.enqueue h 1 (some vdp2_handler) 0 d
        ≡ some (0, record d { rings = set d.rings 1 q' }))
      × (get_elem? (set d.rings 1 q') 1 ≡ some q')
      × IsValid q'
      × (pending q' ≡ some (commit_request h) ∷ [])
unfolding or_default
enqueue-commit h d q g v z =
    let (q', e, p, w, f) = enqueue-room h 1 (some vdp2_handler) 0 d q g v (omega arith) in
    (
      q',
      e,
      get_elem?-set_self d.rings 1 q' (get_elem?-some d.rings 1 q g),
      w,
      p ∙ ap (λ (n : ℕ). window q.requests (q.head + 1) n ++ (some (commit_request h) ∷ [])) z,
    )

-- A valid table of callbacks.
abbrev pub Table : CallbackList → Type 0
Table l = Add.IsValid l

module _ (act : ℕ → ℕ → CallbackList → CallbackList) (keeps : KeepsSize act) where
  vdp_sync_lem :
      (h : DmaRing.Handle) (rounds : List (List Interrupt)) (t t' s' : State) (out : List Action)
      (called : List Invocation) (l : CallbackList)
      → flush_wait t ≡ some ([], t)
      → enqueue h 1 vdp2_handler (masked 15 t) ≡ some t'
      → loop rounds (masked 0 (record t' { flags = sync_flags t'.flags t'.tvmd })) ≡ some (out, s')
      → CallbackList.process act s'.user_callbacks true ≡ some (called, l)
      → vdp_sync act h rounds t
        ≡ some (
          [] ++ out ++ map invoked called,
          record s' {
            flags = bit_and s'.flags 0xF8;
            vdp1_flags = bit_and s'.vdp1_flags 0xC0;
            vdp2_flags = bit_and s'.vdp2_flags 0xF8;
            user_callbacks = l;
            dma = record s'.dma { intc_mask = t.dma.intc_mask };
          },
        )
  unfolding vdp_sync
  vdp_sync_lem h rounds t t' s' out called l a b c d = rw (a, vdp_sync) (rw b (rw c (rw d refl)))

  -- `vdp_sync` returns with the VDP2's flags clear, no DMA tag current, a valid callback table and
  -- the CPU's interrupt mask as before.
  pub record Returned (h : DmaRing.Handle) (rounds : List (List Interrupt)) (t : State)
      : Type 0 where
    pub out : List Action
    pub s' : State
    pub returns : vdp_sync act h rounds t ≡ some (out, s')
    pub clear : s'.vdp2_flags ≡ 0
    pub idle : s'.dma.current_tag ≡ DmaQueue.no_tag
    pub table : Table s'.user_callbacks
    pub mask : s'.dma.intc_mask ≡ t.dma.intc_mask

  returns_from :
      (h : DmaRing.Handle) (rounds : List (List Interrupt)) (t : State) (q : Ring)
      → t.dma.current_tag ≡ DmaQueue.no_tag
      → get_elem? t.dma.rings 1 ≡ some q
      → IsValid q
      → occupancy q ≡ 0
      → Table t.user_callbacks
      → ((d : DmaQueue.State) (q' : Ring)
          → d.current_tag ≡ DmaQueue.no_tag
          → get_elem? d.rings 1 ≡ some q'
          → IsValid q'
          → pending q' ≡ some (commit_request h) ∷ []
          → Ended rounds (record t { flags = sync_flags t.flags t.tvmd; dma = d }))
      → Returned h rounds t
  returns_from h rounds t q i g v z w ended =
      let (q', e, g', v', p) = enqueue-commit h (masked 15 t).dma q g v z in
      let d : DmaQueue.State = record t.dma { rings = set t.dma.rings 1 q'; intc_mask = 0 } in
      let x = ended d q' i g' v' p in
      let (called, l, c, n, w', u) =
        process_total act keeps x.s'.user_callbacks true (subst Table (sym x.kept) w) in
      record {
        out = [] ++ x.out ++ map invoked called;
        s' = record x.s' {
          flags = bit_and x.s'.flags 0xF8;
          vdp1_flags = bit_and x.s'.vdp1_flags 0xC0;
          vdp2_flags = bit_and x.s'.vdp2_flags 0xF8;
          user_callbacks = l;
          dma = record x.s'.dma { intc_mask = t.dma.intc_mask };
        };
        returns =
            vdp_sync_lem h rounds t (record t { dma = record d { intc_mask = 15 } }) x.s' x.out
              called l (flush_wait_nothing t i)
              (enqueue_lem h (masked 15 t) (record d { intc_mask = 15 }) e) x.returns c;
        clear = ap (λ (f : ℕ). bit_and f 0xF8) x.state;
        idle = x.idle;
        table = w';
        mask = refl;
      }

  -- `vdp_sync`, in the modes `auto` and `variable` and after the DMA transfer of a list is complete,
  -- returns if the interrupts that change the frame buffers in that mode arrive in order while it waits,
  -- spread over any rounds and among any others; the VDP2's flags are then clear, no DMA tag is current,
  -- the table of user callbacks is valid and the CPU's interrupt mask is as before. This is if the VDP2's flags are clear, no flush is under
  -- way, the tag for VBLANK-IN is empty, and the user callbacks keep the size of their table.
  pub vdp_sync-Returned :
      (rounds : List (List Interrupt)) (s : State) (q : Ring) (h : DmaRing.Handle)
      → s.interval_mode ≢ fixed
      → s.flags < 256
      → s.vdp1_flags ≡ request_xfer_list
      → s.vdp2_flags ≡ 0
      → s.dma.current_tag ≡ DmaQueue.no_tag
      → get_elem? s.dma.rings 1 ≡ some q
      → IsValid q
      → occupancy q ≡ 0
      → Table s.user_callbacks
      → arrive (pattern_of s.interval_mode) (flatten rounds) ≡ true
      → Returned h rounds (dma_call s).1
  unfolding dma_call auto_dma variable_dma
  vdp_sync-Returned rounds s q h n b x y i g v z w a = by_mode s.interval_mode refl
    where
      started : State → DmaQueue.State → State
      started s d = record s { flags = sync_flags s.flags s.tvmd; dma = d }

      ended :
          (d : DmaQueue.State) (q' : Ring)
          → d.current_tag ≡ DmaQueue.no_tag
          → get_elem? d.rings 1 ≡ some q'
          → IsValid q'
          → pending q' ≡ some (commit_request h) ∷ []
          → Ended rounds (dma_call (started s d)).1
      ended d q' j k u p =
          loop-Ended rounds (started s d) q' h n (sync_flags-has s.flags s.tvmd b) x y j k u p a

      with_mode : (m : Mode) → s.interval_mode ≡ m → s ≡ record s { interval_mode = m }
      with_mode m e = ap (λ (m : Mode). record s { interval_mode = m }) e

      by_mode : (m : Mode) → s.interval_mode ≡ m → Returned h rounds (dma_call s).1
      by_mode auto e =
          subst (λ (s : State). Returned h rounds (dma_call s).1) (sym (with_mode auto e))
            (returns_from h rounds _ q i g v z w (λ d q' j k u p.
              subst (λ (s : State). Ended rounds (dma_call (started s d)).1) (with_mode auto e)
                (ended d q' j k u p)))
      by_mode fixed e = absurd (n e)
      by_mode variable e =
          subst (λ (s : State). Returned h rounds (dma_call s).1) (sym (with_mode variable e))
            (returns_from h rounds _ q i g v z w (λ d q' j k u p.
              subst (λ (s : State). Ended rounds (dma_call (started s d)).1) (with_mode variable e)
                (ended d q' j k u p)))
