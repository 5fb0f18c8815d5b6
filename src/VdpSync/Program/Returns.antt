-- ===== src/VdpSync/Program/Returns.antt =====
-- scu/bus/b/vdp/vdp_sync.c: the loop of `vdp_sync`, from the transfer of a list to the next frame.
use mathlib.Core.Path.{subst}
use libyaul.Base.{
  ℕ, ◌+◌, ◌≡◌, ◌≢◌, refl, ap, ap₂, ◌∙◌, sym, Bool, true, false, ◌&&◌, not, List, [], ◌∷◌, some, inl,
  inr, ◌==◌, bit_and, arith, get_elem?, Bool-cases,
}
use libyaul.DmaRing
use libyaul.DmaRing.{Ring}
use libyaul.DmaRing.Size.{IsValid}
use libyaul.DmaRing.Refine.{pending}
use libyaul.DmaQueue
use libyaul.VdpSync.{
  State, Action, Mode, auto, fixed, variable, Interrupt, vblank_in, vblank_out, sprite_end, handle,
  dma_call, has, sync_requested, request_xfer_list, request_commit, committed, changed, auto_dma,
  variable_dma,
}
use libyaul.VdpSync.Frame.{
  advance, advance_all, arrive, arrive-advance_all, asked, state_at, handle_all-Phase,
}
use libyaul.VdpSync.Auto
use libyaul.VdpSync.Variable
use libyaul.VdpSync.Program.{round, finished}
use libyaul.VdpSync.Program.Commit.{commit_request, round-commits}
use libyaul.VdpSync.Program.Ends.{
  flatten, needs, needs-arrive, asked_all-set, asked_all-clear, round-quiet, loop-last, Ended,
  Ended-more,
}

not-not : (b : Bool) → (not (not b) && true) ≡ b
not-not true = refl
not-not false = refl

and_false : (b : Bool) → (b && false) ≡ false
and_false true = refl
and_false false = refl

-- Is the test `vdp1_working` of the loop true?
abbrev working : ℕ → Bool
working f = bit_and f (request_xfer_list + changed) == request_xfer_list

module _ (mode : Mode) (Phase : List Interrupt → ℕ → Type 0)
    (step : (i : Interrupt) (ps : List Interrupt) (f v t : ℕ) (s : State)
      → has s.flags sync_requested ≡ true
      → Phase ps f
      → (out : List Action) × (f' t' : ℕ) × (handle i (state_at mode s f v t)
          ≡ some (out, state_at mode s f' (asked i v) t'))
        × Phase (advance i ps) f')
    (ends : (ps : List Interrupt) (f : ℕ) → Phase ps f → has f changed ≡ arrive ps [])
    (works : (ps : List Interrupt) (f : ℕ) → Phase ps f → working f ≡ not (arrive ps [])) where
  finished-committed :
      (ps : List Interrupt) (f t : ℕ) (s : State)
      → Phase ps f
      → finished (state_at mode s f committed t) ≡ arrive ps []
  unfolding finished
  finished-committed ps f t s p = rw (works ps f p) (not-not (arrive ps []))

  finished-clear : (f t : ℕ) (s : State) → finished (state_at mode s f 0 t) ≡ false
  unfolding finished
  finished-clear f t s = and_false (not (working f))

  -- A round that ends with the VDP2 state committed: the loop ends with it, or goes on.
  settle :
      (is : List Interrupt) (rest : List (List Interrupt)) (ps : List Interrupt) (f t : ℕ)
      (st s : State) (out : List Action)
      → round is st ≡ some (out, state_at mode s f committed t)
      → s.dma.current_tag ≡ DmaQueue.no_tag
      → s.user_callbacks ≡ st.user_callbacks
      → Phase ps f
      → (arrive ps [] ≡ false → Ended rest (state_at mode s f committed t))
      → Ended (is ∷ rest) st
  settle is rest ps f t st s out r i k p next = elim (Bool-cases (arrive ps [])) [
    | inl y ↦ record {
      out = out;
      s' = state_at mode s f committed t;
      returns = loop-last is rest st _ out r (finished-committed ps f t s p ∙ y);
      frame = ends ps f p ∙ y;
      state = refl;
      idle = i;
      kept = k;
    }
    | inr n ↦ Ended-more is rest st _ out r (finished-committed ps f t s p ∙ n) k (next n)
  ]

  after :
      (rounds : List (List Interrupt)) (ps : List Interrupt) (f t : ℕ) (s : State)
      → has s.flags sync_requested ≡ true
      → s.dma.current_tag ≡ DmaQueue.no_tag
      → Phase ps f
      → arrive ps [] ≡ false
      → arrive ps (flatten rounds) ≡ true
      → Ended rounds (state_at mode s f committed t)
  unfolding flatten
  after [] ps f t s h i p n a = absurd (cc)
  after (is ∷ rest) ps f t s h i p n a =
      let (out, f', t', e, p') = handle_all-Phase mode Phase step is ps f committed t s h p in
      let e' =
        e
        ∙ ap (λ (v : ℕ). some (out, state_at mode s f' v t'))
            (asked_all-set is committed (omega arith)) in
      settle is rest (advance_all is ps) f' t' _ s _ (round-quiet is _ _ out e' refl i) i refl p'
        (λ m.
          after rest (advance_all is ps) f' t' s h i p' m
            (arrive-advance_all is (flatten rest) ps ∙ a))

  before :
      (rounds : List (List Interrupt)) (ps : List Interrupt) (f t : ℕ) (s : State) (q : Ring)
      (commit : DmaRing.Handle)
      → has s.flags sync_requested ≡ true
      → s.dma.current_tag ≡ DmaQueue.no_tag
      → get_elem? s.dma.rings 1 ≡ some q
      → IsValid q
      → pending q ≡ some (commit_request commit) ∷ []
      → Phase ps f
      → needs ps ≡ true
      → arrive ps (flatten rounds) ≡ true
      → Ended rounds (state_at mode s f 0 t)
  unfolding flatten
  before [] ps f t s q c h i g v w p n a = let m = needs-arrive ps n in absurd (cc)
  before (is ∷ rest) ps f t s q c h i g v w p n a =
      let (out, f', t', e, p') = handle_all-Phase mode Phase step is ps f 0 t s h p in
      let a' = arrive-advance_all is (flatten rest) ps ∙ a in
      elim (asked_all-clear is ps n) [
        | inl (z, n') ↦
            Ended-more is rest _ _ _
              (round-quiet is _ _ out (e ∙ ap (λ (v : ℕ). some (out, state_at mode s f' v t')) z)
                refl i)
              (finished-clear f' t' s) refl
              (before rest (advance_all is ps) f' t' s q c h i g v w p' n' a')
        | inr z ↦
            let (d, q', r, i', l, z') =
              round-commits is _ (state_at mode s f' request_commit t') out q c
                (e ∙ ap (λ (v : ℕ). some (out, state_at mode s f' v t')) z) refl i g v w in
            settle is rest (advance_all is ps) f' t' _ (record s { dma = d }) _ r i' refl p'
              (λ m. after rest (advance_all is ps) f' t' (record s { dma = d }) h i' p' m a')
      ]

auto_works : (ps : List Interrupt) (f : ℕ) → Auto.Phase ps f → working f ≡ not (arrive ps [])
unfolding arrive
auto_works _ _ Auto.sent = refl
auto_works _ _ Auto.drawn = refl
auto_works _ _ Auto.changing = refl
auto_works _ _ Auto.ready = refl
auto_works _ _ Auto.done = refl
auto_works _ _ Auto.again = refl

variable_works :
    (ps : List Interrupt) (f : ℕ) → Variable.Phase ps f → working f ≡ not (arrive ps [])
unfolding arrive
variable_works _ _ Variable.drawing = refl
variable_works _ _ Variable.drawn = refl
variable_works _ _ Variable.changing = refl
variable_works _ _ Variable.done = refl
variable_works _ _ Variable.again = refl

-- The interrupts that change the frame buffers, in their order.
unfoldable pub pattern_of : Mode → List Interrupt
pattern_of auto = vblank_in ∷ vblank_out ∷ []
pattern_of fixed = []
pattern_of variable = sprite_end ∷ vblank_in ∷ vblank_out ∷ []

-- In the modes `auto` and `variable`, once the DMA transfer of a list is complete, the loop of
-- `vdp_sync` returns if the interrupts that change the frame buffers in that mode arrive in order,
-- spread over any rounds and among any others: with the frame buffers changed, the VDP2 state committed
-- and no DMA tag current. This is while a sync is requested, the VDP2's flags are clear, no flush is
-- under way, and the request of the commit is the only one of its tag.
pub loop-Ended :
    (rounds : List (List Interrupt)) (s : State) (q : Ring) (commit : DmaRing.Handle)
    → s.interval_mode ≢ fixed
    → has s.flags sync_requested ≡ true
    → s.vdp1_flags ≡ request_xfer_list
    → s.vdp2_flags ≡ 0
    → s.dma.current_tag ≡ DmaQueue.no_tag
    → get_elem? s.dma.rings 1 ≡ some q
    → IsValid q
    → pending q ≡ some (commit_request commit) ∷ []
    → arrive (pattern_of s.interval_mode) (flatten rounds) ≡ true
    → Ended rounds (dma_call s).1
unfolding dma_call auto_dma variable_dma pattern_of needs
loop-Ended rounds s q c n h x y i g v w a = by_mode s.interval_mode refl
  where
    fields : (m : Mode) → s.interval_mode ≡ m → s ≡ state_at m s request_xfer_list 0 s.tvmr
    fields m e =
        ap₂ (λ (m : Mode) (f : ℕ × ℕ). state_at m s f.0 f.1 s.tvmr) e
          (ap₂ (λ (f v : ℕ). (f, v)) x y)

    by_mode : (m : Mode) → s.interval_mode ≡ m → Ended rounds (dma_call s).1
    by_mode auto e =
        subst (λ (z : State). Ended rounds (dma_call z).1) (sym (fields auto e))
          (before auto Auto.Phase Auto.step Auto.ends auto_works rounds _ 0x09 s.tvmr s q c h i g v
            w Auto.sent refl
            (sym (ap (λ (m : Mode). arrive (pattern_of m) (flatten rounds)) e) ∙ a))
    by_mode fixed e = absurd (n e)
    by_mode variable e =
        subst (λ (z : State). Ended rounds (dma_call z).1) (sym (fields variable e))
          (before variable Variable.Phase Variable.step Variable.ends variable_works rounds _ 0x0B
            s.tvmr s q c h i g v w Variable.drawing refl
            (sym (ap (λ (m : Mode). arrive (pattern_of m) (flatten rounds)) e) ∙ a))
