-- ===== src/VdpSync/Program/Commit.antt =====
-- scu/bus/b/vdp/vdp_sync.c: how the loop of `vdp_sync` commits the VDP2 state through the DMA queue.
use native.Mathlib.Decide.{dec_lt}
use libyaul.Base.{
  ℕ, ◌+◌, ◌<◌, ◌≡◌, refl, ap, ap₂, ◌∙◌, sym, true, List, [], ◌∷◌, ◌++◌, map, some, arith, get_elem?,
  set,
}
use libyaul.DmaRing
use libyaul.DmaRing.{Ring, Request, mark_processing, mark_complete}
use libyaul.DmaRing.Size.{occupancy, IsValid}
use libyaul.DmaRing.Refine.{pending, window, new_request}
use libyaul.DmaQueue
use libyaul.DmaQueue.Drain.{drain, started}
use libyaul.DmaQueue.Flush.{flush-Flushed}
use libyaul.VdpSync.{
  State, Action, starts, Interrupt, handle_all, has, with_bit, without, request_commit, committed,
  comitting, vdp2_dma_handler,
}
use libyaul.VdpSync.Program.{vdp2_handler, deliver, deliver_one, flush, flush_wait, round}

-- The request that `vdp_sync` enqueues.
abbrev pub commit_request : DmaRing.Handle → Request
commit_request h = new_request h vdp2_handler 0

-- A ring that holds that request alone.
abbrev HoldsCommit : Ring → DmaRing.Handle → Type 0
HoldsCommit q h = pending q ≡ some (commit_request h) ∷ []

alone : (r n : Request) (rs : List Request) → some n ∷ [] ≡ map some (r ∷ rs) → (r ≡ n) × (rs ≡ [])
alone r n [] e = (cc, refl)
alone r n (r' ∷ rs) e = absurd (cc)

-- What the events of that request's transfer do: first to start it, then to complete it.
deliver-started :
    (h : DmaRing.Handle) (s : State)
    → deliver (DmaQueue.call_of (started (commit_request h)) ∷ DmaQueue.starts h ∷ []) s
      ≡ (starts h ∷ [], s)
unfolding deliver deliver_one vdp2_dma_handler mark_processing mark_complete
deliver-started h s = refl

deliver-drain :
    (h : DmaRing.Handle) (s : State)
    → s.vdp2_flags ≡ comitting
    → deliver (drain (started (commit_request h)) []) s ≡ ([], record s { vdp2_flags = committed })
unfolding deliver deliver_one vdp2_dma_handler mark_processing mark_complete
deliver-drain h s e =
    ap (λ (f : ℕ). ([], record s { vdp2_flags = without (with_bit f committed) comitting })) e

holds_one : (q : Ring) (r : Request) → pending q ≡ some r ∷ [] → 0 < occupancy q
holds_one q r e = elim (dec_lt 0 (occupancy q)) [
  | yes l ↦ l
  | no n ↦
      let z : occupancy q ≡ 0 = omega arith in
      let m : [] ≡ some r ∷ [] = sym (ap (window q.requests (q.head + 1)) z) ∙ e in absurd (cc)
]

-- The flush of the tag, from outside.
record CommitFlushed (d : DmaQueue.State) (h : DmaRing.Handle) : Type 0 where
  d' : DmaQueue.State
  d'' : DmaQueue.State
  q' : Ring
  begins :
      DmaQueue.flush 1 d
      ≡ some (0, DmaQueue.call_of (started (commit_request h)) ∷ DmaQueue.starts h ∷ [], d')
  ends : DmaQueue.flush_wait d' ≡ some (drain (started (commit_request h)) [], d'')
  idle : d''.current_tag ≡ DmaQueue.no_tag
  left : d''.rings ≡ set d.rings 1 q'
  emptied : occupancy q' ≡ 0

flush-CommitFlushed :
    (d : DmaQueue.State) (q : Ring) (h : DmaRing.Handle)
    → d.current_tag ≡ DmaQueue.no_tag
    → get_elem? d.rings 1 ≡ some q
    → IsValid q
    → HoldsCommit q h
    → CommitFlushed d h
flush-CommitFlushed d q h i g v p =
    let f = flush-Flushed d 1 q i (omega arith) g v (holds_one q _ p) in
    let (e, n) = alone f.r (commit_request h) f.rs (sym p ∙ f.held) in
    record {
      d' = f.s';
      d'' = f.s'';
      q' = f.q';
      begins =
          f.begins
          ∙ ap
              (λ (r : Request).
                some (0, DmaQueue.call_of (started r) ∷ DmaQueue.starts r.handle ∷ [], f.s'))
              e;
      ends =
          f.ends
          ∙ ap₂ (λ (r : Request) (rs : List Request). some (drain (started r) rs, f.s'')) e n;
      idle = f.idle;
      left = f.left;
      emptied = f.emptied;
    }

flush_step :
    (h : DmaRing.Handle) (s : State) (d' : DmaQueue.State)
    → DmaQueue.flush 1 s.dma
      ≡ some (0, DmaQueue.call_of (started (commit_request h)) ∷ DmaQueue.starts h ∷ [], d')
    → flush 1 s ≡ some (starts h ∷ [], record s { dma = d' })
unfolding flush
flush_step h s d' e = rw (e, flush) (ap some (deliver-started h (record s { dma = d' })))

wait_step :
    (h : DmaRing.Handle) (s : State) (d' : DmaQueue.State)
    → s.vdp2_flags ≡ comitting
    → DmaQueue.flush_wait s.dma ≡ some (drain (started (commit_request h)) [], d')
    → flush_wait s ≡ some ([], record s { vdp2_flags = committed; dma = d' })
unfolding flush_wait
wait_step h s d' c e = rw (e, flush_wait) (ap some (deliver-drain h (record s { dma = d' }) c))

round_lem :
    (is : List Interrupt) (s s' s₁ s₂ : State) (out out₁ out₂ : List Action)
    → handle_all is s ≡ some (out, s')
    → has s'.vdp2_flags request_commit ≡ true
    → flush 1 (record s' { vdp2_flags = with_bit (without s'.vdp2_flags request_commit) comitting })
      ≡ some (out₁, s₁)
    → flush_wait s₁ ≡ some (out₂, s₂)
    → round is s ≡ some (out ++ out₁ ++ out₂, s₂)
unfolding round
round_lem is s s' s₁ s₂ out out₁ out₂ e r f w = rw (e, round) (rw r (rw f (rw w refl)))

-- A round of the loop of `vdp_sync` in which VBLANK-IN has requested a commit, while no flush is under
-- way and the tag holds the commit's request alone, starts that transfer and returns with the VDP2
-- state committed, the tag empty, no tag current and the VDP1's flags as the interrupts left them.
pub round-commits :
    (is : List Interrupt) (s s' : State) (out : List Action) (q : Ring) (h : DmaRing.Handle)
    → handle_all is s ≡ some (out, s')
    → s'.vdp2_flags ≡ request_commit
    → s'.dma.current_tag ≡ DmaQueue.no_tag
    → get_elem? s'.dma.rings 1 ≡ some q
    → IsValid q
    → pending q ≡ some (commit_request h) ∷ []
    → (d : DmaQueue.State) × (q' : Ring) × (round is s
        ≡ some (out ++ (starts h ∷ []) ++ [], record s' { vdp2_flags = committed; dma = d }))
      × (d.current_tag ≡ DmaQueue.no_tag)
      × (d.rings ≡ set s'.dma.rings 1 q')
      × (occupancy q' ≡ 0)
round-commits is s s' out q h e c i g v p =
    let f = flush-CommitFlushed s'.dma q h i g v p in
    let asked : State = record s' {
      vdp2_flags = with_bit (without s'.vdp2_flags request_commit) comitting;
    } in
    let now : asked.vdp2_flags ≡ comitting =
      ap (λ (f : ℕ). with_bit (without f request_commit) comitting) c in
    (
      f.d'',
      f.q',
      round_lem is s s' (record asked { dma = f.d' }) _ out (starts h ∷ []) [] e
          (ap (λ (f : ℕ). has f request_commit) c) (flush_step h asked f.d' f.begins)
          (wait_step h (record asked { dma = f.d' }) f.d'' now f.ends),
      f.idle,
      f.left,
      f.emptied,
    )
