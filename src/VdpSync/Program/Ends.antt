-- ===== src/VdpSync/Program/Ends.antt =====
-- scu/bus/b/vdp/vdp_sync.c: the loop of `vdp_sync` comes to its end.
use libyaul.Base.{
  ℕ, ◌≡◌, ◌≢◌, refl, ◌∙◌, Bool, true, false, List, [], ◌∷◌, ◌++◌, some, ◌⊎◌, inl, inr, arith,
  ne→not-==,
}
use libyaul.DmaQueue
use libyaul.DmaQueue.Flush.{flush_wait-idle}
use libyaul.VdpSync.{
  State, Action, Interrupt, vblank_in, vblank_out, sprite_end, handle_all, has, request_commit,
  committed, changed,
}
use libyaul.VdpSync.Frame.{same, advance, advance_all, arrive, asked, asked_all}
use libyaul.VdpSync.Program.{flush_wait, deliver, round, finished, loop}

-- All interrupts of some rounds.
unfoldable pub flatten : List (List Interrupt) → List Interrupt
flatten [] = []
flatten (is ∷ rest) = is ++ flatten rest

-- Does a pattern still wait for VBLANK-IN?
unfoldable pub needs : List Interrupt → Bool
needs [] = false
needs (vblank_in ∷ ps) = true
needs (vblank_out ∷ ps) = needs ps
needs (sprite_end ∷ ps) = needs ps

pub needs-arrive : (ps : List Interrupt) → needs ps ≡ true → arrive ps [] ≡ false
unfolding needs arrive
needs-arrive [] n = cc
needs-arrive (p ∷ ps) n = refl

needs-advance :
    (i : Interrupt) (ps : List Interrupt)
    → needs ps ≡ true
    → (needs (advance i ps) ≡ true) ⊎ (i ≡ vblank_in)
unfolding needs advance same
needs-advance vblank_in ps n = inr refl
needs-advance vblank_out [] n = inl n
needs-advance vblank_out (vblank_in ∷ ps) n = inl n
needs-advance vblank_out (vblank_out ∷ ps) n = inl n
needs-advance vblank_out (sprite_end ∷ ps) n = inl n
needs-advance sprite_end [] n = inl n
needs-advance sprite_end (vblank_in ∷ ps) n = inl n
needs-advance sprite_end (vblank_out ∷ ps) n = inl n
needs-advance sprite_end (sprite_end ∷ ps) n = inl n

-- Flags that are not clear stay.
pub asked_all-set : (is : List Interrupt) (v : ℕ) → v ≢ 0 → asked_all is v ≡ v
unfolding asked_all asked
asked_all-set [] v n = refl
asked_all-set (vblank_in ∷ is) v n = rw (ne→not-== v 0 n) (asked_all-set is v n)
asked_all-set (vblank_out ∷ is) v n = asked_all-set is v n
asked_all-set (sprite_end ∷ is) v n = asked_all-set is v n

pub asked_all-clear :
    (is ps : List Interrupt)
    → needs ps ≡ true
    → ((asked_all is 0 ≡ 0) × (needs (advance_all is ps) ≡ true))
      ⊎ (asked_all is 0 ≡ request_commit)
unfolding asked_all asked advance_all
asked_all-clear [] ps n = inl (refl, n)
asked_all-clear (vblank_in ∷ is) ps n = inr (asked_all-set is request_commit (omega arith))
asked_all-clear (vblank_out ∷ is) ps n = elim (needs-advance vblank_out ps n) [
  | inl m ↦ asked_all-clear is (advance vblank_out ps) m
  | inr e ↦ absurd (cc)
]
asked_all-clear (sprite_end ∷ is) ps n = elim (needs-advance sprite_end ps n) [
  | inl m ↦ asked_all-clear is (advance sprite_end ps) m
  | inr e ↦ absurd (cc)
]

-- A round with nothing to commit and no flush under way is its interrupts.
pub round-quiet :
    (is : List Interrupt) (s s' : State) (out : List Action)
    → handle_all is s ≡ some (out, s')
    → has s'.vdp2_flags request_commit ≡ false
    → s'.dma.current_tag ≡ DmaQueue.no_tag
    → round is s ≡ some (out ++ [] ++ [], s')
unfolding round flush_wait deliver
round-quiet is s s' out e r i = rw (e, round) (rw r (rw (flush_wait-idle s'.dma i) refl))

pub loop-last :
    (is : List Interrupt) (rest : List (List Interrupt)) (s s' : State) (out : List Action)
    → round is s ≡ some (out, s')
    → finished s' ≡ true
    → loop (is ∷ rest) s ≡ some (out, s')
unfolding loop
loop-last is rest s s' out e f = rw (e, loop) (rw f refl)

loop-more :
    (is : List Interrupt) (rest : List (List Interrupt)) (s s' s'' : State) (out out' : List Action)
    → round is s ≡ some (out, s')
    → finished s' ≡ false
    → loop rest s' ≡ some (out', s'')
    → loop (is ∷ rest) s ≡ some (out ++ out', s'')
unfolding loop
loop-more is rest s s' s'' out out' e f l = rw (e, loop) (rw f (rw l refl))

-- The loop returns, with the frame buffers changed and the VDP2 state committed.
pub record Ended (rounds : List (List Interrupt)) (s : State) : Type 0 where
  pub out : List Action
  pub s' : State
  pub returns : loop rounds s ≡ some (out, s')
  pub frame : has s'.vdp1_flags changed ≡ true
  pub state : s'.vdp2_flags ≡ committed
  pub idle : s'.dma.current_tag ≡ DmaQueue.no_tag
  pub kept : s'.user_callbacks ≡ s.user_callbacks

pub Ended-more :
    (is : List Interrupt) (rest : List (List Interrupt)) (s s' : State) (out : List Action)
    → round is s ≡ some (out, s')
    → finished s' ≡ false
    → s'.user_callbacks ≡ s.user_callbacks
    → Ended rest s'
    → Ended (is ∷ rest) s
Ended-more is rest s s' out e f k d = record {
  out = out ++ d.out;
  s' = d.s';
  returns = loop-more is rest s s' d.s' out d.out e f d.returns;
  frame = d.frame;
  state = d.state;
  idle = d.idle;
  kept = d.kept ∙ k;
}
