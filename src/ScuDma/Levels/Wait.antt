-- ===== src/ScuDma/Levels/Wait.antt =====
-- scu/scu_dma.c: when a wait returns, and which level is unused.
use libyaul.Base.{
  ℕ, ◌≡◌, ◌≢◌, refl, ap, ◌∙◌, Bool, true, false, ◌||◌, not, List, [], ◌∷◌, Option, none, some, ◌==◌,
  if◌then◌else◌, arith, Bool-cases, inl, inr,
}
use libyaul.ScuDma.Levels.{
  Level, level0, level1, level2, Event, State, at, set_working, busy, end_handler, interrupted,
  Round, Outcome, before, wait, unused_get,
}

unfoldable pub same_level : Level → Level → Bool
same_level level0 level0 = true
same_level level1 level1 = true
same_level level2 level2 = true
same_level _ _ = false

-- Whether the end of the level is among some interrupts.
unfoldable pub arrives : Level → List Level → Bool
unfolding same_level
arrives level [] = false
arrives level (l ∷ ls) = same_level level l || arrives level ls

-- Whether a round ends the wait for a level that works.
unfoldable pub freed : Level → List Round → Bool
unfolding arrives busy
freed level [] = false
freed level (r ∷ rs) = (arrives level r.arrived || (busy level r.dsta == 0)) || freed level rs

unfoldable pub returned : Option Outcome → Bool
returned none = false
returned (some o) = true

-- An end handler ends its own level only.
working-set :
    (level l : Level) (s : State)
    → (at level (set_working l false s)).working
      ≡ (if same_level level l then false else (at level s).working)
unfolding same_level
working-set level0 level0 s = refl
working-set level0 level1 s = refl
working-set level0 level2 s = refl
working-set level1 level0 s = refl
working-set level1 level1 s = refl
working-set level1 level2 s = refl
working-set level2 level0 s = refl
working-set level2 level1 s = refl
working-set level2 level2 s = refl

either :
    (a b w : Bool) → (if b then false else (if a then false else w)) ≡ (if a || b then false else w)
either true true w = refl
either true false w = refl
either false true w = refl
either false false w = refl

pub working-interrupted :
    (level : Level) (ls : List Level) (s : State)
    → (at level (interrupted ls s).0).working
      ≡ (if arrives level ls then false else (at level s).working)
unfolding interrupted arrives end_handler
working-interrupted level [] s = refl
working-interrupted level (l ∷ ls) s =
    working-interrupted level ls (set_working l false s)
    ∙ ap (λ (w : Bool). if arrives level ls then false else w) (working-set level l s)
    ∙ either (same_level level l) (arrives level ls) (at level s).working

returned-before : (es : List Event) (o : Option Outcome) → returned (before es o) ≡ returned o
unfolding returned
returned-before es none = refl
returned-before es (some o) = refl

wait_branches :
    (w b : Bool) (o rest : Option Outcome) (es : List Event)
    → returned o ≡ true
    → returned (if not w then o else if b then o else before es rest)
      ≡ (not w || b) || returned rest
wait_branches true true o rest es h = h
wait_branches true false o rest es h = returned-before es rest
wait_branches false b o rest es h = h

-- `scu_dma_level_wait` for a level that works returns in the given rounds exactly if in one of
-- them its end arrives or the status register says that it is not busy, whatever else arrives.
pub returned-wait :
    (level : Level) (s : State) (rs : List Round)
    → (at level s).working ≡ true
    → returned (wait level s rs) ≡ freed level rs
unfolding wait freed returned
returned-wait level s [] h = refl
returned-wait level s (r ∷ rs) h =
    let s' : State = (interrupted r.arrived s).0 in
    let es : List Event = (interrupted r.arrived s).1 in
    let o : Option Outcome = some (record { state = s'; events = es; rounds = rs }) in
    let e = working-interrupted level r.arrived s in
    let q =
      wait_branches (at level s').working (busy level r.dsta == 0) o (wait level s' rs) es refl in
    q ∙ elim (Bool-cases (arrives level r.arrived)) [
      | inl a ↦
          let w : (at level s').working ≡ false =
            e ∙ ap (λ (b : Bool). if b then false else (at level s).working) a in
          rw (w, a) refl
      | inr n ↦
          let w : (at level s').working ≡ true =
            e ∙ ap (λ (b : Bool). if b then false else (at level s).working) n ∙ h in
          rw (w, n) (ap (λ (b : Bool). (busy level r.dsta == 0) || b) (returned-wait level s' rs w))
    ]

unused_busy :
    (dsta : ℕ) (level : Level) → unused_get dsta dsta dsta ≡ some level → busy level dsta ≢ 0
unfolding unused_get
unused_busy dsta level0 h e = ground (arith, h, e)
unused_busy dsta level1 h e = ground (arith, h, e)
unused_busy dsta level2 h e = ground (arith, h, e)

unused_none : (dsta : ℕ) → unused_get dsta dsta dsta ≡ none → (level : Level) → busy level dsta ≡ 0
unfolding unused_get
unused_none dsta h level0 = ground (arith, h)
unused_none dsta h level1 = ground (arith, h)
unused_none dsta h level2 = ground (arith, h)

-- The function returns a level that is busy, and -1 exactly if none is.
pub busy-unused_get :
    (dsta : ℕ)
    → ((level : Level) → unused_get dsta dsta dsta ≡ some level → busy level dsta ≢ 0)
      × (unused_get dsta dsta dsta ≡ none → (level : Level) → busy level dsta ≡ 0)
unfolding unused_get
busy-unused_get dsta = (unused_busy dsta, unused_none dsta)
