-- ===== src/ScuDma/Levels/Transfer.antt =====
-- scu/scu_dma.c: a transfer from its configuration to the interrupt at its end.
use libyaul.Base.{
  ℕ, ◌≤◌, ◌≡◌, refl, sym, ap, ◌∙◌, Bool, true, false, ◌&&◌, not, List, [], ◌∷◌, ◌++◌, Option, none,
  some, ◌==◌, ◌+◌, bit_or, if◌then◌else◌, arith, le→not-ltb, eq→==, Bool-cases, inl, inr,
}
use libyaul.DmaRing.{Handle}
use libyaul.ScuDma.Levels.{
  Level, level0, level1, level2, Event, writes, called, State, at, set_working, busy, end_handler,
  interrupted, Round, Outcome, before, then_do, wait, wait_first, fast_start, start, stop,
  config_writes, config_set, address,
}

-- A round in which nothing arrives, and one in which a level ends.
abbrev pub quiet : ℕ → Round
quiet dsta = record { arrived = []; dsta = dsta }

abbrev pub ending : Level → ℕ → Round
ending level dsta = record { arrived = level ∷ []; dsta = dsta }

-- Quiet rounds with the status register given, then others.
unfoldable pub quiet_then : List ℕ → List Round → List Round
quiet_then [] rs = rs
quiet_then (d ∷ ds) rs = quiet d ∷ quiet_then ds rs

-- The level is busy in all of them.
unfoldable pub all_busy : Level → List ℕ → Bool
unfolding busy
all_busy level [] = true
all_busy level (d ∷ ds) = not (busy level d == 0) && all_busy level ds

-- A configuration, a start and a wait, one after the other.
unfoldable pub transfer : Level → ℕ → Handle → State → List Round → Option Outcome
unfolding config_set start wait
transfer level start_factor handle s rs =
    then_do (config_set level start_factor handle s rs)
      (λ s₁ rs₁. then_do (start level s₁ rs₁) (λ s₂ rs₂. wait level s₂ rs₂))

before-nil : (o : Option Outcome) → before [] o ≡ o
before-nil none = refl
before-nil (some o) = refl

wait-idle :
    (level : Level) (s : State) (d : ℕ) (rs : List Round)
    → (at level s).working ≡ false
    → wait level s (quiet d ∷ rs) ≡ some (record { state = s; events = []; rounds = rs })
unfolding wait interrupted
wait-idle level s d rs h = rw h refl

wait-free :
    (level : Level) (s : State) (d : ℕ) (rs : List Round)
    → busy level d ≡ 0
    → wait level s (quiet d ∷ rs) ≡ some (record { state = s; events = []; rounds = rs })
unfolding wait interrupted
wait-free level s d rs h = elim (Bool-cases (at level s).working) [
  | inl w ↦ rw (w, eq→== (busy level d) 0 h) refl
  | inr w ↦ rw w refl
]

wait-ending :
    (level : Level) (s : State) (ds : List ℕ) (d : ℕ) (rs : List Round)
    → (at level s).working ≡ true
    → all_busy level ds ≡ true
    → wait level s (quiet_then ds (ending level d ∷ rs))
      ≡ some (record {
        state = set_working level false s;
        events = called (at level s).callback ∷ [];
        rounds = rs;
      })
unfolding wait interrupted end_handler quiet_then all_busy
wait-ending level0 s [] d rs w h = refl
wait-ending level1 s [] d rs w h = refl
wait-ending level2 s [] d rs w h = refl
wait-ending level s (e ∷ ds) d rs w h =
    let b : (busy level e == 0) ≡ false = ground (arith, h) in
    rw (w, b) (before-nil _ ∙ wait-ending level s ds d rs w (ground (arith, h)))

-- Level 2 also waits for level 1.
abbrev pub blocked : Level → State → Bool
blocked level0 s = false
blocked level1 s = false
blocked level2 s = s.state1.working

-- The round that this takes.
abbrev pub extra : Level → List Round → List Round
extra level0 rs = rs
extra level1 rs = rs
extra level2 rs = quiet 0 ∷ rs

wait_first-idle :
    (level : Level) (s : State) (rs : List Round)
    → blocked level s ≡ false
    → wait_first level s (extra level rs) ≡ some (record { state = s; events = []; rounds = rs })
unfolding wait_first
wait_first-idle level0 s rs h = refl
wait_first-idle level1 s rs h = refl
wait_first-idle level2 s rs h = wait-idle level1 s 0 rs h

config_set-idle :
    (level : Level) (f : ℕ) (handle : Handle) (s : State) (d : ℕ) (rs : List Round)
    → f ≤ 7
    → (at level s).working ≡ false
    → blocked level s ≡ false
    → config_set level f handle s (extra level (quiet d ∷ rs))
      ≡ some (record {
        state = set_working level true (set_working level false s);
        events = writes (address level 0x10) 0 ∷ config_writes level f handle;
        rounds = rs;
      })
unfolding config_set stop
config_set-idle level f handle s d rs l w b =
    rw (le→not-ltb 7 f l, wait_first-idle level s (quiet d ∷ rs) b, wait-idle level s d rs w) refl

start-free :
    (level : Level) (s : State) (d : ℕ) (rs : List Round)
    → blocked level s ≡ false
    → busy level d ≡ 0
    → start level s (extra level (quiet d ∷ rs))
      ≡ some (record { state = s; events = fast_start level ∷ []; rounds = rs })
unfolding start
start-free level s d rs b e =
    rw (wait_first-idle level s (quiet d ∷ rs) b, wait-free level s d rs e) refl

blocked-set_working :
    (level : Level) (b c : Bool) (s : State)
    → blocked level (set_working level b (set_working level c s)) ≡ blocked level s
blocked-set_working level0 b c s = refl
blocked-set_working level1 b c s = refl
blocked-set_working level2 b c s = refl

set_working-true :
    (level : Level) (s : State)
    → (at level (set_working level true (set_working level false s))).working ≡ true
set_working-true level0 s = refl
set_working-true level1 s = refl
set_working-true level2 s = refl

-- The level's state after it has ended, and its callback.
after_end :
    (level : Level) (s : State)
    → (at level s).working ≡ false
    → set_working level false (set_working level true (set_working level false s)) ≡ s
after_end level0 s w =
    ap (λ (b : Bool). record s { state0 = record (s.state0) { working = b } }) (sym w)
after_end level1 s w =
    ap (λ (b : Bool). record s { state1 = record (s.state1) { working = b } }) (sym w)
after_end level2 s w =
    ap (λ (b : Bool). record s { state2 = record (s.state2) { working = b } }) (sym w)

callback_kept :
    (level : Level) (s : State)
    → (at level (set_working level true (set_working level false s))).callback
      ≡ (at level s).callback
callback_kept level0 s = refl
callback_kept level1 s = refl
callback_kept level2 s = refl

-- The first register of a level, in memory.
unfoldable pub registers_at : Level → ℕ
registers_at level0 = 0x25FE0000
registers_at level1 = 0x25FE0020
registers_at level2 = 0x25FE0040

-- The writes of a transfer: the level is stopped; the read address, the write address, the count
-- and the strides come into the first four registers; the mode, with the start factor, into the
-- sixth; the fifth enables the level, and starts it at the end.
unfoldable pub programmed : Level → ℕ → Handle → List Event
unfolding registers_at
programmed level f handle =
    writes (registers_at level + 16) 0
    ∷ writes (registers_at level) handle.dnr
    ∷ writes (registers_at level + 4) handle.dnw
    ∷ writes (registers_at level + 8) handle.dnc
    ∷ writes (registers_at level + 12) handle.dnad
    ∷ writes (registers_at level + 20) (bit_or handle.dnmd f)
    ∷ (if f == 7
        then writes (registers_at level + 16) 257 ∷ []
        else writes (registers_at level + 16) 256 ∷ writes (registers_at level + 16) 257 ∷ [])

module _ (handle : Handle) (f : ℕ) (c : Event) where
  written_enable :
      (b : Bool) (x y : Event)
      → (if b then [] else x ∷ []) ++ (y ∷ c ∷ []) ≡ (if b then y ∷ [] else x ∷ y ∷ []) ++ (c ∷ [])
  written_enable true x y = refl
  written_enable false x y = refl

  -- The model's writes, in these words.
  written_lem :
      (level : Level)
      → writes (address level 0x10) 0
          ∷ (config_writes level f handle ++ (fast_start level ∷ c ∷ []))
        ≡ programmed level f handle ++ (c ∷ [])
  unfolding programmed registers_at config_writes fast_start
  written_lem level0 =
      rw (written_enable (f == 7) (writes 0x25FE0010 256) (writes 0x25FE0010 257)) refl
  written_lem level1 =
      rw (written_enable (f == 7) (writes 0x25FE0030 256) (writes 0x25FE0030 257)) refl
  written_lem level2 =
      rw (written_enable (f == 7) (writes 0x25FE0050 256) (writes 0x25FE0050 257)) refl

-- A level that is idle (level 2: while level 1 is idle too) and is configured with a start factor
-- of at most 7, started while its status is not busy, and waited for while it is busy, until its
-- end arrives, is stopped, gets the fields of the handle in its registers in the order of their
-- addresses, with the start factor in the mode, is enabled unless the factor is 7, is started
-- once and has its callback called once; all levels are then as they were. No other interrupt
-- arrives.
pub transfer_lem :
    (level : Level) (f : ℕ) (handle : Handle) (s : State) (d₀ d₁ d₂ : ℕ) (ds : List ℕ)
    (rs : List Round)
    → f ≤ 7
    → (at level s).working ≡ false
    → blocked level s ≡ false
    → busy level d₁ ≡ 0
    → all_busy level ds ≡ true
    → transfer level f handle s
        (extra level (quiet d₀ ∷ extra level (quiet d₁ ∷ quiet_then ds (ending level d₂ ∷ rs))))
      ≡ some (record {
        state = s;
        events = programmed level f handle ++ (called (at level s).callback ∷ []);
        rounds = rs;
      })
unfolding transfer
transfer_lem level f handle s d₀ d₁ d₂ ds rs l w b e a =
    let s₁ : State = set_working level true (set_working level false s) in
    let c =
      config_set-idle level f handle s d₀
        (extra level (quiet d₁ ∷ quiet_then ds (ending level d₂ ∷ rs))) l w b in
    let t =
      start-free level s₁ d₁ (quiet_then ds (ending level d₂ ∷ rs))
        (blocked-set_working level true false s ∙ b) e in
    let u = wait-ending level s₁ ds d₂ rs (set_working-true level s) a in
    rw (c, t, u, after_end level s w, callback_kept level s)
      (ap (λ (es : List Event). some (record { state = s; events = es; rounds = rs }))
        (written_lem handle f (called (at level s).callback) level))
