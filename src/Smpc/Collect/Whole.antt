-- ===== src/Smpc/Collect/Whole.antt =====
-- libyaul/scu/bus/cpu/smpc/smpc_peripheral_init.c: what the buffer holds after a collection.
use libyaul.Base.{
  ℕ, ◌+◌, ◌≤◌, ◌<◌, ◌≡◌, refl, sym, ap, ◌∙◌, Bool, true, false, ◌&&◌, not, ◌⊎◌, inl, inr, ◌/◌, ◌%◌,
  ◌==◌, bit_and, List, [], ◌∷◌, ◌++◌, none, some, set, length, drop, arith, lt→ltb, le→not-ltb,
  length-set, length-drop, length-append, drop-drop,
}
use libyaul.Base.Ranges.{all_below, all_below_sound}
use mathlib.Core.List.{append_assoc}
use native.Mathlib.Decide.{dec_lt}
use libyaul.Smpc.Collect.{Collector, Answer, put_oregs, system_manager_handler, collect}

set-after : (pre old : List ℕ) (x v : ℕ) → set (pre ++ x ∷ old) (length pre) v ≡ pre ++ v ∷ old
set-after [] old x v = refl
set-after (y ∷ pre) old x v = ap (◌∷◌ y) (set-after pre old x v)

put_oregs-fits :
    (vs pre old : List ℕ) (i : ℕ)
    → i ≡ length pre
    → length vs ≤ length old
    → put_oregs vs i (pre ++ old) ≡ some (pre ++ (vs ++ drop (length vs) old))
unfolding put_oregs
put_oregs-fits [] pre old i e h = refl
put_oregs-fits (v ∷ vs) pre [] i e h = absurd (omega (arith, h))
put_oregs-fits (v ∷ vs) pre (x ∷ old) i e h =
    let l : i < length (pre ++ x ∷ old) =
      let a = length-append pre (x ∷ old) in omega (arith, a, e) in
    let s : set (pre ++ x ∷ old) i v ≡ (pre ++ v ∷ []) ++ old =
      ap (λ (k : ℕ). set (pre ++ x ∷ old) k v) e
      ∙ set-after pre old x v
      ∙ sym (append_assoc pre (v ∷ []) old) in
    let n : i + 1 ≡ length (pre ++ v ∷ []) =
      let a = length-append pre (v ∷ []) in omega (arith, a, e) in
    rw (put_oregs, lt→ltb i (length (pre ++ x ∷ old)) l, s)
      (put_oregs-fits vs (pre ++ v ∷ []) old (i + 1) n (omega (arith, h))
        ∙ ap some (append_assoc pre (v ∷ []) (vs ++ drop (length vs) old)))

put_oregs-overruns :
    (vs buffer : List ℕ) (i : ℕ)
    → length buffer < i + length vs
    → i ≤ length buffer
    → put_oregs vs i buffer ≡ none
unfolding put_oregs
put_oregs-overruns [] buffer i h l = absurd (omega (arith, h, l))
put_oregs-overruns (v ∷ vs) buffer i h l = elim (dec_lt i (length buffer)) [
  | yes inside ↦
      let e = length-set buffer i v in
      rw (put_oregs, lt→ltb i (length buffer) inside)
        (put_oregs-overruns vs (set buffer i v) (i + 1) (omega (arith, e, h))
          (omega (arith, e, inside)))
  | no out ↦ rw (put_oregs, le→not-ltb i (length buffer) (omega (arith, out))) refl
]

same_truth : Bool → Bool → Bool
same_truth true b = b
same_truth false b = not b

same_truth_lem : (a b : Bool) → same_truth a b ≡ true → a ≡ b
unfolding same_truth
same_truth_lem true true h = refl
same_truth_lem true false h = absurd (cc)
same_truth_lem false true h = absurd (cc)
same_truth_lem false false h = refl

and_false : (b : Bool) → (b && false) ≡ false
and_false true = refl
and_false false = refl

-- All that was reported before the last registers, and them.
unfoldable pub whole : List (List ℕ × ℕ) → List ℕ → List ℕ
whole [] last = last
whole ((r, sr) ∷ rs) last = r ++ whole rs last

-- SR says that the report is at its end: bit 7 is set and bit 5 is not.
abbrev pub IsLast : ℕ → Type 0
IsLast sr = (sr < 256) × (sr / 128 ≡ 1) × (sr / 32 % 2 ≡ 0)

-- SR says that it is not: bit 7 is not set, or bit 5 is.
abbrev pub IsBefore : ℕ → Type 0
IsBefore sr = (sr < 256) × ((sr / 128 ≡ 0) ⊎ (sr / 32 % 2 ≡ 1))

-- What SR says before the last interrupt.
pub data AreBefore : List (List ℕ × ℕ) → Type 0 where
  no_more : AreBefore []
  one_more :
      {r : List ℕ} {sr : ℕ} {rs : List (List ℕ × ℕ)}
      → IsBefore sr
      → AreBefore rs
      → AreBefore ((r, sr) ∷ rs)

-- The answers: CONTINUE to each interrupt before the last one, and BREAK to it.
unfoldable pub answers : List (List ℕ × ℕ) → List Answer
answers [] = Answer.stop ∷ []
answers (r ∷ rs) = Answer.go_on ∷ answers rs

abbrev at_end : ℕ → Bool
at_end sr = bit_and sr 0x80 == 0x80 && bit_and sr 0x20 == 0

bits_read : ℕ → Bool
bits_read sr = same_truth (at_end sr) (sr / 128 == 1 && sr / 32 % 2 == 0)

bits_hold : all_below 256 bits_read ≡ true
unfolding all_below bits_read same_truth
bits_hold = refl

at_end-bits : (sr : ℕ) → sr < 256 → at_end sr ≡ (sr / 128 == 1 && sr / 32 % 2 == 0)
unfolding bits_read
at_end-bits sr h = same_truth_lem _ _ (all_below_sound 256 bits_read sr bits_hold h)

at_end-last : (sr : ℕ) → IsLast sr → at_end sr ≡ true
at_end-last sr (b, h, k) = at_end-bits sr b ∙ rw (h, k) refl

at_end-before : (sr : ℕ) → IsBefore sr → at_end sr ≡ false
at_end-before sr (b, inl h) = at_end-bits sr b ∙ rw h refl
at_end-before sr (b, inr h) = at_end-bits sr b ∙ rw h (and_false (sr / 128 == 1))

handler-last :
    (r buffer : List ℕ) (sr : ℕ) (c : Collector)
    → IsLast sr
    → put_oregs r c.offset c.buffer ≡ some buffer
    → system_manager_handler r sr c
      ≡ some (Answer.stop, record { buffer = buffer; offset = 0; complete = true })
unfolding system_manager_handler
handler-last r buffer sr c l e = rw (system_manager_handler, e, at_end-last sr l) refl

handler-more :
    (r buffer : List ℕ) (sr : ℕ) (c : Collector)
    → IsBefore sr
    → put_oregs r c.offset c.buffer ≡ some buffer
    → system_manager_handler r sr c
      ≡ some (
        Answer.go_on,
        record { buffer = buffer; offset = c.offset + length r; complete = c.complete },
      )
unfolding system_manager_handler
handler-more r buffer sr c b e = rw (system_manager_handler, e, at_end-before sr b) refl

-- A collection that fits into the buffer leaves there what was reported, from its first byte on.
collected :
    (rs : List (List ℕ × ℕ)) (last pre old : List ℕ) (sr : ℕ) (c : Collector)
    → AreBefore rs
    → IsLast sr
    → c.buffer ≡ pre ++ old
    → c.offset ≡ length pre
    → length (whole rs last) ≤ length old
    → collect (rs ++ (last, sr) ∷ []) c
      ≡ some (
        answers rs,
        record {
          buffer = pre ++ (whole rs last ++ drop (length (whole rs last)) old);
          offset = 0;
          complete = true;
        },
      )
unfolding collect whole answers
collected [] last pre old sr c AreBefore.no_more z b o l =
    let e : put_oregs last c.offset c.buffer ≡ some (pre ++ (last ++ drop (length last) old)) =
      ap (put_oregs last c.offset) b ∙ put_oregs-fits last pre old c.offset o l in
    rw (collect, handler-last last _ sr c z e) refl
collected ((r, m) ∷ rs) last pre old sr c (AreBefore.one_more g gs) z b o l =
    let w : List ℕ = whole rs last in
    let n = length-append r (whole rs last) in
    let rest : List ℕ = drop (length r) old in
    let next : List ℕ = pre ++ (r ++ drop (length r) old) in
    let e : put_oregs r c.offset c.buffer ≡ some next =
      ap (put_oregs r c.offset) b ∙ put_oregs-fits r pre old c.offset o (omega (arith, l, n)) in
    let c' : Collector = record {
      buffer = next;
      offset = c.offset + length r;
      complete = c.complete;
    } in
    let k : c.offset + length r ≡ length (pre ++ r) =
      let a = length-append pre r in omega (arith, a, o) in
    let d = length-drop (length r) old in
    let ih =
      collected rs last (pre ++ r) rest sr c' gs z (sym (append_assoc pre r rest)) k
        (omega (arith, l, n, d)) in
    let q : (pre ++ r) ++ (w ++ drop (length w) rest)
        ≡ pre ++ ((r ++ w) ++ drop (length (r ++ w)) old) =
      append_assoc pre r (w ++ drop (length w) rest)
      ∙ ap (λ (x : List ℕ). pre ++ x)
          (sym (append_assoc r w (drop (length w) rest))
            ∙ ap (λ (x : List ℕ). (r ++ w) ++ x)
                (drop-drop (length r) (length w) old ∙ ap (λ (k : ℕ). drop k old) (sym n))) in
    rw (collect, handler-more r next m c g e, ih)
      (ap
        (λ (x : List ℕ).
          some (answers ((r, m) ∷ rs), record { buffer = x; offset = 0; complete = true }))
        q)

-- The interrupts of one collection put all the registers that they read into the buffer from its
-- start on, one after the other, and leave the bytes behind them; each is answered with CONTINUE
-- but the last, which is answered with BREAK, marks the collection complete and begins again at
-- the start of the buffer. This is if SR, a byte, has bit 7 and not bit 5 at the last interrupt
-- alone, and the buffer has room.
pub collect-whole :
    (rs : List (List ℕ × ℕ)) (last : List ℕ) (sr : ℕ) (c : Collector)
    → AreBefore rs
    → IsLast sr
    → c.offset ≡ 0
    → length (whole rs last) ≤ length c.buffer
    → collect (rs ++ (last, sr) ∷ []) c
      ≡ some (
        answers rs,
        record {
          buffer = whole rs last ++ drop (length (whole rs last)) c.buffer;
          offset = 0;
          complete = true;
        },
      )
collect-whole rs last sr c b z o l = collected rs last [] c.buffer sr c b z refl o l

-- An interrupt that does not fit any more writes behind the buffer.
pub handler-overruns :
    (registers : List ℕ) (sr : ℕ) (c : Collector)
    → c.offset ≤ length c.buffer
    → length c.buffer < c.offset + length registers
    → system_manager_handler registers sr c ≡ none
unfolding system_manager_handler
handler-overruns registers sr c h l =
    rw (system_manager_handler, put_oregs-overruns registers c.buffer c.offset l h) refl
