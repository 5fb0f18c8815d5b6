-- ===== src/Tga/Fill/Words.antt =====
-- libtga/tga.c: `_true_color_image_fill` against writing value by value.
use libyaul.Base.{
  ℕ, zero, suc, ◌+◌, ◌-◌, ◌*◌, ◌/◌, ◌%◌, ◌^◌, ◌<◌, ◌≡◌, ap, ap₂, ◌∙◌, [], ◌∷◌, ◌++◌, some, bit_or,
  arith, replicate, le→leb,
}
use native.Mathlib.Decide.{dec_lt}
use libyaul.Base.Bits.{bit_or_disjoint}
use libyaul.Tga.Fill.{halves, doubled, fill_by_four, fill_by_one, fill_words, fill}

halves-doubled : (s : ℕ) → s < 2 ^ 16 → halves (doubled s) ≡ s ∷ s ∷ []
unfolding halves doubled
halves-doubled s h =
    let e : bit_or (s * 2 ^ 16 % 2 ^ 32) s ≡ s * 2 ^ 16 + s =
      ap (λ (x : ℕ). bit_or x s) (omega (arith, h)) ∙ bit_or_disjoint 16 s s h in
    ap₂ (λ (a b : ℕ). a ∷ b ∷ []) (omega (arith, e)) (omega (arith, e))

replicate-add : (n m s : ℕ) → replicate n s ++ replicate m s ≡ replicate (n + m) s
replicate-add zero m s = ap (λ (k : ℕ). replicate k s) (let e : m ≡ 0 + m = omega arith in e)
replicate-add (suc n) m s =
    ap (◌∷◌ s) (replicate-add n m s)
    ∙ ap (λ (k : ℕ). replicate k s) (let e : suc (n + m) ≡ suc n + m = omega arith in e)

-- Both loops end: what they write is `s` at each place.
fill_by_four_lem :
    (fuel s amt : ℕ)
    → s < 2 ^ 16
    → amt < fuel
    → (n left : ℕ) × (fill_by_four fuel (doubled s) amt ≡ some (replicate n s, left))
      × (left < 16)
      × (2 * n + left ≡ amt)
unfolding fill_by_four
fill_by_four_lem zero s amt h l = absurd (omega (arith, l))
fill_by_four_lem (suc fuel) s amt h l = elim (dec_lt amt 16) [
  | yes small ↦ (0, amt, ground (arith, small), small, omega arith)
  | no big ↦
      let (n, left, e, b, t) = fill_by_four_lem fuel s (amt - 16) h (omega (arith, l)) in
      let q : suc (suc (suc (suc (suc (suc (suc (suc n))))))) ≡ 8 + n = omega arith in
      (
        8 + n,
        left,
        rw (le→leb 16 amt (omega (arith, big)), e, halves-doubled s h)
            (ap (λ (k : ℕ). some (replicate k s, left)) q),
        b,
        omega (arith, t, big),
      )
]

fill_by_one_lem :
    (fuel s amt : ℕ)
    → s < 2 ^ 16
    → amt < fuel
    → (n left : ℕ) × (fill_by_one fuel (doubled s) amt ≡ some (replicate n s, left))
      × (left < 4)
      × (2 * n + left ≡ amt)
unfolding fill_by_one
fill_by_one_lem zero s amt h l = absurd (omega (arith, l))
fill_by_one_lem (suc fuel) s amt h l = elim (dec_lt amt 4) [
  | yes small ↦ (0, amt, ground (arith, small), small, omega arith)
  | no big ↦
      let (n, left, e, b, t) = fill_by_one_lem fuel s (amt - 4) h (omega (arith, l)) in
      let q : suc (suc n) ≡ 2 + n = omega arith in
      (
        2 + n,
        left,
        rw (le→leb 4 amt (omega (arith, big)), e, halves-doubled s h)
            (ap (λ (k : ℕ). some (replicate k s, left)) q),
        b,
        omega (arith, t, big),
      )
]

replicate_by : (n m s : ℕ) → n ≡ m → replicate n s ≡ replicate m s
replicate_by n m s e = ap (λ (k : ℕ). replicate k s) e

-- An even number of bytes is written in full, by both loops and the remainder.
fill_words_lem :
    (fuel s first n : ℕ)
    → s < 2 ^ 16
    → 2 * n < fuel
    → 2 * n < 2 ^ 32
    → fill_words fuel s (replicate first s) (2 * n) ≡ some (some (replicate (first + n) s))
unfolding fill_words
fill_words_lem fuel s first n h f b =
    let (x, left, e, l, t) = fill_by_four_lem fuel s (2 * n) h f in
    let (y, rest, e', l', t') = fill_by_one_lem fuel s left h (omega (arith, l, t, f)) in
    elim (dec_lt rest 1) [
      | yes none_left ↦ ground (
        arith,
        e,
        e',
        none_left,
        replicate-add x y s,
        replicate-add first (x + y) s,
        replicate_by (first + (x + y)) (first + n) s (omega (arith, t, t', none_left)),
      )
      | no two ↦ ground (
        arith,
        e,
        e',
        two,
        replicate-add y 1 s,
        replicate-add x (y + 1) s,
        replicate-add first (x + (y + 1)) s,
        replicate_by (first + (x + (y + 1))) (first + n) s (omega (arith, t, t', l', two)),
      )
    ]

-- A run of n values at an even address is n writes of the value, whichever way the words fall.
pub fill-replicate :
    (dst s n : ℕ)
    → dst % 2 ≡ 0
    → s < 2 ^ 16
    → 0 < n
    → 2 * n < 2 ^ 32
    → fill dst s (2 * n) ≡ some (some (replicate n s))
unfolding fill
fill-replicate dst s n even h pos b = elim (dec_lt (dst / 2 % 2) 1) [
  | yes aligned ↦ ground (arith, aligned, fill_words_lem (2 * n + 1) s 0 n h (omega arith) b)
  | no odd ↦ ground (
    arith,
    odd,
    pos,
    b,
    fill_words_lem (2 * n + 1) s 1 (n - 1) h (omega (arith, pos)) (omega (arith, b)),
    replicate_by (1 + (n - 1)) n s (omega (arith, pos)),
  )
]
