-- ===== src/Vdp1/Cmdt/Control/Digits.antt =====
-- libyaul/scu/bus/b/vdp/vdp1_cmdt.c: the digits of a control word under masks.
use libyaul.Base.{
  ℕ, ◌*◌, ◌/◌, ◌%◌, ◌^◌, ◌<◌, ◌≡◌, refl, sym, ap, ◌∙◌, Bool, true, ◌&&◌, ◌==◌, bit_and, bit_or,
  arith, ==→eq,
}
use libyaul.Base.Bits.{bit_and_le, bit_or_lt}
use libyaul.Base.Nibbles.{word, bit_and-word, bit_or-word}
use libyaul.Base.Ranges.{all_below, all_below_sound}
use libyaul.Vdp1.Cmdt.{Cmdt}
use libyaul.Vdp1.Cmdt.Control.{Control, fields, control}

-- The digits of a word.
digits_lem : (w : ℕ) → w < 2 ^ 16 → word (w / 2 ^ 12) (w / 2 ^ 8 % 16) (w / 2 ^ 4 % 16) (w % 16) ≡ w
unfolding word
digits_lem w h = omega (arith, h)

fields_by :
    (a b c d a' b' c' d' link : ℕ)
    → a ≡ a'
    → b ≡ b'
    → c ≡ c'
    → d ≡ d'
    → fields a b c d link ≡ fields a' b' c' d' link
fields_by a b c d a' b' c' d' link p q r s =
    ap (λ (x : ℕ). fields x b c d link) p
    ∙ ap (λ (x : ℕ). fields a' x c d link) q
    ∙ ap (λ (x : ℕ). fields a' b' x d link) r
    ∙ ap (λ (x : ℕ). fields a' b' c' x link) s

-- The fields of a control word given by its digits.
control-word :
    (cmdt : Cmdt) (a b c d : ℕ)
    → b < 16
    → c < 16
    → d < 16
    → cmdt.ctrl ≡ word a b c d
    → control cmdt ≡ fields a b c d cmdt.link
unfolding control word
control-word cmdt a b c d hb hc hd e =
    fields_by (cmdt.ctrl / 2 ^ 12) (cmdt.ctrl / 2 ^ 8 % 16) (cmdt.ctrl / 2 ^ 4 % 16)
      (cmdt.ctrl % 16) a b c d cmdt.link (omega (arith, e, hb, hc, hd))
      (omega (arith, e, hb, hc, hd)) (omega (arith, e, hb, hc, hd)) (omega (arith, e, hb, hc, hd))

-- A digit under a mask, with bits put in.
abbrev pub put : ℕ → ℕ → ℕ → ℕ
put x m q = bit_or (bit_and x m) q

put-lt : (x m q : ℕ) → m < 16 → q < 16 → put x m q < 16
put-lt x m q h l = bit_or_lt 4 (bit_and x m) q (omega (arith, bit_and_le x m, h)) l

-- A word whose digits are masked and put in.
masked :
    (w m n o p q r s t : ℕ)
    → w < 2 ^ 16
    → n < 16
    → o < 16
    → p < 16
    → r < 16
    → s < 16
    → t < 16
    → put w (word m n o p) (word q r s t)
      ≡ word
          (put (w / 2 ^ 12) m q)
          (put (w / 2 ^ 8 % 16) n r)
          (put (w / 2 ^ 4 % 16) o s)
          (put (w % 16) p t)
masked w m n o p q r s t h hn ho hp hr hs ht =
    let a = w / 2 ^ 12 in
    let b = w / 2 ^ 8 % 16 in
    let c = w / 2 ^ 4 % 16 in
    let d = w % 16 in
    ap (λ (x : ℕ). put x (word m n o p) (word q r s t)) (sym (digits_lem w h))
    ∙ ap (λ (x : ℕ). bit_or x (word q r s t))
        (bit_and-word a b c d m n o p (omega arith) (omega arith) (omega arith) hn ho hp)
    ∙ bit_or-word (bit_and a m) (bit_and b n) (bit_and c o) (bit_and d p) q r s t
        (omega (arith, bit_and_le b n, hn)) (omega (arith, bit_and_le c o, ho))
        (omega (arith, bit_and_le d p, hp)) hr hs ht

-- The fields after a setter with a mask and bits.
pub control-masked :
    (old new : Cmdt) (m n o p q r s t : ℕ)
    → old.ctrl < 2 ^ 16
    → n < 16
    → o < 16
    → p < 16
    → r < 16
    → s < 16
    → t < 16
    → new.ctrl ≡ put old.ctrl (word m n o p) (word q r s t)
    → control new
      ≡ fields
          (put (old.ctrl / 2 ^ 12) m q)
          (put (old.ctrl / 2 ^ 8 % 16) n r)
          (put (old.ctrl / 2 ^ 4 % 16) o s)
          (put (old.ctrl % 16) p t)
          new.link
control-masked old new m n o p q r s t h hn ho hp hr hs ht e =
    control-word new (put (old.ctrl / 2 ^ 12) m q) (put (old.ctrl / 2 ^ 8 % 16) n r)
      (put (old.ctrl / 2 ^ 4 % 16) o s) (put (old.ctrl % 16) p t)
      (put-lt (old.ctrl / 2 ^ 8 % 16) n r hn hr) (put-lt (old.ctrl / 2 ^ 4 % 16) o s ho hs)
      (put-lt (old.ctrl % 16) p t hp ht) (e ∙ masked old.ctrl m n o p q r s t h hn ho hp hr hs ht)

-- Equal fields make equal readings.
pub same :
    (x y : Control)
    → x.ends ≡ y.ends
    → x.jump ≡ y.jump
    → x.zoom_point ≡ y.zoom_point
    → x.unused ≡ y.unused
    → x.v_flip ≡ y.v_flip
    → x.h_flip ≡ y.h_flip
    → x.command ≡ y.command
    → x.link ≡ y.link
    → x ≡ y
same x y a b c d e f g h = λ i. record {
  ends = a i;
  jump = b i;
  zoom_point = c i;
  unused = d i;
  v_flip = e i;
  h_flip = f i;
  command = g i;
  link = h i;
}

-- What the masks do to a digit, for all digits.
unfoldable pub kept : ℕ → Bool
kept x =
    (put x 15 0 == x)
    && (put x 7 0 / 8 == 0)
    && (put x 7 0 % 8 == x % 8)
    && (put x 15 8 / 8 == 1)
    && (put x 15 8 % 8 == x % 8)

pub kept_all : all_below 16 kept ≡ true
unfolding all_below kept
kept_all = refl

unfoldable pub jumped : ℕ → ℕ → Bool
jumped j x = (put x 8 j / 8 == x / 8) && (put x 8 j % 8 == j)

pub jumped_all : all_below 8 (λ j. all_below 16 (jumped j)) ≡ true
unfolding all_below jumped
jumped_all = refl

unfoldable pub flipped : ℕ → ℕ → Bool
flipped f x =
    (put x 14 f / 4 == x / 4)
    && (put x 14 f / 2 % 2 == x / 2 % 2)
    && (put x 14 f % 2 == f)
    && (put x 13 (f * 2) / 4 == x / 4)
    && (put x 13 (f * 2) / 2 % 2 == f)
    && (put x 13 (f * 2) % 2 == x % 2)

pub flipped_all : all_below 2 (λ f. all_below 16 (flipped f)) ≡ true
unfolding all_below flipped
flipped_all = refl

replaced : ℕ → ℕ → Bool
replaced t x = put x 0 t == t

replaced_all : all_below 16 (λ t. all_below 16 (replaced t)) ≡ true
unfolding all_below replaced
replaced_all = refl

pub keep_digit : (x : ℕ) → x < 16 → put x 15 0 ≡ x
unfolding kept
keep_digit x h = let e = all_below_sound 16 kept x kept_all h in ground (arith, e)

pub replace_digit : (x t : ℕ) → x < 16 → t < 16 → put x 0 t ≡ t
unfolding replaced
replace_digit x t h l = ==→eq (put x 0 t) t (
    all_below_sound 16 (replaced t) x
      (all_below_sound 16 (λ (t : ℕ). all_below 16 (replaced t)) t replaced_all l) h)
