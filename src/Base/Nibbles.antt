-- ===== src/Base/Nibbles.antt =====
-- Words of 16 bits as four digits of four bits.
use Prim.Native.Nat.{ℕ, zero, suc, ◌+◌, ◌*◌, ◌/◌, ◌%◌, ◌^◌, ◌<◌, min, max, bit_and, bit_or}
use mathlib.Core.Path.{◌≡◌, ap, ap₂, ◌∙◌}
use native.Mathlib.Omega.{arith}
use native.Mathlib.Nat.{pow-suc}
use libyaul.Base.Bits.{halves_of_and, halves_of_or}

half_split : (k a b : ℕ) → (a * 2 ^ suc k + b) / 2 ≡ a * 2 ^ k + b / 2
half_split k a b =
    let e : a * 2 ^ suc k ≡ a * 2 ^ k * 2 = rw (pow-suc 2 k) (grind arith) in omega (arith, e)

digit_split : (k a b : ℕ) → (a * 2 ^ suc k + b) % 2 ≡ b % 2
digit_split k a b =
    let e : a * 2 ^ suc k ≡ a * 2 ^ k * 2 = rw (pow-suc 2 k) (grind arith) in omega (arith, e)

-- The two parts of a word are combined by themselves.
pub bit_and_split :
    (k a b m n : ℕ)
    → b < 2 ^ k
    → n < 2 ^ k
    → bit_and (a * 2 ^ k + b) (m * 2 ^ k + n) ≡ bit_and a m * 2 ^ k + bit_and b n
bit_and_split zero a b m n h l =
    let x : a * 1 + b ≡ a = omega (arith, h) in
    let y : m * 1 + n ≡ m = omega (arith, l) in
    let z : b ≡ 0 = omega (arith, h) in
    let w : n ≡ 0 = omega (arith, l) in
    let v : bit_and b n ≡ 0 = ap₂ bit_and z w in
    ap₂ bit_and x y ∙ (let q : bit_and a m ≡ bit_and a m * 1 + bit_and b n = omega (arith, v) in q)
bit_and_split (suc k) a b m n h l =
    let p = pow-suc 2 k in
    let ih = bit_and_split k a (b / 2) m (n / 2) (omega (arith, h, p)) (omega (arith, l, p)) in
    let s : bit_and (a * 2 ^ suc k + b) (m * 2 ^ suc k + n)
        ≡ min (b % 2) (n % 2) + 2 * bit_and (a * 2 ^ k + b / 2) (m * 2 ^ k + n / 2) =
      halves_of_and (a * 2 ^ suc k + b) (m * 2 ^ suc k + n)
      ∙ ap₂ (λ (x y : ℕ). y + 2 * x) (ap₂ bit_and (half_split k a b) (half_split k m n))
          (ap₂ min (digit_split k a b) (digit_split k m n)) in
    let t = halves_of_and b n in
    let d : bit_and a m * 2 ^ suc k ≡ bit_and a m * 2 ^ k * 2 = rw p (grind arith) in
    omega (arith, s, t, ih, d)

-- The two parts of a word are combined by themselves.
pub bit_or_split :
    (k a b m n : ℕ)
    → b < 2 ^ k
    → n < 2 ^ k
    → bit_or (a * 2 ^ k + b) (m * 2 ^ k + n) ≡ bit_or a m * 2 ^ k + bit_or b n
bit_or_split zero a b m n h l =
    let x : a * 1 + b ≡ a = omega (arith, h) in
    let y : m * 1 + n ≡ m = omega (arith, l) in
    let z : b ≡ 0 = omega (arith, h) in
    let w : n ≡ 0 = omega (arith, l) in
    let v : bit_or b n ≡ 0 = ap₂ bit_or z w in
    ap₂ bit_or x y ∙ (let q : bit_or a m ≡ bit_or a m * 1 + bit_or b n = omega (arith, v) in q)
bit_or_split (suc k) a b m n h l =
    let p = pow-suc 2 k in
    let ih = bit_or_split k a (b / 2) m (n / 2) (omega (arith, h, p)) (omega (arith, l, p)) in
    let s : bit_or (a * 2 ^ suc k + b) (m * 2 ^ suc k + n)
        ≡ max (b % 2) (n % 2) + 2 * bit_or (a * 2 ^ k + b / 2) (m * 2 ^ k + n / 2) =
      halves_of_or (a * 2 ^ suc k + b) (m * 2 ^ suc k + n)
      ∙ ap₂ (λ (x y : ℕ). y + 2 * x) (ap₂ bit_or (half_split k a b) (half_split k m n))
          (ap₂ max (digit_split k a b) (digit_split k m n)) in
    let t = halves_of_or b n in
    let d : bit_or a m * 2 ^ suc k ≡ bit_or a m * 2 ^ k * 2 = rw p (grind arith) in
    omega (arith, s, t, ih, d)

-- Four digits, the highest first.
unfoldable pub word : ℕ → ℕ → ℕ → ℕ → ℕ
word a b c d = ((a * 2 ^ 4 + b) * 2 ^ 4 + c) * 2 ^ 4 + d

pub bit_and-word :
    (a b c d m n o p : ℕ)
    → b < 16
    → c < 16
    → d < 16
    → n < 16
    → o < 16
    → p < 16
    → bit_and (word a b c d) (word m n o p)
      ≡ word (bit_and a m) (bit_and b n) (bit_and c o) (bit_and d p)
unfolding word
bit_and-word a b c d m n o p hb hc hd hn ho hp =
    bit_and_split 4 ((a * 2 ^ 4 + b) * 2 ^ 4 + c) d ((m * 2 ^ 4 + n) * 2 ^ 4 + o) p hd hp
    ∙ ap (λ (x : ℕ). x * 2 ^ 4 + bit_and d p)
        (bit_and_split 4 (a * 2 ^ 4 + b) c (m * 2 ^ 4 + n) o hc ho
          ∙ ap (λ (x : ℕ). x * 2 ^ 4 + bit_and c o) (bit_and_split 4 a b m n hb hn))

pub bit_or-word :
    (a b c d m n o p : ℕ)
    → b < 16
    → c < 16
    → d < 16
    → n < 16
    → o < 16
    → p < 16
    → bit_or (word a b c d) (word m n o p)
      ≡ word (bit_or a m) (bit_or b n) (bit_or c o) (bit_or d p)
unfolding word
bit_or-word a b c d m n o p hb hc hd hn ho hp =
    bit_or_split 4 ((a * 2 ^ 4 + b) * 2 ^ 4 + c) d ((m * 2 ^ 4 + n) * 2 ^ 4 + o) p hd hp
    ∙ ap (λ (x : ℕ). x * 2 ^ 4 + bit_or d p)
        (bit_or_split 4 (a * 2 ^ 4 + b) c (m * 2 ^ 4 + n) o hc ho
          ∙ ap (λ (x : ℕ). x * 2 ^ 4 + bit_or c o) (bit_or_split 4 a b m n hb hn))
