-- ===== src/Base/Bits.antt =====
-- Laws of `bit_and` and `bit_or`, from the digits that these operations combine.
use Prim.Native.Nat.{
  ℕ, zero, suc, ◌+◌, ◌-◌, ◌*◌, ◌/◌, ◌%◌, ◌^◌, ◌≤◌, ◌<◌, min, max, bit_and, bit_or, digits,
  bit_and-bitwise, bit_or-bitwise,
}
use mathlib.Core.Path.{◌≡◌, refl, sym, ap, ap₂, ◌∙◌}
use native.Mathlib.Omega.{arith}
use native.Mathlib.Nat.{pow-suc}

-- Induction on the digits of a number, the lowest one first.
module _ {P : ℕ → Type 0} (none : P 0) (one_more : (x : ℕ) → P (x / 2) → P x) where
  by_halves_within : (bound x : ℕ) → x ≤ bound → P x
  by_halves_within bound zero h = none
  by_halves_within zero (suc x) h = absurd (omega (arith, h))
  by_halves_within (suc bound) (suc x) h =
      one_more (suc x) (by_halves_within bound (suc x / 2) (omega (arith, h)))

  pub by_halves : (x : ℕ) → P x
  by_halves x = by_halves_within x x (omega arith)

-- An operation on digits: `rest` is what it makes of the second number when the first one ends.
module _ (rest : ℕ → ℕ) (digit : ℕ → ℕ → ℕ) where
  -- The operation, on as many digits as the first number is large.
  abbrev combined : ℕ → ℕ → ℕ
  combined x y = digits rest digit x x y

  ended : (count y : ℕ) → digits rest digit count 0 y ≡ rest y
  ended zero y = refl
  ended (suc count) y = refl

  settled :
      (x : ℕ)
      → ((count y : ℕ) → x / 2 ≤ count → digits rest digit count (x / 2) y ≡ combined (x / 2) y)
      → (count y : ℕ) → x ≤ count
      → digits rest digit count x y ≡ combined x y
  settled zero ih count y h = ended count y
  settled (suc x) ih zero y h = absurd (omega (arith, h))
  settled (suc x) ih (suc count) y h =
      ap (λ (k : ℕ). k * 2 + digit (suc x % 2) (y % 2))
        (ih count (y / 2) (omega (arith, h)) ∙ sym (ih x (y / 2) (omega arith)))

  -- More digits do not change the result.
  more_digits : (x count y : ℕ) → x ≤ count → digits rest digit count x y ≡ combined x y
  more_digits =
      by_halves {P = λ x. (count y : ℕ) → x ≤ count → digits rest digit count x y ≡ combined x y}
        (λ count y h. ended count y) settled

  -- The lowest digit and the others, if `rest` has them too.
  halves_of :
      ((y : ℕ) → rest y ≡ digit 0 (y % 2) + 2 * rest (y / 2))
      → (x y : ℕ) → combined x y ≡ digit (x % 2) (y % 2) + 2 * combined (x / 2) (y / 2)
  halves_of law zero y = law y
  halves_of law (suc x) y = omega (arith, more_digits (suc x / 2) x (y / 2) (omega arith))

pub bit_and-none : (m : ℕ) → bit_and 0 m ≡ 0
bit_and-none m = bit_and-bitwise 0 m

pub halves_of_and : (x m : ℕ) → bit_and x m ≡ min (x % 2) (m % 2) + 2 * bit_and (x / 2) (m / 2)
halves_of_and x m =
    bit_and-bitwise x m
    ∙ halves_of (λ y. zero) min (λ y. omega arith) x m
    ∙ ap (λ (k : ℕ). min (x % 2) (m % 2) + 2 * k) (sym (bit_and-bitwise (x / 2) (m / 2)))

pub halves_of_or : (x m : ℕ) → bit_or x m ≡ max (x % 2) (m % 2) + 2 * bit_or (x / 2) (m / 2)
halves_of_or x m =
    bit_or-bitwise x m
    ∙ halves_of (λ y. y) max (λ y. omega arith) x m
    ∙ ap (λ (k : ℕ). max (x % 2) (m % 2) + 2 * k) (sym (bit_or-bitwise (x / 2) (m / 2)))

-- A word with nothing.
pub bit_and-zero : (x : ℕ) → bit_and x 0 ≡ 0
bit_and-zero =
    by_halves {P = λ x. bit_and x 0 ≡ 0} (bit_and-none 0)
      (λ x ih. omega (arith, halves_of_and x 0, ih))

pub bit_or-zero : (x : ℕ) → bit_or x 0 ≡ x
bit_or-zero =
    by_halves {P = λ x. bit_or x 0 ≡ x} (bit_or-bitwise 0 0)
      (λ x ih. omega (arith, halves_of_or x 0, ih))

double : (k a : ℕ) → a * 2 ^ suc k ≡ a * 2 ^ k * 2
double k a = rw (pow-suc 2 k) (grind arith)

-- Numbers whose digits do not overlap.
pub bit_or_disjoint : (k a b : ℕ) → b < 2 ^ k → bit_or (a * 2 ^ k) b ≡ a * 2 ^ k + b
bit_or_disjoint zero a b h =
    let e : b ≡ 0 = omega (arith, h) in
    ap (bit_or (a * 1)) e ∙ bit_or-zero (a * 1) ∙ omega (arith, e)
bit_or_disjoint (suc k) a b h =
    let half : b / 2 < 2 ^ k = omega (arith, h, pow-suc 2 k) in
    let shifted : a * 2 ^ suc k / 2 ≡ a * 2 ^ k = omega (arith, double k a) in
    omega (
      arith,
      double k a,
      halves_of_or (a * 2 ^ suc k) b,
      ap (λ (x : ℕ). bit_or x (b / 2)) shifted,
      bit_or_disjoint k a (b / 2) half,
    )

-- What a mask lets pass is at most the mask.
pub bit_and_le : (x m : ℕ) → bit_and x m ≤ m
bit_and_le =
    by_halves {P = λ x. (m : ℕ) → bit_and x m ≤ m} (λ m. omega (arith, bit_and-none m))
      (λ x ih m. omega (arith, halves_of_and x m, ih (m / 2)))

-- What two words of `k` bits have together has no more.
pub bit_or_lt : (k a b : ℕ) → a < 2 ^ k → b < 2 ^ k → bit_or a b < 2 ^ k
bit_or_lt zero a b h l =
    let x : a ≡ 0 = omega (arith, h) in
    let y : b ≡ 0 = omega (arith, l) in let z : bit_or a b ≡ 0 = ap₂ bit_or x y in omega (arith, z)
bit_or_lt (suc k) a b h l =
    let p = pow-suc 2 k in
    omega (
      arith,
      p,
      h,
      l,
      halves_of_or a b,
      bit_or_lt k (a / 2) (b / 2) (omega (arith, h, p)) (omega (arith, l, p)),
    )

-- A word of `k` bits passes the mask of `k` ones.
pub bit_and_ones : (k a : ℕ) → a < 2 ^ k → bit_and a (2 ^ k - 1) ≡ a
bit_and_ones zero a h =
    let x : a ≡ 0 = omega (arith, h) in
    let z : bit_and a 0 ≡ 0 = bit_and-zero a in omega (arith, x, z)
bit_and_ones (suc k) a h =
    let p = pow-suc 2 k in
    let q : (2 ^ suc k - 1) / 2 ≡ 2 ^ k - 1 = omega (arith, p, h) in
    let ih = ap (bit_and (a / 2)) q ∙ bit_and_ones k (a / 2) (omega (arith, h, p)) in
    omega (arith, p, h, ih, halves_of_and a (2 ^ suc k - 1))
