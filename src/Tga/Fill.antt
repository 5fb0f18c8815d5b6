-- ===== src/Tga/Fill.antt =====
-- libtga/tga.c: `_true_color_image_fill`, which writes runs of a colour by words of 32 bits.
pub mod Words
use libyaul.Base.{
  ℕ, zero, suc, ◌+◌, ◌-◌, ◌*◌, ◌/◌, ◌%◌, ◌^◌, ◌≤◌, ◌<◌, ◌≡◌, ◌≢◌, refl, sym, ap, ap₂, ◌∙◌, Bool,
  true, false, not, List, [], ◌∷◌, ◌++◌, Option, none, some, leb, ltb, ◌==◌, if◌then◌else◌, bit_or,
  arith, replicate, length,
}
use libyaul.Base.Words.{sub32}

-- The two 16-bit values that a 32-bit write leaves, as the SH-2 stores it.
unfoldable pub halves : ℕ → List ℕ
halves value = value / 2 ^ 16 ∷ value % 2 ^ 16 ∷ []

-- `value = (s << 16) | s`
unfoldable pub doubled : ℕ → ℕ
doubled s = bit_or (s * 2 ^ 16 % 2 ^ 32) s

-- The loop of four writes, then the loop of one: what is written, and the amount left.
unfoldable pub fill_by_four : ℕ → ℕ → ℕ → Option (List ℕ × ℕ)
fill_by_four zero value amt = none
fill_by_four (suc fuel) value amt =
    let rest = fill_by_four fuel value (amt - 16) in
    if leb 16 amt
    then elim rest [
      | none ↦ none
      | some (out, left) ↦
          some (halves value ++ (halves value ++ (halves value ++ (halves value ++ out))), left)
    ]
    else some ([], amt)

unfoldable pub fill_by_one : ℕ → ℕ → ℕ → Option (List ℕ × ℕ)
fill_by_one zero value amt = none
fill_by_one (suc fuel) value amt =
    let rest = fill_by_one fuel value (amt - 4) in
    if leb 4 amt
    then elim rest [ none ↦ none | some (out, left) ↦ some (halves value ++ out, left) ]
    else some ([], amt)

-- What follows the tests of the alignment, with `out` written and `amt` bytes to go, on at most
-- `fuel` rounds of each loop. `none` stands for more rounds, `some none` for
-- TGA_MEMORY_UNALIGNMENT_ERROR.
unfoldable pub fill_words : ℕ → ℕ → List ℕ → ℕ → Option (Option (List ℕ))
unfolding fill_by_four fill_by_one doubled
fill_words fuel s out amt = elim (fill_by_four fuel (doubled s) amt) [
  | none ↦ none
  | some (fours, left) ↦ elim (fill_by_one fuel (doubled s) left) [
    | none ↦ none
    | some (ones, rest) ↦
        if rest == 0
        then some (some (out ++ (fours ++ ones)))
        else if sub32 rest 2 == 0
        then some (some (out ++ (fours ++ (ones ++ s ∷ []))))
        else some none
  ]
]

-- `_true_color_image_fill` at an address, with a length in bytes.
unfoldable pub fill : ℕ → ℕ → ℕ → Option (Option (List ℕ))
unfolding fill_words
fill dst s len =
    if dst % 2 == 1
    then some none
    else if len % 2 == 1
    then some none
    else if dst / 2 % 2 == 1
    then fill_words (len + 1) s (s ∷ []) (sub32 len 2)
    else fill_words (len + 1) s [] len
