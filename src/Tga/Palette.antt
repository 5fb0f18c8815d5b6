-- ===== src/Tga/Palette.antt =====
-- libtga/tga.c: `tga_cmap_decode`, which puts the transparent colour at the place 0.
pub mod First
use libyaul.Base.{
  ℕ, zero, suc, ◌+◌, ◌*◌, ◌/◌, ◌<◌, ◌≡◌, ◌⊎◌, inl, inr, refl, sym, ap, ◌∙◌, Bool, true, false, ◌||◌,
  List, [], ◌∷◌, Option, none, some, ◌==◌, if◌then◌else◌, bit_or, drop, length, set, get_elem?,
  arith, Option-cases, Bool-cases,
}
use libyaul.Tga.{Tga, Status, not_supported, cmap_buffer, pixel_of, transparent}
use libyaul.Tga.Pixels.{Decoded, stored_at, decoded, failed, undefined}

-- The colour of the map at an index.
unfoldable pub colour : Tga → List ℕ → ℕ → Option ℕ
colour tga buf idx = pixel_of tga (tga.cmap_bpp / 8) (drop (tga.cmap_bpp / 8 * idx) buf)

abbrev pub entry : ℕ → Option (List ℕ × Option ℕ) → Option (List ℕ × Option ℕ)
entry p none = none
entry p (some (out, last)) = some (bit_or 0x8000 p ∷ out, last)

-- `cmap_transparent_idx` after a colour; `none` is -1.
unfoldable pub seen : Tga → ℕ → ℕ → Option ℕ → Option ℕ
seen tga idx p last = if p == transparent tga then some idx else last

-- The loop from `idx` on, with `left` colours to go: what it stores and the last value of
-- `cmap_transparent_idx`.
unfoldable pub colours : Tga → ℕ → ℕ → List ℕ → Option ℕ → Option (List ℕ × Option ℕ)
unfolding colour seen
colours tga idx zero buf last = some ([], last)
colours tga idx (suc left) buf last = elim (colour tga buf idx) [
  | none ↦ none
  | some p ↦ entry p (colours tga (suc idx) left buf (seen tga idx p last))
]

-- The swap. An index that the loop gave is in the list.
unfoldable pub swapped : List ℕ → Option ℕ → List ℕ
swapped out none = out
swapped out (some zero) = out
swapped [] (some (suc i)) = []
swapped (c ∷ out) (some (suc i)) = elim (get_elem? out i) [
  | none ↦ c ∷ out
  | some t ↦ t ∷ set out i c
]

unfoldable pub cmap_decode : Tga → ℕ → Decoded
unfolding colours swapped stored_at
cmap_decode tga dst =
    if tga.type == 1 || tga.type == 9
    then elim (cmap_buffer tga) [
      | none ↦ undefined
      | some buf ↦ elim (colours tga 0 tga.cmap_len buf none) [
        | none ↦ undefined
        | some (out, last) ↦ elim (stored_at dst (some out)) [
          | none ↦ undefined
          | some out' ↦ decoded (swapped out' last) tga.cmap_len
        ]
      ]
    ]
    else failed not_supported
