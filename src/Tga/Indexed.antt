-- ===== src/Tga/Indexed.antt =====
-- libtga/tga.c: `cmap_image_decode`, which packs two pixels into a byte for small colour maps.
pub mod Nibbles
use libyaul.Base.{
  ℕ, zero, suc, ◌+◌, ◌*◌, ◌^◌, ◌≡◌, Bool, true, false, List, [], ◌∷◌, Option, none, some, ltb, leb,
  if◌then◌else◌, bit_and, bit_or, get_elem?,
}
use libyaul.Tga.{Tga, Status, image_buffer}
use libyaul.Tga.Pixels.{Decoded, decoded, failed, undefined}

abbrev pub stored_before : ℕ → Option (List ℕ × ℕ) → Option (List ℕ × ℕ)
stored_before b none = none
stored_before b (some (out, idx)) = some (b ∷ out, idx)

-- The byte for two pixels.
unfoldable pub nibbles : ℕ → ℕ → ℕ
nibbles a b = bit_or (bit_and a 0x0F * 2 ^ 4) (bit_and b 0x0F)

unfoldable pub two_pixels : List ℕ → ℕ → Option ℕ
unfolding nibbles
two_pixels buf idx = elim (get_elem? buf idx) [
  | none ↦ none
  | some a ↦ elim (get_elem? buf (idx + 1)) [ none ↦ none | some b ↦ some (nibbles a b) ]
]

-- The first loop, on at most `fuel` rounds: what it stores, and `pixel_idx`. `none` when it reads
-- outside the file, or for more rounds.
unfoldable pub packed : ℕ → ℕ → ℕ → List ℕ → Option (List ℕ × ℕ)
unfolding two_pixels
packed zero pixels idx buf = if ltb idx pixels then none else some ([], idx)
packed (suc fuel) pixels idx buf =
    let rest = packed fuel pixels (idx + 2) buf in
    if ltb idx pixels
    then elim (two_pixels buf idx) [ none ↦ none | some b ↦ stored_before b rest ]
    else some ([], idx)

-- The second loop, with `left` pixels to go.
unfoldable pub copied : ℕ → ℕ → List ℕ → Option (List ℕ × ℕ)
copied zero idx buf = some ([], idx)
copied (suc left) idx buf = elim (get_elem? buf idx) [
  | none ↦ none
  | some b ↦ stored_before b (copied left (idx + 1) buf)
]

abbrev pub ended : Option (List ℕ × ℕ) → Decoded
ended none = undefined
ended (some (out, idx)) = decoded out idx

-- `cmap_image_decode` on the bytes of the image. The test is on `int`: an empty colour map
-- passes it.
unfoldable pub cmap_pixels : Tga → List ℕ → Option (List ℕ × ℕ)
unfolding packed copied
cmap_pixels tga buf =
    let pixels = tga.width * tga.height in
    if leb tga.cmap_len 17 then packed pixels pixels 0 buf else copied pixels 0 buf

unfoldable pub cmap_image_decode : Tga → Decoded
unfolding cmap_pixels
cmap_image_decode tga = elim (image_buffer tga) [
  | none ↦ undefined
  | some buf ↦ ended (cmap_pixels tga buf)
]
