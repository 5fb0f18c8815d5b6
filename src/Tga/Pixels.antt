-- ===== src/Tga/Pixels.antt =====
-- libtga/tga.c: the loop of the true-colour decoder, which is also that of a raw packet.
pub mod Flat
use libyaul.Base.{
  ℕ, zero, suc, ◌+◌, ◌*◌, ◌/◌, ◌%◌, ◌==◌, if◌then◌else◌, List, [], ◌∷◌, Option, none, some, drop,
}
use libyaul.Tga.{Tga, Status, image_buffer, decode_pixel}

-- How a decoder ends: with the values that it stored from `dst` on and the index that it returns,
-- with an error, or without a meaning: it read outside the file, or a size of pixel that it has no
-- case for.
pub data Decoded : Type 0 where
  decoded : List ℕ → ℕ → Decoded
  failed : Status → Decoded
  undefined : Decoded

-- A value, then those of the rest of the loop.
abbrev pub joined : Option ℕ → Option (List ℕ) → Option (List ℕ)
joined none rest = none
joined (some p) none = none
joined (some p) (some out) = some (p ∷ out)

-- From the pixel `idx` on, `left` pixels.
unfoldable pub pixels_from : Tga → ℕ → ℕ → List ℕ → Option (List ℕ)
pixels_from tga idx zero buf = some []
pixels_from tga idx (suc left) buf =
    joined (decode_pixel tga (drop (tga.bpp / 8 * idx) buf)) (pixels_from tga (suc idx) left buf)

-- Values of 16 bits stored from `dst` on: a store to an odd address is undefined.
unfoldable pub stored_at : ℕ → Option (List ℕ) → Option (List ℕ)
stored_at dst none = none
stored_at dst (some []) = some []
stored_at dst (some (v ∷ vs)) = if dst % 2 == 1 then none else some (v ∷ vs)

-- `true_color_image_decode` on the bytes of the image, and as a whole.
unfoldable pub true_color : Tga → ℕ → List ℕ → Decoded
unfolding pixels_from stored_at
true_color tga dst buf = elim (stored_at dst (pixels_from tga 0 (tga.width * tga.height) buf)) [
  | none ↦ undefined
  | some out ↦ decoded out (tga.width * tga.height)
]

unfoldable pub true_color_image_decode : Tga → ℕ → Decoded
unfolding true_color
true_color_image_decode tga dst = elim (image_buffer tga) [
  | none ↦ undefined
  | some buf ↦ true_color tga dst buf
]
