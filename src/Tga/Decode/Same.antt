-- ===== src/Tga/Decode/Same.antt =====
-- libtga/tga.c: the two true-colour decoders on encodings of the same image.
use libyaul.Base.{
  ℕ, ◌*◌, ◌/◌, ◌%◌, ◌≡◌, inr, refl, sym, ap, ◌∙◌, true, List, ◌++◌, some, length, map, arith,
}
use libyaul.Tga.{Tga, image_buffer, stored, transparent}
use libyaul.Tga.Pixels.{decoded, pixels_from, true_color, true_color_image_decode}
use libyaul.Tga.Pixels.Flat.{flat, value, IsWide, pixels_from-flat, stored_at-even}
use libyaul.Tga.Rle.{true_color_rle_image_decode}
use libyaul.Tga.Rle.Packets.{Packet, encode, plain, well_formed, packets-encode, sized-plain}
use libyaul.Tga.Decode.{image_decode}

-- The same image in a file without packets.
abbrev pub unpacked_in : Tga → List ℕ → Tga
unpacked_in tga file = record tga { type = 2; file = file }

value-unpacked :
    (tga : Tga) (file : List ℕ) (pxs : List (List ℕ))
    → map (value (unpacked_in tga file)) pxs ≡ map (value tga) pxs
unfolding value stored transparent
value-unpacked tga file pxs = refl

-- `tga_image_decode` of a run-length image stores what it stores for the same pixels in a file
-- without packets, and returns the same, for any encoding of the image into packets of 1 to 128
-- pixels of 3 or 4 bytes; both destinations have even addresses.
pub image_decode-run_length :
    (tga : Tga) (file : List ℕ) (dst dst' : ℕ) (ps : List Packet) (rest rest' : List ℕ)
    → tga.type ≡ 10
    → IsWide tga
    → dst % 2 ≡ 0
    → dst' % 2 ≡ 0
    → well_formed (tga.bpp / 8) ps ≡ true
    → length (plain ps) ≡ tga.width * tga.height
    → image_buffer tga ≡ some (encode ps ++ rest)
    → image_buffer (unpacked_in tga file) ≡ some (flat (plain ps) ++ rest')
    → image_decode tga dst ≡ image_decode (unpacked_in tga file) dst'
unfolding image_decode true_color_image_decode true_color_rle_image_decode true_color
image_decode-run_length tga file dst dst' ps rest rest' t h even even' w l b b' =
    let p =
      packets-encode ps (tga.width * tga.height) tga dst 0 rest h even w (omega (arith, l))
        (omega (arith, l)) in
    let q : pixels_from (unpacked_in tga file) 0 (tga.width * tga.height) (flat (plain ps) ++ rest')
        ≡ some (map (value tga) (plain ps)) =
      rw (sym l) (
        pixels_from-flat (unpacked_in tga file) (plain ps) rest' (inr h)
          (sized-plain (tga.bpp / 8) ps w)
        ∙ ap some (value-unpacked tga file (plain ps))) in
    let x : image_decode tga dst
        ≡ some (decoded (map (value tga) (plain ps)) (tga.width * tga.height)) =
      ground (arith, t, b, p) in
    let y : true_color_image_decode (unpacked_in tga file) dst'
        ≡ true_color (unpacked_in tga file) dst' (flat (plain ps) ++ rest') =
      rw (true_color_image_decode, b') refl in
    let z : true_color (unpacked_in tga file) dst' (flat (plain ps) ++ rest')
        ≡ decoded (map (value tga) (plain ps)) (tga.width * tga.height) =
      rw (true_color, q, stored_at-even dst' (some (map (value tga) (plain ps))) even') refl in
    x ∙ sym (ap some (y ∙ z))
