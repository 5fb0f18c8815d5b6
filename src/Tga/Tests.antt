-- ===== src/Tga/Tests.antt =====
-- Runs of the TGA decoders on small files.
use libyaul.Base.{
  ℕ, ◌≡◌, refl, List, [], ◌∷◌, ◌++◌, some, false, inl, arith, length, get_elem?, bit_or, replicate,
  ◌+◌, ◌*◌, ◌≤◌, ◌<◌,
}
use libyaul.Tga.{
  Tga, ok, header_of, check, check_type, check_support, kept, read, little_endian, image_buffer,
  cmap_buffer, pixel_of, colour_of, pixel_of_two, rgb555_of_16, transparent, pixel_of_three,
  rgb555_of_24, stored, decode_pixel,
}
use libyaul.Tga.Fill.{fill, fill_words, fill_by_four, fill_by_one, doubled, halves}
use libyaul.Tga.Fill.Words.{fill-replicate}
use libyaul.Tga.Pixels.{decoded, undefined, pixels_from}
use libyaul.Tga.Pixels.Flat.{flat, sized}
use libyaul.Tga.Rle.{
  packets, packet_values, packet_bytes, is_run, count, true_color_rle_image_decode,
}
use libyaul.Tga.Rle.Packets.{Packet, raw, run, encode, encode_packet, plain, pixels, well_formed}
use libyaul.Tga.Rle.Length.{packets-bounds}
use libyaul.Tga.Palette.{cmap_decode, colours, colour, seen, swapped}
use libyaul.Tga.Palette.First.{cmap_decode-transparent}
use libyaul.Tga.Indexed.{cmap_image_decode}
use libyaul.Tga.Indexed.Nibbles.{unpacked, all_small, cmap_image_decode-unpacked}
use libyaul.Tga.Decode.{image_decode}
use libyaul.Tga.Decode.Same.{unpacked_in, image_decode-run_length}
use libyaul.Tga.Decode.Accepted.{Fits, Written, image_decode-read}

-- The header of an image of 2 by 2 pixels.
abbrev header : ℕ → ℕ → ℕ → ℕ → ℕ → List ℕ
header cmap type cmap_len cmap_bpp bpp =
    0 ∷ cmap ∷ type ∷ 0 ∷ 0 ∷ cmap_len ∷ 0 ∷ cmap_bpp ∷ 0 ∷ 0 ∷ 0 ∷ 0 ∷ 2 ∷ 0 ∷ 2 ∷ 0 ∷ bpp ∷ 0x20
    ∷ []

-- A `tga_t` before `tga_read`, with the transparent colour black.
abbrev blank : Tga
blank = record {
  file = [];
  file_end = 0;
  type = 0;
  bpp = 0;
  width = 0;
  height = 0;
  cmap_bpp = 0;
  cmap_len = 0;
  cmap_bytes = 0;
  transparent_pixel = 0;
  msb = false;
}

abbrev packets_of_four : List Packet
packets_of_four = run 3 (8 ∷ 16 ∷ 24 ∷ []) ∷ raw ((0 ∷ 0 ∷ 0 ∷ []) ∷ []) ∷ []

abbrev packet_file : List ℕ
packet_file = header 0 10 0 0 24 ++ (130 ∷ 8 ∷ 16 ∷ 24 ∷ 0 ∷ 0 ∷ 0 ∷ 0 ∷ [])

abbrev plain_file : List ℕ
plain_file = header 0 2 0 0 24 ++ (8 ∷ 16 ∷ 24 ∷ 8 ∷ 16 ∷ 24 ∷ 8 ∷ 16 ∷ 24 ∷ 0 ∷ 0 ∷ 0 ∷ [])

abbrev packet_image : Tga
packet_image = record blank { file = packet_file; type = 10; bpp = 24; width = 2; height = 2 }

read_example : read packet_file blank ≡ some (ok, packet_image)
unfolding read header_of check check_type check_support kept little_endian
read_example = refl

decode_example : image_decode packet_image 0 ≡ some (decoded (0x8443 ∷ 0x8443 ∷ 0x8443 ∷ 0 ∷ []) 4)
unfolding image_decode true_color_rle_image_decode packets packet_values packet_bytes is_run count
    image_buffer pixels_from decode_pixel pixel_of colour_of pixel_of_three rgb555_of_24 stored
    transparent fill fill_words fill_by_four fill_by_one doubled halves
decode_example = refl

image_decode-run_length_example :
    image_decode packet_image 0 ≡ image_decode (unpacked_in packet_image plain_file) 2
unfolding encode encode_packet plain pixels well_formed sized flat image_buffer
image_decode-run_length_example =
    image_decode-run_length packet_image plain_file 0 2 packets_of_four [] [] refl (inl refl) refl
      refl refl refl refl refl

abbrev plain_image : Tga
plain_image = record blank { file = plain_file; type = 2; bpp = 24; width = 2; height = 2 }

abbrev plain_bytes : List ℕ
plain_bytes = 8 ∷ 16 ∷ 24 ∷ 8 ∷ 16 ∷ 24 ∷ 8 ∷ 16 ∷ 24 ∷ 0 ∷ 0 ∷ 0 ∷ []

image_decode-read_example : Written plain_image (image_decode plain_image 0)
unfolding read header_of check check_type check_support kept little_endian image_buffer
image_decode-read_example =
    image_decode-read plain_file blank plain_image 0 plain_bytes refl refl refl
      (Fits.plain_fits refl (omega arith) (λ e. absurd (omega (arith, e))))

-- Pixels of 2 bytes behind the first byte of a packet are at odd addresses here.
odd_example :
    image_decode
      (record packet_image {
        file = header 0 10 0 0 16 ++ (131 ∷ 0 ∷ 0 ∷ []);
        bpp = 16;
        file_end = 21;
      })
      0
    ≡ some undefined
unfolding image_decode true_color_rle_image_decode packets packet_values packet_bytes is_run count
    image_buffer pixels_from decode_pixel pixel_of colour_of pixel_of_two rgb555_of_16 stored
    transparent fill fill_words fill_by_four fill_by_one doubled halves
odd_example = refl

-- A run of 128 in an image of four pixels: 124 values are written behind it.
abbrev long_run : List ℕ
long_run = 255 ∷ 0 ∷ 0 ∷ 0 ∷ []

packets-bounds_example : (0 + length {A = ℕ} (replicate 128 0) ≡ 128) × (4 ≤ 128) × (128 < 4 + 128)
unfolding packets packet_values packet_bytes is_run count decode_pixel pixel_of colour_of
    pixel_of_three rgb555_of_24 stored transparent fill fill_words fill_by_four fill_by_one doubled
    halves
packets-bounds_example =
    packets-bounds 4 packet_image 0 0 128 long_run (replicate 128 0) refl (omega arith) refl

fill-replicate_example : fill 2 0xABCD (2 * 11) ≡ some (some (replicate 11 0xABCD))
fill-replicate_example = fill-replicate 2 0xABCD 11 refl (omega arith) (omega arith) (omega arith)

-- Four colours of 24 bits; the one at 2 is black.
abbrev cmap_image : Tga
cmap_image = record blank {
  file =
      header 1 1 4 24 8
      ++ (8 ∷ 8 ∷ 8 ∷ 16 ∷ 16 ∷ 16 ∷ 0 ∷ 0 ∷ 0 ∷ 24 ∷ 24 ∷ 24 ∷ 0 ∷ 1 ∷ 2 ∷ 3 ∷ []);
  type = 1;
  bpp = 8;
  width = 2;
  height = 2;
  cmap_bpp = 24;
  cmap_len = 4;
  cmap_bytes = 12;
}

cmap_decode-transparent_example :
    (length {A = ℕ} (0x8000 ∷ 0x8842 ∷ 0x8421 ∷ 0x8C63 ∷ []) ≡ 4)
    × (get_elem? {A = ℕ} (0x8000 ∷ 0x8842 ∷ 0x8421 ∷ 0x8C63 ∷ []) 0 ≡ some (bit_or 0x8000 0))
unfolding cmap_decode colours colour seen swapped cmap_buffer pixel_of colour_of pixel_of_three
    rgb555_of_24 transparent
cmap_decode-transparent_example =
    cmap_decode-transparent cmap_image 0
      (8 ∷ 8 ∷ 8 ∷ 16 ∷ 16 ∷ 16 ∷ 0 ∷ 0 ∷ 0 ∷ 24 ∷ 24 ∷ 24 ∷ 0 ∷ 1 ∷ 2 ∷ 3 ∷ [])
      (0x8000 ∷ 0x8842 ∷ 0x8421 ∷ 0x8C63 ∷ []) 2 4 refl refl (omega arith) refl refl

cmap_image_decode-unpacked_example :
    (out : List ℕ) × (cmap_image_decode cmap_image ≡ decoded out 4)
    × (unpacked out ≡ 0 ∷ 1 ∷ 2 ∷ 3 ∷ [])
unfolding image_buffer all_small
cmap_image_decode-unpacked_example =
    cmap_image_decode-unpacked cmap_image (0 ∷ 1 ∷ 2 ∷ 3 ∷ []) [] refl refl refl (omega arith) refl
