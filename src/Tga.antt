-- ===== src/Tga.antt =====
-- libtga/tga.c: the header of a TGA file and the colours of its pixels. A file is the list of its
-- bytes; what a function reads outside it is `none`. A 16-bit read is big-endian, as on the SH-2.
pub mod Fill
pub mod Pixels
pub mod Rle
pub mod Palette
pub mod Indexed
pub mod Decode
mod Tests
use libyaul.Base.{
  ℕ, zero, suc, ◌+◌, ◌-◌, ◌*◌, ◌/◌, ◌%◌, ◌^◌, ◌≡◌, Bool, true, false, ◌&&◌, ◌||◌, not, List, [],
  ◌∷◌, Option, none, some, ltb, leb, ◌==◌, if◌then◌else◌, drop, length, bit_and, bit_or,
}

-- TGA_FILE_OK and the errors.
pub data Status : Type 0 where
  ok unknown_format corrupted not_supported memory_error unaligned : Status

-- `tga_t`; `tga_file` is the file that it points to, with the address behind its last byte, so that
-- a tail of the file has the address `file_end` less its length.
pub record Tga : Type 0 where
  pub file : List ℕ
  pub file_end : ℕ
  pub type : ℕ
  pub bpp : ℕ
  pub width : ℕ
  pub height : ℕ
  pub cmap_bpp : ℕ
  pub cmap_len : ℕ
  pub cmap_bytes : ℕ
  pub transparent_pixel : ℕ
  pub msb : Bool

-- What `tga_read` takes from the header.
pub record Header : Type 0 where
  pub have_cmap : ℕ
  pub image_type : ℕ
  pub cmap_offset : ℕ
  pub cmap_len : ℕ
  pub cmap_bpp : ℕ
  pub width : ℕ
  pub height : ℕ
  pub bpp : ℕ
  pub origin : ℕ

-- READ_LITTLE_ENDIAN_16
unfoldable pub little_endian : ℕ → ℕ → ℕ
little_endian lo hi = bit_or lo (hi * 2 ^ 8)

unfoldable pub header_of : List ℕ → Option Header
unfolding little_endian
header_of
      (_ ∷ cmap ∷ type ∷ o0 ∷ o1 ∷ l0 ∷ l1 ∷ cbpp ∷ _ ∷ _ ∷ _ ∷ _ ∷ w0 ∷ w1 ∷ h0 ∷ h1 ∷ bpp
        ∷ descriptor ∷ rest) =
    some (record {
      have_cmap = cmap;
      image_type = type;
      cmap_offset = little_endian o0 o1;
      cmap_len = little_endian l0 l1;
      cmap_bpp = cbpp;
      width = little_endian w0 w1;
      height = little_endian h0 h1;
      bpp = bpp;
      origin = bit_and descriptor 0x30;
    })
header_of _ = none

-- The first `switch` of `tga_read`.
unfoldable pub check_type : Header → Status
check_type h =
    if h.image_type == 3 || h.image_type == 11
    then (if not (h.bpp / 8 == 1) || not (h.have_cmap == 0) then corrupted else ok)
    else if h.image_type == 2 || h.image_type == 10
    then (if not (h.bpp / 8 == 2) && not (h.bpp / 8 == 3) && not (h.bpp / 8 == 4)
          || not (h.have_cmap == 0)
        then corrupted
        else ok)
    else if h.image_type == 1 || h.image_type == 9
    then (if h.have_cmap == 0 || leb h.cmap_len h.cmap_offset
        then corrupted
        else if h.cmap_bpp == 15 || h.cmap_bpp == 16 || h.cmap_bpp == 24 || h.cmap_bpp == 32
        then ok
        else corrupted)
    else corrupted

-- The second.
unfoldable pub check_support : Header → Status
check_support h =
    if h.image_type == 3 || h.image_type == 11
    then not_supported
    else if h.image_type == 1
    then (if h.have_cmap == 0 then corrupted else ok)
    else if h.image_type == 9
    then not_supported
    else ok

-- All checks of `tga_read`, in their order.
unfoldable pub check : Header → Status
unfolding check_type check_support
check h =
    if h.width == 0 || h.height == 0 || ltb 512 h.width || ltb 482 h.height
    then corrupted
    else if not (h.origin == 0x20)
    then not_supported
    else elim (check_type h) [
      | ok ↦ check_support h
      | unknown_format ↦ unknown_format
      | corrupted ↦ corrupted
      | not_supported ↦ not_supported
      | memory_error ↦ memory_error
      | unaligned ↦ unaligned
    ]

-- What `tga_read` leaves in the `tga_t`; the two options of the user stay.
unfoldable pub kept : Status → Header → List ℕ → Tga → Tga
kept ok h file tga = record tga {
  file = file;
  type = h.image_type;
  bpp = h.bpp;
  width = h.width;
  height = h.height;
  cmap_bpp = h.cmap_bpp;
  cmap_len = h.cmap_len;
  cmap_bytes = h.cmap_len * (h.cmap_bpp / 8);
}
kept _ h file tga = tga

unfoldable pub read : List ℕ → Tga → Option (Status × Tga)
unfolding header_of check kept
read file tga = elim (header_of file) [
  | none ↦ none
  | some h ↦ some (check h, kept (check h) h file tga)
]

-- The file from `_cmap_calculate_offset` and from `_image_calculate_offset` on.
unfoldable pub cmap_buffer : Tga → Option (List ℕ)
cmap_buffer tga = elim tga.file [ [] ↦ none | id_len ∷ rest ↦ some (drop (18 + id_len) tga.file) ]

unfoldable pub image_buffer : Tga → Option (List ℕ)
image_buffer tga = elim tga.file [
  | [] ↦ none
  | id_len ∷ rest ↦ some (drop (18 + id_len + tga.cmap_bytes) tga.file)
]

-- BGR16_DATA_TO_RGB555, on the 16 bits read, and BGR24_DATA_TO_RGB555, which is also
-- BGRA32_DATA_TO_RGB555.
pub rgb555_of_16 : ℕ → ℕ
rgb555_of_16 c =
    bit_or (bit_or (bit_and c 0x001F * 2 ^ 10) (bit_and c 0x03E0)) (bit_and c 0x7C00 / 2 ^ 10)

pub rgb555_of_24 : ℕ → ℕ → ℕ → ℕ
rgb555_of_24 c0 c1 c2 = bit_or (bit_or (c0 / 8 * 2 ^ 10) (c1 / 8 * 2 ^ 5)) (c2 / 8)

-- The colours of the `switch (bytes_pp)` of the decoders at the start of some bytes, into a
-- `uint16_t`. A size that it has no case for leaves `pixel` without a value: `none`.
unfoldable pub pixel_of_two : List ℕ → Option ℕ
unfolding rgb555_of_16
pixel_of_two (hi ∷ lo ∷ rest) = some (rgb555_of_16 (hi * 2 ^ 8 + lo) % 2 ^ 16)
pixel_of_two _ = none

unfoldable pub pixel_of_three : List ℕ → Option ℕ
unfolding rgb555_of_24
pixel_of_three (c0 ∷ c1 ∷ c2 ∷ rest) = some (rgb555_of_24 c0 c1 c2 % 2 ^ 16)
pixel_of_three _ = none

unfoldable pub colour_of : ℕ → List ℕ → Option ℕ
unfolding pixel_of_two pixel_of_three
colour_of bytes_pp bytes =
    if bytes_pp == 2
    then pixel_of_two bytes
    else if bytes_pp == 3 || bytes_pp == 4
    then pixel_of_three bytes
    else none

-- Is the address of a tail of the file odd?
abbrev pub odd_address : Tga → List ℕ → Bool
odd_address tga bytes = (tga.file_end + length bytes) % 2 == 1

-- The `switch`, where the access to a `uint16_t` of BGR16_DATA_TO_RGB555 is undefined at an odd
-- address.
unfoldable pub pixel_of : Tga → ℕ → List ℕ → Option ℕ
unfolding colour_of
pixel_of tga bytes_pp bytes =
    if bytes_pp == 2 && odd_address tga bytes then none else colour_of bytes_pp bytes

-- `tga_options.transparent_pixel & ~0x8000`, as a `uint16_t`
unfoldable pub transparent : Tga → ℕ
transparent tga = bit_and (tga.transparent_pixel % 2 ^ 16) 0x7FFF

-- What a decoder stores for a pixel.
unfoldable pub stored : Tga → ℕ → ℕ
unfolding transparent
stored tga pixel =
    if pixel == transparent tga
    then (if tga.msb then 0x8000 else 0)
    else bit_or 0x8000 pixel % 2 ^ 16

-- One pixel of a decoder.
unfoldable pub decode_pixel : Tga → List ℕ → Option ℕ
unfolding pixel_of stored
decode_pixel tga bytes = elim (pixel_of tga (tga.bpp / 8) bytes) [
  | none ↦ none
  | some p ↦ some (stored tga p)
]
