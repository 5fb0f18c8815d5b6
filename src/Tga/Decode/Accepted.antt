-- ===== src/Tga/Decode/Accepted.antt =====
-- libtga/tga.c: what `tga_read` accepts, and the decoders on it.
use libyaul.Base.{
  ℕ, ◌*◌, ◌/◌, ◌%◌, ◌<◌, ◌≤◌, ◌≡◌, ◌≢◌, ◌⊎◌, inl, inr, length, ◌+◌, refl, sym, ap, ◌∙◌, List,
  Option, some, arith, Option-cases, some_eq,
}
use mathlib.Core.Path.{subst}
use libyaul.Tga.{
  Tga, Header, Status, ok, check, check_type, check_support, kept, read, header_of, image_buffer,
}
use libyaul.Tga.Pixels.{Decoded, decoded, true_color, true_color_image_decode}
use libyaul.Tga.Pixels.Flat.{IsWide, IsReadable, stored_at-even, pixels_from-long}
use libyaul.Tga.Rle.{true_color_rle_image_decode}
use libyaul.Tga.Rle.Length.{packets-bounds, length-pixels_from}
use libyaul.Tga.Rle.Long.{packets-long}
use libyaul.Tga.Decode.{image_decode}

-- What holds of an image that `tga_read` has accepted.
pub record Accepted (tga : Tga) : Type 0 where
  width_pos : 0 < tga.width
  width_most : tga.width ≤ 512
  height_pos : 0 < tga.height
  height_most : tga.height ≤ 482
  kind :
      (tga.type ≡ 1)
      ⊎ (((tga.type ≡ 2) ⊎ (tga.type ≡ 10))
          × ((tga.bpp / 8 ≡ 2) ⊎ (tga.bpp / 8 ≡ 3) ⊎ (tga.bpp / 8 ≡ 4)))

check-ok :
    (h : Header)
    → check h ≡ ok
    → (0 < h.width)
      × (h.width ≤ 512)
      × (0 < h.height)
      × (h.height ≤ 482)
      × (check_type h ≡ ok)
      × (check_support h ≡ ok)
unfolding check
check-ok h e = (
  ground (arith, e),
  ground (arith, e),
  ground (arith, e),
  ground (arith, e),
  ground (arith, e),
  ground (arith, e),
)

check_type-ok :
    (h : Header)
    → check_type h ≡ ok
    → check_support h ≡ ok
    → (h.image_type ≡ 1)
      ⊎ (((h.image_type ≡ 2) ⊎ (h.image_type ≡ 10))
          × ((h.bpp / 8 ≡ 2) ⊎ (h.bpp / 8 ≡ 3) ⊎ (h.bpp / 8 ≡ 4)))
unfolding check_type check_support
check_type-ok h e f = ground (arith, e, f)

read-ok :
    (bytes : List ℕ) (before tga : Tga)
    → read bytes before ≡ some (ok, tga)
    → (h : Header) × (check h ≡ ok)
      × (tga.type ≡ h.image_type)
      × (tga.bpp ≡ h.bpp)
      × (tga.width ≡ h.width)
      × (tga.height ≡ h.height)
unfolding read kept
read-ok bytes before tga e = elim (Option-cases (header_of bytes)) [
  | inl n ↦ absurd (ground (arith, e, n))
  | inr (h, n) ↦
      let r : some (check h, kept (check h) h bytes before) ≡ some (ok, tga) =
        let d : read bytes before ≡ some (check h, kept (check h) h bytes before) =
          rw (read, n) refl in
        sym d ∙ e in
      let p : (check h, kept (check h) h bytes before) ≡ (ok, tga) = some_eq _ _ r in
      let c : check h ≡ ok = ap (λ (x : Status × Tga). x.0) p in
      let k : kept ok h bytes before ≡ tga =
        sym (ap (λ (x : Status). kept x h bytes before) c) ∙ ap (λ (x : Status × Tga). x.1) p in
      (
        h,
        c,
        sym (ap (λ (x : Tga). x.type) k),
        sym (ap (λ (x : Tga). x.bpp) k),
        sym (ap (λ (x : Tga). x.width) k),
        sym (ap (λ (x : Tga). x.height) k),
      )
]

pub read-Accepted :
    (bytes : List ℕ) (before tga : Tga) → read bytes before ≡ some (ok, tga) → Accepted tga
read-Accepted bytes before tga e =
    let (h, c, t, b, w, v) = read-ok bytes before tga e in
    let (w0, w1, v0, v1, f, g) = check-ok h c in
    record {
      width_pos = omega (arith, w, w0);
      width_most = omega (arith, w, w1);
      height_pos = omega (arith, v, v0);
      height_most = omega (arith, v, v1);
      kind = rw (t, b) (check_type-ok h f g);
    }

-- The bytes that a decoder may read, from the start of the image on: those of all pixels of the
-- plain format, with an even address for pixels of 2 bytes; of the packets, whose pixels have 3 or
-- 4 bytes, 5 bytes for each pixel and 635 more.
pub data Fits (tga : Tga) (buf : List ℕ) : Type 0 where
  plain_fits :
      tga.type ≡ 2
      → tga.width * tga.height * (tga.bpp / 8) ≤ length buf
      → (tga.bpp / 8 ≡ 2 → (tga.file_end + length buf) % 2 ≡ 0)
      → Fits tga buf
  packets_fit :
      tga.type ≡ 10 → tga.bpp / 8 ≢ 2 → tga.width * tga.height * 5 + 635 ≤ length buf → Fits tga buf

sizes_of :
    (tga : Tga)
    → (tga.type ≡ 1)
      ⊎ (((tga.type ≡ 2) ⊎ (tga.type ≡ 10))
          × ((tga.bpp / 8 ≡ 2) ⊎ (tga.bpp / 8 ≡ 3) ⊎ (tga.bpp / 8 ≡ 4)))
    → (tga.type ≡ 2) ⊎ (tga.type ≡ 10)
    → (tga.bpp / 8 ≡ 2) ⊎ (tga.bpp / 8 ≡ 3) ⊎ (tga.bpp / 8 ≡ 4)
sizes_of tga (inl one) (inl t) = absurd (omega (arith, one, t))
sizes_of tga (inl one) (inr t) = absurd (omega (arith, one, t))
sizes_of tga (inr (k, s)) t = s

sizes :
    (tga : Tga)
    → Accepted tga
    → (tga.type ≡ 2) ⊎ (tga.type ≡ 10)
    → (tga.bpp / 8 ≡ 2) ⊎ (tga.bpp / 8 ≡ 3) ⊎ (tga.bpp / 8 ≡ 4)
sizes tga a t = sizes_of tga a.kind t

pixels_pos : (tga : Tga) → Accepted tga → 0 < tga.width * tga.height
pixels_pos tga a = grind (arith, a.width_pos, a.height_pos)

readable :
    (tga : Tga) (buf : List ℕ)
    → (tga.bpp / 8 ≡ 2) ⊎ (tga.bpp / 8 ≡ 3) ⊎ (tga.bpp / 8 ≡ 4)
    → (tga.bpp / 8 ≡ 2 → (tga.file_end + length buf) % 2 ≡ 0)
    → IsReadable tga buf
readable tga buf (inl two) f = inl (two, f two)
readable tga buf (inr wide) f = inr wide

IsWide-of :
    (tga : Tga)
    → (tga.bpp / 8 ≡ 2) ⊎ (tga.bpp / 8 ≡ 3) ⊎ (tga.bpp / 8 ≡ 4)
    → tga.bpp / 8 ≢ 2
    → IsWide tga
IsWide-of tga (inl two) n = absurd (n two)
IsWide-of tga (inr wide) n = wide

-- What a decoder has written: values of 16 bits as many as the index says, and those of the image
-- at least.
pub record Written (tga : Tga) (d : Option Decoded) : Type 0 where
  pub out : List ℕ
  pub index : ℕ
  pub ends : d ≡ some (decoded out index)
  pub count : length out ≡ index
  pub whole : tga.width * tga.height ≤ index

plain-Written :
    (tga : Tga) (dst : ℕ) (buf : List ℕ)
    → dst % 2 ≡ 0
    → image_buffer tga ≡ some buf
    → IsReadable tga buf
    → tga.width * tga.height * (tga.bpp / 8) ≤ length buf
    → Written tga (some (true_color_image_decode tga dst))
unfolding true_color_image_decode true_color
plain-Written tga dst buf even b r l =
    let (out, e) = pixels_from-long tga (tga.width * tga.height) buf r l in
    record {
      out = out;
      index = tga.width * tga.height;
      ends =
          rw (true_color_image_decode, b, true_color, e, stored_at-even dst (some out) even) refl;
      count = length-pixels_from tga 0 (tga.width * tga.height) buf out e;
      whole = omega arith;
    }

packets-Written :
    (tga : Tga) (dst : ℕ) (buf : List ℕ)
    → dst % 2 ≡ 0
    → 0 < tga.width * tga.height
    → image_buffer tga ≡ some buf
    → IsWide tga
    → tga.width * tga.height * 5 + 635 ≤ length buf
    → Written tga (true_color_rle_image_decode tga dst)
unfolding true_color_rle_image_decode
packets-Written tga dst buf even pos b w l =
    let (out, n, e) =
      packets-long (tga.width * tga.height) tga dst 0 buf even w (omega arith)
        (λ h. omega (arith, l)) in
    let (a, c, d) = packets-bounds (tga.width * tga.height) tga dst 0 n buf out even pos e in
    record {
      out = out;
      index = n;
      ends = rw (true_color_rle_image_decode, b) e;
      count = omega (arith, a);
      whole = c;
    }

-- `tga_image_decode` of an image of the types 2 and 10 that `tga_read` accepted, in a file that
-- has the bytes that the decoder reads, with pixels of 2 bytes at even addresses and without
-- packets, and at an even destination, has its whole meaning: it reads inside the file, gives
-- each pixel a value, and returns the number of values that it has written, which is that of the
-- pixels at least. The bytes read are those of the pixels, or of packets 5 for each pixel and
-- 635 more at most.
pub image_decode-read :
    (bytes : List ℕ) (before tga : Tga) (dst : ℕ) (buf : List ℕ)
    → read bytes before ≡ some (ok, tga)
    → dst % 2 ≡ 0
    → image_buffer tga ≡ some buf
    → Fits tga buf
    → Written tga (image_decode tga dst)
unfolding image_decode
image_decode-read bytes before tga dst buf e even b (Fits.plain_fits t l f) =
    let a = read-Accepted bytes before tga e in
    let s = sizes tga a (inl t) in
    let d : image_decode tga dst ≡ some (true_color_image_decode tga dst) = rw t refl in
    subst (Written tga) (sym d) (plain-Written tga dst buf even b (readable tga buf s f) l)
image_decode-read bytes before tga dst buf e even b (Fits.packets_fit t n l) =
    let a = read-Accepted bytes before tga e in
    let s = sizes tga a (inr t) in
    let d : image_decode tga dst ≡ true_color_rle_image_decode tga dst = rw t refl in
    subst (Written tga) (sym d)
      (packets-Written tga dst buf even (pixels_pos tga a) b (IsWide-of tga s n) l)
