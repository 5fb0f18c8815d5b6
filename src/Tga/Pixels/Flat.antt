-- ===== src/Tga/Pixels/Flat.antt =====
-- libtga/tga.c: the loop over the pixels, on bytes that are a list of pixels.
use libyaul.Base.{
  ℕ, zero, suc, ◌+◌, ◌*◌, ◌/◌, ◌%◌, ne→not-==, length-append, length-drop, ◌≤◌, ◌≡◌, ◌⊎◌, inl, inr,
  refl, sym, ap, ap₂, ◌∙◌, Bool, true, ◌&&◌, List, [], ◌∷◌, ◌++◌, Option, none, some, drop,
  drop-drop, length, map, arith, ◌==◌,
}
use mathlib.Core.List.{append_assoc}
use libyaul.Tga.{Tga, stored, colour_of, pixel_of, pixel_of_two, pixel_of_three, decode_pixel}
use libyaul.Tga.Pixels.{stored_at, joined, pixels_from}

-- The bytes of a list of pixels.
unfoldable pub flat : List (List ℕ) → List ℕ
flat [] = []
flat (px ∷ pxs) = px ++ flat pxs

-- Every pixel has `b` bytes.
unfoldable pub sized : ℕ → List (List ℕ) → Bool
sized b [] = true
sized b (px ∷ pxs) = (length px == b) && sized b pxs

-- What a decoder stores for a pixel.
unfoldable pub value : Tga → List ℕ → ℕ
value tga px = elim (colour_of (tga.bpp / 8) px) [ none ↦ 0 | some p ↦ stored tga p ]

-- Pixels of 3 or 4 bytes.
abbrev pub IsWide : Tga → Type 0
IsWide tga = (tga.bpp / 8 ≡ 3) ⊎ (tga.bpp / 8 ≡ 4)

-- The sizes that the decoders know, with 2 at an even address.
abbrev pub IsReadable : Tga → List ℕ → Type 0
IsReadable tga bytes = ((tga.bpp / 8 ≡ 2) × ((tga.file_end + length bytes) % 2 ≡ 0)) ⊎ IsWide tga

-- They are the same after a pixel.
IsReadable-after :
    (tga : Tga) (bytes rest : List ℕ)
    → length bytes ≡ tga.bpp / 8 + length rest
    → IsReadable tga bytes
    → IsReadable tga rest
IsReadable-after tga bytes rest l (inl (two, even)) = inl (two, omega (arith, l, two, even))
IsReadable-after tga bytes rest l (inr wide) = inr wide

readable_size :
    (tga : Tga) (bytes : List ℕ)
    → IsReadable tga bytes
    → (tga.bpp / 8 ≡ 2) ⊎ (tga.bpp / 8 ≡ 3) ⊎ (tga.bpp / 8 ≡ 4)
readable_size tga bytes (inl (two, even)) = inl two
readable_size tga bytes (inr wide) = inr wide

pub pixel_of-readable :
    (tga : Tga) (bytes : List ℕ)
    → IsReadable tga bytes
    → pixel_of tga (tga.bpp / 8) bytes ≡ colour_of (tga.bpp / 8) bytes
unfolding pixel_of
pixel_of-readable tga bytes (inl (two, even)) =
    rw
      (pixel_of, two, ne→not-== ((tga.file_end + length bytes) % 2) 1 (λ e. omega (arith, e, even)))
      refl
pixel_of-readable tga bytes (inr (inl three)) = rw (pixel_of, three) refl
pixel_of-readable tga bytes (inr (inr four)) = rw (pixel_of, four) refl

pub drop-append : (px rest : List ℕ) → drop (length px) (px ++ rest) ≡ rest
drop-append [] rest = refl
drop-append (x ∷ px) rest = drop-append px rest

two-append :
    (px rest : List ℕ)
    → length px ≡ 2
    → (v : ℕ) × (pixel_of_two px ≡ some v) × (pixel_of_two (px ++ rest) ≡ some v)
unfolding pixel_of_two
two-append [] rest h = absurd (omega (arith, h))
two-append (a ∷ []) rest h = absurd (omega (arith, h))
two-append (a ∷ b ∷ px) rest h = (_, refl, refl)

three-append :
    (px rest : List ℕ)
    → 3 ≤ length px
    → (v : ℕ) × (pixel_of_three px ≡ some v) × (pixel_of_three (px ++ rest) ≡ some v)
unfolding pixel_of_three
three-append [] rest h = absurd (omega (arith, h))
three-append (a ∷ []) rest h = absurd (omega (arith, h))
three-append (a ∷ b ∷ []) rest h = absurd (omega (arith, h))
three-append (a ∷ b ∷ c ∷ px) rest h = (_, refl, refl)

-- The bytes after a pixel do not count.
pub colour_of-append :
    (b : ℕ) (px rest : List ℕ)
    → (b ≡ 2) ⊎ (b ≡ 3) ⊎ (b ≡ 4)
    → length px ≡ b
    → (v : ℕ) × (colour_of b px ≡ some v) × (colour_of b (px ++ rest) ≡ some v)
unfolding colour_of
colour_of-append b px rest (inl two) h =
    let (v, e, f) = two-append px rest (omega (arith, h, two)) in
    (v, ground (arith, e, two), ground (arith, f, two))
colour_of-append b px rest (inr (inl three)) h =
    let (v, e, f) = three-append px rest (omega (arith, h, three)) in
    (v, ground (arith, e, three), ground (arith, f, three))
colour_of-append b px rest (inr (inr four)) h =
    let (v, e, f) = three-append px rest (omega (arith, h, four)) in
    (v, ground (arith, e, four), ground (arith, f, four))

pub decode_pixel-append :
    (tga : Tga) (px rest : List ℕ)
    → IsReadable tga (px ++ rest)
    → length px ≡ tga.bpp / 8
    → decode_pixel tga (px ++ rest) ≡ some (value tga px)
unfolding decode_pixel value
decode_pixel-append tga px rest h l =
    let (v, e, f) = colour_of-append (tga.bpp / 8) px rest (readable_size tga (px ++ rest) h) l in
    rw (decode_pixel, pixel_of-readable tga (px ++ rest) h, value, e, f) refl

-- At an even address the values are stored.
pub stored_at-even : (dst : ℕ) (o : Option (List ℕ)) → dst % 2 ≡ 0 → stored_at dst o ≡ o
unfolding stored_at
stored_at-even dst none h = refl
stored_at-even dst (some []) h = refl
stored_at-even dst (some (v ∷ vs)) h = rw h refl

-- The loop does not depend on where it starts.
pixels_from-suc :
    (tga : Tga) (idx left : ℕ) (buf : List ℕ)
    → pixels_from tga (suc idx) left buf ≡ pixels_from tga idx left (drop (tga.bpp / 8) buf)
unfolding pixels_from
pixels_from-suc tga idx zero buf = refl
pixels_from-suc tga idx (suc left) buf =
    let e : drop (tga.bpp / 8 * idx) (drop (tga.bpp / 8) buf) ≡ drop (tga.bpp / 8 * suc idx) buf =
      drop-drop (tga.bpp / 8) (tga.bpp / 8 * idx) buf
      ∙ ap (λ (k : ℕ). drop k buf)
          (let q : tga.bpp / 8 + tga.bpp / 8 * idx ≡ tga.bpp / 8 * suc idx = grind arith in q) in
    let ih = pixels_from-suc tga (suc idx) left buf in ap₂ joined (ap (decode_pixel tga) (sym e)) ih

pub pixels_from-flat :
    (tga : Tga) (pxs : List (List ℕ)) (rest : List ℕ)
    → IsReadable tga (flat pxs ++ rest)
    → sized (tga.bpp / 8) pxs ≡ true
    → pixels_from tga 0 (length pxs) (flat pxs ++ rest) ≡ some (map (value tga) pxs)
unfolding pixels_from flat sized
pixels_from-flat tga [] rest h s = refl
pixels_from-flat tga (px ∷ pxs) rest h s =
    let l : length px ≡ tga.bpp / 8 = ground (arith, s) in
    let q : (px ++ flat pxs) ++ rest ≡ px ++ (flat pxs ++ rest) = append_assoc px (flat pxs) rest in
    let h' : IsReadable tga (px ++ (flat pxs ++ rest)) = rw (sym q) h in
    let d = decode_pixel-append tga px (flat pxs ++ rest) h' l in
    let t = pixels_from-suc tga 0 (length pxs) (px ++ (flat pxs ++ rest)) in
    let u : drop (tga.bpp / 8) (px ++ (flat pxs ++ rest)) ≡ flat pxs ++ rest =
      rw (sym l) (drop-append px (flat pxs ++ rest)) in
    let k = length-append px (flat pxs ++ rest) in
    let r =
      IsReadable-after tga (px ++ (flat pxs ++ rest)) (flat pxs ++ rest) (omega (arith, k, l)) h' in
    let ih = pixels_from-flat tga pxs rest r (ground (arith, s)) in
    let z : 0 ≡ tga.bpp / 8 * 0 = grind arith in
    rw (q, sym z) (ap₂ joined d (t ∙ ap (pixels_from tga 0 (length pxs)) u ∙ ih))

three-long : (bytes : List ℕ) → 3 ≤ length bytes → (v : ℕ) × (pixel_of_three bytes ≡ some v)
three-long bytes h = let (v, e, f) = three-append bytes [] h in (v, e)

two-long : (bytes : List ℕ) → 2 ≤ length bytes → (v : ℕ) × (pixel_of_two bytes ≡ some v)
unfolding pixel_of_two
two-long [] h = absurd (omega (arith, h))
two-long (a ∷ []) h = absurd (omega (arith, h))
two-long (a ∷ b ∷ bytes) h = (_, refl)

colour_of-long :
    (b : ℕ) (bytes : List ℕ)
    → (b ≡ 2) ⊎ (b ≡ 3) ⊎ (b ≡ 4)
    → b ≤ length bytes
    → (v : ℕ) × (colour_of b bytes ≡ some v)
unfolding colour_of
colour_of-long b bytes (inl two) h =
    let (v, e) = two-long bytes (omega (arith, h, two)) in (v, ground (arith, e, two))
colour_of-long b bytes (inr (inl three)) h =
    let (v, e) = three-long bytes (omega (arith, h, three)) in (v, ground (arith, e, three))
colour_of-long b bytes (inr (inr four)) h =
    let (v, e) = three-long bytes (omega (arith, h, four)) in (v, ground (arith, e, four))

-- Where the bytes of a pixel are there, it has a value.
pub decode_pixel-long :
    (tga : Tga) (bytes : List ℕ)
    → IsReadable tga bytes
    → tga.bpp / 8 ≤ length bytes
    → (v : ℕ) × (decode_pixel tga bytes ≡ some v)
unfolding decode_pixel
decode_pixel-long tga bytes r l =
    let (v, e) = colour_of-long (tga.bpp / 8) bytes (readable_size tga bytes r) l in
    (stored tga v, rw (decode_pixel, pixel_of-readable tga bytes r, e) refl)

pub pixels_from-long :
    (tga : Tga) (left : ℕ) (buf : List ℕ)
    → IsReadable tga buf
    → left * (tga.bpp / 8) ≤ length buf
    → (out : List ℕ) × (pixels_from tga 0 left buf ≡ some out)
unfolding pixels_from
pixels_from-long tga zero buf r l = ([], refl)
pixels_from-long tga (suc left) buf r l =
    let m : tga.bpp / 8 + left * (tga.bpp / 8) ≤ length buf = grind (arith, l) in
    let d = length-drop (tga.bpp / 8) buf in
    let (v, e) = decode_pixel-long tga buf r (omega (arith, m)) in
    let r' = IsReadable-after tga buf (drop (tga.bpp / 8) buf) (omega (arith, d, m)) r in
    let (out, f) = pixels_from-long tga left (drop (tga.bpp / 8) buf) r' (omega (arith, d, m)) in
    let z : 0 ≡ tga.bpp / 8 * 0 = grind arith in
    (v ∷ out, rw (sym z) (ap₂ joined e (pixels_from-suc tga 0 left buf ∙ f)))
