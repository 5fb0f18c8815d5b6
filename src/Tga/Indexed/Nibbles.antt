-- ===== src/Tga/Indexed/Nibbles.antt =====
-- libtga/tga.c: the two pixels of a byte come back.
use libyaul.Base.{
  ℕ, zero, suc, ◌+◌, ◌*◌, ◌/◌, ◌%◌, ◌^◌, ◌<◌, ◌≤◌, ◌≡◌, refl, ap, ap₂, ◌∙◌, Bool, true, ◌&&◌, List,
  [], ◌∷◌, ◌++◌, some, ltb, leb, ◌==◌, bit_and, bit_or, get_elem?, length, arith, lt→ltb, le→leb,
  ==→eq,
}
use libyaul.Base.Bits.{bit_or_disjoint}
use libyaul.Base.Ranges.{all_below, all_below_sound}
use libyaul.Tga.{Tga, image_buffer}
use libyaul.Tga.Pixels.{decoded}
use libyaul.Tga.Indexed.{nibbles, two_pixels, packed, cmap_pixels, cmap_image_decode}

-- The pixels of a 4 bpp image, the high half of a byte first.
unfoldable pub unpacked : List ℕ → List ℕ
unpacked [] = []
unpacked (b ∷ bs) = b / 16 ∷ b % 16 ∷ unpacked bs

-- Every pixel is one of sixteen colours.
unfoldable pub all_small : List ℕ → Bool
all_small [] = true
all_small (b ∷ bs) = ltb b 16 && all_small bs

small_kept : ℕ → Bool
small_kept a = bit_and a 0x0F == a

small_kept_all : all_below 16 small_kept ≡ true
unfolding all_below small_kept
small_kept_all = refl

small_lem : (a : ℕ) → a < 16 → bit_and a 0x0F ≡ a
unfolding small_kept
small_lem a h = ==→eq (bit_and a 0x0F) a (all_below_sound 16 small_kept a small_kept_all h)

nibbles_lem : (a b : ℕ) → a < 16 → b < 16 → nibbles a b ≡ a * 16 + b
unfolding nibbles
nibbles_lem a b p q =
    ap₂ (λ (x y : ℕ). bit_or (x * 2 ^ 4) y) (small_lem a p) (small_lem b q)
    ∙ bit_or_disjoint 4 a b q

-- `seg` stands in `buf` from `idx` on.
abbrev StandsAt : List ℕ → List ℕ → ℕ → Type 0
StandsAt seg buf idx = (k : ℕ) → k < length seg → get_elem? buf (idx + k) ≡ get_elem? seg k

two_pixels_lem :
    (a b idx : ℕ) (seg buf : List ℕ)
    → StandsAt (a ∷ b ∷ seg) buf idx
    → two_pixels buf idx ≡ some (nibbles a b)
unfolding two_pixels
two_pixels_lem a b idx seg buf h =
    let z : idx ≡ idx + 0 = omega arith in
    let p : get_elem? buf idx ≡ some a = ap (get_elem? buf) z ∙ h 0 (omega arith) in
    let q : get_elem? buf (idx + 1) ≡ some b = h 1 (omega arith) in rw (two_pixels, p, q) refl

stands_on :
    (a b idx : ℕ) (seg buf : List ℕ) → StandsAt (a ∷ b ∷ seg) buf idx → StandsAt seg buf (idx + 2)
stands_on a b idx seg buf h k l =
    let z : idx + 2 + k ≡ idx + suc (suc k) = omega arith in
    ap (get_elem? buf) z ∙ h (suc (suc k)) (omega (arith, l))

unpacked-nibbles :
    (a b : ℕ) (out seg : List ℕ)
    → a < 16
    → b < 16
    → unpacked out ≡ seg
    → unpacked (nibbles a b ∷ out) ≡ a ∷ b ∷ seg
unfolding unpacked
unpacked-nibbles a b out seg p q e =
    let n = nibbles_lem a b p q in
    let x : nibbles a b / 16 ≡ a = omega (arith, n, q) in
    let y : nibbles a b % 16 ≡ b = omega (arith, n, q) in rw (x, y, e) refl

-- The loop on pixels that stand from `idx` on, two by two.
packed_lem :
    (fuel pixels idx : ℕ) (seg buf : List ℕ)
    → length seg % 2 ≡ 0
    → length seg ≤ fuel
    → all_small seg ≡ true
    → idx + length seg ≡ pixels
    → StandsAt seg buf idx
    → (out : List ℕ) × (packed fuel pixels idx buf ≡ some (out, pixels)) × (unpacked out ≡ seg)
unfolding packed all_small unpacked
packed_lem zero pixels idx [] buf e f s t h =
    let z : idx ≡ pixels = omega (arith, t) in ([], ground (arith, z), refl)
packed_lem (suc fuel) pixels idx [] buf e f s t h =
    let z : idx ≡ pixels = omega (arith, t) in ([], ground (arith, z), refl)
packed_lem fuel pixels idx (a ∷ []) buf e f s t h = absurd (omega (arith, e))
packed_lem zero pixels idx (a ∷ b ∷ seg) buf e f s t h = absurd (omega (arith, f))
packed_lem (suc fuel) pixels idx (a ∷ b ∷ seg) buf e f s t h =
    let (out, p, u) =
      packed_lem fuel pixels (idx + 2) seg buf (omega (arith, e)) (omega (arith, f))
        (ground (arith, s)) (omega (arith, t)) (stands_on a b idx seg buf h) in
    let l : ltb idx pixels ≡ true = lt→ltb idx pixels (omega (arith, t)) in
    (
      nibbles a b ∷ out,
      rw (packed, l, two_pixels_lem a b idx seg buf h, p) refl,
      unpacked-nibbles a b out seg (ground (arith, s)) (ground (arith, s)) u,
    )

get_elem?-append :
    (seg rest : List ℕ) (k : ℕ) → k < length seg → get_elem? (seg ++ rest) k ≡ get_elem? seg k
get_elem?-append [] rest k l = absurd (omega (arith, l))
get_elem?-append (x ∷ seg) rest zero l = refl
get_elem?-append (x ∷ seg) rest (suc k) l = get_elem?-append seg rest k (omega (arith, l))

stands_first : (seg rest : List ℕ) → StandsAt seg (seg ++ rest) 0
stands_first seg rest k l =
    ap (get_elem? (seg ++ rest)) (let z : 0 + k ≡ k = omega arith in z)
    ∙ get_elem?-append seg rest k l

-- The bytes that `tga_image_decode` packs for an image with at most 16 colours, an even number
-- of pixels and no index above 15 give the indices back, two to a byte.
pub cmap_image_decode-unpacked :
    (tga : Tga) (seg rest : List ℕ)
    → image_buffer tga ≡ some (seg ++ rest)
    → length seg ≡ tga.width * tga.height
    → length seg % 2 ≡ 0
    → tga.cmap_len ≤ 16
    → all_small seg ≡ true
    → (out : List ℕ) × (cmap_image_decode tga ≡ decoded out (tga.width * tga.height))
      × (unpacked out ≡ seg)
unfolding cmap_image_decode cmap_pixels
cmap_image_decode-unpacked tga seg rest b l e c s =
    let pixels = tga.width * tga.height in
    let (out, p, u) =
      packed_lem pixels pixels 0 seg (seg ++ rest) e (omega (arith, l)) s (omega (arith, l))
        (stands_first seg rest) in
    let m : leb tga.cmap_len 17 ≡ true = le→leb tga.cmap_len 17 (omega (arith, c)) in
    (out, rw (cmap_image_decode, b, cmap_pixels, m, p) refl, u)
