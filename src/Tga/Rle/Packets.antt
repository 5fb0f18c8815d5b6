-- ===== src/Tga/Rle/Packets.antt =====
-- libtga/tga.c: the packet decoder on the bytes of an encoding.
use libyaul.Base.{
  ℕ, zero, suc, ◌+◌, ◌-◌, ◌*◌, ◌/◌, ◌%◌, ◌^◌, ◌≤◌, ◌<◌, ◌≡◌, refl, sym, ap, ap₂, ◌∙◌, Bool, true,
  false, ◌&&◌, List, [], ◌∷◌, ◌++◌, some, leb, not, ◌==◌, drop, length, map, replicate, arith,
  length-append, length-replicate, lt→ltb, inr,
}
use libyaul.Base.Ranges.{all_below, all_below_sound}
use mathlib.Core.List.{append_assoc}
use libyaul.Tga.{Tga, stored}
use libyaul.Tga.Fill.Words.{fill-replicate}
use libyaul.Tga.Pixels.{decoded}
use libyaul.Tga.Pixels.Flat.{
  drop-append, flat, sized, value, IsWide, decode_pixel-append, pixels_from-flat, stored_at-even,
}
use libyaul.Tga.Rle.{is_run, count, packet_values, packet_bytes, after, packets}

-- An encoding: pixels as they are, or a pixel and how often it stands.
pub data Packet : Type 0 where
  raw : List (List ℕ) → Packet
  run : ℕ → List ℕ → Packet

-- The bytes of a packet, and the pixels that it stands for.
unfoldable pub encode_packet : Packet → List ℕ
encode_packet (raw pxs) = (length pxs - 1) ∷ flat pxs
encode_packet (run n px) = (128 + (n - 1)) ∷ px

unfoldable pub pixels : Packet → List (List ℕ)
pixels (raw pxs) = pxs
pixels (run n px) = replicate n px

unfoldable pub encode : List Packet → List ℕ
unfolding encode_packet
encode [] = []
encode (p ∷ ps) = encode_packet p ++ encode ps

unfoldable pub plain : List Packet → List (List ℕ)
unfolding pixels
plain [] = []
plain (p ∷ ps) = pixels p ++ plain ps

-- A packet has 1 to 128 pixels, each of `b` bytes.
unfoldable pub well_formed : ℕ → List Packet → Bool
unfolding pixels
well_formed b [] = true
well_formed b (p ∷ ps) =
    leb 1 (length (pixels p))
    && leb (length (pixels p)) 128
    && sized b (pixels p)
    && well_formed b ps

heads : ℕ → Bool
unfolding is_run count
heads n = not (is_run n) && (count n == n + 1) && is_run (128 + n) && (count (128 + n) == n + 1)

heads_hold : all_below 128 heads ≡ true
unfolding all_below heads is_run count
heads_hold = refl

head_of_raw : (n : ℕ) → n < 128 → (is_run n ≡ false) × (count n ≡ n + 1)
unfolding heads
head_of_raw n h =
    let e = all_below_sound 128 heads n heads_hold h in (ground (arith, e), ground (arith, e))

head_of_run : (n : ℕ) → n < 128 → (is_run (128 + n) ≡ true) × (count (128 + n) ≡ n + 1)
unfolding heads
head_of_run n h =
    let e = all_below_sound 128 heads n heads_hold h in (ground (arith, e), ground (arith, e))

length-flat :
    (b : ℕ) (pxs : List (List ℕ)) → sized b pxs ≡ true → length (flat pxs) ≡ length pxs * b
unfolding flat sized
length-flat b [] h = grind arith
length-flat b (px ∷ pxs) h =
    let l : length px ≡ b = ground (arith, h) in
    let ih = length-flat b pxs (ground (arith, h)) in
    grind (arith, l, ih, length-append px (flat pxs))

value-lt : (tga : Tga) (px : List ℕ) → value tga px < 2 ^ 16
unfolding value stored
value-lt tga px = ground arith

map-replicate :
    (tga : Tga) (n : ℕ) (px : List ℕ)
    → map (value tga) (replicate n px) ≡ replicate n (value tga px)
map-replicate tga zero px = refl
map-replicate tga (suc n) px = ap (◌∷◌ (value tga px)) (map-replicate tga n px)

map-append :
    (tga : Tga) (xs ys : List (List ℕ))
    → map (value tga) (xs ++ ys) ≡ map (value tga) xs ++ map (value tga) ys
map-append tga [] ys = refl
map-append tga (x ∷ xs) ys = ap (◌∷◌ (value tga x)) (map-append tga xs ys)

first_sized : (n b : ℕ) (px : List ℕ) → 1 ≤ n → sized b (replicate n px) ≡ true → length px ≡ b
unfolding sized
first_sized zero b px l h = absurd (omega (arith, l))
first_sized (suc n) b px l h = ground (arith, h)

-- What the loop does with the first byte and the others of an encoded packet.
data Taken (tga : Tga) (dst : ℕ) (p : Packet) (rest : List ℕ) : Type 0 where
  taken :
      (head : ℕ) (body : List ℕ)
      → encode_packet p ++ rest ≡ head ∷ body
      → count head ≡ length (pixels p)
      → packet_values tga dst head body ≡ some (some (map (value tga) (pixels p)))
      → drop (packet_bytes tga head) body ≡ rest
      → Taken tga dst p rest

takes :
    (tga : Tga) (dst : ℕ) (p : Packet) (rest : List ℕ)
    → IsWide tga
    → dst % 2 ≡ 0
    → 1 ≤ length (pixels p)
    → length (pixels p) ≤ 128
    → sized (tga.bpp / 8) (pixels p) ≡ true
    → Taken tga dst p rest
unfolding encode_packet pixels packet_values packet_bytes
takes tga dst (raw pxs) rest h even l g s =
    let (r, c) = head_of_raw (length pxs - 1) (omega (arith, l, g)) in
    let q : count (length pxs - 1) ≡ length pxs = omega (arith, c, l) in
    taken (length pxs - 1) (flat pxs ++ rest) refl q
      (rw
        (
          r,
          q,
          pixels_from-flat tga pxs rest (inr h) s,
          stored_at-even dst (some (map (value tga) pxs)) even,
        )
        refl)
      (rw (r, q, sym (length-flat (tga.bpp / 8) pxs s)) (drop-append (flat pxs) rest))
takes tga dst (run n px) rest h even l g s =
    let m : length (replicate n px) ≡ n = length-replicate n px in
    let (r, c) = head_of_run (n - 1) (omega (arith, l, g, m)) in
    let q : count (128 + (n - 1)) ≡ n = omega (arith, c, l, m) in
    let z : length px ≡ tga.bpp / 8 = first_sized n (tga.bpp / 8) px (omega (arith, l, m)) s in
    taken (128 + (n - 1)) (px ++ rest) refl (q ∙ sym m)
      (rw
        (
          r,
          decode_pixel-append tga px rest (inr h) z,
          q,
          fill-replicate dst (value tga px) n even (value-lt tga px) (omega (arith, l, m))
              (omega (arith, g, m)),
          map-replicate tga n px,
        )
        refl)
      (rw (r, sym z) (drop-append px rest))

pub packets-stop :
    (fuel : ℕ) (tga : Tga) (dst idx : ℕ) (bytes : List ℕ)
    → tga.width * tga.height ≤ idx
    → packets fuel tga dst idx bytes ≡ some (decoded [] idx)
unfolding packets
packets-stop zero tga dst idx bytes h = ground (arith, h)
packets-stop (suc fuel) tga dst idx [] h = ground (arith, h)
packets-stop (suc fuel) tga dst idx (head ∷ body) h = ground (arith, h)

pub packets-step :
    (fuel : ℕ) (tga : Tga) (dst idx head : ℕ) (body : List ℕ)
    → idx < tga.width * tga.height
    → packets (suc fuel) tga dst idx (head ∷ body)
      ≡ after (packet_values tga dst head body) (
          packets fuel tga
            (dst + 2 * count head)
            (idx + count head)
            (drop (packet_bytes tga head) body))
unfolding packets
packets-step fuel tga dst idx head body h = rw (lt→ltb idx (tga.width * tga.height) h) refl

-- The loop on an encoding, with pixels to go.
pub packets-encode :
    (ps : List Packet) (fuel : ℕ) (tga : Tga) (dst idx : ℕ) (rest : List ℕ)
    → IsWide tga
    → dst % 2 ≡ 0
    → well_formed (tga.bpp / 8) ps ≡ true
    → idx + length (plain ps) ≡ tga.width * tga.height
    → length (plain ps) ≤ fuel
    → packets fuel tga dst idx (encode ps ++ rest)
      ≡ some (decoded (map (value tga) (plain ps)) (tga.width * tga.height))
unfolding packets encode plain well_formed
packets-encode [] fuel tga dst idx rest h even w t f =
    packets-stop fuel tga dst idx rest (omega (arith, t))
    ∙ ap (λ (k : ℕ). some (decoded [] k))
        (let e : idx ≡ tga.width * tga.height = omega (arith, t) in e)
packets-encode (p ∷ ps) zero tga dst idx rest h even w t f =
    absurd (ground (arith, w, f, length-append (pixels p) (plain ps)))
packets-encode (p ∷ ps) (suc fuel) tga dst idx rest h even w t f =
    let l = length-append (pixels p) (plain ps) in
    let a : 1 ≤ length (pixels p) = ground (arith, w) in
    let b : length (pixels p) ≤ 128 = ground (arith, w) in
    elim (takes tga dst p (encode ps ++ rest) h even a b (ground (arith, w))) [
      | taken head body e c v d ↦
          let ih =
            packets-encode ps fuel tga (dst + 2 * count head) (idx + count head) rest h
              (omega (arith, even)) (ground (arith, w)) (omega (arith, t, l, c))
              (omega (arith, f, l, a)) in
          ap (packets (suc fuel) tga dst idx) (append_assoc (encode_packet p) (encode ps) rest ∙ e)
          ∙ packets-step fuel tga dst idx head body (omega (arith, t, l, a))
          ∙ ap₂ after v (ap (packets fuel tga (dst + 2 * count head) (idx + count head)) d ∙ ih)
          ∙ ap (λ (out : List ℕ). some (decoded out (tga.width * tga.height)))
              (sym (map-append tga (pixels p) (plain ps)))
    ]

sized-append :
    (b : ℕ) (xs ys : List (List ℕ))
    → sized b xs ≡ true
    → sized b ys ≡ true
    → sized b (xs ++ ys) ≡ true
unfolding sized
sized-append b [] ys h k = k
sized-append b (x ∷ xs) ys h k = ground (arith, sized-append b xs ys, h, k)

pub sized-plain : (b : ℕ) (ps : List Packet) → well_formed b ps ≡ true → sized b (plain ps) ≡ true
unfolding well_formed plain sized
sized-plain b [] h = refl
sized-plain b (p ∷ ps) h =
    sized-append b (pixels p) (plain ps) (ground (arith, h)) (sized-plain b ps (ground (arith, h)))
