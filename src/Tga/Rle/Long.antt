-- ===== src/Tga/Rle/Long.antt =====
-- libtga/tga.c: the packet decoder on a file that is long enough.
use libyaul.Base.{
  ℕ, zero, suc, ◌+◌, ◌*◌, ◌/◌, ◌%◌, ◌-◌, ◌≤◌, ◌<◌, ◌≡◌, inl, inr, refl, ap₂, ◌∙◌, List, [], ◌∷◌,
  ◌++◌, some, length, drop, arith, Bool-cases, length-drop, replicate,
}
use native.Mathlib.Decide.{dec_lt}
use libyaul.Tga.{Tga}
use libyaul.Tga.Fill.Words.{fill-replicate}
use libyaul.Tga.Pixels.{decoded}
use libyaul.Tga.Pixels.Flat.{IsWide, decode_pixel-long, pixels_from-long, stored_at-even}
use libyaul.Tga.Rle.{is_run, count, packet_values, packet_bytes, after, packets}
use libyaul.Tga.Rle.Packets.{packets-stop, packets-step}
use libyaul.Tga.Rle.Length.{count-bounds, decode_pixel-lt}

wide_most : (tga : Tga) → IsWide tga → tga.bpp / 8 ≤ 4
wide_most tga (inl three) = omega (arith, three)
wide_most tga (inr four) = omega (arith, four)

wide_all : (tga : Tga) (c : ℕ) → IsWide tga → c * (tga.bpp / 8) ≤ 4 * c
wide_all tga c (inl three) = rw three (omega arith)
wide_all tga c (inr four) = rw four (omega arith)

-- A packet whose bytes are there stores values.
packet_values-long :
    (tga : Tga) (dst head : ℕ) (body : List ℕ)
    → dst % 2 ≡ 0
    → IsWide tga
    → 512 ≤ length body
    → (out : List ℕ) × (packet_values tga dst head body ≡ some (some out))
unfolding packet_values
packet_values-long tga dst head body even w l = elim (Bool-cases (is_run head)) [
  | inl run ↦
      let (pos, most) = count-bounds head in
      let (p, e) = decode_pixel-long tga body (inr w) (omega (arith, wide_most tga w, l)) in
      let f =
        fill-replicate dst p (count head) even (decode_pixel-lt tga body p e) pos
          (omega (arith, most)) in
      (replicate (count head) p, rw (run, e, f) refl)
  | inr raw ↦
      let (pos, most) = count-bounds head in
      let (out, e) =
        pixels_from-long tga (count head) body (inr w)
          (omega (arith, wide_all tga (count head) w, most, l)) in
      (out, rw (raw, e, stored_at-even dst (some out) even) refl)
]

-- The bytes of a packet are 4 for each pixel at most.
packet_bytes-most : (tga : Tga) (head : ℕ) → IsWide tga → packet_bytes tga head ≤ 4 * count head
unfolding packet_bytes
packet_bytes-most tga head w = elim (Bool-cases (is_run head)) [
  | inl run ↦ let (pos, most) = count-bounds head in rw run (omega (arith, wide_most tga w, pos))
  | inr raw ↦ rw raw (wide_all tga (count head) w)
]

-- The loop ends with values where the bytes are there.
pub packets-long :
    (fuel : ℕ) (tga : Tga) (dst idx : ℕ) (bytes : List ℕ)
    → dst % 2 ≡ 0
    → IsWide tga
    → tga.width * tga.height ≤ idx + fuel
    → (idx < tga.width * tga.height → (tga.width * tga.height - idx) * 5 + 635 ≤ length bytes)
    → (out : List ℕ) × (n : ℕ) × (packets fuel tga dst idx bytes ≡ some (decoded out n))
packets-long zero tga dst idx bytes even w f l =
    ([], idx, packets-stop 0 tga dst idx bytes (omega (arith, f)))
packets-long (suc fuel) tga dst idx [] even w f l = elim (dec_lt idx (tga.width * tga.height)) [
  | no stop ↦ ([], idx, packets-stop (suc fuel) tga dst idx [] (omega (arith, stop)))
  | yes go ↦ absurd (let m = l go in omega (arith, m))
]
packets-long (suc fuel) tga dst idx (head ∷ body) even w f l =
    elim (dec_lt idx (tga.width * tga.height)) [
      | no stop ↦ ([], idx, packets-stop (suc fuel) tga dst idx (head ∷ body) (omega (arith, stop)))
      | yes go ↦
          let m = l go in
          let (pos, most) = count-bounds head in
          let b = packet_bytes-most tga head w in
          let d = length-drop (packet_bytes tga head) body in
          let (out, v) = packet_values-long tga dst head body even w (omega (arith, m, go)) in
          let (outs, n, r) =
            packets-long fuel tga (dst + 2 * count head) (idx + count head)
              (drop (packet_bytes tga head) body) (omega (arith, even)) w (omega (arith, f, pos))
              (λ h. omega (arith, m, b, d, h, pos)) in
          (out ++ outs, n, packets-step fuel tga dst idx head body go ∙ ap₂ after v r)
    ]
