-- ===== src/Tga/Rle/Length.antt =====
-- libtga/tga.c: the packet decoder on any bytes, how it ends and how far it writes.
use libyaul.Base.{
  ℕ, zero, suc, ◌+◌, ◌*◌, ◌%◌, ◌^◌, ◌≤◌, ◌<◌, ◌≡◌, ◌≢◌, refl, sym, ap, ◌∙◌, List, [], ◌∷◌, ◌++◌,
  Option, none, some, drop, length, replicate, arith, length-append, length-replicate, Bool-cases,
  Option-cases, inl, inr,
}
use libyaul.Base.Bits.{bit_and_le}
use native.Mathlib.Decide.{dec_lt}
use libyaul.Tga.{Tga, Status, decode_pixel, stored}
use libyaul.Tga.Fill.Words.{fill-replicate}
use libyaul.Tga.Pixels.{pixels_from, joined, Decoded, decoded}
use libyaul.Tga.Pixels.Flat.{stored_at-even}
use libyaul.Tga.Rle.{is_run, count, packet_values, packet_bytes, after, packets}
use libyaul.Tga.Rle.Packets.{packets-stop, packets-step}

pub count-bounds : (head : ℕ) → (0 < count head) × (count head ≤ 128)
unfolding count
count-bounds head = (omega arith, omega (arith, bit_and_le head 0x7F))

after-ne-none : (o : Option (Option (List ℕ))) (d : Option Decoded) → d ≢ none → after o d ≢ none
after-ne-none none d h e = absurd (cc)
after-ne-none (some none) d h e = absurd (cc)
after-ne-none (some (some out)) none h e = h refl
after-ne-none (some (some out)) (some Decoded.undefined) h e = absurd (cc)
after-ne-none (some (some out)) (some (decoded outs idx)) h e = absurd (cc)
after-ne-none (some (some out)) (some (Decoded.failed s)) h e = absurd (cc)

-- As many rounds as pixels are enough.
pub packets-returns :
    (fuel : ℕ) (tga : Tga) (dst idx : ℕ) (bytes : List ℕ)
    → tga.width * tga.height ≤ idx + fuel
    → packets fuel tga dst idx bytes ≢ none
unfolding packets
packets-returns zero tga dst idx bytes h e =
    absurd (cc (e, packets-stop 0 tga dst idx bytes (omega (arith, h))))
packets-returns (suc fuel) tga dst idx [] h e = ground (arith, e)
packets-returns (suc fuel) tga dst idx (head ∷ body) h e =
    elim (dec_lt idx (tga.width * tga.height)) [
      | no stop ↦
          absurd (cc (e, packets-stop (suc fuel) tga dst idx (head ∷ body) (omega (arith, stop))))
      | yes go ↦
          let (pos, most) = count-bounds head in
          after-ne-none _ _
            (packets-returns fuel tga (dst + 2 * count head) (idx + count head)
              (drop (packet_bytes tga head) body) (omega (arith, h, pos)))
            (sym (packets-step fuel tga dst idx head body go) ∙ e)
    ]

joined-some :
    (o : Option ℕ) (r : Option (List ℕ)) (out : List ℕ)
    → joined o r ≡ some out
    → (p : ℕ) × (rest : List ℕ) × (r ≡ some rest) × (out ≡ p ∷ rest)
joined-some none r out h = absurd (cc)
joined-some (some p) none out h = absurd (cc)
joined-some (some p) (some rest) out h = (p, rest, refl, cc)

pub length-pixels_from :
    (tga : Tga) (idx left : ℕ) (buf out : List ℕ)
    → pixels_from tga idx left buf ≡ some out
    → length out ≡ left
unfolding pixels_from
length-pixels_from tga idx zero buf out h = ap length (let e : out ≡ [] = cc in e)
length-pixels_from tga idx (suc left) buf out h =
    let (p, rest, r, e) = joined-some _ _ out h in
    ap length e ∙ ap suc (length-pixels_from tga (suc idx) left buf rest r)

pub decode_pixel-lt :
    (tga : Tga) (bytes : List ℕ) (p : ℕ) → decode_pixel tga bytes ≡ some p → p < 2 ^ 16
unfolding decode_pixel stored
decode_pixel-lt tga bytes p h = ground arith

-- A packet stores as many values as it counts.
length-packet_values :
    (tga : Tga) (dst head : ℕ) (body out : List ℕ)
    → dst % 2 ≡ 0
    → packet_values tga dst head body ≡ some (some out)
    → length out ≡ count head
unfolding packet_values
length-packet_values tga dst head body out even h = elim (Bool-cases (is_run head)) [
  | inl run ↦ elim (Option-cases (decode_pixel tga body)) [
    | inl e ↦ absurd (ground (arith, run, e, h))
    | inr (p, e) ↦
        let (pos, most) = count-bounds head in
        let f =
          fill-replicate dst p (count head) even (decode_pixel-lt tga body p e) pos
            (omega (arith, most)) in
        let q : out ≡ replicate (count head) p =
          let v : packet_values tga dst head body ≡ some (some (replicate (count head) p)) =
            rw (run, e, f) refl in
          cc in
        ap length q ∙ length-replicate (count head) p
  ]
  | inr raw ↦ elim (Option-cases (pixels_from tga 0 (count head) body)) [
    | inl e ↦ absurd (ground (arith, raw, e, h, stored_at-even dst none even))
    | inr (vs, e) ↦
        let v : packet_values tga dst head body ≡ some (some vs) =
          rw (raw, e, stored_at-even dst (some vs) even) refl in
        let q : vs ≡ out = cc in sym (ap length q) ∙ length-pixels_from tga 0 (count head) body vs e
  ]
]

after-decoded :
    (o : Option (Option (List ℕ))) (d : Option Decoded) (out : List ℕ) (n : ℕ)
    → after o d ≡ some (decoded out n)
    → (vs : List ℕ) × (outs : List ℕ) × (o ≡ some (some vs))
      × (d ≡ some (decoded outs n))
      × (out ≡ vs ++ outs)
after-decoded none d out n h = absurd (cc)
after-decoded (some none) d out n h = absurd (cc)
after-decoded (some (some vs)) none out n h = absurd (cc)
after-decoded (some (some vs)) (some Decoded.undefined) out n h = absurd (cc)
after-decoded (some (some vs)) (some (Decoded.failed s)) out n h = absurd (cc)
after-decoded (some (some vs)) (some (decoded outs idx)) out n h = (vs, outs, refl, cc, cc)

stopped :
    (fuel : ℕ) (tga : Tga) (dst idx : ℕ) (bytes outs : List ℕ) (n : ℕ)
    → tga.width * tga.height ≤ idx
    → packets fuel tga dst idx bytes ≡ some (decoded outs n)
    → (length outs ≡ 0) × (idx ≡ n)
stopped fuel tga dst idx bytes outs n h e =
    let q = packets-stop fuel tga dst idx bytes h in (ap length (let r : outs ≡ [] = cc in r), cc)

-- The packet decoder, on any bytes and at an even address, if it returns an index, has written
-- as many values as the index says, at least the image and at most 127 values more.
pub packets-bounds :
    (fuel : ℕ) (tga : Tga) (dst idx n : ℕ) (bytes out : List ℕ)
    → dst % 2 ≡ 0
    → idx < tga.width * tga.height
    → packets fuel tga dst idx bytes ≡ some (decoded out n)
    → (idx + length out ≡ n) × (tga.width * tga.height ≤ n) × (n < tga.width * tga.height + 128)
unfolding packets
packets-bounds zero tga dst idx n bytes out even l h = absurd (ground (arith, l, h))
packets-bounds (suc fuel) tga dst idx n [] out even l h = absurd (ground (arith, l, h))
packets-bounds (suc fuel) tga dst idx n (head ∷ body) out even l h =
    let (pos, most) = count-bounds head in
    let (vs, outs, v, d, e) =
      after-decoded _ _ out n (sym (packets-step fuel tga dst idx head body l) ∙ h) in
    let c = length-packet_values tga dst head body vs even v in
    let q : length out ≡ count head + length outs =
      ap length e ∙ length-append vs outs ∙ ap (λ (k : ℕ). k + length outs) c in
    let next = drop (packet_bytes tga head) body in
    elim (dec_lt (idx + count head) (tga.width * tga.height)) [
      | yes go ↦
          let (a, b, f) =
            packets-bounds fuel tga (dst + 2 * count head) (idx + count head) n next outs
              (omega (arith, even)) go d in
          (omega (arith, a, q), b, f)
      | no stop ↦
          let (a, b) =
            stopped fuel tga (dst + 2 * count head) (idx + count head) next outs n
              (omega (arith, stop)) d in
          (omega (arith, a, b, q), omega (arith, stop, b), omega (arith, l, most, b))
    ]

packet_values-aligned :
    (tga : Tga) (dst head : ℕ) (body : List ℕ)
    → dst % 2 ≡ 0
    → packet_values tga dst head body ≢ some none
unfolding packet_values
packet_values-aligned tga dst head body even h = elim (Bool-cases (is_run head)) [
  | inl run ↦ elim (Option-cases (decode_pixel tga body)) [
    | inl e ↦ absurd (ground (arith, run, e, h))
    | inr (p, e) ↦
        let (pos, most) = count-bounds head in
        let f =
          fill-replicate dst p (count head) even (decode_pixel-lt tga body p e) pos
            (omega (arith, most)) in
        let v : packet_values tga dst head body ≡ some (some (replicate (count head) p)) =
          rw (packet_values, run, e, f) refl in
        absurd (cc)
  ]
  | inr raw ↦ elim (Option-cases (pixels_from tga 0 (count head) body)) [
    | inl e ↦ absurd (ground (arith, raw, e, h, stored_at-even dst none even))
    | inr (vs, e) ↦ absurd (ground (arith, raw, e, h, stored_at-even dst (some vs) even))
  ]
]

after-failed :
    (o : Option (Option (List ℕ))) (d : Option Decoded) (s : Status)
    → o ≢ some none
    → after o d ≡ some (Decoded.failed s)
    → d ≡ some (Decoded.failed s)
after-failed none d s n h = absurd (cc)
after-failed (some none) d s n h = absurd (n refl)
after-failed (some (some vs)) none s n h = absurd (cc)
after-failed (some (some vs)) (some Decoded.undefined) s n h = absurd (cc)
after-failed (some (some vs)) (some (Decoded.failed t)) s n h = h
after-failed (some (some vs)) (some (decoded outs idx)) s n h = absurd (cc)

-- At an even address the loop does not return an error.
pub packets-aligned :
    (fuel : ℕ) (tga : Tga) (dst idx : ℕ) (bytes : List ℕ) (s : Status)
    → dst % 2 ≡ 0
    → packets fuel tga dst idx bytes ≢ some (Decoded.failed s)
unfolding packets
packets-aligned zero tga dst idx bytes s even h = ground (arith, h)
packets-aligned (suc fuel) tga dst idx [] s even h = ground (arith, h)
packets-aligned (suc fuel) tga dst idx (head ∷ body) s even h =
    elim (dec_lt idx (tga.width * tga.height)) [
      | no stop ↦
          absurd (cc (h, packets-stop (suc fuel) tga dst idx (head ∷ body) (omega (arith, stop))))
      | yes go ↦
          packets-aligned fuel tga (dst + 2 * count head) (idx + count head)
            (drop (packet_bytes tga head) body) s (omega (arith, even))
            (after-failed _ _ s (packet_values-aligned tga dst head body even)
              (sym (packets-step fuel tga dst idx head body go) ∙ h))
    ]
