-- ===== src/Tga/Palette/First.antt =====
-- libtga/tga.c: where `tga_cmap_decode` leaves the transparent colour.
use libyaul.Base.{
  ℕ, zero, suc, ◌+◌, ◌<◌, ◌≡◌, ◌⊎◌, inl, inr, refl, sym, ap, ◌∙◌, true, ◌||◌, List, [], ◌∷◌, Option,
  none, some, ◌%◌, ◌==◌, bit_or, length, get_elem?, arith, Option-cases, Bool-cases, ==→eq, eq→==,
  length-set,
}
use libyaul.Tga.{Tga, cmap_buffer, transparent}
use libyaul.Tga.Pixels.{decoded}
use libyaul.Tga.Pixels.Flat.{stored_at-even}
use libyaul.Tga.Palette.{colour, entry, seen, colours, swapped, cmap_decode}

-- What the loop has found when it ends, given what it had found before `idx`.
Found : Tga → ℕ → List ℕ → Option ℕ → Type 0
Found tga idx out last =
    (i : ℕ) × (last ≡ some (idx + i)) × (get_elem? out i ≡ some (bit_or 0x8000 (transparent tga)))

Found-later :
    (tga : Tga) (idx c : ℕ) (out : List ℕ) (last : Option ℕ)
    → Found tga (suc idx) out last
    → Found tga idx (c ∷ out) last
unfolding Found
Found-later tga idx c out last (i, e, g) =
    (suc i, e ∙ ap some (let q : suc idx + i ≡ idx + suc i = omega arith in q), g)

entry-some :
    (p : ℕ) (r : Option (List ℕ × Option ℕ)) (out : List ℕ) (last : Option ℕ)
    → entry p r ≡ some (out, last)
    → (rest : List ℕ) × (r ≡ some (rest, last)) × (out ≡ bit_or 0x8000 p ∷ rest)
entry-some p none out last h = absurd (cc)
entry-some p (some (rest, l)) out last h =
    let q : l ≡ last = cc in (rest, ap (λ (x : Option ℕ). some (rest, x)) q, cc)

colours-suc :
    (tga : Tga) (idx left : ℕ) (buf out : List ℕ) (before last : Option ℕ)
    → colours tga idx (suc left) buf before ≡ some (out, last)
    → (p : ℕ) × (rest : List ℕ) × (colour tga buf idx ≡ some p)
      × (colours tga (suc idx) left buf (seen tga idx p before) ≡ some (rest, last))
      × (out ≡ bit_or 0x8000 p ∷ rest)
unfolding colours
colours-suc tga idx left buf out before last h = elim (Option-cases (colour tga buf idx)) [
  | inl e ↦ absurd (ground (arith, e, h))
  | inr (p, e) ↦
      let s : colours tga idx (suc left) buf before
          ≡ entry p (colours tga (suc idx) left buf (seen tga idx p before)) =
        rw (colours, e) refl in
      let (rest, r, o) = entry-some p _ out last (sym s ∙ h) in (p, rest, e, r, o)
]

seen-cases :
    (tga : Tga) (idx p : ℕ) (before : Option ℕ)
    → (seen tga idx p before ≡ before)
      ⊎ ((p ≡ transparent tga) × (seen tga idx p before ≡ some idx))
unfolding seen
seen-cases tga idx p before = elim (Bool-cases (p == transparent tga)) [
  | inl hit ↦ inr (==→eq p (transparent tga) hit, rw hit refl)
  | inr miss ↦ inl (rw miss refl)
]

seen-transparent :
    (tga : Tga) (idx p : ℕ) (before : Option ℕ)
    → p ≡ transparent tga
    → seen tga idx p before ≡ some idx
unfolding seen
seen-transparent tga idx p before e = rw (eq→== p (transparent tga) e) refl

Found-here :
    (tga : Tga) (idx p : ℕ) (rest : List ℕ) (last : Option ℕ)
    → p ≡ transparent tga
    → last ≡ some idx
    → Found tga idx (bit_or 0x8000 p ∷ rest) last
unfolding Found
Found-here tga idx p rest last t e = (
  0,
  e ∙ ap some (let q : idx ≡ idx + 0 = omega arith in q),
  ap (λ (c : ℕ). some (bit_or 0x8000 c)) t,
)

-- The loop finds nothing new, or the last transparent colour.
colours-last :
    (tga : Tga) (idx left : ℕ) (buf out : List ℕ) (before last : Option ℕ)
    → colours tga idx left buf before ≡ some (out, last)
    → (last ≡ before) ⊎ Found tga idx out last
unfolding colours
colours-last tga idx zero buf out before last h = inl cc
colours-last tga idx (suc left) buf out before last h =
    let (p, rest, e, r, o) = colours-suc tga idx left buf out before last h in
    elim (colours-last tga (suc idx) left buf rest (seen tga idx p before) last r) [
      | inr found ↦ inr (rw o (Found-later tga idx (bit_or 0x8000 p) rest last found))
      | inl same ↦ elim (seen-cases tga idx p before) [
        | inl miss ↦ inl (same ∙ miss)
        | inr (t, hit) ↦ inr (rw o (Found-here tga idx p rest last t (same ∙ hit)))
      ]
    ]

-- A transparent colour is found.
colours-Found :
    (tga : Tga) (idx left k : ℕ) (buf out : List ℕ) (before last : Option ℕ)
    → k < left
    → colour tga buf (idx + k) ≡ some (transparent tga)
    → colours tga idx left buf before ≡ some (out, last)
    → Found tga idx out last
colours-Found tga idx zero k buf out before last l c h = absurd (omega (arith, l))
colours-Found tga idx (suc left) zero buf out before last l c h =
    let (p, rest, e, r, o) = colours-suc tga idx left buf out before last h in
    let z : idx + 0 ≡ idx = omega arith in
    let c' : colour tga buf idx ≡ some (transparent tga) = ap (colour tga buf) (sym z) ∙ c in
    let t : p ≡ transparent tga = cc (e, c') in
    elim (colours-last tga (suc idx) left buf rest (seen tga idx p before) last r) [
      | inr found ↦ rw o (Found-later tga idx (bit_or 0x8000 p) rest last found)
      | inl same ↦
          rw o (Found-here tga idx p rest last t (same ∙ seen-transparent tga idx p before t))
    ]
colours-Found tga idx (suc left) (suc k) buf out before last l c h =
    let (p, rest, e, r, o) = colours-suc tga idx left buf out before last h in
    let z : suc idx + k ≡ idx + suc k = omega arith in
    rw o (
      Found-later tga idx (bit_or 0x8000 p) rest last (
        colours-Found tga (suc idx) left k buf rest (seen tga idx p before) last (omega (arith, l))
          (ap (colour tga buf) z ∙ c) r))

swapped-first :
    (out : List ℕ) (i c : ℕ)
    → get_elem? out i ≡ some c
    → get_elem? (swapped out (some i)) 0 ≡ some c
unfolding swapped
swapped-first [] i c h = absurd (cc)
swapped-first (x ∷ out) zero c h = h
swapped-first (x ∷ out) (suc i) c h = let e : get_elem? out i ≡ some c = h in rw (swapped, e) refl

length-swapped : (out : List ℕ) (last : Option ℕ) → length (swapped out last) ≡ length out
unfolding swapped
length-swapped out none = refl
length-swapped [] (some zero) = refl
length-swapped [] (some (suc i)) = refl
length-swapped (x ∷ out) (some zero) = refl
length-swapped (x ∷ out) (some (suc i)) = go (get_elem? out i) refl
  where
    go :
        (o : Option ℕ)
        → get_elem? out i ≡ o
        → length (swapped (x ∷ out) (some (suc i))) ≡ suc (length out)
    go none e = rw (swapped, e) refl
    go (some t) e = rw (swapped, e) (ap suc (length-set out i x))

length-colours :
    (tga : Tga) (idx left : ℕ) (buf out : List ℕ) (before last : Option ℕ)
    → colours tga idx left buf before ≡ some (out, last)
    → length out ≡ left
unfolding colours
length-colours tga idx zero buf out before last h = ap length (let e : out ≡ [] = cc in e)
length-colours tga idx (suc left) buf out before last h =
    let (p, rest, e, r, o) = colours-suc tga idx left buf out before last h in
    ap length o ∙ ap suc (length-colours tga (suc idx) left buf rest (seen tga idx p before) last r)

pub cmap_decode-transparent :
    (tga : Tga) (dst : ℕ) (buf out : List ℕ) (k n : ℕ)
    → dst % 2 ≡ 0
    → cmap_buffer tga ≡ some buf
    → k < tga.cmap_len
    → colour tga buf k ≡ some (transparent tga)
    → cmap_decode tga dst ≡ decoded out n
    → (length out ≡ tga.cmap_len) × (get_elem? out 0 ≡ some (bit_or 0x8000 (transparent tga)))
unfolding cmap_decode Found
cmap_decode-transparent tga dst buf out k n even b l c h =
    let p : (tga.type == 1 || tga.type == 9) ≡ true = ground (arith, h) in
    elim (Option-cases (colours tga 0 tga.cmap_len buf none)) [
      | inl e ↦ absurd (ground (arith, h, b, e, p))
      | inr ((cs, last), e) ↦
          let z : 0 + k ≡ k = omega arith in
          let (i, f, g) =
            colours-Found tga 0 tga.cmap_len k buf cs none last l (ap (colour tga buf) z ∙ c) e in
          let v : cmap_decode tga dst ≡ decoded (swapped cs last) tga.cmap_len =
            rw (cmap_decode, p, b, e, stored_at-even dst (some cs) even) refl in
          let q : out ≡ swapped cs last = cc in
          let r : last ≡ some i = f ∙ ap some (let y : 0 + i ≡ i = omega arith in y) in
          (
            ap length q
                ∙ length-swapped cs last
                ∙ length-colours tga 0 tga.cmap_len buf cs none last e,
            rw (q, r) (swapped-first cs i _ g),
          )
    ]
