-- ===== src/Sega3d/Sort/Count.antt =====
-- libsega3d/sort.c: how many packets are sent.
use libyaul.Base.{
  ℕ, zero, suc, ◌+◌, ◌≤◌, ◌<◌, ◌≡◌, refl, ap, ◌∙◌, List, [], ◌∷◌, some, length, arith,
  length-append, length-replicate, inl, inr,
}
use libyaul.Sega3d.Sort.{State, added, iterate, clamped, sort_z_range, packet_size}
use libyaul.Sega3d.Sort.Chains.{at_depth, at_depth-same, at_depth-other, clamped-bound, same_or_not}
use libyaul.Sega3d.Sort.Sent.{sent, latest_repeated, iterate-added}

length-latest_repeated : (ps : List ℕ) → length (latest_repeated ps) ≡ length ps
unfolding latest_repeated
length-latest_repeated [] = refl
length-latest_repeated (p ∷ ps) = ap suc (length-replicate (length ps) p)

-- The packets at the depths below `n`.
unfoldable count_below : ℕ → List (ℕ × ℕ) → ℕ
unfolding at_depth
count_below zero xs = 0
count_below (suc z) xs = length (at_depth z xs) + count_below z xs

length-sent : (n : ℕ) (xs : List (ℕ × ℕ)) → length (sent n xs) ≡ count_below n xs
unfolding sent count_below
length-sent zero xs = refl
length-sent (suc z) xs =
    let a = length-append (latest_repeated (at_depth z xs)) (sent z xs) in
    let b = length-latest_repeated (at_depth z xs) in
    let c = length-sent z xs in omega (arith, a, b, c)

count_below-nil : (n : ℕ) → count_below n [] ≡ 0
unfolding count_below at_depth
count_below-nil zero = refl
count_below-nil (suc n) = omega (arith, count_below-nil n)

-- An addition counts at its depth alone.
count_below-beyond :
    (n packet pz : ℕ) (xs : List (ℕ × ℕ))
    → n ≤ clamped pz
    → count_below n ((packet, pz) ∷ xs) ≡ count_below n xs
unfolding count_below
count_below-beyond zero packet pz xs h = refl
count_below-beyond (suc z) packet pz xs h =
    let a = ap length (at_depth-other packet pz z xs (λ e. omega arith)) in
    let b = count_below-beyond z packet pz xs (omega arith) in omega (arith, a, b)

count_below-one :
    (n packet pz : ℕ) (xs : List (ℕ × ℕ))
    → clamped pz < n
    → count_below n ((packet, pz) ∷ xs) ≡ suc (count_below n xs)
unfolding count_below
count_below-one zero packet pz xs h = absurd (omega arith)
count_below-one (suc z) packet pz xs h = elim (same_or_not (clamped pz) z) [
  | inl e ↦
      let a = ap length (at_depth-same packet pz z xs e) in
      let b = count_below-beyond z packet pz xs (omega arith) in omega (arith, a, b)
  | inr e ↦
      let a = ap length (at_depth-other packet pz z xs e) in
      let b = count_below-one z packet pz xs (omega arith) in omega (arith, a, b)
]

count_below-length : (xs : List (ℕ × ℕ)) → count_below sort_z_range xs ≡ length xs
count_below-length [] = count_below-nil sort_z_range
count_below-length ((packet, pz) ∷ xs) =
    count_below-one sort_z_range packet pz xs (clamped-bound pz) ∙ ap suc (count_below-length xs)

-- After a clear and up to 4096 additions the iteration sends as many packets as were added.
pub iterate-count :
    (xs : List (ℕ × ℕ))
    → length xs ≤ packet_size
    → (s : State) × (ps : List ℕ) × (added xs ≡ some s)
      × (iterate s ≡ some ps)
      × (length ps ≡ length xs)
iterate-count xs h =
    let (s, e, i) = iterate-added xs h in
    (s, sent sort_z_range xs, e, i, length-sent sort_z_range xs ∙ count_below-length xs)
