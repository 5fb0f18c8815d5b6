-- ===== src/Sega3d/Sort/Chains.antt =====
-- libsega3d/sort.c: the nodes of each depth as a list.
use libyaul.Base.{
  ℕ, zero, suc, ◌+◌, ◌≤◌, ◌<◌, ◌≡◌, ◌≢◌, refl, sym, ap, ◌∙◌, List, [], ◌∷◌, Option, none, some,
  get_elem?, set, length, arith, replicate, ◌==◌, if◌then◌else◌, inl, inr, get_elem?-set_self,
  get_elem?-set_ne, length-set, length-replicate, lt→ltb, Bool-cases, ==→eq, not-==→ne, ne→not-==,
  eq→==, get_elem?-lt, some_eq, ◌⊎◌,
}
use mathlib.Core.Path.{subst}
use libyaul.Sega3d.Sort.{
  State, Single, Link, link_of, linked, add, added, init, clamped, sort_z_range, packet_size,
}

-- The nodes from a link on hold the packets, at falling indices below `n`.
unfoldable pub IsChain : List Single → ℕ → Link → List ℕ → Type 0
IsChain pool n l [] = l ≡ Link.blank
IsChain pool n l (p ∷ ps) =
    (k : ℕ) × (m : Link) × (l ≡ Link.node k)
    × (k < n)
    × (get_elem? pool k ≡ some (record { packet = p; next_single = m }))
    × IsChain pool k m ps

IsChain-wider :
    (pool : List Single) (n m : ℕ) (l : Link) (ps : List ℕ)
    → n ≤ m
    → IsChain pool n l ps
    → IsChain pool m l ps
unfolding IsChain
IsChain-wider pool n m l [] h c = c
IsChain-wider pool n m l (p ∷ ps) h (k, l', e, b, g, c) = (k, l', e, omega arith, g, c)

IsChain-set :
    (pool : List Single) (n i : ℕ) (l : Link) (v : Single) (ps : List ℕ)
    → n ≤ i
    → IsChain pool n l ps
    → IsChain (set pool i v) n l ps
unfolding IsChain
IsChain-set pool n i l v [] h c = c
IsChain-set pool n i l v (p ∷ ps) h (k, m, e, b, g, c) = (
  k,
  m,
  e,
  b,
  get_elem?-set_ne pool i k v (λ q. omega arith) ∙ g,
  IsChain-set pool k i m v ps (omega arith) c,
)

-- The packets added at a depth, the latest first.
unfoldable pub at_depth : ℕ → List (ℕ × ℕ) → List ℕ
unfolding clamped
at_depth z [] = []
at_depth z ((packet, pz) ∷ xs) =
    let rest = at_depth z xs in if clamped pz == z then packet ∷ rest else rest

-- The lists of the depths are those of what was added.
pub record Holds (s : State) (xs : List (ℕ × ℕ)) : Type 0 where
  pub count : s.current ≡ length xs
  pub nodes : length s.pool ≡ packet_size
  pub depths : length s.sort_list ≡ sort_z_range
  pub chains :
      (z : ℕ) (last : Option ℕ)
      → get_elem? s.sort_list z ≡ some last
      → IsChain s.pool s.current (link_of last) (at_depth z xs)

pub clamped-bound : (pz : ℕ) → clamped pz < sort_z_range
unfolding clamped
clamped-bound pz = ground arith

pub at_depth-same :
    (packet pz z : ℕ) (xs : List (ℕ × ℕ))
    → clamped pz ≡ z
    → at_depth z ((packet, pz) ∷ xs) ≡ packet ∷ at_depth z xs
unfolding at_depth
at_depth-same packet pz z xs e = rw (at_depth, eq→== (clamped pz) z e) refl

pub at_depth-other :
    (packet pz z : ℕ) (xs : List (ℕ × ℕ))
    → clamped pz ≢ z
    → at_depth z ((packet, pz) ∷ xs) ≡ at_depth z xs
unfolding at_depth
at_depth-other packet pz z xs e = rw (at_depth, ne→not-== (clamped pz) z e) refl

-- The list of a depth after an addition at it.
IsChain-same :
    (packet : ℕ) (last o : Option ℕ) (s : State) (ps : List ℕ)
    → s.current < length s.pool
    → some s.current ≡ o
    → IsChain s.pool s.current (link_of last) ps
    → IsChain
        (set s.pool s.current (record { packet = packet; next_single = link_of last }))
        (s.current + 1)
        (link_of o)
        (packet ∷ ps)
unfolding IsChain
IsChain-same packet last o s ps r e c = (
  s.current,
  link_of last,
  sym (ap link_of e),
  omega arith,
  get_elem?-set_self s.pool s.current (record { packet = packet; next_single = link_of last }) r,
  IsChain-set s.pool s.current s.current (link_of last)
      (record { packet = packet; next_single = link_of last }) ps (omega arith) c,
)

linked-IsChain :
    (packet pz : ℕ) (last : Option ℕ) (s : State) (xs : List (ℕ × ℕ)) (z : ℕ) (o : Option ℕ)
    → Holds s xs
    → s.current < length s.pool
    → get_elem? s.sort_list (clamped pz) ≡ some last
    → get_elem? (set s.sort_list (clamped pz) (some s.current)) z ≡ some o
    → (clamped pz ≡ z) ⊎ (clamped pz ≢ z)
    → IsChain
        (set s.pool s.current (record { packet = packet; next_single = link_of last }))
        (s.current + 1)
        (link_of o)
        (at_depth z ((packet, pz) ∷ xs))
linked-IsChain packet pz last s xs z o h r g e (inl w) =
    let b : clamped pz < length s.sort_list =
      let d = h.depths in let k = clamped-bound pz in omega (arith, d, k) in
    let v : some s.current ≡ o = some_eq (some s.current) o (
      sym (get_elem?-set_self s.sort_list (clamped pz) (some s.current) b)
      ∙ ap (λ (i : ℕ). get_elem? (set s.sort_list (clamped pz) (some s.current)) i) w
      ∙ e) in
    rw (at_depth-same packet pz z xs w) (
      IsChain-same packet last o s (at_depth z xs) r v (
        subst (λ i. IsChain s.pool s.current (link_of last) (at_depth i xs)) w
          (h.chains (clamped pz) last g)))
linked-IsChain packet pz last s xs z o h r g e (inr w) =
    let u : get_elem? s.sort_list z ≡ some o =
      sym (get_elem?-set_ne s.sort_list (clamped pz) z (some s.current) w) ∙ e in
    let new : Single = record { packet = packet; next_single = link_of last } in
    rw (at_depth-other packet pz z xs w) (
      IsChain-wider (set s.pool s.current new) s.current (s.current + 1) (link_of o) (at_depth z xs)
        (omega arith)
        (IsChain-set s.pool s.current s.current (link_of o) new (at_depth z xs) (omega arith)
          (h.chains z o u)))

pub same_or_not : (a b : ℕ) → (a ≡ b) ⊎ (a ≢ b)
same_or_not a b = elim (Bool-cases (a == b)) [
  | inl q ↦ inl (==→eq a b q)
  | inr q ↦ inr (not-==→ne a b q)
]

linked-Holds :
    (packet pz : ℕ) (last : Option ℕ) (s : State) (xs : List (ℕ × ℕ))
    → Holds s xs
    → s.current < length s.pool
    → get_elem? s.sort_list (clamped pz) ≡ some last
    → Holds (linked packet (clamped pz) last s) ((packet, pz) ∷ xs)
linked-Holds packet pz last s xs h r g = record {
  count = let c = h.count in omega (arith, c);
  nodes =
      length-set s.pool s.current (record { packet = packet; next_single = link_of last })
      ∙ h.nodes;
  depths = length-set s.sort_list (clamped pz) (some s.current) ∙ h.depths;
  chains = λ z o e. linked-IsChain packet pz last s xs z o h r g e (same_or_not (clamped pz) z);
}

-- An addition with a node left.
pub add-Holds :
    (packet pz : ℕ) (s : State) (xs : List (ℕ × ℕ))
    → Holds s xs
    → s.current < packet_size
    → (s' : State) × (add packet pz s ≡ some s') × Holds s' ((packet, pz) ∷ xs)
unfolding add
add-Holds packet pz s xs h r =
    let b : clamped pz < length s.sort_list =
      let d = h.depths in let k = clamped-bound pz in omega (arith, d, k) in
    let t : s.current < length s.pool = let d = h.nodes in omega (arith, d) in
    let (last, g) = get_elem?-lt s.sort_list (clamped pz) b in
    (
      linked packet (clamped pz) last s,
      rw (add, g, lt→ltb s.current (length s.pool) t) refl,
      linked-Holds packet pz last s xs h t g,
    )

only_none : (n z : ℕ) (last : Option ℕ) → get_elem? (replicate n none) z ≡ some last → none ≡ last
only_none zero z last e = absurd (cc)
only_none (suc n) zero last e = some_eq none last e
only_none (suc n) (suc z) last e = only_none n z last e

-- After a clear every list is empty.
init-Holds : Holds init []
unfolding init IsChain at_depth
init-Holds = record {
  count = refl;
  nodes =
      length-replicate {A = Single} packet_size (record { packet = 0; next_single = Link.null });
  depths = length-replicate {A = Option ℕ} sort_z_range none;
  chains = λ z last e. sym (ap link_of (only_none sort_z_range z last e));
}

pub added-Holds :
    (xs : List (ℕ × ℕ)) → length xs ≤ packet_size → (s : State) × (added xs ≡ some s) × Holds s xs
unfolding added
added-Holds [] h = (init, refl, init-Holds)
added-Holds ((packet, pz) ∷ xs) h =
    let (s, e, w) = added-Holds xs (omega arith) in
    let (s', e', w') = add-Holds packet pz s xs w (let c = w.count in omega (arith, c)) in
    (s', rw (added, e) e', w')
