-- ===== src/Sega3d/Sort/Sent.antt =====
-- libsega3d/sort.c: the packets that `fn` is called with, from the farthest depth to the nearest.
use libyaul.Base.{
  ℕ, zero, suc, ◌≤◌, ◌<◌, ◌≡◌, refl, sym, ap, ◌∙◌, List, [], ◌∷◌, ◌++◌, Option, none, some,
  get_elem?, length, replicate, arith, get_elem?-lt, some_eq, le→not-ltb,
}
use libyaul.Sega3d.Sort.{
  State, Single, Link, link_of, while_linked, visit, iterate_from, iterate, added, add, clamped,
  sort_z_range, packet_size,
}
use libyaul.Sega3d.Sort.Chains.{IsChain, Holds, at_depth, clamped-bound, added-Holds}

-- For a depth: the latest packet as often as there are packets.
unfoldable pub latest_repeated : List ℕ → List ℕ
latest_repeated [] = []
latest_repeated (p ∷ ps) = p ∷ replicate (length ps) p

-- What is sent for the depths below `n`, the farthest first.
unfoldable pub sent : ℕ → List (ℕ × ℕ) → List ℕ
unfolding at_depth latest_repeated
sent zero xs = []
sent (suc z) xs = latest_repeated (at_depth z xs) ++ sent z xs

while_linked-blank :
    (fuel : ℕ) (pool : List Single) (first : ℕ)
    → while_linked (suc fuel) pool first Link.blank ≡ some []
unfolding while_linked
while_linked-blank fuel pool first = refl

node_eq : (j k : ℕ) → Link.node j ≡ Link.node k → j ≡ k
node_eq j k e = cc

while_linked-null :
    (fuel : ℕ) (pool : List Single) (first : ℕ) → while_linked fuel pool first Link.null ≡ none
unfolding while_linked
while_linked-null zero pool first = refl
while_linked-null (suc fuel) pool first = refl

-- A round of the loop.
while_linked-node :
    (fuel : ℕ) (pool : List Single) (k first p : ℕ) (l : Link) (ps : List ℕ)
    → get_elem? pool k ≡ some (record { packet = p; next_single = l })
    → while_linked fuel pool first l ≡ some ps
    → while_linked (suc fuel) pool first (Link.node k) ≡ some (first ∷ ps)
unfolding while_linked
while_linked-node fuel pool k first p Link.null ps g i =
    absurd (let n = while_linked-null fuel pool first in let q : none ≡ some ps = sym n ∙ i in cc)
while_linked-node fuel pool k first p Link.blank ps g i = rw (while_linked, g, i) refl
while_linked-node fuel pool k first p (Link.node k') ps g i = rw (while_linked, g, i) refl

-- The loop runs once for each further node of the list.
while_linked-IsChain :
    (fuel : ℕ) (pool : List Single) (n first : ℕ) (l : Link) (ps : List ℕ)
    → n < fuel
    → IsChain pool n l ps
    → while_linked fuel pool first l ≡ some (replicate (length ps) first)
unfolding IsChain
while_linked-IsChain zero pool n first l ps h c = absurd (omega arith)
while_linked-IsChain (suc fuel) pool n first l [] h c = rw c (while_linked-blank fuel pool first)
while_linked-IsChain (suc fuel) pool n first l (p ∷ ps) h (k, m, e, b, g, c) = rw e (
    while_linked-node fuel pool k first p m (replicate (length ps) first) g
      (while_linked-IsChain fuel pool k first m ps (omega arith) c))

visit-after :
    (pool : List Single) (k p : ℕ) (l : Link) (ps : List ℕ)
    → get_elem? pool k ≡ some (record { packet = p; next_single = l })
    → while_linked (suc (length pool)) pool p l ≡ some ps
    → visit pool (some k) ≡ some (p ∷ ps)
unfolding visit
visit-after pool k p Link.null ps g i = absurd (
    let n = while_linked-null (suc (length pool)) pool p in
    let q : none ≡ some ps = sym n ∙ i in cc)
visit-after pool k p Link.blank ps g i =
    rw (visit, g)
      (ap (λ (qs : List ℕ). some (p ∷ qs))
        (some_eq [] ps (sym (while_linked-blank (length pool) pool p) ∙ i)))
visit-after pool k p (Link.node k') ps g i = rw (visit, g, i) refl

visit-latest_repeated :
    (pool : List Single) (n : ℕ) (last : Option ℕ) (ps : List ℕ)
    → n ≤ length pool
    → IsChain pool n (link_of last) ps
    → visit pool last ≡ some (latest_repeated ps)
unfolding IsChain latest_repeated visit
visit-latest_repeated pool n none [] h c = refl
visit-latest_repeated pool n none (p ∷ ps) h (k, m, e, b, g, c) = absurd (cc)
visit-latest_repeated pool n (some j) [] h c = absurd (cc)
visit-latest_repeated pool n (some j) (p ∷ ps) h (k, m, e, b, g, c) =
    let q : j ≡ k = node_eq j k e in
    visit-after pool j p m (replicate (length ps) p) (ap (λ (i : ℕ). get_elem? pool i) q ∙ g)
      (while_linked-IsChain (suc (length pool)) pool k p m ps (omega arith) c)

iterate_from-sent :
    (n : ℕ) (s : State) (xs : List (ℕ × ℕ))
    → Holds s xs
    → s.current ≤ packet_size
    → n ≤ sort_z_range
    → iterate_from n s ≡ some (sent n xs)
unfolding iterate_from sent
iterate_from-sent zero s xs h c b = refl
iterate_from-sent (suc z) s xs h c b =
    let t : z < length s.sort_list = let d = h.depths in omega (arith, d) in
    let (last, g) = get_elem?-lt s.sort_list z t in
    let v =
      visit-latest_repeated s.pool s.current last (at_depth z xs)
        (let d = h.nodes in omega (arith, d)) (h.chains z last g) in
    let r = iterate_from-sent z s xs h c (omega arith) in rw (iterate_from, g, v, r) refl

-- After a clear and up to 4096 additions the iteration sends, for each depth from the farthest
-- to the nearest, as many packets as were added at it, each of them the latest.
pub iterate-added :
    (xs : List (ℕ × ℕ))
    → length xs ≤ packet_size
    → (s : State) × (added xs ≡ some s) × (iterate s ≡ some (sent sort_z_range xs))
unfolding iterate
iterate-added xs h =
    let (s, e, w) = added-Holds xs h in
    (
      s,
      e,
      iterate_from-sent sort_z_range s xs w (let c = w.count in omega (arith, c)) (omega arith),
    )

add-full :
    (packet pz : ℕ) (s : State) (xs : List (ℕ × ℕ))
    → Holds s xs
    → length s.pool ≤ s.current
    → add packet pz s ≡ none
unfolding add
add-full packet pz s xs h t =
    let b : clamped pz < length s.sort_list =
      let d = h.depths in let k = clamped-bound pz in omega (arith, d, k) in
    let (last, g) = get_elem?-lt s.sort_list (clamped pz) b in
    rw (add, g, le→not-ltb s.current (length s.pool) t) refl

-- After 4096 additions since a clear the next one writes behind the pool.
pub add-overruns :
    (xs : List (ℕ × ℕ)) (packet pz : ℕ) → length xs ≡ packet_size → added ((packet, pz) ∷ xs) ≡ none
unfolding added
add-overruns xs packet pz h =
    let (s, e, w) = added-Holds xs (omega arith) in
    let t : length s.pool ≤ s.current = let c = w.count in let d = w.nodes in omega (arith, c, d) in
    rw (added, e) (add-full packet pz s xs w t)
