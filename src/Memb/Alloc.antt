-- ===== src/Memb/Alloc.antt =====
-- kernel/mm/memb.c: what `memb_alloc` returns, and when it fails.
use libyaul.Base.{
  ℕ, ◌+◌, ◌*◌, ◌^◌, ◌≤◌, ◌<◌, ◌≡◌, ◌≢◌, refl, ap, ◌⊎◌, inl, inr, Option, none, false, ◌↔◌, ◌∙◌,
  some, Bool-cases, arith, get_elem?, set, get_elem?-lt, length-set, leb,
}
use libyaul.Memb.{
  Memb, RefType, available, reserved, incr_block_index, Search, allocate, after_search, alloc_block,
}
use libyaul.Memb.Inv.{
  IsValid, incr_block_index_lem, incr_block_index-ne-zero, bnum_lt, reserved_count-set-reserved,
  reserved_count-le-length,
}
use libyaul.Memb.FirstFit.{Found, hit, miss, index_pos, search-Found}
use native.Mathlib.Decide.{dec_lt}

-- The pool after block `i` is handed out, with no arithmetic wrapping.
abbrev pub handed_out : Memb → ℕ → Memb
handed_out mb i = record mb {
  breftype = set mb.breftype i reserved;
  bidx = incr_block_index mb.bnum i;
  size = mb.size + 1;
}

-- Every block but block 0 is taken.
abbrev pub AllButFirst : Memb → Type 0
AllButFirst mb = (j : ℕ) → 0 < j → j < mb.bnum → get_elem? mb.breftype j ≡ some reserved

-- The two ways in which `memb_alloc` ends.
pub data Outcome (mb : Memb) (r : Option (Option ℕ × Memb)) : Type 0 where
  served :
      (i : ℕ)
      → i < mb.bnum
      → get_elem? mb.breftype i ≡ some available
      → (i ≡ mb.bidx) ⊎ (0 < i)
      → r ≡ some (some (mb.bpool + i * mb.bsize), handed_out mb i)
      → Outcome mb r
  refused : (mb.bnum ≡ 0) ⊎ (0 < mb.bidx) → AllButFirst mb → r ≡ some (none, mb) → Outcome mb r

-- A block ends where a later one begins, or before.
pub block_offset_le : (s p i j : ℕ) → i < j → p + i * s + s ≤ p + j * s
block_offset_le s p i j l = grind arith

allocate_lem :
    (mb : Memb) (i : ℕ)
    → IsValid mb
    → i < mb.bnum
    → get_elem? mb.breftype i ≡ some available
    → allocate mb i ≡ (some (mb.bpool + i * mb.bsize), handed_out mb i)
unfolding allocate
allocate_lem mb i v l a = ground (
  arith,
  block_offset_le mb.bsize mb.bpool i mb.bnum l,
  bnum_lt mb.bnum mb.bsize mb.bpool v.block_size v.fits,
  reserved_count-le-length (set mb.breftype i reserved),
  reserved_count-set-reserved mb.breftype i a,
  length-set mb.breftype i reserved,
)

after_search-Outcome :
    (mb : Memb) (s : Search)
    → IsValid mb
    → 0 < mb.bidx
    → Found mb.bnum mb.breftype mb.bidx mb.bidx s
    → Outcome mb (after_search mb s)
unfolding after_search
after_search-Outcome mb s v p (hit i r q l a) =
    served i l a (inr q) (rw (r, after_search) (ap some (allocate_lem mb i v l a)))
after_search-Outcome mb s v p (miss r all) =
    refused (inr p) (λ j q l. all j (ground arith)) (rw (r, after_search))

in_range-Outcome :
    (mb : Memb)
    → IsValid mb
    → leb mb.bnum mb.bidx ≡ false
    → (a : RefType) × (get_elem? mb.breftype mb.bidx ≡ some a)
    → Outcome mb (alloc_block mb)
unfolding alloc_block
in_range-Outcome mb v within (available, e) =
    served mb.bidx (ground arith) e (inl refl)
      (rw within (rw (e, alloc_block) (ap some (allocate_lem mb mb.bidx v (ground arith) e))))
in_range-Outcome mb v within (reserved, e) = rw within (
    rw (e, alloc_block)
      (after_search-Outcome mb _ v (index_pos mb.breftype mb.bidx (λ z. v.start z (ground arith)) e)
        (search-Found mb v (ground arith) e)))

-- `memb_alloc` of a valid pool ends in one of two ways: it hands out an available block, which
-- is then reserved, or it returns NULL with the pool unchanged and every block but block 0
-- reserved.
pub alloc_block-Outcome : (mb : Memb) → IsValid mb → Outcome mb (alloc_block mb)
unfolding alloc_block
alloc_block-Outcome mb v = elim (Bool-cases (leb mb.bnum mb.bidx)) [
  | inl over ↦ refused (ground arith) (λ j q l. absurd (ground arith)) (rw over)
  | inr within ↦ in_range-Outcome mb v within (get_elem?-lt mb.breftype mb.bidx (ground arith))
]

pub handed_out-IsValid :
    (mb : Memb) (i : ℕ)
    → IsValid mb
    → i < mb.bnum
    → get_elem? mb.breftype i ≡ some available
    → IsValid (handed_out mb i)
handed_out-IsValid mb i v l a = record {
  refs_length = length-set mb.breftype i reserved ∙ v.refs_length;
  counted = omega (arith, v.counted, reserved_count-set-reserved mb.breftype i a);
  index = next_index (omega arith);
  start = λ z p. absurd (omega (arith, incr_block_index-ne-zero mb.bnum i big l));
  block_size = v.block_size;
  fits = v.fits;
}
  where
    big : mb.bnum < 2 ^ 32
    big = bnum_lt mb.bnum mb.bsize mb.bpool v.block_size v.fits

    next_index :
        (2 ≤ mb.bnum) ⊎ (mb.bnum ≤ 1) → (incr_block_index mb.bnum i < mb.bnum) ⊎ (mb.bnum ≤ 1)
    next_index (inl two) = ground (arith, incr_block_index_lem mb.bnum i two big l)
    next_index (inr one) = inr one

-- `memb_alloc` of a valid pool ends, reads no reference outside the array, and leaves the pool
-- valid.
pub alloc_block-IsValid :
    (mb : Memb)
    → IsValid mb
    → (r : Option ℕ) × (mb' : Memb) × (alloc_block mb ≡ some (r, mb')) × IsValid mb'
alloc_block-IsValid mb v = elim (alloc_block-Outcome mb v) [
  | served i l a w e ↦
      (some (mb.bpool + i * mb.bsize), handed_out mb i, e, handed_out-IsValid mb i v l a)
  | refused p all e ↦ (none, mb, e, v)
]

-- `memb_alloc` of a valid pool returns NULL exactly if the pool has no blocks, or its index has
-- left 0 and every block other than block 0 is reserved; the pool is then unchanged.
pub alloc_block-none_iff :
    (mb : Memb)
    → IsValid mb
    → (alloc_block mb ≡ some (none, mb)) ↔ ((mb.bnum ≡ 0) ⊎ ((0 < mb.bidx) × AllButFirst mb))
alloc_block-none_iff mb v = elim (alloc_block-Outcome mb v) [
  | served i l a w e ↦ (λ q. absurd (cc), λ q. absurd (taken i l a w q))
  | refused p all e ↦ (λ q. elim p [ inl z ↦ inl z | inr n ↦ inr (n, all) ], λ q. e)
]
  where
    taken :
        (i : ℕ)
        → i < mb.bnum
        → get_elem? mb.breftype i ≡ some available
        → (i ≡ mb.bidx) ⊎ (0 < i)
        → (mb.bnum ≡ 0) ⊎ ((0 < mb.bidx) × AllButFirst mb)
        → ⊥
    taken i l a w (inl z) = omega arith
    taken i l a w (inr (n, all)) = cc (all i (ground arith) l)

blocks_apart : (s p i j : ℕ) → i ≢ j → (p + i * s + s ≤ p + j * s) ⊎ (p + j * s + s ≤ p + i * s)
blocks_apart s p i j ne = elim (dec_lt i j) [
  | yes l ↦ inl (block_offset_le s p i j l)
  | no n ↦ inr (block_offset_le s p j i (omega arith))
]

-- A block that `memb_alloc` of a valid pool returns lies inside the pool and shares no byte with a
-- block that was reserved before.
pub alloc_block_fresh :
    (mb mb' : Memb) (addr j : ℕ)
    → IsValid mb
    → alloc_block mb ≡ some (some addr, mb')
    → get_elem? mb.breftype j ≡ some reserved
    → (mb.bpool ≤ addr)
      × (addr + mb.bsize ≤ mb.bpool + mb.bnum * mb.bsize)
      × ((addr + mb.bsize ≤ mb.bpool + j * mb.bsize) ⊎ (mb.bpool + j * mb.bsize + mb.bsize ≤ addr))
alloc_block_fresh mb mb' addr j v e h = elim (alloc_block-Outcome mb v) [
  | served i l a w q ↦
      let e' : addr ≡ mb.bpool + i * mb.bsize = ground arith in
      rw e' (
        omega arith,
        block_offset_le mb.bsize mb.bpool i mb.bnum l,
        blocks_apart mb.bsize mb.bpool i j (different i a h),
      )
  | refused p all q ↦ absurd (cc)
]
  where
    different :
        (i : ℕ)
        → get_elem? mb.breftype i ≡ some available
        → get_elem? mb.breftype j ≡ some reserved
        → i ≢ j
    different i a b eq = cc
