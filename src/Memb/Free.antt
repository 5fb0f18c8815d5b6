-- ===== src/Memb/Free.antt =====
-- kernel/mm/memb.c: `memb_init` and `memb_free`, and how they undo `memb_alloc`.
use libyaul.Base.{
  ℕ, zero, suc, ◌+◌, ◌-◌, ◌*◌, ◌^◌, ◌≤◌, ◌<◌, ◌≡◌, ◌≢◌, ◌∙◌, refl, ap, inl, inr, Option, none, some,
  Bool, true, false, Bool-cases, arith, get_elem?, set, if◌then◌else◌, ◌==◌, length-set,
  get_elem?-set_self, get_elem?-lt,
}
use native.Mathlib.Decide.{dec_lt}
use libyaul.Base.Words.{add32, sub32}
use libyaul.Memb.{Memb, RefType, available, reserved, bounds, find_block, release, free_block}
use libyaul.Memb.Inv.{
  IsValid, bnum_lt, reserved_count, reserved_count-set-available, reserved_count-le-length,
  reserved_count-zero,
}
use libyaul.Memb.Alloc.{block_offset_le}

-- What the search for the block at `addr` returns, among the blocks from `bidx` to `top`.
data Located (s p addr bidx top : ℕ) (r : Option ℕ) : Type 0 where
  at : (i : ℕ) → r ≡ some i → bidx ≤ i → i < top → addr ≡ p + i * s → Located s p addr bidx top r
  nowhere :
      r ≡ none → ((i : ℕ) → bidx ≤ i → i < top → addr ≢ p + i * s) → Located s p addr bidx top r

find_block-Located :
    (s p addr n bidx top block : ℕ)
    → bidx + n ≡ top
    → p + top * s < 2 ^ 32
    → block ≡ p + bidx * s
    → Located s p addr bidx top (find_block n s addr bidx block)
unfolding find_block
find_block-Located s p addr zero bidx top block t f e = nowhere refl (λ i l h. absurd (omega arith))
find_block-Located s p addr (suc n) bidx top block t f e = elim (Bool-cases (block == addr)) [
  | inl hit ↦ at bidx (rw hit) (omega arith) (omega arith) (ground arith)
  | inr miss ↦ rw miss (
      widen miss (
        find_block-Located s p addr n (bidx + 1) top (add32 block s) (omega arith) f
          (omega (arith, block_offset_le s p bidx top (omega arith)))))
]
  where
    widen :
        (block == addr) ≡ false
        → {r : Option ℕ} → Located s p addr (bidx + 1) top r
        → Located s p addr bidx top r
    widen miss (at i r a b c) = at i r (omega arith) b c
    widen miss (nowhere r all) = nowhere r λ i l h q. elim (dec_lt bidx i) [
      | yes more ↦ all i (omega arith) h q
      | no not ↦ let same : i ≡ bidx = omega arith in ground (arith, ap (λ (k : ℕ). p + k * s) same)
    ]

-- The pool after block `i` is given back.
abbrev pub given_back : Memb → ℕ → Memb
given_back mb i = record mb {
  breftype = set mb.breftype i available;
  size = mb.size - 1;
  bidx = if mb.size - 1 == 0 then 0 else i;
}

-- The two ways in which `memb_free` ends: the address is that of a reserved block, or it is not.
pub data Freed (mb : Memb) (addr : ℕ) (r : Bool × Memb) : Type 0 where
  freed :
      (i : ℕ)
      → i < mb.bnum
      → addr ≡ mb.bpool + i * mb.bsize
      → get_elem? mb.breftype i ≡ some reserved
      → r ≡ (true, given_back mb i)
      → Freed mb addr r
  not_freed :
      ((i : ℕ)
        → i < mb.bnum
        → addr ≡ mb.bpool + i * mb.bsize
        → get_elem? mb.breftype i ≡ some available)
      → r ≡ (false, mb)
      → Freed mb addr r

release_lem :
    (mb : Memb) (i : ℕ)
    → IsValid mb
    → get_elem? mb.breftype i ≡ some reserved
    → release mb i ≡ (true, given_back mb i)
unfolding release
release_lem mb i v h =
    let e : sub32 mb.size 1 ≡ mb.size - 1 = omega (
      arith,
      v.counted,
      v.refs_length,
      bnum_lt mb.bnum mb.bsize mb.bpool v.block_size v.fits,
      reserved_count-le-length mb.breftype,
      reserved_count-set-available mb.breftype i h,
    ) in
    rw (h, release) (rw e)

-- Two blocks at one address are one block.
pub block_injective : (s p i j : ℕ) → 0 < s → p + i * s ≡ p + j * s → i ≡ j
block_injective s p i j h e = elim (dec_lt i j) [
  | yes l ↦ absurd (omega (arith, block_offset_le s p i j l))
  | no n ↦ elim (dec_lt j i) [
    | yes m ↦ absurd (omega (arith, block_offset_le s p j i m))
    | no k ↦ omega arith
  ]
]

-- A block of a valid pool passes the test of `MEMB_PTR_BOUND`.
block-bounds :
    (mb : Memb) (i : ℕ) → IsValid mb → i < mb.bnum → bounds mb (mb.bpool + i * mb.bsize) ≡ true
unfolding bounds
block-bounds mb i v l =
    ground (arith, block_offset_le mb.bsize mb.bpool i mb.bnum l, v.block_size, v.fits)

at_block-Freed :
    (mb : Memb) (addr i : ℕ) (a : RefType)
    → IsValid mb
    → i < mb.bnum
    → addr ≡ mb.bpool + i * mb.bsize
    → get_elem? mb.breftype i ≡ some a
    → Freed mb addr (release mb i)
unfolding release
at_block-Freed mb addr i reserved v l e h = freed i l e h (release_lem mb i v h)
at_block-Freed mb addr i available v l e h =
    not_freed (λ j m q. ground (arith, block_injective mb.bsize mb.bpool i j v.block_size))
      (rw (h, release))

searched-Freed :
    (mb : Memb) (addr : ℕ) (r : Option ℕ)
    → IsValid mb
    → bounds mb addr ≡ true
    → find_block mb.bnum mb.bsize addr 0 mb.bpool ≡ r
    → Located mb.bsize mb.bpool addr 0 mb.bnum r
    → Freed mb addr (free_block mb addr)
unfolding free_block
searched-Freed mb addr r v inside e (at i q a l h) =
    let (a', g) = get_elem?-lt mb.breftype i (omega (arith, v.refs_length)) in
    rw inside (rw (e ∙ q, free_block) (at_block-Freed mb addr i a' v l h g))
searched-Freed mb addr r v inside e (nowhere q all) =
    rw inside (rw (e ∙ q, free_block) (not_freed (λ i l h. absurd (all i (omega arith) l h)) refl))

-- `memb_free` of a valid pool succeeds exactly at the address of a reserved block, which it makes
-- available; at any other address it fails and changes nothing.
pub free_block-Freed : (mb : Memb) (addr : ℕ) → IsValid mb → Freed mb addr (free_block mb addr)
unfolding free_block
free_block-Freed mb addr v = elim (Bool-cases (bounds mb addr)) [
  | inl inside ↦ searched-Freed mb addr _ v inside refl (
      find_block-Located mb.bsize mb.bpool addr mb.bnum 0 mb.bnum mb.bpool (omega arith) v.fits
        (omega arith))
  | inr outside ↦
      rw outside (not_freed (λ i l e. absurd (cc (block-bounds mb i v l, ap (bounds mb) e))) refl)
]

given_back-IsValid :
    (mb : Memb) (i : ℕ)
    → IsValid mb
    → i < mb.bnum
    → get_elem? mb.breftype i ≡ some reserved
    → IsValid (given_back mb i)
given_back-IsValid mb i v l h = record {
  refs_length = length-set mb.breftype i available ∙ v.refs_length;
  counted = omega (arith, v.counted, count);
  index = inl (ground arith);
  start = first;
  block_size = v.block_size;
  fits = v.fits;
}
  where
    count : reserved_count (set mb.breftype i available) + 1 ≡ reserved_count mb.breftype
    count = reserved_count-set-available mb.breftype i h

    first :
        (if mb.size - 1 == 0 then 0 else i) ≡ 0
        → 0 < mb.bnum
        → get_elem? (set mb.breftype i available) 0 ≡ some available
    first z p = elim (Bool-cases (mb.size - 1 == 0)) [
      | inl none_left ↦
          reserved_count-zero (set mb.breftype i available) 0 (ground (arith, count, v.counted))
            (omega (arith, length-set mb.breftype i available, v.refs_length))
      | inr some_left ↦
          let e : i ≡ 0 = ground arith in
          rw e (get_elem?-set_self mb.breftype 0 available (omega (arith, v.refs_length)))
    ]

-- `memb_free` keeps a valid pool valid, whatever address it is given.
pub free_block-IsValid : (mb : Memb) (addr : ℕ) → IsValid mb → IsValid (free_block mb addr).1
free_block-IsValid mb addr v = elim (free_block-Freed mb addr v) [
  | freed i l e h r ↦ rw r (given_back-IsValid mb i v l h)
  | not_freed all r ↦ rw r v
]
