-- ===== src/Memb/Init.antt =====
-- kernel/mm/memb.c: `memb_init`, and what any calls after it can meet.
use libyaul.Base.{
  ℕ, zero, suc, ◌+◌, ◌*◌, ◌^◌, ◌≤◌, ◌<◌, ◌≡◌, refl, ap, sym, ◌⊎◌, inr, List, [], ◌∷◌, Option, none,
  some, arith, length, get_elem?, set, length-set, replicate, get_elem?-replicate, length-replicate,
}
use libyaul.Base.Words.{mul32}
use libyaul.Memb.{Memb, available, reserved, init, fill, alloc_block, free_block}
use libyaul.Memb.Inv.{
  IsValid, reserved_count, reserved_count-set-reserved, reserved_count-le-length,
}
use libyaul.Memb.Alloc.{alloc_block-IsValid, AllButFirst, alloc_block-none_iff}
use libyaul.Memb.Free.{free_block-IsValid}

fill-replicate {ℓ} :
    {A : Type ℓ} (a : A) (xs : List A) (n : ℕ) → n ≡ length xs → fill n a xs ≡ replicate n a
unfolding fill
fill-replicate a [] zero e = refl
fill-replicate a [] (suc n) e = absurd (omega arith)
fill-replicate a (x ∷ xs) zero e = absurd (omega arith)
fill-replicate a (x ∷ xs) (suc n) e = ap (◌∷◌ a) (fill-replicate a xs n (omega arith))

reserved_count-replicate : (n : ℕ) → reserved_count (replicate n available) ≡ 0
reserved_count-replicate zero = refl
reserved_count-replicate (suc n) = reserved_count-replicate n

-- `memb_init` makes a declared pool valid, whose index is in range or which has at most one block:
-- no block is reserved and each byte of the pool is 0. The index stays what it was.
pub init-IsValid :
    (mb : Memb)
    → length mb.breftype ≡ mb.bnum
    → length mb.bytes ≡ mb.bsize * mb.bnum
    → 0 < mb.bsize
    → mb.bpool + mb.bnum * mb.bsize < 2 ^ 32
    → (mb.bidx < mb.bnum) ⊎ (mb.bnum ≤ 1)
    → IsValid (init mb)
      × ((init mb).size ≡ 0)
      × ((init mb).breftype ≡ replicate mb.bnum available)
      × ((init mb).bytes ≡ replicate (mb.bsize * mb.bnum) 0)
      × ((init mb).bidx ≡ mb.bidx)
unfolding init
init-IsValid mb refs bytes s f index = (
  record {
    refs_length = rw cleared (length-replicate mb.bnum available);
    counted = rw cleared (sym (reserved_count-replicate mb.bnum));
    index = index;
    start = λ z p. rw cleared (get_elem?-replicate mb.bnum 0 available p);
    block_size = s;
    fits = f;
  },
  refl,
  cleared,
  rw area (fill-replicate 0 mb.bytes (mb.bsize * mb.bnum) (sym bytes)),
  refl,
)
  where
    cleared : fill mb.bnum available mb.breftype ≡ replicate mb.bnum available
    cleared = fill-replicate available mb.breftype mb.bnum (sym refs)

    area : mul32 mb.bsize mb.bnum ≡ mb.bsize * mb.bnum
    area = omega arith

-- A call of the pool's interface.
pub data Call : Type 0 where
  allocs : Call
  frees : ℕ → Call

-- The pool after a call; `none` if the call would not return.
step : Memb → Call → Option Memb
step mb allocs = elim (alloc_block mb) [ none ↦ none | some (r, mb') ↦ some mb' ]
step mb (frees addr) = some (free_block mb addr).1

unfoldable pub run : Memb → List Call → Option Memb
unfolding step
run mb [] = some mb
run mb (c ∷ cs) = elim (step mb c) [ none ↦ none | some mb' ↦ run mb' cs ]

-- Any sequence of allocations and of frees, of any addresses, runs to its end from a valid pool
-- and leaves a valid pool.
pub run-IsValid :
    (mb : Memb) (cs : List Call) → IsValid mb → (mb' : Memb) × (run mb cs ≡ some mb') × IsValid mb'
unfolding run
run-IsValid mb [] v = (mb, refl, v)
run-IsValid mb (allocs ∷ cs) v =
    let (r, mb', e, v') = alloc_block-IsValid mb v in
    let (last, q, w) = run-IsValid mb' cs v' in (last, rw (e, run) q, w)
run-IsValid mb (frees addr ∷ cs) v =
    run-IsValid (free_block mb addr).1 cs (free_block-IsValid mb addr v)

-- While block 0 is the only free block of a valid pool whose index has left 0, `memb_alloc`
-- returns NULL, although fewer blocks are reserved than the pool has.
pub alloc_block_starves :
    (mb : Memb)
    → IsValid mb
    → 0 < mb.bidx
    → get_elem? mb.breftype 0 ≡ some available
    → AllButFirst mb
    → (alloc_block mb ≡ some (none, mb)) × (mb.size < mb.bnum)
alloc_block_starves mb v p free all = (
  (alloc_block-none_iff mb v).1 (inr (p, all)),
  omega (
    arith,
    v.counted,
    v.refs_length,
    reserved_count-set-reserved mb.breftype 0 free,
    reserved_count-le-length (set mb.breftype 0 reserved),
    length-set mb.breftype 0 reserved,
  ),
)
