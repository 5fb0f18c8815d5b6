-- ===== src/Memb.antt =====
-- kernel/mm/memb.{h,c}: pools of blocks of one size. A pool's address, sizes and counters are
-- `uint32_t` values; `none` stands for a NULL pointer.
pub mod Inv
pub mod FirstFit
pub mod Alloc
pub mod Free
pub mod RoundTrip
pub mod Init
mod Tests
use libyaul.Base.{
  ℕ, zero, suc, ◌+◌, ◌*◌, ◌≡◌, Bool, true, false, ◌&&◌, List, [], ◌∷◌, Option, none, some, ltb, leb,
  ◌==◌, if◌then◌else◌, get_elem?, set, replicate,
}
use libyaul.Base.Words.{add32, sub32, mul32}

-- `memb_ref_type_t`
pub data RefType : Type 0 where
  available reserved : RefType

-- `memb_t`, with the bytes that `m_bpool` points to.
pub record Memb : Type 0 where
  pub bsize : ℕ
  pub bnum : ℕ
  pub breftype : List RefType
  pub bidx : ℕ
  pub size : ℕ
  pub bpool : ℕ
  pub bytes : List ℕ

-- The bytes that a loop or `memset` fills from the start of an array: the rest stays.
pub fill {ℓ} : {A : Type ℓ} → ℕ → A → List A → List A
fill zero a xs = xs
fill (suc n) a [] = []
fill (suc n) a (x ∷ xs) = a ∷ fill n a xs

-- `memb_init`
pub init : Memb → Memb
unfolding fill
init mb = record mb {
  breftype = fill mb.bnum available mb.breftype;
  size = 0;
  bytes = fill (mul32 mb.bsize mb.bnum) 0 mb.bytes;
}

-- `_incr_block_index`, on the index alone
pub incr_block_index : ℕ → ℕ → ℕ
incr_block_index bnum bidx = add32 (if leb (sub32 bnum 1) bidx then 0 else bidx) 1

-- How the first-fit search ends: at a free block, back at its start, at a read outside
-- `m_breftype`, or not within the fuel.
pub data Search : Type 0 where
  found : ℕ → Search
  exhausted : Search
  outside : Search
  unfinished : Search

-- The `do ... while` loop of `memb_alloc`.
pub first_fit : ℕ → ℕ → List RefType → ℕ → ℕ → Search
first_fit zero bnum refs cur bidx = unfinished
first_fit (suc fuel) bnum refs cur bidx =
    let next = incr_block_index bnum bidx in
    let rest = first_fit fuel bnum refs cur next in
    elim (get_elem? refs next) [
      | none ↦ outside
      | some available ↦ found next
      | some reserved ↦ if cur == next then exhausted else rest
    ]

-- The label `allocate` of `memb_alloc`.
pub allocate : Memb → ℕ → Option ℕ × Memb
allocate mb bidx = (
  some (add32 mb.bpool (mul32 bidx mb.bsize)),
  record mb {
    breftype = set mb.breftype bidx reserved;
    bidx = incr_block_index mb.bnum bidx;
    size = add32 mb.size 1;
  },
)

-- What follows the search: `goto allocate`, or the NULL at the end, with `m_bidx` back where the
-- search began.
pub after_search : Memb → Search → Option (Option ℕ × Memb)
after_search mb (found i) = some (allocate mb i)
after_search mb exhausted = some (none, mb)
after_search mb outside = none
after_search mb unfinished = none

-- `memb_alloc` of a pool: the address, if any, and the pool after it. The outer option is `none`
-- if the code reads outside `m_breftype` or searches for more than `m_bnum` rounds.
pub alloc_block : Memb → Option (Option ℕ × Memb)
alloc_block mb =
    if leb mb.bnum mb.bidx then some (none, mb) else elim (get_elem? mb.breftype mb.bidx) [
      | none ↦ none
      | some available ↦ some (allocate mb mb.bidx)
      | some reserved ↦ after_search mb (first_fit mb.bnum mb.bnum mb.breftype mb.bidx mb.bidx)
    ]

-- `memb_alloc`
pub alloc : Option Memb → Option (Option ℕ × Option Memb)
unfolding alloc_block
alloc none = some (none, none)
alloc (some mb) = elim (alloc_block mb) [ none ↦ none | some (a, mb') ↦ some (a, some mb') ]

-- `MEMB_PTR_BOUND` and `memb_bounds`
pub bounds : Memb → ℕ → Bool
bounds mb addr = leb mb.bpool addr && ltb addr (mb.bpool + mul32 mb.bnum mb.bsize)

-- The search of `memb_free`: the index of the block at `addr`, among the `n` blocks from `bidx` on.
pub find_block : ℕ → ℕ → ℕ → ℕ → ℕ → Option ℕ
find_block zero bsize addr bidx block = none
find_block (suc n) bsize addr bidx block =
    if block == addr then some bidx else find_block n bsize addr (bidx + 1) (add32 block bsize)

-- The body of that search's hit.
pub release : Memb → ℕ → Bool × Memb
release mb bidx = elim (get_elem? mb.breftype bidx) [
  | some reserved ↦ (
    true,
    record mb {
      breftype = set mb.breftype bidx available;
      size = sub32 mb.size 1;
      bidx = if sub32 mb.size 1 == 0 then 0 else bidx;
    },
  )
  | _ ↦ (false, mb)
]

-- `memb_free` of a pool; `true` stands for the result 0 and `false` for -1.
pub free_block : Memb → ℕ → Bool × Memb
unfolding bounds find_block release
free_block mb addr =
    if bounds mb addr
    then elim (find_block mb.bnum mb.bsize addr 0 mb.bpool) [
      | none ↦ (false, mb)
      | some bidx ↦ release mb bidx
    ]
    else (false, mb)

-- `memb_free`
pub free : Option Memb → ℕ → Bool × Option Memb
unfolding free_block
free none addr = (false, none)
free (some mb) addr = let (r, mb') = free_block mb addr in (r, some mb')

-- `memb_size`; `none` stands for -1.
pub size_of : Option Memb → Option ℕ
size_of none = none
size_of (some mb) = some mb.size
