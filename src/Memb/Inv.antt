-- ===== src/Memb/Inv.antt =====
-- kernel/mm/memb.c: the invariant of a pool, and the two lemmas on its index that all else needs.
use libyaul.Base.{
  ℕ, zero, suc, ◌+◌, ◌*◌, ◌^◌, ◌≤◌, ◌<◌, ◌≡◌, refl, ◌⊎◌, List, [], ◌∷◌, some, arith, length,
  get_elem?, set, if◌then◌else◌, ltb,
}
use libyaul.Memb.{Memb, RefType, available, reserved, incr_block_index}

-- The number of reserved blocks.
abbrev pub reserved_count : List RefType → ℕ
reserved_count [] = 0
reserved_count (available ∷ rs) = reserved_count rs
reserved_count (reserved ∷ rs) = suc (reserved_count rs)

pub reserved_count-set-reserved :
    (rs : List RefType) (i : ℕ)
    → get_elem? rs i ≡ some available
    → reserved_count (set rs i reserved) ≡ reserved_count rs + 1
reserved_count-set-reserved [] i h = absurd (cc)
reserved_count-set-reserved (available ∷ rs) zero h = omega arith
reserved_count-set-reserved (reserved ∷ rs) zero h = absurd (cc)
reserved_count-set-reserved (available ∷ rs) (suc i) h = reserved_count-set-reserved rs i h
reserved_count-set-reserved (reserved ∷ rs) (suc i) h =
    omega (arith, reserved_count-set-reserved rs i h)

pub reserved_count-set-available :
    (rs : List RefType) (i : ℕ)
    → get_elem? rs i ≡ some reserved
    → reserved_count (set rs i available) + 1 ≡ reserved_count rs
reserved_count-set-available [] i h = absurd (cc)
reserved_count-set-available (available ∷ rs) zero h = absurd (cc)
reserved_count-set-available (reserved ∷ rs) zero h = omega arith
reserved_count-set-available (available ∷ rs) (suc i) h = reserved_count-set-available rs i h
reserved_count-set-available (reserved ∷ rs) (suc i) h =
    omega (arith, reserved_count-set-available rs i h)

pub reserved_count-le-length : (rs : List RefType) → reserved_count rs ≤ length rs
reserved_count-le-length [] = omega arith
reserved_count-le-length (available ∷ rs) = omega (arith, reserved_count-le-length rs)
reserved_count-le-length (reserved ∷ rs) = omega (arith, reserved_count-le-length rs)

-- With no block reserved each block is available.
pub reserved_count-zero :
    (rs : List RefType) (i : ℕ)
    → reserved_count rs ≡ 0
    → i < length rs
    → get_elem? rs i ≡ some available
reserved_count-zero [] i e h = elim h [ ]
reserved_count-zero (available ∷ rs) zero e h = refl
reserved_count-zero (available ∷ rs) (suc i) e h = reserved_count-zero rs i e (omega arith)
reserved_count-zero (reserved ∷ rs) i e h = absurd (omega arith)

-- What holds of a pool between two calls. `m_bidx` is 0 only while block 0 is free, and is out of
-- range only in a pool of at most one block.
pub record IsValid (mb : Memb) : Type 0 where
  pub refs_length : length mb.breftype ≡ mb.bnum
  pub counted : mb.size ≡ reserved_count mb.breftype
  pub index : (mb.bidx < mb.bnum) ⊎ (mb.bnum ≤ 1)
  pub start : mb.bidx ≡ 0 → 0 < mb.bnum → get_elem? mb.breftype 0 ≡ some available
  pub block_size : 0 < mb.bsize
  pub fits : mb.bpool + mb.bnum * mb.bsize < 2 ^ 32

-- The number of blocks is below 2 ^ 32 too.
pub bnum_lt : (n s p : ℕ) → 0 < s → p + n * s < 2 ^ 32 → n < 2 ^ 32
bnum_lt n zero p h f = elim h [ ]
bnum_lt n (suc s) p h f = grind arith

-- The index runs through 1 .. m_bnum - 1 and never returns to 0.
pub incr_block_index_lem :
    (bnum bidx : ℕ)
    → 2 ≤ bnum
    → bnum < 2 ^ 32
    → bidx < bnum
    → incr_block_index bnum bidx ≡ (if ltb (bidx + 1) bnum then bidx + 1 else 1)
unfolding incr_block_index
incr_block_index_lem bnum bidx two big h = ground arith

-- In a pool of one block it is left at 1.
pub incr_block_index-one : (bidx : ℕ) → incr_block_index 1 bidx ≡ 1
unfolding incr_block_index
incr_block_index-one bidx = ground arith

pub incr_block_index-ne-zero :
    (bnum bidx : ℕ) → bnum < 2 ^ 32 → bidx < bnum → 0 < incr_block_index bnum bidx
unfolding incr_block_index
incr_block_index-ne-zero bnum bidx big h = ground arith
