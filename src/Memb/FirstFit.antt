-- ===== src/Memb/FirstFit.antt =====
-- kernel/mm/memb.c: the search of `memb_alloc` for a free block.
use libyaul.Base.{
  ℕ, zero, suc, ◌+◌, ◌-◌, ◌^◌, ◌≤◌, ◌<◌, ◌≡◌, ◌≢◌, refl, ◌⊎◌, inl, inr, List, some, Bool-cases,
  arith, length, get_elem?, if◌then◌else◌, ◌==◌, ltb, get_elem?-lt,
}
use libyaul.Memb.{
  Memb, RefType, available, reserved, incr_block_index, Search, found, exhausted, first_fit,
}
use libyaul.Memb.Inv.{IsValid, incr_block_index_lem, bnum_lt}

-- `j` is one of the blocks that the search still visits, on its way from `bidx` round to `cur`.
abbrev pub Ahead : ℕ → ℕ → ℕ → ℕ → Type 0
Ahead bnum bidx cur j =
    ((bidx < j) × (j ≤ cur))
    ⊎ ((cur ≤ bidx) × (bidx < j) × (j < bnum))
    ⊎ ((cur ≤ bidx) × (0 < j) × (j ≤ cur))

-- The outcome of a search that neither reads out of range nor runs on.
pub data Found (bnum : ℕ) (refs : List RefType) (bidx cur : ℕ) (r : Search) : Type 0 where
  hit :
      (i : ℕ)
      → r ≡ found i
      → 0 < i
      → i < bnum
      → get_elem? refs i ≡ some available
      → Found bnum refs bidx cur r
  miss :
      r ≡ exhausted
      → ((j : ℕ) → Ahead bnum bidx cur j → get_elem? refs j ≡ some reserved)
      → Found bnum refs bidx cur r

-- The rounds that the search has left.
abbrev rounds : ℕ → ℕ → ℕ → ℕ
rounds bnum bidx cur = if ltb bidx cur then cur - bidx else cur + bnum - 1 - bidx

module _ (bnum cur : ℕ) (refs : List RefType) (two : 2 ≤ bnum) (big : bnum < 2 ^ 32)
    (len : length refs ≡ bnum) (pos : 0 < cur) (low : cur < bnum) where
  Ahead-step :
      (bidx next j : ℕ)
      → bidx < bnum
      → next ≡ (if ltb (bidx + 1) bnum then bidx + 1 else 1)
      → Ahead bnum bidx cur j
      → (j ≡ next) ⊎ ((next ≢ cur) × Ahead bnum next cur j)
  Ahead-step bidx next j h e a = ground arith

  -- The search from `next` on speaks for the search from `bidx`, if block `next` is reserved.
  extend_miss :
      (bidx next : ℕ)
      → bidx < bnum
      → next ≡ (if ltb (bidx + 1) bnum then bidx + 1 else 1)
      → get_elem? refs next ≡ some reserved
      → {r : Search} → Found bnum refs next cur r
      → Found bnum refs bidx cur r
  extend_miss bidx next h e taken (hit i r p l a) = hit i r p l a
  extend_miss bidx next h e taken (miss r all) = miss r λ j a. elim (Ahead-step bidx next j h e a) [
    | inl same ↦ rw same taken
    | inr (ne, later) ↦ all j later
  ]

  first_fit-Found :
      (fuel bidx : ℕ)
      → bidx < bnum
      → 0 < bidx
      → rounds bnum bidx cur ≤ fuel
      → Found bnum refs bidx cur (first_fit fuel bnum refs cur bidx)
  unfolding first_fit
  first_fit-Found zero bidx h p f = absurd (ground arith)
  first_fit-Found (suc fuel) bidx h p f =
      go (first_fit-Found fuel next (ground (arith, e)) (ground (arith, e)))
        (get_elem?-lt refs next (ground (arith, e)))
    where
      next : ℕ
      next = incr_block_index bnum bidx

      e : next ≡ (if ltb (bidx + 1) bnum then bidx + 1 else 1)
      e = incr_block_index_lem bnum bidx two big h

      go :
          (rounds bnum next cur ≤ fuel
            → Found bnum refs next cur (first_fit fuel bnum refs cur next))
          → (a : RefType) × (get_elem? refs next ≡ some a)
          → Found bnum refs bidx cur (first_fit (suc fuel) bnum refs cur bidx)
      go ih (available, g) = hit next (rw (g, first_fit)) (ground (arith, e)) (ground (arith, e)) g
      go ih (reserved, g) = elim (Bool-cases (cur == next)) [
        | inl same ↦ miss (rw (g, first_fit) (rw same)) λ j a. elim (Ahead-step bidx next j h e a) [
          | inl eq ↦ rw eq g
          | inr (ne, later) ↦ absurd (ground (arith, e))
        ]
        | inr other ↦
            rw (g, first_fit) (rw other (extend_miss bidx next h e g (ih (ground (arith, e)))))
      ]

pub index_pos :
    (rs : List RefType) (i : ℕ)
    → (i ≡ 0 → get_elem? rs 0 ≡ some available)
    → get_elem? rs i ≡ some reserved
    → 0 < i
index_pos rs zero h e = absurd (cc (h refl))
index_pos rs (suc i) h e = omega arith

-- From a valid pool whose next block is taken, the search visits each block but block 0.
pub search-Found :
    (mb : Memb)
    → IsValid mb
    → mb.bidx < mb.bnum
    → get_elem? mb.breftype mb.bidx ≡ some reserved
    → Found mb.bnum mb.breftype mb.bidx mb.bidx
        (first_fit mb.bnum mb.bnum mb.breftype mb.bidx mb.bidx)
search-Found mb v low taken =
    let p : 0 < mb.bidx = index_pos mb.breftype mb.bidx (λ e. v.start e (omega arith)) taken in
    first_fit-Found mb.bnum mb.bidx mb.breftype (omega arith)
      (bnum_lt mb.bnum mb.bsize mb.bpool v.block_size v.fits) v.refs_length p low mb.bnum mb.bidx
      low p (ground arith)
