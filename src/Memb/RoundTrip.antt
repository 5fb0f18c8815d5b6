-- ===== src/Memb/RoundTrip.antt =====
-- kernel/mm/memb.c: `memb_alloc` and `memb_free`, one after the other.
use libyaul.Base.{
  ℕ, ◌+◌, ◌*◌, ◌<◌, ◌≡◌, ◌∙◌, refl, ap, some, Bool, true, false, arith, get_elem?,
  get_elem?-set_self, set-set, set-get_elem?,
}
use libyaul.Memb.{Memb, available, reserved, alloc_block, free_block}
use libyaul.Memb.Inv.{IsValid}
use libyaul.Memb.Alloc.{served, refused, handed_out, alloc_block-Outcome, handed_out-IsValid}
use libyaul.Memb.Free.{
  freed, not_freed, given_back, free_block-Freed, free_block-IsValid, block_injective,
}

-- What freeing block `i` just after it was handed out does.
free_handed_out :
    (mb : Memb) (i : ℕ)
    → IsValid mb
    → i < mb.bnum
    → get_elem? mb.breftype i ≡ some available
    → let r = free_block (handed_out mb i) (mb.bpool + i * mb.bsize) in
      (r.0 ≡ true) × (r.1.breftype ≡ mb.breftype) × (r.1.size ≡ mb.size)
free_handed_out mb i v l a =
    elim (free_block-Freed (handed_out mb i) (mb.bpool + i * mb.bsize)
      (handed_out-IsValid mb i v l a)) [
        | freed j m e h r ↦
            let same : i ≡ j = block_injective mb.bsize mb.bpool i j v.block_size e in
            rw (r, ← same)
              (
                refl,
                set-set mb.breftype i reserved available ∙ set-get_elem? mb.breftype i available a,
                omega arith,
              )
        | not_freed all r ↦ absurd (
            cc (
              all i l refl,
              get_elem?-set_self mb.breftype i reserved (omega (arith, v.refs_length)),
            ))
      ]

-- A block that `memb_alloc` of a valid pool returned can be freed, which gives back the references
-- and the count that the pool had before.
pub free_block-alloc_block :
    (mb mb' : Memb) (addr : ℕ)
    → IsValid mb
    → alloc_block mb ≡ some (some addr, mb')
    → let r = free_block mb' addr in
      (r.0 ≡ true) × (r.1.breftype ≡ mb.breftype) × (r.1.size ≡ mb.size)
free_block-alloc_block mb mb' addr v e = elim (alloc_block-Outcome mb v) [
  | served i l a w q ↦
      let address : addr ≡ mb.bpool + i * mb.bsize = ground arith in
      let pool : mb' ≡ handed_out mb i = ground arith in
      rw (address, pool) (free_handed_out mb i v l a)
  | refused p all q ↦ absurd (cc)
]

-- A block that was freed cannot be freed again before it is handed out: the second call fails and
-- changes nothing.
pub free_block_twice :
    (mb : Memb) (addr : ℕ)
    → IsValid mb
    → (free_block mb addr).0 ≡ true
    → free_block (free_block mb addr).1 addr ≡ (false, (free_block mb addr).1)
free_block_twice mb addr v e = elim (free_block-Freed mb addr v) [
  | freed i l q h r ↦
      rw r
        (elim (free_block-Freed (given_back mb i) addr (rw r at (free_block-IsValid mb addr v))) [
          | freed j m q' h' r' ↦
              let same : i ≡ j =
                block_injective mb.bsize mb.bpool i j v.block_size (ground arith) in
              absurd (
                cc (
                  h',
                  same,
                  get_elem?-set_self mb.breftype i available (omega (arith, v.refs_length)),
                ))
          | not_freed all r' ↦ r'
        ])
  | not_freed all r ↦ absurd (cc (ap (λ (x : Bool × Memb). x.0) r))
]
