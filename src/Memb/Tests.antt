-- ===== src/Memb/Tests.antt =====
-- kernel/mm/memb.c at small pools.
use libyaul.Base.{
  ℕ, zero, suc, ◌≤◌, ◌<◌, ◌≡◌, ◌⊎◌, ◌↔◌, refl, inl, [], ◌∷◌, Option, none, some, true, false, arith,
  replicate,
}
use libyaul.Memb.{
  Memb, available, reserved, init, fill, alloc_block, alloc, free_block, free, first_fit, allocate,
  after_search, incr_block_index, bounds, find_block, release,
}
use libyaul.Memb.Inv.{IsValid}
use libyaul.Memb.Alloc.{
  Outcome, AllButFirst, alloc_block-Outcome, alloc_block-IsValid, alloc_block-none_iff,
  alloc_block_fresh,
}
use libyaul.Memb.Free.{Freed, free_block-Freed, free_block-IsValid}
use libyaul.Memb.RoundTrip.{free_block-alloc_block, free_block_twice}
use libyaul.Memb.Init.{allocs, frees, run, init-IsValid, run-IsValid, alloc_block_starves}

-- Three blocks of four bytes, the middle one free.
abbrev gapped : Memb
gapped = record {
  bsize = 4;
  bnum = 3;
  breftype = reserved ∷ available ∷ reserved ∷ [];
  bidx = 2;
  size = 2;
  bpool = 0x1000;
  bytes = replicate 12 7;
}

-- The same pool with block 0 alone free.
abbrev starved : Memb
starved = record gapped { breftype = available ∷ reserved ∷ reserved ∷ [] }

gapped-IsValid : IsValid gapped
gapped-IsValid = ground arith

starved-IsValid : IsValid starved
starved-IsValid = ground arith

starved-AllButFirst : AllButFirst starved
starved-AllButFirst zero p l = absurd (omega arith)
starved-AllButFirst (suc zero) p l = refl
starved-AllButFirst (suc (suc zero)) p l = refl
starved-AllButFirst (suc (suc (suc j))) p l = absurd (omega arith)

gapped_alloc :
    alloc_block gapped
    ≡ some (some 0x1004, record gapped { breftype = reserved ∷ reserved ∷ reserved ∷ []; size = 3 })
unfolding alloc_block first_fit after_search allocate incr_block_index
gapped_alloc = refl

alloc_block-Outcome_example : Outcome gapped (alloc_block gapped)
alloc_block-Outcome_example = alloc_block-Outcome gapped gapped-IsValid

alloc_block-IsValid_example :
    (r : Option ℕ) × (mb : Memb) × (alloc_block gapped ≡ some (r, mb)) × IsValid mb
alloc_block-IsValid_example = alloc_block-IsValid gapped gapped-IsValid

alloc_block-none_iff_example :
    (alloc_block starved ≡ some (none, starved))
    ↔ (◌≡◌ {A = ℕ} 3 0 ⊎ ((0 < 2) × AllButFirst starved))
alloc_block-none_iff_example = alloc_block-none_iff starved starved-IsValid

alloc_block_fresh_example :
    (0x1000 ≤ 0x1004) × (0x1008 ≤ 0x100C) × ((0x1008 ≤ 0x1008) ⊎ (0x100C ≤ 0x1004))
unfolding alloc_block first_fit after_search allocate incr_block_index
alloc_block_fresh_example = alloc_block_fresh gapped _ 0x1004 2 gapped-IsValid refl refl

free_block-Freed_example : Freed gapped 0x1008 (free_block gapped 0x1008)
free_block-Freed_example = free_block-Freed gapped 0x1008 gapped-IsValid

free_block-IsValid_example : IsValid (free_block gapped 0x1000).1
free_block-IsValid_example = free_block-IsValid gapped 0x1000 gapped-IsValid

free_block-alloc_block_example :
    let r =
      free_block
        (record gapped { breftype = reserved ∷ reserved ∷ reserved ∷ []; size = 3 })
        0x1004 in
    (r.0 ≡ true) × (r.1.breftype ≡ reserved ∷ available ∷ reserved ∷ []) × (r.1.size ≡ 2)
free_block-alloc_block_example = free_block-alloc_block gapped _ 0x1004 gapped-IsValid gapped_alloc

freed_once : (free_block gapped 0x1008).0 ≡ true
unfolding free_block bounds find_block release
freed_once = refl

free_block_twice_example :
    free_block (free_block gapped 0x1008).1 0x1008 ≡ (false, (free_block gapped 0x1008).1)
free_block_twice_example = free_block_twice gapped 0x1008 gapped-IsValid freed_once

init-IsValid_example :
    IsValid (init gapped)
    × ((init gapped).size ≡ 0)
    × ((init gapped).breftype ≡ available ∷ available ∷ available ∷ [])
    × ((init gapped).bytes ≡ replicate 12 0)
    × ((init gapped).bidx ≡ 2)
init-IsValid_example = init-IsValid gapped refl refl (omega arith) (omega arith) (inl (omega arith))

run-IsValid_example :
    (mb : Memb) × (run gapped (allocs ∷ frees 0x1003 ∷ frees 0x1000 ∷ allocs ∷ []) ≡ some mb)
    × IsValid mb
run-IsValid_example =
    run-IsValid gapped (allocs ∷ frees 0x1003 ∷ frees 0x1000 ∷ allocs ∷ []) gapped-IsValid

alloc_block_starves_example : (alloc_block starved ≡ some (none, starved)) × (2 < 3)
alloc_block_starves_example =
    alloc_block_starves starved starved-IsValid (omega arith) refl starved-AllButFirst

-- The starved pool arises from a fresh one by the interface alone.
starved_by_calls :
    run
      (init (record gapped { bidx = 0 }))
      (allocs ∷ allocs ∷ allocs ∷ frees 0x1000 ∷ frees 0x1004 ∷ allocs ∷ [])
    ≡ some (record starved { bytes = replicate 12 0 })
unfolding run init fill alloc_block first_fit after_search allocate incr_block_index free_block
    bounds find_block release
starved_by_calls = refl

null_pool : (alloc none ≡ some (none, none)) × (free none 0x1000 ≡ (false, none))
unfolding alloc free
null_pool = (refl, refl)
