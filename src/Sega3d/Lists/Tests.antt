-- ===== src/Sega3d/Lists/Tests.antt =====
-- Lists at work.
use libyaul.Base.{ℕ, ◌≡◌, refl, List, [], ◌∷◌, none, some, arith}
use libyaul.Sega3d.Lists.{
  ElementList, Call, plist_init, tlist_init, list_set, list_alloc, list_free,
}
use libyaul.Sega3d.Lists.Owner.{
  Request, AreServed, Owns, Served, serve, heap_calls, heap_call, serve-Served, tlist-undefined,
}

-- Two palettes, then eight, then none.
abbrev requests : List Request
requests = Request.alloc_of 2 0x1000 ∷ Request.alloc_of 8 0x2000 ∷ Request.free_all ∷ []

requests-AreServed : AreServed requests
requests-AreServed =
    AreServed.alloc_first (omega arith) (omega arith)
      (AreServed.alloc_first (omega arith) (omega arith) (AreServed.free_first AreServed.none_left))

plist-Owns : Owns (plist_init 2) none
unfolding plist_init
plist-Owns = Owns.empty refl refl

serve-Served_example : Served requests (plist_init 2) none
unfolding plist_init
serve-Served_example = serve-Served requests (plist_init 2) none refl plist-Owns requests-AreServed

serve_example : serve requests (plist_init 2) none ≡ some (plist_init 2, none)
unfolding serve plist_init list_alloc list_free list_set heap_calls heap_call
serve_example = refl

tlist-undefined_example :
    (l : ElementList) × (n : ℕ) × (list_alloc 1 0x1000 (tlist_init 0x800 8)
      ≡ some (Call.realloc_of 0x800 n 0x1000 ∷ [], l))
    × (heap_call none (Call.realloc_of 0x800 n 0x1000) ≡ none)
tlist-undefined_example = tlist-undefined 0x800 8 1 0x1000 (omega arith) (omega arith) (omega arith)
