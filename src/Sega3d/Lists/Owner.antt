-- ===== src/Sega3d/Lists/Owner.antt =====
-- libsega3d/list.c: the blocks of the heap that a list holds.
use libyaul.Base.{
  ℕ, ◌*◌, ◌%◌, ◌^◌, ◌≤◌, ◌<◌, ◌≡◌, refl, true, false, List, [], ◌∷◌, Option, none, some, ltb, ◌==◌,
  if◌then◌else◌, arith, inl, inr, ne→not-==, eq→==, lt→ltb, Bool-cases, le→not-ltb, not-ltb→le,
  ltb→lt,
}
use libyaul.Sega3d.Lists.{ElementList, Call, list_alloc, list_set, list_free, freed, tlist_init}

-- What the C library lets a program do that holds one block, or none: `none` where the call is
-- not defined, or where the block is lost.
unfoldable pub heap_call : Option ℕ → Call → Option (Option ℕ)
heap_call none (Call.realloc_of old size ret) = if old == 0 then some (some ret) else none
heap_call (some a) (Call.realloc_of old size ret) = if old == a then some (some ret) else none
heap_call none (Call.free_of p) = if p == 0 then some none else none
heap_call (some a) (Call.free_of p) = if p == a then some none else none

unfoldable pub heap_calls : Option ℕ → List Call → Option (Option ℕ)
unfolding heap_call
heap_calls held [] = some held
heap_calls held (c ∷ cs) = elim (heap_call held c) [
  | none ↦ none
  | some held' ↦ heap_calls held' cs
]

-- A list holds the block that its flag says.
pub data Owns (l : ElementList) : Option ℕ → Type 0 where
  holding : l.allocated ≡ true → Owns l (some l.list)
  empty : l.allocated ≡ false → l.list ≡ 0 → Owns l none

-- The calls of a program that leaves the memory to the list.
pub data Request : Type 0 where
  alloc_of : (count ret : ℕ) → Request
  free_all : Request

-- The requests one after the other, with the block that the list holds.
unfoldable pub serve : List Request → ElementList → Option ℕ → Option (ElementList × Option ℕ)
unfolding list_alloc list_free heap_calls
serve [] l held = some (l, held)
serve (Request.alloc_of count ret ∷ rs) l held = elim (list_alloc count ret l) [
  | none ↦ none
  | some (cs, l') ↦ elim (heap_calls held cs) [ none ↦ none | some held' ↦ serve rs l' held' ]
]
serve (Request.free_all ∷ rs) l held =
    let (cs, l') = list_free l in
    elim (heap_calls held cs) [ none ↦ none | some held' ↦ serve rs l' held' ]

-- Each request asks for an element at least, and memory is not refused.
pub data AreServed : List Request → Type 0 where
  none_left : AreServed []
  alloc_first :
      {count ret : ℕ} {rs : List Request}
      → 0 < count
      → 0 < ret
      → AreServed rs
      → AreServed (Request.alloc_of count ret ∷ rs)
  free_first : {rs : List Request} → AreServed rs → AreServed (Request.free_all ∷ rs)

freed-held :
    (l : ElementList) (held : Option ℕ) → Owns l held → heap_calls held (freed l) ≡ some none
unfolding heap_calls heap_call
freed-held l held (Owns.holding a) = rw (a, heap_calls, eq→== l.list l.list refl) refl
freed-held l held (Owns.empty a e) = rw a refl

-- Whatever is set, a list gives the block back that it holds.
pub set-releases :
    (l : ElementList) (held : Option ℕ) (p count : ℕ)
    → Owns l held
    → heap_calls held (list_set p count l).0 ≡ some none
unfolding list_set
set-releases l held p count w = freed-held l held w

grown-held :
    (l : ElementList) (held : Option ℕ) (size ret : ℕ)
    → Owns l held
    → heap_calls held (Call.realloc_of l.list size ret ∷ []) ≡ some (some ret)
unfolding heap_calls heap_call
grown-held l held size ret (Owns.holding a) = rw (heap_calls, eq→== l.list l.list refl) refl
grown-held l held size ret (Owns.empty a e) = rw (heap_calls, eq→== l.list 0 e) refl

list_alloc-grows :
    (count ret : ℕ) (l : ElementList)
    → 0 < count
    → 0 < ret
    → l.count < count
    → list_alloc count ret l
      ≡ some (
        Call.realloc_of l.list (l.size * count % 2 ^ 32) ret ∷ [],
        record l { list = ret; count = count; allocated = true },
      )
unfolding list_alloc
list_alloc-grows count ret l h k g =
    rw
      (
        list_alloc,
        ne→not-== count 0 (λ e. omega arith),
        lt→ltb l.count count g,
        ne→not-== ret 0 (λ e. omega arith),
      )
      refl

list_alloc-stays :
    (count ret : ℕ) (l : ElementList)
    → 0 < count
    → count ≤ l.count
    → list_alloc count ret l ≡ some ([], l)
unfolding list_alloc
list_alloc-stays count ret l h g =
    rw (list_alloc, ne→not-== count 0 (λ e. omega arith), le→not-ltb l.count count g) refl

-- How requests end.
pub record Served (rs : List Request) (l : ElementList) (held : Option ℕ) : Type 0 where
  pub l' : ElementList
  pub held' : Option ℕ
  pub served : serve rs l held ≡ some (l', held')
  pub owns : Owns l' held'

-- Requests for memory and frees of a list that has no default element, whatever their order,
-- call the C library as it allows, lose no block, and leave the list with the block that its
-- flag says, if each request asks for an element at least and memory is not refused.
pub serve-Served :
    (rs : List Request) (l : ElementList) (held : Option ℕ)
    → l.default_element ≡ 0
    → Owns l held
    → AreServed rs
    → Served rs l held
unfolding serve
serve-Served [] l held d w a = record { l' = l; held' = held; served = refl; owns = w }
serve-Served (Request.alloc_of count ret ∷ rs) l held d w (AreServed.alloc_first h k a) =
    elim (Bool-cases (ltb l.count count)) [
      | inl g ↦
          let n : ElementList = record l { list = ret; count = count; allocated = true } in
          let r = serve-Served rs n (some ret) d (Owns.holding refl) a in
          record {
            l' = r.l';
            held' = r.held';
            served =
                rw
                  (
                    serve,
                    list_alloc-grows count ret l h k (ltb→lt l.count count g),
                    grown-held l held (l.size * count % 2 ^ 32) ret w,
                    r.served,
                  )
                  refl;
            owns = r.owns;
          }
      | inr g ↦
          let r = serve-Served rs l held d w a in
          record {
            l' = r.l';
            held' = r.held';
            served =
                rw (serve, list_alloc-stays count ret l h (not-ltb→le l.count count g)) r.served;
            owns = r.owns;
          }
    ]
serve-Served (Request.free_all ∷ rs) l held d w (AreServed.free_first a) =
    let n : ElementList = (list_free l).1 in
    let r = serve-Served rs n none d (Owns.empty refl d) a in
    record {
      l' = r.l';
      held' = r.held';
      served = rw (serve, set-releases l held 0 0 w) r.served;
      owns = r.owns;
    }

-- The first request for memory of the list of textures calls `realloc` with the address of the
-- default texture, which is no block of the heap: with no block held, the C library does not
-- define that call. The request asks for an element at least, and memory is not refused.
pub tlist-undefined :
    (default_texture size count ret : ℕ)
    → 0 < default_texture
    → 0 < count
    → 0 < ret
    → (l : ElementList) × (n : ℕ) × (list_alloc count ret (tlist_init default_texture size)
        ≡ some (Call.realloc_of default_texture n ret ∷ [], l))
      × (heap_call none (Call.realloc_of default_texture n ret) ≡ none)
unfolding tlist_init heap_call
tlist-undefined default_texture size count ret d h k = (
  _,
  size * count % 2 ^ 32,
  list_alloc-grows count ret (tlist_init default_texture size) h k (omega arith),
  rw (ne→not-== default_texture 0 (λ e. omega arith)) refl,
)
