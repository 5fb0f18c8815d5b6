-- ===== src/Sega3d/Lists.antt =====
-- libsega3d/list.c, and the lists of textures and of palettes in tlist.c and plist.c. A failed
-- assert is `none`; 0 is NULL.
pub mod Owner
mod Tests
use libyaul.Base.{
  ℕ, zero, ◌+◌, ◌*◌, ◌%◌, ◌^◌, Bool, true, false, ◌||◌, List, [], ◌∷◌, Option, none, some, ltb,
  ◌==◌, if◌then◌else◌,
}

-- `list_t`, with its two flags.
pub record ElementList : Type 0 where
  pub user_allocated : Bool
  pub allocated : Bool
  pub list : ℕ
  pub count : ℕ
  pub size : ℕ
  pub default_element : ℕ

-- The calls of the C library: `realloc`, with what it returns, and `free`.
pub data Call : Type 0 where
  realloc_of : (old size ret : ℕ) → Call
  free_of : ℕ → Call

-- `internal_list_alloc`, where `ret` is what `realloc` returns.
unfoldable pub list_alloc : (count ret : ℕ) → ElementList → Option (List Call × ElementList)
list_alloc count ret l =
    if count == 0
    then none
    else if ltb l.count count
    then (if ret == 0
        then none
        else some (
          Call.realloc_of l.list (l.size * count % 2 ^ 32) ret ∷ [],
          record l { list = ret; count = count; allocated = true },
        ))
    else some ([], l)

-- The call of `free`, if there is one.
abbrev pub freed : ElementList → List Call
freed l = if l.allocated then Call.free_of l.list ∷ [] else []

-- `internal_list_set`
unfoldable pub list_set : (list_p count : ℕ) → ElementList → List Call × ElementList
list_set list_p count l = (
  freed l,
  if list_p == 0 || count == 0
      then record l {
        allocated = false;
        list = l.default_element;
        count = 0;
        user_allocated = false;
      }
      else record l { allocated = false; list = list_p; count = count; user_allocated = true },
)

-- `internal_list_free`
unfoldable pub list_free : ElementList → List Call × ElementList
unfolding list_set
list_free l = list_set 0 0 l

-- `_internal_tlist_init`, given the address of `_default_texture` and the size of a texture.
unfoldable pub tlist_init : (default_texture size : ℕ) → ElementList
tlist_init default_texture size = record {
  user_allocated = false;
  allocated = false;
  list = default_texture;
  count = 0;
  size = size;
  default_element = default_texture;
}

-- `_internal_plist_init`, given the size of a palette.
unfoldable pub plist_init : (size : ℕ) → ElementList
plist_init size = record {
  user_allocated = false;
  allocated = false;
  list = 0;
  count = 0;
  size = size;
  default_element = 0;
}
