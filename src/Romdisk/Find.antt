-- ===== src/Romdisk/Find.antt =====
-- kernel/vfs/fs/romdisk/romdisk.c: `romdisk_find` against the tree of directories.
use mathlib.Core.List.{append-nil}
use libyaul.Base.{
  ℕ, zero, suc, ◌<◌, ◌≡◌, ◌≢◌, refl, sym, ap, ◌∙◌, List, [], ◌∷◌, ◌++◌, Option, none, some, Bool,
  true, arith, length, eq→==, ne→not-==, length-append,
}
use libyaul.Romdisk.{Image, split_slash, find_file, enter, find_from, find, find_object, spec_info}
use libyaul.Romdisk.Listing.{Entry, Listing, lookup, find_object_lem}

-- A name that is not empty and has no slash.
pub record IsName (name : List ℕ) : Type 0 where
  pub filled : name ≢ []
  pub plain : split_slash name ≡ none

-- Where a path leads from the listing at an offset on, through the directories it names: to a
-- header's offset, or to 0.
pub data Leads (mnt : Image) (directory : Bool) : ℕ → List ℕ → ℕ → Type 0 where
  ends : (o : ℕ) → Leads mnt directory o [] 0
  file :
      (o : ℕ) (fn : List ℕ) (es : List Entry)
      → IsName fn
      → Listing mnt.image es o
      → Leads mnt directory o fn (lookup es fn directory)
  slash :
      (o : ℕ) (rest : List ℕ) (r : ℕ)
      → Leads mnt directory o rest r
      → Leads mnt directory o (0x2F ∷ rest) r
  lost :
      (o : ℕ) (name rest : List ℕ) (es : List Entry)
      → IsName name
      → Listing mnt.image es o
      → lookup es name true ≡ 0
      → Leads mnt directory o (name ++ 0x2F ∷ rest) 0
  down :
      (o : ℕ) (name rest : List ℕ) (es : List Entry) (first r : ℕ)
      → IsName name
      → Listing mnt.image es o
      → lookup es name true ≢ 0
      → spec_info mnt.image (lookup es name true) ≡ some first
      → Leads mnt directory first rest r
      → Leads mnt directory o (name ++ 0x2F ∷ rest) r

split_slash-append :
    (name rest : List ℕ)
    → split_slash name ≡ none
    → split_slash (name ++ 0x2F ∷ rest) ≡ some (name, rest)
unfolding split_slash
split_slash-append [] rest e = refl
split_slash-append (c ∷ name) rest e = ground (arith, split_slash-append name rest)

-- One directory of the path, or one slash that follows another or begins the path.
find_from_step :
    (fuel : ℕ) (mnt : Image) (name rest : List ℕ) (directory : Bool) (o : ℕ) (found : Option ℕ)
    → split_slash name ≡ none
    → enter mnt (name ++ 0x2F ∷ rest) (length name) o ≡ some found
    → find_from (suc fuel) mnt (name ++ 0x2F ∷ rest) directory o
      ≡ elim found [ none ↦ some 0 | some first ↦ find_from fuel mnt rest directory first ]
unfolding find_from
find_from_step fuel mnt name rest directory o none p e =
    rw (split_slash-append name rest p, find_from) (rw e refl)
find_from_step fuel mnt name rest directory o (some first) p e =
    rw (split_slash-append name rest p, find_from) (rw e refl)

enter_lost :
    (mnt : Image) (name ys : List ℕ) (es : List Entry) (o : ℕ)
    → name ≢ []
    → Listing mnt.image es o
    → lookup es name true ≡ 0
    → enter mnt (name ++ ys) (length name) o ≡ some none
unfolding enter
enter_lost mnt [] ys es o n r e = absurd (n refl)
enter_lost mnt (c ∷ cs) ys es o n r e =
    rw (find_object_lem mnt.image (c ∷ cs) ys true es o r, enter) (rw (eq→== _ _ e) refl)

enter_down :
    (mnt : Image) (name ys : List ℕ) (es : List Entry) (o first : ℕ)
    → name ≢ []
    → Listing mnt.image es o
    → lookup es name true ≢ 0
    → spec_info mnt.image (lookup es name true) ≡ some first
    → enter mnt (name ++ ys) (length name) o ≡ some (some first)
unfolding enter
enter_down mnt [] ys es o first n r e s = absurd (n refl)
enter_down mnt (c ∷ cs) ys es o first n r e s =
    rw (find_object_lem mnt.image (c ∷ cs) ys true es o r, enter)
      (rw (ne→not-== (lookup es (c ∷ cs) true) 0 e) (rw s refl))

find_from_file :
    (fuel : ℕ) (mnt : Image) (fn : List ℕ) (directory : Bool) (es : List Entry) (o : ℕ)
    → IsName fn
    → Listing mnt.image es o
    → find_from (suc fuel) mnt fn directory o ≡ some (lookup es fn directory)
unfolding find_from find_file
find_from_file fuel mnt [] directory es o n r = absurd (n.filled refl)
find_from_file fuel mnt (c ∷ cs) directory es o n r =
    rw (n.plain, find_from)
      (ap
          (λ (fn : List ℕ).
            find_object (length mnt.image) mnt.image fn (suc (length cs)) directory o)
          (sym (append-nil (c ∷ cs)))
        ∙ find_object_lem mnt.image (c ∷ cs) [] directory es o r)

find_from_lem :
    (fuel : ℕ) (mnt : Image) (directory : Bool) (o : ℕ) (fn : List ℕ) (r : ℕ)
    → Leads mnt directory o fn r
    → length fn < fuel
    → find_from fuel mnt fn directory o ≡ some r
unfolding find_from find_file split_slash enter
find_from_lem zero mnt directory o fn r p l = absurd (omega (arith, l))
find_from_lem (suc fuel) mnt directory _ _ _ (ends o) l = refl
find_from_lem (suc fuel) mnt directory _ _ _ (file o fn es n r) l =
    find_from_file fuel mnt fn directory es o n r
find_from_lem (suc fuel) mnt directory _ _ _ (slash o rest r p) l =
    find_from_lem fuel mnt directory o rest r p (omega (arith, l))
find_from_lem (suc fuel) mnt directory _ _ _ (lost o name rest es n r e) l =
    find_from_step fuel mnt name rest directory o none n.plain
      (enter_lost mnt name (0x2F ∷ rest) es o n.filled r e)
find_from_lem (suc fuel) mnt directory _ _ _ (down o name rest es first r n s e i p) l =
    find_from_step fuel mnt name rest directory o (some first) n.plain
      (enter_down mnt name (0x2F ∷ rest) es o first n.filled s e i)
    ∙ find_from_lem fuel mnt directory first rest r p
        (omega (arith, l, length-append name (0x2F ∷ rest)))

-- `romdisk_find` returns what the path leads to: the offset of the header it names, if every
-- directory of the path is there and the last name has the type asked for, and 0 if a name is not
-- there, has the wrong type, or is empty at the end; slashes may be repeated and may come first.
-- In the directories on the way the headers have ascending offsets, and no entry is a device, a
-- socket or a fifo.
pub find_lem :
    (mnt : Image) (fn : List ℕ) (directory : Bool) (r : ℕ)
    → Leads mnt directory mnt.files fn r
    → find mnt fn directory ≡ some r
unfolding find
find_lem mnt fn directory r p =
    find_from_lem (suc (length fn)) mnt directory mnt.files fn r p (omega arith)
