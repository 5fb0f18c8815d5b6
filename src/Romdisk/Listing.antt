-- ===== src/Romdisk/Listing.antt =====
-- kernel/vfs/fs/romdisk/romdisk.c: a directory's listing, and `romdisk_find_object` on it.
use libyaul.Base.{
  ℕ, zero, suc, ◌+◌, ◌-◌, ap, ◌*◌, ◌/◌, ◌%◌, ◌≤◌, ◌<◌, ◌≡◌, refl, ◌∙◌, List, [], ◌∷◌, ◌++◌, some,
  Bool, true, false, ◌&&◌, arith, length, drop, if◌then◌else◌, ◌==◌, eq→==, ne→not-==,
}
use libyaul.Romdisk.{
  word_of, next_header, filename, strncmp_zero, matches, is_directory, is_regular, accept,
  find_object,
}

-- An entry of a directory: the offset of its header, its name, and the low four bits of its
-- `next_header`.
pub record Entry : Type 0 where
  pub offset : ℕ
  pub name : List ℕ
  pub mode : ℕ

-- The entries from the header at an offset on, each at a higher offset than the one before, up to
-- the last. Each is a hard link, a directory, a regular file or a symbolic link (0 to 3): a
-- device, a socket or a fifo has bit 2.
pub data Listing (image : List ℕ) : List Entry → ℕ → Type 0 where
  last :
      (o n : ℕ) (name : List ℕ)
      → next_header image o ≡ some n
      → filename image o ≡ some name
      → n / 4 % 2 ≡ 0
      → n / 16 * 16 ≡ 0
      → Listing image (record { offset = o; name = name; mode = n % 16 } ∷ []) o
  link :
      (o n : ℕ) (name : List ℕ) (es : List Entry)
      → next_header image o ≡ some n
      → filename image o ≡ some name
      → n / 4 % 2 ≡ 0
      → o < n / 16 * 16
      → Listing image es (n / 16 * 16)
      → Listing image (record { offset = o; name = name; mode = n % 16 } ∷ es) o

-- Are two strings the same?
unfoldable pub same : List ℕ → List ℕ → Bool
same [] [] = true
same [] (y ∷ ys) = false
same (x ∷ xs) [] = false
same (x ∷ xs) (y ∷ ys) = x == y && same xs ys

-- The type that is asked for: a directory, or a regular file.
abbrev pub wanted : Bool → ℕ
wanted true = 1
wanted false = 2

-- The offset of the first entry with a name, if its type, in bits 0 to 2, is the one wanted, and
-- else 0.
unfoldable pub lookup : List Entry → List ℕ → Bool → ℕ
lookup [] fn directory = 0
lookup (e ∷ es) fn directory =
    if same e.name fn
    then (if e.mode % 8 == wanted directory then e.offset else 0)
    else lookup es fn directory

accept-wanted :
    (directory : Bool) (mode offset : ℕ)
    → accept directory mode offset ≡ (if mode % 4 == wanted directory then offset else 0)
unfolding accept is_directory is_regular
accept-wanted true mode offset = ground arith
accept-wanted false mode offset = ground arith

-- The characters of `fn` behind the name do not count.
matches-same : (x name ys : List ℕ) → matches x (name ++ ys) (length name) ≡ same x name
unfolding matches same strncmp_zero
matches-same [] [] zs = ground arith
matches-same [] (y ∷ ys) zs = ground arith
matches-same (x ∷ xs) [] zs = ground arith
matches-same (x ∷ xs) (y ∷ ys) zs = ground (arith, matches-same xs ys zs)

-- One header of the search.
search_step :
    (fuel : ℕ) (image fn ys : List ℕ) (directory : Bool) (o n : ℕ) (name : List ℕ)
    → next_header image o ≡ some n
    → filename image o ≡ some name
    → find_object (suc fuel) image (fn ++ ys) (length fn) directory o ≡ (
        if same name fn
        then some (if (n % 16) % 4 == wanted directory then o else 0)
        else if n / 16 * 16 == 0
        then some 0
        else find_object fuel image (fn ++ ys) (length fn) directory (n / 16 * 16))
unfolding find_object
search_step fuel image fn ys directory o n name a b =
    rw (a, find_object)
      (rw b (rw (matches-same name fn ys) (rw (accept-wanted directory (n % 16) o) refl)))

some_if : (b : Bool) (x y : ℕ) → (if b then some x else some y) ≡ some (if b then x else y)
some_if true x y = refl
some_if false x y = refl

-- Without bit 2 the mask of the code leaves the whole type.
mask_of_type : (n : ℕ) → n / 4 % 2 ≡ 0 → n % 16 % 4 ≡ n % 16 % 8
mask_of_type n k = omega (arith, k)

-- `romdisk_find_object` finds in a listing what `lookup` finds.
find_object_fuel :
    (fuel : ℕ) (image fn ys : List ℕ) (directory : Bool) (es : List Entry) (o : ℕ)
    → Listing image es o
    → length es ≤ fuel
    → find_object fuel image (fn ++ ys) (length fn) directory o ≡ some (lookup es fn directory)
unfolding lookup
find_object_fuel zero image fn ys directory es o (last _ _ _ _ _ _ _) l = absurd (omega (arith, l))
find_object_fuel zero image fn ys directory es o (link _ _ _ _ _ _ _ _ _) l =
    absurd (omega (arith, l))
find_object_fuel (suc fuel) image fn ys directory _ _ (last o n name a b k z) l =
    search_step fuel image fn ys directory o n name a b
    ∙ rw (mask_of_type n k, eq→== _ _ z) (some_if (same name fn) _ _)
find_object_fuel (suc fuel) image fn ys directory _ _ (link o n name es' a b k z r) l =
    search_step fuel image fn ys directory o n name a b
    ∙ rw (mask_of_type n k, ne→not-== (n / 16 * 16) 0 (omega (arith, z)))
        (rw (find_object_fuel fuel image fn ys directory es' (n / 16 * 16) r (omega (arith, l)))
          (some_if (same name fn) _ _))

word_inside : (o : ℕ) (image : List ℕ) (n : ℕ) → word_of (drop o image) ≡ some n → o < length image
unfolding word_of
word_inside zero [] n e = absurd (cc)
word_inside zero (x ∷ xs) n e = omega arith
word_inside (suc o) [] n e = absurd (cc)
word_inside (suc o) (x ∷ xs) n e = omega (arith, word_inside o xs n e)

-- A listing has fewer entries than the image has bytes.
pub Listing-length :
    (image : List ℕ) (es : List Entry) (o : ℕ) → Listing image es o → o + length es ≤ length image
unfolding next_header
Listing-length image _ _ (last o n name a b k z) = omega (arith, word_inside o image n a)
Listing-length image _ _ (link o n name es' a b k z r) =
    omega (arith, z, Listing-length image es' (n / 16 * 16) r)

-- `romdisk_find_object` at a directory's listing, for the name that the first `fn_len` characters of
-- `fn` are, returns the offset of the first entry with that
-- name if it has the type asked for, and 0 if it has another type or no entry has the name. The
-- offsets ascend, and no entry is a device, a socket or a fifo.
pub find_object_lem :
    (image fn ys : List ℕ) (directory : Bool) (es : List Entry) (o : ℕ)
    → Listing image es o
    → find_object (length image) image (fn ++ ys) (length fn) directory o
      ≡ some (lookup es fn directory)
find_object_lem image fn ys directory es o r =
    find_object_fuel (length image) image fn ys directory es o r
      (omega (arith, Listing-length image es o r))

same_refl : (xs : List ℕ) → same xs xs ≡ true
unfolding same
same_refl [] = refl
same_refl (x ∷ xs) = rw (eq→== x x refl) (same_refl xs)

wanted_masked :
    (directory : Bool) (n : ℕ) → n % 8 ≡ wanted directory + 4 → n % 16 % 4 ≡ wanted directory
wanted_masked true n k = omega (arith, k)
wanted_masked false n k = omega (arith, k)

-- A socket is returned for a regular file, and a character device for a directory.
pub find_object-mistaken :
    (image fn ys : List ℕ) (directory : Bool) (o n : ℕ)
    → next_header image o ≡ some n
    → filename image o ≡ some fn
    → n % 8 ≡ wanted directory + 4
    → find_object (length image) image (fn ++ ys) (length fn) directory o ≡ some o
unfolding next_header
find_object-mistaken image fn ys directory o n a b k =
    let l = word_inside o image n a in
    let q : length image ≡ suc (length image - 1) = omega (arith, l) in
    let w : n % 16 % 4 ≡ wanted directory = wanted_masked directory n k in
    ap (λ (f : ℕ). find_object f image (fn ++ ys) (length fn) directory o) q
    ∙ search_step (length image - 1) image fn ys directory o n fn a b
    ∙ rw (same_refl fn, eq→== (n % 16 % 4) (wanted directory) w) refl
