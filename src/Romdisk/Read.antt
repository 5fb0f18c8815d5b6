-- ===== src/Romdisk/Read.antt =====
-- kernel/vfs/fs/romdisk/romdisk.c: `romdisk_read`.
use Prim.Native.Nat.{min}
use libyaul.Base.{
  ℕ, zero, suc, ◌+◌, ◌-◌, ◌^◌, ◌≤◌, ◌<◌, ◌≡◌, ◌≢◌, refl, sym, ap, ap₂, ◌∙◌, List, [], ◌∷◌, ◌++◌,
  Option, none, some, false, arith, length, take, drop, ne→not-==, le→leb, take-nil, drop-nil,
}
use native.Mathlib.Nat.{zero-add, suc-add}
use libyaul.Base.Words.{add32}
use libyaul.Romdisk.{FileHandle, read, read_size, copy}

-- A regular file whose position is within it, and whose bytes are within the image.
pub record IsOpen (fh : FileHandle) : Type 0 where
  pub indexed : fh.index ≢ 0
  pub regular : fh.dir ≡ false
  pub inside : fh.ptr ≤ fh.len
  pub small : fh.len < 2 ^ 31
  pub stored : fh.index + fh.len ≤ length fh.mnt.image

-- The bytes of a file from its position on.
abbrev pub slice : FileHandle → ℕ → List ℕ
slice fh n = take n (drop (fh.index + fh.ptr) fh.mnt.image)

-- How many bytes a read of `bytes` gets.
abbrev pub available : FileHandle → ℕ → ℕ
available fh bytes = min bytes (fh.len - fh.ptr)

abbrev pub advance : FileHandle → ℕ → FileHandle
advance fh n = record fh { ptr = fh.ptr + n }

pub advance-IsOpen :
    (fh : FileHandle) (n : ℕ) → IsOpen fh → n ≤ fh.len - fh.ptr → IsOpen (advance fh n)
advance-IsOpen fh n o l = record {
  indexed = o.indexed;
  regular = o.regular;
  inside = omega (arith, o.inside);
  small = o.small;
  stored = o.stored;
}

read_size_lem :
    (fh : FileHandle) (bytes : ℕ)
    → IsOpen fh
    → fh.ptr + bytes < 2 ^ 32
    → read_size fh bytes ≡ available fh bytes
unfolding read_size
read_size_lem fh bytes o f = ground (arith, o.inside, o.small)

-- A read of an open file copies as many bytes as `read_size` says.
read-copy : (fh : FileHandle) (bytes : ℕ) → IsOpen fh → read fh bytes ≡ copy fh (read_size fh bytes)
unfolding read
read-copy fh bytes o = rw (ne→not-== fh.index 0 o.indexed) (rw o.regular refl)

copy_lem :
    (fh : FileHandle) (n : ℕ)
    → IsOpen fh
    → n ≤ fh.len - fh.ptr
    → copy fh n ≡ some (some (slice fh n), advance fh n)
unfolding copy
copy_lem fh n o l =
    let e : add32 fh.ptr n ≡ fh.ptr + n = omega (arith, o.inside, o.small) in
    rw (le→leb (fh.index + fh.ptr + n) (length fh.mnt.image) (omega (arith, o.stored, o.inside)))
      (rw e refl)

-- `romdisk_read` of an open file, if its position and the size asked for do not add up to 2 ^ 32,
-- returns the bytes at the position, as many as were asked for and are left, and moves the position
-- behind them.
pub read_lem :
    (fh : FileHandle) (bytes : ℕ)
    → IsOpen fh
    → fh.ptr + bytes < 2 ^ 32
    → (read fh bytes ≡ some (some (slice fh (available fh bytes)), advance fh (available fh bytes)))
      × IsOpen (advance fh (available fh bytes))
read_lem fh bytes o f = (
  read-copy fh bytes o
      ∙ ap (copy fh) (read_size_lem fh bytes o f)
      ∙ copy_lem fh (available fh bytes) o (omega arith),
  advance-IsOpen fh (available fh bytes) o (omega arith),
)

take-add : (n m : ℕ) (ys zs : List ℕ) → zs ≡ drop n ys → take n ys ++ take m zs ≡ take (n + m) ys
take-add zero m ys zs e = rw (e, zero-add) refl
take-add (suc n) m [] zs e =
    rw e (ap₂ (◌++◌) (take-nil (suc n)) (take-nil m) ∙ sym (take-nil (suc n + m)))
take-add (suc n) m (y ∷ ys) zs e = rw suc-add (ap (◌∷◌ y) (take-add n m ys zs e))

drop-add : (o n : ℕ) (xs : List ℕ) → drop (o + n) xs ≡ drop n (drop o xs)
drop-add zero n xs = rw zero-add refl
drop-add (suc o) n [] = rw suc-add (sym (drop-nil n))
drop-add (suc o) n (x ∷ xs) = rw suc-add (drop-add o n xs)

-- Two reads of an open file, one after the other, give what one read of both sizes gives, and end at
-- the same position, if the position and the sizes do not add up to 2 ^ 32.
pub read_twice :
    (fh : FileHandle) (a b : ℕ)
    → IsOpen fh
    → fh.ptr + a + b < 2 ^ 32
    → (fh' fh'' : FileHandle) × (xs ys : List ℕ) × (read fh a ≡ some (some xs, fh'))
      × (read fh' b ≡ some (some ys, fh''))
      × (read fh (a + b) ≡ some (some (xs ++ ys), fh''))
read_twice fh a b o f =
    let n = available fh a in
    let o' = (read_lem fh a o (omega arith)).1 in
    let m = available (advance fh n) b in
    (
      advance fh n,
      advance (advance fh n) m,
      slice fh n,
      slice (advance fh n) m,
      (read_lem fh a o (omega arith)).0,
      (read_lem (advance fh n) b o' (omega arith)).0,
      (read_lem fh (a + b) o (omega arith)).0 ∙ joined n m (omega arith),
    )
  where
    done :
        (xs xs' : List ℕ) (p p' : ℕ)
        → xs ≡ xs'
        → p ≡ p'
        → ◌≡◌ {A = Option (Option (List ℕ) × FileHandle)}
            (some (some xs, record fh { ptr = p }))
            (some (some xs', record fh { ptr = p' }))
    done xs xs' p p' e d = ap₂ (λ (l : List ℕ) (k : ℕ). some (some l, record fh { ptr = k })) e d

    joined :
        (n m : ℕ)
        → n + m ≡ available fh (a + b)
        → ◌≡◌ {A = Option (Option (List ℕ) × FileHandle)}
            (some (some (slice fh (available fh (a + b))), advance fh (available fh (a + b))))
            (some (some (slice fh n ++ slice (advance fh n) m), advance (advance fh n) m))
    joined n m e =
        done _ _ _ _
          (ap (slice fh) (sym e)
            ∙ sym (
                take-add n m (drop (fh.index + fh.ptr) fh.mnt.image) _ (
                  ap (λ (k : ℕ). drop k fh.mnt.image) (omega arith)
                  ∙ drop-add (fh.index + fh.ptr) n fh.mnt.image)))
          (omega (arith, e))

copy_overruns :
    (fh : FileHandle) (n : ℕ) → length fh.mnt.image < fh.index + fh.ptr + n → copy fh n ≡ none
unfolding copy
copy_overruns fh n l = ground arith

-- `romdisk_read` of an open file in an image below 2 ^ 31 bytes, if its position and the size asked
-- for add up to 2 ^ 32 or more, is not cut to the file's length, and leaves the image.
pub read_overruns :
    (fh : FileHandle) (bytes : ℕ)
    → IsOpen fh
    → length fh.mnt.image < 2 ^ 31
    → bytes < 2 ^ 32
    → 2 ^ 32 ≤ fh.ptr + bytes
    → read fh bytes ≡ none
unfolding read_size
read_overruns fh bytes o big b w =
    let e : read_size fh bytes ≡ bytes = ground (arith, o.inside, o.small) in
    read-copy fh bytes o
    ∙ ap (copy fh) e
    ∙ copy_overruns fh bytes (omega (arith, o.inside, o.small, o.stored))
