-- ===== src/Romdisk/Open.antt =====
-- kernel/vfs/fs/romdisk/romdisk.c: `romdisk_open` and `romdisk_close`.
use libyaul.Base.{
  ℕ, ◌+◌, ◌*◌, ◌/◌, ◌^◌, ◌<◌, ◌≡◌, ◌≢◌, refl, ◌⊎◌, inl, inr, List, [], ◌∷◌, ◌++◌, Option, none,
  some, Bool, true, false, arith, length, drop, if◌then◌else◌, ◌==◌, eq→==, ne→not-==,
}
use libyaul.Base.Words.{add32}
use libyaul.Romdisk.{
  Image, FileHandle, Handles, mount, c_string, filename, size, open_file, close, direct,
}
use libyaul.Romdisk.Find.{Leads, find_lem}

-- The handle that `romdisk_open` makes for the header at an offset.
abbrev pub handle : Image → ℕ → ℕ → FileHandle
handle mnt r bytes = record {
  mnt = mnt;
  index = add32 r mnt.files;
  dir = false;
  ptr = 0;
  len = bytes;
}

pub open_file_lem :
    (fd : ℕ) (mnt : Image) (fn : List ℕ) (fhs : Handles) (r bytes : ℕ)
    → Leads mnt false mnt.files fn r
    → r ≢ 0
    → size mnt.image r ≡ some bytes
    → open_file (some fd) mnt fn fhs ≡ some (some fd, fhs ++ (fd, handle mnt r bytes) ∷ [])
unfolding open_file
open_file_lem fd mnt fn fhs r bytes p n s =
    rw (find_lem mnt fn false r p, open_file) (rw (ne→not-== r 0 n) (rw s refl))

-- `romdisk_open`, at a path that leads to no regular file, or with no memory for the handle, returns
-- NULL and opens nothing.
pub open_file_fails :
    (memory : Option ℕ) (mnt : Image) (fn : List ℕ) (fhs : Handles) (r : ℕ)
    → Leads mnt false mnt.files fn r
    → (r ≡ 0) ⊎ ((memory ≡ none) × (bytes : ℕ) × (size mnt.image r ≡ some bytes))
    → open_file memory mnt fn fhs ≡ some (none, fhs)
unfolding open_file
open_file_fails memory mnt fn fhs r p (inl z) =
    rw (find_lem mnt fn false r p, open_file) (rw (eq→== r 0 z) refl)
open_file_fails memory mnt fn fhs r p (inr (m, bytes, s)) =
    rw (find_lem mnt fn false r p, open_file) (ground (arith, s, m))

-- Does no open handle have this address?
unfoldable pub fresh : ℕ → Handles → Bool
fresh fd [] = true
fresh fd ((a, h) ∷ rest) = if a == fd then false else fresh fd rest

close-append :
    (fd : ℕ) (h : FileHandle) (fhs : Handles)
    → fresh fd fhs ≡ true
    → close fd (fhs ++ (fd, h) ∷ []) ≡ fhs
unfolding close fresh
close-append fd h [] f = rw (eq→== fd fd refl) refl
close-append fd h ((a, g) ∷ rest) f = ground (arith, close-append fd h rest)

-- `romdisk_close` of the handle that `romdisk_open` returned for a path that leads to a regular file
-- leaves the handles that were open before, if the new address was not among theirs.
pub close-open_file :
    (fd : ℕ) (mnt : Image) (fn : List ℕ) (fhs : Handles) (r bytes : ℕ)
    → Leads mnt false mnt.files fn r
    → r ≢ 0
    → size mnt.image r ≡ some bytes
    → fresh fd fhs ≡ true
    → (fhs' : Handles) × (open_file (some fd) mnt fn fhs ≡ some (some fd, fhs'))
      × (close fd fhs' ≡ fhs)
close-open_file fd mnt fn fhs r bytes p n s f = (
  fhs ++ (fd, handle mnt r bytes) ∷ [],
  open_file_lem fd mnt fn fhs r bytes p n s,
  close-append fd (handle mnt r bytes) fhs f,
)

-- The bytes that a name and what comes before it take in a header, a multiple of 16.
abbrev pub header_size : ℕ → List ℕ → ℕ
header_size before name = before + (length name / 16 + 1) * 16

mount_files :
    (image volume : List ℕ) (mnt : Image)
    → c_string (drop 16 image) ≡ some volume
    → mount true image ≡ some (some mnt)
    → mnt.files ≡ header_size 16 volume
unfolding mount
mount_files image volume mnt v m = grind arith

-- `romdisk_direct` of the handle that `romdisk_open` makes in a mounted image gives the file's data,
-- which begins behind its own header, exactly if the file's name takes as many multiples of 16 as the
-- volume's name does.
pub direct-open_file :
    (fd : ℕ) (fn image volume name : List ℕ) (mnt : Image) (fhs : Handles) (r bytes : ℕ)
    → c_string (drop 16 image) ≡ some volume
    → mount true image ≡ some (some mnt)
    → Leads mnt false mnt.files fn r
    → r ≢ 0
    → size mnt.image r ≡ some bytes
    → filename mnt.image r ≡ some name
    → r + header_size 16 volume < 2 ^ 32
    → r + header_size 16 name < 2 ^ 32
    → (h : FileHandle) × (open_file (some fd) mnt fn fhs ≡ some (some fd, fhs ++ (fd, h) ∷ []))
      × (length name / 16 ≡ length volume / 16 → direct h ≡ some (r + header_size 16 name))
      × (length name / 16 ≢ length volume / 16 → direct h ≢ some (r + header_size 16 name))
unfolding direct
direct-open_file fd fn image volume name mnt fhs r bytes v m p n s f a b =
    let e = mount_files image volume mnt v m in
    (
      handle mnt r bytes,
      open_file_lem fd mnt fn fhs r bytes p n s,
      λ same. ground (arith, e, same),
      λ differ same. ground (arith, e, differ, same),
    )
