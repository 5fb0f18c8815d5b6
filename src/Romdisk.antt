-- ===== src/Romdisk.antt =====
-- kernel/vfs/fs/romdisk/romdisk.c: read-only files of a ROMFS image. The image is the list of its
-- bytes, words in it are big-endian as on the SH-2, and a read outside it is `none`. An `int32_t`
-- or `off_t` is its bit pattern, below 2 ^ 32.
pub mod Listing
pub mod Find
pub mod Read
pub mod Seek
pub mod Open
mod Tests
use libyaul.Base.{
  ℕ, zero, suc, ◌+◌, ◌-◌, ◌*◌, ◌/◌, ◌%◌, ◌^◌, ◌≡◌, Bool, true, false, ◌&&◌, ◌||◌, not, List, [],
  ◌∷◌, ◌++◌, Option, none, some, ltb, leb, ◌==◌, if◌then◌else◌, length, take, drop,
}
use libyaul.Base.Words.{add32, sub32}

-- A big-endian word at the start of a list of bytes.
pub word_of : List ℕ → Option ℕ
word_of (a ∷ b ∷ c ∷ d ∷ rest) = some (a * 2 ^ 24 + b * 2 ^ 16 + c * 2 ^ 8 + d)
word_of _ = none

-- A C string at the start of a list of bytes, without its NUL.
pub c_string : List ℕ → Option (List ℕ)
c_string [] = none
c_string (c ∷ rest) =
    if c == 0 then some [] else elim (c_string rest) [ none ↦ none | some s ↦ some (c ∷ s) ]

-- The fields of the `struct romdisk_file` at an offset.
pub next_header : List ℕ → ℕ → Option ℕ
next_header image offset = word_of (drop offset image)

pub spec_info : List ℕ → ℕ → Option ℕ
spec_info image offset = word_of (drop (offset + 4) image)

pub size : List ℕ → ℕ → Option ℕ
size image offset = word_of (drop (offset + 8) image)

pub filename : List ℕ → ℕ → Option (List ℕ)
filename image offset = c_string (drop (offset + 16) image)

-- `strncmp(a, b, n) == 0`, on C strings.
pub strncmp_zero : ℕ → List ℕ → List ℕ → Bool
strncmp_zero zero a b = true
strncmp_zero (suc n) [] [] = true
strncmp_zero (suc n) [] (y ∷ b) = false
strncmp_zero (suc n) (x ∷ a) [] = false
strncmp_zero (suc n) (x ∷ a) (y ∷ b) = x == y && strncmp_zero n a b

-- `struct rd_image`
pub record Image : Type 0 where
  pub image : List ℕ
  pub files : ℕ

-- "-rom1fs-"
abbrev pub magic : List ℕ
magic = 0x2D ∷ 0x72 ∷ 0x6F ∷ 0x6D ∷ 0x31 ∷ 0x66 ∷ 0x73 ∷ 0x2D ∷ []

-- `romdisk_mount`, told whether `_internal_malloc` has room; `some none` stands for NULL.
pub mount : Bool → List ℕ → Option (Option Image)
unfolding strncmp_zero c_string
mount room image =
    if strncmp_zero 8 image magic
    then (if room
        then elim (c_string (drop 16 image)) [
          | none ↦ none
          | some name ↦ some (some (record { image = image; files = 32 + length name / 16 * 16 }))
        ]
        else some none)
    else some none

-- The file name test of `romdisk_find_object`.
pub matches : List ℕ → List ℕ → ℕ → Bool
matches name fn fn_len = length name == fn_len && strncmp_zero fn_len name fn

-- `IS_TYPE(type) == TYPE_DIRECTORY` and `IS_TYPE(type) == TYPE_REGULAR_FILE`.
pub is_directory : ℕ → Bool
is_directory type = type % 4 == 1

pub is_regular : ℕ → Bool
is_regular type = type % 4 == 2

-- What `romdisk_find_object` returns at an entry of the right name.
pub accept : Bool → ℕ → ℕ → ℕ
accept directory type offset =
    if directory && is_directory type
    then offset
    else if not directory && is_regular type
    then offset
    else 0

-- `romdisk_find_object`, for at most `fuel` headers; 0 stands for an object that is not there.
pub find_object : ℕ → List ℕ → List ℕ → ℕ → Bool → ℕ → Option ℕ
find_object zero image fn fn_len directory offset = none
find_object (suc fuel) image fn fn_len directory offset = elim (next_header image offset) [
  | none ↦ none
  | some n ↦ elim (filename image offset) [
    | none ↦ none
    | some name ↦
        let rest = find_object fuel image fn fn_len directory (n / 16 * 16) in
        if matches name fn fn_len
        then some (accept directory (n % 16) offset)
        else if n / 16 * 16 == 0
        then some 0
        else rest
  ]
]

-- `strchr(fn, '/')`: the characters before the first slash, and those behind it.
pub split_slash : List ℕ → Option (List ℕ × List ℕ)
split_slash [] = none
split_slash (c ∷ rest) =
    if c == 0x2F
    then some ([], rest)
    else elim (split_slash rest) [ none ↦ none | some (a, b) ↦ some (c ∷ a, b) ]

-- The end of `romdisk_find`: the file under the last directory.
pub find_file : Image → List ℕ → Bool → ℕ → Option ℕ
find_file mnt [] directory ofs = some 0
find_file mnt (c ∷ fn) directory ofs =
    find_object (length mnt.image) mnt.image (c ∷ fn) (length (c ∷ fn)) directory ofs

-- One directory of the path, if its name is not empty: the offset of its listing, or `some none`
-- if it is not there.
pub enter : Image → List ℕ → ℕ → ℕ → Option (Option ℕ)
enter mnt fn zero ofs = some (some ofs)
enter mnt fn (suc n) ofs = elim (find_object (length mnt.image) mnt.image fn (suc n) true ofs) [
  | none ↦ none
  | some dir ↦
      if dir == 0
      then some none
      else elim (spec_info mnt.image dir) [ none ↦ none | some first ↦ some (some first) ]
]

-- `romdisk_find`, for at most `fuel` slashes, from the listing at `ofs` on.
pub find_from : ℕ → Image → List ℕ → Bool → ℕ → Option ℕ
unfolding find_file enter
find_from zero mnt fn directory ofs = none
find_from (suc fuel) mnt fn directory ofs = elim (split_slash fn) [
  | none ↦ find_file mnt fn directory ofs
  | some (name, rest) ↦ elim (enter mnt fn (length name) ofs) [
    | none ↦ none
    | some none ↦ some 0
    | some (some first) ↦ find_from fuel mnt rest directory first
  ]
]

-- `romdisk_find`: a path of n characters has at most n slashes.
pub find : Image → List ℕ → Bool → Option ℕ
find mnt fn directory = find_from (suc (length fn)) mnt fn directory mnt.files

-- `struct rd_file_handle`, with the mount that `mnt` points to.
pub record FileHandle : Type 0 where
  pub mnt : Image
  pub index : ℕ
  pub dir : Bool
  pub ptr : ℕ
  pub len : ℕ

-- The handles that are open, each under its address, in the order of `fhs`.
abbrev pub Handles : Type 0
Handles = List (ℕ × FileHandle)

-- `romdisk_open`; the address comes from `_internal_malloc`, and is `none` for NULL. The address of
-- the handle, `some none` for NULL, and the open handles.
pub open_file : Option ℕ → Image → List ℕ → Handles → Option (Option ℕ × Handles)
open_file memory mnt fn fhs = elim (find mnt fn false) [
  | none ↦ none
  | some f_idx ↦ if f_idx == 0 then some (none, fhs) else elim (size mnt.image f_idx) [
    | none ↦ none
    | some bytes ↦ elim memory [
      | none ↦ some (none, fhs)
      | some fd ↦ some (
        some fd,
        fhs
            ++ (
              fd,
              record {
                mnt = mnt;
                index = add32 f_idx mnt.files;
                dir = false;
                ptr = 0;
                len = bytes;
              },
            )
              ∷ [],
      )
    ]
  ]
]

-- `romdisk_fd_free` and `romdisk_close`: the first handle at that address goes.
pub close : ℕ → Handles → Handles
close fd [] = []
close fd ((a, h) ∷ rest) = if a == fd then rest else (a, h) ∷ close fd rest

-- "Is there enough left?": the number of bytes that `romdisk_read` copies.
pub read_size : FileHandle → ℕ → ℕ
read_size fh bytes = if ltb fh.len (add32 fh.ptr bytes) then sub32 fh.len fh.ptr else bytes

-- The copying of `romdisk_read`, of `n` bytes.
pub copy : FileHandle → ℕ → Option (Option (List ℕ) × FileHandle)
copy fh n =
    if leb (fh.index + fh.ptr + n) (length fh.mnt.image)
    then some
        (some (take n (drop (fh.index + fh.ptr) fh.mnt.image)), record fh { ptr = add32 fh.ptr n })
    else none

-- `romdisk_read` of an open file: the bytes that go to `buf`, `some none` for the result -1, and the
-- handle. A `none` is a read outside the image.
pub read : FileHandle → ℕ → Option (Option (List ℕ) × FileHandle)
unfolding copy
read fh bytes =
    if fh.index == 0
    then some (none, fh)
    else if fh.dir
    then some (none, fh)
    else copy fh (read_size fh bytes)

-- `romdisk_direct` of an open file: an offset into the image.
pub direct : FileHandle → Option ℕ
direct fh = if fh.index == 0 then none else if fh.dir then none else some fh.index

-- `p < 0` and `p > q` on `int32_t` patterns.
abbrev pub negative : ℕ → Bool
negative p = leb (2 ^ 31) p

abbrev pub signed_lt : ℕ → ℕ → Bool
signed_lt p q = ltb (add32 p (2 ^ 31)) (add32 q (2 ^ 31))

-- SEEK_SET, SEEK_CUR, SEEK_END, and any other `whence`.
pub data Whence : Type 0 where
  seek_set seek_cur seek_end : Whence
  invalid : Whence

-- Where `romdisk_seek` goes before its bounds are checked.
pub seek_target : FileHandle → ℕ → Whence → Option ℕ
seek_target fh offset seek_set = some offset
seek_target fh offset seek_cur = some (add32 fh.ptr offset)
seek_target fh offset seek_end = some (add32 fh.len offset)
seek_target fh offset invalid = none

-- The check of the bounds.
pub clamp : ℕ → ℕ → ℕ
clamp len p = let q = if negative p then 0 else p in if signed_lt len q then len else q

-- `romdisk_seek`; no handle stands for NULL, and no result for -1.
pub seek : Option FileHandle → ℕ → Whence → Option ℕ × Option FileHandle
unfolding seek_target clamp
seek none offset whence = (none, none)
seek (some fh) offset whence =
    if fh.index == 0
    then (none, some fh)
    else if fh.dir
    then (none, some fh)
    else elim (seek_target fh offset whence) [
      | none ↦ (none, some fh)
      | some p ↦ (some (clamp fh.len p), some (record fh { ptr = clamp fh.len p }))
    ]

-- `romdisk_tell` and `romdisk_total`.
pub tell : Option FileHandle → Option ℕ
tell none = none
tell (some fh) = if fh.index == 0 then none else if fh.dir then none else some fh.ptr

pub total : Option FileHandle → Option ℕ
total none = none
total (some fh) = if fh.index == 0 then none else if fh.dir then none else some fh.len
