-- ===== src/Romdisk/Tests.antt =====
-- kernel/vfs/fs/romdisk/romdisk.c on an image: the volume "v" with the directory "d" and the file "a",
-- and the file "b" in the directory.
use libyaul.Base.{
  ℕ, ◌+◌, ◌-◌, ◌/◌, ◌^◌, ◌≡◌, ◌≢◌, refl, inl, List, [], ◌∷◌, ◌++◌, none, some, true, false, arith,
  length, replicate,
}
use libyaul.Romdisk.{
  Image, FileHandle, Handles, mount, word_of, find_object, find, size, filename, c_string,
  open_file, close, direct, read, seek, tell, seek_cur, seek_end, invalid, spec_info, next_header,
  split_slash,
}
use libyaul.Romdisk.Listing.{Entry, Listing, last, link, same, lookup, find_object_lem}
use libyaul.Romdisk.Find.{IsName, Leads, down, file, lost, find_lem}
use libyaul.Romdisk.Open.{open_file_fails, fresh, close-open_file, direct-open_file}
use libyaul.Romdisk.Read.{IsOpen, read_lem, read_twice, read_overruns}
use libyaul.Romdisk.Seek.{seek_forward, seek_back, seek_fails}

abbrev word : ℕ → List ℕ
word n = 0 ∷ 0 ∷ 0 ∷ n ∷ []

-- A header of 32 bytes: `next_header`, `spec_info`, the size and a name of one character.
abbrev header : ℕ → ℕ → ℕ → ℕ → List ℕ
header next spec bytes name =
    word next ++ word spec ++ word bytes ++ word 0 ++ name ∷ replicate 15 0

abbrev bytes_of_image : List ℕ
bytes_of_image =
    0x2D ∷ 0x72 ∷ 0x6F ∷ 0x6D ∷ 0x31 ∷ 0x66 ∷ 0x73 ∷ 0x2D ∷ word 160
    ++ word 0
    ++ 0x76 ∷ replicate 15 0
    ++ header 65 112 0 0x64
    ++ header 2 0 3 0x61
    ++ 7 ∷ 8 ∷ 9 ∷ replicate 13 0
    ++ header 2 0 2 0x62
    ++ 5 ∷ 6 ∷ replicate 14 0

abbrev disk : Image
disk = record { image = bytes_of_image; files = 32 }

mount_test : mount true bytes_of_image ≡ some (some disk)
unfolding mount
mount_test = refl

abbrev entry_d : Entry
entry_d = record { offset = 32; name = 0x64 ∷ []; mode = 1 }

abbrev entry_a : Entry
entry_a = record { offset = 64; name = 0x61 ∷ []; mode = 2 }

abbrev entry_b : Entry
entry_b = record { offset = 112; name = 0x62 ∷ []; mode = 2 }

root : Listing bytes_of_image (entry_d ∷ entry_a ∷ []) 32
unfolding next_header filename word_of c_string
root =
    link 32 65 (0x64 ∷ []) (entry_a ∷ []) refl refl refl (omega arith)
      (last 64 2 (0x61 ∷ []) refl refl refl refl)

inner : Listing bytes_of_image (entry_b ∷ []) 112
unfolding next_header filename word_of c_string
inner = last 112 2 (0x62 ∷ []) refl refl refl refl

-- Names of one character.
one_char : (c : ℕ) → split_slash (c ∷ []) ≡ none → IsName (c ∷ [])
one_char c p = record { filled = λ e. cc; plain = p }

find_object_lem_example :
    find_object (length bytes_of_image) bytes_of_image (0x61 ∷ []) 1 false 32 ≡ some 64
unfolding lookup same
find_object_lem_example =
    find_object_lem bytes_of_image (0x61 ∷ []) [] false (entry_d ∷ entry_a ∷ []) 32 root

-- "d/b"
abbrev path_b : List ℕ
path_b = 0x64 ∷ 0x2F ∷ 0x62 ∷ []

Leads-path_b : Leads disk false 32 path_b 112
unfolding lookup same spec_info word_of split_slash
Leads-path_b =
    down 32 (0x64 ∷ []) (0x62 ∷ []) (entry_d ∷ entry_a ∷ []) 112 112 (one_char 0x64 refl) root
      (omega arith) refl (file 112 (0x62 ∷ []) (entry_b ∷ []) (one_char 0x62 refl) inner)

find_lem_example : find disk path_b false ≡ some 112
find_lem_example = find_lem disk path_b false 112 Leads-path_b

-- "c/b"
Leads-nowhere : Leads disk false 32 (0x63 ∷ 0x2F ∷ 0x62 ∷ []) 0
unfolding lookup same split_slash
Leads-nowhere =
    lost 32 (0x63 ∷ []) (0x62 ∷ []) (entry_d ∷ entry_a ∷ []) (one_char 0x63 refl) root refl

open_file_fails_example : open_file (some 9) disk (0x63 ∷ 0x2F ∷ 0x62 ∷ []) [] ≡ some (none, [])
open_file_fails_example =
    open_file_fails (some 9) disk (0x63 ∷ 0x2F ∷ 0x62 ∷ []) [] 0 Leads-nowhere (inl refl)

-- A handle of "d/b".
abbrev handle_b : FileHandle
handle_b = record { mnt = disk; index = 144; dir = false; ptr = 0; len = 2 }

close-open_file_example :
    (fhs' : Handles) × (open_file (some 9) disk path_b ((4, handle_b) ∷ []) ≡ some (some 9, fhs'))
    × (close 9 fhs' ≡ (4, handle_b) ∷ [])
unfolding size word_of fresh
close-open_file_example =
    close-open_file 9 disk path_b ((4, handle_b) ∷ []) 112 2 Leads-path_b (omega arith) refl refl

abbrev volume : List ℕ
volume = 0x76 ∷ []

abbrev name_b : List ℕ
name_b = 0x62 ∷ []

direct-open_file_example :
    (h : FileHandle) × (open_file (some 9) disk path_b [] ≡ some (some 9, [] ++ (9, h) ∷ []))
    × (length name_b / 16 ≡ length volume / 16 → direct h ≡ some (112 + 32))
    × (length name_b / 16 ≢ length volume / 16 → direct h ≢ some (112 + 32))
unfolding size word_of filename c_string
direct-open_file_example =
    direct-open_file 9 path_b bytes_of_image volume name_b disk [] 112 2 refl mount_test
      Leads-path_b (omega arith) refl refl (omega arith) (omega arith)

handle_b-IsOpen : IsOpen handle_b
handle_b-IsOpen = record {
  indexed = omega arith;
  regular = refl;
  inside = omega arith;
  small = omega arith;
  stored = omega arith;
}

-- The same handle with another position.
abbrev at : ℕ → FileHandle
at p = record handle_b { ptr = p }

read_lem_example : (read handle_b 9 ≡ some (some (5 ∷ 6 ∷ []), at 2)) × IsOpen (at 2)
read_lem_example = read_lem handle_b 9 handle_b-IsOpen (omega arith)

read_twice_example :
    (fh' fh'' : FileHandle) × (xs ys : List ℕ) × (read handle_b 1 ≡ some (some xs, fh'))
    × (read fh' 1 ≡ some (some ys, fh''))
    × (read handle_b 2 ≡ some (some (xs ++ ys), fh''))
read_twice_example = read_twice handle_b 1 1 handle_b-IsOpen (omega arith)

read_overruns_example : read (at 2) (2 ^ 32 - 1) ≡ none
read_overruns_example =
    read_overruns (at 2) (2 ^ 32 - 1)
      (record {
        indexed = omega arith;
        regular = refl;
        inside = omega arith;
        small = omega arith;
        stored = omega arith;
      })
      (omega arith) (omega arith) (omega arith)

seek_forward_example :
    (seek (some handle_b) 9 seek_cur ≡ (some 2, some (at 2)))
    × IsOpen (at 2)
    × (tell (some (at 2)) ≡ some 2)
seek_forward_example = seek_forward handle_b 9 seek_cur handle_b-IsOpen (λ e. cc) (omega arith)

seek_back_example :
    (seek (some handle_b) (2 ^ 32 - 1) seek_end ≡ (some 1, some (at 1)))
    × IsOpen (at 1)
    × (tell (some (at 1)) ≡ some 1)
seek_back_example =
    seek_back handle_b 1 seek_end handle_b-IsOpen (λ e. cc) (omega arith) (omega arith)

seek_fails_example :
    (seek (some handle_b) 1 invalid ≡ (none, some handle_b)) × (seek none 1 invalid ≡ (none, none))
seek_fails_example = seek_fails handle_b 1 invalid (inl refl)
