-- ===== src/Romdisk/Seek.antt =====
-- kernel/vfs/fs/romdisk/romdisk.c: `romdisk_seek` and `romdisk_tell`.
use Prim.Native.Nat.{min}
use libyaul.Base.{
  ℕ, ◌+◌, ◌-◌, ◌^◌, ◌≤◌, ◌<◌, ◌≡◌, ◌≢◌, refl, ◌⊎◌, inl, inr, ap, ◌∙◌, none, some, true, arith,
  ne→not-==,
}
use libyaul.Base.Words.{add32}
use libyaul.Romdisk.{
  FileHandle, Whence, seek_set, seek_cur, seek_end, invalid, seek, tell, clamp, seek_target,
}
use libyaul.Romdisk.Read.{IsOpen}

-- Where a seek starts from.
abbrev pub base : FileHandle → Whence → ℕ
base fh seek_set = 0
base fh seek_cur = fh.ptr
base fh seek_end = fh.len
base fh invalid = 0

abbrev pub moved : FileHandle → ℕ → FileHandle
moved fh p = record fh { ptr = p }

clamp_forward : (len p : ℕ) → len < 2 ^ 31 → p < 2 ^ 31 → clamp len p ≡ min p len
unfolding clamp
clamp_forward len p a b = ground arith

clamp_negative : (len p : ℕ) → len < 2 ^ 31 → 2 ^ 31 ≤ p → p < 2 ^ 32 → clamp len p ≡ 0
unfolding clamp
clamp_negative len p a b c = ground arith

seek_clamps :
    (fh : FileHandle) (offset : ℕ) (w : Whence) (t : ℕ)
    → IsOpen fh
    → seek_target fh offset w ≡ some t
    → seek (some fh) offset w ≡ (some (clamp fh.len t), some (moved fh (clamp fh.len t)))
unfolding seek
seek_clamps fh offset w t o e = simp (ne→not-== fh.index 0 o.indexed, o.regular, e)

moved-IsOpen : (fh : FileHandle) (p : ℕ) → IsOpen fh → p ≤ fh.len → IsOpen (moved fh p)
moved-IsOpen fh p o l = record {
  indexed = o.indexed;
  regular = o.regular;
  inside = l;
  small = o.small;
  stored = o.stored;
}

moved-tell : (fh : FileHandle) (p : ℕ) → IsOpen fh → tell (some (moved fh p)) ≡ some p
unfolding tell
moved-tell fh p o = rw (ne→not-== fh.index 0 o.indexed) (rw o.regular refl)

target_forward :
    (fh : FileHandle) (d : ℕ) (w : Whence)
    → w ≢ invalid
    → base fh w + d < 2 ^ 31
    → seek_target fh d w ≡ some (base fh w + d)
unfolding seek_target
target_forward fh d seek_set n l = ap some (omega arith)
target_forward fh d seek_cur n l = ap some (omega arith)
target_forward fh d seek_end n l = ap some (omega arith)
target_forward fh d invalid n l = absurd (n refl)

-- The target of a seek back, before the bounds are checked.
target_back :
    (fh : FileHandle) (d : ℕ) (w : Whence)
    → IsOpen fh
    → w ≢ invalid
    → 0 < d
    → d ≤ 2 ^ 31
    → (t : ℕ) × (seek_target fh (2 ^ 32 - d) w ≡ some t) × (clamp fh.len t ≡ base fh w - d)
unfolding seek_target clamp
target_back fh d seek_set o n a b = (2 ^ 32 - d, refl, ground (arith, o.small))
target_back fh d seek_cur o n a b =
    (add32 fh.ptr (2 ^ 32 - d), refl, ground (arith, o.small, o.inside))
target_back fh d seek_end o n a b = (add32 fh.len (2 ^ 32 - d), refl, ground (arith, o.small))
target_back fh d invalid o n a b = absurd (n refl)

base-le : (fh : FileHandle) (w : Whence) → IsOpen fh → base fh w ≤ fh.len
base-le fh seek_set o = omega arith
base-le fh seek_cur o = o.inside
base-le fh seek_end o = omega arith
base-le fh invalid o = omega arith

-- `romdisk_seek` of an open file by `d` bytes forward from where the `whence` says stops at the
-- file's end at the latest, and returns the new position, which `romdisk_tell` then returns too.
pub seek_forward :
    (fh : FileHandle) (d : ℕ) (w : Whence)
    → IsOpen fh
    → w ≢ invalid
    → base fh w + d < 2 ^ 31
    → let p = min (base fh w + d) fh.len in
      (seek (some fh) d w ≡ (some p, some (moved fh p)))
      × IsOpen (moved fh p)
      × (tell (some (moved fh p)) ≡ some p)
seek_forward fh d w o n l =
    let p = min (base fh w + d) fh.len in
    (
      seek_clamps fh d w (base fh w + d) o (target_forward fh d w n l)
          ∙ ap (λ (q : ℕ). (some q, some (moved fh q)))
              (clamp_forward fh.len (base fh w + d) o.small l),
      moved-IsOpen fh p o (omega arith),
      moved-tell fh p o,
    )

-- `romdisk_seek` of an open file by `d` bytes back stops at the file's beginning at the latest, and
-- returns the new position, which `romdisk_tell` then returns too.
pub seek_back :
    (fh : FileHandle) (d : ℕ) (w : Whence)
    → IsOpen fh
    → w ≢ invalid
    → 0 < d
    → d ≤ 2 ^ 31
    → let p = base fh w - d in
      (seek (some fh) (2 ^ 32 - d) w ≡ (some p, some (moved fh p)))
      × IsOpen (moved fh p)
      × (tell (some (moved fh p)) ≡ some p)
seek_back fh d w o n a b =
    let (t, e, c) = target_back fh d w o n a b in
    (
      seek_clamps fh (2 ^ 32 - d) w t o e ∙ ap (λ (q : ℕ). (some q, some (moved fh q))) c,
      moved-IsOpen fh (base fh w - d) o (omega (arith, base-le fh w o)),
      moved-tell fh (base fh w - d) o,
    )

-- `romdisk_seek` with another `whence` than the three, of a NULL handle, or of one that is not open
-- for reading, fails and changes nothing.
pub seek_fails :
    (fh : FileHandle) (offset : ℕ) (w : Whence)
    → (w ≡ invalid) ⊎ (fh.index ≡ 0) ⊎ (fh.dir ≡ true)
    → (seek (some fh) offset w ≡ (none, some fh)) × (seek none offset w ≡ (none, none))
unfolding seek seek_target
seek_fails fh offset w h = (stops h, refl)
  where
    stops :
        (w ≡ invalid) ⊎ (fh.index ≡ 0) ⊎ (fh.dir ≡ true) → seek (some fh) offset w ≡ (none, some fh)
    stops (inl e) = rw e (ground arith)
    stops (inr (inl e)) = ground arith
    stops (inr (inr e)) = ground arith
