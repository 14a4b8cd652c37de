-- ===== src/File/Tracked.antt =====
-- The operations on one file of libvdf/file.c: each leaves a locked drive alone, and marks a drive that
-- it changes.
use vdf.Prelude.{
  ℕ, ◌≡◌, refl, ◌∙◌, Bool, true, false, not, ◌&&◌, List, Option, none, some, Result, err, einval,
  eperm, arith, ltb, ◌==◌, if◌then◌else◌,
}
use vdf.Drive.{VdfDrive, file_is_valid, file_is_real}
use vdf.DriveState.{set_drive_dirty}
use vdf.File.Shortname.{Open, set_drive_dirty-Open, calc_shortname-lockcnt}
use vdf.File.Names.{filename_valid, find_file_skip, vff_longonly}
use vdf.File.Entries.{set_file_date, set_file_size}
use vdf.File.Props.{
  set_file_name, set_file_shortname, set_fat_file_size, set_file_attr, has_parent, is_8_3,
}

-- The drive is as it was, or it was not locked, is not, and is marked now.
pub data Tracked (drv drv' : VdfDrive) : Type 0 where
  kept : drv' ≡ drv → Tracked drv drv'
  opened : drv.lockcnt ≡ 0 → Open drv' → Tracked drv drv'

-- A test that refuses.
pub guard :
    {A : Type 0} (drv : VdfDrive) (b : Bool) (e : Result A) (r : VdfDrive × Result A)
    → (b ≡ false → Tracked drv r.0)
    → Tracked drv (if b then (drv, e) else r).0
guard drv true e r h = kept refl
guard drv false e r h = h refl

pub unlocked : (n : ℕ) → not (n == 0) ≡ false → n ≡ 0
unlocked n h = ground arith

pub marked :
    (drv drv' : VdfDrive)
    → not (drv.lockcnt == 0) ≡ false
    → drv'.lockcnt ≡ drv.lockcnt
    → Tracked drv (set_drive_dirty drv')
marked drv drv' h e = let l = unlocked drv.lockcnt h in opened l (set_drive_dirty-Open drv' (e ∙ l))

pub set_file_date-Tracked : (drv : VdfDrive) (i date : ℕ) → Tracked drv (set_file_date drv i date).0
unfolding set_file_date
set_file_date-Tracked drv i date =
    guard drv (not (file_is_valid drv (some i))) (err einval) _
      λ v. guard drv (not (drv.lockcnt == 0)) (err eperm) _ λ l. marked drv _ l refl

-- A result that depends on a value that may be missing.
pub none_or_some :
    {A B : Type 0} (drv : VdfDrive) (o : Option A) (e : Result B) (k : A → VdfDrive × Result B)
    → ((a : A) → o ≡ some a → Tracked drv (k a).0)
    → let r : VdfDrive × Result B = elim o [ none ↦ (drv, e) | some a ↦ k a ] in Tracked drv r.0
none_or_some drv none e k h = kept refl
none_or_some drv (some a) e k h = h a refl

pub set_file_size-Tracked : (drv : VdfDrive) (i size : ℕ) → Tracked drv (set_file_size drv i size).0
unfolding set_file_size
set_file_size-Tracked drv i size = none_or_some drv (drv.files i).parent _ _ λ p h.
    guard drv (not (file_is_valid drv (some i))) (err einval) _ λ v.
      guard drv (file_is_real drv i) (err einval) _
        λ r. guard drv (not (drv.lockcnt == 0)) (err eperm) _ λ l. marked drv _ l refl

pub set_fat_file_size-Tracked :
    (drv : VdfDrive) (i size : ℕ) → Tracked drv (set_fat_file_size drv i size).0
unfolding set_fat_file_size
set_fat_file_size-Tracked drv i size =
    guard drv (not (file_is_valid drv (some i) && has_parent drv i)) (err einval) _ λ v.
      guard drv (file_is_real drv i) (err einval) _ λ r.
        guard drv (not (drv.lockcnt == 0)) (err eperm) _
          λ l. guard drv (ltb (drv.files i).size size) (err einval) _ λ s. marked drv _ l refl

pub set_file_attr-Tracked :
    (drv : VdfDrive) (i attr mask : ℕ) → Tracked drv (set_file_attr drv i attr mask).0
unfolding set_file_attr
set_file_attr-Tracked drv i attr mask =
    guard drv (not (file_is_valid drv (some i))) (err einval) _
      λ v. guard drv (not (drv.lockcnt == 0)) (err eperm) _ λ l. marked drv _ l refl

pub some_refuses :
    {A B : Type 0} (drv : VdfDrive) (o : Option A) (e : Result B) (r : VdfDrive × Result B)
    → Tracked drv r.0
    → let t : VdfDrive × Result B = elim o [ some a ↦ (drv, e) | none ↦ r ] in Tracked drv t.0
some_refuses drv none e r h = h
some_refuses drv (some a) e r h = kept refl

pub set_file_name-Tracked :
    (limit : ℕ) (drv : VdfDrive) (i : ℕ) (name : Option (List ℕ))
    → Tracked drv (set_file_name limit drv i name).0
unfolding set_file_name
set_file_name-Tracked limit drv i none = kept refl
set_file_name-Tracked limit drv i (some name) = none_or_some drv (drv.files i).parent _ _ λ p h.
    guard drv (not (file_is_valid drv (some i))) (err einval) _ λ v.
      guard drv (not (drv.lockcnt == 0)) (err eperm) _ λ l.
        guard drv (not (filename_valid (some name))) (err einval) _ λ f.
          some_refuses drv (find_file_skip drv p name vff_longonly (some i)) _ _
            (marked drv _ l (calc_shortname-lockcnt limit _ i p))

pub set_file_shortname-Tracked :
    (drv : VdfDrive) (i : ℕ) (name : Option (List ℕ))
    → Tracked drv (set_file_shortname drv i name).0
unfolding set_file_shortname
set_file_shortname-Tracked drv i name = none_or_some drv (drv.files i).parent _ _ λ p h.
    guard drv (not (file_is_valid drv (some i))) (err einval) _ λ v.
      guard drv (not (drv.lockcnt == 0)) (err eperm) _ λ l.
        guard drv (not (filename_valid name)) (err einval) _ λ f. none_or_some drv name _ _ λ n hn.
          guard drv (not (is_8_3 n)) (err einval) _
            λ e. some_refuses drv (find_file_skip drv p n 0 (some i)) _ _ (marked drv _ l refl)
