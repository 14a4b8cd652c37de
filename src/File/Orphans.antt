-- ===== src/File/Orphans.antt =====
-- vdf_delete_file of libvdf/file.c on a directory that has files.
use vdf.Prelude.{
  ℕ, ◌≡◌, ◌≢◌, refl, sym, inl, inr, true, false, Bool, List, [], ◌∷◌, some, none, Result, ok, arith,
  ◌==◌, if◌then◌else◌, has, set_bit, eq→==, ne→==,
}
use mathlib.Core.Path.{subst}
use vdf.Drive.{VdfDrive, file_is_valid}
use vdf.DriveState.{remove, set_drive_dirty}
use vdf.DriveState.Lock.{set_drive_dirty-files}
use vdf.File.Deletion.{deleted_flag, delete_file_lem}
use vdf.File.Entries.{vdf_delete_file, marked_deleted, unlink}
use vdf.File.Props.Index.{Among}

Among-remove : (i j : ℕ) (is : List ℕ) → (i == j) ≡ false → Among j is → Among j (remove i is)
unfolding remove
Among-remove i j [] ne h = h
Among-remove i j (k ∷ ks) ne (inl e) =
    let other : (i == k) ≡ false = ground arith in rw (remove, other) (inl e)
Among-remove i j (k ∷ ks) ne (inr (e, h)) = go (i == k) (Among-remove i j ks ne h)
  where
    go : (b : Bool) → Among j (remove i ks) → Among j (if b then ks else k ∷ remove i ks)
    go true r = h
    go false r = inr (e, r)

dirty_all_files : (drv : VdfDrive) → (set_drive_dirty drv).all_files ≡ drv.all_files
unfolding set_drive_dirty
dirty_all_files drv = go (has drv.flags 0x10000)
  where
    go :
        (b : Bool)
        → (if b
            then drv
            else record drv { ranges = none; flags = set_bit drv.flags 0x10000 }).all_files
          ≡ drv.all_files
    go true = refl
    go false = refl

-- The call on a drive that is not locked, for a valid file of a directory `p` that is not the root.
vdf_delete_file-accepted :
    (drv : VdfDrive) (i p : ℕ)
    → file_is_valid drv (some i) ≡ true
    → i ≢ drv.root_dir
    → drv.lockcnt ≡ 0
    → (drv.files i).parent ≡ some p
    → vdf_delete_file drv i ≡ (marked_deleted (set_drive_dirty (unlink drv i p)) i, ok tt)
unfolding vdf_delete_file
vdf_delete_file-accepted drv i p valid inner free parent =
    rw (vdf_delete_file, valid, ne→== i drv.root_dir inner, eq→== drv.lockcnt 0 free, parent)
      (delete_file_lem (set_drive_dirty (unlink drv i p)) i)

-- A file that lies in a directory stays in the list of all files, with that directory as its parent,
-- when the directory is deleted and so no longer valid. The directory is any but the root, and the
-- drive is not locked.
pub vdf_delete_file-orphans :
    (drv : VdfDrive) (i p j : ℕ)
    → file_is_valid drv (some i) ≡ true
    → i ≢ drv.root_dir
    → drv.lockcnt ≡ 0
    → (drv.files i).parent ≡ some p
    → i ≢ j
    → p ≢ j
    → (drv.files j).parent ≡ some i
    → Among j drv.all_files
    → let r = vdf_delete_file drv i in
      (r.1 ≡ ok tt)
      × (file_is_valid r.0 (some i) ≡ false)
      × Among j r.0.all_files
      × ((r.0.files j).parent ≡ some i)
vdf_delete_file-orphans drv i p j valid inner free parent ne np child among =
    subst
      (λ (r : VdfDrive × Result (Unit {0})).
        (r.1 ≡ ok tt)
        × (file_is_valid r.0 (some i) ≡ false)
        × Among j r.0.all_files
        × ((r.0.files j).parent ≡ some i))
      (sym (vdf_delete_file-accepted drv i p valid inner free parent))
      (refl, deleted i (set_drive_dirty (unlink drv i p)), listed, kept)
  where
    deleted : (i : ℕ) (d : VdfDrive) → file_is_valid (marked_deleted d i) (some i) ≡ false
    deleted i d = rw (eq→== i i refl) (deleted_flag (d.files i).flags)

    listed : Among j (marked_deleted (set_drive_dirty (unlink drv i p)) i).all_files
    listed =
        rw (dirty_all_files (unlink drv i p)) (Among-remove i j drv.all_files (ne→== i j ne) among)

    kept : ((marked_deleted (set_drive_dirty (unlink drv i p)) i).files j).parent ≡ some i
    kept = rw (ne→== i j ne, set_drive_dirty-files (unlink drv i p), ne→== p j np) child
