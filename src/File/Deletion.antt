-- ===== src/File/Deletion.antt =====
-- delete_file of libvdf/file.c: what its tests of the file make of the flag that it has set.
use vdf.Prelude.{ℕ, ◌≡◌, refl, false, not, ok, arith, has, set_bit, eq→==}
use vdf.Drive.{VdfDrive, vff_deleted}
use vdf.File.Entries.{marked_deleted, delete_fuel, delete_file}

pub deleted_flag : (flags : ℕ) → not (has (set_bit flags vff_deleted) vff_deleted) ≡ false
deleted_flag flags = ground arith

-- Once it is marked a file is no directory, so that the loop over the entries of the parent is never
-- reached.
pub delete_file_lem : (drv : VdfDrive) (i : ℕ) → delete_file drv i ≡ (marked_deleted drv i, ok tt)
unfolding delete_file delete_fuel
delete_file_lem drv i =
    rw (delete_file, delete_fuel, eq→== i i refl, deleted_flag (drv.files i).flags) refl
