-- ===== src/File/Tests.antt =====
-- Calls on the sample drive.
use vdf.Prelude.{
  ℕ, ◌≡◌, ◌⊎◌, inl, inr, refl, [], ◌∷◌, some, none, ok, false, ◌==◌, if◌then◌else◌, arith,
}
use vdf.Drive.{VdfDrive, file_is_valid}
use vdf.Samples.{unplaced, plain_file}
use vdf.File.Names.{find_file_skip}
use vdf.File.Names.Search.{NoMatch, FirstMatch, find_file_skip-first}
use vdf.File.Props.{get_file_index, dir_entry}
use vdf.File.Orphans.{vdf_delete_file-orphans}
use vdf.File.Props.Index.{Among, dir_entry-get_file_index}
use vdf.DriveState.Lock.{LockClean}
use vdf.File.Entries.{set_file_size, vdf_delete_file}
use vdf.File.Tracked.{Tracked}
use vdf.File.Frozen.{
  set_size, delete, no_change, then_change, no_call, then_call, change, Changes-locked,
  Calls-LockClean,
}

abbrev locked : VdfDrive
locked = record unplaced { lockcnt = 1 }

abbrev two_calls : VdfDrive
two_calls = (vdf_delete_file (set_file_size locked 1 5000).0 2).0

Changes-locked_example : two_calls ≡ locked
Changes-locked_example =
    Changes-locked
      (then_change locked (set_file_size locked 1 5000).0 two_calls
        (then_change locked locked (set_file_size locked 1 5000).0 (no_change locked)
          (set_size locked 1 5000))
        (delete (set_file_size locked 1 5000).0 2))
      (omega arith)

Calls-LockClean_example : LockClean (vdf_delete_file unplaced 2).0
Calls-LockClean_example =
    Calls-LockClean
      (then_call unplaced unplaced (vdf_delete_file unplaced 2).0 (no_call unplaced)
        (change unplaced (vdf_delete_file unplaced 2).0 (delete unplaced 2)))
      refl

-- A directory 3 with the files 4 and 5.
abbrev nested : VdfDrive
nested = record unplaced {
  files = λ i.
      if i == 3
      then record plain_file { attr = 0x10; entries = 4 ∷ 5 ∷ []; cnt = 2 }
      else record plain_file { parent = some 3 };
}

dir_entry-get_file_index_example :
    (n : ℕ) × (get_file_index nested 5 ≡ ok n) × (dir_entry nested 3 n ≡ ok 5)
dir_entry-get_file_index_example =
    dir_entry-get_file_index nested 5 3 refl refl refl refl refl (inr (refl, inl refl))

find_file_skip-first_example :
    ((find_file_skip nested 3 (97 ∷ []) 0 (some 4) ≡ none)
      × NoMatch nested (97 ∷ []) 0 (some 4) (4 ∷ 5 ∷ []))
    ⊎ FirstMatch nested
        (97 ∷ [])
        0
        (some 4)
        (4 ∷ 5 ∷ [])
        (find_file_skip nested 3 (97 ∷ []) 0 (some 4))
find_file_skip-first_example = find_file_skip-first nested 3 (97 ∷ []) 0 (some 4)

abbrev listed : VdfDrive
listed = record nested { all_files = 3 ∷ 4 ∷ 5 ∷ [] }

vdf_delete_file-orphans_example :
    ((vdf_delete_file listed 3).1 ≡ ok tt)
    × (file_is_valid (vdf_delete_file listed 3).0 (some 3) ≡ false)
    × Among 4 (vdf_delete_file listed 3).0.all_files
    × (((vdf_delete_file listed 3).0.files 4).parent ≡ some 3)
vdf_delete_file-orphans_example =
    vdf_delete_file-orphans listed 3 0 4 refl (omega arith) refl refl (omega arith) (omega arith)
      refl (inr (refl, inl refl))
