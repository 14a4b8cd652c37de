-- ===== src/Dir/Tests.antt =====
-- A file with a long name of two parts, in a directory on FAT16, and in a directory on FAT32.
use vdf.Prelude.{
  if◌then◌else◌, ◌==◌, ℕ, ◌≡◌, refl, List, [], ◌∷◌, ◌++◌, none, some, ok, arith, replicate, drop,
}
use vdf.Drive.{VdfDrive, VdfFile, vdf_vfat, vff_longname, fat32}
use vdf.Samples.{plain_file, root_file, unplaced}
use vdf.Read.Bytes.Slices.{slice}
use vdf.Dir.{Tm, fill_dirent, read_sector_dir}
use vdf.Dir.Fill.{file_entries, fill_dirent-file_entries}
use vdf.Data.Content.{pad}
use vdf.Dir.Root.{dir_listing, read_sector_dir-listing}
use vdf.Dir.Stale.{fill_dirent-stale}

-- 2012-03-04, 05:06:07.
abbrev one_day : ℕ → Tm
one_day date = record {
  tm_sec = 7;
  tm_min = 6;
  tm_hour = 5;
  tm_mday = 4;
  tm_mon = 2;
  tm_year = 112;
}

abbrev vfat : VdfDrive
vfat = record unplaced { flags = vdf_vfat }

-- A name of 14 characters, and its short name ABCDEF~1.TXT.
abbrev long_file : VdfFile
long_file = record plain_file {
  name = 97 ∷ 98 ∷ 99 ∷ 100 ∷ 101 ∷ 102 ∷ 103 ∷ 104 ∷ 105 ∷ 106 ∷ 46 ∷ 116 ∷ 120 ∷ 116 ∷ [];
  shortname = 65 ∷ 66 ∷ 67 ∷ 68 ∷ 69 ∷ 70 ∷ 126 ∷ 49 ∷ 46 ∷ 84 ∷ 88 ∷ 84 ∷ [];
  flags = vff_longname;
  fent_start = 2;
  fent_cnt = 2;
}

-- The second of the three entries, and no more.
fill_dirent-file_entries_example :
    fill_dirent one_day vfat (replicate 40 7) long_file 3 1 none
    ≡ ok (
      1,
      slice (file_entries one_day vfat long_file (drop 32 (replicate 40 7))) 32 32
          ++ drop 32 (replicate 40 7),
    )
fill_dirent-file_entries_example =
    fill_dirent-file_entries one_day vfat (replicate 40 7) long_file 3 1 (omega arith) (omega arith)
      (omega arith) (omega arith) (omega arith)

fill_dirent-stale_example :
    (out : List ℕ) × (fill_dirent one_day vfat (replicate 70 7) long_file 3 9 none ≡ ok (2, out))
    × (slice out 48 2 ≡ slice (replicate 70 7) 48 2)
fill_dirent-stale_example =
    fill_dirent-stale one_day vfat (replicate 70 7) long_file 3 9 1 (omega arith) (omega arith) refl
      refl (omega arith) (omega arith)

-- A directory of the root with the file, and another file without a long name behind it.
abbrev listed : ℕ → VdfFile
listed i =
    if i == 0
    then root_file
    else if i == 1
    then long_file
    else if i == 2
    then record plain_file { fent_start = 5 }
    else record plain_file { attr = 0x10; parent = some 0; entries = 1 ∷ 2 ∷ []; dir_fent_cnt = 6 }

abbrev with_dir : VdfDrive
with_dir = record unplaced {
  flags = vdf_vfat;
  filesys = fat32;
  bps = 96;
  dirent_per_sector = 3;
  files = listed;
}

-- The second sector of three entries, and one behind the last.
read_sector_dir-listing_example :
    read_sector_dir one_day with_dir 1 2 (replicate 200 7) 3
    ≡ ok (pad 192 (drop 96 (dir_listing one_day with_dir (listed 3))) ++ drop 192 (replicate 200 7))
read_sector_dir-listing_example =
    read_sector_dir-listing one_day with_dir 3 1 2 (replicate 200 7) refl
      (refl, refl, omega arith, omega arith, (refl, refl, omega arith, omega arith, refl)) refl refl
      (omega arith) (omega arith) (omega arith) (omega arith) (omega arith)
