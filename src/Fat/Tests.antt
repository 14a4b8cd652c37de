-- ===== src/Fat/Tests.antt =====
-- The FAT of the sample drive.
use vdf.Prelude.{◌≡◌, refl, [], ◌∷◌, ◌++◌, ◌==◌, if◌then◌else◌, ok, some, arith, drop, replicate}
use vdf.Drive.{VdfDrive, fat16}
use vdf.Recalc.{recalc_offsizes, finish_recalc}
use vdf.Recalc.Tests.{distinct, small, populated, done, below}
use vdf.Fat.{
  ranges, read_sector_fat, read_first, read_entries, find_file_fat_entry, last_of, fat_loop,
  fat_next_file, memset_zero,
}
use vdf.Fat.Sector.{IsRanged, fat_bytes}
use vdf.Fat.Sectors.{read_sector_fat-fat_bytes}
use vdf.Fat.Recalculated.{finish_recalc-IsRanged}
use vdf.Samples.{unplaced}

finish_recalc-IsRanged_example :
    ((finish_recalc (recalc_offsizes unplaced unplaced.all_files)).1 ≡ ok tt)
    × IsRanged (finish_recalc (recalc_offsizes unplaced unplaced.all_files)).0
finish_recalc-IsRanged_example =
    finish_recalc-IsRanged unplaced distinct small populated (omega arith) (omega arith) refl refl
      (omega arith) refl done below

abbrev ready : VdfDrive
ready = record unplaced {
  ranges = some (
      record { sectstart = 71; sectend = 73; fatstart = 2; fatend = 4; file = 1 }
      ∷ record { sectstart = 73; sectend = 75; fatstart = 4; fatend = 6; file = 2 }
      ∷ []);
  files = λ i. record (unplaced.files i) { end = if i == 1 then 4 else 6 };
  data_cluster_end = 6;
  data_end = 75;
}

ready-IsRanged : IsRanged ready
ready-IsRanged = record {
  count = refl;
  rising = (omega arith, (omega arith, omega arith));
  ends = refl;
  agree = (refl, (refl, tt));
}

-- The first sector: the reserved entries, 2 → 3, the mark, 4 → 5, the mark, and zeros.
read_sector_fat_sample :
    read_sector_fat ready 0 1 (replicate 512 7)
    ≡ ok (0xf8 ∷ 0xff ∷ 0xff ∷ 0xff ∷ 3 ∷ 0 ∷ 0xff ∷ 0xff ∷ 5 ∷ 0 ∷ 0xff ∷ 0xff ∷ replicate 500 0)
unfolding read_sector_fat read_first read_entries find_file_fat_entry last_of fat_loop fat_next_file
    memset_zero
read_sector_fat_sample = refl

read_sector_fat-fat_bytes_example :
    read_sector_fat ready 0 1 (replicate 512 7)
    ≡ ok (fat_bytes fat16 (ranges ready) 0 256 ++ drop 512 (replicate 512 7))
read_sector_fat-fat_bytes_example =
    read_sector_fat-fat_bytes fat16 ready 0 1 256 (replicate 512 7) (λ e. cc) refl ready-IsRanged
      refl (omega arith) (omega arith) (omega arith) (omega arith) (omega arith)
