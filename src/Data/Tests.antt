-- ===== src/Data/Tests.antt =====
-- Two files and a directory of a small drive of FAT32, read in one call.
use vdf.Prelude.{
  ℕ, ◌-◌, Bool, not, Option, has, ◌&&◌, ◌≡◌, refl, List, [], ◌∷◌, none, some, ok, arith, ◌==◌,
  if◌then◌else◌, replicate,
}
use vdf.Drive.{VdfDrive, VdfFile, fat32, vfa_dir, vff_deleted}
use vdf.Samples.{plain_file, unplaced}
use vdf.Recalc.{recalc_offsizes, finish_recalc}
use vdf.Recalc.Tests.{distinct, small, populated, done}
use vdf.Data.{Sources}
use vdf.Data.File.{delivered}
use vdf.Data.Recalculated.{finish_recalc-IsLaid}
use vdf.Data.Sectors.{IsLaid}
use vdf.Dir.{Tm}

-- 2012-03-04, 05:06:07.
abbrev one_day : ℕ → Tm
one_day date = record {
  tm_sec = 7;
  tm_min = 6;
  tm_hour = 5;
  tm_mday = 4;
  tm_mon = 2;
  tm_year = 112;
}

-- 96 bytes to a sector: 100 bytes of `1` in the sectors 71 and 72, a directory with that file in the
-- sector 73, and three bytes of `3`, of which the host has two, in the sector 74.
abbrev first_file : VdfFile
first_file = record plain_file {
  size = 100;
  startsect = 71;
  endsect = 73;
  path = 65 ∷ [];
  fent_start = 2;
  parent = some 2;
}

abbrev a_dir : VdfFile
a_dir = record plain_file {
  size = 96;
  attr = 0x10;
  startsect = 73;
  endsect = 74;
  parent = some 0;
  entries = 1 ∷ [];
  dir_fent_cnt = 3;
}

abbrev last_file : VdfFile
last_file = record plain_file { size = 3; startsect = 74; endsect = 75; path = 67 ∷ [] }

abbrev three_files : ℕ → VdfFile
three_files i = if i == 1 then first_file else if i == 2 then a_dir else last_file

abbrev placed : VdfDrive
placed = record unplaced {
  bps = 96;
  dirent_per_sector = 3;
  filesys = fat32;
  file_cnt = 3;
  files = three_files;
  ranges = some (
      record { sectstart = 71; sectend = 73; fatstart = 2; fatend = 4; file = 1 }
      ∷ record { sectstart = 73; sectend = 74; fatstart = 4; fatend = 5; file = 2 }
      ∷ record { sectstart = 74; sectend = 75; fatstart = 5; fatend = 6; file = 3 }
      ∷ []);
  data_end = 75;
}

abbrev host_bytes : ℕ → List ℕ
host_bytes i = if i == 1 then replicate 100 1 else if i == 2 then [] else replicate 2 3

-- The path tells the file, and the descriptor is its number.
abbrev open_host : List ℕ → Option ℕ
open_host [] = none
open_host (c ∷ cs) = some (c - 64)

abbrev host : Sources
host = record {
  cback = λ c i off want. none;
  open_file = open_host;
  read_at = λ fd off want. some (delivered (host_bytes fd) off want);
}

abbrev file_of : Bool → Bool → VdfFile
file_of b c = if b then first_file else if c then a_dir else last_file

abbrev is_dir_of : VdfFile → Bool
is_dir_of f = not (has f.flags vff_deleted) && has f.attr vfa_dir

finish_recalc-IsLaid_example :
    ((finish_recalc (recalc_offsizes unplaced unplaced.all_files)).1 ≡ ok tt)
    × IsLaid (finish_recalc (recalc_offsizes unplaced unplaced.all_files)).0
finish_recalc-IsLaid_example =
    finish_recalc-IsLaid unplaced distinct small populated
      (omega arith, omega arith, (omega arith, omega arith, tt)) (omega arith) (omega arith)
      (omega arith) refl refl refl (omega arith) refl done
