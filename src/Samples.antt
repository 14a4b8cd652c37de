-- ===== src/Samples.antt =====
-- A small drive for the tests: FAT16 with two files of two clusters each.
use vdf.Prelude.{ℕ, [], ◌∷◌, none, some, ◌==◌, if◌then◌else◌}
use vdf.Drive.{VdfDrive, VdfFile, fat16, minus_one}

abbrev pub plain_file : VdfFile
plain_file = record {
  name = 65 ∷ [];
  shortname = 65 ∷ [];
  flags = 0;
  attr = 0x20;
  parent = some 0;
  date = 0;
  size = 1000;
  clusters = 2;
  fatsize = minus_one;
  fatclusters = minus_one;
  start = 0;
  end = 0;
  data_end = 0;
  startsect = 0;
  endsect = 0;
  fent_start = 0;
  fent_cnt = 0;
  path = [];
  cback = 0;
  entries = [];
  cnt = 0;
  dir_fent_cnt = 0;
}

abbrev pub root_file : VdfFile
root_file = record plain_file {
  flags = 1;
  attr = 0x10;
  parent = none;
  size = 0;
  clusters = 0;
  entries = 1 ∷ 2 ∷ [];
  cnt = 2;
}

abbrev pub two_files : ℕ → VdfFile
two_files i = if i == 0 then root_file else plain_file

abbrev pub unplaced : VdfDrive
unplaced = record {
  lockcnt = 0;
  flags = 0x10000;
  filesys = fat16;
  bps = 512;
  spc = 1;
  bpc = 512;
  sectors = 5000;
  clusters = 4800;
  bytes = 2560000;
  root_dir = 0;
  root_dir_cnt = 512;
  files = two_files;
  all_files = 1 ∷ 2 ∷ [];
  file_cnt = 2;
  nonempty_file_cnt = 0;
  ranges = none;
  label = none;
  serial = 0x12345678;
  mbr_sectors = 0;
  dirent_per_sector = 16;
  fat_sectors = 19;
  fat1_start = 1;
  fat2_start = 20;
  root_start = 39;
  root_sectors = 32;
  data_start = 71;
  data_end = 71;
  data_cluster_end = 2;
}
