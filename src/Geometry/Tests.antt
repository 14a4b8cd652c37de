-- ===== src/Geometry/Tests.antt =====
-- createdrive_ext at concrete sizes.
use vdf.Prelude.{◌+◌, ◌*◌, ◌<◌, ◌≡◌, refl, true, ok, arith}
use vdf.Drive.{fat16, fat32}
use vdf.Geometry.{
  DriveExt, Plan, Areas, plan_drive, mib, valid_bps, ranges_of, find_spc, find_cluster_size,
  regions_fat16, regions_fat32, regions, align_to, sectors_for,
}
use vdf.Geometry.ClusterSize.{find_spc-is_power, is_power}
use vdf.Geometry.PlanDrive.{plan_drive-IsSound, Accepted}
use vdf.Geometry.Accepted.{fat16_short}
use vdf.Geometry.Fat32.{fat32_wraps}

abbrev auto : DriveExt
auto = record { flags = 7; bytes_per_sector = 0; sectors_per_cluster = 0; root_dir_cnt = 0 }

-- 512 MiB with everything automatic.
abbrev plan_512 : Plan
plan_512 = record {
  filesys = fat32;
  bps = 512;
  spc = 8;
  sectors = 1048576;
  root_dir_cnt = 512;
  areas = record {
    fat1_start = 32;
    root_sectors = 0;
    fat_sectors = 1024;
    data_start = 2080;
    clusters = 130812;
  };
}

plan_512_lem : plan_drive (mib 512) 0 auto ≡ ok plan_512
unfolding plan_drive regions align_to sectors_for
plan_512_lem = refl

plan_drive-IsSound_example :
    (valid_bps plan_512.bps ≡ true)
    × (is_power plan_512.spc ≡ true)
    × (plan_512.sectors < 4294967296)
    × Accepted plan_512.filesys plan_512.bps plan_512.spc plan_512.sectors plan_512.areas
plan_drive-IsSound_example =
    plan_drive-IsSound (mib 512) 0 auto plan_512 plan_512_lem (λ e. omega arith)

find_spc-is_power_example :
    (is_power (find_spc (ranges_of fat16) (mib 300) 1024) ≡ true)
    × (find_spc (ranges_of fat16) (mib 300) 1024 * 1024 ≡ 8192)
unfolding find_cluster_size
find_spc-is_power_example = find_spc-is_power fat16 (mib 300) 1024 refl

fat16_short_example :
    (r : Areas) × (regions_fat16 0 512 64 262209 512 ≡ ok r)
    × (r.fat_sectors * 512 < 2 * (r.clusters + 2))
unfolding align_to sectors_for
fat16_short_example =
    fat16_short 0 16 64 262209 512 32 refl (omega arith) (omega arith) (omega arith) (omega arith)
      (omega arith) refl

fat32_wraps_example :
    (r : Areas) × (regions_fat32 0 512 128 20 ≡ ok r)
    × (20 < r.data_start)
    × (r.clusters ≡ 33550335)
fat32_wraps_example = fat32_wraps 0 20 refl (omega arith)
