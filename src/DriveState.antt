-- ===== src/DriveState.antt =====
-- The operations on a drive of libvdf/drive.c other than its recalculation: creation, the getters, the
-- label, the serial number and the lock. NULL is `none`; allocation is taken to succeed. An operation
-- that changes the drive gives the new drive and the result; `err unset` is -1 with no errno.
pub mod Lock
use vdf.Prelude.{
  ℕ, ◌+◌, ◌-◌, ◌*◌, ◌/◌, ◌%◌, ◌^◌, Bool, not, List, [], ◌∷◌, ◌++◌, Option, none, some, Result, ok,
  err, fault, einval, eperm, enomem, unset, leb, ◌==◌, if◌then◌else◌, u32, has, set_bit, length,
}
use vdf.Drive.{
  VdfDrive, Filesys, filesys_id, is_fat32, drive_is_valid, vdf_mbr, vdf_mbr_pad, vdf_dirty,
  vdf_fat_same,
}
use vdf.Geometry.{Plan, DriveExt, plan_drive, fsys_flag_of}
use vdf.Recalc.{drive_recalc}

-- createdrive_ext, the fields of a drive that a plan sets.
unfoldable pub set_plan : VdfDrive → ℕ → Plan → VdfDrive
set_plan drv flags p =
    let fat2_start = u32 (p.areas.fat1_start + p.areas.fat_sectors) in
    let mbr_sectors =
      if has flags vdf_mbr then (if has flags vdf_mbr_pad then p.spc else 1) else 0 in
    record drv {
      flags = set_bit flags vdf_dirty;
      filesys = p.filesys;
      bps = p.bps;
      spc = p.spc;
      bpc = p.bps * p.spc;
      sectors = p.sectors;
      clusters = p.areas.clusters;
      root_dir_cnt = p.root_dir_cnt;
      dirent_per_sector = p.bps / 32;
      fat_sectors = p.areas.fat_sectors;
      fat1_start = p.areas.fat1_start;
      fat2_start = fat2_start;
      root_start = u32 (fat2_start + p.areas.fat_sectors);
      root_sectors = p.areas.root_sectors;
      data_start = p.areas.data_start;
      data_end = p.areas.data_start;
      mbr_sectors = mbr_sectors;
      bytes = u32 (p.sectors + mbr_sectors) * p.bps;
    }

unfoldable pub remove : ℕ → List ℕ → List ℕ
remove i [] = []
remove i (j ∷ js) = if i == j then js else j ∷ remove i js

-- The root directory is in the list of all files on FAT32 only.
unfoldable pub relink_root : Filesys → VdfDrive → VdfDrive
unfolding remove
relink_root orig_fsys drv =
    if is_fat32 orig_fsys
    then if is_fat32 drv.filesys
      then drv
      else record drv { all_files = remove drv.root_dir drv.all_files; file_cnt = drv.file_cnt - 1 }
    else if is_fat32 drv.filesys
    then record drv {
      all_files = drv.all_files ++ (drv.root_dir ∷ []);
      file_cnt = drv.file_cnt + 1;
    }
    else drv

-- createdrive_ext on a drive that is there already.
unfoldable pub recreate_ext : VdfDrive → ℕ → ℕ → DriveExt → VdfDrive × Result (Unit {0})
recreate_ext drv size flags ext = elim (plan_drive size flags ext) [
  | fault ↦ (drv, fault)
  | err e ↦ (drv, err e)
  | ok p ↦ (relink_root drv.filesys (set_plan drv flags p), ok tt)
]

-- vdf_drive_recreate_ext: VDF_FAT_SAME stands for the filesystem of the drive.
abbrev pub same_fsys : VdfDrive → ℕ → ℕ
same_fsys drv flags =
    if fsys_flag_of flags == vdf_fat_same
    then flags - flags % 256 + filesys_id drv.filesys
    else flags

unfoldable pub drive_recreate_ext : VdfDrive → ℕ → ℕ → DriveExt → VdfDrive × Result (Unit {0})
drive_recreate_ext drv size flags ext =
    if not (drive_is_valid drv)
    then (drv, err einval)
    else if not (drv.lockcnt == 0)
    then (drv, err eperm)
    else recreate_ext drv size (same_fsys drv flags) ext

-- vdf_drive_recreate_extsame
pub drive_recreate_extsame : VdfDrive → ℕ → ℕ → ℕ → VdfDrive × Result (Unit {0})
unfolding drive_recreate_ext
drive_recreate_extsame drv size flags extflags = drive_recreate_ext drv size flags (record {
  flags = extflags;
  bytes_per_sector = drv.bps;
  sectors_per_cluster = drv.spc;
  root_dir_cnt = drv.root_dir_cnt;
})

-- What the getters share: EINVAL for a drive that is not valid.
abbrev pub get {ℓ} : {A : Type ℓ} → VdfDrive → A → Result A
get drv v = if drive_is_valid drv then ok v else err einval

pub drive_sectorsize : VdfDrive → Result ℕ
drive_sectorsize drv = get drv drv.bps

pub drive_clustersectors : VdfDrive → Result ℕ
drive_clustersectors drv = get drv drv.spc

pub drive_clustersize : VdfDrive → Result ℕ
drive_clustersize drv = get drv drv.bpc

pub drive_bytes : VdfDrive → Result ℕ
drive_bytes drv = get drv drv.bytes

pub drive_sectors : VdfDrive → Result ℕ
drive_sectors drv = get drv (u32 (drv.sectors + drv.mbr_sectors))

pub drive_dataclusters : VdfDrive → Result ℕ
drive_dataclusters drv = get drv drv.clusters

pub drive_usedclusters : VdfDrive → Result ℕ
drive_usedclusters drv =
    if not (drive_is_valid drv)
    then err einval
    else if has drv.flags vdf_dirty
    then err unset
    else ok (u32 (drv.data_cluster_end + 2 ^ 32 - 2))

pub drive_flags : VdfDrive → Result ℕ
drive_flags drv = get drv drv.flags

pub drive_filesystem : VdfDrive → Result Filesys
drive_filesystem drv = get drv drv.filesys

pub drive_root : VdfDrive → Result ℕ
drive_root drv = get drv drv.root_dir

pub get_drive_serial : VdfDrive → Result ℕ
get_drive_serial drv = get drv drv.serial

pub drive_is_locked : VdfDrive → Result Bool
drive_is_locked drv = get drv (not (drv.lockcnt == 0))

pub drive_is_dirty : VdfDrive → Result Bool
drive_is_dirty drv = get drv (has drv.flags vdf_dirty)

unfoldable pub set_drive_dirty : VdfDrive → VdfDrive
set_drive_dirty drv =
    if has drv.flags vdf_dirty
    then drv
    else record drv { ranges = none; flags = set_bit drv.flags vdf_dirty }

unfoldable pub set_drive_label : VdfDrive → Option (List ℕ) → VdfDrive × Result (Unit {0})
set_drive_label drv label =
    if not (drive_is_valid drv)
    then (drv, err einval)
    else if not (drv.lockcnt == 0)
    then (drv, err eperm)
    else (set_drive_dirty (record drv { label = label }), ok tt)

-- vdf_get_drive_label: the length, and what is written to `label` with the 0 behind it. Without a
-- buffer (`len` is `none`) nothing is written.
pub get_drive_label : VdfDrive → Option ℕ → Result (ℕ × List ℕ)
get_drive_label drv len =
    let text : List ℕ = elim drv.label [ none ↦ [] | some l ↦ l ] in
    if not (drive_is_valid drv) then err einval else elim len [
      | none ↦ ok (length text, [])
      | some n ↦ if n == 0 then err einval else elim drv.label [
        | none ↦ ok (0, 0 ∷ [])
        | some l ↦ if leb n (length l) then err enomem else ok (length l, l ++ (0 ∷ []))
      ]
    ]

unfoldable pub set_drive_serial : VdfDrive → ℕ → VdfDrive × Result (Unit {0})
set_drive_serial drv serial =
    if not (drive_is_valid drv) then (drv, err einval) else (record drv { serial = serial }, ok tt)

abbrev pub count_lock : VdfDrive × Result (Unit {0}) → VdfDrive × Result (Unit {0})
count_lock (drv, ok u) = (record drv { lockcnt = drv.lockcnt + 1 }, ok tt)
count_lock (drv, err e) = (drv, err e)
count_lock (drv, fault) = (drv, fault)

-- `fuel` is for drive_recalc.
unfoldable pub drive_lock : ℕ → VdfDrive → VdfDrive × Result (Unit {0})
drive_lock fuel drv =
    if not (drive_is_valid drv)
    then (drv, err einval)
    else if drv.lockcnt == 0
    then count_lock (drive_recalc fuel drv)
    else (record drv { lockcnt = drv.lockcnt + 1 }, ok tt)

unfoldable pub drive_unlock : VdfDrive → VdfDrive × Result (Unit {0})
drive_unlock drv =
    if not (drive_is_valid drv)
    then (drv, err einval)
    else if drv.lockcnt == 0
    then (drv, err einval)
    else (record drv { lockcnt = drv.lockcnt - 1 }, ok tt)
