-- ===== src/Drive.antt =====
-- include/vdf.h, libvdf/vdf_drive.h and libvdf/vdf_file.h: the structures and the flags.
-- A `vdf_file *` is a number, the place of the file in the drive's `files`; an intrusive list is
-- the list of its members.
use vdf.Prelude.{
  ℕ, Bool, true, false, List, Option, none, some, ◌==◌, if◌then◌else◌, has, not, ◌&&◌,
}

-- VDF_FAT12, VDF_FAT16 and VDF_FAT32.
pub data Filesys : Type 0 where
  fat12 fat16 fat32 : Filesys

abbrev pub filesys_id : Filesys → ℕ
filesys_id fat12 = 1
filesys_id fat16 = 2
filesys_id fat32 = 3

abbrev pub is_fat32 : Filesys → Bool
is_fat32 fat32 = true
is_fat32 _ = false

-- Flags of vdf_drive_create() and of a drive.
abbrev pub vdf_vfat : ℕ
vdf_vfat = 0x0100

abbrev pub vdf_mbr : ℕ
vdf_mbr = 0x0200

abbrev pub vdf_mbr_pad : ℕ
vdf_mbr_pad = 0x0400

abbrev pub vdf_align_cluster : ℕ
vdf_align_cluster = 0x0800

abbrev pub vdf_fail_warn : ℕ
vdf_fail_warn = 0x1000

abbrev pub vdf_dirty : ℕ
vdf_dirty = 0x10000

abbrev pub vdf_deleted : ℕ
vdf_deleted = 0x20000

abbrev pub vdf_fat_auto : ℕ
vdf_fat_auto = 0x00

abbrev pub vdf_fat_auto_no32 : ℕ
vdf_fat_auto_no32 = 0x10

abbrev pub vdf_fat_same : ℕ
vdf_fat_same = 0x20

abbrev pub default_drive_serial : ℕ
default_drive_serial = 0x12345678

-- Flags and attributes of a file.
abbrev pub vff_rootdir : ℕ
vff_rootdir = 0x01

abbrev pub vff_virt : ℕ
vff_virt = 0x02

abbrev pub vff_longname : ℕ
vff_longname = 0x04

abbrev pub vff_deleted : ℕ
vff_deleted = 0x08

abbrev pub vfa_dir : ℕ
vfa_dir = 0x10

abbrev pub vfa_attribute : ℕ
vfa_attribute = 0x20

-- The int32_t -1 in `fatsize` and `fatclusters`.
abbrev pub minus_one : ℕ
minus_one = 0xffff_ffff

-- struct _vdf_file. The union is laid out flat: `path` of a real file, `cback` of a virtual one,
-- `entries`, `cnt` and `dir_fent_cnt` of a directory.
pub record VdfFile : Type 0 where
  pub name : List ℕ
  pub shortname : List ℕ
  pub flags : ℕ
  pub attr : ℕ
  pub parent : Option ℕ
  pub date : ℕ
  pub size : ℕ
  pub clusters : ℕ
  pub fatsize : ℕ
  pub fatclusters : ℕ
  pub start : ℕ
  pub end : ℕ
  pub data_end : ℕ
  pub startsect : ℕ
  pub endsect : ℕ
  pub fent_start : ℕ
  pub fent_cnt : ℕ
  pub path : List ℕ
  pub cback : ℕ
  pub entries : List ℕ
  pub cnt : ℕ
  pub dir_fent_cnt : ℕ

-- struct _vdf_filerange
pub record FileRange : Type 0 where
  pub sectstart : ℕ
  pub sectend : ℕ
  pub fatstart : ℕ
  pub fatend : ℕ
  pub file : ℕ

-- struct _vdf_drive, with the files that its pointers reach. `ranges` is NULL or an array.
pub record VdfDrive : Type 0 where
  pub lockcnt : ℕ
  pub flags : ℕ
  pub filesys : Filesys
  pub bps : ℕ
  pub spc : ℕ
  pub bpc : ℕ
  pub sectors : ℕ
  pub clusters : ℕ
  pub bytes : ℕ
  pub root_dir : ℕ
  pub root_dir_cnt : ℕ
  pub files : ℕ → VdfFile
  pub all_files : List ℕ
  pub file_cnt : ℕ
  pub nonempty_file_cnt : ℕ
  pub ranges : Option (List FileRange)
  pub label : Option (List ℕ)
  pub serial : ℕ
  pub mbr_sectors : ℕ
  pub dirent_per_sector : ℕ
  pub fat_sectors : ℕ
  pub fat1_start : ℕ
  pub fat2_start : ℕ
  pub root_start : ℕ
  pub root_sectors : ℕ
  pub data_start : ℕ
  pub data_end : ℕ
  pub data_cluster_end : ℕ

-- A write through a `vdf_file *`.
abbrev pub update : (ℕ → VdfFile) → ℕ → VdfFile → ℕ → VdfFile
update files i f j = if i == j then f else files j

abbrev pub put_file : VdfDrive → ℕ → VdfFile → VdfDrive
put_file drv i f = record drv { files = update drv.files i f }

-- Inline tests of the headers. NULL is `none`.
abbrev pub drive_is_valid : VdfDrive → Bool
drive_is_valid drv = not (has drv.flags vdf_deleted)

abbrev pub file_is_valid : VdfDrive → Option ℕ → Bool
file_is_valid drv none = false
file_is_valid drv (some i) = not (has (drv.files i).flags vff_deleted)

abbrev pub file_is_virt : VdfDrive → ℕ → Bool
file_is_virt drv i = file_is_valid drv (some i) && has (drv.files i).flags vff_virt

abbrev pub file_is_dir : VdfDrive → ℕ → Bool
file_is_dir drv i = file_is_valid drv (some i) && has (drv.files i).attr vfa_dir

abbrev pub file_is_real : VdfDrive → ℕ → Bool
file_is_real drv i = file_is_valid drv (some i) && not (has (drv.files i).flags vff_virt)

abbrev pub dir_is_root : VdfDrive → ℕ → Bool
dir_is_root drv i = file_is_dir drv i && has (drv.files i).flags vff_rootdir
