-- ===== src/Geometry.antt =====
-- libvdf/drive.c, createdrive_ext: the choice of the filesystem and of the places of the boot area,
-- the two FATs, the root directory and the data.
pub mod ClusterSize
pub mod Layout
pub mod Accepted
pub mod Fat32
pub mod PlanDrive
pub mod Tests
use vdf.Prelude.{
  ℕ, ◌+◌, ◌-◌, ◌*◌, ◌/◌, ◌%◌, Bool, ◌&&◌, ◌||◌, not, List, [], ◌∷◌, Result, ok, err, fault, einval,
  ◌>>=◌, map_ok, ltb, leb, ◌==◌, if◌then◌else◌, u32, u64, sub32, has, align_down,
}
use vdf.Drive.{
  Filesys, fat12, fat16, fat32, vdf_fat_auto, vdf_fat_auto_no32, vdf_align_cluster, vdf_fail_warn,
}

abbrev pub kib : ℕ → ℕ
kib x = x * 1024

abbrev pub mib : ℕ → ℕ
mib x = kib x * 1024

abbrev pub gib : ℕ → ℕ
gib x = mib x * 1024

abbrev pub tib : ℕ → ℕ
tib x = gib x * 1024

-- struct _cluster_size_range
pub record ClusterSizeRange : Type 0 where
  pub max_size : ℕ
  pub cluster_size : ℕ

abbrev range : ℕ → ℕ → ClusterSizeRange
range m c = record { max_size = m; cluster_size = c }

abbrev pub fat12_cluster_ranges : List ClusterSizeRange
fat12_cluster_ranges = range (mib 15) (kib 8) ∷ range 0 (kib 4) ∷ []

abbrev pub fat16_cluster_ranges : List ClusterSizeRange
fat16_cluster_ranges =
    range (mib 16) (kib 4)
    ∷ range (mib 128) (kib 2)
    ∷ range (mib 256) (kib 4)
    ∷ range (mib 512) (kib 8)
    ∷ range (gib 1) (kib 16)
    ∷ range (gib 2) (kib 32)
    ∷ range (gib 4) (kib 64)
    ∷ range (gib 8) (kib 128)
    ∷ range 0 (kib 256)
    ∷ []

abbrev pub fat32_cluster_ranges : List ClusterSizeRange
fat32_cluster_ranges =
    range (mib 260) 512
    ∷ range (gib 8) (kib 4)
    ∷ range (gib 16) (kib 8)
    ∷ range (gib 32) (kib 16)
    ∷ range 0 (kib 32)
    ∷ []

-- The loop of find_spc: the first range that holds the size, or the one that ends the array.
-- (No array of the code ends otherwise; the clause for the empty list is not reached.)
pub find_cluster_size : List ClusterSizeRange → ℕ → ℕ
find_cluster_size [] size = 0
find_cluster_size (r ∷ rs) size =
    if r.max_size == 0 || ltb size r.max_size then r.cluster_size else find_cluster_size rs size

pub find_spc : List ClusterSizeRange → ℕ → ℕ → ℕ
unfolding find_cluster_size
find_spc ranges size bps =
    let cluster_size = find_cluster_size ranges size in
    if leb cluster_size bps then 1 else cluster_size / bps

abbrev pub ranges_of : Filesys → List ClusterSizeRange
ranges_of fat12 = fat12_cluster_ranges
ranges_of fat16 = fat16_cluster_ranges
ranges_of fat32 = fat32_cluster_ranges

-- struct _vcd_driveext
pub record DriveExt : Type 0 where
  pub flags : ℕ
  pub bytes_per_sector : ℕ
  pub sectors_per_cluster : ℕ
  pub root_dir_cnt : ℕ

abbrev pub vde_auto_bps : ℕ
vde_auto_bps = 0x01

abbrev pub vde_auto_spc : ℕ
vde_auto_spc = 0x02

abbrev pub vde_auto_rootent : ℕ
vde_auto_rootent = 0x04

abbrev pub valid_bps : ℕ → Bool
valid_bps n = n == 512 || n == 1024 || n == 2048 || n == 4096

abbrev pub valid_spc : ℕ → Bool
valid_spc n = n == 1 || n == 2 || n == 4 || n == 8 || n == 16 || n == 32 || n == 64 || n == 128

pub choose_bps : DriveExt → Result ℕ
choose_bps ext =
    if has ext.flags vde_auto_bps
    then ok 512
    else if valid_bps ext.bytes_per_sector
    then ok ext.bytes_per_sector
    else err einval

-- VDF_FAT12, VDF_FAT16 and VDF_FAT32 as flags; anything else gives the last argument.
pub explicit_fsys : ℕ → Result Filesys → Result Filesys
explicit_fsys fsys_flag other =
    if fsys_flag == 1
    then ok fat12
    else if fsys_flag == 2
    then ok fat16
    else if fsys_flag == 3
    then ok fat32
    else other

abbrev pub is_auto : ℕ → Bool
is_auto fsys_flag = fsys_flag == vdf_fat_auto || fsys_flag == vdf_fat_auto_no32

-- With VDE_AUTO_SPC: by the size of the drive.
pub fsys_by_size : ℕ → ℕ → Result Filesys
unfolding explicit_fsys
fsys_by_size fsys_flag size =
    if is_auto fsys_flag
    then if ltb size (mib 16)
      then ok fat12
      else if leb (mib 260) size && ltb size (tib 2) && not (fsys_flag == vdf_fat_auto_no32)
      then ok fat32
      else if ltb size (gib 16)
      then ok fat16
      else err einval
    else explicit_fsys fsys_flag (err einval)

-- Without it: by the number of clusters. An unknown flag leaves `fsys` at -1, and the code goes on
-- with the variables that the switch on `fsys` should have set.
pub fsys_by_clusters : ℕ → ℕ → Result Filesys
unfolding explicit_fsys
fsys_by_clusters fsys_flag clusters =
    if is_auto fsys_flag
    then if ltb clusters 4085
      then ok fat12
      else if ltb clusters 65525 || fsys_flag == vdf_fat_auto_no32
      then ok fat16
      else ok fat32
    else explicit_fsys fsys_flag fault

-- The locals that the switch on `fsys` computes.
pub record Areas : Type 0 where
  pub fat1_start : ℕ
  pub root_sectors : ℕ
  pub fat_sectors : ℕ
  pub data_start : ℕ
  pub clusters : ℕ

-- `x += bps - 1; x /= bps;` on a uint32_t.
pub sectors_for : ℕ → ℕ → ℕ
sectors_for x bps = u32 (x + bps - 1) / bps

-- `x += spc - 1; x &= ~(spc - 1);` under VDF_ALIGN_CLUSTER.
pub align_to : ℕ → ℕ → ℕ → ℕ
align_to flags spc x = if has flags vdf_align_cluster then align_down (u32 (x + spc - 1)) spc else x

module _ (flags bps spc sectors : ℕ) where
  -- What the three cases share: the FAT is sized by the clusters that fit without it, and the
  -- clusters are counted again behind the two FATs.
  pub regions : ℕ → ℕ → (ℕ → ℕ) → Areas
  regions fat1_start root_sectors fat_bytes =
      let front = u32 (fat1_start + root_sectors) in
      let clusters = sub32 sectors front / spc in
      let fat_sectors = align_to flags spc (sectors_for (u32 (fat_bytes clusters)) bps) in
      let data_start = u32 (front + u32 (fat_sectors * 2)) in
      record {
        fat1_start = fat1_start;
        root_sectors = root_sectors;
        fat_sectors = fat_sectors;
        data_start = data_start;
        clusters = sub32 sectors data_start / spc;
      }

  abbrev pub fat1_start_small : ℕ
  fat1_start_small = if has flags vdf_align_cluster then spc else 1

  abbrev pub fat1_start_fat32 : ℕ
  fat1_start_fat32 = if has flags vdf_align_cluster then align_down (u32 (32 + spc)) spc else 32

  abbrev pub root_sectors_for : ℕ → ℕ
  root_sectors_for root_dir_cnt = align_to flags spc (sectors_for (u32 (root_dir_cnt * 32)) bps)

  pub regions_fat12 : ℕ → Result Areas
  regions_fat12 root_dir_cnt =
      let r = regions fat1_start_small (root_sectors_for root_dir_cnt) (λ c. u32 (c * 3) / 2 + 1) in
      if ltb 4084 r.clusters then err einval else ok r

  pub regions_fat16 : ℕ → Result Areas
  regions_fat16 root_dir_cnt =
      let r = regions fat1_start_small (root_sectors_for root_dir_cnt) (λ c. c * 2) in
      if has flags vdf_fail_warn && ltb r.clusters 4085
      then err einval
      else if ltb r.clusters 4085
      then err einval
      else if ltb 65524 r.clusters
      then err einval
      else ok r

  pub regions_fat32 : Result Areas
  regions_fat32 =
      let r = regions fat1_start_fat32 0 (λ c. c * 4) in
      if has flags vdf_fail_warn && leb r.clusters 65525
      then err einval
      else if ltb r.clusters 65525
      then err einval
      else if ltb (0xfffffef - 2) r.clusters
      then err einval
      else ok r

  pub regions_of : Filesys → ℕ → Result Areas
  unfolding regions_fat12 regions_fat16 regions_fat32
  regions_of fat12 root_dir_cnt = regions_fat12 root_dir_cnt
  regions_of fat16 root_dir_cnt = regions_fat16 root_dir_cnt
  regions_of fat32 root_dir_cnt = regions_fat32

-- What createdrive_ext has found before it touches a drive.
pub record Plan : Type 0 where
  pub filesys : Filesys
  pub bps : ℕ
  pub spc : ℕ
  pub sectors : ℕ
  pub root_dir_cnt : ℕ
  pub areas : Areas

-- `flags & VDF_FS_MASK`
abbrev pub fsys_flag_of : ℕ → ℕ
fsys_flag_of flags = flags % 256

abbrev pub root_entries : DriveExt → ℕ
root_entries ext = if has ext.flags vde_auto_rootent then 512 else ext.root_dir_cnt

-- `size += bps - 1; size &= ~(uint64_t)(bps - 1);`
abbrev pub round_size : ℕ → ℕ → ℕ
round_size size bps = align_down (u64 (size + bps - 1)) bps

pub record FsSpc : Type 0 where
  pub fsys : Filesys
  pub spc : ℕ

-- The two branches on VDE_AUTO_SPC.
pub choose_fsys : ℕ → DriveExt → ℕ → ℕ → Result FsSpc
unfolding fsys_by_size fsys_by_clusters find_spc
choose_fsys flags ext bps size =
    if has ext.flags vde_auto_spc
    then map_ok (λ fsys. record { fsys = fsys; spc = find_spc (ranges_of fsys) size bps })
        (fsys_by_size (fsys_flag_of flags) size)
    else if valid_spc ext.sectors_per_cluster
    then map_ok (λ fsys. record { fsys = fsys; spc = ext.sectors_per_cluster })
        (fsys_by_clusters (fsys_flag_of flags) (u32 (size / (bps * ext.sectors_per_cluster))))
    else err einval

pub plan_drive : ℕ → ℕ → DriveExt → Result Plan
unfolding choose_bps choose_fsys regions_of
plan_drive size flags ext = do
  bps ← choose_bps ext
  let size' = round_size size bps
  let sectors = u32 (size' / bps)
  c ← choose_fsys flags ext bps size'
  r ← regions_of flags bps c.spc sectors c.fsys (root_entries ext)
  ok (record {
    filesys = c.fsys;
    bps = bps;
    spc = c.spc;
    sectors = sectors;
    root_dir_cnt = root_entries ext;
    areas = r;
  })
