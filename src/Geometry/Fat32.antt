-- ===== src/Geometry/Fat32.antt =====
-- The areas of a FAT32 drive, whose checks leave room for a wrap on a drive that is too small.
use vdf.Prelude.{ℕ, ◌+◌, ◌-◌, ◌*◌, ◌/◌, ◌^◌, ◌≤◌, ◌<◌, ◌≡◌, true, false, arith, ok, u32, sub32, has}
use vdf.Drive.{vdf_align_cluster}
use vdf.Geometry.{Areas, regions, regions_fat32, align_to, sectors_for, fat1_start_fat32, valid_bps}
use vdf.Geometry.ClusterSize.{is_power}
use vdf.Geometry.Layout.{
  IsLaidOut, fat_bytes-le, of_div_le, div-mul-le, align_to-le, fat_sectors-lt,
}
use vdf.Geometry.Accepted.{bps_bounds, spc_bounds}

div_lt : (y b m : ℕ) → y < m * b → y / b < m
div_lt y b m h = grind arith

le_div : (m y b : ℕ) → 1 ≤ b → m * b ≤ y → m ≤ y / b
le_div m y b k h = grind arith

sectors_for-le : (x bps : ℕ) → 512 ≤ bps → bps ≤ 4096 → x < 2 ^ 32 → sectors_for x bps ≤ x / 512 + 1
unfolding sectors_for
sectors_for-le x bps h k l =
    let y = u32 (x + bps - 1) in
    let a = div-mul-le y bps in
    let b : (x / 512 + 1) * 512 ≤ (x / 512 + 1) * bps = grind arith in
    let c : y / bps < x / 512 + 2 = div_lt y bps (x / 512 + 2) (omega arith) in omega arith

module _ (flags bps spc sectors : ℕ) (bps_ok : valid_bps bps ≡ true) (spc_ok : is_power spc ≡ true)
    (small : sectors < 2 ^ 32) where
  abbrev fat1 : ℕ
  fat1 = fat1_start_fat32 flags bps spc sectors

  abbrev areas : Areas
  areas = regions flags bps spc sectors fat1 0 (λ c. c * 4)

  fat1-le : fat1 ≤ 1024
  fat1-le = let (s, s') = spc_bounds spc spc_ok in ground arith

  in_front :
      fat1 + 4 * spc ≤ sectors
      → (areas.data_start ≤ sectors) × (areas.data_start ≡ fat1 + 2 * areas.fat_sectors)
  unfolding regions
  in_front room =
      let (s, s') = spc_bounds spc spc_ok in
      let (b, b') = bps_bounds bps bps_ok in
      let c0 = sub32 sectors (u32 (fat1 + 0)) / spc in
      let n = sectors_for (u32 (c0 * 4)) bps in
      let d = div-mul-le (sub32 sectors (u32 (fat1 + 0))) spc in
      let four : 4 ≤ c0 =
        le_div 4 (sub32 sectors (u32 (fat1 + 0))) spc s (omega (arith, fat1-le)) in
      let p : c0 - 2 ≤ (c0 - 2) * spc = grind arith in
      omega (
        arith,
        fat1-le,
        align_to-le flags spc n,
        sectors_for-le (u32 (c0 * 4)) bps b b' (omega arith),
      )

  few :
      fat1 + 4 * spc ≤ sectors
      → areas.clusters ≤ 0xfffffed
      → sub32 sectors (u32 (fat1 + 0)) / spc * 4 < 2 ^ 31
  unfolding regions
  few room le =
      let (s, s') = spc_bounds spc spc_ok in
      let (b, b') = bps_bounds bps bps_ok in
      let (i, e) = in_front room in
      let w = sub32 sectors (u32 (fat1 + 0)) in
      let top = of_div_le (sub32 sectors areas.data_start) spc 0xfffffed s le in
      let fs =
        fat_sectors-lt flags bps spc sectors fat1 0 b s s' small fat1-le (omega arith)
          (λ c. c * 4) in
      let wide : w < (0xfffffed + 1) * spc + 2 ^ 25 * spc = grind arith in
      let d = div_lt w spc (0xfffffed + 1 + 2 ^ 25) (omega arith) in omega arith

  laid :
      fat1 + 4 * spc ≤ sectors
      → areas.clusters ≤ 0xfffffed
      → IsLaidOut spc sectors areas × (4 * areas.clusters ≤ areas.fat_sectors * bps)
  unfolding regions
  laid room le =
      let (s, s') = spc_bounds spc spc_ok in
      let (b, b') = bps_bounds bps bps_ok in
      let (i, e) = in_front room in
      let d = div-mul-le (sub32 sectors areas.data_start) spc in
      let c =
        fat_bytes-le flags bps spc sectors fat1 0 b s s' small fat1-le (omega arith) (λ c. c * 4)
          (λ a h. omega arith) (omega arith) (few room le) i b' in
      (omega (arith, fat1-le), omega arith)

  -- A FAT32 drive with room for four clusters behind its boot area, if it is accepted, has from
  -- 65525 to 0xfffffed clusters, its areas lie one behind the other and end inside the drive, and
  -- each FAT has four bytes for each cluster.
  pub regions_fat32_lem :
      fat1 + 4 * spc ≤ sectors
      → {r : Areas} → regions_fat32 flags bps spc sectors ≡ ok r
      → IsLaidOut spc sectors r
        × (65525 ≤ r.clusters)
        × (r.clusters ≤ 0xfffffed)
        × (4 * r.clusters ≤ r.fat_sectors * bps)
  unfolding regions_fat32
  regions_fat32_lem room e = ground (arith, laid room)

-- An explicit FAT32 with 128 sectors to a cluster is accepted on a drive that ends before its first
-- FAT: the number of sectors behind the boot area wraps round.
pub fat32_wraps :
    (flags sectors : ℕ)
    → has flags vdf_align_cluster ≡ false
    → sectors < 32
    → (r : Areas) × (regions_fat32 flags 512 128 sectors ≡ ok r)
      × (sectors < r.data_start)
      × (r.clusters ≡ 33550335)
unfolding regions_fat32 regions align_to sectors_for
fat32_wraps flags sectors h k =
    (regions flags 512 128 sectors 32 0 (λ c. c * 4), ground arith, ground arith, ground arith)
