-- ===== src/Geometry/Accepted.antt =====
-- What holds of the areas that createdrive_ext accepts, for each filesystem.
use vdf.Prelude.{
  ℕ, ◌+◌, ◌*◌, ◌/◌, ◌^◌, ◌≤◌, ◌<◌, ◌≡◌, true, false, false, arith, ok, u32, sub32, has,
}
use vdf.Drive.{vdf_align_cluster}
use vdf.Geometry.{
  align_to, sectors_for, Areas, regions, regions_fat12, regions_fat16, root_sectors_for,
  fat1_start_small, valid_bps,
}
use vdf.Geometry.ClusterSize.{is_power}
use vdf.Geometry.Layout.{
  IsLaidOut, div_unique, regions-IsLaidOut, fat_bytes-le, root_sectors_for-lt, front_le,
}

pub bps_bounds : (bps : ℕ) → valid_bps bps ≡ true → (512 ≤ bps) × (bps ≤ 4096)
bps_bounds bps h = ground arith

pub spc_bounds : (spc : ℕ) → is_power spc ≡ true → (1 ≤ spc) × (spc ≤ 512)
spc_bounds spc h = ground arith

module _ (flags bps spc sectors n : ℕ) (bps_ok : valid_bps bps ≡ true)
    (spc_ok : is_power spc ≡ true) (small : sectors < 2 ^ 32) where
  -- FAT12 and FAT16, whose accepted cluster counts exclude a wrap.
  small_areas :
      (fat_bytes : ℕ → ℕ)
      → ((a b : ℕ) → a ≤ b → b < 2 ^ 26 → fat_bytes a ≤ fat_bytes b)
      → ((c : ℕ) → c < 2 ^ 26 → fat_bytes c < 2 ^ 31)
      → let r =
          regions flags bps spc sectors
            (fat1_start_small flags bps spc sectors)
            (root_sectors_for flags bps spc sectors n)
            fat_bytes in
        r.clusters ≤ 65524 → IsLaidOut spc sectors r × (fat_bytes r.clusters ≤ r.fat_sectors * bps)
  small_areas f mono bound le =
      let (b, b') = bps_bounds bps bps_ok in
      let (s, s') = spc_bounds spc spc_ok in
      let root = root_sectors_for flags bps spc sectors n in
      let fat1 = fat1_start_small flags bps spc sectors in
      let root_lt : root < 2 ^ 23 + 512 = root_sectors_for-lt flags bps spc sectors n b s' in
      let fat1_le : fat1 ≤ 1024 = ground arith in
      let r = regions flags bps spc sectors fat1 root f in
      let laid : IsLaidOut spc sectors r =
        regions-IsLaidOut flags bps spc sectors fat1 root b s s' small fat1_le root_lt f le in
      let (front, inside, few) =
        front_le flags bps spc sectors fat1 root b s s' small fat1_le root_lt f le in
      (
        laid,
        fat_bytes-le flags bps spc sectors fat1 root b s s' small fat1_le root_lt f
            (λ a h. mono a _ h few) (omega arith) (bound _ few) inside b',
      )

  -- An accepted FAT12 drive has at most 4084 clusters, its areas lie one behind the other and end
  -- inside the drive, and each FAT has room for three half-byte digits for each cluster.
  pub regions_fat12_lem :
      {r : Areas}
      → regions_fat12 flags bps spc sectors n ≡ ok r
      → IsLaidOut spc sectors r × (r.clusters ≤ 4084) × (3 * r.clusters / 2 < r.fat_sectors * bps)
  unfolding regions_fat12
  regions_fat12_lem e =
      ground (
        arith,
        small_areas (λ c. u32 (c * 3) / 2 + 1) (λ a b h k. omega arith) (λ c h. omega arith),
      )

  -- An accepted FAT16 drive has from 4085 to 65524 clusters, its areas lie one behind the other and
  -- end inside the drive, and each FAT has two bytes for each cluster.
  pub regions_fat16_lem :
      {r : Areas}
      → regions_fat16 flags bps spc sectors n ≡ ok r
      → IsLaidOut spc sectors r
        × (4085 ≤ r.clusters)
        × (r.clusters ≤ 65524)
        × (2 * r.clusters ≤ r.fat_sectors * bps)
  unfolding regions_fat16
  regions_fat16_lem e =
      ground (arith, small_areas (λ c. c * 2) (λ a b h k. omega arith) (λ c h. omega arith))

-- FAT16 at 512 bytes to a sector, without the alignment to clusters, and with at most 128 sectors to
-- a cluster: if the sectors behind the root directory are 256 * k whole clusters, with k from 16 to
-- 255, and a rest of less than a cluster that holds two FATs of k sectors, then the drive is accepted
-- with FATs that lack the bytes of the two reserved entries.
pub fat16_short :
    (flags k spc sectors n extra : ℕ)
    → has flags vdf_align_cluster ≡ false
    → 16 ≤ k
    → k ≤ 255
    → extra < spc
    → spc ≤ 128
    → 2 * k ≤ extra
    → sectors ≡ 1 + root_sectors_for flags 512 spc sectors n + k * 256 * spc + extra
    → (r : Areas) × (regions_fat16 flags 512 spc sectors n ≡ ok r)
      × (r.fat_sectors * 512 < 2 * (r.clusters + 2))
unfolding regions_fat16 regions align_to sectors_for
fat16_short flags k spc sectors n extra al lo hi cut le fats e =
    let root = root_sectors_for flags 512 spc sectors n in
    let r = regions flags 512 spc sectors 1 root (λ c. c * 2) in
    let root_lt = root_sectors_for-lt flags 512 spc sectors n (omega arith) (omega arith) in
    let kk : k * 256 * spc ≤ 255 * 256 * 128 = grind arith in
    let q1 : sub32 sectors (u32 (1 + root)) / spc ≡ k * 256 =
      div_unique _ spc (k * 256) (omega arith) (omega arith) in
    let fs : r.fat_sectors ≡ k = ground arith in
    let q2 : r.clusters ≡ k * 256 = div_unique _ spc (k * 256) (omega arith) (omega arith) in
    (r, ground arith, omega arith)
