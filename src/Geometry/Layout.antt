-- ===== src/Geometry/Layout.antt =====
-- Where the areas of a new drive lie.
use vdf.Prelude.{ℕ, ◌+◌, ◌-◌, ◌*◌, ◌/◌, ◌^◌, ◌≤◌, ◌<◌, ◌≡◌, arith, u32, sub32}
use native.Mathlib.Nat.{mod-lt}
use vdf.Geometry.{root_sectors_for, Areas, align_to, sectors_for, regions}

div-lt : (x b : ℕ) → x < 2 ^ 32 → 512 ≤ b → x / b < 2 ^ 23
div-lt x b h k = grind arith

pub of_div_le : (w s m : ℕ) → 1 ≤ s → w / s ≤ m → w < (m + 1) * s
of_div_le w s m h k = grind arith

pub div-mul-le : (w s : ℕ) → w / s * s ≤ w
div-mul-le w s = grind arith

pub div_mono : (a b s : ℕ) → a ≤ b → a / s ≤ b / s
div_mono a b s h = grind arith

pub div_unique : (w s q : ℕ) → q * s ≤ w → w < (q + 1) * s → w / s ≡ q
div_unique w s q h k = grind arith

pub align_to-le : (flags spc x : ℕ) → align_to flags spc x ≤ x + spc
unfolding align_to
align_to-le flags spc x = ground arith

pub sectors_for-lt : (x bps : ℕ) → 512 ≤ bps → sectors_for x bps < 2 ^ 23
unfolding sectors_for
sectors_for-lt x bps h = div-lt (u32 (x + bps - 1)) bps (omega arith) h

-- Rounding up holds what it rounds, while nothing wraps.
align_to-ge : (flags spc x : ℕ) → 1 ≤ spc → x + spc < 2 ^ 32 → x ≤ align_to flags spc x
unfolding align_to
align_to-ge flags spc x h k = ground (arith, mod-lt (u32 (x + spc - 1)) h)

sectors_for-ge : (x bps : ℕ) → 1 ≤ bps → x + bps < 2 ^ 32 → x ≤ sectors_for x bps * bps
unfolding sectors_for
sectors_for-ge x bps h k = grind arith

-- The areas lie one behind the other, and the last data cluster ends inside the drive.
pub record IsLaidOut (spc sectors : ℕ) (r : Areas) : Type 0 where
  pub consecutive : r.data_start ≡ r.fat1_start + 2 * r.fat_sectors + r.root_sectors
  pub room : r.data_start + r.clusters * spc ≤ sectors

module _ (flags bps spc sectors fat1 root : ℕ) (bps_ge : 512 ≤ bps) (spc_ge : 1 ≤ spc)
    (spc_le : spc ≤ 512) (small : sectors < 2 ^ 32) (fat1_le : fat1 ≤ 1024)
    (root_le : root < 2 ^ 23 + 512) where
  module _ (fat_bytes : ℕ → ℕ) where
    abbrev pub areas : Areas
    areas = regions flags bps spc sectors fat1 root fat_bytes

    pub fat_sectors-lt : areas.fat_sectors < 2 ^ 23 + 512
    unfolding regions
    fat_sectors-lt = omega (
      arith,
      align_to-le flags spc
          (sectors_for (u32 (fat_bytes (sub32 sectors (u32 (fat1 + root)) / spc))) bps),
      sectors_for-lt (u32 (fat_bytes (sub32 sectors (u32 (fat1 + root)) / spc))) bps bps_ge,
    )

    pub front_le :
        areas.clusters ≤ 65524
        → (fat1 + root ≤ areas.data_start)
          × (areas.data_start ≤ sectors)
          × (sub32 sectors (u32 (fat1 + root)) / spc < 2 ^ 26)
    unfolding regions
    front_le h =
        let w = sub32 sectors (u32 (fat1 + root)) in
        let lt = of_div_le (sub32 sectors areas.data_start) spc 65524 spc_ge h in
        let q : w / spc ≤ w = grind arith in
        let front : fat1 + root ≤ areas.data_start = omega (arith, fat_sectors-lt) in
        let inside : areas.data_start ≤ sectors = omega (arith, fat_sectors-lt) in
        (front, inside, omega (arith, fat_sectors-lt))

    pub regions-IsLaidOut : areas.clusters ≤ 65524 → IsLaidOut spc sectors areas
    unfolding regions
    regions-IsLaidOut h = omega (
      arith,
      fat_sectors-lt,
      of_div_le (sub32 sectors areas.data_start) spc 65524 spc_ge h,
      div-mul-le (sub32 sectors areas.data_start) spc,
    )

    -- The FAT has the bytes that the clusters counted behind it need, while nothing wraps.
    pub fat_bytes-le :
        ((a : ℕ)
          → a ≤ sub32 sectors (u32 (fat1 + root)) / spc
          → fat_bytes a ≤ fat_bytes (sub32 sectors (u32 (fat1 + root)) / spc))
        → fat1 + root ≤ sectors
        → fat_bytes (sub32 sectors (u32 (fat1 + root)) / spc) < 2 ^ 31
        → areas.data_start ≤ sectors
        → bps ≤ 4096
        → fat_bytes areas.clusters ≤ areas.fat_sectors * bps
    unfolding regions
    fat_bytes-le mono front fits room k =
        let c0 = sub32 sectors (u32 (fat1 + root)) / spc in
        let x = u32 (fat_bytes c0) in
        let n = sectors_for x bps in
        let fewer : areas.clusters ≤ c0 = div_mono _ _ spc (omega (arith, fat_sectors-lt)) in
        let held : n ≤ align_to flags spc n =
          align_to-ge flags spc n spc_ge (omega (arith, sectors_for-lt x bps bps_ge)) in
        let stretched : n * bps ≤ align_to flags spc n * bps = grind arith in
        omega (arith, mono areas.clusters fewer, sectors_for-ge x bps (omega arith) (omega arith))

pub root_sectors_for-lt :
    (flags bps spc sectors n : ℕ)
    → 512 ≤ bps
    → spc ≤ 512
    → root_sectors_for flags bps spc sectors n < 2 ^ 23 + 512
root_sectors_for-lt flags bps spc sectors n h k = omega (
  arith,
  align_to-le flags spc (sectors_for (u32 (n * 32)) bps),
  sectors_for-lt (u32 (n * 32)) bps h,
)
