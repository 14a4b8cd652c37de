-- ===== src/Geometry/PlanDrive.antt =====
-- createdrive_ext up to the point where it touches a drive: what an accepted plan satisfies.
use vdf.Prelude.{
  ℕ, ◌+◌, ◌*◌, ◌/◌, ◌^◌, ◌≤◌, ◌<◌, ◌≡◌, refl, Bool-cases, inl, inr, true, arith, Result, ok, err,
  fault, u32, has, bind-eq-ok, map_ok,
}
use mathlib.Core.Path.{subst}
use vdf.Drive.{Filesys, fat12, fat16, fat32}
use vdf.Geometry.{
  Areas, DriveExt, FsSpc, Plan, choose_bps, choose_fsys, regions_of, plan_drive, valid_bps,
  valid_spc, round_size, root_entries, fsys_by_size, fsys_by_clusters, find_spc, ranges_of,
  fat1_start_fat32, fsys_flag_of, vde_auto_spc,
}
use vdf.Geometry.ClusterSize.{is_power, find_spc-is_power}
use vdf.Geometry.Layout.{IsLaidOut}
use vdf.Geometry.Accepted.{regions_fat12_lem, regions_fat16_lem}
use vdf.Geometry.Fat32.{regions_fat32_lem}

choose_bps-valid : (ext : DriveExt) {bps : ℕ} → choose_bps ext ≡ ok bps → valid_bps bps ≡ true
unfolding choose_bps
choose_bps-valid ext e = ground arith

map_ok-eq-ok :
    {A B : Type 0} (f : A → B) (m : Result A) {b : B} → map_ok f m ≡ ok b → (a : A) × (f a ≡ b)
map_ok-eq-ok f (ok a) e = (a, cc)
map_ok-eq-ok f (err x) e = cc
map_ok-eq-ok f fault e = cc

choose_fsys-is_power :
    (flags : ℕ) (ext : DriveExt) (bps size : ℕ) (c : FsSpc)
    → valid_bps bps ≡ true
    → choose_fsys flags ext bps size ≡ ok c
    → is_power c.spc ≡ true
unfolding choose_fsys
choose_fsys-is_power flags ext bps size c h e = elim (Bool-cases (has ext.flags vde_auto_spc)) [
  | inl auto ↦
      let (f, q) =
        map_ok-eq-ok (λ fsys. record { fsys = fsys; spc = find_spc (ranges_of fsys) size bps })
          (fsys_by_size (fsys_flag_of flags) size) (rw auto at e) in
      ground (arith, find_spc-is_power f size bps h)
  | inr given ↦ elim (Bool-cases (valid_spc ext.sectors_per_cluster)) [
    | inl valid ↦
        let (f, q) =
          map_ok-eq-ok (λ fsys. record { fsys = fsys; spc = ext.sectors_per_cluster })
            (fsys_by_clusters (fsys_flag_of flags) (u32 (size / (bps * ext.sectors_per_cluster))))
            (rw (given, valid) at e) in
        ground arith
    | inr bad ↦ let n = rw (given, bad) at e in cc
  ]
]

-- What the areas of each filesystem satisfy.
abbrev pub Accepted : Filesys → ℕ → ℕ → ℕ → Areas → Type 0
Accepted fat12 bps spc sectors r =
    IsLaidOut spc sectors r × (r.clusters ≤ 4084) × (3 * r.clusters / 2 < r.fat_sectors * bps)
Accepted fat16 bps spc sectors r =
    IsLaidOut spc sectors r
    × (4085 ≤ r.clusters)
    × (r.clusters ≤ 65524)
    × (2 * r.clusters ≤ r.fat_sectors * bps)
Accepted fat32 bps spc sectors r =
    IsLaidOut spc sectors r
    × (65525 ≤ r.clusters)
    × (r.clusters ≤ 0xfffffed)
    × (4 * r.clusters ≤ r.fat_sectors * bps)

regions_of-Accepted :
    (f : Filesys) (flags bps spc sectors n : ℕ) (r : Areas)
    → valid_bps bps ≡ true
    → is_power spc ≡ true
    → sectors < 2 ^ 32
    → (f ≡ fat32 → fat1_start_fat32 flags bps spc sectors + 4 * spc ≤ sectors)
    → regions_of flags bps spc sectors f n ≡ ok r
    → Accepted f bps spc sectors r
unfolding regions_of
regions_of-Accepted fat12 flags bps spc sectors n r b s small room e =
    regions_fat12_lem flags bps spc sectors n b s small e
regions_of-Accepted fat16 flags bps spc sectors n r b s small room e =
    regions_fat16_lem flags bps spc sectors n b s small e
regions_of-Accepted fat32 flags bps spc sectors n r b s small room e =
    regions_fat32_lem flags bps spc sectors b s small (room refl) e

-- The statement below as a predicate on the plan, for the proof.
abbrev Sound : ℕ → Plan → Type 0
Sound flags p =
    (p.filesys ≡ fat32 → fat1_start_fat32 flags p.bps p.spc p.sectors + 4 * p.spc ≤ p.sectors)
    → (valid_bps p.bps ≡ true)
      × (is_power p.spc ≡ true)
      × (p.sectors < 2 ^ 32)
      × Accepted p.filesys p.bps p.spc p.sectors p.areas

ok-injective : {A : Type 0} {a b : A} → ok a ≡ ok b → a ≡ b
ok-injective e = cc

-- If createdrive_ext finds a plan for a drive, for any size, flags and extended parameters, then
-- its sector size is one of the four that are allowed, its cluster is a power of two of sectors up to
-- 512, its sector count is below 2 ^ 32, its boot area, FATs, root directory and clusters lie one
-- behind the other inside the drive, its cluster count is one that the filesystem allows, and a FAT
-- has the bytes of all the clusters. For FAT32 this is under the condition that the drive has room
-- for four clusters behind its boot area.
pub plan_drive-IsSound :
    (size flags : ℕ) (ext : DriveExt) (p : Plan)
    → plan_drive size flags ext ≡ ok p
    → (p.filesys ≡ fat32 → fat1_start_fat32 flags p.bps p.spc p.sectors + 4 * p.spc ≤ p.sectors)
    → (valid_bps p.bps ≡ true)
      × (is_power p.spc ≡ true)
      × (p.sectors < 2 ^ 32)
      × Accepted p.filesys p.bps p.spc p.sectors p.areas
unfolding plan_drive
plan_drive-IsSound size flags ext p e =
    let (bps, e1, e2) = bind-eq-ok (choose_bps ext) _ e in
    let size' = round_size size bps in
    let (c, e3, e4) = bind-eq-ok (choose_fsys flags ext bps size') _ e2 in
    let sectors = u32 (size' / bps) in
    let (r, e5, e6) =
      bind-eq-ok (regions_of flags bps c.spc sectors c.fsys (root_entries ext)) _ e4 in
    let b = choose_bps-valid ext e1 in
    let s = choose_fsys-is_power flags ext bps size' c b e3 in
    subst (Sound flags) (ok-injective e6) (λ room. (
      b,
      s,
      omega arith,
      regions_of-Accepted c.fsys flags bps c.spc sectors (root_entries ext) r b s (omega arith) room
          e5,
    ))
