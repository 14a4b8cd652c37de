-- ===== src/Geometry/ClusterSize.antt =====
-- How many sectors a cluster has: find_spc over the tables of drive.c.
use vdf.Prelude.{
  ℕ, ◌*◌, ◌/◌, ◌≡◌, refl, ◌⊎◌, inl, inr, Bool, true, false, arith, List, [], ◌∷◌, leb, ◌==◌,
  if◌then◌else◌, ◌&&◌, ◌||◌,
}
use vdf.Drive.{Filesys, fat12, fat16, fat32}
use vdf.Geometry.{find_cluster_size, find_spc, ranges_of, valid_bps, valid_spc, ClusterSizeRange}

-- The powers of two from 1 to 512, and the cluster sizes that they give with sectors of 512 bytes.
abbrev pub is_power : ℕ → Bool
is_power n = valid_spc n || n == 256 || n == 512

abbrev is_cluster_size : ℕ → Bool
is_cluster_size c = is_power (c / 512) && c / 512 * 512 == c

-- `P` holds of each cluster size of an array that ends by a maximal size of 0.
abbrev Ended : (ℕ → Type 0) → List ClusterSizeRange → Type 0
Ended P [] = ⊥
Ended P (r ∷ rs) = P r.cluster_size × ((r.max_size ≡ 0) ⊎ Ended P rs)

find_cluster_size-Ended :
    (P : ℕ → Type 0) (rs : List ClusterSizeRange) (size : ℕ)
    → Ended P rs
    → P (find_cluster_size rs size)
unfolding find_cluster_size
find_cluster_size-Ended P [] size h = absurd h
find_cluster_size-Ended P (r ∷ rs) size (h, inl e) = ground arith
find_cluster_size-Ended P (r ∷ rs) size (h, inr e) =
    ground (arith, find_cluster_size-Ended P rs size e)

abbrev Sized : ℕ → Type 0
Sized c = is_cluster_size c ≡ true

ranges-Ended : (f : Filesys) → Ended Sized (ranges_of f)
ranges-Ended fat12 = (refl, inr (refl, inl refl))
ranges-Ended fat16 = (
  refl,
  inr (
    refl,
    inr (refl, inr (refl, inr (refl, inr (refl, inr (refl, inr (refl, inr (refl, inl refl))))))),
  ),
)
ranges-Ended fat32 = (refl, inr (refl, inr (refl, inr (refl, inr (refl, inl refl)))))

divided :
    (c bps : ℕ)
    → is_cluster_size c ≡ true
    → valid_bps bps ≡ true
    → leb c bps ≡ false
    → is_power (c / bps) ≡ true
divided c bps h k l = ground arith

exact :
    (c bps : ℕ)
    → is_cluster_size c ≡ true
    → valid_bps bps ≡ true
    → leb c bps ≡ false
    → c / bps * bps ≡ c
exact c bps h k l = ground arith

-- For every sector size that the library accepts, the automatic number of sectors per cluster is a
-- power of two up to 512, and a cluster has the size that the table gives, or one sector if that is
-- larger.
pub find_spc-is_power :
    (f : Filesys) (size bps : ℕ)
    → valid_bps bps ≡ true
    → let c = find_cluster_size (ranges_of f) size in
      (is_power (find_spc (ranges_of f) size bps) ≡ true)
      × (find_spc (ranges_of f) size bps * bps ≡ (if leb c bps then bps else c))
unfolding find_spc
find_spc-is_power f size bps h = ground (
  arith,
  divided (find_cluster_size (ranges_of f) size) bps,
  exact (find_cluster_size (ranges_of f) size) bps,
  find_cluster_size-Ended Sized (ranges_of f) size (ranges-Ended f),
)
