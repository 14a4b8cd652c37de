-- ===== src/Recalc/Alloc.antt =====
-- The clusters and sectors that file_recalc_offsize gives to the files, one behind the other.
use vdf.Prelude.{
  ℕ, ◌+◌, ◌*◌, ◌^◌, ◌≤◌, ◌<◌, ◌≡◌, ◌≢◌, refl, sym, ◌∙◌, ◌⊎◌, inl, inr, true, List, [], ◌∷◌, arith,
}
use mathlib.Core.Path.{subst}
use vdf.Drive.{VdfDrive, VdfFile}
use vdf.Recalc.{file_recalc_offsize, recalc_offsizes}

-- `i` is not among the files of the list; no file stands twice.
abbrev pub Fresh : ℕ → List ℕ → Type 0
Fresh i [] = Unit {0}
Fresh i (j ∷ js) = (i ≢ j) × Fresh i js

abbrev pub Distinct : List ℕ → Type 0
Distinct [] = Unit {0}
Distinct (i ∷ is) = Fresh i is × Distinct is

-- Every file of the list is of a size that does not wrap: below 4 GiB, at 512 bytes to a sector.
abbrev pub Small : (ℕ → VdfFile) → ℕ → List ℕ → Type 0
Small files spc [] = Unit {0}
Small files spc (i ∷ is) = ((files i).clusters * spc ≤ 2 ^ 24) × Small files spc is

-- From cluster `c` and sector `s` on the files of the list lie one behind the other, each on as many
-- clusters as it has; an empty file has no place. `c'` and `s'` are the ends.
abbrev pub Alloc : (ℕ → VdfFile) → ℕ → ℕ → ℕ → List ℕ → ℕ → ℕ → Type 0
Alloc files spc c s [] c' s' = (c' ≡ c) × (s' ≡ s)
Alloc files spc c s (i ∷ is) c' s' =
    (((files i).size ≡ 0) × ((files i).start ≡ 0) × Alloc files spc c s is c' s')
    ⊎ (((files i).size ≢ 0)
        × ((files i).start ≡ c)
        × ((files i).end ≡ c + (files i).clusters)
        × ((files i).startsect ≡ s)
        × ((files i).endsect ≡ s + (files i).clusters * spc)
        × Alloc files spc (c + (files i).clusters) (s + (files i).clusters * spc) is c' s')

-- One call leaves every other file alone.
step_frame :
    (drv : VdfDrive) (i j : ℕ) → j ≢ i → (file_recalc_offsize drv i).0.files j ≡ drv.files j
unfolding file_recalc_offsize
step_frame drv i j h = ground arith

frame :
    (is : List ℕ) (drv : VdfDrive) (j : ℕ)
    → Fresh j is
    → (recalc_offsizes drv is).0.files j ≡ drv.files j
unfolding recalc_offsizes
frame [] drv j h = refl
frame (i ∷ is) drv j h =
    ground (arith, step_frame drv i j h.0, frame is (file_recalc_offsize drv i).0 j h.1)

-- What one successful call does, where nothing wraps.
record Placed (drv drv' : VdfDrive) (i : ℕ) : Type 0 where
  same_spc : drv'.spc ≡ drv.spc
  same_sectors : drv'.sectors ≡ drv.sectors
  inside : drv'.data_end < drv'.sectors
  size : (drv'.files i).size ≡ (drv.files i).size
  clusters : (drv'.files i).clusters ≡ (drv.files i).clusters
  place :
      (((drv.files i).size ≡ 0)
        × ((drv'.files i).start ≡ 0)
        × (drv'.data_cluster_end ≡ drv.data_cluster_end)
        × (drv'.data_end ≡ drv.data_end))
      ⊎ (((drv.files i).size ≢ 0)
          × ((drv'.files i).start ≡ drv.data_cluster_end)
          × ((drv'.files i).end ≡ drv.data_cluster_end + (drv.files i).clusters)
          × ((drv'.files i).startsect ≡ drv.data_end)
          × ((drv'.files i).endsect ≡ drv.data_end + (drv.files i).clusters * drv.spc)
          × (drv'.data_cluster_end ≡ drv.data_cluster_end + (drv.files i).clusters)
          × (drv'.data_end ≡ drv.data_end + (drv.files i).clusters * drv.spc))

step-Placed :
    (drv : VdfDrive) (i : ℕ)
    → 1 ≤ drv.spc
    → drv.sectors + 2 ^ 24 + 2 ^ 24 ≤ 2 ^ 32
    → drv.data_end < drv.sectors
    → drv.data_cluster_end ≤ drv.data_end + 2
    → (drv.files i).clusters * drv.spc ≤ 2 ^ 24
    → (file_recalc_offsize drv i).1 ≡ true
    → Placed drv (file_recalc_offsize drv i).0 i
unfolding file_recalc_offsize
step-Placed drv i spc room inside c h e =
    let small : (drv.files i).clusters ≤ (drv.files i).clusters * drv.spc = grind arith in
    ground arith

Small-step :
    (drv : VdfDrive) (i spc : ℕ) (js : List ℕ)
    → Fresh i js
    → Small drv.files spc js
    → Small (file_recalc_offsize drv i).0.files spc js
Small-step drv i spc [] f h = tt
Small-step drv i spc (j ∷ js) f h =
    (rw (step_frame drv i j (λ e. f.0 (sym e))) h.0, Small-step drv i spc js f.1 h.1)

-- A file placed first, with the rest behind it.
Alloc-cons :
    (drv drv1 : VdfDrive) (files : ℕ → VdfFile) (i : ℕ) (is : List ℕ) (c' s' : ℕ)
    → Placed drv drv1 i
    → files i ≡ drv1.files i
    → Alloc files drv1.spc drv1.data_cluster_end drv1.data_end is c' s'
    → Alloc files drv.spc drv.data_cluster_end drv.data_end (i ∷ is) c' s'
Alloc-cons drv drv1 files i is c' s' p f rest = elim p.place [
  | inl (z, st, ce, se) ↦ inl (rw f (p.size ∙ z), rw f st, rw (p.same_spc, ce, se) at rest)
  | inr (nz, st, en, ss, es, ce, se) ↦
      let same : (files i).clusters ≡ (drv.files i).clusters = rw f p.clusters in
      inr (
        rw (f, p.size) nz,
        rw f st,
        rw (same, f) en,
        rw f ss,
        rw (same, f) es,
        rw same (rw (p.same_spc, ce, se) at rest),
      )
]

pub recalc-cons :
    (drv : VdfDrive) (i : ℕ) (is : List ℕ)
    → (file_recalc_offsize drv i).1 ≡ true
    → recalc_offsizes drv (i ∷ is) ≡ recalc_offsizes (file_recalc_offsize drv i).0 is
unfolding recalc_offsizes
recalc-cons drv i is h = rw (h, recalc_offsizes)

pub recalc_first :
    (drv : VdfDrive) (i : ℕ) (is : List ℕ)
    → (recalc_offsizes drv (i ∷ is)).1 ≡ true
    → (file_recalc_offsize drv i).1 ≡ true
unfolding recalc_offsizes
recalc_first drv i is h = ground arith

-- When all calls of file_recalc_offsize return 0, the files lie one behind the other from the first
-- cluster and sector on, and the end is inside the drive.
pub recalc_offsizes-Alloc :
    (is : List ℕ) (drv : VdfDrive)
    → Distinct is
    → Small drv.files drv.spc is
    → 1 ≤ drv.spc
    → drv.sectors + 2 ^ 25 ≤ 2 ^ 32
    → drv.data_end < drv.sectors
    → drv.data_cluster_end ≤ drv.data_end + 2
    → (recalc_offsizes drv is).1 ≡ true
    → let drv' = (recalc_offsizes drv is).0 in
      Alloc drv'.files drv.spc drv.data_cluster_end drv.data_end is drv'.data_cluster_end
        drv'.data_end
      × (drv'.data_end < drv.sectors)
unfolding recalc_offsizes
recalc_offsizes-Alloc [] drv d small spc room inside c e = ((refl, refl), inside)
recalc_offsizes-Alloc (i ∷ is) drv d small spc room inside c e =
    let drv1 = (file_recalc_offsize drv i).0 in
    let first = recalc_first drv i is e in
    let p = step-Placed drv i spc (omega arith) inside c small.0 first in
    let le : (drv.files i).clusters ≤ (drv.files i).clusters * drv.spc = grind arith in
    let bound : drv1.data_cluster_end ≤ drv1.data_end + 2 = ground (arith, p.place) in
    let later : Small drv1.files drv1.spc is =
      rw p.same_spc (Small-step drv i drv.spc is d.0 small.1) in
    let (rest, end) =
      recalc_offsizes-Alloc is drv1 d.1 later (rw p.same_spc spc) (omega (arith, p.same_sectors))
        p.inside bound (rw (recalc-cons drv i is first) at e) in
    subst
      (λ o.
        Alloc o.0.files drv.spc drv.data_cluster_end drv.data_end (i ∷ is) o.0.data_cluster_end
          o.0.data_end
        × (o.0.data_end < drv.sectors))
      (sym (recalc-cons drv i is first))
      (
        Alloc-cons drv drv1 (recalc_offsizes drv1 is).0.files i is _ _ p (frame is drv1 i d.0) rest,
        omega (arith, p.same_sectors),
      )
