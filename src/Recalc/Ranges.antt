-- ===== src/Recalc/Ranges.antt =====
-- vdf_drive_recalc as a whole: the files get their places, and the ranges are the chain of them.
use vdf.Prelude.{
  ℕ, ◌+◌, ◌^◌, ◌≤◌, ◌<◌, ◌≡◌, refl, ◌∙◌, true, List, [], ◌∷◌, ok, arith, ◌==◌, if◌then◌else◌,
}
use mathlib.Core.Path.{subst}
use vdf.Drive.{VdfDrive, FileRange}
use vdf.Recalc.{file_recalc_offsize, recalc_offsizes, fill_ranges, sort_ranges}
use vdf.Recalc.Alloc.{Alloc, Small, Distinct, recalc_offsizes-Alloc, recalc-cons, recalc_first}
use vdf.Recalc.Order.{Ordered, Chain-Ordered}
use vdf.Recalc.Chain.{Chain, Populated, count_nonempty, fill_ranges-Chain, sort_ranges-Chain}

-- What file_recalc_offsize leaves alone in every file, and in the drive.
pub record SameShape (drv drv' : VdfDrive) : Type 0 where
  pub size : (j : ℕ) → (drv'.files j).size ≡ (drv.files j).size
  pub clusters : (j : ℕ) → (drv'.files j).clusters ≡ (drv.files j).clusters
  pub attr : (j : ℕ) → (drv'.files j).attr ≡ (drv.files j).attr
  pub flags : (j : ℕ) → (drv'.files j).flags ≡ (drv.files j).flags
  pub spc : drv'.spc ≡ drv.spc
  pub all_files : drv'.all_files ≡ drv.all_files
  pub drive_flags : drv'.flags ≡ drv.flags
  pub file_cnt : drv'.file_cnt ≡ drv.file_cnt
  pub bps : drv'.bps ≡ drv.bps
  pub data_start : drv'.data_start ≡ drv.data_start

-- The fields of the drive itself that a step keeps.
step-bps : (drv : VdfDrive) (i : ℕ) → (file_recalc_offsize drv i).0.bps ≡ drv.bps
unfolding file_recalc_offsize
step-bps drv i = ground arith

step-data_start :
    (drv : VdfDrive) (i : ℕ) → (file_recalc_offsize drv i).0.data_start ≡ drv.data_start
unfolding file_recalc_offsize
step-data_start drv i = ground arith

step-SameShape : (drv : VdfDrive) (i : ℕ) → SameShape drv (file_recalc_offsize drv i).0
unfolding file_recalc_offsize
step-SameShape drv i = record {
  size = λ j. ground arith;
  clusters = λ j. ground arith;
  attr = λ j. ground arith;
  flags = λ j. ground arith;
  spc = ground arith;
  all_files = ground arith;
  drive_flags = ground arith;
  file_cnt = ground arith;
  bps = step-bps drv i;
  data_start = step-data_start drv i;
}

SameShape-trans : {a b c : VdfDrive} → SameShape a b → SameShape b c → SameShape a c
SameShape-trans p q = record {
  size = λ j. q.size j ∙ p.size j;
  clusters = λ j. q.clusters j ∙ p.clusters j;
  attr = λ j. q.attr j ∙ p.attr j;
  flags = λ j. q.flags j ∙ p.flags j;
  spc = q.spc ∙ p.spc;
  all_files = q.all_files ∙ p.all_files;
  drive_flags = q.drive_flags ∙ p.drive_flags;
  file_cnt = q.file_cnt ∙ p.file_cnt;
  bps = q.bps ∙ p.bps;
  data_start = q.data_start ∙ p.data_start;
}

pub recalc_offsizes-SameShape :
    (is : List ℕ) (drv : VdfDrive)
    → (recalc_offsizes drv is).1 ≡ true
    → SameShape drv (recalc_offsizes drv is).0
recalc_offsizes-SameShape [] drv e =
    unfold recalc_offsizes in
    record {
      size = λ j. refl;
      clusters = λ j. refl;
      attr = λ j. refl;
      flags = λ j. refl;
      spc = refl;
      all_files = refl;
      drive_flags = refl;
      file_cnt = refl;
      bps = refl;
      data_start = refl;
    }
recalc_offsizes-SameShape (i ∷ is) drv e =
    let first = recalc_first drv i is e in
    rw (recalc-cons drv i is first) (
      SameShape-trans (step-SameShape drv i) (
        recalc_offsizes-SameShape is (file_recalc_offsize drv i).0
          (rw (recalc-cons drv i is first) at e)))

pub count-SameShape :
    {a b : VdfDrive}
    → SameShape a b
    → (is : List ℕ) → count_nonempty b.files is ≡ count_nonempty a.files is
count-SameShape p [] = refl
count-SameShape p (i ∷ is) = rw (p.size i, count-SameShape p is)

step-count :
    (drv : VdfDrive) (i : ℕ)
    → (file_recalc_offsize drv i).0.nonempty_file_cnt
      ≡ drv.nonempty_file_cnt + (if (drv.files i).size == 0 then 0 else 1)
unfolding file_recalc_offsize
step-count drv i = ground arith

pub count-recalc :
    (is : List ℕ) (drv : VdfDrive)
    → (recalc_offsizes drv is).1 ≡ true
    → (recalc_offsizes drv is).0.nonempty_file_cnt
      ≡ drv.nonempty_file_cnt + count_nonempty drv.files is
count-recalc [] drv e = unfold recalc_offsizes in omega arith
count-recalc (i ∷ is) drv e =
    let first = recalc_first drv i is e in
    let drv1 = (file_recalc_offsize drv i).0 in
    let rest = count-recalc is drv1 (rw (recalc-cons drv i is first) at e) in
    rw (recalc-cons drv i is first)
      (omega (arith, rest, step-count drv i, count-SameShape (step-SameShape drv i) is))

pub Populated-SameShape :
    {a b : VdfDrive} → SameShape a b → (is : List ℕ) → Populated a is → Populated b is
Populated-SameShape p [] h = tt
Populated-SameShape p (i ∷ is) h = (
  rw (p.size i, p.clusters i) h.0,
  rw (p.size i, p.attr i, p.flags i) h.1,
  Populated-SameShape p is h.2,
)

pub Small-SameShape :
    {a b : VdfDrive} (spc : ℕ)
    → SameShape a b
    → (is : List ℕ) → Small a.files spc is
    → Small b.files spc is
Small-SameShape spc p [] h = tt
Small-SameShape spc p (i ∷ is) h = (rw (p.clusters i) h.0, Small-SameShape spc p is h.1)

module _ (drv : VdfDrive) (distinct : Distinct drv.all_files)
    (small : Small drv.files drv.spc drv.all_files) (populated : Populated drv drv.all_files)
    (spc_ge : 1 ≤ drv.spc) (room : drv.sectors ≤ 2 ^ 31) (cluster : drv.data_cluster_end ≡ 2)
    (count : drv.nonempty_file_cnt ≡ 0) (start_in : drv.data_end < drv.sectors)
    (done : (recalc_offsizes drv drv.all_files).1 ≡ true) where
  abbrev pub placed : VdfDrive
  placed = (recalc_offsizes drv drv.all_files).0

  -- If the files of the drive are distinct, none is so large that its sectors wrap, each with a size
  -- has a cluster and each directory a size, and the data begins inside a drive of 2 ^ 31 sectors at
  -- most, then once every file has been given its place, the array of ranges is filled without a write
  -- behind its end; for cmp_filerange each range comes before all that follow it, none of which comes
  -- before it, so that no sort changes the array; and the ranges lie one behind the other from cluster
  -- 2 and the first data sector to the end of the data, which is inside the drive. The places of the
  -- files do so too.
  pub recalc_offsizes-Chain :
      (rs : List FileRange) × (fill_ranges placed placed.nonempty_file_cnt placed.all_files ≡ ok rs)
      × (sort_ranges rs ≡ rs)
      × Ordered rs
      × Chain drv.spc 2 drv.data_end rs placed.data_cluster_end placed.data_end
      × Alloc placed.files drv.spc 2 drv.data_end drv.all_files placed.data_cluster_end
          placed.data_end
      × (placed.data_end < drv.sectors)
  recalc_offsizes-Chain =
      let shape = recalc_offsizes-SameShape drv.all_files drv done in
      let (alloc, end) =
        recalc_offsizes-Alloc drv.all_files drv distinct small spc_ge (omega arith) start_in
          (omega arith) done in
      let alloc' : Alloc placed.files drv.spc 2 drv.data_end drv.all_files placed.data_cluster_end
          placed.data_end =
        subst
          (λ c.
            Alloc placed.files drv.spc c drv.data_end drv.all_files placed.data_cluster_end
              placed.data_end)
          cluster alloc in
      let (rs, filled, chain, le, short) =
        fill_ranges-Chain drv.all_files placed placed.nonempty_file_cnt 2 drv.data_end
          placed.data_cluster_end placed.data_end
          (Populated-SameShape shape drv.all_files populated)
          (rw shape.spc (Small-SameShape drv.spc shape drv.all_files small))
          (omega (arith, count-recalc drv.all_files drv done, count-SameShape shape drv.all_files))
          (omega arith) (rw shape.spc alloc') in
      let chain' : Chain drv.spc 2 drv.data_end rs placed.data_cluster_end placed.data_end =
        rw shape.spc at chain in
      (
        rs,
        rw shape.all_files filled,
        (sort_ranges-Chain rs drv.spc _ _ _ _ chain' (omega arith) short).0,
        Chain-Ordered rs drv.spc _ _ _ _ spc_ge chain' (omega arith),
        chain',
        alloc',
        end,
      )
