-- ===== src/Data/Recalculated.antt =====
-- The places that vdf_drive_recalc gives to the files are those that read_sector_data expects.
use vdf.Prelude.{
  ℕ, ◌+◌, ◌-◌, ◌*◌, ◌≤◌, ◌<◌, ◌^◌, ◌≡◌, refl, sym, ap, ◌∙◌, inl, inr, List, [], ◌∷◌, true, false,
  arith, ok, some, clear_bit,
}
use mathlib.Core.Path.{subst}
use vdf.Drive.{VdfDrive, VdfFile, FileRange, vdf_dirty}
use vdf.Recalc.{fill_ranges, range_of, in_ranges, recalc_offsizes, finish_recalc}
use vdf.Recalc.Alloc.{Distinct, Small, Alloc}
use vdf.Recalc.Chain.{Populated, count_nonempty, fill_skip, fill_take, fill_ranges-Agree}
use vdf.Recalc.Ranges.{
  SameShape, recalc_offsizes-SameShape, recalc_offsizes-Chain, Populated-SameShape, Small-SameShape,
  count-SameShape,
}
use vdf.Fat.Recalculated.{finish_lem}
use vdf.Data.Found.{Laid}
use vdf.Data.Sectors.{IsLaid}

-- Every file fits into its clusters, and these have 2 ^ 32 bytes at most.
abbrev pub Roomy : (ℕ → VdfFile) → ℕ → ℕ → List ℕ → Type 0
Roomy files spc bps [] = Unit {0}
Roomy files spc bps (i ∷ is) =
    ((files i).size ≤ (files i).clusters * spc * bps)
    × ((files i).clusters * spc * bps ≤ 2 ^ 32)
    × Roomy files spc bps is

Roomy-SameShape :
    {a b : VdfDrive} (spc bps : ℕ)
    → SameShape a b
    → (is : List ℕ) → Roomy a.files spc bps is
    → Roomy b.files spc bps is
Roomy-SameShape spc bps p [] h = tt
Roomy-SameShape spc bps p (i ∷ is) h =
    (rw (p.size i, p.clusters i) h.0, rw (p.clusters i) h.1, Roomy-SameShape spc bps p is h.2)

fill_ranges-Laid :
    (is : List ℕ) (drv : VdfDrive) (n c s c' s' : ℕ) (rs : List FileRange)
    → Populated drv is
    → Small drv.files drv.spc is
    → Roomy drv.files drv.spc drv.bps is
    → 1 ≤ drv.spc
    → s' < 2 ^ 32
    → Alloc drv.files drv.spc c s is c' s'
    → fill_ranges drv n is ≡ ok rs
    → Laid drv.files drv.bps s rs s' × (s ≤ s')
unfolding fill_ranges
fill_ranges-Laid [] drv n c s c' s' [] p sm ro spc top a e = (a.1, omega (arith, a.1))
fill_ranges-Laid [] drv n c s c' s' (r ∷ rs) p sm ro spc top a e = cc
fill_ranges-Laid (i ∷ is) drv n c s c' s' rs (cl, sized, p) sm ro spc top (inl (z, st, a)) e =
    let empty : in_ranges drv i ≡ false = ground arith in
    fill_ranges-Laid is drv n c s c' s' rs p sm.1 ro.2 spc top a
      (sym (fill_skip drv n i is empty) ∙ e)
fill_ranges-Laid (i ∷ is) drv n c s c' s' rs (cl, sized, p) sm ro spc top
      (inr (nz, st, en, ss, es, a)) e =
    let listed : in_ranges drv i ≡ true = ground arith in
    let (m, rest, filled, cons) = fill_take drv n i is rs listed e in
    let len = (drv.files i).clusters * drv.spc in
    let (laid, le) = fill_ranges-Laid is drv m _ _ c' s' rest p sm.1 ro.2 spc top a filled in
    let se : (range_of drv i).sectend ≡ s + len = omega arith in
    let width : s + len - s ≡ len = omega arith in
    let has_cluster : 1 ≤ (drv.files i).clusters = ground arith in
    let some : 1 ≤ len = grind arith in
    subst (λ rs. Laid drv.files drv.bps s rs s' × (s ≤ s')) cons
      (
        (ss, es ∙ sym se, omega arith, rw (se, width) ro.0, rw (se, width) ro.1, rw se laid),
        omega arith,
      )

-- If the files of the drive are distinct, none is so large that its sectors wrap, each with a size
-- has a cluster and each directory a size, each fits into its clusters, of 2 ^ 32 bytes at most, no
-- file is empty, the data begins inside a drive of 2 ^ 31 sectors at most, and every file could be given a place,
-- then the last steps of vdf_drive_recalc succeed, and leave the files one behind the other in the
-- sectors from the start of the data to its end, as read_sector_data expects them: as many ranges as
-- files, which agree with the places of their files.
pub finish_recalc-IsLaid :
    (drv : VdfDrive)
    → Distinct drv.all_files
    → Small drv.files drv.spc drv.all_files
    → Populated drv drv.all_files
    → Roomy drv.files drv.spc drv.bps drv.all_files
    → 1 ≤ drv.spc
    → 1 ≤ drv.bps
    → drv.sectors ≤ 2 ^ 31
    → drv.data_cluster_end ≡ 2
    → drv.nonempty_file_cnt ≡ 0
    → drv.data_end ≡ drv.data_start
    → drv.data_end < drv.sectors
    → drv.file_cnt ≡ count_nonempty drv.files drv.all_files
    → (recalc_offsizes drv drv.all_files).1 ≡ true
    → let done = finish_recalc (recalc_offsizes drv drv.all_files) in
      (done.1 ≡ ok tt) × IsLaid done.0
finish_recalc-IsLaid drv distinct small populated roomy spc_ge bps_ge room cluster count start
      start_in files done =
    let placed = (recalc_offsizes drv drv.all_files).0 in
    let shape = recalc_offsizes-SameShape drv.all_files drv done in
    let (rs, filled, sorted, order, chain, alloc, end) =
      recalc_offsizes-Chain drv distinct small populated spc_ge room cluster count start_in done in
    let populated' : Populated placed drv.all_files =
      Populated-SameShape shape drv.all_files populated in
    let filled' : fill_ranges placed placed.nonempty_file_cnt drv.all_files ≡ ok rs =
      rw shape.all_files at filled in
    let (agree, len) =
      fill_ranges-Agree drv.all_files placed placed.nonempty_file_cnt rs populated' filled' in
    let roomy' : Roomy placed.files placed.spc placed.bps drv.all_files =
      rw (shape.spc, shape.bps) (Roomy-SameShape drv.spc drv.bps shape drv.all_files roomy) in
    let small' : Small placed.files placed.spc drv.all_files =
      rw shape.spc (Small-SameShape drv.spc shape drv.all_files small) in
    let (laid, le) =
      fill_ranges-Laid drv.all_files placed placed.nonempty_file_cnt 2 drv.data_end
        placed.data_cluster_end placed.data_end rs populated' small' roomy' (rw shape.spc spc_ge)
        (omega arith) (rw shape.spc alloc) filled' in
    let first : drv.data_end ≡ placed.data_start = start ∙ sym shape.data_start in
    let e : finish_recalc (recalc_offsizes drv drv.all_files)
        ≡ (record placed { ranges = some rs; flags = clear_bit placed.flags vdf_dirty }, ok tt) =
      ap (λ b. finish_recalc (placed, b)) done ∙ finish_lem placed rs filled sorted in
    subst (λ r. (r.1 ≡ ok tt) × IsLaid r.0) (sym e)
      (
        refl,
        record {
          count = shape.file_cnt ∙ files ∙ sym (count-SameShape shape drv.all_files) ∙ sym len;
          laid = subst (λ s. Laid placed.files placed.bps s rs placed.data_end) first laid;
          some = rw shape.bps bps_ge;
          small = omega arith;
        },
      )
