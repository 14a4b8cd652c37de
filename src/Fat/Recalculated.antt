-- ===== src/Fat/Recalculated.antt =====
-- The ranges that vdf_drive_recalc leaves are those that read_sector_fat expects.
use vdf.Prelude.{
  ℕ, ◌+◌, ◌≤◌, ◌<◌, ◌^◌, ◌≡◌, refl, sym, ap, ◌∙◌, List, [], ◌∷◌, true, length, ok, some, clear_bit,
}
use mathlib.Core.Path.{subst}
use vdf.Drive.{VdfDrive, FileRange, vdf_dirty}
use vdf.Recalc.{fill_ranges, sort_ranges, recalc_offsizes, finish_recalc}
use vdf.Recalc.Alloc.{Distinct, Small}
use vdf.Recalc.Chain.{Chain, Populated, count_nonempty, fill_ranges-Agree}
use vdf.Recalc.Ranges.{
  recalc_offsizes-SameShape, recalc_offsizes-Chain, Populated-SameShape, count-SameShape,
}
use vdf.Fat.Spec.{Chain-Rising}
use vdf.Fat.Sector.{end_of, IsRanged}

end_of-Chain : (rs : List FileRange) (spc c s c' s' : ℕ) → Chain spc c s rs c' s' → end_of c rs ≡ c'
end_of-Chain [] spc c s c' s' h = sym h.0
end_of-Chain (r ∷ rs) spc c s c' s' h = end_of-Chain rs spc r.fatend r.sectend c' s' h.4

-- What finish_recalc makes of files that all have their places.
pub finish_lem :
    (drv : VdfDrive) (rs : List FileRange)
    → fill_ranges drv drv.nonempty_file_cnt drv.all_files ≡ ok rs
    → sort_ranges rs ≡ rs
    → finish_recalc (drv, true)
      ≡ (record drv { ranges = some rs; flags = clear_bit drv.flags vdf_dirty }, ok tt)
finish_lem drv rs filled sorted = rw (finish_recalc, filled, sorted)

-- If the files of the drive are distinct, none is so large that its sectors wrap, each with a size
-- has a cluster and each directory a size, no file is empty, the data begins inside a drive of
-- 2 ^ 31 sectors at most, and every file could be given a place below cluster 2 ^ 32 - 2, then the last steps of
-- vdf_drive_recalc succeed, and they leave ranges from which read_sector_fat makes the right FAT:
-- as many as files, in rising order from cluster 2 to the end of the data, and each tells the end of
-- its file.
pub finish_recalc-IsRanged :
    (drv : VdfDrive)
    → Distinct drv.all_files
    → Small drv.files drv.spc drv.all_files
    → Populated drv drv.all_files
    → 1 ≤ drv.spc
    → drv.sectors ≤ 2 ^ 31
    → drv.data_cluster_end ≡ 2
    → drv.nonempty_file_cnt ≡ 0
    → drv.data_end < drv.sectors
    → drv.file_cnt ≡ count_nonempty drv.files drv.all_files
    → (recalc_offsizes drv drv.all_files).1 ≡ true
    → (recalc_offsizes drv drv.all_files).0.data_cluster_end + 1 < 2 ^ 32
    → let done = finish_recalc (recalc_offsizes drv drv.all_files) in
      (done.1 ≡ ok tt) × IsRanged done.0
finish_recalc-IsRanged drv distinct small populated spc_ge room cluster count start_in files done
      top =
    let placed = (recalc_offsizes drv drv.all_files).0 in
    let shape = recalc_offsizes-SameShape drv.all_files drv done in
    let (rs, filled, sorted, order, chain, alloc, end) =
      recalc_offsizes-Chain drv distinct small populated spc_ge room cluster count start_in done in
    let populated' : Populated placed placed.all_files =
      rw shape.all_files (Populated-SameShape shape drv.all_files populated) in
    let (agree, len) =
      fill_ranges-Agree placed.all_files placed placed.nonempty_file_cnt rs populated' filled in
    let cnt : placed.file_cnt ≡ length rs =
      shape.file_cnt
      ∙ files
      ∙ sym (count-SameShape shape drv.all_files)
      ∙ ap (count_nonempty placed.files) (sym shape.all_files)
      ∙ sym len in
    let e : finish_recalc (recalc_offsizes drv drv.all_files)
        ≡ (record placed { ranges = some rs; flags = clear_bit placed.flags vdf_dirty }, ok tt) =
      ap (λ b. finish_recalc (placed, b)) done ∙ finish_lem placed rs filled sorted in
    subst (λ r. (r.1 ≡ ok tt) × IsRanged r.0) (sym e)
      (
        refl,
        record {
          count = cnt;
          rising = Chain-Rising rs drv.spc 2 drv.data_end _ _ chain top;
          ends = end_of-Chain rs drv.spc 2 drv.data_end _ _ chain;
          agree = agree;
        },
      )
