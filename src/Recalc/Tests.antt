-- ===== src/Recalc/Tests.antt =====
-- vdf_drive_recalc on the sample drive.
use vdf.Prelude.{◌+◌, ◌<◌, ◌≡◌, refl, inl, inr, List, ok, true, arith}
use vdf.Drive.{VdfDrive, FileRange}
use vdf.Recalc.{fill_ranges, sort_ranges, recalc_offsizes, file_recalc_offsize}
use vdf.Recalc.Alloc.{Alloc, Distinct, Small}
use vdf.Recalc.Chain.{Chain, Populated}
use vdf.Recalc.Order.{Ordered}
use vdf.Recalc.Ranges.{recalc_offsizes-Chain}
use vdf.Samples.{unplaced}

abbrev pub placed : VdfDrive
placed = (recalc_offsizes unplaced unplaced.all_files).0

pub distinct : Distinct unplaced.all_files
distinct = ((λ e. ground arith, tt), (tt, tt))

pub small : Small unplaced.files unplaced.spc unplaced.all_files
small = (omega arith, (omega arith, tt))

pub populated : Populated unplaced unplaced.all_files
populated = (inr (omega arith), inl refl, (inr (omega arith), inl refl, tt))

pub done : (recalc_offsizes unplaced unplaced.all_files).1 ≡ true
unfolding recalc_offsizes file_recalc_offsize
done = refl

pub below : placed.data_cluster_end + 1 < 4294967296
unfolding recalc_offsizes file_recalc_offsize
below = omega arith

recalc_offsizes-Chain_example :
    (rs : List FileRange) × (fill_ranges placed placed.nonempty_file_cnt placed.all_files ≡ ok rs)
    × (sort_ranges rs ≡ rs)
    × Ordered rs
    × Chain unplaced.spc 2 unplaced.data_end rs placed.data_cluster_end placed.data_end
    × Alloc placed.files unplaced.spc 2 unplaced.data_end unplaced.all_files placed.data_cluster_end
        placed.data_end
    × (placed.data_end < unplaced.sectors)
recalc_offsizes-Chain_example =
    recalc_offsizes-Chain unplaced distinct small populated (omega arith) (omega arith) refl refl
      (omega arith) done
