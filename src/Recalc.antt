-- ===== src/Recalc.antt =====
-- The recalculation of a drive: vdf_drive_recalc of libvdf/drive.c, and fents_needed, dir_recalc,
-- file_recalc_dir and file_recalc_offsize of libvdf/file.c.
pub mod Alloc
pub mod Chain
pub mod Order
pub mod Ranges
pub mod Clean
pub mod Tests
use vdf.Prelude.{
  ℕ, zero, suc, ◌+◌, ◌-◌, ◌*◌, ◌/◌, ◌^◌, Bool, true, false, ◌||◌, not, List, [], ◌∷◌, none, some,
  Result, ok, err, fault, map_ok, einval, eperm, unset, leb, ◌==◌, if◌then◌else◌, u32, sub32, has,
  clear_bit, length,
}
use vdf.Drive.{
  VdfDrive, FileRange, is_fat32, put_file, drive_is_valid, file_is_dir, minus_one, vdf_vfat,
  vdf_dirty, vff_longname,
}

-- The number of extra entries that the long name of a file takes in its directory.
pub fents_needed : VdfDrive → ℕ → ℕ
fents_needed drv i =
    if not (has drv.flags vdf_vfat)
    then 0
    else if not (has (drv.files i).flags vff_longname)
    then 0
    else length (drv.files i).name / 13 + 1

abbrev recalc_in : VdfDrive → ℕ → ℕ → VdfDrive
recalc_in drv i p =
    let start = (drv.files p).dir_fent_cnt in
    let cnt = fents_needed drv i in
    let drv' = put_file drv i (record (drv.files i) { fent_start = start; fent_cnt = cnt }) in
    put_file drv' p (record (drv'.files p) { dir_fent_cnt = start + (cnt + 1) })

pub file_recalc_dir : VdfDrive → ℕ → VdfDrive
unfolding fents_needed
file_recalc_dir drv i = elim (drv.files i).parent [ none ↦ drv | some p ↦ recalc_in drv i p ]

-- The entries that a directory holds before its files: '.' and '..', or the label of the drive.
abbrev pub first_fents : VdfDrive → ℕ → ℕ
first_fents drv i = elim (drv.files i).parent [
  | none ↦ elim drv.label [ none ↦ 0 | some l ↦ 1 ]
  | some p ↦ 2
]

abbrev set_fent_cnt : VdfDrive → ℕ → VdfDrive
set_fent_cnt drv i = put_file drv i (record (drv.files i) { dir_fent_cnt = first_fents drv i })

-- After the loop: the size of the directory, and its own place in its parent.
abbrev size_dir : VdfDrive → ℕ → VdfDrive
size_dir drv i =
    let f = drv.files i in
    let size = u32 (f.dir_fent_cnt * 32) in
    put_file drv i (record f { size = size; clusters = u32 (size + drv.bpc - 1) / drv.bpc })

abbrev place_dir : VdfDrive → ℕ → VdfDrive
place_dir drv i = elim (drv.files i).parent [
  | none ↦ if is_fat32 drv.filesys then file_recalc_dir drv i else drv
  | some p ↦ file_recalc_dir drv i
]

-- The loop over the entries of a directory, with `dir_recalc` for those that are directories.
pub recalc_entries : (VdfDrive → ℕ → Result VdfDrive) → VdfDrive → List ℕ → Result VdfDrive
recalc_entries dir drv [] = ok drv
recalc_entries dir drv (i ∷ is) = elim (file_is_dir drv i) [
  | true ↦ elim (dir drv i) [ ok drv' ↦ recalc_entries dir drv' is | err e ↦ err e | fault ↦ fault ]
  | false ↦ recalc_entries dir (file_recalc_dir drv i) is
]

-- Fuel bounds the depth of the directories; `fault` without fuel.
pub dir_recalc : ℕ → VdfDrive → ℕ → Result VdfDrive
unfolding recalc_entries file_recalc_dir
dir_recalc zero drv i = fault
dir_recalc (suc fuel) drv i =
    elim (recalc_entries (dir_recalc fuel) (set_fent_cnt drv i) (drv.files i).entries) [
      | ok drv' ↦ ok (place_dir (size_dir drv' i) i)
      | err e ↦ err e
      | fault ↦ fault
    ]

-- The new drive, and whether the call returned 0. The drive keeps what was written before a -1.
pub file_recalc_offsize : VdfDrive → ℕ → VdfDrive × Bool
file_recalc_offsize drv i =
    let f = drv.files i in
    if f.size == 0
    then (put_file drv i (record f { start = 0 }), true)
    else let start = drv.data_cluster_end in
      let end = u32 (start + f.clusters) in
      let data_end = if f.fatclusters == minus_one then end else u32 (start + f.fatclusters) in
      let f' = record f { start = start; end = end; data_end = data_end } in
      let drv' = record (put_file drv i f') {
        nonempty_file_cnt = drv.nonempty_file_cnt + 1;
        data_cluster_end = end;
      } in
      let data_end' = u32 (drv.data_end + u32 (f.clusters * drv.spc)) in
      let placed = record f' { startsect = drv.data_end } in
      if leb drv.sectors drv.data_end
      then (drv', false)
      else if leb drv.sectors data_end'
      then (record (put_file drv' i placed) { data_end = data_end' }, false)
      else (
        record (put_file drv' i (record placed { endsect = data_end' })) { data_end = data_end' },
        true,
      )

pub recalc_offsizes : VdfDrive → List ℕ → VdfDrive × Bool
recalc_offsizes drv [] = (drv, true)
recalc_offsizes drv (i ∷ is) =
    let (drv', done) = file_recalc_offsize drv i in
    elim done [ true ↦ recalc_offsizes drv' is | false ↦ (drv', false) ]

-- The entry of the range list for a file, and whether the file has one.
abbrev pub range_of : VdfDrive → ℕ → FileRange
range_of drv i =
    let f = drv.files i in
    record {
      sectstart = f.startsect;
      sectend = u32 (f.startsect + u32 (f.clusters * drv.spc));
      fatstart = f.start;
      fatend = f.end;
      file = i;
    }

abbrev pub in_ranges : VdfDrive → ℕ → Bool
in_ranges drv i = file_is_dir drv i || not ((drv.files i).size == 0)

-- The loop that fills the array of `n` entries; a write behind its end is a fault.
unfoldable pub fill_ranges : VdfDrive → ℕ → List ℕ → Result (List FileRange)
fill_ranges drv n [] = ok []
fill_ranges drv n (i ∷ is) = elim (in_ranges drv i) [
  | false ↦ fill_ranges drv n is
  | true ↦ elim n [
    | zero ↦ fault
    | suc m ↦ map_ok (λ rs. range_of drv i ∷ rs) (fill_ranges drv m is)
  ]
]

-- cmp_filerange is negative, as an int, or zero: the difference of two uint32_t is at least 2 ^ 31,
-- or 0.
abbrev pub cmp_filerange_le : FileRange → FileRange → Bool
cmp_filerange_le a b = let d = sub32 a.sectstart b.sectstart in d == 0 || leb (2 ^ 31) d

-- qsort, as an insertion sort. Any sort gives the same list where cmp_filerange puts each range
-- before all that follow it in that list.
pub insert_range : FileRange → List FileRange → List FileRange
insert_range r [] = r ∷ []
insert_range r (x ∷ xs) = if cmp_filerange_le r x then r ∷ x ∷ xs else x ∷ insert_range r xs

pub sort_ranges : List FileRange → List FileRange
unfolding insert_range
sort_ranges [] = []
sort_ranges (r ∷ rs) = insert_range r (sort_ranges rs)

abbrev pub start_recalc : VdfDrive → VdfDrive
start_recalc drv = record drv {
  data_end = drv.data_start;
  nonempty_file_cnt = 0;
  data_cluster_end = 2;
}

abbrev pub finish_recalc : VdfDrive × Bool → VdfDrive × Result (Unit {0})
finish_recalc (drv, false) = (drv, err unset)
finish_recalc (drv, true) = elim (fill_ranges drv drv.nonempty_file_cnt drv.all_files) [
  | ok rs ↦
      (record drv { ranges = some (sort_ranges rs); flags = clear_bit drv.flags vdf_dirty }, ok tt)
  | err e ↦ (drv, err e)
  | fault ↦ (drv, fault)
]

-- `fuel` is for the depth of the directories. malloc is taken to succeed (the code does not test it).
pub drive_recalc : ℕ → VdfDrive → VdfDrive × Result (Unit {0})
drive_recalc fuel drv =
    if not (drive_is_valid drv)
    then (drv, err einval)
    else if not (drv.lockcnt == 0)
    then (drv, err eperm)
    else if not (has drv.flags vdf_dirty)
    then (drv, ok tt)
    else elim (dir_recalc fuel (start_recalc drv) drv.root_dir) [
      | ok drv' ↦ finish_recalc (recalc_offsizes drv' drv'.all_files)
      | err e ↦ (drv, err e)
      | fault ↦ (drv, fault)
    ]
