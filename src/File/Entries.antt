-- ===== src/File/Entries.antt =====
-- libvdf/file.c: creation, deletion, move and search of files, and the entries of directories. The list
-- heads of the code are lists of file numbers here.
use vdf.Prelude.{
  ℕ, suc, zero, length, ◌+◌, ◌-◌, ◌/◌, Bool, true, false, not, ◌&&◌, List, [], ◌∷◌, ◌++◌, Option,
  none, some, Result, ok, err, fault, einval, eperm, enospc, eexist, unset, map_ok, ◌==◌,
  if◌then◌else◌, u32, has, set_bit,
}
use vdf.Drive.{
  VdfDrive, VdfFile, is_fat32, put_file, drive_is_valid, file_is_valid, file_is_dir, file_is_real,
  minus_one, vff_rootdir, vff_virt, vff_deleted, vfa_dir, vfa_attribute, default_drive_serial,
  vdf_deleted,
}
use vdf.DriveState.{remove, set_drive_dirty, set_plan}
use vdf.Geometry.{plan_drive, DriveExt}
use vdf.File.Names.{filename_valid, find_file_skip, calc_shortname, vff_longonly}

-- The file as memset leaves it, with the fields that create_file sets.
abbrev pub fresh_file : Option ℕ → List ℕ → VdfFile
fresh_file parent name = record {
  name = name;
  shortname = [];
  flags = 0;
  attr = vfa_attribute;
  parent = parent;
  date = 0;
  size = 0;
  clusters = 0;
  fatsize = minus_one;
  fatclusters = minus_one;
  start = 0;
  end = 0;
  data_end = 0;
  startsect = 0;
  endsect = 0;
  fent_start = 0;
  fent_cnt = 0;
  path = [];
  cback = 0;
  entries = [];
  cnt = 0;
  dir_fent_cnt = 0;
}

-- The tests of create_file on the parent and the name, in their order.
abbrev pub root_is_full : VdfDrive → ℕ → Bool
root_is_full drv p =
    not (is_fat32 drv.filesys)
    && has (drv.files p).flags vff_rootdir
    && ((drv.files p).cnt == drv.root_dir_cnt)

unfoldable pub check_new : VdfDrive → ℕ → List ℕ → Result (Unit {0})
check_new drv p name =
    if has (drv.files p).flags vff_deleted
    then err einval
    else if not (drv.lockcnt == 0)
    then err eperm
    else if not (file_is_dir drv p)
    then err einval
    else if root_is_full drv p
    then err enospc
    else if not (filename_valid (some name))
    then err einval
    else elim (find_file_skip drv p name 0 none) [ some k ↦ err eexist | none ↦ ok tt ]

abbrev pub link : VdfDrive → ℕ → ℕ → List ℕ → VdfDrive
link drv new p name =
    let drv1 = put_file drv new (fresh_file (some p) name) in
    let f = drv1.files p in
    let drv2 = put_file drv1 p (record f { entries = f.entries ++ (new ∷ []); cnt = f.cnt + 1 }) in
    set_drive_dirty
      (record drv2 { all_files = drv2.all_files ++ (new ∷ []); file_cnt = drv2.file_cnt + 1 })

-- exit_err: the file leaves the lists, and the counts stay as they are.
abbrev unlink_new : VdfDrive → ℕ → ℕ → VdfDrive
unlink_new drv new p =
    let f = drv.files p in
    let drv1 = put_file drv p (record f { entries = remove new f.entries }) in
    record drv1 { all_files = remove new drv1.all_files }

abbrev pub named : ℕ → ℕ → VdfDrive × Bool → VdfDrive × Result ℕ
named new p (drv, true) = (drv, ok new)
named new p (drv, false) = (unlink_new drv new p, err unset)

-- create_file with a parent and a name.
unfoldable pub create_file : ℕ → VdfDrive → ℕ → ℕ → List ℕ → VdfDrive × Result ℕ
unfolding check_new
create_file limit drv new p name = elim (check_new drv p name) [
  | fault ↦ (drv, fault)
  | err e ↦ (drv, err e)
  | ok u ↦ named new p (calc_shortname limit (link drv new p name) new p)
]

abbrev pub as_dir : VdfDrive × Result ℕ → VdfDrive × Result ℕ
as_dir (drv, ok i) =
    let f = drv.files i in
    (put_file drv i (record f { attr = set_bit f.attr vfa_dir; cnt = 0; entries = [] }), ok i)
as_dir (drv, err e) = (drv, err e)
as_dir (drv, fault) = (drv, fault)

unfoldable pub create_dir : ℕ → VdfDrive → ℕ → ℕ → List ℕ → VdfDrive × Result ℕ
unfolding create_file
create_dir limit drv new p name = as_dir (create_file limit drv new p name)

-- create_root_dir; the name is "ROOT".
pub create_root_dir : VdfDrive → ℕ → VdfDrive
create_root_dir drv new =
    let f = record (fresh_file none (82 ∷ 79 ∷ 79 ∷ 84 ∷ [])) {
      flags = vff_rootdir;
      attr = set_bit vfa_attribute vfa_dir;
    } in
    let drv1 = put_file (record drv { root_dir = new }) new f in
    if is_fat32 drv.filesys
    then record drv1 { all_files = drv1.all_files ++ (new ∷ []); file_cnt = drv1.file_cnt + 1 }
    else drv1

-- vdf_drive_create_ext: `zeroed` is the drive as memset leaves it, with its lists empty.
pub drive_create_ext : VdfDrive → ℕ → ℕ → ℕ → DriveExt → Result VdfDrive
unfolding create_root_dir
drive_create_ext zeroed new size flags ext =
    map_ok
      (λ p.
        create_root_dir (record (set_plan zeroed flags p) { serial = default_drive_serial }) new)
      (plan_drive size flags ext)

-- vdf_set_file_date, which the code does not test for an error where it creates files.
unfoldable pub set_file_date : VdfDrive → ℕ → ℕ → VdfDrive × Result (Unit {0})
set_file_date drv i date =
    if not (file_is_valid drv (some i))
    then (drv, err einval)
    else if not (drv.lockcnt == 0)
    then (drv, err eperm)
    else (set_drive_dirty (put_file drv i (record (drv.files i) { date = date })), ok tt)

-- The clusters of a size: `size += bpc - 1; size /= bpc;` on a filesz_t.
abbrev pub clusters_for : ℕ → ℕ → ℕ
clusters_for bpc size = u32 (size + bpc - 1) / bpc

unfoldable pub set_file_size : VdfDrive → ℕ → ℕ → VdfDrive × Result (Unit {0})
set_file_size drv i size = elim (drv.files i).parent [
  | none ↦ (drv, err einval)
  | some p ↦
      if not (file_is_valid drv (some i))
      then (drv, err einval)
      else if file_is_real drv i
      then (drv, err einval)
      else if not (drv.lockcnt == 0)
      then (drv, err eperm)
      else (
        set_drive_dirty (
            put_file drv i
              (record (drv.files i) { size = size; clusters = clusters_for drv.bpc size })),
        ok tt,
      )
]

-- `now` is time(NULL).
abbrev pub dated : ℕ → VdfDrive × Result ℕ → VdfDrive × Result ℕ
dated now (drv, ok i) = ((set_file_date drv i now).0, ok i)
dated now (drv, err e) = (drv, err e)
dated now (drv, fault) = (drv, fault)

unfoldable pub add_dir : ℕ → VdfDrive → ℕ → Option ℕ → Option (List ℕ) → ℕ → VdfDrive × Result ℕ
unfolding create_dir set_file_date
add_dir limit drv new none name now = (drv, err einval)
add_dir limit drv new (some p) none now = (drv, err einval)
add_dir limit drv new (some p) (some name) now = dated now (create_dir limit drv new p name)

-- What stat tells of a regular file: its size and st_ctime. `none` is any other outcome.
abbrev pub sized : ℕ × ℕ → List ℕ → VdfDrive × Result ℕ → VdfDrive × Result ℕ
sized st path (drv, ok i) =
    let drv1 =
      put_file drv i (record (drv.files i) {
        size = u32 st.0;
        clusters = u32 ((st.0 + drv.bpc - 1) / drv.bpc);
      }) in
    let drv2 = (set_file_date drv1 i st.1).0 in
    (put_file drv2 i (record (drv2.files i) { path = path }), ok i)
sized st path (drv, err e) = (drv, err e)
sized st path (drv, fault) = (drv, fault)

-- The name of a path: what is behind its last '/'.
unfoldable pub base_name : List ℕ → List ℕ → List ℕ
base_name acc [] = acc
base_name acc (c ∷ cs) = if c == 47 then base_name cs cs else base_name acc cs

unfoldable pub add_file_real :
    (List ℕ → Result (ℕ × ℕ))
    → ℕ
    → VdfDrive
    → ℕ
    → Option ℕ
    → Option (List ℕ)
    → Option (List ℕ)
    → VdfDrive × Result ℕ
unfolding create_file set_file_date base_name
add_file_real stat limit drv new none name path = (drv, err einval)
add_file_real stat limit drv new (some p) name none = (drv, err einval)
add_file_real stat limit drv new (some p) name (some path) = elim (stat path) [
  | fault ↦ (drv, fault)
  | err e ↦ (drv, err e)
  | ok st ↦
      let n : List ℕ = elim name [ some s ↦ s | none ↦ base_name path path ] in
      sized st path (create_file limit drv new p n)
]

abbrev pub virtual : ℕ → ℕ → ℕ → VdfDrive × Result ℕ → VdfDrive × Result ℕ
virtual len cback now (drv, ok i) =
    let f = drv.files i in
    let drv1 = put_file drv i (record f { flags = set_bit f.flags vff_virt; cback = cback }) in
    ((set_file_date (set_file_size drv1 i (u32 len)).0 i now).0, ok i)
virtual len cback now (drv, err e) = (drv, err e)
virtual len cback now (drv, fault) = (drv, fault)

unfoldable pub add_file_virt :
    ℕ → VdfDrive → ℕ → Option ℕ → Option (List ℕ) → ℕ → ℕ → ℕ → VdfDrive × Result ℕ
unfolding create_file set_file_size set_file_date
add_file_virt limit drv new none name len cback now = (drv, err einval)
add_file_virt limit drv new (some p) none len cback now = (drv, err einval)
add_file_virt limit drv new (some p) (some name) len cback now =
    virtual len cback now (create_file limit drv new p name)

-- The loop over a list of files.
abbrev delete_each :
    (VdfDrive → ℕ → VdfDrive × Result (Unit {0})) → VdfDrive → List ℕ → VdfDrive × Result (Unit {0})
delete_each delete drv [] = (drv, ok tt)
delete_each delete drv (i ∷ is) =
    let (drv', r) = delete drv i in
    elim r [ ok u ↦ delete_each delete drv' is | err e ↦ (drv', err e) | fault ↦ (drv', fault) ]

-- The first statements of delete_file.
abbrev pub marked_deleted : VdfDrive → ℕ → VdfDrive
marked_deleted drv i =
    let f = drv.files i in
    record (put_file drv i (record f { flags = set_bit f.flags vff_deleted })) {
      file_cnt = drv.file_cnt - 1;
      all_files = remove i drv.all_files;
    }

-- delete_file, with `fuel` for the depth. The loop is over the entries of the parent, as the code has
-- it, and needs a parent. The free of the path of a real file changes no state.
unfoldable pub delete_fuel : ℕ → VdfDrive → ℕ → VdfDrive × Result (Unit {0})
unfolding remove
delete_fuel zero drv i = (drv, fault)
delete_fuel (suc fuel) drv i =
    let drv' = marked_deleted drv i in
    elim (file_is_dir drv' i) [
      | true ↦ elim (drv'.files i).parent [
        | none ↦ (drv', fault)
        | some p ↦ delete_each (delete_fuel fuel) drv' (drv'.files p).entries
      ]
      | false ↦ (drv', ok tt)
    ]

-- As many calls inside each other as there are files would do.
unfoldable pub delete_file : VdfDrive → ℕ → VdfDrive × Result (Unit {0})
unfolding delete_fuel
delete_file drv i = delete_fuel (suc (length drv.all_files)) drv i

abbrev pub unlink : VdfDrive → ℕ → ℕ → VdfDrive
unlink drv i p = let f = drv.files p in put_file drv p (record f { entries = remove i f.entries })

-- vdf_delete_file
unfoldable pub vdf_delete_file : VdfDrive → ℕ → VdfDrive × Result (Unit {0})
unfolding delete_file
vdf_delete_file drv i =
    if not (file_is_valid drv (some i))
    then (drv, err einval)
    else if i == drv.root_dir
    then (drv, err einval)
    else if not (drv.lockcnt == 0)
    then (drv, err eperm)
    else elim (drv.files i).parent [
      | none ↦ (drv, fault)
      | some p ↦ delete_file (set_drive_dirty (unlink drv i p)) i
    ]

-- vdf_drive_free, without the transports: the root directory is deleted, and the drive is marked.
pub drive_free : VdfDrive → VdfDrive × Result (Unit {0})
unfolding delete_file
drive_free drv =
    if not (drive_is_valid drv)
    then (drv, err einval)
    else let (drv1, r) = delete_file drv drv.root_dir in
      (record drv1 { ranges = none; label = none; flags = set_bit drv1.flags vdf_deleted }, r)

abbrev relink : VdfDrive → ℕ → ℕ → ℕ → VdfDrive
relink drv i p q =
    let f = drv.files p in
    let drv1 = put_file drv p (record f { entries = remove i f.entries; cnt = f.cnt - 1 }) in
    let g = drv1.files q in
    let drv2 = put_file drv1 q (record g { entries = i ∷ g.entries; cnt = g.cnt + 1 }) in
    put_file drv2 i (record (drv2.files i) { parent = some q })

abbrev pub shortened : VdfDrive × Bool → VdfDrive × Result (Unit {0})
shortened (drv, true) = (drv, ok tt)
shortened (drv, false) = (drv, err unset)

-- vdf_move_file, between directories of one drive.
unfoldable pub move_file : ℕ → VdfDrive → ℕ → ℕ → VdfDrive × Result (Unit {0})
unfolding remove
move_file limit drv i q = elim (drv.files i).parent [
  | none ↦ (drv, err einval)
  | some p ↦
      if not (file_is_valid drv (some i) && file_is_valid drv (some q))
      then (drv, err einval)
      else if not (file_is_dir drv q)
      then (drv, err einval)
      else if not (drv.lockcnt == 0)
      then (drv, err eperm)
      else if p == q
      then (drv, ok tt)
      else elim (find_file_skip drv q (drv.files i).name vff_longonly none) [
        | some k ↦ (drv, err eexist)
        | none ↦ shortened (calc_shortname limit (set_drive_dirty (relink drv i p q)) i q)
      ]
]
