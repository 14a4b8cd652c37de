-- ===== src/File/Props.antt =====
-- libvdf/file.c: search, the places of files in their directories, and the names, sizes and attributes
-- of a file.
pub mod Index
use Prim.Native.Nat.{bit_and, bit_or}
use vdf.Prelude.{
  ℕ, zero, suc, ◌+◌, ◌-◌, ◌/◌, ◌^◌, Bool, true, false, not, ◌&&◌, ◌||◌, List, [], ◌∷◌, ◌++◌, Option,
  none, some, map, Result, ok, err, fault, einval, eperm, enomem, eexist, erange, unset, ltb, leb,
  ◌==◌, if◌then◌else◌, u32, has, clear_bit, length, get_elem?,
}
use vdf.Drive.{
  VdfDrive, put_file, file_is_valid, file_is_dir, file_is_real, minus_one, vff_rootdir,
  vff_longname,
}
use vdf.DriveState.{set_drive_dirty}
use vdf.File.Names.{
  filename_valid, find_file_skip, calc_shortname, strcasecmp_eq, toupper, vff_longonly,
}

abbrev pub has_parent : VdfDrive → ℕ → Bool
has_parent drv i = elim (drv.files i).parent [ none ↦ false | some p ↦ true ]

abbrev pub found : Option ℕ → Result ℕ
found none = err unset
found (some i) = ok i

-- vdf_find_file_skip; vdf_find_file is that with nothing to skip.
pub vdf_find_file_skip : VdfDrive → Option ℕ → Option (List ℕ) → ℕ → Option ℕ → Result ℕ
vdf_find_file_skip drv none name flags skip = err einval
vdf_find_file_skip drv (some dir) none flags skip = err einval
vdf_find_file_skip drv (some dir) (some []) flags skip = err einval
vdf_find_file_skip drv (some dir) (some (c ∷ cs)) flags skip =
    if not (file_is_valid drv (some dir) && file_is_dir drv dir)
    then err einval
    else found (find_file_skip drv dir (c ∷ cs) flags skip)

abbrev pub is_separator : ℕ → Bool
is_separator c = c == 47 || c == 92

-- The part of a path in front of its first separator, and what is behind it.
pub split_path : List ℕ → List ℕ × Option (List ℕ)
split_path [] = ([], none)
split_path (c ∷ cs) =
    let (first, rest) = split_path cs in if is_separator c then ([], some cs) else (c ∷ first, rest)

-- Fuel bounds the parts of the path.
pub find_path : ℕ → VdfDrive → ℕ → List ℕ → ℕ → Result ℕ
unfolding split_path
find_path zero drv dir path flags = fault
find_path (suc fuel) drv dir path flags =
    let (first, rest) = split_path path in
    elim rest [
      | none ↦ found (find_file_skip drv dir path flags none)
      | some p ↦ elim (find_file_skip drv dir first flags none) [
        | none ↦ err unset
        | some i ↦ elim (file_is_dir drv i) [
          | true ↦ find_path fuel drv i p flags
          | false ↦ err unset
        ]
      ]
    ]

pub vdf_find_path : VdfDrive → Option ℕ → List ℕ → ℕ → Result ℕ
unfolding find_path
vdf_find_path drv none path flags = err einval
vdf_find_path drv (some dir) path flags =
    if not (file_is_valid drv (some dir) && file_is_dir drv dir)
    then err einval
    else find_path (suc (length path)) drv dir path flags

-- vdf_parent_dir; NULL without an error for the root directory.
pub parent_dir : VdfDrive → ℕ → Result (Option ℕ)
parent_dir drv i = if file_is_valid drv (some i) then ok (drv.files i).parent else err einval

pub dir_count : VdfDrive → ℕ → Result ℕ
dir_count drv dir = if file_is_dir drv dir then ok (drv.files dir).cnt else err einval

-- `index` is not negative.
pub dir_entry : VdfDrive → ℕ → ℕ → Result ℕ
dir_entry drv dir index =
    if not (file_is_dir drv dir && has_parent drv dir)
    then err einval
    else if leb (drv.files dir).cnt index
    then err erange
    else elim (get_elem? (drv.files dir).entries index) [ some i ↦ ok i | none ↦ err erange ]

-- The loop of vdf_get_file_index: the length of the list for a file that is not in it.
pub index_of : ℕ → List ℕ → ℕ
index_of i [] = 0
index_of i (j ∷ js) = if j == i then 0 else suc (index_of i js)

pub get_file_index : VdfDrive → ℕ → Result ℕ
unfolding index_of
get_file_index drv i =
    if not (file_is_valid drv (some i)) then err einval else elim (drv.files i).parent [
      | none ↦ err einval
      | some p ↦ ok (index_of i (drv.files p).entries)
    ]

-- The entries in front of and behind a file; `fault` where it is not in the list.
pub prev_in : Option ℕ → ℕ → List ℕ → Result (Option ℕ)
prev_in before i [] = fault
prev_in before i (j ∷ js) = if j == i then ok before else prev_in (some j) i js

pub next_in : ℕ → List ℕ → Result (Option ℕ)
next_in i [] = fault
next_in i (j ∷ js) = if j == i then ok (get_elem? js 0) else next_in i js

pub file_prev : VdfDrive → ℕ → Result (Option ℕ)
unfolding prev_in
file_prev drv i =
    if not (file_is_valid drv (some i)) then err einval else elim (drv.files i).parent [
      | none ↦ err einval
      | some p ↦ prev_in none i (drv.files p).entries
    ]

pub file_next : VdfDrive → ℕ → Result (Option ℕ)
unfolding next_in
file_next drv i =
    if not (file_is_valid drv (some i))
    then err einval
    else elim (drv.files i).parent [ none ↦ err einval | some p ↦ next_in i (drv.files p).entries ]

-- vdf_get_file_name: the length, and what is written. Without a buffer (`len` is `none`) nothing is
-- written, but for the root directory, whose name is written to it all the same.
pub get_file_name : VdfDrive → ℕ → Option ℕ → Result (ℕ × List ℕ)
get_file_name drv i none =
    if not (file_is_valid drv (some i))
    then err einval
    else if has (drv.files i).flags vff_rootdir
    then fault
    else ok (length (drv.files i).name, [])
get_file_name drv i (some len) =
    if not (file_is_valid drv (some i))
    then err einval
    else if has (drv.files i).flags vff_rootdir
    then ok (0, 0 ∷ [])
    else if len == 0
    then err einval
    else if leb len (length (drv.files i).name)
    then err enomem
    else ok (length (drv.files i).name, (drv.files i).name ++ (0 ∷ []))

pub get_file_shortname : VdfDrive → ℕ → Result (ℕ × List ℕ)
get_file_shortname drv i =
    if not (file_is_valid drv (some i))
    then err einval
    else if has (drv.files i).flags vff_rootdir
    then ok (0, 0 ∷ [])
    else ok (length (drv.files i).shortname, (drv.files i).shortname ++ (0 ∷ []))

-- vdf_set_file_name, which does not test the result of calc_shortname.
unfoldable pub set_file_name : ℕ → VdfDrive → ℕ → Option (List ℕ) → VdfDrive × Result (Unit {0})
set_file_name limit drv i none = (drv, err einval)
set_file_name limit drv i (some name) = elim (drv.files i).parent [
  | none ↦ (drv, err einval)
  | some p ↦
      if not (file_is_valid drv (some i))
      then (drv, err einval)
      else if not (drv.lockcnt == 0)
      then (drv, err eperm)
      else if not (filename_valid (some name))
      then (drv, err einval)
      else elim (find_file_skip drv p name vff_longonly (some i)) [
        | some k ↦ (drv, err eexist)
        | none ↦ (
          set_drive_dirty
              (calc_shortname limit (put_file drv i (record (drv.files i) { name = name })) i p).0,
          ok tt,
        )
      ]
]

-- strchr(name, '.'): what is in front of the first dot, and what is behind it.
pub split_first_dot : List ℕ → List ℕ × Option (List ℕ)
split_first_dot [] = ([], none)
split_first_dot (c ∷ cs) =
    let (first, rest) = split_first_dot cs in if c == 46 then ([], some cs) else (c ∷ first, rest)

-- The tests of vdf_set_file_shortname on the parts of a name.
pub is_8_3 : List ℕ → Bool
unfolding split_first_dot
is_8_3 name =
    let (first, rest) = split_first_dot name in
    elim rest [
      | none ↦ leb (length name) 8
      | some e ↦ leb (length first) 8 && not (length e == 0) && leb (length e) 3
    ]

unfoldable pub set_file_shortname : VdfDrive → ℕ → Option (List ℕ) → VdfDrive × Result (Unit {0})
unfolding is_8_3
set_file_shortname drv i name = elim (drv.files i).parent [
  | none ↦ (drv, err einval)
  | some p ↦
      if not (file_is_valid drv (some i))
      then (drv, err einval)
      else if not (drv.lockcnt == 0)
      then (drv, err eperm)
      else if not (filename_valid name)
      then (drv, err einval)
      else elim name [
        | none ↦ (drv, err einval)
        | some n ↦
            if not (is_8_3 n) then (drv, err einval) else elim (find_file_skip drv p n 0 (some i)) [
              | some k ↦ (drv, err eexist)
              | none ↦
                  let f = drv.files i in
                  let flags =
                    if strcasecmp_eq f.name n then clear_bit f.flags vff_longname else f.flags in
                  (
                    set_drive_dirty
                        (put_file drv i (record f { flags = flags; shortname = map toupper n })),
                    ok tt,
                  )
            ]
      ]
]

pub get_file_size : VdfDrive → ℕ → Result ℕ
get_file_size drv i =
    if file_is_valid drv (some i) && has_parent drv i then ok (drv.files i).size else err einval

-- An int32_t as a size_t.
abbrev pub sign_extend : ℕ → ℕ
sign_extend x = if ltb x (2 ^ 31) then x else x + 2 ^ 64 - 2 ^ 32

-- vdf_set_fat_file_size; `size` is an sfilesz_t, as the word that it is.
unfoldable pub set_fat_file_size : VdfDrive → ℕ → ℕ → VdfDrive × Result (Unit {0})
set_fat_file_size drv i size =
    if not (file_is_valid drv (some i) && has_parent drv i)
    then (drv, err einval)
    else if file_is_real drv i
    then (drv, err einval)
    else if not (drv.lockcnt == 0)
    then (drv, err eperm)
    else if ltb (drv.files i).size size
    then (drv, err einval)
    else let fatclusters =
        if size == minus_one
        then minus_one
        else u32 (sign_extend (u32 (size + drv.bpc - 1)) / drv.bpc) in
      (
        set_drive_dirty
            (put_file drv i (record (drv.files i) { fatsize = size; fatclusters = fatclusters })),
        ok tt,
      )

pub get_fat_file_size : VdfDrive → ℕ → Result ℕ
get_fat_file_size drv i =
    if file_is_valid drv (some i) && has_parent drv i then ok (drv.files i).fatsize else err einval

pub get_file_date : VdfDrive → ℕ → Result ℕ
get_file_date drv i = if file_is_valid drv (some i) then ok (drv.files i).date else err einval

-- ~VFA_USER_ATTR, as a 32-bit word.
abbrev pub not_user_attr : ℕ
not_user_attr = 0xffff_ffd8

-- vdf_set_file_attr. The mask keeps the attributes that are not the user's.
unfoldable pub set_file_attr : VdfDrive → ℕ → ℕ → ℕ → VdfDrive × Result ℕ
set_file_attr drv i attr mask =
    if not (file_is_valid drv (some i))
    then (drv, err einval)
    else if not (drv.lockcnt == 0)
    then (drv, err eperm)
    else let mask' = bit_and mask not_user_attr in
      let attr' = bit_or (bit_and (drv.files i).attr (0xffff_ffff - mask')) (bit_and attr mask') in
      (set_drive_dirty (put_file drv i (record (drv.files i) { attr = attr' })), ok attr')

pub get_file_attr : VdfDrive → ℕ → Result ℕ
get_file_attr drv i = if file_is_valid drv (some i) then ok (drv.files i).attr else err einval
