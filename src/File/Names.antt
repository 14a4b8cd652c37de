-- ===== src/File/Names.antt =====
-- libvdf/file.c: filename_valid, stuff_dosname, calc_shortname and find_file_skip.
pub mod Search
pub mod Fits
use vdf.Prelude.{
  ℕ, zero, suc, ◌+◌, ◌-◌, ◌/◌, ◌%◌, Bool, true, false, not, ◌&&◌, ◌||◌, List, [], ◌∷◌, ◌++◌, Option,
  none, some, map, leb, ◌==◌, if◌then◌else◌, has, set_bit, clear_bit, length, take, set,
}
use vdf.Drive.{VdfDrive, put_file, vff_longname}
use vdf.DriveState.{set_drive_dirty}

-- The characters / \ : ? * " < > |
abbrev pub bad_chars : List ℕ
bad_chars = 47 ∷ 92 ∷ 58 ∷ 63 ∷ 42 ∷ 34 ∷ 60 ∷ 62 ∷ 124 ∷ []

unfoldable pub elem : ℕ → List ℕ → Bool
elem c [] = false
elem c (d ∷ ds) = (c == d) || elem c ds

pub none_of : List ℕ → List ℕ → Bool
unfolding elem
none_of bad [] = true
none_of bad (c ∷ cs) = not (elem c bad) && none_of bad cs

pub filename_valid : Option (List ℕ) → Bool
unfolding none_of
filename_valid none = false
filename_valid (some []) = false
filename_valid (some (c ∷ cs)) = none_of bad_chars (c ∷ cs)

-- toupper and tolower, in the C locale.
abbrev pub toupper : ℕ → ℕ
toupper c = if leb 97 c && leb c 122 then c - 32 else c

abbrev pub tolower : ℕ → ℕ
tolower c = if leb 65 c && leb c 90 then c + 32 else c

-- The characters + , ; = [ ] " / .
abbrev pub stuffed_chars : List ℕ
stuffed_chars = 43 ∷ 44 ∷ 59 ∷ 61 ∷ 91 ∷ 93 ∷ 34 ∷ 47 ∷ 46 ∷ []

-- What is written for a character: nothing for a blank, else one character.
unfoldable pub stuff_dosname : ℕ → List ℕ
unfolding elem
stuff_dosname c = if c == 32 then [] else if elem c stuffed_chars then 95 ∷ [] else toupper c ∷ []

pub stuff_all : List ℕ → List ℕ
unfolding stuff_dosname
stuff_all [] = []
stuff_all (c ∷ cs) = stuff_dosname c ++ stuff_all cs

-- strrchr(name, '.'): the part before the last dot, and the part behind it; without a dot, the whole.
pub split_last_dot : List ℕ → List ℕ × Option (List ℕ)
split_last_dot [] = ([], none)
split_last_dot (c ∷ cs) =
    let (before, ext) = split_last_dot cs in
    elim ext [
      | some e ↦ (c ∷ before, some e)
      | none ↦ if c == 46 then ([], some cs) else (c ∷ before, none)
    ]

-- The name of the first part of calc_shortname: eight characters, and three behind a dot.
abbrev pub short_base : List ℕ → List ℕ
short_base name = stuff_all (take 8 (split_last_dot name).0)

abbrev pub short_ext : List ℕ → List ℕ
short_ext name = elim (split_last_dot name).1 [ none ↦ [] | some e ↦ 46 ∷ stuff_all (take 3 e) ]

-- The digits that are written, from the last one on: the code writes that of the ten thousands twice.
abbrev pub number_digits : ℕ → List ℕ
number_digits ind =
    (ind % 10 + 48)
    ∷ ((if leb 10 ind then (ind / 10 % 10 + 48) ∷ [] else [])
        ++ (if leb 100 ind then (ind / 100 % 10 + 48) ∷ [] else [])
        ++ (if leb 1000 ind then (ind / 1000 % 10 + 48) ∷ [] else [])
        ++ (if leb 10000 ind then (ind / 10000 % 10 + 48) ∷ [] else [])
        ++ (if leb 10000 ind then (ind / 10000 % 10 + 48) ∷ [] else [])
        ++ (if leb 100000 ind then (ind / 100000 % 10 + 48) ∷ [] else []))

-- `*d-- = c` for each character, and a '~' in front of them.
pub write_back : ℕ → List ℕ → List ℕ → List ℕ
write_back d [] name = set name d 126
write_back d (c ∷ cs) name = write_back (d - 1) cs (set name d c)

pub eq_list : List ℕ → List ℕ → Bool
eq_list [] [] = true
eq_list (a ∷ as') (b ∷ bs) = (a == b) && eq_list as' bs
eq_list [] (b ∷ bs) = false
eq_list (a ∷ as') [] = false

abbrev pub strcasecmp_eq : List ℕ → List ℕ → Bool
strcasecmp_eq a b = eq_list (map tolower a) (map tolower b)

abbrev pub vff_shortonly : ℕ
vff_shortonly = 1

abbrev pub vff_longonly : ℕ
vff_longonly = 2

-- Whether the loop of find_file_skip stops at a file.
abbrev pub matches : VdfDrive → List ℕ → ℕ → ℕ → Bool
matches drv name flags i =
    (not (has flags vff_shortonly) && strcasecmp_eq name (drv.files i).name)
    || (not (has flags vff_longonly) && strcasecmp_eq name (drv.files i).shortname)

abbrev pub is_skipped : Option ℕ → ℕ → Bool
is_skipped none i = false
is_skipped (some k) i = i == k

pub find_entry : VdfDrive → List ℕ → ℕ → Option ℕ → List ℕ → Option ℕ
find_entry drv name flags skip [] = none
find_entry drv name flags skip (i ∷ is) =
    if not (is_skipped skip i) && matches drv name flags i
    then some i
    else find_entry drv name flags skip is

pub find_file_skip : VdfDrive → ℕ → List ℕ → ℕ → Option ℕ → Option ℕ
unfolding find_entry
find_file_skip drv dir name flags skip = find_entry drv name flags skip (drv.files dir).entries

-- The loop over the numbers, from `ind` on with `n` left: the first short name that no other file of
-- the directory has.
pub number_name : VdfDrive → ℕ → ℕ → ℕ → ℕ → ℕ → List ℕ → Option (List ℕ)
unfolding find_file_skip write_back
number_name drv file dir dp zero ind name = none
number_name drv file dir dp (suc n) ind name =
    let name' = write_back dp (number_digits ind) name in
    elim (find_file_skip drv dir name' vff_shortonly (some file)) [
      | none ↦ some name'
      | some k ↦ number_name drv file dir dp n (ind + 1) name'
    ]

abbrev put_short : VdfDrive → ℕ → List ℕ → ℕ → VdfDrive
put_short drv i short flags =
    set_drive_dirty (put_file drv i (record (drv.files i) { shortname = short; flags = flags }))

-- `limit` is 999999 in the code. The parent is that of vdf_parent_dir. The result tells whether a short
-- name was found.
unfoldable pub calc_shortname : ℕ → VdfDrive → ℕ → ℕ → VdfDrive × Bool
unfolding stuff_all number_name
calc_shortname limit drv i dir =
    let f = drv.files i in
    let base = short_base f.name in
    let short = base ++ short_ext f.name in
    if eq_list short f.name
    then (put_short drv i short (clear_bit f.flags vff_longname), true)
    else if leb 8 (length base)
    then elim (number_name drv i dir (length base - 1) limit 1 short) [
      | none ↦ (drv, false)
      | some s ↦ (put_short drv i s (set_bit f.flags vff_longname), true)
    ]
    else (put_short drv i short (set_bit f.flags vff_longname), true)
