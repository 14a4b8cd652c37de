-- ===== src/Dir.antt =====
-- libvdf/read_dir.c: the sectors of a directory, made out of the entries of its files. gmtime() is a
-- parameter. `char` is signed, as on the hosts that the library is built for: a byte of a name from
-- 128 on becomes a code unit from 0xff80 on.
pub mod Entry
pub mod Long
pub mod Names
pub mod Fill
pub mod Listing
pub mod Root
pub mod Stale
pub mod Tests
use vdf.Prelude.{
  ℕ, zero, suc, ◌+◌, ◌-◌, ◌*◌, ◌/◌, ◌%◌, ◌^◌, min, Bool, true, false, ◌&&◌, ◌||◌, List, [], ◌∷◌,
  ◌++◌, Option, none, some, Result, ok, fault, map_ok, ◌>>=◌, ltb, leb, ◌==◌, if◌then◌else◌, u8,
  u32, sub32, le_16, le_32, has, set_bit, length, take, drop, replicate,
}
use vdf.Drive.{VdfDrive, VdfFile, is_fat32, vdf_vfat, vff_longname, vfa_dir}
use vdf.Fat.{memset_zero}
use vdf.Boot.{put, puts}

-- struct tm, as far as it is used.
pub record Tm : Type 0 where
  pub tm_sec : ℕ
  pub tm_min : ℕ
  pub tm_hour : ℕ
  pub tm_mday : ℕ
  pub tm_mon : ℕ
  pub tm_year : ℕ

-- The characters before a '.', eight at most, and what follows them.
pub base_part : ℕ → List ℕ → List ℕ × List ℕ
base_part zero s = ([], s)
base_part (suc n) [] = ([], [])
base_part (suc n) (c ∷ s) =
    let rest = base_part n s in if c == 46 then ([], c ∷ s) else (c ∷ rest.0, rest.1)

abbrev pub ext_part : List ℕ → List ℕ
ext_part [] = []
ext_part (c ∷ s) = if c == 46 then take 3 s else []

-- Blanks behind a part of a name.
abbrev pub pad : ℕ → List ℕ → List ℕ
pad n s = s ++ replicate (n - length s) 32

-- The eleven bytes of a short name, which the checksum is taken of too.
pub short_bytes : List ℕ → List ℕ
unfolding base_part
short_bytes s = let (base, rest) = base_part 8 s in pad 8 base ++ pad 3 (ext_part rest)

abbrev pub chk_step : ℕ → ℕ → ℕ
chk_step chk c = u8 (chk / 2 + chk % 2 * 128 + c)

abbrev pub chk_sum : ℕ → List ℕ → ℕ
chk_sum chk [] = chk
chk_sum chk (c ∷ cs) = chk_sum (chk_step chk c) cs

-- The thirteen code units of an entry of a long name.
abbrev pub code_unit : ℕ → List ℕ
code_unit c = if ltb c 128 then le_16 c else le_16 (65280 + c)

abbrev pub code_units : ℕ → List ℕ → List ℕ
code_units zero s = []
code_units (suc n) [] = 0 ∷ 0 ∷ code_units n []
code_units (suc n) (c ∷ s) = code_unit c ++ code_units n s

-- struct dir_ent_vfat, of which every byte is written.
pub vfat_entry : VdfFile → ℕ → ℕ → List ℕ
vfat_entry f chk seq =
    let s = drop ((seq - 1) * 13) f.name in
    let number = if seq == f.fent_cnt then set_bit (u8 seq) 64 else u8 seq in
    (number ∷ code_units 5 s)
    ++ ((15 ∷ 0 ∷ chk ∷ code_units 6 (drop 5 s)) ++ (0 ∷ 0 ∷ code_units 2 (drop 11 s)))

-- The loop over the entries of a long name, from the number `seq` down. The result says whether
-- `maxcnt` was reached.
pub long_loop : VdfFile → ℕ → ℕ → ℕ → ℕ → ℕ → ℕ → List ℕ → Result (Bool × ℕ × List ℕ)
unfolding vfat_entry
long_loop f chk entnum maxcnt zero e cnt buf = ok (false, cnt, buf)
long_loop f chk entnum maxcnt (suc n) e cnt buf =
    let rest = long_loop f chk entnum maxcnt n (e + 1) in
    elim (ltb e entnum) [
      | true ↦ rest cnt buf
      | false ↦ elim (ltb (length f.name) (n * 13)) [
        | true ↦ fault
        | false ↦ put (0, vfat_entry f chk (suc n)) buf >>= λ b. elim (cnt + 1 == maxcnt) [
          | true ↦ ok (true, cnt + 1, b)
          | false ↦ map_ok (λ r. (r.0, r.1, take 32 b ++ r.2)) (rest (cnt + 1) (drop 32 b))
        ]
      ]
    ]

module _ (gmtime : ℕ → Tm) where
  pub modified_time : VdfFile → List ℕ
  modified_time f =
      let t = gmtime f.date in
      le_16 (t.tm_hour % 32 * 2048 + t.tm_min % 64 * 32 + t.tm_sec / 2 % 32)

  -- The year counts from 1980 and is cut to seven bits.
  abbrev pub dos_year : ℕ → ℕ
  dos_year y = min (y - 80) 127

  pub modified_date : VdfFile → List ℕ
  modified_date f =
      let t = gmtime f.date in
      le_16 (dos_year t.tm_year % 128 * 512 + (t.tm_mon + 1) % 16 * 32 + t.tm_mday % 32)

  -- The bytes of struct dir_ent that are written, in their order, with their offsets.
  abbrev pub create_writes : Bool → VdfFile → List (ℕ × List ℕ)
  create_writes true f =
      (13, (if (gmtime f.date).tm_sec % 2 == 1 then 5 else 0) ∷ [])
      ∷ (14, modified_time f)
      ∷ (16, modified_date f)
      ∷ (18, modified_date f)
      ∷ []
  create_writes false f = (13, 0 ∷ []) ∷ (14, 0 ∷ 0 ∷ []) ∷ (18, 0 ∷ 0 ∷ []) ∷ []

  abbrev pub first_cluster : Bool → VdfFile → ℕ
  first_cluster wide f =
      if f.size == 0
      then 0
      else elim f.parent [ none ↦ if wide then 0 else f.start | some p ↦ f.start ]

  abbrev pub high_cluster : Bool → VdfFile → ℕ
  high_cluster wide f = if wide then first_cluster wide f / 65536 else 0

  abbrev pub dir_ent_writes : Bool → VdfFile → List ℕ → List (ℕ × List ℕ)
  dir_ent_writes wide f name =
      (0, name)
      ∷ (11, u8 f.attr ∷ 0 ∷ [])
      ∷ (22, modified_time f)
      ∷ (24, modified_date f)
      ∷ (create_writes wide f
          ++ ((20, le_16 (high_cluster wide f))
              ∷ (26, le_16 (first_cluster wide f))
              ∷ (28, le_32 (if has f.attr vfa_dir then 0 else f.size))
              ∷ []))

  -- The entry itself, behind the `cnt` entries of the long name.
  pub short_entry : Bool → VdfFile → List ℕ → ℕ → List ℕ → Result (ℕ × List ℕ)
  unfolding modified_time modified_date
  short_entry wide f name cnt buf =
      map_ok (λ r. (cnt + 1, take (32 * cnt) buf ++ r))
        (puts (dir_ent_writes wide f name) (drop (32 * cnt) buf))

  abbrev pub after_long : Bool → VdfFile → List ℕ → Bool × ℕ × List ℕ → Result (ℕ × List ℕ)
  after_long wide f name (true, cnt, buf) = ok (cnt, buf)
  after_long wide f name (false, cnt, buf) = short_entry wide f name cnt buf

  -- The number of entries written, and the buffer. An `entnum` before the file is as good as none.
  pub fill_dirent : VdfDrive → List ℕ → VdfFile → ℕ → ℕ → Option (List ℕ) → Result (ℕ × List ℕ)
  unfolding long_loop short_entry short_bytes
  fill_dirent drv buffer f entnum maxcnt (some name) =
      short_entry (is_fat32 drv.filesys) f (pad 11 name) 0 buffer
  fill_dirent drv buffer f entnum maxcnt none =
      let name = short_bytes f.shortname in
      elim (has drv.flags vdf_vfat && has f.flags vff_longname) [
        | false ↦ short_entry (is_fat32 drv.filesys) f name 0 buffer
        | true ↦
            long_loop f (chk_sum 0 name) (entnum - f.fent_start) maxcnt f.fent_cnt 0 0 buffer
            >>= after_long (is_fat32 drv.filesys) f name
      ]

  -- The loop over the files of a directory, with room for `mx` entries. A count above it, which only
  -- comes of a read of no sectors, ends in a memset() behind the buffer.
  pub fill_entries : VdfDrive → ℕ → List ℕ → ℕ → List ℕ → Result (List ℕ)
  unfolding fill_dirent
  fill_entries drv ent [] mx buf = memset_zero (mx * 32) buf
  fill_entries drv ent (i ∷ is) mx buf =
      let f = drv.files i in
      let rest = fill_entries drv ent is in
      elim (leb (f.fent_start + f.fent_cnt + 1) ent) [
        | true ↦ rest mx buf
        | false ↦ fill_dirent drv buf f ent mx none >>= λ r.
            (if ltb mx r.0
              then fault
              else if mx == r.0
              then ok r.1
              else map_ok (λ b. take (r.0 * 32) r.1 ++ b) (rest (mx - r.0) (drop (r.0 * 32) r.1)))
      ]

  -- '.' and '..', or nothing in the root directory.
  pub dot_entries : VdfDrive → VdfFile → List ℕ → Result (ℕ × List ℕ)
  dot_entries drv dir buffer = elim dir.parent [
    | none ↦ ok (0, buffer)
    | some p ↦ fill_dirent drv buffer dir 0 1 (some (46 ∷ [])) >>= λ r.
        map_ok (λ s. (2, take 32 r.1 ++ s.1))
          (fill_dirent drv (drop 32 r.1) (drv.files p) 0 1 (some (46 ∷ 46 ∷ [])))
  ]

  -- `ent` and `mx` are ints, and given by their 32 bits. A negative `ent` lies before every entry, and
  -- a negative `mx` is never used up: it ends in a memset() behind any buffer.
  abbrev pub int_lt : ℕ → ℕ → Bool
  int_lt ent n = leb (2 ^ 31) ent || ltb ent n

  abbrev pub int_place : ℕ → ℕ
  int_place ent = if ltb ent (2 ^ 31) then ent else 0

  -- The entries from `ent` on, behind the `i` that are there.
  abbrev pub read_entries : VdfDrive → VdfFile → ℕ → ℕ → ℕ × List ℕ → Result (List ℕ)
  read_entries drv dir ent scnt (i, buf) =
      let mx = sub32 scnt i in
      if ltb mx (2 ^ 31)
      then map_ok (λ b. take (i * 32) buf ++ b)
          (if int_lt ent dir.dir_fent_cnt
            then fill_entries drv (int_place ent) dir.entries mx (drop (i * 32) buf)
            else memset_zero (mx * 32) (drop (i * 32) buf))
      else fault

  pub read_sector_dir : VdfDrive → ℕ → ℕ → List ℕ → ℕ → Result (List ℕ)
  unfolding fill_entries dot_entries
  read_sector_dir drv sector scnt buffer i =
      let dir = drv.files i in
      let room = u32 (scnt * drv.dirent_per_sector) in
      if sector == 0
      then (dot_entries drv dir buffer >>= λ r. read_entries drv dir r.0 room r)
      else read_entries drv dir (u32 (sector * (drv.bps / 32))) room (0, buffer)
