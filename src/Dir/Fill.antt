-- ===== src/Dir/Fill.antt =====
-- What fill_dirent of libvdf/read_dir.c writes for a file.
use vdf.Prelude.{
  ℕ, zero, suc, ◌+◌, ◌-◌, ◌*◌, ◌≤◌, ◌<◌, ◌≡◌, refl, sym, ap, ◌∙◌, min, Bool, true, false, ◌&&◌,
  Bool-cases, inl, inr, List, [], ◌∷◌, ◌++◌, append_assoc, none, Result, ok, arith, ◌==◌, length,
  length-drop, length-append, take, drop, drop-drop, take_all, take-append, drop-append, ◌>>=◌, has,
  if◌then◌else◌,
}
use vdf.Drive.{VdfDrive, VdfFile, is_fat32, vdf_vfat, vff_longname}
use vdf.Read.Bytes.Slices.{slice, slice_add, length-slice}
use vdf.Dir.{vfat_entry, Tm, short_bytes, chk_sum, long_loop, short_entry, after_long, fill_dirent}
use vdf.Dir.Entry.{
  entry_bytes, length-entry_bytes, length-short_bytes, length-vfat_entry, short_entry-entry_bytes,
}
use vdf.Dir.Names.{
  parts_down, name_sum, dos_name, long_bytes-parts_down, chk_sum-name_sum, short_bytes-dos_name,
}
use vdf.Dir.Long.{long_bytes, long_loop-long_bytes}

pub length-long_bytes : (f : VdfFile) (chk n : ℕ) → length (long_bytes f chk n) ≡ 32 * n
length-long_bytes f chk zero = refl
length-long_bytes f chk (suc n) = omega (
  arith,
  length-append (vfat_entry f chk (suc n)) (long_bytes f chk n),
  length-vfat_entry f chk (suc n),
  length-long_bytes f chk n,
)

-- A slice of the first of two lists.
pub slice_left :
    (xs ys : List ℕ) (a n : ℕ) → a + n ≤ length xs → slice (xs ++ ys) a n ≡ slice xs a n
slice_left xs ys zero zero h = refl
slice_left [] ys zero (suc n) h = absurd (omega arith)
slice_left [] ys (suc a) n h = absurd (omega arith)
slice_left (x ∷ xs) ys zero (suc n) h = ap (λ r. x ∷ r) (slice_left xs ys zero n (omega arith))
slice_left (x ∷ xs) ys (suc a) n h = slice_left xs ys a n (omega arith)

-- A slice that ends where the two lists end.
pub slice_both :
    (xs ys : List ℕ) (a m k : ℕ)
    → a + m ≡ length xs
    → length ys ≡ k
    → slice (xs ++ ys) a (m + k) ≡ slice xs a m ++ ys
slice_both xs ys a m k h e =
    slice_add (xs ++ ys) a m k (m + k) (a + m) refl refl
    ∙ ap (λ r. r ++ slice (xs ++ ys) (a + m) k) (slice_left xs ys a m (omega arith))
    ∙ ap (λ r. slice xs a m ++ take k r) (drop-append xs ys (a + m) h)
    ∙ ap (λ r. slice xs a m ++ r) (take_all k ys (omega arith))

module _ (gmtime : ℕ → Tm) where
  -- The number of entries that the long name of a file takes.
  abbrev pub long_entries : VdfDrive → VdfFile → ℕ
  long_entries drv f = if has drv.flags vdf_vfat && has f.flags vff_longname then f.fent_cnt else 0

  -- All the entries of a file, as they are written.
  abbrev pub written_entries : VdfDrive → VdfFile → List ℕ → List ℕ
  written_entries drv f old =
      let name = short_bytes f.shortname in
      long_bytes f (chk_sum 0 name) (long_entries drv f)
      ++ entry_bytes gmtime (is_fat32 drv.filesys) f name old

  -- All the entries of a file, apart from the code. Where the last of them goes is `old` before.
  abbrev pub file_entries : VdfDrive → VdfFile → List ℕ → List ℕ
  file_entries drv f old =
      let name = dos_name f.shortname in
      parts_down f (name_sum 0 name) (long_entries drv f)
      ++ entry_bytes gmtime (is_fat32 drv.filesys) f name old

  pub long_entries-few : (drv : VdfDrive) (f : VdfFile) → long_entries drv f ≤ f.fent_cnt
  long_entries-few drv f = go (has drv.flags vdf_vfat && has f.flags vff_longname)
    where
      go : (b : Bool) → (if b then f.fent_cnt else 0) ≤ f.fent_cnt
      go true = omega arith
      go false = omega arith

  pub written_entries-file_entries :
      (drv : VdfDrive) (f : VdfFile) (old : List ℕ)
      → f.fent_cnt < 64
      → written_entries drv f old ≡ file_entries drv f old
  written_entries-file_entries drv f old few =
      let n = long_entries drv f in
      let wide = is_fat32 drv.filesys in
      let with_name : List ℕ → List ℕ =
        λ s. parts_down f (name_sum 0 s) n ++ entry_bytes gmtime wide f s old in
      let name = short_bytes f.shortname in
      ap (λ r. r ++ entry_bytes gmtime wide f name old)
        (long_bytes-parts_down f (chk_sum 0 name) n (long_entries-few drv f) few
          ∙ ap (λ c. parts_down f c n) (chk_sum-name_sum name 0))
      ∙ ap with_name (short_bytes-dos_name f.shortname)

  -- A file without a long name.
  alone :
      (wide : Bool) (f : VdfFile) (name : List ℕ) (maxcnt skip m : ℕ) (buf : List ℕ)
      → length name ≡ 11
      → skip ≡ 0
      → m ≡ 1
      → 32 ≤ length buf
      → short_entry gmtime wide f name 0 buf
        ≡ ok (
          m,
          slice (entry_bytes gmtime wide f name (drop (32 * (0 - skip)) buf)) (32 * skip) (32 * m)
              ++ drop (32 * m) buf,
        )
  alone wide f name maxcnt skip m buf len none_left one room =
      let all =
        take_all 32 (entry_bytes gmtime wide f name buf)
          (omega (arith, length-entry_bytes gmtime wide f name buf len (omega arith))) in
      rw (none_left, one)
        (short_entry-entry_bytes gmtime wide f name 0 buf len (omega arith)
          ∙ ap (λ r. ok (1, r ++ drop 32 buf)) (sym all))

  -- The last entry, behind those of the long name.
  after_all :
      (wide : Bool) (f : VdfFile) (name : List ℕ) (chk cnt skip k m : ℕ) (buf : List ℕ)
      → length name ≡ 11
      → skip + k ≡ cnt
      → m ≡ k + 1
      → 32 * m ≤ length buf
      → short_entry gmtime wide f name k
          (slice (long_bytes f chk cnt) (32 * skip) (32 * k) ++ drop (32 * k) buf)
        ≡ ok (
          m,
          slice
                (long_bytes f chk cnt
                  ++ entry_bytes gmtime wide f name (drop (32 * (cnt - skip)) buf))
                (32 * skip)
                (32 * m)
              ++ drop (32 * m) buf,
        )
  after_all wide f name chk cnt skip k m buf len parts one room =
      let long = long_bytes f chk cnt in
      let front = slice long (32 * skip) (32 * k) in
      let old = drop (32 * k) buf in
      let entry = entry_bytes gmtime wide f name old in
      let front_len : 32 * k ≡ length front =
        sym (length-slice long (32 * skip) (32 * k) (omega (arith, length-long_bytes f chk cnt))) in
      let old_len = length-drop (32 * k) buf in
      let written =
        short_entry-entry_bytes gmtime wide f name k (front ++ old) len
          (omega (arith, front_len, old_len, length-append front old)) in
      let at : 32 * (cnt - skip) ≡ 32 * k = omega arith in
      let sum : k + 1 ≡ m = omega arith in
      let size : 32 * m ≡ 32 * k + 32 = omega arith in
      let both =
        slice_both long entry (32 * skip) (32 * k) 32 (omega (arith, length-long_bytes f chk cnt))
          (length-entry_bytes gmtime wide f name old len (omega (arith, old_len))) in
      let behind : drop (32 * k + 32) (front ++ old) ≡ drop (32 * m) buf =
        sym (drop-drop (32 * k) 32 (32 * k + 32) (front ++ old) refl)
        ∙ ap (drop 32) (drop-append front old (32 * k) front_len)
        ∙ drop-drop (32 * k) 32 (32 * m) buf size in
      let bytes : List ℕ → List ℕ = entry_bytes gmtime wide f name in
      let rest = drop (32 * m) buf in
      written
      ∙ ap
          (λ t. ok (
            k + 1,
            t ++ (bytes (drop (32 * k) (front ++ old)) ++ drop (32 * k + 32) (front ++ old)),
          ))
          (take-append front old (32 * k) front_len)
      ∙ ap (λ b. ok (k + 1, front ++ (bytes b ++ drop (32 * k + 32) (front ++ old))))
          (drop-append front old (32 * k) front_len)
      ∙ ap (λ t. ok (k + 1, front ++ (entry ++ t))) behind
      ∙ ap (λ n. ok (n, front ++ (entry ++ rest))) sum
      ∙ ap (λ t. ok (m, t)) (sym (append_assoc front entry rest))
      ∙ ap (λ t. ok (m, t ++ rest)) (sym both)
      ∙ ap (λ w. ok (m, slice (long ++ entry) (32 * skip) w ++ rest)) (sym size)
      ∙ ap (λ w. ok (m, slice (long ++ bytes (drop w buf)) (32 * skip) (32 * m) ++ rest)) (sym at)

  -- A file with a long name.
  with_long :
      (wide : Bool) (f : VdfFile) (name : List ℕ) (chk maxcnt skip m : ℕ) (buf : List ℕ)
      → length name ≡ 11
      → (f.fent_cnt - 1) * 13 ≤ length f.name
      → skip ≤ f.fent_cnt
      → 1 ≤ maxcnt
      → m ≡ min maxcnt (f.fent_cnt + 1 - skip)
      → 32 * m ≤ length buf
      → (long_loop f chk skip maxcnt f.fent_cnt 0 0 buf >>= after_long gmtime wide f name)
        ≡ ok (
          m,
          slice
                (long_bytes f chk f.fent_cnt
                  ++ entry_bytes gmtime wide f name (drop (32 * (f.fent_cnt - skip)) buf))
                (32 * skip)
                (32 * m)
              ++ drop (32 * m) buf,
        )
  with_long wide f name chk maxcnt skip m buf len long_name skipped some_left h room =
      let k = min maxcnt (f.fent_cnt - skip) in
      let looped =
        long_loop-long_bytes f chk skip maxcnt f.fent_cnt 0 0 k buf long_name some_left
          (omega arith) (omega arith) in
      let long = long_bytes f chk f.fent_cnt in
      let entry = entry_bytes gmtime wide f name (drop (32 * (f.fent_cnt - skip)) buf) in
      let first : ℕ → ℕ → List ℕ = λ n w. slice long (32 * n) (32 * w) ++ drop (32 * w) buf in
      let none_before : skip - 0 ≡ skip = omega arith in
      let none_first : 0 + k ≡ k = omega arith in
      let go_on : Bool × ℕ × List ℕ → Result (ℕ × List ℕ) = after_long gmtime wide f name in
      ap (λ r. r >>= go_on) looped ∙ elim (Bool-cases (k == (maxcnt - 0))) [
        | inl full ↦
            let all : k ≡ m = ground arith in
            ap (λ b. go_on (b, 0 + k, first (skip - 0) k)) full
            ∙ ap (λ n. ok (0 + k, first n k)) none_before
            ∙ ap (λ t. ok (0 + k, t ++ drop (32 * k) buf))
                (sym (
                  slice_left long entry (32 * skip) (32 * k)
                    (omega (arith, length-long_bytes f chk f.fent_cnt))))
            ∙ ap (λ n. ok (n, slice (long ++ entry) (32 * skip) (32 * k) ++ drop (32 * k) buf))
                (none_first ∙ all)
            ∙ ap (λ w. ok (m, slice (long ++ entry) (32 * skip) (32 * w) ++ drop (32 * w) buf)) all
        | inr more ↦
            let short : k < maxcnt = ground arith in
            ap (λ b. go_on (b, 0 + k, first (skip - 0) k)) more
            ∙ ap (λ n. short_entry gmtime wide f name (0 + k) (first n k)) none_before
            ∙ ap (λ c. short_entry gmtime wide f name c (first skip k)) none_first
            ∙ after_all wide f name chk f.fent_cnt skip k m buf len (omega arith) (omega arith) room
      ]

  -- What fill_dirent writes for a file of a directory.
  pub fill_dirent-written_entries :
      (drv : VdfDrive) (buf : List ℕ) (f : VdfFile) (entnum maxcnt : ℕ)
      → (f.fent_cnt - 1) * 13 ≤ length f.name
      → entnum ≤ f.fent_start + long_entries drv f
      → 1 ≤ maxcnt
      → let skip = entnum - f.fent_start in
        let left = long_entries drv f - skip in
        let m = min maxcnt (long_entries drv f + 1 - skip) in
        32 * m ≤ length buf
        → fill_dirent gmtime drv buf f entnum maxcnt none
          ≡ ok (
            m,
            slice (written_entries drv f (drop (32 * left) buf)) (32 * skip) (32 * m)
                ++ drop (32 * m) buf,
          )
  unfolding fill_dirent
  fill_dirent-written_entries drv buf f entnum maxcnt name inside some_left room =
      go (has drv.flags vdf_vfat && has f.flags vff_longname) (omega arith) room
    where
      wide : Bool
      wide = is_fat32 drv.filesys

      short : List ℕ
      short = short_bytes f.shortname

      chk : ℕ
      chk = chk_sum 0 short

      skip : ℕ
      skip = entnum - f.fent_start

      go :
          (long : Bool)
          → let n = if long then f.fent_cnt else 0 in
            let m = min maxcnt (n + 1 - skip) in
            skip ≤ n
            → 32 * m ≤ length buf
            → elim long [
              | false ↦ short_entry gmtime wide f short 0 buf
              | true ↦
                  long_loop f chk skip maxcnt f.fent_cnt 0 0 buf >>= after_long gmtime wide f short
            ]
              ≡ ok (
                m,
                slice
                      (long_bytes f chk n
                        ++ entry_bytes gmtime wide f short (drop (32 * (n - skip)) buf))
                      (32 * skip)
                      (32 * m)
                    ++ drop (32 * m) buf,
              )
      go false le room =
          alone wide f short maxcnt skip (min maxcnt (0 + 1 - skip)) buf
            (length-short_bytes f.shortname) (omega arith) (omega arith) (omega arith)
      go true le room =
          with_long wide f short chk maxcnt skip (min maxcnt (f.fent_cnt + 1 - skip)) buf
            (length-short_bytes f.shortname) name le some_left refl room

  -- fill_dirent for a file of a directory, from the entry `entnum` on, if that is not behind the last
  -- one of the file, the long name has less than 64 entries and is as long as their number says: it
  -- writes the entries of the file that are left, or `maxcnt` of them if they are more, if the buffer
  -- has room for them, and returns their number. They are the bytes of the entries of the long name,
  -- and of the entry of the short name, from that place on; what is behind them stays. The long name
  -- is cut up from its start into parts of thirteen code units, with zeros behind the last one. The
  -- part with the highest number comes first, with 64 added to its number, and part 1 last; each has
  -- the sum of the eleven characters of the short name, rotated right by a bit before each. The short
  -- name is what is before its first dot, in eight characters, and what is behind it, in three. On
  -- FAT12 and FAT16 the bytes of the date of creation are those that lay in the buffer.
  pub fill_dirent-file_entries :
      (drv : VdfDrive) (buf : List ℕ) (f : VdfFile) (entnum maxcnt : ℕ)
      → (f.fent_cnt - 1) * 13 ≤ length f.name
      → f.fent_cnt < 64
      → entnum ≤ f.fent_start + long_entries drv f
      → 1 ≤ maxcnt
      → let skip = entnum - f.fent_start in
        let left = long_entries drv f - skip in
        let m = min maxcnt (long_entries drv f + 1 - skip) in
        32 * m ≤ length buf
        → fill_dirent gmtime drv buf f entnum maxcnt none
          ≡ ok (
            m,
            slice (file_entries drv f (drop (32 * left) buf)) (32 * skip) (32 * m)
                ++ drop (32 * m) buf,
          )
  fill_dirent-file_entries drv buf f entnum maxcnt name few inside some_left room =
      let skip = entnum - f.fent_start in
      let left = long_entries drv f - skip in
      let m = min maxcnt (long_entries drv f + 1 - skip) in
      fill_dirent-written_entries drv buf f entnum maxcnt name inside some_left room
      ∙ ap (λ e. ok (m, slice e (32 * skip) (32 * m) ++ drop (32 * m) buf))
          (written_entries-file_entries drv f (drop (32 * left) buf) few)
