-- ===== src/Dir/Listing.antt =====
-- The entries of all the files of a directory, as the loop of read_sector_dir of libvdf/read_dir.c
-- writes them on FAT32.
use vdf.Prelude.{
  ℕ, zero, suc, ◌+◌, ◌-◌, ◌*◌, ◌≤◌, ◌<◌, ◌≡◌, refl, sym, ap, ◌∙◌, min, Bool, true, Bool-cases, inl,
  inr, List, [], ◌∷◌, ◌++◌, append_assoc, none, Result, ok, arith, leb, ◌==◌, length, length-drop,
  length-append, take, drop, drop-drop, drop_all, take-append, drop-append, map_ok, le→ltb, leb→le,
  ==→eq, ==→ne, replicate,
}
use vdf.Drive.{VdfDrive, VdfFile, is_fat32}
use vdf.Fat.Loop.{memset_zero_lem}
use vdf.Data.Content.{pad, pad-nil, pad_add}
use vdf.Read.Bytes.Slices.{slice, length-slice}
use vdf.Dir.{Tm, fill_dirent, fill_entries}
use vdf.Dir.Entry.{entry_bytes, length-entry_bytes, length-short_bytes}
use vdf.Dir.Names.{parts_down, name_sum, dos_name, long_bytes-parts_down, short_bytes-dos_name}
use vdf.Dir.Fill.{
  long_entries-few, length-long_bytes, slice_left, long_entries, fill_dirent-file_entries,
}

pub pad_within : (n : ℕ) (bytes : List ℕ) → n ≤ length bytes → pad n bytes ≡ take n bytes
pad_within zero bytes h = refl
pad_within (suc n) [] h = absurd (omega arith)
pad_within (suc n) (b ∷ bytes) h = ap (λ r. b ∷ r) (pad_within n bytes (omega arith))

drop_left : (a : ℕ) (xs ys : List ℕ) → a ≤ length xs → drop a (xs ++ ys) ≡ drop a xs ++ ys
drop_left zero xs ys h = refl
drop_left (suc a) [] ys h = absurd (omega arith)
drop_left (suc a) (x ∷ xs) ys h = drop_left a xs ys (omega arith)

module _ (gmtime : ℕ → Tm) (drv : VdfDrive) where
  -- The entries of a file, and of the files of a list.
  abbrev pub file_bytes : VdfFile → List ℕ
  file_bytes f =
      let name = dos_name f.shortname in
      parts_down f (name_sum 0 name) (long_entries gmtime drv f)
      ++ entry_bytes gmtime true f name []

  abbrev pub listing : List ℕ → List ℕ
  listing [] = []
  listing (i ∷ is) = file_bytes (drv.files i) ++ listing is

  -- The recalculated places: the entries of the files lie one behind the other, from `start` to
  -- `stop`. A long name has less than 64 entries, and is as long as their number says.
  abbrev pub Placed : ℕ → List ℕ → ℕ → Type 0
  Placed start [] stop = stop ≡ start
  Placed start (i ∷ is) stop =
      ((drv.files i).fent_start ≡ start)
      × ((drv.files i).fent_cnt ≡ long_entries gmtime drv (drv.files i))
      × ((drv.files i).fent_cnt < 64)
      × (((drv.files i).fent_cnt - 1) * 13 ≤ length (drv.files i).name)
      × Placed (start + (drv.files i).fent_cnt + 1) is stop

  length-file_bytes :
      (f : VdfFile) → f.fent_cnt < 64 → length (file_bytes f) ≡ 32 * (long_entries gmtime drv f + 1)
  length-file_bytes f few =
      let n = long_entries gmtime drv f in
      let short = dos_name f.shortname in
      let long = parts_down f (name_sum 0 short) n in
      let some_buf : List ℕ = replicate 18 0 in
      omega (
        arith,
        length-append long (entry_bytes gmtime true f short []),
        ap length
            (long_bytes-parts_down f (name_sum 0 short) n (long_entries-few gmtime drv f) few),
        length-long_bytes f (name_sum 0 short) n,
        length-entry_bytes gmtime true f short some_buf
            (sym (ap length (short_bytes-dos_name f.shortname)) ∙ length-short_bytes f.shortname)
            (omega arith),
      )

  pub length-listing :
      (start stop : ℕ) (is : List ℕ)
      → Placed start is stop
      → length (listing is) + start * 32 ≡ stop * 32
  length-listing start stop [] placed = omega (arith, placed)
  length-listing start stop (i ∷ is) (at, cnt, few, name, placed) = omega (
    arith,
    cnt,
    length-append (file_bytes (drv.files i)) (listing is),
    length-file_bytes (drv.files i) few,
    length-listing (start + (drv.files i).fent_cnt + 1) stop is placed,
  )

  wide_dirent :
      (buf : List ℕ) (f : VdfFile) (ent mx m skip : ℕ)
      → is_fat32 drv.filesys ≡ true
      → f.fent_cnt < 64
      → (f.fent_cnt - 1) * 13 ≤ length f.name
      → ent ≤ f.fent_start + long_entries gmtime drv f
      → 1 ≤ mx
      → skip ≡ ent - f.fent_start
      → m ≡ min mx (long_entries gmtime drv f + 1 - skip)
      → m * 32 ≤ length buf
      → fill_dirent gmtime drv buf f ent mx none
        ≡ ok (m, slice (file_bytes f) (skip * 32) (m * 32) ++ drop (m * 32) buf)
  wide_dirent buf f ent mx m skip wide few name inside some_left s_eq m_eq room =
      let n = long_entries gmtime drv f in
      let short = dos_name f.shortname in
      let long = parts_down f (name_sum 0 short) n in
      let part : Bool → ℕ → ℕ → ℕ → Result (ℕ × List ℕ) = λ b k a w. ok (
        k,
        slice (long ++ entry_bytes gmtime b f short (drop (32 * (n - (ent - f.fent_start))) buf)) a
              w
            ++ drop w buf,
      ) in
      let m' = min mx (n + 1 - (ent - f.fent_start)) in
      let same : m' ≡ m = omega arith in
      fill_dirent-file_entries gmtime drv buf f ent mx name few inside some_left (omega arith)
      ∙ ap (λ b. part b m' (32 * (ent - f.fent_start)) (32 * m')) wide
      ∙ ap (λ k. part true k (32 * (ent - f.fent_start)) (32 * k)) same
      ∙ ap (λ a. part true m a (32 * m)) (omega arith)
      ∙ ap (λ w. part true m (skip * 32) w) (omega arith)

  pub fill_entries-listing :
      (start ent stop : ℕ) (is : List ℕ) (mx : ℕ) (buf : List ℕ)
      → is_fat32 drv.filesys ≡ true
      → Placed start is stop
      → 1 ≤ mx
      → mx * 32 ≤ length buf
      → fill_entries gmtime drv ent is mx buf
        ≡ ok (pad (mx * 32) (drop ((ent - start) * 32) (listing is)) ++ drop (mx * 32) buf)
  unfolding fill_entries
  fill_entries-listing start ent stop [] mx buf wide placed some_left room =
      let none_there : drop ((ent - start) * 32) (listing []) ≡ [] =
        drop_all ((ent - start) * 32) (listing []) (omega arith) in
      memset_zero_lem (mx * 32) buf room
      ∙ ap (λ r. ok (r ++ drop (mx * 32) buf))
          (sym (ap (pad (mx * 32)) none_there ∙ pad-nil (mx * 32)))
  fill_entries-listing start ent stop (i ∷ is) mx buf wide (at, cnt, few, name, placed) some_left
        room =
      let f = drv.files i in
      let end = start + f.fent_cnt + 1 in
      let bytes = file_bytes f in
      let others = listing is in
      let whole : length bytes ≡ (f.fent_cnt + 1) * 32 =
        omega (arith, length-file_bytes f few, cnt) in
      elim (Bool-cases (leb (f.fent_start + f.fent_cnt + 1) ent)) [
        | inl behind ↦
            let le : f.fent_start + f.fent_cnt + 1 ≤ ent = leb→le _ _ behind in
            let passed : drop ((ent - start) * 32) (bytes ++ others)
                ≡ drop ((ent - end) * 32) others =
              sym (
                drop-drop ((f.fent_cnt + 1) * 32) ((ent - end) * 32) ((ent - start) * 32)
                  (bytes ++ others) (omega arith))
              ∙ ap (drop ((ent - end) * 32))
                  (drop-append bytes others ((f.fent_cnt + 1) * 32) (sym whole)) in
            rw (fill_entries, behind)
              (fill_entries-listing end ent stop is mx buf wide placed some_left room
                ∙ ap (λ d. ok (pad (mx * 32) d ++ drop (mx * 32) buf)) (sym passed))
        | inr here ↦
            let lt : ent < f.fent_start + f.fent_cnt + 1 = ground arith in
            let skip = ent - start in
            let m = min mx (f.fent_cnt + 1 - skip) in
            let part = slice bytes (skip * 32) (m * 32) in
            let rest = drop (m * 32) buf in
            let from = drop (skip * 32) (bytes ++ others) in
            let part_len : m * 32 ≡ length part =
              sym (length-slice bytes (skip * 32) (m * 32) (omega (arith, whole))) in
            let front : pad (m * 32) from ≡ part =
              pad_within (m * 32) from (
                omega (
                  arith,
                  whole,
                  length-drop (skip * 32) (bytes ++ others),
                  length-append bytes others,
                ))
              ∙ slice_left bytes others (skip * 32) (m * 32) (omega (arith, whole)) in
            let filled =
              wide_dirent buf f ent mx m skip wide few name (omega (arith, cnt)) some_left
                (omega arith) (omega (arith, cnt)) (omega arith) in
            elim (Bool-cases (mx == m)) [
              | inl full ↦
                  let e : mx ≡ m = ==→eq mx m full in
                  rw (fill_entries, here, filled, le→ltb mx m (omega arith), full)
                    (sym (
                      ap (λ k. ok (pad (k * 32) from ++ drop (k * 32) buf)) e
                      ∙ ap (λ t. ok (t ++ rest)) front))
              | inr more ↦
                  let next = fill_entries gmtime drv ent is (mx - m) in
                  let left = (mx - m) * 32 in
                  let apart = ==→ne mx m more in
                  let ne : m < mx = omega (arith, apart) in
                  let done =
                    fill_entries-listing end ent stop is (mx - m) rest wide placed (omega arith)
                      (omega (arith, length-drop (m * 32) buf)) in
                  let none_over : (ent - end) * 32 ≡ 0 = omega arith in
                  let ended : drop ((ent - end) * 32) others ≡ drop (m * 32) from =
                    ap (λ k. drop k others) none_over
                    ∙ sym (drop-append bytes others ((f.fent_cnt + 1) * 32) (sym whole))
                    ∙ sym (
                        drop-drop (skip * 32) (m * 32) ((f.fent_cnt + 1) * 32) (bytes ++ others)
                          (omega arith)) in
                  let both : pad (mx * 32) from ≡ part ++ pad left (drop (m * 32) from) =
                    pad_add (m * 32) left (mx * 32) from (omega arith)
                    ∙ ap (λ t. t ++ pad left (drop (m * 32) from)) front in
                  rw (fill_entries, here, filled, le→ltb mx m (omega arith), more)
                    (ap (λ t. map_ok (λ b. take (m * 32) (part ++ rest) ++ b) (next t))
                        (drop-append part rest (m * 32) part_len)
                      ∙ ap (λ t. map_ok (λ b. t ++ b) (next rest))
                          (take-append part rest (m * 32) part_len)
                      ∙ ap (map_ok (λ b. part ++ b)) done
                      ∙ ap (λ d. ok (part ++ (pad left d ++ drop left rest))) ended
                      ∙ ap (λ r. ok (part ++ (pad left (drop (m * 32) from) ++ r)))
                          (drop-drop (m * 32) left (mx * 32) buf (omega arith))
                      ∙ ap ok (
                          sym (
                            append_assoc part (pad left (drop (m * 32) from)) (drop (mx * 32) buf)))
                      ∙ ap (λ t. ok (t ++ drop (mx * 32) buf)) (sym both))
            ]
      ]
