-- ===== src/Dir/Root.antt =====
-- The sectors of a directory of FAT32, as read_sector_dir of libvdf/read_dir.c makes them.
use vdf.Prelude.{
  ℕ, zero, suc, ◌+◌, ◌-◌, ◌*◌, ◌/◌, ◌≤◌, ◌<◌, ◌^◌, ◌≡◌, refl, sym, ap, ◌∙◌, true, false, Bool-cases,
  inl, inr, List, [], ◌∷◌, ◌++◌, append_assoc, Option, none, some, Result, ok, arith, leb, ltb,
  ◌==◌, length, length-append, length-drop, drop, drop_all, drop-drop, take, take-append,
  drop-append, map_ok, u32, sub32, ltb→le, lt→ltb, lt→leb, ==→eq, ◌>>=◌, replicate,
}
use vdf.Drive.{VdfDrive, VdfFile, is_fat32}
use vdf.Fat.Loop.{memset_zero_lem}
use vdf.Data.Content.{pad, pad-nil}
use vdf.Dir.{Tm, short_entry, fill_dirent, dot_entries, read_entries, read_sector_dir}
use vdf.Dir.Entry.{entry_bytes, length-entry_bytes, short_entry-entry_bytes}
use vdf.Dir.Listing.{listing, Placed, length-listing, fill_entries-listing}

-- The names '.' and '..', with blanks behind them.
abbrev dot_name : List ℕ
dot_name = 46 ∷ replicate 10 32

abbrev dot_dot_name : List ℕ
dot_dot_name = 46 ∷ 46 ∷ replicate 9 32

-- Blanks behind a name.
abbrev blank_pad : ℕ → List ℕ → List ℕ
blank_pad n s = s ++ replicate (n - length s) 32

-- The first of two lists, and the second filled up.
pad-append :
    (m n k : ℕ) (xs ys : List ℕ) → length xs ≡ m → k ≡ m + n → pad k (xs ++ ys) ≡ xs ++ pad n ys
pad-append zero n k [] ys h e = let same : k ≡ n = omega arith in rw same
pad-append (suc m) n zero (x ∷ xs) ys h e = absurd (omega arith)
pad-append zero n k (x ∷ xs) ys h e = absurd (omega arith)
pad-append (suc m) n k [] ys h e = absurd (omega arith)
pad-append (suc m) n (suc k) (x ∷ xs) ys h e =
    ap (λ r. x ∷ r) (pad-append m n k xs ys (omega arith) (omega arith))

module _ (gmtime : ℕ → Tm) (drv : VdfDrive) where
  -- The entries before those of the files, and their number.
  abbrev pub first_bytes : VdfFile → Option ℕ → List ℕ
  first_bytes dir none = []
  first_bytes dir (some p) =
      entry_bytes gmtime true dir dot_name []
      ++ entry_bytes gmtime true (drv.files p) dot_dot_name []

  abbrev pub first_cnt : Option ℕ → ℕ
  first_cnt none = 0
  first_cnt (some p) = 2

  -- The bytes of a directory.
  abbrev pub dir_listing : VdfFile → List ℕ
  dir_listing dir = first_bytes dir dir.parent ++ listing gmtime drv dir.entries

  -- The places of the files are those of the recalculation.
  abbrev pub IsPlaced : VdfFile → Type 0
  IsPlaced dir = Placed gmtime drv (first_cnt dir.parent) dir.entries dir.dir_fent_cnt

  length-dot :
      (f : VdfFile) (name : List ℕ)
      → length name ≡ 11
      → length (entry_bytes gmtime true f name []) ≡ 32
  length-dot f name len =
      let some_buf : List ℕ = replicate 18 0 in
      length-entry_bytes gmtime true f name some_buf len (omega arith)

  length-first_bytes :
      (dir : VdfFile) (o : Option ℕ) → length (first_bytes dir o) ≡ first_cnt o * 32
  length-first_bytes dir none = refl
  length-first_bytes dir (some p) = omega (
    arith,
    length-dot dir dot_name refl,
    length-dot (drv.files p) dot_dot_name refl,
    length-append (entry_bytes gmtime true dir dot_name [])
        (entry_bytes gmtime true (drv.files p) dot_dot_name []),
  )

  one_dot :
      (f : VdfFile) (buf name : List ℕ)
      → is_fat32 drv.filesys ≡ true
      → length (blank_pad 11 name) ≡ 11
      → 32 ≤ length buf
      → fill_dirent gmtime drv buf f 0 1 (some name)
        ≡ ok (1, entry_bytes gmtime true f (blank_pad 11 name) [] ++ drop 32 buf)
  unfolding fill_dirent
  one_dot f buf name wide len room =
      ap (λ w. short_entry gmtime w f (blank_pad 11 name) 0 buf) wide
      ∙ short_entry-entry_bytes gmtime true f (blank_pad 11 name) 0 buf len (omega arith)

  -- The entries '.' and '..' at the start of the buffer.
  dots_of :
      (dir : VdfFile) (o : Option ℕ) (buf : List ℕ)
      → is_fat32 drv.filesys ≡ true
      → first_cnt o * 32 ≤ length buf
      → let made : Result (ℕ × List ℕ) = elim o [
        | none ↦ ok (0, buf)
        | some p ↦ fill_dirent gmtime drv buf dir 0 1 (some (46 ∷ [])) >>= λ r.
            map_ok
              (λ s. (2, take 32 r.1 ++ s.1))
              (fill_dirent gmtime drv (drop 32 r.1) (drv.files p) 0 1 (some (46 ∷ 46 ∷ [])))
      ] in
        made ≡ ok (first_cnt o, first_bytes dir o ++ drop (first_cnt o * 32) buf)
  dots_of dir none buf wide room = refl
  dots_of dir (some p) buf wide room =
      let up : VdfFile = drv.files p in
      let one = entry_bytes gmtime true dir dot_name [] in
      let two = entry_bytes gmtime true up dot_dot_name [] in
      let rest = drop 32 buf in
      let len = length-dot dir dot_name refl in
      let next : List ℕ → Result (ℕ × List ℕ) =
        λ b. fill_dirent gmtime drv b up 0 1 (some (46 ∷ 46 ∷ [])) in
      let go_on : ℕ × List ℕ → Result (ℕ × List ℕ) =
        λ r. map_ok (λ s. (2, take 32 r.1 ++ s.1)) (next (drop 32 r.1)) in
      let first = one_dot dir buf (46 ∷ []) wide refl (omega arith) in
      let second = one_dot up rest (46 ∷ 46 ∷ []) wide refl (omega (arith, length-drop 32 buf)) in
      (ap (λ r. r >>= go_on) first
        ∙ ap (λ b. map_ok (λ s. (2, take 32 (one ++ rest) ++ s.1)) (next b))
            (drop-append one rest 32 (sym len))
        ∙ ap (λ t. map_ok (λ s. (2, t ++ s.1)) (next rest)) (take-append one rest 32 (sym len))
        ∙ ap (map_ok (λ s. (2, one ++ s.1))) second
        ∙ ap (λ r. ok (2, one ++ (two ++ r))) (drop-drop 32 32 64 buf refl)
        ∙ ap (λ t. ok (2, t)) (sym (append_assoc one two (drop 64 buf))))

  dot_entries-first_bytes :
      (dir : VdfFile) (buf : List ℕ)
      → is_fat32 drv.filesys ≡ true
      → first_cnt dir.parent * 32 ≤ length buf
      → dot_entries gmtime drv dir buf
        ≡ ok (
          first_cnt dir.parent,
          first_bytes dir dir.parent ++ drop (first_cnt dir.parent * 32) buf,
        )
  unfolding dot_entries
  dot_entries-first_bytes dir buf wide room = dots_of dir dir.parent buf wide room

  -- What comes behind `i` entries that are there.
  entries_read :
      (dir : VdfFile) (i ent scnt mx : ℕ) (front rest : List ℕ)
      → is_fat32 drv.filesys ≡ true
      → IsPlaced dir
      → length front ≡ i * 32
      → ent < 2 ^ 31
      → 1 ≤ mx
      → scnt ≡ i + mx
      → scnt < 2 ^ 31
      → mx * 32 ≤ length rest
      → read_entries gmtime drv dir ent scnt (i, front ++ rest)
        ≡ ok (
            front
            ++ (pad
                  (mx * 32)
                  (drop ((ent - first_cnt dir.parent) * 32) (listing gmtime drv dir.entries))
                ++ drop (mx * 32) rest))
  entries_read dir i ent scnt mx front rest wide placed len low some_left parts few room =
      let left : sub32 scnt i ≡ mx = omega arith in
      let near : leb (2 ^ 31) ent ≡ false = lt→leb _ _ low in
      let placed_at : ltb ent (2 ^ 31) ≡ true = lt→ltb _ _ low in
      let fit : ltb mx (2 ^ 31) ≡ true = lt→ltb _ _ (omega arith) in
      let bytes = listing gmtime drv dir.entries in
      let start = first_cnt dir.parent in
      let behind = drop-append front rest (i * 32) (sym len) in
      let before = take-append front rest (i * 32) (sym len) in
      elim (Bool-cases (ltb ent dir.dir_fent_cnt)) [
        | inl inside ↦
            rw
              (
                left,
                fit,
                near,
                placed_at,
                inside,
                behind,
                before,
                fill_entries-listing gmtime drv start ent dir.dir_fent_cnt dir.entries mx rest wide
                    placed some_left room,
              )
              refl
        | inr over ↦
            let le : dir.dir_fent_cnt ≤ ent = ltb→le _ _ over in
            let none_there : drop ((ent - start) * 32) bytes ≡ [] =
              drop_all ((ent - start) * 32) bytes (
                omega
                  (arith, length-listing gmtime drv start dir.dir_fent_cnt dir.entries placed)) in
            rw (left, fit, near, over, behind, before, memset_zero_lem (mx * 32) rest room)
              (ap (λ r. ok (front ++ (r ++ drop (mx * 32) rest)))
                (sym (ap (pad (mx * 32)) none_there ∙ pad-nil (mx * 32))))
      ]

  times_assoc : (n k m : ℕ) → n * k * m ≡ n * (k * m)
  times_assoc n k m = omega arith

  times_pos : (n k m : ℕ) → 1 ≤ n → m ≤ k → m ≤ n * k
  times_pos n k m h l = grind arith

  first_cnt-few : (o : Option ℕ) → first_cnt o ≤ 2
  first_cnt-few none = omega arith
  first_cnt-few (some p) = omega arith

  -- From sector 0 on.
  from_first :
      (dir : VdfFile) (cnt : ℕ) (buf : List ℕ)
      → is_fat32 drv.filesys ≡ true
      → IsPlaced dir
      → 3 ≤ cnt
      → cnt < 2 ^ 31
      → cnt * 32 ≤ length buf
      → (dot_entries gmtime drv dir buf >>= λ r. read_entries gmtime drv dir r.0 cnt r)
        ≡ ok (pad (cnt * 32) (dir_listing dir) ++ drop (cnt * 32) buf)
  from_first dir cnt buf wide placed some_left few room =
      let k = first_cnt dir.parent in
      let front = first_bytes dir dir.parent in
      let rest = drop (k * 32) buf in
      let small = first_cnt-few dir.parent in
      let bytes = listing gmtime drv dir.entries in
      let len = length-first_bytes dir dir.parent in
      let no_skip : (k - k) * 32 ≡ 0 = omega arith in
      let left = (cnt - k) * 32 in
      let behind = drop-drop (k * 32) left (cnt * 32) buf (omega arith) in
      ap (λ r. r >>= λ q. read_entries gmtime drv dir q.0 cnt q)
        (dot_entries-first_bytes dir buf wide (omega arith))
      ∙ entries_read dir k k cnt (cnt - k) front rest wide placed len (omega arith) (omega arith)
          (omega arith) few (omega (arith, length-drop (k * 32) buf))
      ∙ ap (λ a. ok (front ++ (pad left (drop a bytes) ++ drop left rest))) no_skip
      ∙ ap (λ t. ok (front ++ (pad left bytes ++ t))) behind
      ∙ ap ok (sym (append_assoc front (pad left bytes) (drop (cnt * 32) buf)))
      ∙ ap (λ t. ok (t ++ drop (cnt * 32) buf))
          (sym (pad-append (k * 32) left (cnt * 32) front bytes len (omega arith)))

  -- From a later sector on.
  from_later :
      (dir : VdfFile) (ent cnt : ℕ) (buf : List ℕ)
      → is_fat32 drv.filesys ≡ true
      → IsPlaced dir
      → 2 ≤ ent
      → ent < 2 ^ 31
      → 1 ≤ cnt
      → cnt < 2 ^ 31
      → cnt * 32 ≤ length buf
      → read_entries gmtime drv dir ent cnt (0, buf)
        ≡ ok (pad (cnt * 32) (drop (ent * 32) (dir_listing dir)) ++ drop (cnt * 32) buf)
  from_later dir ent cnt buf wide placed later low some_left few room =
      let k = first_cnt dir.parent in
      let front = first_bytes dir dir.parent in
      let small = first_cnt-few dir.parent in
      let bytes = listing gmtime drv dir.entries in
      let len = length-first_bytes dir dir.parent in
      let passed : drop (ent * 32) (front ++ bytes) ≡ drop ((ent - k) * 32) bytes =
        sym (drop-drop (k * 32) ((ent - k) * 32) (ent * 32) (front ++ bytes) (omega arith))
        ∙ ap (drop ((ent - k) * 32)) (drop-append front bytes (k * 32) (sym len)) in
      entries_read dir 0 ent cnt cnt [] buf wide placed refl low some_left (omega arith) few room
      ∙ ap (λ d. ok (pad (cnt * 32) d ++ drop (cnt * 32) buf)) (sym passed)

  -- On FAT32 the sectors of a directory are its entries, one behind the other in the order of the
  -- directory, cut up into sectors, with zeros behind the last one: those of '.' and '..' first if the
  -- directory has a parent, then those of its files, with their long names. That holds for any number
  -- of sectors from any sector on, if the buffer has room for them. The places of the files are those
  -- of the recalculation: their entries follow each other behind the first two, or from 0 on without
  -- a parent, up to the number of entries of the directory; each long name has less than 64 entries,
  -- and is as long as their number says. A sector is a number of entries, three at least, and the
  -- numbers of entries are below 2 ^ 31.
  pub read_sector_dir-listing :
      (i sector scnt : ℕ) (buffer : List ℕ)
      → is_fat32 drv.filesys ≡ true
      → IsPlaced (drv.files i)
      → drv.dirent_per_sector ≡ drv.bps / 32
      → drv.bps / 32 * 32 ≡ drv.bps
      → 3 ≤ drv.bps / 32
      → 1 ≤ scnt
      → sector * (drv.bps / 32) < 2 ^ 31
      → scnt * (drv.bps / 32) < 2 ^ 31
      → scnt * drv.bps ≤ length buffer
      → read_sector_dir gmtime drv sector scnt buffer i
        ≡ ok (
            pad (scnt * drv.bps) (drop (sector * drv.bps) (dir_listing (drv.files i)))
            ++ drop (scnt * drv.bps) buffer)
  unfolding read_sector_dir
  read_sector_dir-listing i sector scnt buffer wide placed per cut three some_s s_top n_top room =
      let dir = drv.files i in
      let k = drv.bps / 32 in
      let bytes = dir_listing dir in
      let many : u32 (scnt * drv.dirent_per_sector) ≡ scnt * k =
        ap (λ p. u32 (scnt * p)) per ∙ omega arith in
      let at : u32 (sector * k) ≡ sector * k = omega arith in
      let size_of : (n : ℕ) → n * k * 32 ≡ n * drv.bps =
        λ n. times_assoc n k 32 ∙ ap (λ b. n * b) cut in
      let some_left : 3 ≤ scnt * k = times_pos scnt k 3 some_s three in
      let fits : scnt * k * 32 ≤ length buffer = omega (arith, size_of scnt) in
      let shaped : ℕ → ℕ → Result (List ℕ) = λ a w. ok (pad w (drop a bytes) ++ drop w buffer) in
      elim (Bool-cases (sector == 0)) [
        | inl first ↦
            let none_before : 0 ≡ sector * drv.bps =
              sym (ap (λ s. s * drv.bps) (==→eq sector 0 first) ∙ omega arith) in
            rw (read_sector_dir, first, many)
              (from_first dir (scnt * k) buffer wide placed some_left n_top fits
                ∙ ap (λ w. shaped 0 w) (size_of scnt)
                ∙ ap (λ a. shaped a (scnt * drv.bps)) none_before)
        | inr later ↦
            let some_sector : 1 ≤ sector = pos sector later in
            let behind : 2 ≤ sector * k = times_pos sector k 2 some_sector (omega arith) in
            rw (read_sector_dir, later, many, at)
              (from_later dir (sector * k) (scnt * k) buffer wide placed behind s_top (omega arith)
                  n_top fits
                ∙ ap (λ w. shaped (sector * k * 32) w) (size_of scnt)
                ∙ ap (λ a. shaped a (scnt * drv.bps)) (size_of sector))
      ]
    where
      pos : (n : ℕ) → (n == 0) ≡ false → 1 ≤ n
      pos n e = ground arith
