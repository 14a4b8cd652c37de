-- ===== src/Data/Sectors.antt =====
-- read_sector_data of libvdf/read_data.c: sectors of any files, in one call.
use vdf.Prelude.{
  ℕ, zero, suc, ◌+◌, ◌-◌, ◌*◌, ◌/◌, true, ◌≤◌, ◌<◌, ◌^◌, ◌≡◌, refl, sym, ap, ◌∙◌, min, inl, inr,
  Bool-cases, List, ◌++◌, append_assoc, Option, none, some, Result, ok, ◌>>=◌, arith, leb, u32,
  sub32, length, length-drop, take, drop, drop-drop, take-append, drop-append, replicate,
  length-replicate, leb→le, leb→lt, lt→leb, ne→==,
}
use vdf.Drive.{VdfDrive, file_is_dir, is_fat32}
use vdf.Dir.{Tm}
use vdf.Dir.Root.{dir_listing, IsPlaced, read_sector_dir-listing}
use vdf.Fat.{ranges, memset_zero}
use vdf.Fat.Loop.{memset_zero_lem}
use vdf.Read.Image.{image, image_add, length-image, IsReader}
use vdf.Read.Sectors.{image-ext, image-zeros}
use vdf.Data.{Sources, find_file_sector, read_round, go_on, data_loop, read_sector_data}
use vdf.Data.Content.{pad, owner, file_sector, data_bytes, length-pad, image-pad}
use vdf.Data.Found.{Laid, owner-none, FoundAt, find_sector-FoundAt}
use vdf.Data.File.{Delivers, read_file-pad}

-- The files lie one behind the other from `data_start` to `data_end`, and there are as many ranges as
-- files.
pub record IsLaid (drv : VdfDrive) : Type 0 where
  pub count : drv.file_cnt ≡ length (ranges drv)
  pub laid : Laid drv.files drv.bps drv.data_start (ranges drv) drv.data_end
  pub some : 1 ≤ drv.bps
  pub small : drv.data_end < 2 ^ 32

rest_fits : (a b c bps size : ℕ) → c ≡ a + b → size ≤ c * bps → size - a * bps ≤ b * bps
rest_fits a b c bps size e h = grind arith

mul_lt : (a c bps top : ℕ) → a < c → 1 ≤ bps → c * bps ≤ top → a * bps < top
mul_lt a c bps top h k l = grind arith

mul_add : (a b c bps : ℕ) → c ≡ a + b → c * bps ≡ a * bps + b * bps
mul_add a b c bps e = rw e (omega arith)

mul_le : (a c bps : ℕ) → a ≤ c → a * bps ≤ c * bps
mul_le a c bps h = grind arith

least_fits :
    (size a e s scnt n bps : ℕ)
    → n ≡ min (e - s) scnt
    → size - a ≤ (e - s) * bps
    → min (size - a) (scnt * bps) ≤ n * bps
least_fits size a e s scnt n bps h k = elim (Bool-cases (leb (e - s) scnt)) [
  | inl first ↦ let n' : n ≡ e - s = omega (arith, leb→le _ _ first) in rw n' (omega arith)
  | inr second ↦ let n' : n ≡ scnt = omega (arith, leb→lt _ _ second) in rw n' (omega arith)
]

entries_fit : (n k bps : ℕ) → k * 32 ≡ bps → n * bps ≤ 2 ^ 32 → n * k < 2 ^ 31
entries_fit n k bps e h =
    let whole : n * (k * 32) ≤ 2 ^ 32 = rw e h in omega (arith, whole, times_assoc n k 32)
  where
    times_assoc : (n k m : ℕ) → n * k * m ≡ n * (k * m)
    times_assoc n k m = omega arith

-- A drive of FAT32, of sectors of three entries or more, whose directories have the places of the
-- recalculation.
pub record HasDirs (gmtime : ℕ → Tm) (drv : VdfDrive) : Type 0 where
  pub wide : is_fat32 drv.filesys ≡ true
  pub placed : (i : ℕ) → file_is_dir drv i ≡ true → IsPlaced gmtime drv (drv.files i)
  pub per : drv.dirent_per_sector ≡ drv.bps / 32
  pub cut : drv.bps / 32 * 32 ≡ drv.bps
  pub three : 3 ≤ drv.bps / 32

module _ (gmtime : ℕ → Tm) (drv : VdfDrive) (src : Sources) (content : ℕ → List ℕ)
    (laid : IsLaid drv) (dirs : HasDirs gmtime drv) (delivers : Delivers drv src content) where
  -- A sector of a directory.
  abbrev pub dir_bytes : ℕ → ℕ → List ℕ
  dir_bytes i k = pad drv.bps (drop (k * drv.bps) (dir_listing gmtime drv (drv.files i)))

  abbrev bytes_at : ℕ → List ℕ
  bytes_at = data_bytes drv content dir_bytes

  file_sector-width : (i k : ℕ) → length (file_sector drv content dir_bytes i k) ≡ drv.bps
  file_sector-width i k = elim (Bool-cases (file_is_dir drv i)) [
    | inl d ↦ rw d (length-pad drv.bps (drop (k * drv.bps) (dir_listing gmtime drv (drv.files i))))
    | inr p ↦ rw p (length-pad drv.bps (drop (k * drv.bps) (take (drv.files i).size (content i))))
  ]

  pub data_bytes-width : (s : ℕ) → length (bytes_at s) ≡ drv.bps
  data_bytes-width s = go (owner drv.files (ranges drv) s)
    where
      go :
          (o : Option ℕ)
          → length (elim o as (λ o. List ℕ) [
            | none ↦ replicate drv.bps 0
            | some i ↦ file_sector drv content dir_bytes i (s - (drv.files i).startsect)
          ])
            ≡ drv.bps
      go none = length-replicate drv.bps 0
      go (some i) = file_sector-width i (s - (drv.files i).startsect)

  -- The sectors of one file.
  image-file_sector :
      (s n i : ℕ)
      → ((u : ℕ) → s ≤ u → u < s + n → owner drv.files (ranges drv) u ≡ some i)
      → image bytes_at s n
        ≡ image (λ t. file_sector drv content dir_bytes i (t - (drv.files i).startsect)) s n
  image-file_sector s n i same =
      image-ext bytes_at (λ t. file_sector drv content dir_bytes i (t - (drv.files i).startsect)) n
        s s (λ j lt. ap (at_owner (s + j)) (same (s + j) (omega arith) (omega arith)))
    where
      at_owner : ℕ → Option ℕ → List ℕ
      at_owner t none = replicate drv.bps 0
      at_owner t (some i) = file_sector drv content dir_bytes i (t - (drv.files i).startsect)

  -- The round for the file that has the sector.
  round-image :
      (s scnt n : ℕ) (buf : List ℕ)
      → (f : FoundAt drv.files drv.bps (ranges drv) drv.data_end s (find_file_sector drv s))
      → n ≡ min ((drv.files f.file).endsect - s) scnt
      → 1 ≤ n
      → s < 2 ^ 32
      → scnt * drv.bps ≤ length buf
      → read_round gmtime drv src f.file s n scnt buf
        ≡ ok (n * drv.bps, image bytes_at s n ++ drop (n * drv.bps) buf)
  unfolding read_round
  round-image s scnt n buf f e some_left top room =
      let i = f.file in
      let start = (drv.files i).startsect in
      let off : sub32 s start ≡ s - start = omega (arith, f.from) in
      let few = mul_le n scnt drv.bps (omega arith) in
      let same = image-file_sector s n i (λ u x y. f.same u x (omega (arith, f.to))) in
      elim (Bool-cases (file_is_dir drv i)) [
        | inl d ↦
            let cut =
              image-ext (λ t. file_sector drv content dir_bytes i (t - start)) (dir_bytes i) n s
                (s - start) (λ j lt. rw d (ap (dir_bytes i) (omega (arith, f.from)))) in
            let len = (drv.files i).endsect - start in
            let inside = mul_le (s - start) len drv.bps (omega (arith, f.from, f.to)) in
            let inside' = mul_le n len drv.bps (omega (arith, f.from, f.to)) in
            let at =
              entries_fit (s - start) (drv.bps / 32) drv.bps dirs.cut (omega (arith, f.small)) in
            let fit = entries_fit n (drv.bps / 32) drv.bps dirs.cut (omega (arith, f.small)) in
            let listed =
              read_sector_dir-listing gmtime drv i (s - start) n buf dirs.wide (dirs.placed i d)
                dirs.per dirs.cut dirs.three some_left at fit (omega arith) in
            let pieces : image (dir_bytes i) (s - start) n
                ≡ pad (n * drv.bps)
                    (drop ((s - start) * drv.bps) (dir_listing gmtime drv (drv.files i))) =
              image-ext (dir_bytes i) (λ t. dir_bytes i (t - 0)) n (s - start) (s - start)
                (λ j lt. ap (dir_bytes i) (omega arith))
              ∙ image-pad drv.bps 0 n (s - start) (n * drv.bps) ((s - start) * drv.bps)
                  (dir_listing gmtime drv (drv.files i)) (omega arith) refl
                  (ap (λ a. a * drv.bps) (omega arith)) in
            rw (read_round, d, off, listed, same, cut, pieces) refl
        | inr p ↦
            let a = (s - start) * drv.bps in
            let len = (drv.files i).endsect - start in
            let at : u32 a ≡ a = omega (
              arith,
              mul_lt (s - start) len drv.bps (2 ^ 32) (omega (arith, f.from, f.to)) laid.some
                  f.small,
            ) in
            let rest =
              rest_fits (s - start) ((drv.files i).endsect - s) len drv.bps (drv.files i).size
                (omega (arith, f.from, f.to)) f.fits in
            let fits =
              least_fits (drv.files i).size a (drv.files i).endsect s scnt n drv.bps e rest in
            let plain_bytes : ℕ → List ℕ = λ t.
              pad drv.bps (drop ((t - start) * drv.bps) (take (drv.files i).size (content i))) in
            let cut : image (λ t. file_sector drv content dir_bytes i (t - start)) s n
                ≡ pad (n * drv.bps) (drop a (take (drv.files i).size (content i))) =
              image-ext (λ t. file_sector drv content dir_bytes i (t - start)) plain_bytes n s s
                (λ j lt. rw p refl)
              ∙ image-pad drv.bps start n s (n * drv.bps) a (take (drv.files i).size (content i))
                  f.from refl refl in
            rw (read_round, p, off, at, same, cut)
              (read_file-pad drv src content delivers i p a (n * drv.bps) n scnt buf refl fits few
                (omega arith))
      ]

  -- Behind the last file there are zeros.
  none-image :
      (s n : ℕ) (buf : List ℕ)
      → drv.data_end ≤ s
      → n * drv.bps ≤ length buf
      → memset_zero (n * drv.bps) buf ≡ ok (image bytes_at s n ++ drop (n * drv.bps) buf)
  none-image s n buf behind room =
      memset_zero_lem (n * drv.bps) buf room
      ∙ ap (λ t. ok (t ++ drop (n * drv.bps) buf))
          (sym (
            image-zeros bytes_at drv.bps n s (n * drv.bps) refl (λ j lt. ap (at_owner (s + j)) (
              owner-none drv.files drv.bps drv.data_start (ranges drv) drv.data_end (s + j)
                laid.laid (omega arith)))))
    where
      at_owner : ℕ → Option ℕ → List ℕ
      at_owner t none = replicate drv.bps 0
      at_owner t (some i) = file_sector drv content dir_bytes i (t - (drv.files i).startsect)

  -- A round, and the rest of the call.
  two_parts :
      (s n rest scnt : ℕ) (buf : List ℕ) (next : List ℕ → Result (List ℕ))
      → scnt ≡ n + rest
      → n * drv.bps ≤ length buf
      → next (drop (n * drv.bps) buf)
        ≡ ok (image bytes_at (s + n) rest ++ drop (rest * drv.bps) (drop (n * drv.bps) buf))
      → go_on gmtime drv src next (n * drv.bps, image bytes_at s n ++ drop (n * drv.bps) buf)
        ≡ ok (image bytes_at s scnt ++ drop (scnt * drv.bps) buf)
  two_parts s n rest scnt buf next e room h =
      let len = length-image drv.bps 0 bytes_at data_bytes-width n s (n * drv.bps) refl in
      let a = image bytes_at s n in
      let b = drop (n * drv.bps) buf in
      rw
        (
          take-append a b (n * drv.bps) (sym len),
          drop-append a b (n * drv.bps) (sym len),
          h,
          drop-drop (n * drv.bps) (rest * drv.bps) (scnt * drv.bps) buf
              (mul_add n rest scnt drv.bps e),
          image_add bytes_at n rest scnt s (s + n) e refl,
        )
        (ap (λ t. ok t)
          (sym (append_assoc a (image bytes_at (s + n) rest) (drop (scnt * drv.bps) buf))))

  found_at :
      (s : ℕ)
      → drv.data_start ≤ s
      → s < drv.data_end
      → FoundAt drv.files drv.bps (ranges drv) drv.data_end s (find_file_sector drv s)
  unfolding find_file_sector
  found_at s le lt =
      rw (find_file_sector, lt→leb drv.data_end s lt)
        (find_sector-FoundAt drv.files drv.bps drv.data_start (ranges drv) drv.data_end s
          drv.file_cnt laid.count laid.laid le lt)

  loop-image :
      (fuel s scnt : ℕ) (buf : List ℕ)
      → scnt < fuel
      → drv.data_start ≤ s
      → s + scnt < 2 ^ 32
      → scnt * drv.bps ≤ length buf
      → data_loop gmtime drv src fuel s scnt buf
        ≡ ok (image bytes_at s scnt ++ drop (scnt * drv.bps) buf)
  unfolding data_loop find_file_sector
  loop-image zero s scnt buf enough le top room = absurd (omega arith)
  loop-image (suc fuel) s zero buf enough le top room =
      let z : 0 * drv.bps ≡ 0 = omega arith in rw z
  loop-image (suc fuel) s (suc m) buf enough le top room = elim (Bool-cases (leb drv.data_end s)) [
    | inl behind ↦
        rw (data_loop, ne→== (suc m) 0 (omega arith), find_file_sector, behind)
          (none-image s (suc m) buf (leb→le _ _ behind) room)
    | inr before ↦
        let start = leb→lt drv.data_end s before in
        let f : FoundAt drv.files drv.bps (ranges drv) drv.data_end s (find_file_sector drv s) =
          found_at s le start in
        let i = f.file in
        let n = min ((drv.files i).endsect - s) (suc m) in
        let some_left : 1 ≤ n = omega (arith, f.to) in
        let swant : min (sub32 (drv.files i).endsect s) (suc m) ≡ n =
          omega (arith, f.to, f.inside, laid.small) in
        let next : u32 (s + n) ≡ s + n = omega arith in
        let fit = mul_le n (suc m) drv.bps (omega arith) in
        let fit' = mul_le (suc m - n) (suc m) drv.bps (omega arith) in
        let split : suc m * drv.bps ≡ n * drv.bps + (suc m - n) * drv.bps =
          mul_add n (suc m - n) (suc m) drv.bps (omega arith) in
        rw (data_loop, ne→== (suc m) 0 (omega arith), f.found)
          (ap
              (λ w.
                read_round gmtime drv src i s w (suc m) buf
                >>= go_on gmtime drv src (data_loop gmtime drv src fuel (u32 (s + w)) (suc m - w)))
              swant
            ∙ ap
                (λ r.
                  r
                  >>= go_on gmtime drv src
                      (data_loop gmtime drv src fuel (u32 (s + n)) (suc m - n)))
                (round-image s (suc m) n buf f refl some_left (omega arith) room)
            ∙ two_parts s n (suc m - n) (suc m) buf
                (data_loop gmtime drv src fuel (u32 (s + n)) (suc m - n)) (omega arith)
                (omega arith)
                (ap (λ t. data_loop gmtime drv src fuel t (suc m - n) (drop (n * drv.bps) buf)) next
                  ∙ loop-image fuel (s + n) (suc m - n) (drop (n * drv.bps) buf) (omega arith)
                      (omega arith) (omega arith)
                      (omega (arith, split, length-drop (n * drv.bps) buf))))
  ]

  pub read_sector_data-data_bytes :
      (sector scnt : ℕ) (buffer : List ℕ)
      → drv.data_start ≤ sector
      → sector + scnt < 2 ^ 32
      → scnt * drv.bps ≤ length buffer
      → read_sector_data gmtime drv src sector scnt buffer
        ≡ ok (image (data_bytes drv content dir_bytes) sector scnt ++ drop (scnt * drv.bps) buffer)
  unfolding read_sector_data
  read_sector_data-data_bytes sector scnt buffer le top room =
      loop-image (suc scnt) sector scnt buffer (omega arith) le top room

  -- read_sector_data reads the data area of the image.
  pub read_sector_data-IsReader :
      (total hi : ℕ)
      → hi < 2 ^ 32
      → IsReader drv.bps total
          (data_bytes drv content dir_bytes)
          drv.data_start
          hi
          (read_sector_data gmtime drv src)
  read_sector_data-IsReader total hi top s n buf sized le end few room =
      read_sector_data-data_bytes s n buf le (omega arith) room
