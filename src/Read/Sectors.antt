-- ===== src/Read/Sectors.antt =====
-- vdf_read_sectors of libvdf/read.c: what a call puts into the buffer, area by area.
use vdf.Prelude.{
  ℕ, zero, suc, ◌+◌, ◌-◌, ◌*◌, ◌≤◌, ◌<◌, ◌^◌, ◌≡◌, refl, sym, ap, ◌∙◌, min, inl, inr, true, not,
  Bool-cases, List, ◌++◌, append-nil, ok, ◌>>=◌, ltb, ◌==◌, if◌then◌else◌, arith, has, u32, sub32,
  length, drop, replicate, length-replicate, replicate-add, ne→==,
}
use native.Mathlib.Nat.{mul_comm}
use vdf.Drive.{VdfDrive, is_fat32, drive_is_valid, vdf_mbr}
use vdf.Fat.{memset_zero}
use vdf.Fat.Loop.{memset_zero_lem}
use vdf.Read.{
  Readers, area, advance, want_for, fats_end, read_data_area, read_root_area, read_partition,
  read_behind_mbr, read_sectors,
}
use vdf.Read.Image.{image, IsReader, IsRest, area-IsRest, IsRest-none_read}

-- The areas of the partition follow one another, and the sector numbers do not wrap.
pub record IsOrdered (drv : VdfDrive) : Type 0 where
  pub fats : drv.fat1_start ≤ drv.fat2_start
  pub fats_le : drv.fat2_start ≤ fats_end drv
  pub root_le : fats_end drv ≤ drv.data_start
  pub data_le : drv.data_start ≤ drv.sectors
  pub small : drv.sectors + drv.mbr_sectors < 2 ^ 32

-- The drive is FAT32, and the routines give the bytes of the sectors of their areas, in calls for less
-- than 2 ^ 31 bytes. (On FAT12 and FAT16 the root directory has an area of its own, and its entries
-- keep bytes of the buffer, as Dir/Stale shows.)
pub record Serves (drv : VdfDrive) (readers : Readers) (sector_bytes : ℕ → List ℕ) : Type 0 where
  pub width : (s : ℕ) → length (sector_bytes s) ≡ drv.bps
  pub boot : IsReader drv.bps drv.sectors sector_bytes 0 drv.fat1_start readers.read_sector_boot
  pub fat1 :
      IsReader drv.bps drv.sectors sector_bytes drv.fat1_start drv.fat2_start
        (λ s. readers.read_sector_fat (sub32 s drv.fat1_start))
  pub fat2 :
      IsReader drv.bps drv.sectors sector_bytes drv.fat2_start
        (fats_end drv)
        (λ s. readers.read_sector_fat (sub32 s drv.fat2_start))
  pub wide : is_fat32 drv.filesys ≡ true
  pub data_area :
      IsReader drv.bps drv.sectors sector_bytes drv.data_start drv.sectors readers.read_sector_data
  pub data_none : (s : ℕ) (buf : List ℕ) → readers.read_sector_data s 0 buf ≡ ok buf

fewer_bytes : (m rem bps top : ℕ) → m ≤ rem → rem * bps < top → m * bps < top
fewer_bytes m rem bps top le h = grind arith

fewer_fit : (m rem bps len : ℕ) → m ≤ rem → rem * bps ≤ len → m * bps ≤ len
fewer_fit m rem bps len le h = grind arith

-- The bytes of a sector of the whole drive: the MBR, zeros up to the partition, and the partition.
abbrev pub disk_bytes : VdfDrive → List ℕ → (ℕ → List ℕ) → ℕ → List ℕ
disk_bytes drv mbr sector_bytes s =
    if not (has drv.flags vdf_mbr)
    then sector_bytes s
    else if s == 0
    then mbr
    else if ltb s drv.mbr_sectors
    then replicate drv.bps 0
    else sector_bytes (s - drv.mbr_sectors)

pub image-ext :
    (f g : ℕ → List ℕ) (n s t : ℕ)
    → ((i : ℕ) → i < n → f (s + i) ≡ g (t + i))
    → image f s n ≡ image g t n
image-ext f g zero s t h = refl
image-ext f g (suc n) s t h =
    let first : f s ≡ g t = ap f (omega arith) ∙ h 0 (omega arith) ∙ ap g (omega arith) in
    rw (
      first,
      image-ext f g n (s + 1) (t + 1)
          (λ i lt. ap f (omega arith) ∙ h (i + 1) (omega arith) ∙ ap g (omega arith)),
    )

pub image-zeros :
    (f : ℕ → List ℕ) (bps n s k : ℕ)
    → k ≡ n * bps
    → ((i : ℕ) → i < n → f (s + i) ≡ replicate bps 0)
    → image f s n ≡ replicate k 0
image-zeros f bps zero s zero e h = refl
image-zeros f bps zero s (suc k) e h = absurd (omega arith)
image-zeros f bps (suc n) s k e h =
    let first : f s ≡ replicate bps 0 = ap f (omega arith) ∙ h 0 (omega arith) in
    rw
      (
        first,
        image-zeros f bps n (s + 1) (n * bps) refl
            (λ i lt. ap f (omega arith) ∙ h (i + 1) (omega arith)),
      )
      (sym (replicate-add bps (n * bps) k 0 (omega arith)))

-- The routine for the MBR gives its bytes, and the partition lies behind it.
pub record ServesMbr (drv : VdfDrive) (readers : Readers) (mbr : List ℕ) : Type 0 where
  pub width : length mbr ≡ drv.bps
  pub read :
      (buf : List ℕ)
      → drv.bps ≤ length buf
      → readers.read_sector_mbr buf ≡ ok (mbr ++ drop drv.bps buf)
  pub some : 1 ≤ drv.mbr_sectors

abbrev pub total_sectors : VdfDrive → ℕ
total_sectors drv = drv.sectors + (if has drv.flags vdf_mbr then drv.mbr_sectors else 0)

module _ (drv : VdfDrive) (readers : Readers) (sector_bytes : ℕ → List ℕ) (ordered : IsOrdered drv)
    (serves : Serves drv readers sector_bytes) where
  data-IsRest : IsRest drv.bps drv.sectors sector_bytes drv.data_start (read_data_area drv readers)
  unfolding read_data_area
  data-IsRest s rem cnt buf le in_drive some_left small bytes room =
      let m = min rem (drv.sectors - s) in
      let want : want_for drv.sectors s rem ≡ m = ground (arith, ordered.small) in
      let sum : u32 (cnt + m) ≡ cnt + m = omega arith in
      let fits : m * drv.bps ≤ length buf =
        fewer_fit m rem drv.bps (length buf) (omega arith) room in
      let few = fewer_bytes m rem drv.bps (2 ^ 31) (omega arith) bytes in
      rw (read_data_area, want, filled m fits few (omega arith), sum)
    where
      filled :
          (m : ℕ)
          → m * drv.bps ≤ length buf
          → m * drv.bps < 2 ^ 31
          → s + m ≤ drv.sectors
          → readers.read_sector_data s m buf ≡ ok (image sector_bytes s m ++ drop (m * drv.bps) buf)
      filled zero fits few end =
          let e : 0 * drv.bps ≡ 0 = omega arith in rw e (serves.data_none s buf)
      filled (suc m) fits few end = serves.data_area s (suc m) buf (omega arith) le end few fits

  root-IsRest : IsRest drv.bps drv.sectors sector_bytes (fats_end drv) (read_root_area drv readers)
  unfolding read_root_area
  root-IsRest s rem cnt buf le in_drive some_left small bytes room =
      let e : fats_end drv ≡ drv.data_start = rw serves.wide refl in
      rw (read_root_area, serves.wide)
        (data-IsRest s rem cnt buf (omega (arith, e)) in_drive some_left small bytes room)

  pub read_partition-IsRest : IsRest drv.bps drv.sectors sector_bytes 0 (read_partition drv readers)
  unfolding read_partition
  read_partition-IsRest =
      area-IsRest drv.bps drv.sectors sector_bytes serves.width 0 drv.fat1_start
        readers.read_sector_boot _
        (omega (arith, ordered.fats, ordered.fats_le, ordered.root_le, ordered.data_le))
        (omega (arith, ordered.small)) serves.boot
        (area-IsRest drv.bps drv.sectors sector_bytes serves.width drv.fat1_start drv.fat2_start _ _
          (omega (arith, ordered.fats_le, ordered.root_le, ordered.data_le))
          (omega (arith, ordered.small)) serves.fat1
          (area-IsRest drv.bps drv.sectors sector_bytes serves.width drv.fat2_start (fats_end drv) _
            _ (omega (arith, ordered.root_le, ordered.data_le)) (omega (arith, ordered.small))
            serves.fat2 root-IsRest))

  module _ (mbr : List ℕ) (has_mbr : has drv.flags vdf_mbr ≡ true)
      (serves_mbr : ServesMbr drv readers mbr) where
    abbrev whole : ℕ → List ℕ
    whole = disk_bytes drv mbr sector_bytes

    abbrev total : ℕ
    total = drv.sectors + drv.mbr_sectors

    whole-width : (s : ℕ) → length (whole s) ≡ drv.bps
    whole-width s = ground (
      arith,
      serves_mbr.width,
      length-replicate {A = ℕ} drv.bps 0,
      serves.width s,
      serves.width (s - drv.mbr_sectors),
    )

    whole-zeros : (s : ℕ) → 1 ≤ s → s < drv.mbr_sectors → whole s ≡ replicate drv.bps 0
    whole-zeros s h k = ground arith

    whole-partition : (s : ℕ) → drv.mbr_sectors ≤ s → whole s ≡ sector_bytes (s - drv.mbr_sectors)
    whole-partition s h = ground arith

    gap-IsReader :
        IsReader drv.bps total whole 1 drv.mbr_sectors (λ s want. memset_zero (drv.bps * want))
    gap-IsReader s n buf some le hi few room = rw (mul_comm drv.bps n) (
        memset_zero_lem (n * drv.bps) buf room
        ∙ ap (λ t. ok (t ++ drop (n * drv.bps) buf))
            (sym (
              image-zeros whole drv.bps n s (n * drv.bps) refl
                (λ i lt. whole-zeros (s + i) (omega arith) (omega arith)))))

    partition-IsRest :
        IsRest drv.bps total whole drv.mbr_sectors
          (λ s. read_partition drv readers (sub32 s drv.mbr_sectors))
    partition-IsRest s rem cnt buf le in_drive some_left small bytes room =
        let shift : sub32 s drv.mbr_sectors ≡ s - drv.mbr_sectors = omega (arith, ordered.small) in
        let m : min rem (total - s) ≡ min rem (drv.sectors - (s - drv.mbr_sectors)) = omega arith in
        let same =
          image-ext whole sector_bytes (min rem (drv.sectors - (s - drv.mbr_sectors))) s
            (s - drv.mbr_sectors)
            (λ i lt. whole-partition (s + i) (omega arith) ∙ ap sector_bytes (omega arith)) in
        rw (shift, m, same)
          (read_partition-IsRest (s - drv.mbr_sectors) rem cnt buf (omega arith) (omega arith)
            some_left small bytes room)

    behind-IsRest : IsRest drv.bps total whole 1 (read_behind_mbr drv readers)
    unfolding read_behind_mbr
    behind-IsRest =
        area-IsRest drv.bps total whole whole-width 1 drv.mbr_sectors _ _ (omega arith)
          ordered.small gap-IsReader partition-IsRest

    mbr-IsReader : IsReader drv.bps total whole 0 1 (λ s n. readers.read_sector_mbr)
    mbr-IsReader s n buf some le hi few room =
        let one : n ≡ 1 = omega arith in
        let first : s ≡ 0 = omega arith in
        let len : 1 * drv.bps ≡ drv.bps = omega arith in
        let room' : drv.bps ≤ length buf =
          rw len at (fewer_fit 1 n drv.bps (length buf) some room) in
        rw (one, first, len, has_mbr, append-nil mbr) (serves_mbr.read buf room')

    -- With an MBR in front of the partition.
    mbr_first :
        (cnt : ℕ) (buf : List ℕ)
        → 1 ≤ cnt
        → (readers.read_sector_mbr buf >>= advance drv.bps (read_behind_mbr drv readers) 1 0 cnt 0)
          ≡ area drv.bps 1
              (λ s n. readers.read_sector_mbr)
              (read_behind_mbr drv readers)
              0
              cnt
              0
              buf
    unfolding area
    mbr_first cnt buf some = let want : want_for 1 0 cnt ≡ 1 = ground arith in rw (area, want)

    pub whole-IsRest :
        (s cnt : ℕ) (buf : List ℕ)
        → s ≤ total
        → 1 ≤ cnt
        → cnt < 2 ^ 32
        → cnt * drv.bps < 2 ^ 31
        → cnt * drv.bps ≤ length buf
        → (if s == 0
            then (readers.read_sector_mbr buf
                >>= advance drv.bps (read_behind_mbr drv readers) 1 s cnt 0)
            else read_behind_mbr drv readers s cnt 0 buf)
          ≡ ok (
            min cnt (total - s),
            image whole s (min cnt (total - s)) ++ drop (min cnt (total - s) * drv.bps) buf,
          )
    whole-IsRest zero cnt buf in_drive some small bytes room =
        mbr_first cnt buf some
        ∙ IsRest-none_read drv.bps total whole 0 _ mbr_area 0 cnt buf (omega arith) in_drive some
            small bytes room
      where
        mbr_area :
            IsRest drv.bps total whole 0
              (area drv.bps 1 (λ s n. readers.read_sector_mbr) (read_behind_mbr drv readers))
        mbr_area =
            area-IsRest drv.bps total whole whole-width 0 1 _ _ (omega (arith, serves_mbr.some))
              ordered.small mbr-IsReader behind-IsRest
    whole-IsRest (suc s) cnt buf in_drive some small bytes room =
        rw (ne→== (suc s) 0 (omega arith)) (
          IsRest-none_read drv.bps total whole 1 _ behind-IsRest (suc s) cnt buf (omega arith)
            in_drive some small bytes room)

-- Let the areas of the partition lie in order and the routines give the bytes of the sectors of
-- their areas, with an MBR also the routine for it, let the buffer have room for the sectors asked
-- for, and let these be less than 2 ^ 31, as their number is returned as an int, and less than 2 ^ 31
-- bytes. Then vdf_read_sectors on a valid FAT32 drive reads from any of its sectors as many sectors
-- as are asked for, or as many as there are: it returns their number, the buffer begins with their
-- bytes (the MBR, zeros up to the partition, and the partition), whatever areas they cross, and its
-- rest is as it was.
pub read_sectors-disk_bytes :
    (drv : VdfDrive) (readers : Readers) (sector_bytes : ℕ → List ℕ) (mbr : List ℕ) (sector cnt : ℕ)
    (buffer : List ℕ)
    → drive_is_valid drv ≡ true
    → IsOrdered drv
    → Serves drv readers sector_bytes
    → (has drv.flags vdf_mbr ≡ true → ServesMbr drv readers mbr)
    → sector ≤ total_sectors drv
    → cnt < 2 ^ 31
    → cnt * drv.bps < 2 ^ 31
    → cnt * drv.bps ≤ length buffer
    → let m = min cnt (total_sectors drv - sector) in
      read_sectors drv readers sector cnt buffer
      ≡ ok (m, image (disk_bytes drv mbr sector_bytes) sector m ++ drop (m * drv.bps) buffer)
unfolding read_sectors
read_sectors-disk_bytes drv readers sector_bytes mbr sector zero buffer valid ordered serves
      serves_mbr in_drive small bytes room =
    let m : min 0 (total_sectors drv - sector) ≡ 0 = omega arith in
    let z : 0 * drv.bps ≡ 0 = omega arith in rw (valid, read_sectors, m, z)
read_sectors-disk_bytes drv readers sector_bytes mbr sector (suc cnt) buffer valid ordered serves
      serves_mbr in_drive small bytes room =
    elim (Bool-cases (has drv.flags vdf_mbr)) [
      | inl present ↦
          let total : total_sectors drv ≡ drv.sectors + drv.mbr_sectors =
            ap (λ b. drv.sectors + (if b then drv.mbr_sectors else 0)) present in
          rw (valid, read_sectors, ne→== (suc cnt) 0 (omega arith), present)
            (whole-IsRest drv readers sector_bytes ordered serves mbr present (serves_mbr present)
              sector (suc cnt) buffer (omega (arith, total)) (omega arith) (omega arith) bytes room)
      | inr absent ↦
          let total : total_sectors drv ≡ drv.sectors =
            ap (λ b. drv.sectors + (if b then drv.mbr_sectors else 0)) absent ∙ omega arith in
          let none_in_front : drv.sectors + 0 ≡ drv.sectors = omega arith in
          let m = min (suc cnt) (drv.sectors - sector) in
          let same =
            image-ext (disk_bytes drv mbr sector_bytes) sector_bytes m sector sector
              (λ i lt. rw absent refl) in
          rw (valid, read_sectors, ne→== (suc cnt) 0 (omega arith), absent, none_in_front, same)
            (IsRest-none_read drv.bps drv.sectors sector_bytes 0 _
              (read_partition-IsRest drv readers sector_bytes ordered serves) sector (suc cnt)
              buffer (omega arith) (omega (arith, total)) (omega arith) (omega arith) bytes room)
    ]
