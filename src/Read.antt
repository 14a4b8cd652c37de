-- ===== src/Read.antt =====
-- vdf_read_sectors of libvdf/read.c: the areas of the image, one behind the other,
-- each read by a routine of its own. A buffer is the list of bytes from the pointer on.
pub mod Image
pub mod Sectors
pub mod Bytes
pub mod Tests
use vdf.Prelude.{
  ℕ, ◌+◌, ◌-◌, ◌*◌, true, false, not, List, ◌++◌, Result, ok, err, einval, ◌>>=◌, map_ok, ltb, leb,
  ◌==◌, if◌then◌else◌, u32, sub32, has, take, drop,
}
use vdf.Drive.{VdfDrive, is_fat32, drive_is_valid, vdf_mbr}
use vdf.Fat.{memset_zero}

-- The routines that fill sectors of an area: each takes a sector, counted from the start of its area
-- (of the drive, for the data), a number of sectors and the buffer.
abbrev pub Reader : Type 0
Reader = ℕ → ℕ → List ℕ → Result (List ℕ)

pub record Readers : Type 0 where
  pub read_sector_mbr : List ℕ → Result (List ℕ)
  pub read_sector_boot : Reader
  pub read_sector_fat : Reader
  pub read_sector_root : Reader
  pub read_sector_data : Reader

-- What is read behind an area, from a sector on: the sectors left, those read, and the buffer. The
-- result is the number of sectors read in all, and the buffer.
abbrev pub Rest : Type 0
Rest = ℕ → ℕ → ℕ → List ℕ → Result (ℕ × List ℕ)

-- With `want` sectors in the buffer: `rem -= want`, and so on.
abbrev pub advance : ℕ → Rest → ℕ → ℕ → ℕ → ℕ → List ℕ → Result (ℕ × List ℕ)
advance bps rest want sector rem cnt buff =
    if rem - want == 0
    then ok (u32 (cnt + want), buff)
    else map_ok (λ r. (r.0, take (want * bps) buff ++ r.1))
        (rest (u32 (sector + want)) (rem - want) (u32 (cnt + want)) (drop (want * bps) buff))

abbrev pub want_for : ℕ → ℕ → ℕ → ℕ
want_for limit sector rem = if leb limit (sector + rem) then sub32 limit sector else rem

-- An area that ends before the sector `limit`, and what lies behind it.
pub area : ℕ → ℕ → Reader → Rest → Rest
area bps limit reader rest sector rem cnt buff = elim (ltb sector limit) [
  | false ↦ rest sector rem cnt buff
  | true ↦
      let want = want_for limit sector rem in
      reader sector want buff >>= advance bps rest want sector rem cnt
]

-- Where the second FAT ends.
abbrev pub fats_end : VdfDrive → ℕ
fats_end drv = if is_fat32 drv.filesys then drv.data_start else drv.root_start

module _ (drv : VdfDrive) (readers : Readers) where
  -- The last area: as many sectors as the drive has.
  pub read_data_area : Rest
  read_data_area sector rem cnt buff =
      let want = want_for drv.sectors sector rem in
      map_ok (λ b. (u32 (cnt + want), b)) (readers.read_sector_data sector want buff)

  pub read_root_area : Rest
  unfolding area read_data_area
  read_root_area sector rem cnt buff = elim (is_fat32 drv.filesys) [
    | true ↦ read_data_area sector rem cnt buff
    | false ↦
        area drv.bps drv.data_start (λ s. readers.read_sector_root (sub32 s drv.root_start))
          read_data_area sector rem cnt buff
  ]

  -- From the first sector of the partition on.
  pub read_partition : Rest
  unfolding area read_root_area
  read_partition = area drv.bps drv.fat1_start readers.read_sector_boot (
      area drv.bps drv.fat2_start (λ s. readers.read_sector_fat (sub32 s drv.fat1_start))
        (area drv.bps (fats_end drv) (λ s. readers.read_sector_fat (sub32 s drv.fat2_start))
          read_root_area))

  -- Behind the MBR: the sectors up to the partition are zeros.
  abbrev zero_sectors : Reader
  zero_sectors sector want = memset_zero (drv.bps * want)

  pub read_behind_mbr : Rest
  unfolding area read_partition
  read_behind_mbr =
      area drv.bps drv.mbr_sectors zero_sectors
        (λ sector. read_partition (sub32 sector drv.mbr_sectors))

  -- The number of sectors read, and the buffer after the call. The number is returned as an int: it is
  -- given by its 32 bits, and stands for a negative one from 2 ^ 31 on.
  pub read_sectors : ℕ → ℕ → List ℕ → Result (ℕ × List ℕ)
  unfolding read_partition read_behind_mbr
  read_sectors sector cnt buffer =
      if not (drive_is_valid drv)
      then err einval
      else if cnt == 0
      then ok (0, buffer)
      else if not (has drv.flags vdf_mbr)
      then read_partition sector cnt 0 buffer
      else if sector == 0
      then (readers.read_sector_mbr buffer >>= advance drv.bps read_behind_mbr 1 sector cnt 0)
      else read_behind_mbr sector cnt 0 buffer
