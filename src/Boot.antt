-- ===== src/Boot.antt =====
-- libvdf/bootblock.c: the boot sectors, the FSInfo sector of FAT32 and the MBR. A structure that lies
-- on the buffer is written field by field: the writes are listed in the order of the code, each with
-- its offset. (The code under `#if 0` is not modelled.)
pub mod Writes
pub mod Fields
pub mod Mbr
pub mod Area
pub mod Tests
use vdf.Prelude.{
  ℕ, Bool, zero, suc, ◌+◌, ◌-◌, not, ◌&&◌, List, [], ◌∷◌, ◌++◌, Option, none, some, Result, ok,
  fault, map_ok, ◌>>=◌, ltb, leb, ◌==◌, if◌then◌else◌, u8, u32, sub32, le_16, le_32, length, take,
  drop, replicate,
}
use vdf.Drive.{VdfDrive, Filesys, fat12, fat16, fat32, is_fat32}
use vdf.Fat.{memset_zero}
use vdf.Read.{Reader}
use vdf.File.Names.{stuff_dosname}

-- Bytes written at an offset from the pointer, and a list of such writes.
abbrev pub put : ℕ × List ℕ → List ℕ → Result (List ℕ)
put (off, bytes) buf =
    if leb (off + length bytes) (length buf)
    then ok (take off buf ++ (bytes ++ drop (off + length bytes) buf))
    else fault

unfoldable pub puts : List (ℕ × List ℕ) → List ℕ → Result (List ℕ)
puts [] buf = ok buf
puts (w ∷ ws) buf = put w buf >>= puts ws

-- The bytes written from `common->label` on: the two loops run while i <= 11, twelve times in all. A
-- blank in the label is passed over and writes nothing.
pub label_text : ℕ → List ℕ → List ℕ
unfolding stuff_dosname
label_text zero s = []
label_text (suc n) [] = 32 ∷ label_text n []
label_text (suc n) (c ∷ s) = stuff_dosname c ++ label_text n s

abbrev pub label_bytes : Option (List ℕ) → List ℕ
label_bytes none = replicate 11 32
label_bytes (some l) = label_text 12 l

-- struct boot16_32_common, at `base`.
abbrev pub common_writes : VdfDrive → ℕ → List (ℕ × List ℕ)
common_writes drv base =
    (base, 0x80 ∷ [])
    ∷ (base + 1, 0 ∷ [])
    ∷ (base + 2, 0x29 ∷ [])
    ∷ (base + 3, le_32 drv.serial)
    ∷ (base + 7, label_bytes drv.label)
    ∷ []

-- "MSWIN4.1", "FAT16   " and "FAT32   ".
abbrev pub oem_name : List ℕ
oem_name = 77 ∷ 83 ∷ 87 ∷ 73 ∷ 78 ∷ 52 ∷ 46 ∷ 49 ∷ []

abbrev pub fstype : ℕ → ℕ → List ℕ
fstype a b = 70 ∷ 65 ∷ 84 ∷ a ∷ b ∷ 32 ∷ 32 ∷ 32 ∷ []

-- `boot->sector_cnt` of FAT12 and FAT16.
abbrev pub sector_cnt_16 : VdfDrive → ℕ
sector_cnt_16 drv = if ltb drv.sectors 0x10000 then drv.sectors else 0

abbrev pub head_writes : VdfDrive → ℕ → ℕ → ℕ → List (ℕ × List ℕ)
head_writes drv root_dir_cnt sector_cnt sectors_per_fat =
    (0, 0 ∷ 0 ∷ 0 ∷ [])
    ∷ (3, oem_name)
    ∷ (11, le_16 drv.bps)
    ∷ (13, u8 drv.spc ∷ [])
    ∷ (14, le_16 drv.fat1_start)
    ∷ (17, le_16 root_dir_cnt)
    ∷ (19, le_16 sector_cnt)
    ∷ (22, le_16 sectors_per_fat)
    ∷ (24, le_16 1)
    ∷ (16, 2 ∷ [])
    ∷ (21, 0xf8 ∷ [])
    ∷ (24, le_16 1)
    ∷ (26, le_16 1)
    ∷ []

-- `bootstrap`, up to the signature, and the signature.
abbrev pub tail_writes : ℕ → List (ℕ × List ℕ)
tail_writes bootstrap =
    (bootstrap, replicate (510 - bootstrap) 0) ∷ (510, 0xaa ∷ []) ∷ (511, 0x55 ∷ []) ∷ []

-- The 32 bit `sector_cnt` of FAT16 is written when the one of 16 bits is zero.
abbrev pub fat16_writes : VdfDrive → Bool → List (ℕ × List ℕ)
fat16_writes drv large =
    (28, le_32 0)
    ∷ ((if large then (32, le_32 drv.sectors) ∷ [] else [])
        ++ ((54, fstype 49 54) ∷ (common_writes drv 36 ++ tail_writes 62)))

abbrev pub fat32_writes : VdfDrive → List (ℕ × List ℕ)
fat32_writes drv =
    (28, le_32 0)
    ∷ (36, le_32 drv.fat_sectors)
    ∷ (32, le_32 drv.sectors)
    ∷ (40, le_16 0)
    ∷ (42, le_16 0)
    ∷ (44, le_32 (drv.files drv.root_dir).start)
    ∷ (48, le_16 1)
    ∷ (50, le_16 6)
    ∷ (52, replicate 12 0)
    ∷ (82, fstype 51 50)
    ∷ []

abbrev pub boot_writes : VdfDrive → Filesys → List (ℕ × List ℕ)
boot_writes drv fat12 =
    head_writes drv drv.root_dir_cnt (sector_cnt_16 drv) drv.fat_sectors
    ++ ((28, le_16 0) ∷ tail_writes 30)
boot_writes drv fat16 =
    head_writes drv drv.root_dir_cnt (sector_cnt_16 drv) drv.fat_sectors
    ++ fat16_writes drv (sector_cnt_16 drv == 0)
boot_writes drv fat32 =
    head_writes drv 0 0 0 ++ (fat32_writes drv ++ (common_writes drv 64 ++ tail_writes 90))

-- read_sector_fsinfo
abbrev pub fsinfo_writes : VdfDrive → List (ℕ × List ℕ)
fsinfo_writes drv =
    (0, le_32 0x41615252)
    ∷ (4, replicate 480 0)
    ∷ (484, le_32 0x61417272)
    ∷ (488, le_32 (sub32 drv.clusters (sub32 drv.data_cluster_end 2)))
    ∷ (492, le_32 drv.data_cluster_end)
    ∷ (496, replicate 12 0)
    ∷ (508, le_32 0xaa550000)
    ∷ []

-- What a sector of the boot area holds.
pub data SectorKind : Type 0 where
  fsinfo zeros boot : SectorKind

abbrev pub sector_kind : Bool → ℕ → SectorKind
sector_kind fat32_drive sector =
    if fat32_drive && (sector == 1)
    then fsinfo
    else if not (fat32_drive && (sector == 6)) && not (sector == 0)
    then zeros
    else boot

abbrev pub write_sector : VdfDrive → SectorKind → List ℕ → Result (List ℕ)
write_sector drv fsinfo buf = puts (fsinfo_writes drv) buf
write_sector drv zeros buf = memset_zero drv.bps buf
write_sector drv boot buf = puts (boot_writes drv drv.filesys) buf

abbrev pub boot_sector : VdfDrive → ℕ → List ℕ → Result (List ℕ)
boot_sector drv sector buf = write_sector drv (sector_kind (is_fat32 drv.filesys) sector) buf

-- `scnt` sectors from `sector` on.
pub read_sector_boot : VdfDrive → Reader
read_sector_boot drv sector zero buffer = ok buffer
read_sector_boot drv sector (suc scnt) buffer = boot_sector drv sector buffer >>= λ b.
    map_ok (λ r. take drv.bps b ++ r)
      (read_sector_boot drv (u32 (sector + 1)) scnt (drop drv.bps b))

abbrev pub part_type : Filesys → ℕ
part_type fat12 = 0x01
part_type fat16 = 0x0e
part_type fat32 = 0x0c

abbrev pub mbr_writes : VdfDrive → List (ℕ × List ℕ)
mbr_writes drv =
    (0, replicate 440 0)
    ∷ (440, le_32 drv.serial)
    ∷ (444, le_16 0)
    ∷ (446, 0x80 ∷ [])
    ∷ (450, part_type drv.filesys ∷ [])
    ∷ (447, replicate 3 0)
    ∷ (451, replicate 3 0)
    ∷ (454, le_32 drv.mbr_sectors)
    ∷ (458, le_32 drv.sectors)
    ∷ (462, replicate 48 0)
    ∷ (510, 0x55 ∷ [])
    ∷ (511, 0xaa ∷ [])
    ∷ []

abbrev pub read_sector_mbr : VdfDrive → List ℕ → Result (List ℕ)
read_sector_mbr drv buffer = puts (mbr_writes drv) buffer
