-- ===== src/Boot/Fields.antt =====
-- The boot sector of libvdf/bootblock.c, read back as the FAT file system lays it out.
use vdf.Prelude.{
  ℕ, zero, suc, ◌+◌, ◌*◌, ◌≤◌, ◌<◌, ◌^◌, ◌≡◌, refl, sym, ap, ◌∙◌, inl, inr, Bool, true, false,
  Bool-cases, List, [], ◌∷◌, ◌++◌, Option, none, some, arith, ◌==◌, if◌then◌else◌, le_16, le_32,
  length, length-append, take-append-drop, u8, ok, leb, ltb, le→leb, ltb→lt, ltb→le, lt→ltb, le→ltb,
  ==→ne, ne→==,
}
use vdf.Drive.{VdfDrive, Filesys, fat12, fat16, fat32, is_fat32}
use vdf.File.Names.{stuff_dosname}
use vdf.Read.Bytes.Slices.{slice}
use vdf.Boot.{
  puts, label_text, label_bytes, sector_cnt_16, head_writes, fat16_writes, boot_writes, boot_sector,
  read_sector_boot, sector_kind, write_sector, boot,
}
use vdf.Boot.Writes.{field, fits, puts-field, puts_within}

-- The number that bytes in little-endian order stand for.
abbrev pub from_le : List ℕ → ℕ
from_le [] = 0
from_le (b ∷ bytes) = b + 256 * from_le bytes

-- The BIOS parameter block, by the offsets of the FAT specification. The sectors are counted in 16 bits,
-- or in 32 where that count is zero, and so are the sectors of a FAT.
pub record Bpb : Type 0 where
  pub bytes_per_sector : ℕ
  pub sectors_per_cluster : ℕ
  pub reserved_sectors : ℕ
  pub fat_cnt : ℕ
  pub root_entries : ℕ
  pub total_sectors : ℕ
  pub sectors_per_fat : ℕ

abbrev pub or_else : ℕ → ℕ → ℕ
or_else n m = if n == 0 then m else n

abbrev pub parse_bpb : List ℕ → Bpb
parse_bpb sector = record {
  bytes_per_sector = from_le (slice sector 11 2);
  sectors_per_cluster = from_le (slice sector 13 1);
  reserved_sectors = from_le (slice sector 14 2);
  fat_cnt = from_le (slice sector 16 1);
  root_entries = from_le (slice sector 17 2);
  total_sectors = or_else (from_le (slice sector 19 2)) (from_le (slice sector 32 4));
  sectors_per_fat = or_else (from_le (slice sector 22 2)) (from_le (slice sector 36 4));
}

-- What the drive has.
abbrev pub bpb_of : VdfDrive → Bpb
bpb_of drv = record {
  bytes_per_sector = drv.bps;
  sectors_per_cluster = drv.spc;
  reserved_sectors = drv.fat1_start;
  fat_cnt = 2;
  root_entries = if is_fat32 drv.filesys then 0 else drv.root_dir_cnt;
  total_sectors = drv.sectors;
  sectors_per_fat = drv.fat_sectors;
}

from_le_16 : (v : ℕ) → v < 65536 → from_le (le_16 v) ≡ v
from_le_16 v h = omega arith

from_le_32 : (v : ℕ) → v < 2 ^ 32 → from_le (le_32 v) ≡ v
from_le_32 v h = omega arith

-- A blank takes nothing, any other character a byte.
stuffed_le : (c : ℕ) → length (stuff_dosname c) ≤ 1
unfolding stuff_dosname
stuffed_le c = ground arith

label_text_le : (n : ℕ) (s : List ℕ) → length (label_text n s) ≤ n
unfolding label_text
label_text_le zero s = omega arith
label_text_le (suc n) [] = omega (arith, label_text_le n [])
label_text_le (suc n) (c ∷ s) =
    omega (arith, label_text_le n s, stuffed_le c, length-append (stuff_dosname c) (label_text n s))

label_bytes_le : (label : Option (List ℕ)) → length (label_bytes label) ≤ 12
label_bytes_le none = omega arith
label_bytes_le (some l) = label_text_le 12 l

-- The fields fit into their bytes.
pub record FitsBpb (drv : VdfDrive) : Type 0 where
  pub bps : drv.bps < 65536
  pub spc : drv.spc < 256
  pub fat1_start : drv.fat1_start < 65536
  pub root_dir_cnt : drv.root_dir_cnt < 65536
  pub some_sectors : 1 ≤ drv.sectors
  pub sectors : drv.sectors < 2 ^ 32
  pub fat12_sectors : drv.filesys ≡ fat12 → drv.sectors < 65536
  pub fat_sectors : drv.fat_sectors < 2 ^ 32
  pub fat_small : is_fat32 drv.filesys ≡ false → (1 ≤ drv.fat_sectors) × (drv.fat_sectors < 65536)

-- The writes of a boot sector, where `large` tells whether the 32 bit count of FAT16 is among them.
abbrev writes_of : VdfDrive → Filesys → Bool → List (ℕ × List ℕ)
writes_of drv fat12 large = boot_writes drv fat12
writes_of drv fat16 large =
    head_writes drv drv.root_dir_cnt (sector_cnt_16 drv) drv.fat_sectors ++ fat16_writes drv large
writes_of drv fat32 large = boot_writes drv fat32

same_writes :
    (drv : VdfDrive) (f : Filesys) → boot_writes drv f ≡ writes_of drv f (sector_cnt_16 drv == 0)
same_writes drv fat12 = refl
same_writes drv fat16 = refl
same_writes drv fat32 = refl

within_label :
    (base : ℕ) (label : Option (List ℕ))
    → base ≤ 500
    → leb (base + length (label_bytes label)) 512 ≡ true
within_label base label h = le→leb _ _ (omega (arith, label_bytes_le label))

fits-writes_of :
    (drv : VdfDrive) (f : Filesys) (large : Bool) → fits 512 (writes_of drv f large) ≡ true
fits-writes_of drv fat12 large = refl
fits-writes_of drv fat16 true = rw (within_label 43 drv.label (omega arith)) refl
fits-writes_of drv fat16 false = rw (within_label 43 drv.label (omega arith)) refl
fits-writes_of drv fat32 large = rw (within_label 71 drv.label (omega arith)) refl

-- The fields that all three have, as they are written.
record Written (drv : VdfDrive) (ws : List (ℕ × List ℕ)) (root cnt spf : ℕ) : Type 0 where
  bps : field ws 11 2 ≡ some (le_16 drv.bps)
  spc : field ws 13 1 ≡ some (u8 drv.spc ∷ [])
  reserved : field ws 14 2 ≡ some (le_16 drv.fat1_start)
  fats : field ws 16 1 ≡ some (2 ∷ [])
  root_entries : field ws 17 2 ≡ some (le_16 root)
  count : field ws 19 2 ≡ some (le_16 cnt)
  per_fat : field ws 22 2 ≡ some (le_16 spf)

fat12-Written :
    (drv : VdfDrive)
    → Written drv (writes_of drv fat12 true) drv.root_dir_cnt (sector_cnt_16 drv) drv.fat_sectors
fat12-Written drv = record {
  bps = refl;
  spc = refl;
  reserved = refl;
  fats = refl;
  root_entries = refl;
  count = refl;
  per_fat = refl;
}

fat16-Written :
    (drv : VdfDrive) (large : Bool)
    → Written drv (writes_of drv fat16 large) drv.root_dir_cnt (sector_cnt_16 drv) drv.fat_sectors
fat16-Written drv true = record {
  bps = refl;
  spc = refl;
  reserved = refl;
  fats = refl;
  root_entries = refl;
  count = refl;
  per_fat = refl;
}
fat16-Written drv false = record {
  bps = refl;
  spc = refl;
  reserved = refl;
  fats = refl;
  root_entries = refl;
  count = refl;
  per_fat = refl;
}

fat32-Written : (drv : VdfDrive) → Written drv (writes_of drv fat32 true) 0 0 0
fat32-Written drv = record {
  bps = refl;
  spc = refl;
  reserved = refl;
  fats = refl;
  root_entries = refl;
  count = refl;
  per_fat = refl;
}

-- The block, once its fields are known.
parsed :
    (drv : VdfDrive) (ws : List (ℕ × List ℕ)) (root cnt spf : ℕ) (buf out : List ℕ)
    → FitsBpb drv
    → Written drv ws root cnt spf
    → puts ws buf ≡ ok out
    → root < 65536
    → cnt < 65536
    → spf < 65536
    → parse_bpb out ≡ record {
      bytes_per_sector = drv.bps;
      sectors_per_cluster = drv.spc;
      reserved_sectors = drv.fat1_start;
      fat_cnt = 2;
      root_entries = root;
      total_sectors = or_else cnt (from_le (slice out 32 4));
      sectors_per_fat = or_else spf (from_le (slice out 36 4));
    }
parsed drv ws root cnt spf buf out small w done h k l =
    let spc : from_le (u8 drv.spc ∷ []) ≡ drv.spc = omega (arith, small.spc) in
    rw
      (
        puts-field ws 11 2 buf out (le_16 drv.bps) done w.bps,
        puts-field ws 13 1 buf out (u8 drv.spc ∷ []) done w.spc,
        puts-field ws 14 2 buf out (le_16 drv.fat1_start) done w.reserved,
        puts-field ws 16 1 buf out (2 ∷ []) done w.fats,
        puts-field ws 17 2 buf out (le_16 root) done w.root_entries,
        puts-field ws 19 2 buf out (le_16 cnt) done w.count,
        puts-field ws 22 2 buf out (le_16 spf) done w.per_fat,
        from_le_16 drv.bps small.bps,
        spc,
        from_le_16 drv.fat1_start small.fat1_start,
        from_le_16 root h,
        from_le_16 cnt k,
        from_le_16 spf l,
      )
      refl

abbrev small_bpb : VdfDrive → ℕ → Bpb
small_bpb drv root = record {
  bytes_per_sector = drv.bps;
  sectors_per_cluster = drv.spc;
  reserved_sectors = drv.fat1_start;
  fat_cnt = 2;
  root_entries = root;
  total_sectors = drv.sectors;
  sectors_per_fat = drv.fat_sectors;
}

or_else_first : (n m : ℕ) → 1 ≤ n → or_else n m ≡ n
or_else_first n m h = rw (ne→== n 0 (omega arith)) refl

cnt_small : (drv : VdfDrive) → drv.sectors < 65536 → sector_cnt_16 drv ≡ drv.sectors
cnt_small drv h = rw (lt→ltb drv.sectors 0x10000 h) refl

cnt_large : (drv : VdfDrive) → 65536 ≤ drv.sectors → sector_cnt_16 drv ≡ 0
cnt_large drv h = rw (le→ltb drv.sectors 0x10000 h) refl

cnt_fits : (drv : VdfDrive) → sector_cnt_16 drv < 65536
cnt_fits drv = elim (Bool-cases (ltb drv.sectors 0x10000)) [
  | inl small ↦ omega (arith, cnt_small drv (ltb→lt _ _ small), ltb→lt _ _ small)
  | inr large ↦ omega (arith, cnt_large drv (ltb→le _ _ large))
]

root_as :
    (drv : VdfDrive) (f : Filesys)
    → drv.filesys ≡ f
    → (if is_fat32 f then 0 else drv.root_dir_cnt)
      ≡ (if is_fat32 drv.filesys then 0 else drv.root_dir_cnt)
root_as drv f e = ap (λ g. if is_fat32 g then 0 else drv.root_dir_cnt) (sym e)

module _ (drv : VdfDrive) (buf out : List ℕ) (small : FitsBpb drv) where
  total_16 :
      (large : Bool)
      → (sector_cnt_16 drv == 0) ≡ large
      → puts (writes_of drv fat16 large) buf ≡ ok out
      → or_else (sector_cnt_16 drv) (from_le (slice out 32 4)) ≡ drv.sectors
  total_16 true l done =
      rw
        (
          l,
          puts-field (writes_of drv fat16 true) 32 4 buf out (le_32 drv.sectors) done refl,
          from_le_32 drv.sectors small.sectors,
        )
        refl
  total_16 false l done = elim (Bool-cases (ltb drv.sectors 0x10000)) [
    | inl few ↦
        rw (cnt_small drv (ltb→lt _ _ few))
          (or_else_first drv.sectors (from_le (slice out 32 4)) small.some_sectors)
    | inr many ↦ absurd (==→ne (sector_cnt_16 drv) 0 l (cnt_large drv (ltb→le _ _ many)))
  ]

  parsed_12 :
      drv.filesys ≡ fat12
      → puts (writes_of drv fat12 true) buf ≡ ok out
      → parse_bpb out ≡ small_bpb drv drv.root_dir_cnt
  parsed_12 e done =
      let spf = small.fat_small (rw e refl) in
      parsed drv (writes_of drv fat12 true) drv.root_dir_cnt (sector_cnt_16 drv) drv.fat_sectors buf
        out small (fat12-Written drv) done small.root_dir_cnt (cnt_fits drv) spf.1
      ∙ rw
          (
            cnt_small drv (small.fat12_sectors e),
            or_else_first drv.sectors (from_le (slice out 32 4)) small.some_sectors,
            or_else_first drv.fat_sectors (from_le (slice out 36 4)) spf.0,
          )
          refl

  parsed_16 :
      (large : Bool)
      → (sector_cnt_16 drv == 0) ≡ large
      → drv.filesys ≡ fat16
      → puts (writes_of drv fat16 large) buf ≡ ok out
      → parse_bpb out ≡ small_bpb drv drv.root_dir_cnt
  parsed_16 large l e done =
      let spf = small.fat_small (rw e refl) in
      parsed drv (writes_of drv fat16 large) drv.root_dir_cnt (sector_cnt_16 drv) drv.fat_sectors
        buf out small (fat16-Written drv large) done small.root_dir_cnt (cnt_fits drv) spf.1
      ∙ rw (total_16 large l done, or_else_first drv.fat_sectors (from_le (slice out 36 4)) spf.0)
          refl

  parsed_32 : puts (writes_of drv fat32 true) buf ≡ ok out → parse_bpb out ≡ small_bpb drv 0
  parsed_32 done =
      parsed drv (writes_of drv fat32 true) 0 0 0 buf out small (fat32-Written drv) done
        (omega arith) (omega arith) (omega arith)
      ∙ rw
          (
            puts-field (writes_of drv fat32 true) 32 4 buf out (le_32 drv.sectors) done refl,
            puts-field (writes_of drv fat32 true) 36 4 buf out (le_32 drv.fat_sectors) done refl,
            from_le_32 drv.sectors small.sectors,
            from_le_32 drv.fat_sectors small.fat_sectors,
          )
          refl

first_kind : (f : Filesys) → sector_kind (is_fat32 f) 0 ≡ boot
first_kind fat12 = refl
first_kind fat16 = refl
first_kind fat32 = refl

-- Sector 0 of the boot area is a boot sector.
sector_zero :
    (drv : VdfDrive) (f : Filesys) (buf : List ℕ)
    → drv.filesys ≡ f
    → boot_sector drv 0 buf ≡ puts (boot_writes drv f) buf
sector_zero drv f buf e =
    ap (λ k. write_sector drv k buf) (first_kind drv.filesys)
    ∙ ap (λ g. puts (boot_writes drv g) buf) e

-- read_sector_boot for one sector.
one_sector :
    (drv : VdfDrive) (sector : ℕ) (buf out : List ℕ)
    → boot_sector drv sector buf ≡ ok out
    → read_sector_boot drv sector 1 buf ≡ ok out
unfolding read_sector_boot
one_sector drv sector buf out h =
    rw (read_sector_boot, h) (ap (λ t. ok t) (take-append-drop drv.bps out))

parsed_of :
    (drv : VdfDrive) (f : Filesys) (buf out : List ℕ)
    → FitsBpb drv
    → drv.filesys ≡ f
    → puts (boot_writes drv f) buf ≡ ok out
    → parse_bpb out ≡ bpb_of drv
parsed_of drv fat12 buf out small e done =
    parsed_12 drv buf out small e done ∙ ap (small_bpb drv) (root_as drv fat12 e)
parsed_of drv fat16 buf out small e done =
    parsed_16 drv buf out small (sector_cnt_16 drv == 0) refl e done
    ∙ ap (small_bpb drv) (root_as drv fat16 e)
parsed_of drv fat32 buf out small e done =
    parsed_32 drv buf out small done ∙ ap (small_bpb drv) (root_as drv fat32 e)

-- The boot sector tells the geometry of the drive: whatever the buffer holds before, from 512 bytes of
-- it on, read_sector_boot fills sector 0 so that the BIOS parameter block, read at the offsets of the
-- FAT specification, has the sector size, the sectors of a cluster, the reserved sectors, two FATs,
-- the entries of the root directory (none for FAT32), the number of sectors and the sectors of a FAT
-- of the drive. These fit into their fields: a FAT12 drive has less than 65536 sectors, and a FAT of
-- FAT12 or FAT16 as well.
pub read_sector_boot-parse_bpb :
    (drv : VdfDrive) (buffer : List ℕ)
    → FitsBpb drv
    → 512 ≤ length buffer
    → (out : List ℕ) × (read_sector_boot drv 0 1 buffer ≡ ok out) × (parse_bpb out ≡ bpb_of drv)
read_sector_boot-parse_bpb drv buffer small room =
    let f = drv.filesys in
    let large = sector_cnt_16 drv == 0 in
    let same = same_writes drv f in
    let (out, made, len) =
      puts_within 512 (writes_of drv f large) buffer (fits-writes_of drv f large) room in
    let done : puts (boot_writes drv f) buffer ≡ ok out = ap (λ ws. puts ws buffer) same ∙ made in
    (
      out,
      one_sector drv 0 buffer out (sector_zero drv f buffer refl ∙ done),
      parsed_of drv f buffer out small refl done,
    )
