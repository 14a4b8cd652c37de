-- ===== src/Boot/Area.antt =====
-- The boot area of libvdf/bootblock.c as the reader of an area of the image.
use vdf.Prelude.{
  ℕ, zero, suc, ◌+◌, ◌*◌, ◌≤◌, ◌<◌, ◌^◌, ◌≡◌, refl, sym, ap, ◌∙◌, List, [], ◌∷◌, ◌++◌, append_assoc,
  none, ok, arith, u8, u32, sub32, le_16, le_32, length, length-drop, length-replicate, drop,
  drop-drop, Bool-cases, inl, inr, ◌==◌, if◌then◌else◌, Bool, true, false, take-append, drop-append,
  replicate, le→ltb,
}
use vdf.Drive.{VdfDrive, Filesys, fat12, fat16, fat32, is_fat32}
use vdf.Fat.Loop.{memset_zero_lem}
use vdf.Read.Image.{image, IsReader}
use vdf.Boot.{
  puts, sector_cnt_16, fstype, oem_name, boot_writes, head_writes, common_writes, tail_writes,
  fat32_writes, fsinfo_writes, read_sector_boot, SectorKind, fsinfo, zeros, boot, sector_kind,
  write_sector,
}
use vdf.Boot.Writes.{LaidOut, concat, puts-LaidOut}

abbrev head_parts : VdfDrive → ℕ → ℕ → ℕ → List (List ℕ)
head_parts drv root cnt spf =
    (0 ∷ 0 ∷ 0 ∷ [])
    ∷ oem_name
    ∷ le_16 drv.bps
    ∷ (u8 drv.spc ∷ [])
    ∷ le_16 drv.fat1_start
    ∷ (2 ∷ [])
    ∷ le_16 root
    ∷ le_16 cnt
    ∷ (0xf8 ∷ [])
    ∷ le_16 spf
    ∷ le_16 1
    ∷ le_16 1
    ∷ []

-- Of a drive without a label.
abbrev common_parts : VdfDrive → List ℕ → List (List ℕ)
common_parts drv fs_type =
    (0x80 ∷ []) ∷ (0 ∷ []) ∷ (0x29 ∷ []) ∷ le_32 drv.serial ∷ replicate 11 32 ∷ fs_type ∷ []

abbrev tail_parts : ℕ → List (List ℕ)
tail_parts n = replicate n 0 ∷ (0xaa ∷ []) ∷ (0x55 ∷ []) ∷ []

-- The boot sector in the order of its bytes, for a drive without a label; that of FAT16 has the 32 bit
-- count of sectors.
abbrev pub boot_parts : VdfDrive → Filesys → List (List ℕ)
boot_parts drv fat12 =
    head_parts drv drv.root_dir_cnt (sector_cnt_16 drv) drv.fat_sectors
    ++ (le_16 0 ∷ tail_parts 480)
boot_parts drv fat16 =
    head_parts drv drv.root_dir_cnt 0 drv.fat_sectors
    ++ (le_32 0 ∷ le_32 drv.sectors ∷ (common_parts drv (fstype 49 54) ++ tail_parts 448))
boot_parts drv fat32 =
    head_parts drv 0 0 0
    ++ (le_32 0
        ∷ le_32 drv.sectors
        ∷ le_32 drv.fat_sectors
        ∷ le_16 0
        ∷ le_16 0
        ∷ le_32 (drv.files drv.root_dir).start
        ∷ le_16 1
        ∷ le_16 6
        ∷ replicate 12 0
        ∷ (common_parts drv (fstype 51 50) ++ tail_parts 420))

-- The FSInfo sector: the clusters that are free, and the next free one.
abbrev pub fsinfo_parts : VdfDrive → List (List ℕ)
fsinfo_parts drv =
    le_32 0x41615252
    ∷ replicate 480 0
    ∷ le_32 0x61417272
    ∷ le_32 (sub32 drv.clusters (sub32 drv.data_cluster_end 2))
    ∷ le_32 drv.data_cluster_end
    ∷ replicate 12 0
    ∷ le_32 0xaa550000
    ∷ []

-- The bytes of each kind of sector.
abbrev pub kind_bytes : VdfDrive → SectorKind → List ℕ
kind_bytes drv fsinfo = concat (fsinfo_parts drv)
kind_bytes drv zeros = replicate drv.bps 0
kind_bytes drv boot = concat (boot_parts drv drv.filesys)

-- The bytes of a sector of the boot area, of FAT32 or not.
abbrev area_bytes : VdfDrive → Bool → ℕ → List ℕ
area_bytes drv true s =
    if s == 1
    then concat (fsinfo_parts drv)
    else if s == 6
    then concat (boot_parts drv drv.filesys)
    else if s == 0
    then concat (boot_parts drv drv.filesys)
    else replicate drv.bps 0
area_bytes drv false s = if s == 0 then concat (boot_parts drv drv.filesys) else replicate drv.bps 0

abbrev pub boot_bytes : VdfDrive → ℕ → List ℕ
boot_bytes drv s = area_bytes drv (is_fat32 drv.filesys) s

kind_bytes-area_bytes :
    (drv : VdfDrive) (wide : Bool) (s : ℕ)
    → kind_bytes drv (sector_kind wide s) ≡ area_bytes drv wide s
kind_bytes-area_bytes drv false s = elim (Bool-cases (s == 0)) [
  | inl e ↦ rw e refl
  | inr e ↦ rw e refl
]
kind_bytes-area_bytes drv true s = elim (Bool-cases (s == 1)) [
  | inl e ↦ rw e refl
  | inr e ↦ elim (Bool-cases (s == 6)) [
    | inl f ↦ rw (e, f) refl
    | inr f ↦ elim (Bool-cases (s == 0)) [ inl g ↦ rw (e, f, g) refl | inr g ↦ rw (e, f, g) refl ]
  ]
]

-- 512 bytes to a sector, no label, and a FAT16 drive has at least 65536 sectors.
pub record IsPlain (drv : VdfDrive) : Type 0 where
  pub bps : drv.bps ≡ 512
  pub label : drv.label ≡ none
  pub many : drv.filesys ≡ fat16 → 65536 ≤ drv.sectors

-- The writes of a drive without a label.
abbrev large_writes : VdfDrive → List (ℕ × List ℕ)
large_writes drv =
    head_writes drv drv.root_dir_cnt 0 drv.fat_sectors
    ++ ((28, le_32 0)
        ∷ (32, le_32 drv.sectors)
        ∷ (54, fstype 49 54)
        ∷ (common_writes (record drv { label = none }) 36 ++ tail_writes 62))

abbrev no_label : VdfDrive → List (ℕ × List ℕ)
no_label drv =
    head_writes drv 0 0 0
    ++ (fat32_writes drv ++ (common_writes (record drv { label = none }) 64 ++ tail_writes 90))

cnt_zero : (drv : VdfDrive) → 65536 ≤ drv.sectors → sector_cnt_16 drv ≡ 0
cnt_zero drv h = rw (le→ltb drv.sectors 0x10000 h) refl

written :
    (drv : VdfDrive) (f : Filesys) (buf : List ℕ)
    → drv.label ≡ none
    → (f ≡ fat16 → 65536 ≤ drv.sectors)
    → 512 ≤ length buf
    → puts (boot_writes drv f) buf ≡ ok (concat (boot_parts drv f) ++ drop 512 buf)
written drv fat12 buf label many room =
    puts-LaidOut (boot_writes drv fat12) (boot_parts drv fat12) 512 buf refl laid refl room
  where
    laid : LaidOut (boot_writes drv fat12) 0 (boot_parts drv fat12)
    laid = (
      refl,
      (
        refl,
        (
          refl,
          (
            refl,
            (
              refl,
              (
                refl,
                (refl, (refl, (refl, (refl, (refl, (refl, (refl, (refl, (refl, (refl, tt)))))))))),
              ),
            ),
          ),
        ),
      ),
    )
written drv fat16 buf label many room =
    rw (cnt_zero drv (many refl), label)
      (puts-LaidOut (large_writes drv) (boot_parts drv fat16) 512 buf refl laid refl room)
  where
    laid : LaidOut (large_writes drv) 0 (boot_parts drv fat16)
    laid = (
      refl,
      (
        refl,
        (
          refl,
          (
            refl,
            (
              refl,
              (
                refl,
                (
                  refl,
                  (
                    refl,
                    (
                      refl,
                      (
                        refl,
                        (
                          refl,
                          (
                            refl,
                            (
                              refl,
                              (
                                refl,
                                (
                                  refl,
                                  (
                                    refl,
                                    (refl, (refl, (refl, (refl, (refl, (refl, (refl, tt))))))),
                                  ),
                                ),
                              ),
                            ),
                          ),
                        ),
                      ),
                    ),
                  ),
                ),
              ),
            ),
          ),
        ),
      ),
    )
written drv fat32 buf label many room =
    rw label (puts-LaidOut (no_label drv) (boot_parts drv fat32) 512 buf refl laid refl room)
  where
    laid : LaidOut (no_label drv) 0 (boot_parts drv fat32)
    laid = (
      refl,
      (
        refl,
        (
          refl,
          (
            refl,
            (
              refl,
              (
                refl,
                (
                  refl,
                  (
                    refl,
                    (
                      refl,
                      (
                        refl,
                        (
                          refl,
                          (
                            refl,
                            (
                              refl,
                              (
                                refl,
                                (
                                  refl,
                                  (
                                    refl,
                                    (
                                      refl,
                                      (
                                        refl,
                                        (
                                          refl,
                                          (
                                            refl,
                                            (
                                              refl,
                                              (
                                                refl,
                                                (
                                                  refl,
                                                  (
                                                    refl,
                                                    (
                                                      refl,
                                                      (refl, (refl, (refl, (refl, (refl, tt))))),
                                                    ),
                                                  ),
                                                ),
                                              ),
                                            ),
                                          ),
                                        ),
                                      ),
                                    ),
                                  ),
                                ),
                              ),
                            ),
                          ),
                        ),
                      ),
                    ),
                  ),
                ),
              ),
            ),
          ),
        ),
      ),
    )

fsinfo_written :
    (drv : VdfDrive) (buf : List ℕ)
    → 512 ≤ length buf
    → puts (fsinfo_writes drv) buf ≡ ok (concat (fsinfo_parts drv) ++ drop 512 buf)
fsinfo_written drv buf room =
    puts-LaidOut (fsinfo_writes drv) (fsinfo_parts drv) 512 buf refl laid refl room
  where
    laid : LaidOut (fsinfo_writes drv) 0 (fsinfo_parts drv)
    laid = (refl, (refl, (refl, (refl, (refl, (refl, (refl, tt)))))))

length-kind_bytes :
    (drv : VdfDrive) (k : SectorKind) → drv.bps ≡ 512 → length (kind_bytes drv k) ≡ drv.bps
length-kind_bytes drv fsinfo e = sym e
length-kind_bytes drv zeros e = length-replicate drv.bps 0
length-kind_bytes drv boot e = go drv.filesys ∙ sym e
  where
    go : (f : Filesys) → length (concat (boot_parts drv f)) ≡ 512
    go fat12 = refl
    go fat16 = refl
    go fat32 = refl

module _ (drv : VdfDrive) (plain : IsPlain drv) where
  write_sector-kind_bytes :
      (k : SectorKind) (buf : List ℕ)
      → drv.bps ≤ length buf
      → write_sector drv k buf ≡ ok (kind_bytes drv k ++ drop drv.bps buf)
  write_sector-kind_bytes fsinfo buf room =
      fsinfo_written drv buf (omega (arith, plain.bps))
      ∙ ap (λ n. ok (concat (fsinfo_parts drv) ++ drop n buf)) (sym plain.bps)
  write_sector-kind_bytes zeros buf room = memset_zero_lem drv.bps buf room
  write_sector-kind_bytes boot buf room =
      written drv drv.filesys buf plain.label plain.many (omega (arith, plain.bps))
      ∙ ap (λ n. ok (concat (boot_parts drv drv.filesys) ++ drop n buf)) (sym plain.bps)

  -- read_sector_boot reads the boot area of the image: the boot sector, that of FAT32 again in sector 6
  -- and FSInfo in sector 1, and zeros in all the others.
  loop-image :
      (n s : ℕ) (buf : List ℕ)
      → s + n < 2 ^ 32
      → n * drv.bps ≤ length buf
      → read_sector_boot drv s n buf ≡ ok (image (boot_bytes drv) s n ++ drop (n * drv.bps) buf)
  unfolding read_sector_boot
  loop-image zero s buf top room = let z : 0 * drv.bps ≡ 0 = omega arith in rw z
  loop-image (suc n) s buf top room =
      let kind = sector_kind (is_fat32 drv.filesys) s in
      let here = boot_bytes drv s in
      let rest = drop drv.bps buf in
      let same = kind_bytes-area_bytes drv (is_fat32 drv.filesys) s in
      let len : length here ≡ drv.bps =
        sym (ap length same) ∙ length-kind_bytes drv kind plain.bps in
      let first = write_sector-kind_bytes kind buf (omega arith) ∙ ap (λ b. ok (b ++ rest)) same in
      let next : u32 (s + 1) ≡ s + 1 = omega arith in
      rw
        (
          first,
          take-append here rest drv.bps (sym len),
          drop-append here rest drv.bps (sym len),
          next,
          loop-image n (s + 1) rest (omega arith) (omega (arith, length-drop drv.bps buf)),
          drop-drop drv.bps (n * drv.bps) (suc n * drv.bps) buf (omega arith),
        )
        (ap (λ t. ok t)
          (sym (append_assoc here (image (boot_bytes drv) (s + 1) n) (drop (suc n * drv.bps) buf))))

-- At 512 bytes to a sector, on a drive without a label, and if it is FAT16 of at least 65536 sectors,
-- read_sector_boot reads the boot area of the image: whatever the buffer holds before, it fills sector
-- 0, and for FAT32 sector 6, with the boot sector, for FAT32 sector 1 with FSInfo, which tells the free
-- clusters and the next free one, and all others with zeros, and leaves the buffer behind the sectors
-- asked for as it is. The sector numbers are below 2 ^ 32.
pub read_sector_boot-IsReader :
    (drv : VdfDrive) (total hi : ℕ)
    → IsPlain drv
    → hi < 2 ^ 32
    → IsReader drv.bps total (boot_bytes drv) 0 hi (read_sector_boot drv)
read_sector_boot-IsReader drv total hi plain top s n buf sized le end few room =
    loop-image drv plain n s buf (omega arith) room
