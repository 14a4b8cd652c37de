-- ===== src/Read/Tests.antt =====
-- A read across the areas of a small drive.
use vdf.Prelude.{ℕ, ◌*◌, ◌≡◌, refl, sym, ap, ◌∙◌, List, [], ◌∷◌, ◌++◌, replicate, ok, arith, drop}
use vdf.Drive.{VdfDrive, fat32}
use vdf.Samples.{unplaced}
use vdf.Fat.{memset_zero}
use vdf.Fat.Loop.{memset_zero_lem}
use vdf.Read.{Reader, Readers, read_sectors}
use vdf.Read.Image.{image, IsReader}
use vdf.Read.Bytes.{read_bytes}
use vdf.Read.Bytes.Slices.{slice}
use vdf.Read.Bytes.Disk.{read_bytes-slice}
use vdf.Read.Bytes.Parts.{read_parts, read_bytes-read_parts}
use vdf.Read.Sectors.{image-zeros, IsOrdered, Serves, disk_bytes, read_sectors-disk_bytes}

-- Four bytes to a sector, and every sector filled with zeros.
abbrev tiny : VdfDrive
tiny = record unplaced { filesys = fat32; bps = 4 }

abbrev fill : Reader
fill s n buf = memset_zero (n * 4) buf

abbrev fillers : Readers
fillers = record {
  read_sector_mbr = λ buf. memset_zero 4 buf;
  read_sector_boot = fill;
  read_sector_fat = fill;
  read_sector_root = fill;
  read_sector_data = fill;
}

abbrev zeros : ℕ → List ℕ
zeros s = 0 ∷ 0 ∷ 0 ∷ 0 ∷ []

fill-IsReader : (lo hi : ℕ) → IsReader 4 5000 zeros lo hi fill
fill-IsReader lo hi s n buf some le end few room =
    memset_zero_lem (n * 4) buf room
    ∙ ap (λ t. ok (t ++ drop (n * 4) buf))
        (sym (image-zeros zeros 4 n s (n * 4) refl (λ i lt. refl)))

fill-none : (s : ℕ) (buf : List ℕ) → fill s 0 buf ≡ ok buf
fill-none s buf = memset_zero_lem 0 buf (omega arith)

tiny-Serves : Serves tiny fillers zeros
tiny-Serves = record {
  width = λ s. refl;
  boot = fill-IsReader 0 1;
  fat1 = λ s. fill-IsReader 1 20 s;
  fat2 = λ s. fill-IsReader 20 71 s;
  wide = refl;
  data_area = fill-IsReader 71 5000;
  data_none = fill-none;
}

tiny-IsOrdered : IsOrdered tiny
tiny-IsOrdered = record {
  fats = omega arith;
  fats_le = omega arith;
  root_le = omega arith;
  data_le = omega arith;
  small = omega arith;
}

-- From the second FAT into the root directory.
read_sectors-disk_bytes_example :
    read_sectors tiny fillers 38 3 (replicate 13 7)
    ≡ ok (3, image (disk_bytes tiny [] zeros) 38 3 ++ drop 12 (replicate 13 7))
read_sectors-disk_bytes_example =
    read_sectors-disk_bytes tiny fillers zeros [] 38 3 (replicate 13 7) refl tiny-IsOrdered
      tiny-Serves (λ e. cc) (omega arith) (omega arith) (omega arith) (omega arith)

-- From the last byte of a sector into the one after the next.
read_bytes-slice_example :
    read_bytes tiny fillers (replicate 4 9) 155 6 (replicate 7 8)
    ≡ ok (6, slice (image (disk_bytes tiny [] zeros) 0 5000) 155 6 ++ drop 6 (replicate 7 8))
read_bytes-slice_example =
    read_bytes-slice tiny fillers zeros [] (replicate 4 9) 155 6 (replicate 7 8) refl tiny-IsOrdered
      tiny-Serves (λ e. cc) 2 refl (omega arith) refl (omega arith) (omega arith) (omega arith)

-- The same bytes, by a call that ends in the middle of a sector, and another.
read_bytes-read_parts_example :
    read_bytes tiny fillers (replicate 4 9) 155 6 (replicate 7 8)
    ≡ read_parts tiny fillers (replicate 4 9) (replicate 4 5) 155 2 4 (replicate 7 8)
read_bytes-read_parts_example =
    read_bytes-read_parts tiny fillers zeros [] (replicate 4 9) (replicate 4 5) 155 2 4
      (replicate 7 8) refl tiny-IsOrdered tiny-Serves (λ e. cc) 2 refl (omega arith) refl refl
      (omega arith) (omega arith) (omega arith)
