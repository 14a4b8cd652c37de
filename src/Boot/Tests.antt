-- ===== src/Boot/Tests.antt =====
-- The boot sectors of the sample drive, and of one with FAT32.
use vdf.Prelude.{ℕ, ◌≡◌, refl, List, [], ◌∷◌, ◌++◌, ok, arith, drop, replicate}
use vdf.Drive.{VdfDrive, fat32}
use vdf.Samples.{unplaced}
use vdf.Fat.{memset_zero}
use vdf.Read.{Reader, Readers}
use vdf.Read.Image.{image}
use vdf.Read.Sectors.{ServesMbr}
use vdf.Boot.{label_text, read_sector_boot, read_sector_mbr}
use vdf.Boot.Writes.{concat}
use vdf.Boot.Fields.{FitsBpb, parse_bpb, bpb_of, read_sector_boot-parse_bpb}
use vdf.Boot.Mbr.{mbr_parts, read_sector_mbr-ServesMbr}
use vdf.Boot.Area.{IsPlain, boot_bytes, read_sector_boot-IsReader}

unplaced-FitsBpb : FitsBpb unplaced
unplaced-FitsBpb = record {
  bps = omega arith;
  spc = omega arith;
  fat1_start = omega arith;
  root_dir_cnt = omega arith;
  some_sectors = omega arith;
  sectors = omega arith;
  fat12_sectors = λ e. cc;
  fat_sectors = omega arith;
  fat_small = λ e. (omega arith, omega arith);
}

read_sector_boot-parse_bpb_example :
    (out : List ℕ) × (read_sector_boot unplaced 0 1 (replicate 512 7) ≡ ok out)
    × (parse_bpb out ≡ bpb_of unplaced)
read_sector_boot-parse_bpb_example =
    read_sector_boot-parse_bpb unplaced (replicate 512 7) unplaced-FitsBpb (omega arith)

-- "MY DISK" in the label: the blank is left out, so that eleven bytes are written.
label_sample :
    label_text 12 (77 ∷ 89 ∷ 32 ∷ 68 ∷ 73 ∷ 83 ∷ 75 ∷ [])
    ≡ 77 ∷ 89 ∷ 68 ∷ 73 ∷ 83 ∷ 75 ∷ 32 ∷ 32 ∷ 32 ∷ 32 ∷ 32 ∷ []
unfolding label_text
label_sample = refl

-- A label of eleven characters: a blank is written over the first byte of the type.
long_label_sample : label_text 12 (replicate 11 65) ≡ replicate 11 65 ++ (32 ∷ [])
unfolding label_text
long_label_sample = refl

abbrev with_mbr : VdfDrive
with_mbr = record unplaced { mbr_sectors = 63 }

abbrev nothing : Reader
nothing s n buf = memset_zero n buf

abbrev mbr_readers : Readers
mbr_readers = record {
  read_sector_mbr = read_sector_mbr with_mbr;
  read_sector_boot = nothing;
  read_sector_fat = nothing;
  read_sector_root = nothing;
  read_sector_data = nothing;
}

read_sector_mbr-ServesMbr_example : ServesMbr with_mbr mbr_readers (concat (mbr_parts with_mbr))
read_sector_mbr-ServesMbr_example =
    read_sector_mbr-ServesMbr with_mbr mbr_readers refl (omega arith) (λ buf. refl)

abbrev large : VdfDrive
large = record unplaced { filesys = fat32; fat1_start = 32; sectors = 100000 }

large-IsPlain : IsPlain large
large-IsPlain = record { bps = refl; label = refl; many = λ e. cc }

read_sector_boot-IsReader_example :
    read_sector_boot large 5 2 (replicate 1025 7)
    ≡ ok (image (boot_bytes large) 5 2 ++ drop 1024 (replicate 1025 7))
read_sector_boot-IsReader_example =
    read_sector_boot-IsReader large 100000 32 large-IsPlain (omega arith) 5 2 (replicate 1025 7)
      (omega arith) (omega arith) (omega arith) (omega arith) (omega arith)
