-- ===== src/Boot/Mbr.antt =====
-- The MBR and the boot area of libvdf/bootblock.c, byte by byte, as parts of the image.
use vdf.Prelude.{
  ℕ, ◌≤◌, ◌≡◌, refl, sym, ap, ◌∙◌, List, [], ◌∷◌, ◌++◌, ok, arith, le_16, le_32, drop, replicate,
}
use vdf.Drive.{VdfDrive}
use vdf.Read.{Readers}
use vdf.Read.Sectors.{ServesMbr}
use vdf.Boot.{mbr_writes, part_type, read_sector_mbr}
use vdf.Boot.Writes.{LaidOut, concat, puts-LaidOut}

-- No boot code, the serial number as the signature of the disk, and one active partition, behind the
-- sectors of the MBR, of all the sectors of the drive.
abbrev pub mbr_parts : VdfDrive → List (List ℕ)
mbr_parts drv =
    replicate 440 0
    ∷ le_32 drv.serial
    ∷ le_16 0
    ∷ (0x80 ∷ [])
    ∷ replicate 3 0
    ∷ (part_type drv.filesys ∷ [])
    ∷ replicate 3 0
    ∷ le_32 drv.mbr_sectors
    ∷ le_32 drv.sectors
    ∷ replicate 48 0
    ∷ (0x55 ∷ [])
    ∷ (0xaa ∷ [])
    ∷ []

-- At 512 bytes to a sector read_sector_mbr is the routine for the MBR that vdf_read_sectors relies on:
-- whatever the buffer holds before, the sector has no boot code, the serial number as the signature of
-- the disk, one active partition, which begins behind the sectors of the MBR and has the sectors of
-- the drive, and the mark of an MBR at its end, and the buffer behind it is as it was.
pub read_sector_mbr-ServesMbr :
    (drv : VdfDrive) (readers : Readers)
    → drv.bps ≡ 512
    → 1 ≤ drv.mbr_sectors
    → ((buf : List ℕ) → readers.read_sector_mbr buf ≡ read_sector_mbr drv buf)
    → ServesMbr drv readers (concat (mbr_parts drv))
read_sector_mbr-ServesMbr drv readers bps some_mbr same = record {
  width = sym bps;
  read = λ buf room.
      same buf
      ∙ puts-LaidOut (mbr_writes drv) (mbr_parts drv) 512 buf refl laid refl (omega arith)
      ∙ ap (λ n. ok (concat (mbr_parts drv) ++ drop n buf)) (sym bps);
  some = some_mbr;
}
  where
    laid : LaidOut (mbr_writes drv) 0 (mbr_parts drv)
    laid = (
      refl,
      (refl, (refl, (refl, (refl, (refl, (refl, (refl, (refl, (refl, (refl, (refl, tt))))))))))),
    )
