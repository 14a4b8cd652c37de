-- ===== src/Read/Bytes/Disk.antt =====
-- vdf_read_bytes of libvdf/read.c on a drive: bytes of the image, from any offset.
use vdf.Prelude.{
  bit_and-mask, ◌%◌, ℕ, zero, suc, ◌+◌, ◌-◌, ◌*◌, ◌≤◌, ◌<◌, ◌^◌, ◌≡◌, refl, sym, ap, ◌∙◌, min, inl,
  inr, true, false, Bool-cases, List, ◌++◌, ok, ltb, ◌==◌, if◌then◌else◌, arith, has, length,
  length-replicate, take, drop, replicate, take-append, drop-append, ne→==, Bool,
}
use Prim.Native.Nat.{bit_and}
use vdf.Drive.{VdfDrive, drive_is_valid, vdf_mbr}
use vdf.Read.{Readers, read_sectors}
use vdf.Read.Image.{image, image_add, length-image}
use vdf.Read.Sectors.{
  IsOrdered, Serves, ServesMbr, disk_bytes, total_sectors, read_sectors-disk_bytes,
}
use vdf.Read.Bytes.{read_bytes}
use vdf.Read.Bytes.Slices.{slice}
use vdf.Read.Bytes.Refine.{from-slice}

-- Sectors of an image are a slice of it.
image-slice :
    (bps total s m : ℕ) (sector_bytes : ℕ → List ℕ)
    → ((t : ℕ) → length (sector_bytes t) ≡ bps)
    → s + m ≤ total
    → image sector_bytes s m ≡ slice (image sector_bytes 0 total) (s * bps) (m * bps)
image-slice bps total s m sector_bytes width h =
    let front = image sector_bytes 0 s in
    let behind = image sector_bytes (s + m) (total - s - m) in
    let here = image sector_bytes s m in
    let cut : image sector_bytes 0 total ≡ front ++ (here ++ behind) =
      image_add sector_bytes s (total - s) total 0 s (omega arith) (omega arith)
      ∙ ap (λ r. front ++ r)
          (image_add sector_bytes m (total - s - m) (total - s) s (s + m) (omega arith) refl) in
    let len = length-image bps total sector_bytes width in
    sym (
      ap (λ d. slice d (s * bps) (m * bps)) cut
      ∙ ap (take (m * bps))
          (drop-append front (here ++ behind) (s * bps) (sym (len s 0 (s * bps) refl)))
      ∙ take-append here behind (m * bps) (sym (len m s (m * bps) refl)))

pub power_bounds : (bps k : ℕ) → bps ≡ 2 ^ k → k < 31 → (1 ≤ bps) × (bps < 2 ^ 31)
power_bounds bps k e h = (omega (arith, e, one_le-pow k), omega (arith, e, pow-lt k 31 h))
  where
    one_le-pow : (k : ℕ) → 1 ≤ 2 ^ k
    one_le-pow zero = omega arith
    one_le-pow (suc k) = omega (arith, one_le-pow k)

    pow-lt : (k n : ℕ) → k < n → 2 ^ k < 2 ^ n
    pow-lt k zero h = absurd (omega arith)
    pow-lt zero (suc n) h = omega (arith, one_le-pow n)
    pow-lt (suc k) (suc n) h = omega (arith, pow-lt k n (omega arith))

pub disk_bytes-width :
    (drv : VdfDrive) (readers : Readers) (sector_bytes : ℕ → List ℕ) (mbr : List ℕ)
    → Serves drv readers sector_bytes
    → (has drv.flags vdf_mbr ≡ true → ServesMbr drv readers mbr)
    → (s : ℕ) → length (disk_bytes drv mbr sector_bytes s) ≡ drv.bps
disk_bytes-width drv readers sector_bytes mbr serves serves_mbr s =
    elim (Bool-cases (has drv.flags vdf_mbr)) [
      | inl present ↦ rw present (go (s == 0) (ltb s drv.mbr_sectors) (serves_mbr present).width)
      | inr absent ↦ rw absent (serves.width s)
    ]
  where
    go :
        (first front : Bool)
        → length mbr ≡ drv.bps
        → length (
            if first
            then mbr
            else if front
            then replicate drv.bps 0
            else sector_bytes (s - drv.mbr_sectors))
          ≡ drv.bps
    go true front h = h
    go false true h = length-replicate drv.bps 0
    go false false h = serves.width (s - drv.mbr_sectors)

-- Let the areas of the partition lie in order and the routines give the bytes of the sectors of their
-- areas, with an MBR also the routine for it, and let a sector have 2 ^ k bytes. Then vdf_read_bytes on
-- a valid FAT32 drive, for less than 2 ^ 31 bytes from any offset in the drive on, gives `cnt` bytes, or as many as there are, if the buffer has room for them: it
-- returns their number, the buffer begins with these bytes of the drive, whatever sectors they begin
-- and end in, and its rest is as it was.
pub read_bytes-slice :
    (drv : VdfDrive) (readers : Readers) (sector_bytes : ℕ → List ℕ) (mbr sbuff : List ℕ)
    (off cnt : ℕ) (buffer : List ℕ)
    → drive_is_valid drv ≡ true
    → IsOrdered drv
    → Serves drv readers sector_bytes
    → (has drv.flags vdf_mbr ≡ true → ServesMbr drv readers mbr)
    → (k : ℕ) → drv.bps ≡ 2 ^ k
    → k < 31
    → length sbuff ≡ drv.bps
    → off ≤ total_sectors drv * drv.bps
    → cnt < 2 ^ 31
    → cnt ≤ length buffer
    → let m = min cnt (total_sectors drv * drv.bps - off) in
      let disk = image (disk_bytes drv mbr sector_bytes) 0 (total_sectors drv) in
      read_bytes drv readers sbuff off cnt buffer ≡ ok (m, slice disk off m ++ drop m buffer)
unfolding read_bytes
read_bytes-slice drv readers sector_bytes mbr sbuff off zero buffer valid ordered serves serves_mbr
      k power k_top stack in_drive small room =
    let m : min 0 (total_sectors drv * drv.bps - off) ≡ 0 = omega arith in rw (valid, m)
read_bytes-slice drv readers sector_bytes mbr sbuff off (suc c) buffer valid ordered serves
      serves_mbr k power k_top stack in_drive small room =
    let bytes = disk_bytes drv mbr sector_bytes in
    let total = total_sectors drv in
    let disk = image bytes 0 total in
    let width = disk_bytes-width drv readers sector_bytes mbr serves serves_mbr in
    let (bps_ge, bps_top) = power_bounds drv.bps k power k_top in
    let masked : bit_and off (drv.bps - 1) ≡ off % drv.bps =
      ap (λ b. bit_and off (b - 1)) power ∙ bit_and-mask off k ∙ ap (λ b. off % b) (sym power) in
    let top : total < 2 ^ 32 = ground (arith, ordered.small) in
    rw (read_bytes, valid, ne→== (suc c) 0 (omega arith))
      (from-slice drv.bps total disk (read_sectors drv readers) sbuff
        (λ s n m buf s_in fits bytes_top room e.
          read_sectors-disk_bytes drv readers sector_bytes mbr s n buf valid ordered serves
            serves_mbr s_in fits bytes_top room
          ∙ ap (λ k. ok (k, image bytes s k ++ drop (k * drv.bps) buf)) (sym e)
          ∙ ap (λ t. ok (m, t ++ drop (m * drv.bps) buf))
              (image-slice drv.bps total s m bytes width (omega arith)))
        bps_ge top (length-image drv.bps total bytes width total 0 (total * drv.bps) refl) stack
        bps_top off (suc c) (min (suc c) (total * drv.bps - off)) buffer masked in_drive small room
        refl)
