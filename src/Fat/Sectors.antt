-- ===== src/Fat/Sectors.antt =====
-- read_sector_fat of libvdf/fat.c from its start, for FAT16 and FAT32: the reserved entries, and the
-- sector that the entries begin in.
use vdf.Prelude.{
  ℕ, zero, suc, ◌+◌, ◌*◌, ◌-◌, ◌/◌, ◌≤◌, ◌<◌, ◌^◌, ◌≡◌, ◌≢◌, refl, sym, ap, ◌∙◌, List, ◌++◌,
  append_assoc, arith, ◌==◌, Bool-cases, inl, inr, false, length, length-drop, drop, drop-drop, ok,
  map_ok, u32, le→ltb, ==→eq, ==→ne,
}
use native.Mathlib.Nat.{mul_assoc}
use mathlib.Core.Path.{subst}
use vdf.Drive.{VdfDrive, FileRange, Filesys, fat12, fat16, fat32}
use vdf.Fat.{ranges, read_entries, read_first, read_sector_fat, entry_at, reserved}
use vdf.Fat.Spec.{table}
use vdf.Fat.Sector.{width, le_of, eoc_of, fat_bytes, fat_bytes-table, IsRanged}
use vdf.Fat.Image.{entries-table}

length-reserved : (f : Filesys) → f ≢ fat12 → length (reserved f) ≡ 2 * width f
length-reserved fat12 h = absurd (h refl)
length-reserved fat16 h = refl
length-reserved fat32 h = refl

-- The reserved entries are the first two of the FAT.
fat_bytes-reserved :
    (f : Filesys) (rs : List FileRange) (m : ℕ)
    → f ≢ fat12
    → fat_bytes f rs 0 (suc (suc m)) ≡ reserved f ++ table (le_of f) (eoc_of f) rs 2 m
fat_bytes-reserved fat12 rs m h = absurd (h refl)
fat_bytes-reserved fat16 rs m h = rw (fat_bytes-table fat16 rs 2 m (omega arith))
fat_bytes-reserved fat32 rs m h = rw (fat_bytes-table fat32 rs 2 m (omega arith))

read_first_room :
    (drv : VdfDrive) (scnt w : ℕ) (buf : List ℕ)
    → length (reserved drv.filesys) ≡ w
    → w ≤ length buf
    → read_first drv scnt buf
      ≡ map_ok (λ r. reserved drv.filesys ++ r) (read_entries drv scnt (drop w buf) w 2 false)
unfolding read_first
read_first_room drv scnt w buf len =
    subst
      (λ w.
        w ≤ length buf
        → read_first drv scnt buf
          ≡ map_ok (λ r. reserved drv.filesys ++ r) (read_entries drv scnt (drop w buf) w 2 false))
      len (λ room. rw (read_first, le→ltb (length buf) (length (reserved drv.filesys)) room))

read_first_lem :
    (f : Filesys) (drv : VdfDrive) (scnt m k : ℕ) (buf : List ℕ)
    → f ≢ fat12
    → drv.filesys ≡ f
    → IsRanged drv
    → k ≡ m * width f
    → 2 * width f + k ≡ scnt
    → scnt < 2 ^ 31
    → scnt ≤ length buf
    → read_first drv scnt buf ≡ ok (fat_bytes f (ranges drv) 0 (suc (suc m)) ++ drop scnt buf)
read_first_lem f drv scnt m k buf h is ranged e s top l =
    let len : length (reserved drv.filesys) ≡ 2 * width f = rw is (length-reserved f h) in
    let rest =
      entries-table f h drv is ranged scnt m k (drop (2 * width f) buf) (2 * width f) 2 false e s
        top (omega (arith, length-drop (2 * width f) buf)) (omega arith) in
    read_first_room drv scnt (2 * width f) buf len (omega arith)
    ∙ rw (rest, is, fat_bytes-reserved f (ranges drv) m h)
        (ap ok (
          ap (λ r. reserved f ++ (table (le_of f) (eoc_of f) (ranges drv) 2 m ++ r))
            (drop-drop (2 * width f) k scnt buf (omega arith))
          ∙ sym (append_assoc (reserved f) _ (drop scnt buf))))

entry_at_lem :
    (f : Filesys) (sector bps q : ℕ)
    → f ≢ fat12
    → bps ≡ q * width f
    → sector * q < 2 ^ 32
    → entry_at f sector bps ≡ sector * q
entry_at_lem fat12 sector bps q h e l = absurd (h refl)
entry_at_lem fat16 sector bps q h e l = let d : bps / 2 ≡ q = omega arith in rw d (omega arith)
entry_at_lem fat32 sector bps q h e l = let d : bps / 4 ≡ q = omega arith in rw d (omega arith)

entries_per_call :
    (f : Filesys)
    → f ≢ fat12
    → (cnt q bps : ℕ) → bps ≡ q * width f
    → cnt * bps ≡ (cnt * q) * width f
entries_per_call f h cnt q bps e = rw e (sym (mul_assoc cnt q (width f)))

two_more : (n : ℕ) → 2 ≤ n → (m : ℕ) × (n ≡ suc (suc m))
two_more n h = (n - 2, omega arith)

pos_mul : (a q : ℕ) → a ≢ 0 → 2 ≤ q → 2 ≤ a * q
pos_mul zero q h k = absurd (h refl)
pos_mul (suc a) q h k = omega arith

-- Sector by sector, as the host reads them: after a call for `sector_cnt` sectors from `sector` on,
-- the buffer begins with the entries of these sectors as the FAT should hold them (the two reserved
-- entries, for each cluster of a file the next one, the mark of the last one, and 0 for a free
-- cluster), and its rest is as it was. It holds for FAT16 and FAT32, where the ranges are those of
-- the files and there are as many as files, a sector has `q` whole entries, at least one sector is
-- asked for, the bytes asked for are below 2 ^ 31, as the code counts them in an int, the first entry
-- is below 2 ^ 32, and the buffer has room.
pub read_sector_fat-fat_bytes :
    (f : Filesys) (drv : VdfDrive) (sector sector_cnt q : ℕ) (buffer : List ℕ)
    → f ≢ fat12
    → drv.filesys ≡ f
    → IsRanged drv
    → drv.bps ≡ q * width f
    → 2 ≤ q
    → 1 ≤ sector_cnt
    → sector_cnt * drv.bps < 2 ^ 31
    → sector * q < 2 ^ 32
    → sector_cnt * drv.bps ≤ length buffer
    → read_sector_fat drv sector sector_cnt buffer
      ≡ ok (
          fat_bytes f (ranges drv) (sector * q) (sector_cnt * q)
          ++ drop (sector_cnt * drv.bps) buffer)
unfolding read_sector_fat
read_sector_fat-fat_bytes f drv sector sector_cnt q buffer h is ranged bps two one small last room =
    let scnt : u32 (sector_cnt * drv.bps) ≡ sector_cnt * drv.bps = omega arith in
    let entries = entries_per_call f h sector_cnt q drv.bps bps in
    elim (Bool-cases (sector == 0)) [
      | inl first ↦
          let m : (n : ℕ) × (sector_cnt * q ≡ suc (suc n)) =
            two_more (sector_cnt * q) (grind arith) in
          let start : sector * q ≡ 0 = rw (==→eq sector 0 first) (omega arith) in
          rw (first, read_sector_fat, scnt, start, m.1)
            (read_first_lem f drv (sector_cnt * drv.bps) m.0 (m.0 * width f) buffer h is ranged refl
              (omega (arith, entries, m.1, ap (λ x. x * width f) m.1)) small room)
      | inr later ↦
          let start : entry_at drv.filesys sector drv.bps ≡ sector * q =
            ap (λ g. entry_at g sector drv.bps) is ∙ entry_at_lem f sector drv.bps q h bps last in
          let behind = pos_mul sector q (==→ne sector 0 later) two in
          rw (later, read_sector_fat, scnt, start)
            (entries-table f h drv is ranged (sector_cnt * drv.bps) (sector_cnt * q)
                (sector_cnt * drv.bps) buffer 0 (sector * q) _ entries (omega arith) small room
                behind
              ∙ ap (λ t. ok (t ++ drop (sector_cnt * drv.bps) buffer))
                  (sym (fat_bytes-table f (ranges drv) (sector * q) (sector_cnt * q) behind)))
    ]
