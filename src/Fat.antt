-- ===== src/Fat.antt =====
-- libvdf/fat.c: the sectors of a FAT, made from the range list. The buffer is the list of bytes from
-- the pointer on; a write behind its end is a fault. (The code under ENABLE_CLUSTER_LIST, which
-- nothing defines, is not modelled.)
pub mod Spec
pub mod Loop
pub mod Sector
pub mod Image
pub mod Sectors
pub mod Recalculated
pub mod Reader
pub mod Tests
use Prim.Native.Nat.{bit_and, bit_or}
use vdf.Prelude.{
  ℕ, zero, suc, ◌+◌, ◌*◌, ◌/◌, ◌%◌, ◌^◌, Bool, true, false, not, List, [], ◌∷◌, ◌++◌, Option, none,
  some, Result, ok, err, fault, map_ok, ltb, leb, ◌==◌, if◌then◌else◌, u8, u32, sub32, le_16, le_32,
  length, drop, get_elem?,
}
use vdf.Drive.{VdfDrive, FileRange, Filesys, fat12, fat16, fat32}

-- `drv->ranges`; NULL is read as an array of no entries, so that a read of it is a fault.
abbrev pub ranges : VdfDrive → List FileRange
ranges drv = elim drv.ranges [ none ↦ [] | some rs ↦ rs ]

-- The loop of find_file_fat_entry, with `n` rounds left: the index of the first range that ends
-- behind the entry.
pub find_range : List FileRange → ℕ → ℕ → ℕ → Result (Option ℕ)
find_range rs zero i ent = ok none
find_range [] (suc n) i ent = fault
find_range (r ∷ rs) (suc n) i ent =
    let rest = find_range rs n (i + 1) ent in if ltb ent r.fatend then ok (some i) else rest

pub find_file_fat_entry : VdfDrive → ℕ → Result (Option ℕ)
unfolding find_range
find_file_fat_entry drv ent =
    if leb drv.data_cluster_end ent then ok none else find_range (ranges drv) drv.file_cnt 0 ent

-- `file->end - 1` for the file of a range, or a fault for an index behind the array.
pub last_of : VdfDrive → ℕ → Result ℕ
last_of drv ind = elim (get_elem? (ranges drv) ind) [
  | none ↦ fault
  | some r ↦ ok (sub32 (drv.files r.file).end 1)
]

-- The index of the next range, with the last entry of its file.
pub fat_next_file : VdfDrive → ℕ → Result (Option (ℕ × ℕ))
unfolding last_of
fat_next_file drv ind =
    if ind + 1 == drv.file_cnt
    then ok none
    else map_ok (λ last. some (ind + 1, last)) (last_of drv (ind + 1))

-- memset(buffer, 0, n)
unfoldable pub memset_zero : ℕ → List ℕ → Result (List ℕ)
memset_zero zero buf = ok buf
memset_zero (suc n) [] = fault
memset_zero (suc n) (b ∷ buf) = map_ok (λ r. 0 ∷ r) (memset_zero n buf)

-- From the label `finish` on. The length is an int: from 2 ^ 31 on, and so with `i` past `scnt`, it is
-- negative, and memset takes it for a huge one.
abbrev pub finish : ℕ → ℕ → List ℕ → Result (List ℕ)
finish scnt i buf = let n = sub32 scnt i in if ltb n (2 ^ 31) then memset_zero n buf else fault

-- `i` is an int, and what it is counted up to must be one.
abbrev pub counted : ℕ → Result (List ℕ) → Result (List ℕ)
counted i rest = elim (ltb i (2 ^ 31)) [ true ↦ rest | false ↦ fault ]

-- The loop for FAT16 and FAT32, which differ in the width of an entry, in how it lies in memory and
-- in the mark of the last cluster. The fuel bounds the rounds.
module _ (drv : VdfDrive) (w : ℕ) (le : ℕ → List ℕ) (eoc scnt : ℕ) where
  pub fat_loop : ℕ → List ℕ → ℕ → ℕ → ℕ → ℕ → ℕ → Result (List ℕ)
  fat_loop zero buf i ent clust last ind = fault
  fat_loop (suc fuel) buf i ent clust last ind = elim (ltb i scnt) [
    | false ↦ finish scnt i buf
    | true ↦ elim (ltb (length buf) w) [
      | true ↦ fault
      | false ↦ counted (i + w) (elim (ltb ent last) [
        | true ↦
            map_ok (λ r. le clust ++ r)
              (fat_loop fuel (drop w buf) (i + w) (u32 (ent + 1)) (u32 (clust + 1)) last ind)
        | false ↦ elim (fat_next_file drv ind) [
          | fault ↦ fault
          | err e ↦ err e
          | ok none ↦ map_ok (λ r. le eoc ++ r) (finish scnt (i + w) (drop w buf))
          | ok (some (ind', last')) ↦
              let ent' = u32 (ent + 1) in
              map_ok (λ r. le eoc ++ r)
                (fat_loop fuel (drop w buf) (i + w) ent' (u32 (ent' + 1)) last' ind')
        ]
      ])
    ]
  ]

-- One byte written through the pointer, and the rest of the buffer.
abbrev pub with_byte : List ℕ → (ℕ → List ℕ → Result (List ℕ)) → Result (List ℕ)
with_byte [] k = fault
with_byte (b ∷ buf) k = k b buf

-- `*buffer = v;` with the pointer left where it is.
abbrev pub poke : ℕ → List ℕ → Result (List ℕ)
poke v [] = fault
poke v (b ∷ buf) = ok (v ∷ buf)

abbrev pub cons_ok : ℕ → Result (List ℕ) → Result (List ℕ)
cons_ok v = map_ok (λ r. v ∷ r)

-- The loop for FAT12. `half` is `halfent`: the entry begins in the upper half of a byte.
module _ (drv : VdfDrive) (scnt : ℕ) where
  abbrev pub more : ℕ → Bool
  more i = ltb i (sub32 scnt 1)

  pub fat12_loop : ℕ → List ℕ → ℕ → ℕ → ℕ → ℕ → ℕ → Bool → Result (List ℕ)
  fat12_loop zero buf i ent clust last ind half = fault
  fat12_loop (suc fuel) buf i ent clust last ind half =
      let next = fat12_loop fuel in
      elim (ltb i scnt) [
        | false ↦ finish scnt i buf
        | true ↦ with_byte buf λ b buf1. elim (ltb ent last) [
          | true ↦
              let go = λ (buf' : List ℕ) (i' : ℕ).
                counted i' (next buf' i' (u32 (ent + 1)) (u32 (clust + 1)) last ind (not half)) in
              elim half [
                | true ↦ cons_ok (bit_or (bit_and b 0xf0) (u8 (clust * 16))) (elim (more (i + 1)) [
                  | true ↦ with_byte buf1 λ _ buf2. cons_ok (u8 (clust / 16)) (go buf2 (i + 2))
                  | false ↦ go buf1 (i + 1)
                ])
                | false ↦ cons_ok (u8 clust) (elim (more (i + 1)) [
                  | true ↦ with_byte buf1 λ _ buf2. go ((clust / 256 % 16) ∷ buf2) (i + 1)
                  | false ↦ go buf1 (i + 1)
                ])
              ]
          | false ↦
              let go : List ℕ → ℕ → Result (List ℕ) = λ buf' i'.
                counted i' (elim (fat_next_file drv ind) [
                  | fault ↦ fault
                  | err e ↦ err e
                  | ok none ↦ elim half [
                    | true ↦ finish scnt i' buf'
                    | false ↦ with_byte buf' λ b' buf2. cons_ok b' (finish scnt (i' + 1) buf2)
                  ]
                  | ok (some (ind', last')) ↦
                      let ent' = u32 (ent + 1) in
                      next buf' i' ent' (u32 (ent' + 1)) last' ind' (not half)
                ]) in
              elim half [
                | true ↦ cons_ok (bit_or b 0xf0) (elim (more i) [
                  | true ↦ with_byte buf1 λ _ buf2. cons_ok 0xff (go buf2 (i + 2))
                  | false ↦ go buf1 (i + 2)
                ])
                | false ↦ cons_ok 0xff (elim (more i) [
                  | true ↦ with_byte buf1 λ _ buf2. go (0x0f ∷ buf2) (i + 1)
                  | false ↦ go buf1 (i + 1)
                ])
              ]
        ]
      ]

-- Where the loop starts: the first entry and, for FAT12, which half of a byte it begins in.
abbrev pub entry_at : Filesys → ℕ → ℕ → ℕ
entry_at fat12 sector bps = u32 (u32 (sector * 2) * bps / 3) / 2
entry_at fat16 sector bps = u32 (sector * (bps / 2))
entry_at fat32 sector bps = u32 (sector * (bps / 4))

abbrev pub half_at : ℕ → ℕ → Bool
half_at sector bps = u32 (u32 (sector * 2) * bps / 3) % 2 == 1

-- The two reserved entries at the start of the first sector.
abbrev pub reserved : Filesys → List ℕ
reserved fat12 = 0xf8 ∷ 0xff ∷ 0xff ∷ []
reserved fat16 = le_16 0xfff8 ++ le_16 0xffff
reserved fat32 = le_32 0x0ffffff8 ++ le_32 0x0fffffff

-- The entries from `ent` on, at `i` bytes from the start of the buffer.
pub read_entries : VdfDrive → ℕ → List ℕ → ℕ → ℕ → Bool → Result (List ℕ)
read_entries drv scnt buf i ent half = elim (find_file_fat_entry drv ent) [
  | fault ↦ fault
  | err e ↦ err e
  | ok none ↦ finish scnt i buf
  | ok (some ind) ↦ elim (last_of drv ind) [
    | fault ↦ fault
    | err e ↦ err e
    | ok last ↦ elim drv.filesys [
      | fat12 ↦ fat12_loop drv scnt (suc scnt) buf i ent (u32 (ent + 1)) last ind half
      | fat16 ↦ fat_loop drv 2 le_16 0xffff scnt (suc scnt) buf i ent (u32 (ent + 1)) last ind
      | fat32 ↦ fat_loop drv 4 le_32 0x0fffffff scnt (suc scnt) buf i ent (u32 (ent + 1)) last ind
    ]
  ]
]

-- With the reserved entries in front, for the first sector.
pub read_first : VdfDrive → ℕ → List ℕ → Result (List ℕ)
read_first drv scnt buffer =
    let head = reserved drv.filesys in
    elim (ltb (length buffer) (length head)) [
      | true ↦ fault
      | false ↦
          map_ok (λ r. head ++ r)
            (read_entries drv scnt (drop (length head) buffer) (length head) 2 false)
    ]

-- `sector_cnt` sectors from `sector` on. The result is the buffer after the call, from its start.
pub read_sector_fat : VdfDrive → ℕ → ℕ → List ℕ → Result (List ℕ)
read_sector_fat drv sector sector_cnt buffer =
    let scnt = u32 (sector_cnt * drv.bps) in
    if sector == 0
    then read_first drv scnt buffer
    else read_entries drv scnt buffer 0 (entry_at drv.filesys sector drv.bps)
        (half_at sector drv.bps)
