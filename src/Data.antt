-- ===== src/Data.antt =====
-- libvdf/read_data.c: the sectors of the data area, which are those of the files, made by reading a
-- host file, by calling the callback of a virtual file, or by read_sector_dir. The buffer is the list
-- of bytes from the pointer on. (The code under ENABLE_CLUSTER_LIST and the `#else` of
-- find_file_sector, which nothing defines or takes, are not modelled.)
pub mod Content
pub mod Found
pub mod File
pub mod Sectors
pub mod Recalculated
pub mod Tests
use vdf.Prelude.{
  ℕ, zero, suc, ◌+◌, ◌-◌, ◌*◌, min, true, false, List, [], ◌∷◌, ◌++◌, Option, none, some, Result,
  ok, err, fault, unset, map_ok, ◌>>=◌, ltb, leb, ◌==◌, if◌then◌else◌, u32, sub32, length, take,
  drop,
}
use vdf.Drive.{VdfDrive, FileRange, file_is_dir, file_is_virt}
use vdf.Fat.{ranges, memset_zero}
use vdf.Read.{Reader}
use vdf.Dir.{Tm, read_sector_dir}

-- What lies outside of the file: the callback of a virtual file (by its `cback`, the file, the offset
-- and the number of bytes), and open(), lseek() and read() on the host. A call that fails is `none`;
-- else it gives the number it returns, and the bytes that it puts into the buffer.
pub record Sources : Type 0 where
  pub cback : ℕ → ℕ → ℕ → ℕ → Option (ℕ × List ℕ)
  pub open_file : List ℕ → Option ℕ
  pub read_at : ℕ → ℕ → ℕ → Option (ℕ × List ℕ)

-- The loop of find_file_sector, with `n` rounds left.
pub find_sector : List FileRange → ℕ → ℕ → Result (Option ℕ)
find_sector rs zero sector = ok none
find_sector [] (suc n) sector = fault
find_sector (r ∷ rs) (suc n) sector =
    let rest = find_sector rs n sector in if ltb sector r.sectend then ok (some r.file) else rest

pub find_file_sector : VdfDrive → ℕ → Result (Option ℕ)
unfolding find_sector
find_file_sector drv sector =
    if leb drv.data_end sector then ok none else find_sector (ranges drv) drv.file_cnt sector

-- Bytes put at the start of the buffer.
abbrev pub overwrite : List ℕ → List ℕ → Result (List ℕ)
overwrite bytes buf =
    if leb (length bytes) (length buf) then ok (bytes ++ drop (length bytes) buf) else fault

-- Behind `cnt` bytes of the buffer, zeros up to `k`. The result has the distance to the pointer.
abbrev pub pad_zero : ℕ → ℕ → List ℕ → Result (ℕ × List ℕ)
pad_zero cnt k buf = elim (ltb cnt k) [
  | true ↦ map_ok (λ r. (k, take cnt buf ++ r)) (memset_zero (k - cnt) (drop cnt buf))
  | false ↦ ok (cnt, buf)
]

-- What was read, and zeros behind it up to `k`. A count above `want` is cut.
abbrev pub receive : ℕ → ℕ → List ℕ → Option (ℕ × List ℕ) → Result (ℕ × List ℕ)
receive want k buf none = err unset
receive want k buf (some (cnt, bytes)) = overwrite bytes buf >>= pad_zero (min cnt want) k

module _ (drv : VdfDrive) (src : Sources) where
  -- `want` bytes of a file, from `off` on.
  pub fetch : ℕ → ℕ → ℕ → Option (ℕ × List ℕ)
  fetch i off want = elim (file_is_virt drv i) [
    | true ↦ src.cback (drv.files i).cback i off want
    | false ↦ elim (src.open_file (drv.files i).path) [
      | none ↦ none
      | some fd ↦ src.read_at fd off want
    ]
  ]

  -- `swant` sectors of a file that is no directory, from the byte `off` on.
  pub read_file : ℕ → ℕ → ℕ → ℕ → List ℕ → Result (ℕ × List ℕ)
  read_file i off swant scnt buf = elim (leb (drv.files i).size off) [
    | true ↦ map_ok (λ r. (swant * drv.bps, r)) (memset_zero (swant * drv.bps) buf)
    | false ↦
        let want = min ((drv.files i).size - off) (scnt * drv.bps) in
        receive want (swant * drv.bps) buf (fetch i off want)
  ]

-- The products `scnt * drv->bps` are of type size_t, and not cut to 32 bits. gmtime() is for the
-- directories.
module _ (gmtime : ℕ → Tm) (drv : VdfDrive) (src : Sources) where
  -- A round of the loop: the sectors of one file.
  pub read_round : ℕ → ℕ → ℕ → ℕ → List ℕ → Result (ℕ × List ℕ)
  unfolding read_file
  read_round i sector swant scnt buf =
      let off = sub32 sector (drv.files i).startsect in
      elim (file_is_dir drv i) [
        | true ↦ map_ok (λ r. (swant * drv.bps, r)) (read_sector_dir gmtime drv off swant buf i)
        | false ↦ read_file drv src i (u32 (off * drv.bps)) swant scnt buf
      ]

  -- The rest of the call, from the pointer `n` bytes on.
  abbrev pub go_on : (List ℕ → Result (List ℕ)) → ℕ × List ℕ → Result (List ℕ)
  go_on next (n, buf) = map_ok (λ r. take n buf ++ r) (next (drop n buf))

  -- The sectors of one file, and the rest of the call.
  abbrev pub one_file : (ℕ → ℕ → List ℕ → Result (List ℕ)) → ℕ → ℕ → ℕ → List ℕ → Result (List ℕ)
  one_file next i sector scnt buf =
      let swant = min (sub32 (drv.files i).endsect sector) scnt in
      read_round i sector swant scnt buf >>= go_on (next (u32 (sector + swant)) (scnt - swant))

  -- The loop; the fuel bounds the rounds.
  pub data_loop : ℕ → ℕ → ℕ → List ℕ → Result (List ℕ)
  data_loop zero sector scnt buf = fault
  data_loop (suc fuel) sector scnt buf =
      let next = data_loop fuel in
      elim (scnt == 0) [
        | true ↦ ok buf
        | false ↦ elim (find_file_sector drv sector) [
          | fault ↦ fault
          | err why ↦ err why
          | ok none ↦ memset_zero (scnt * drv.bps) buf
          | ok (some i) ↦ one_file next i sector scnt buf
        ]
      ]

  -- A round takes a sector at least.
  pub read_sector_data : Reader
  unfolding data_loop
  read_sector_data sector scnt buffer = data_loop (suc scnt) sector scnt buffer
