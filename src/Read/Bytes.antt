-- ===== src/Read/Bytes.antt =====
-- vdf_read_sector and vdf_read_bytes of libvdf/read.c: bytes from any offset, made from whole sectors.
pub mod Slices
pub mod Refine
pub mod Disk
pub mod Parts
use Prim.Native.Nat.{bit_and}
use vdf.Prelude.{
  ℕ, ◌+◌, ◌-◌, ◌*◌, ◌/◌, min, true, false, not, ◌&&◌, Bool, ◌^◌, unset, List, ◌++◌, Result, ok, err,
  fault, einval, map_ok, ◌>>=◌, ltb, leb, ◌==◌, if◌then◌else◌, u32, length, take, drop,
}
use vdf.Drive.{VdfDrive, drive_is_valid}
use vdf.Read.{Readers, read_sectors}

pub read_sector : VdfDrive → Readers → ℕ → List ℕ → Result (ℕ × List ℕ)
read_sector drv readers sector buffer = read_sectors drv readers sector 1 buffer

-- memcpy(buff, src, n)
abbrev pub memcpy : ℕ → List ℕ → List ℕ → Result (List ℕ)
memcpy n src buff =
    if leb n (length src) && leb n (length buff) then ok (take n src ++ drop n buff) else fault

-- An int, given by its 32 bits, in a size_t of 64 bits.
abbrev pub size_of_int : ℕ → ℕ
size_of_int r = if ltb r (2 ^ 31) then r else r + (2 ^ 64 - 2 ^ 32)

-- `r == -1` for a size_t.
abbrev pub is_minus_one : ℕ → Bool
is_minus_one r = r == 2 ^ 64 - 1

-- `read` stands for vdf_read_sectors on the drive, `bps` for its sector size, a power of two. `sbuff`
-- is the sector of stack memory that alloca() gives, with what lies there.
module _ (bps : ℕ) (read : ℕ → ℕ → List ℕ → Result (ℕ × List ℕ)) (sbuff : List ℕ) where
  -- The bytes of a last sector. Nothing is kept if it is not there.
  abbrev last_bytes : ℕ → ℕ → List ℕ → ℕ × List ℕ → Result (ℕ × List ℕ)
  last_bytes rcnt cnt buff (r, sector) = elim (is_minus_one (size_of_int r)) [
    | true ↦ err unset
    | false ↦ elim (size_of_int r == 0) [
      | true ↦ ok (rcnt, buff)
      | false ↦ map_ok (λ b. (rcnt + cnt, b)) (memcpy cnt sector buff)
    ]
  ]

  pub read_last : ℕ → ℕ → ℕ → List ℕ → Result (ℕ × List ℕ)
  read_last soff rcnt cnt buff =
      if cnt == 0 then ok (rcnt, buff) else (read soff 1 sbuff >>= last_bytes rcnt cnt buff)

  -- `want` sectors were asked for.
  abbrev pub whole_bytes : ℕ → ℕ → ℕ → ℕ → ℕ × List ℕ → Result (ℕ × List ℕ)
  whole_bytes want soff rcnt cnt (r, buff) = elim (is_minus_one (size_of_int r)) [
    | true ↦ err unset
    | false ↦ elim (ltb (size_of_int r) want) [
      | true ↦ ok (rcnt + size_of_int r * bps, buff)
      | false ↦
          map_ok (λ res. (res.0, take (want * bps) buff ++ res.1))
            (read_last (u32 (soff + want)) (rcnt + want * bps) (cnt - want * bps)
              (drop (want * bps) buff))
    ]
  ]

  -- Whole sectors, and the last.
  pub read_whole : ℕ → ℕ → ℕ → List ℕ → Result (ℕ × List ℕ)
  unfolding read_last
  read_whole soff rcnt cnt buff =
      let want = cnt / bps in
      elim (want == 0) [
        | true ↦ read_last soff rcnt cnt buff
        | false ↦ read soff (u32 want) buff >>= whole_bytes want soff rcnt cnt
      ]

  -- The bytes from the middle of a first sector.
  abbrev pub first_bytes : ℕ → ℕ → ℕ → List ℕ → ℕ × List ℕ → Result (ℕ × List ℕ)
  first_bytes soff doff cnt buff (r, sector) =
      let want = min (bps - doff) cnt in
      elim (size_of_int r == 1) [
        | false ↦ ok (size_of_int r, buff)
        | true ↦ memcpy want (drop doff sector) buff >>= λ b.
            map_ok (λ res. (res.0, take want b ++ res.1))
              (read_whole (u32 (soff + 1)) want (cnt - want) (drop want b))
      ]

  pub read_from : ℕ → ℕ → List ℕ → Result (ℕ × List ℕ)
  unfolding read_whole
  read_from off cnt buffer =
      let soff = u32 (off / bps) in
      let doff = bit_and off (bps - 1) in
      elim (doff == 0) [
        | true ↦ read_whole soff 0 cnt buffer
        | false ↦ read soff 1 sbuff >>= first_bytes soff doff cnt buffer
      ]

-- The number returned, by its 64 bits, and the buffer after the call.
pub read_bytes : VdfDrive → Readers → List ℕ → ℕ → ℕ → List ℕ → Result (ℕ × List ℕ)
unfolding read_from
read_bytes drv readers sbuff off cnt buffer =
    if not (drive_is_valid drv)
    then err einval
    else if cnt == 0
    then ok (0, buffer)
    else read_from drv.bps (read_sectors drv readers) sbuff off cnt buffer
