-- ===== src/Read/Bytes/Parts.antt =====
-- vdf_read_bytes of libvdf/read.c, in one call and in two.
use vdf.Prelude.{
  ℕ, ◌+◌, ◌-◌, ◌*◌, ◌≤◌, ◌<◌, ◌^◌, ◌≡◌, refl, sym, ap, ◌∙◌, min, true, List, ◌++◌, append_assoc,
  Result, ok, map_ok, ◌>>=◌, arith, has, length, length-drop, take, drop, drop-drop, take-append,
  drop-append,
}
use vdf.Drive.{VdfDrive, drive_is_valid, vdf_mbr}
use vdf.Read.{Readers}
use vdf.Read.Image.{image, length-image}
use vdf.Read.Sectors.{IsOrdered, Serves, ServesMbr, disk_bytes, total_sectors}
use vdf.Read.Bytes.{read_bytes}
use vdf.Read.Bytes.Slices.{slice, length-slice, slice_add}
use vdf.Read.Bytes.Disk.{disk_bytes-width, read_bytes-slice}

-- `a` bytes, and `b` bytes behind them, by two calls. Nothing of the stack is kept between them.
abbrev pub read_parts :
    VdfDrive → Readers → List ℕ → List ℕ → ℕ → ℕ → ℕ → List ℕ → Result (ℕ × List ℕ)
read_parts drv readers sbuff sbuff' off a b buffer =
    read_bytes drv readers sbuff off a buffer >>= λ r.
    map_ok (λ s. (r.0 + s.0, take r.0 r.1 ++ s.1))
      (read_bytes drv readers sbuff' (off + r.0) b (drop r.0 r.1))

-- On a valid drive, under the conditions of read_bytes-slice, bytes inside the drive that are read by
-- one call of vdf_read_bytes are those that two calls read, the second where the first ended: the same
-- number is returned in all, and the buffers agree in every byte, wherever the cut is and whatever
-- the two calls find in their sector of stack.
pub read_bytes-read_parts :
    (drv : VdfDrive) (readers : Readers) (sector_bytes : ℕ → List ℕ) (mbr sbuff sbuff' : List ℕ)
    (off a b : ℕ) (buffer : List ℕ)
    → drive_is_valid drv ≡ true
    → IsOrdered drv
    → Serves drv readers sector_bytes
    → (has drv.flags vdf_mbr ≡ true → ServesMbr drv readers mbr)
    → (k : ℕ) → drv.bps ≡ 2 ^ k
    → k < 31
    → length sbuff ≡ drv.bps
    → length sbuff' ≡ drv.bps
    → off + (a + b) ≤ total_sectors drv * drv.bps
    → a + b < 2 ^ 31
    → a + b ≤ length buffer
    → read_bytes drv readers sbuff off (a + b) buffer
      ≡ read_parts drv readers sbuff sbuff' off a b buffer
read_bytes-read_parts drv readers sector_bytes mbr sbuff sbuff' off a b buffer valid ordered serves
      serves_mbr k power k_top stack stack' inside small room =
    let total = total_sectors drv * drv.bps in
    let disk = image (disk_bytes drv mbr sector_bytes) 0 (total_sectors drv) in
    let width = disk_bytes-width drv readers sector_bytes mbr serves serves_mbr in
    let len : length disk ≡ total =
      length-image drv.bps (total_sectors drv) (disk_bytes drv mbr sector_bytes) width
        (total_sectors drv) 0 total refl in
    let one = call sbuff off (a + b) buffer stack inside small room in
    let first = call sbuff off a buffer stack (omega arith) (omega arith) (omega arith) in
    let part = slice disk off a in
    let part_len : a ≡ length part = sym (length-slice disk off a (omega (arith, len))) in
    let front : take a (part ++ drop a buffer) ≡ part =
      take-append part (drop a buffer) a part_len in
    let behind : drop a (part ++ drop a buffer) ≡ drop a buffer =
      drop-append part (drop a buffer) a part_len in
    let second =
      call sbuff' (off + a) b (drop a buffer) stack' (omega arith) (omega arith)
        (omega (arith, length-drop a buffer)) in
    let bytes = slice_add disk off a b (a + b) (off + a) refl refl in
    let rest = drop-drop a b (a + b) buffer refl in
    one
    ∙ ap (λ t. ok (a + b, t))
        (ap (λ t. t ++ drop (a + b) buffer) bytes
          ∙ append_assoc part (slice disk (off + a) b) (drop (a + b) buffer)
          ∙ ap (λ t. part ++ (slice disk (off + a) b ++ t)) (sym rest))
    ∙ sym (rw (first, front, behind, second))
  where
    call :
        (stack : List ℕ) (at n : ℕ) (buf : List ℕ)
        → length stack ≡ drv.bps
        → at + n ≤ total_sectors drv * drv.bps
        → n < 2 ^ 31
        → n ≤ length buf
        → read_bytes drv readers stack at n buf
          ≡ ok (
            n,
            slice (image (disk_bytes drv mbr sector_bytes) 0 (total_sectors drv)) at n
                ++ drop n buf,
          )
    call stack at n buf s i w r =
        let all : min n (total_sectors drv * drv.bps - at) ≡ n = omega arith in
        read_bytes-slice drv readers sector_bytes mbr stack at n buf valid ordered serves serves_mbr
          k power k_top s (omega arith) w r
        ∙ ap
            (λ m. ok (
              m,
              slice (image (disk_bytes drv mbr sector_bytes) 0 (total_sectors drv)) at m
                  ++ drop m buf,
            ))
            all
