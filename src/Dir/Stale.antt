-- ===== src/Dir/Stale.antt =====
-- Bytes of a directory that libvdf/read_dir.c does not write.
use vdf.Prelude.{
  ℕ, ◌+◌, ◌-◌, ◌*◌, ◌≤◌, ◌≡◌, refl, sym, ap, ◌∙◌, min, false, List, ◌++◌, append_assoc, none, Bool,
  Result, ok, arith, length, length-drop, take, drop, drop-drop, drop-append,
}
use vdf.Drive.{VdfDrive, VdfFile, is_fat32}
use vdf.Read.Bytes.Slices.{slice, length-slice}
use vdf.Dir.{Tm, short_bytes, chk_sum, fill_dirent}
use vdf.Dir.Entry.{entry_bytes, length-entry_bytes, length-short_bytes, entry_bytes-created}
use vdf.Dir.Long.{long_bytes}
use vdf.Dir.Fill.{
  length-long_bytes, slice_left, slice_both, long_entries, fill_dirent-written_entries,
}

-- On FAT12 and FAT16 fill_dirent does not write the date of creation: if there is room for all the
-- entries of a file that are left from `entnum` on, it writes them, and the two bytes of the date of
-- creation in the last of them, that of the short name, are the bytes that lay there in the buffer
-- before. The name of the file is as long as the number of its entries says.
pub fill_dirent-stale :
    (gmtime : ℕ → Tm) (drv : VdfDrive) (buf : List ℕ) (f : VdfFile) (entnum maxcnt left : ℕ)
    → (f.fent_cnt - 1) * 13 ≤ length f.name
    → entnum ≤ f.fent_start + long_entries gmtime drv f
    → is_fat32 drv.filesys ≡ false
    → left ≡ long_entries gmtime drv f - (entnum - f.fent_start)
    → left + 1 ≤ maxcnt
    → 32 * (left + 1) ≤ length buf
    → (out : List ℕ) × (fill_dirent gmtime drv buf f entnum maxcnt none ≡ ok (left + 1, out))
      × (slice out (32 * left + 16) 2 ≡ slice buf (32 * left + 16) 2)
fill_dirent-stale gmtime drv buf f entnum maxcnt left name inside narrow e fits room =
    let n = long_entries gmtime drv f in
    let skip = entnum - f.fent_start in
    let short = short_bytes f.shortname in
    let long = long_bytes f (chk_sum 0 short) n in
    let old = drop (32 * left) buf in
    let entry = entry_bytes gmtime false f short old in
    let old_len = length-drop (32 * left) buf in
    let long_len = length-long_bytes f (chk_sum 0 short) n in
    let front = slice long (32 * skip) (32 * left) in
    let rest = drop (32 * (left + 1)) buf in
    let all : min maxcnt (n + 1 - skip) ≡ left + 1 = omega arith in
    let size : 32 * (left + 1) ≡ 32 * left + 32 = omega arith in
    let entry_len =
      length-entry_bytes gmtime false f short old (length-short_bytes f.shortname)
        (omega (arith, old_len)) in
    let both =
      slice_both long entry (32 * skip) (32 * left) 32 (omega (arith, long_len)) entry_len in
    let front_len : 32 * left ≡ length front =
      sym (length-slice long (32 * skip) (32 * left) (omega (arith, long_len))) in
    let filled =
      fill_dirent-written_entries gmtime drv buf f entnum maxcnt name inside (omega arith)
        (omega (arith, all)) in
    let part : ℕ → Bool → ℕ → Result (ℕ × List ℕ) = λ w b l. ok (
      w,
      slice (long ++ entry_bytes gmtime b f short (drop (32 * l) buf)) (32 * skip) (32 * w)
          ++ drop (32 * w) buf,
    ) in
    let out = front ++ (entry ++ rest) in
    (
      out,
      filled
          ∙ ap (λ w. part w (is_fat32 drv.filesys) (n - skip)) all
          ∙ ap (λ l. part (left + 1) (is_fat32 drv.filesys) l) (sym e)
          ∙ ap (λ b. part (left + 1) b left) narrow
          ∙ ap (λ w. ok (left + 1, slice (long ++ entry) (32 * skip) w ++ rest)) size
          ∙ ap (λ t. ok (left + 1, t ++ rest)) both
          ∙ ap (λ t. ok (left + 1, t)) (append_assoc front entry rest),
      ap (take 2) (
            sym (drop-drop (32 * left) 16 (32 * left + 16) out refl)
            ∙ ap (drop 16) (drop-append front (entry ++ rest) (32 * left) front_len))
          ∙ slice_left entry rest 16 2 (omega (arith, entry_len))
          ∙ entry_bytes-created gmtime f short old (length-short_bytes f.shortname)
              (omega (arith, old_len))
          ∙ ap (take 2) (drop-drop (32 * left) 16 (32 * left + 16) buf refl),
    )
