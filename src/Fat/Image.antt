-- ===== src/Fat/Image.antt =====
-- read_sector_fat as a whole, for FAT16 and FAT32.
use vdf.Prelude.{
  ℕ, suc, ◌+◌, ◌*◌, ◌≤◌, ◌<◌, ◌^◌, ◌≡◌, ◌≢◌, refl, sym, ap, ◌∙◌, List, ◌∷◌, ◌++◌, arith, leb, Bool,
  Bool-cases, inl, inr, length, drop, none, some, ok, replicate, sub32, u32, leb→le, leb→lt,
}
use vdf.Drive.{VdfDrive, FileRange, Filesys, fat12, fat16, fat32}
use vdf.Fat.{ranges, last_of, find_file_fat_entry, finish, fat_loop, read_entries}
use vdf.Fat.Spec.{table, Rising-lt, table_free, drop-suc}
use vdf.Recalc.Chain.{Agree}
use vdf.Fat.Loop.{fat_loop-table, finish_lem}
use vdf.Fat.Sector.{width, le_of, eoc_of, IsRanged, find_range-Found, table_behind}

zeros : (f : Filesys) → le_of f 0 ≡ replicate (width f) 0
zeros fat12 = refl
zeros fat16 = refl
zeros fat32 = refl

width_pos : (f : Filesys) → f ≢ fat12 → 1 ≤ width f
width_pos fat12 h = absurd (h refl)
width_pos fat16 h = omega arith
width_pos fat32 h = omega arith

entries-loop :
    (f : Filesys) (drv : VdfDrive) (scnt : ℕ) (buf : List ℕ) (i ent ind last : ℕ) (half : Bool)
    → f ≢ fat12
    → drv.filesys ≡ f
    → find_file_fat_entry drv ent ≡ ok (some ind)
    → last_of drv ind ≡ ok last
    → read_entries drv scnt buf i ent half
      ≡ fat_loop drv
          (width f)
          (le_of f)
          (eoc_of f)
          scnt
          (suc scnt)
          buf
          i
          ent
          (u32 (ent + 1))
          last
          ind
unfolding read_entries
entries-loop fat12 drv scnt buf i ent ind last half h e s l = absurd (h refl)
entries-loop fat16 drv scnt buf i ent ind last half h e s l = ground arith
entries-loop fat32 drv scnt buf i ent ind last half h e s l = ground arith

entries-free :
    (drv : VdfDrive) (scnt : ℕ) (buf : List ℕ) (i ent : ℕ) (half : Bool)
    → find_file_fat_entry drv ent ≡ ok none
    → read_entries drv scnt buf i ent half ≡ finish scnt i buf
unfolding read_entries
entries-free drv scnt buf i ent half s = ground arith

n-lt : {w : ℕ} (n k scnt : ℕ) → 1 ≤ w → k ≡ n * w → k ≤ scnt → n < suc scnt
n-lt {w} n k scnt h e l = grind arith

-- `fat_loop` with the end of the file that the index stands for.
module _ (f : Filesys) (not12 : f ≢ fat12) (drv : VdfDrive) (is : drv.filesys ≡ f)
    (ranged : IsRanged drv) where
  private_last :
      (ind : ℕ) {r : FileRange} {rest : List FileRange}
      → drop ind (ranges drv) ≡ r ∷ rest
      → Agree drv.files (r ∷ rest)
      → last_of drv ind ≡ ok (sub32 r.fatend 1)
  unfolding last_of
  private_last ind d a =
      let (_, _, g) = drop-suc (ranges drv) ind d in rw (g, last_of) (ap (λ e. ok (sub32 e 1)) a.0)

  -- The rest of the buffer after the entries is left alone.
  pub entries-table :
      (scnt n k : ℕ) (buf : List ℕ) (i ent : ℕ) (half : Bool)
      → k ≡ n * width f
      → i + k ≡ scnt
      → scnt < 2 ^ 31
      → k ≤ length buf
      → 2 ≤ ent
      → read_entries drv scnt buf i ent half
        ≡ ok (table (le_of f) (eoc_of f) (ranges drv) ent n ++ drop k buf)
  entries-table scnt n k buf i ent half e s top_s l two =
      elim (Bool-cases (leb drv.data_cluster_end ent)) [
        | inl free ↦
            entries-free drv scnt buf i ent half (unfold find_file_fat_entry in rw free)
            ∙ finish_lem scnt i k buf s top_s l
            ∙ ap (λ t. ok (t ++ drop k buf))
                (sym (
                  table_behind (le_of f) (eoc_of f) (ranges drv) 2 ent n ranged.rising
                    (rw ranged.ends (leb→le _ _ free))
                  ∙ table_free (le_of f) (width f) (eoc_of f) ent n k (zeros f) e))
        | inr used ↦
            let found =
              find_range-Found (le_of f) (eoc_of f) ent drv.files (ranges drv) 2 drv.file_cnt 0
                ranged.count ranged.rising ranged.agree two
                (rw ranged.ends (omega (arith, leb→lt _ _ used))) in
            let at : find_file_fat_entry drv ent ≡ ok (some found.skip) =
              unfold find_file_fat_entry in
              rw used (found.found ∙ ap (λ j. ok (some j)) (omega arith)) in
            let top = Rising-lt found.rest found.range.fatend found.rising.1 in
            let one : u32 (ent + 1) ≡ ent + 1 = omega (arith, found.rising.0) in
            entries-loop f drv scnt buf i ent found.skip (sub32 found.range.fatend 1) half not12 is
              at (private_last found.skip found.at found.agree)
            ∙ ap
                (λ c.
                  fat_loop drv (width f) (le_of f) (eoc_of f) scnt (suc scnt) buf i ent c
                    (sub32 found.range.fatend 1) found.skip)
                one
            ∙ fat_loop-table drv (width f) (le_of f) (eoc_of f) scnt (width_pos f not12) top_s
                (zeros f) ranged.count n (suc scnt) buf i ent found.skip k found.range found.rest e
                s (n-lt n k scnt (width_pos f not12) e (omega arith)) l found.at found.rising
                found.agree
            ∙ ap (λ t. ok (t ++ drop k buf)) (sym (found.same n))
      ]
