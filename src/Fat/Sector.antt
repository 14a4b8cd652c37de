-- ===== src/Fat/Sector.antt =====
-- read_sector_fat for FAT16 and FAT32: the bytes of the sectors are those of the table.
use vdf.Prelude.{
  ℕ, zero, suc, ◌+◌, ◌≤◌, ◌<◌, ◌≡◌, refl, ap, ◌∙◌, List, [], ◌∷◌, ◌++◌, arith, ltb, ◌==◌,
  Bool-cases, inl, inr, if◌then◌else◌, length, drop, Option, some, Result, ok, le_16, le_32, ltb→lt,
  ltb→le, ne→==,
}
use vdf.Drive.{VdfDrive, VdfFile, FileRange, Filesys, fat12, fat16, fat32}
use vdf.Fat.{ranges, find_range}
use vdf.Fat.Spec.{entry, table, Rising, table_skip}
use vdf.Recalc.Chain.{Agree}

-- Width, layout and marks of an entry. (FAT12 has none in whole bytes.)
abbrev pub width : Filesys → ℕ
width fat12 = 0
width fat16 = 2
width fat32 = 4

abbrev pub le_of : Filesys → ℕ → List ℕ
le_of fat12 v = []
le_of fat16 v = le_16 v
le_of fat32 v = le_32 v

abbrev pub eoc_of : Filesys → ℕ
eoc_of fat12 = 0xfff
eoc_of fat16 = 0xffff
eoc_of fat32 = 0x0fffffff

abbrev pub media_of : Filesys → ℕ
media_of fat12 = 0xff8
media_of fat16 = 0xfff8
media_of fat32 = 0x0ffffff8

-- The bytes of `n` entries from `e` on, the two reserved ones included.
abbrev pub fat_entry : Filesys → List FileRange → ℕ → ℕ
fat_entry f rs e = if e == 0 then media_of f else if e == 1 then eoc_of f else entry (eoc_of f) rs e

abbrev pub fat_bytes : Filesys → List FileRange → ℕ → ℕ → List ℕ
fat_bytes f rs e zero = []
fat_bytes f rs e (suc n) = le_of f (fat_entry f rs e) ++ fat_bytes f rs (e + 1) n

abbrev pub end_of : ℕ → List FileRange → ℕ
end_of c [] = c
end_of c (r ∷ rs) = end_of r.fatend rs

-- A drive whose ranges are those of its files, with no empty file among them.
pub record IsRanged (drv : VdfDrive) : Type 0 where
  pub count : drv.file_cnt ≡ length (ranges drv)
  pub rising : Rising 2 (ranges drv)
  pub ends : end_of 2 (ranges drv) ≡ drv.data_cluster_end
  pub agree : Agree drv.files (ranges drv)

pub fat_bytes-table :
    (f : Filesys) (rs : List FileRange) (e n : ℕ)
    → 2 ≤ e
    → fat_bytes f rs e n ≡ table (le_of f) (eoc_of f) rs e n
fat_bytes-table f rs e zero h = refl
fat_bytes-table f rs e (suc n) h =
    rw (
      fat_bytes-table f rs (e + 1) n (omega arith),
      ne→== e 0 (omega arith),
      ne→== e 1 (omega arith),
    )

pub table_behind :
    (le : ℕ → List ℕ) (eoc : ℕ) (rs : List FileRange) (c e n : ℕ)
    → Rising c rs
    → end_of c rs ≤ e
    → table le eoc rs e n ≡ table le eoc [] e n
table_behind le eoc [] c e n h k = refl
table_behind le eoc (r ∷ rs) c e n h k =
    table_skip le eoc r rs e n (le_end rs r.fatend h.1 k)
    ∙ table_behind le eoc rs r.fatend e n h.1 k
  where
    le_end : (rs : List FileRange) (c : ℕ) → Rising c rs → end_of c rs ≤ e → c ≤ e
    le_end [] c h k = k
    le_end (r ∷ rs) c h k = omega (arith, le_end rs r.fatend h.1 k)

-- The search finds the range that holds the entry, and the table does not depend on those before it.
pub record Found (le : ℕ → List ℕ) (eoc ent : ℕ) (files : ℕ → VdfFile) (rs : List FileRange) (i : ℕ)
    (res : Result (Option ℕ)) : Type 0 where
  pub skip : ℕ
  pub range : FileRange
  pub rest : List FileRange
  pub at : drop skip rs ≡ range ∷ rest
  pub found : res ≡ ok (some (i + skip))
  pub rising : Rising ent (range ∷ rest)
  pub agree : Agree files (range ∷ rest)
  pub same : (n : ℕ) → table le eoc rs ent n ≡ table le eoc (range ∷ rest) ent n

pub find_range-Found :
    (le : ℕ → List ℕ) (eoc ent : ℕ) (files : ℕ → VdfFile) (rs : List FileRange) (c n i : ℕ)
    → n ≡ length rs
    → Rising c rs
    → Agree files rs
    → c ≤ ent
    → ent < end_of c rs
    → Found le eoc ent files rs i (find_range rs n i ent)
unfolding find_range
find_range-Found le eoc ent files [] c n i l h a k m = absurd (omega arith)
find_range-Found le eoc ent files (r ∷ rs) c zero i l h a k m = absurd (omega arith)
find_range-Found le eoc ent files (r ∷ rs) c (suc n) i l h a k m =
    elim (Bool-cases (ltb ent r.fatend)) [
      | inl here ↦ record {
        skip = 0;
        range = r;
        rest = rs;
        at = refl;
        found = rw here (ap (λ j. ok (some j)) (omega arith));
        rising = (ltb→lt _ _ here, h.1);
        agree = a;
        same = λ n. refl;
      }
      | inr later ↦
          let f =
            find_range-Found le eoc ent files rs r.fatend n (i + 1) (omega arith) h.1 a.1
              (ltb→le _ _ later) m in
          record {
            skip = suc f.skip;
            range = f.range;
            rest = f.rest;
            at = f.at;
            found = rw later (f.found ∙ ap (λ j. ok (some j)) (omega arith));
            rising = f.rising;
            agree = f.agree;
            same = λ n. table_skip le eoc r rs ent n (ltb→le _ _ later) ∙ f.same n;
          }
    ]
