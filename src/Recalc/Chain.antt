-- ===== src/Recalc/Chain.antt =====
-- The list of ranges that vdf_drive_recalc builds from the places of the files.
use vdf.Prelude.{
  ℕ, zero, suc, ◌+◌, ◌-◌, ◌*◌, ◌^◌, ◌≤◌, ◌<◌, ◌≡◌, ◌≢◌, refl, ap, sym, ◌∙◌, ◌⊎◌, inl, inr, true,
  false, List, [], ◌∷◌, Result, ok, err, fault, arith, ◌==◌, if◌then◌else◌, length, map_ok,
  Bool-cases,
}
use mathlib.Core.Path.{subst}
use vdf.Drive.{VdfDrive, VdfFile, FileRange, file_is_dir}
use vdf.Recalc.{fill_ranges, range_of, in_ranges, cmp_filerange_le, insert_range, sort_ranges}
use vdf.Recalc.Alloc.{Alloc, Small}

-- The ranges lie one behind the other from cluster `c` and sector `s` to `c'` and `s'`, none is
-- empty, and a cluster has `spc` sectors.
abbrev pub Chain : ℕ → ℕ → ℕ → List FileRange → ℕ → ℕ → Type 0
Chain spc c s [] c' s' = (c' ≡ c) × (s' ≡ s)
Chain spc c s (r ∷ rs) c' s' =
    (r.fatstart ≡ c)
    × (c < r.fatend)
    × (r.sectstart ≡ s)
    × (r.sectend ≡ s + (r.fatend - c) * spc)
    × Chain spc r.fatend r.sectend rs c' s'

-- No range is longer than 2 ^ 24 sectors.
abbrev pub Short : List FileRange → Type 0
Short [] = Unit {0}
Short (r ∷ rs) = (r.sectend ≤ r.sectstart + 2 ^ 24) × Short rs

-- The ranges tell the ends of their files.
abbrev pub Agree : (ℕ → VdfFile) → List FileRange → Type 0
Agree files [] = Unit {0}
Agree files (r ∷ rs) = ((files r.file).end ≡ r.fatend) × Agree files rs

-- Every file of the list that has a size has a cluster; every directory of it has a size.
abbrev pub Populated : VdfDrive → List ℕ → Type 0
Populated drv [] = Unit {0}
Populated drv (i ∷ is) =
    (((drv.files i).size ≡ 0) ⊎ (1 ≤ (drv.files i).clusters))
    × ((file_is_dir drv i ≡ false) ⊎ ((drv.files i).size ≢ 0))
    × Populated drv is

-- The number of files of the list that have a size.
abbrev pub count_nonempty : (ℕ → VdfFile) → List ℕ → ℕ
count_nonempty files [] = 0
count_nonempty files (i ∷ is) = (if (files i).size == 0 then 0 else 1) + count_nonempty files is

-- An array of as many entries as there are files with a size is filled without a fault, and its
-- entries are a chain.
pub fill_ranges-Chain :
    (is : List ℕ) (drv : VdfDrive) (n c s c' s' : ℕ)
    → Populated drv is
    → Small drv.files drv.spc is
    → count_nonempty drv.files is ≤ n
    → s' < 2 ^ 32
    → Alloc drv.files drv.spc c s is c' s'
    → (rs : List FileRange) × (fill_ranges drv n is ≡ ok rs)
      × Chain drv.spc c s rs c' s'
      × (s ≤ s')
      × Short rs
unfolding fill_ranges
fill_ranges-Chain [] drv n c s c' s' p sm cnt room a = ([], refl, a, omega arith, tt)
fill_ranges-Chain (i ∷ is) drv n c s c' s' (has_cluster, dir_sized, p) sm cnt room
      (inl (z, st, a)) =
    let (rs, e, ch, le, sh) = fill_ranges-Chain is drv n c s c' s' p sm.1 (ground arith) room a in
    (rs, ground arith, ch, le, sh)
fill_ranges-Chain (i ∷ is) drv zero c s c' s' (has_cluster, dir_sized, p) sm cnt room
      (inr (nz, st, en, ss, es, a)) =
    absurd (ground arith)
fill_ranges-Chain (i ∷ is) drv (suc n) c s c' s' (has_cluster, dir_sized, p) sm cnt room
      (inr (nz, st, en, ss, es, a)) =
    let (rs, e, ch, le, sh) = fill_ranges-Chain is drv n _ _ c' s' p sm.1 (ground arith) room a in
    let en' : (drv.files i).end - c ≡ (drv.files i).clusters = omega arith in
    let se : (range_of drv i).sectend ≡ s + (drv.files i).clusters * drv.spc = omega arith in
    let listed : in_ranges drv i ≡ true = ground arith in
    (
      range_of drv i ∷ rs,
      ground arith,
      (st, omega arith, ss, rw en' se, rw (en, se) ch),
      omega arith,
      (omega arith, sh),
    )

insert_first :
    (r x : FileRange) (xs : List FileRange)
    → cmp_filerange_le r x ≡ true
    → insert_range r (x ∷ xs) ≡ r ∷ x ∷ xs
unfolding insert_range
insert_first r x xs h = rw h

-- A chain whose ranges do not wrap is in order already: qsort returns it as it is.
pub sort_ranges-Chain :
    (rs : List FileRange) (spc c s c' s' : ℕ)
    → Chain spc c s rs c' s'
    → s' < 2 ^ 32
    → Short rs
    → (sort_ranges rs ≡ rs) × (s ≤ s')
unfolding sort_ranges insert_range
sort_ranges-Chain [] spc c s c' s' h room k = (refl, omega arith)
sort_ranges-Chain (r ∷ []) spc c s c' s' h room k = (refl, omega arith)
sort_ranges-Chain (r ∷ x ∷ xs) spc c s c' s' h room k =
    let (e, le) = sort_ranges-Chain (x ∷ xs) spc r.fatend r.sectend c' s' h.4 room k.1 in
    let first : cmp_filerange_le r x ≡ true = ground arith in
    (ap (insert_range r) e ∙ insert_first r x xs first, omega arith)

pub fill_skip :
    (drv : VdfDrive) (n i : ℕ) (is : List ℕ)
    → in_ranges drv i ≡ false
    → fill_ranges drv n (i ∷ is) ≡ fill_ranges drv n is
unfolding fill_ranges
fill_skip drv n i is h = rw (h, fill_ranges)

pub fill_take :
    (drv : VdfDrive) (n i : ℕ) (is : List ℕ) (rs : List FileRange)
    → in_ranges drv i ≡ true
    → fill_ranges drv n (i ∷ is) ≡ ok rs
    → (m : ℕ) × (rest : List FileRange) × (fill_ranges drv m is ≡ ok rest)
      × (range_of drv i ∷ rest ≡ rs)
unfolding fill_ranges
fill_take drv zero i is rs h e = ground arith
fill_take drv (suc m) i is rs h e = with_rest (fill_ranges drv m is) refl (rw (fill_ranges, h) at e)
  where
    with_rest :
        (r : Result (List FileRange))
        → fill_ranges drv m is ≡ r
        → map_ok (λ rest. range_of drv i ∷ rest) r ≡ ok rs
        → (m : ℕ) × (rest : List FileRange) × (fill_ranges drv m is ≡ ok rest)
          × (range_of drv i ∷ rest ≡ rs)
    with_rest (ok rest) eq e' = (m, rest, eq, cc)
    with_rest (err x) eq e' = cc
    with_rest fault eq e' = cc

-- The array has an entry for each file that has a size, and each tells the end of its file.
pub fill_ranges-Agree :
    (is : List ℕ) (drv : VdfDrive) (n : ℕ) (rs : List FileRange)
    → Populated drv is
    → fill_ranges drv n is ≡ ok rs
    → Agree drv.files rs × (length rs ≡ count_nonempty drv.files is)
unfolding fill_ranges
fill_ranges-Agree [] drv n [] p e = (tt, refl)
fill_ranges-Agree [] drv n (r ∷ rs) p e = cc
fill_ranges-Agree (i ∷ is) drv n rs (has_cluster, sized, p) e =
    elim (Bool-cases (in_ranges drv i)) [
      | inl listed ↦
          let (m, rest, filled, cons) = fill_take drv n i is rs listed e in
          let (agree, len) = fill_ranges-Agree is drv m rest p filled in
          subst (λ rs. Agree drv.files rs × (length rs ≡ count_nonempty drv.files (i ∷ is))) cons
            ((refl, agree), ground arith)
      | inr empty ↦
          let (agree, len) =
            fill_ranges-Agree is drv n rs p (sym (fill_skip drv n i is empty) ∙ e) in
          (agree, ground arith)
    ]
