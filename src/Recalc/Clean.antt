-- ===== src/Recalc/Clean.antt =====
-- vdf_drive_recalc and the mark that a drive has changed.
use vdf.Prelude.{
  ℕ, ◌≡◌, ◌≢◌, refl, ◌∙◌, Bool, true, false, not, List, [], ◌∷◌, zero, suc, Option, none, some,
  Result, Errno, ok, err, fault, einval, eperm, unset, arith, ◌==◌, if◌then◌else◌, has, clear_bit,
}
use vdf.Drive.{VdfDrive, FileRange, drive_is_valid, vdf_dirty, file_is_dir, is_fat32}
use vdf.Recalc.{
  recalc_in, place_dir, size_dir, set_fent_cnt, file_recalc_dir, recalc_entries,
  file_recalc_offsize, drive_recalc, start_recalc, dir_recalc, recalc_offsizes, finish_recalc,
  fill_ranges, sort_ranges,
}

-- If the call returned 0, the drive is not marked.
record Clean (r : VdfDrive × Result (Unit {0})) : Type 0 where
  clean : r.1 ≡ ok tt → has r.0.flags vdf_dirty ≡ false

refused : {drv : VdfDrive} (e : Errno) → Clean (drv, err e)
refused e = record { clean = λ h. cc }

faulted : {drv : VdfDrive} → Clean (drv, fault)
faulted = record { clean = λ h. cc }

pub if_known :
    {A : Type 0} (P : A → Type 0) (b : Bool) (x y : A)
    → (b ≡ true → P x)
    → (b ≡ false → P y)
    → P (if b then x else y)
if_known P true x y h k = h refl
if_known P false x y h k = k refl

cleared : (flags : ℕ) → has (clear_bit flags vdf_dirty) vdf_dirty ≡ false
cleared flags = ground arith

finish_recalc-Clean : (r : VdfDrive × Bool) → Clean (finish_recalc r)
finish_recalc-Clean (drv, false) = refused unset
finish_recalc-Clean (drv, true) = go (fill_ranges drv drv.nonempty_file_cnt drv.all_files)
  where
    go :
        (o : Result (List FileRange))
        → let t : VdfDrive × Result (Unit {0}) = elim o [
          | ok rs ↦ (
            record drv { ranges = some (sort_ranges rs); flags = clear_bit drv.flags vdf_dirty },
            ok tt,
          )
          | err e ↦ (drv, err e)
          | fault ↦ (drv, fault)
        ] in
          Clean t
    go (ok rs) = record { clean = λ h. cleared drv.flags }
    go (err e) = refused e
    go fault = faulted

drive_recalc-Clean : (fuel : ℕ) (drv : VdfDrive) → Clean (drive_recalc fuel drv)
unfolding drive_recalc
drive_recalc-Clean fuel drv =
    if_known Clean (not (drive_is_valid drv)) _ _ (λ v. refused einval)
      λ v.
        if_known Clean (not (drv.lockcnt == 0)) _ _ (λ l. refused eperm)
          λ l.
            if_known Clean (not (has drv.flags vdf_dirty)) _ _
              (λ d. record { clean = λ h. ground arith })
              λ d. go (dir_recalc fuel (start_recalc drv) drv.root_dir)
  where
    go :
        (o : Result VdfDrive)
        → let t : VdfDrive × Result (Unit {0}) = elim o [
          | ok drv' ↦ finish_recalc (recalc_offsizes drv' drv'.all_files)
          | err e ↦ (drv, err e)
          | fault ↦ (drv, fault)
        ] in
          Clean t
    go (ok drv') = finish_recalc-Clean (recalc_offsizes drv' drv'.all_files)
    go (err e) = refused e
    go fault = faulted

-- Nothing in a recalculation touches the count of locks.
abbrev pub LockcntIs : ℕ → Result VdfDrive → Type 0
LockcntIs n (ok drv) = drv.lockcnt ≡ n
LockcntIs n (err e) = Unit {0}
LockcntIs n fault = Unit {0}

file_recalc_dir-lockcnt : (drv : VdfDrive) (i : ℕ) → (file_recalc_dir drv i).lockcnt ≡ drv.lockcnt
unfolding file_recalc_dir
file_recalc_dir-lockcnt drv i = go (drv.files i).parent
  where
    go :
        (o : Option ℕ)
        → let t : VdfDrive = elim o [ none ↦ drv | some p ↦ recalc_in drv i p ] in
          t.lockcnt ≡ drv.lockcnt
    go none = refl
    go (some p) = refl

place_dir-lockcnt : (drv : VdfDrive) (i : ℕ) → (place_dir drv i).lockcnt ≡ drv.lockcnt
place_dir-lockcnt drv i = go (drv.files i).parent
  where
    go :
        (o : Option ℕ)
        → let t : VdfDrive = elim o [
          | none ↦ if is_fat32 drv.filesys then file_recalc_dir drv i else drv
          | some p ↦ file_recalc_dir drv i
        ] in
          t.lockcnt ≡ drv.lockcnt
    go none =
        if_known (λ (d : VdfDrive). d.lockcnt ≡ drv.lockcnt) (is_fat32 drv.filesys) _ _
          (λ f. file_recalc_dir-lockcnt drv i) (λ f. refl)
    go (some p) = file_recalc_dir-lockcnt drv i

recalc_entries-lockcnt :
    (dir : VdfDrive → ℕ → Result VdfDrive)
    → ((drv : VdfDrive) (i : ℕ) → LockcntIs drv.lockcnt (dir drv i))
    → (is : List ℕ) (drv : VdfDrive) (n : ℕ) → drv.lockcnt ≡ n
    → LockcntIs n (recalc_entries dir drv is)
unfolding recalc_entries
recalc_entries-lockcnt dir h [] drv n e = e
recalc_entries-lockcnt dir h (i ∷ is) drv n e =
    by_kind (recalc_entries-lockcnt dir h is) (file_is_dir drv i)
  where
    by_dir :
        ((d : VdfDrive) (n : ℕ) → d.lockcnt ≡ n → LockcntIs n (recalc_entries dir d is))
        → (o : Result VdfDrive) → LockcntIs drv.lockcnt o
        → let t : Result VdfDrive = elim o [
          | ok drv' ↦ recalc_entries dir drv' is
          | err e ↦ err e
          | fault ↦ fault
        ] in
          LockcntIs n t
    by_dir rec (ok drv') k = rec drv' n (k ∙ e)
    by_dir rec (err x) k = tt
    by_dir rec fault k = tt

    by_kind :
        ((d : VdfDrive) (n : ℕ) → d.lockcnt ≡ n → LockcntIs n (recalc_entries dir d is))
        → (b : Bool)
        → let t : Result VdfDrive = elim b [
          | true ↦ elim (dir drv i) [
            | ok drv' ↦ recalc_entries dir drv' is
            | err e ↦ err e
            | fault ↦ fault
          ]
          | false ↦ recalc_entries dir (file_recalc_dir drv i) is
        ] in
          LockcntIs n t
    by_kind rec true = by_dir rec (dir drv i) (h drv i)
    by_kind rec false = rec (file_recalc_dir drv i) n (file_recalc_dir-lockcnt drv i ∙ e)

dir_recalc-lockcnt :
    (fuel : ℕ) (drv : VdfDrive) (i : ℕ) → LockcntIs drv.lockcnt (dir_recalc fuel drv i)
unfolding dir_recalc
dir_recalc-lockcnt zero drv i = tt
dir_recalc-lockcnt (suc fuel) drv i =
    go (recalc_entries (dir_recalc fuel) (set_fent_cnt drv i) (drv.files i).entries) (
      recalc_entries-lockcnt (dir_recalc fuel) (dir_recalc-lockcnt fuel) (drv.files i).entries
        (set_fent_cnt drv i) drv.lockcnt refl)
  where
    go :
        (o : Result VdfDrive)
        → LockcntIs drv.lockcnt o
        → let t : Result VdfDrive = elim o [
          | ok drv' ↦ ok (place_dir (size_dir drv' i) i)
          | err e ↦ err e
          | fault ↦ fault
        ] in
          LockcntIs drv.lockcnt t
    go (ok drv') k = place_dir-lockcnt (size_dir drv' i) i ∙ k
    go (err x) k = tt
    go fault k = tt

step-lockcnt : (drv : VdfDrive) (i : ℕ) → (file_recalc_offsize drv i).0.lockcnt ≡ drv.lockcnt
unfolding file_recalc_offsize
step-lockcnt drv i = ground arith

recalc_offsizes-lockcnt :
    (is : List ℕ) (drv : VdfDrive) → (recalc_offsizes drv is).0.lockcnt ≡ drv.lockcnt
unfolding recalc_offsizes
recalc_offsizes-lockcnt [] drv = refl
recalc_offsizes-lockcnt (i ∷ is) drv =
    go (recalc_offsizes-lockcnt is) (file_recalc_offsize drv i) (step-lockcnt drv i)
  where
    go :
        ((d : VdfDrive) → (recalc_offsizes d is).0.lockcnt ≡ d.lockcnt)
        → (r : VdfDrive × Bool) → r.0.lockcnt ≡ drv.lockcnt
        → let t : VdfDrive × Bool = elim r.1 [
          | true ↦ recalc_offsizes r.0 is
          | false ↦ (r.0, false)
        ] in
          t.0.lockcnt ≡ drv.lockcnt
    go rec (d, true) e = rec d ∙ e
    go rec (d, false) e = e

finish_recalc-lockcnt : (r : VdfDrive × Bool) → (finish_recalc r).0.lockcnt ≡ r.0.lockcnt
finish_recalc-lockcnt (drv, false) = refl
finish_recalc-lockcnt (drv, true) = go (fill_ranges drv drv.nonempty_file_cnt drv.all_files)
  where
    go :
        (o : Result (List FileRange))
        → let t : VdfDrive × Result (Unit {0}) = elim o [
          | ok rs ↦ (
            record drv { ranges = some (sort_ranges rs); flags = clear_bit drv.flags vdf_dirty },
            ok tt,
          )
          | err e ↦ (drv, err e)
          | fault ↦ (drv, fault)
        ] in
          t.0.lockcnt ≡ drv.lockcnt
    go (ok rs) = refl
    go (err e) = refl
    go fault = refl

pub drive_recalc-lockcnt :
    (fuel : ℕ) (drv : VdfDrive) → (drive_recalc fuel drv).0.lockcnt ≡ drv.lockcnt
unfolding drive_recalc
drive_recalc-lockcnt fuel drv =
    if_known P (not (drive_is_valid drv)) _ _ (λ v. refl)
      λ v.
        if_known P (not (drv.lockcnt == 0)) _ _ (λ l. refl)
          λ l.
            if_known P (not (has drv.flags vdf_dirty)) _ _ (λ d. refl)
              λ d.
                go (dir_recalc fuel (start_recalc drv) drv.root_dir)
                  (dir_recalc-lockcnt fuel (start_recalc drv) drv.root_dir)
  where
    P : VdfDrive × Result (Unit {0}) → Type 0
    P r = r.0.lockcnt ≡ drv.lockcnt

    go :
        (o : Result VdfDrive)
        → LockcntIs drv.lockcnt o
        → let t : VdfDrive × Result (Unit {0}) = elim o [
          | ok drv' ↦ finish_recalc (recalc_offsizes drv' drv'.all_files)
          | err e ↦ (drv, err e)
          | fault ↦ (drv, fault)
        ] in
          t.0.lockcnt ≡ drv.lockcnt
    go (ok drv') k =
        finish_recalc-lockcnt (recalc_offsizes drv' drv'.all_files)
        ∙ recalc_offsizes-lockcnt drv'.all_files drv'
        ∙ k
    go (err e) k = refl
    go fault k = refl

-- After a recalculation that returned 0 the drive is not marked dirty.
pub drive_recalc-clean :
    (fuel : ℕ) (drv : VdfDrive)
    → (drive_recalc fuel drv).1 ≡ ok tt
    → has (drive_recalc fuel drv).0.flags vdf_dirty ≡ false
drive_recalc-clean fuel drv = (drive_recalc-Clean fuel drv).clean

-- A locked drive is left as it is.
pub drive_recalc-locked :
    (fuel : ℕ) (drv : VdfDrive) → drv.lockcnt ≢ 0 → (drive_recalc fuel drv).0 ≡ drv
unfolding drive_recalc
drive_recalc-locked fuel drv h =
    if_known P (not (drive_is_valid drv)) _ _ (λ v. refl)
      λ v. if_known P (not (drv.lockcnt == 0)) _ _ (λ l. refl) λ l. absurd (h (zero_lock l))
  where
    P : VdfDrive × Result (Unit {0}) → Type 0
    P r = r.0 ≡ drv

    zero_lock : not (drv.lockcnt == 0) ≡ false → drv.lockcnt ≡ 0
    zero_lock l = ground arith
