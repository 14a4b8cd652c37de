-- ===== src/File/Shortname.antt =====
-- calc_shortname of libvdf/file.c: it leaves the lock alone, and a mark on the drive stays.
use vdf.Prelude.{
  ℕ, ◌-◌, ◌≡◌, refl, ◌∙◌, Bool, true, false, ◌++◌, Option, none, some, leb, if◌then◌else◌, has,
  length,
}
use vdf.Drive.{VdfDrive, put_file, vdf_dirty}
use vdf.DriveState.{set_drive_dirty}
use vdf.DriveState.Lock.{set_drive_dirty-dirty, set_drive_dirty-lockcnt}
use vdf.File.Names.{calc_shortname, short_base, short_ext, eq_list, number_name}

-- Not locked, and marked for the next recalculation.
abbrev pub Open : VdfDrive → Type 0
Open drv = (drv.lockcnt ≡ 0) × (has drv.flags vdf_dirty ≡ true)

pub set_drive_dirty-Open : (drv : VdfDrive) → drv.lockcnt ≡ 0 → Open (set_drive_dirty drv)
set_drive_dirty-Open drv l = (set_drive_dirty-lockcnt drv ∙ l, set_drive_dirty-dirty drv)

if_either : {A : Type 0} (P : A → Type 0) (b : Bool) (x y : A) → P x → P y → P (if b then x else y)
if_either P true x y h k = h
if_either P false x y h k = k

some_or_none :
    {A : Type 0} (P : VdfDrive × Bool → Type 0) (o : Option A) (x : VdfDrive × Bool)
    (k : A → VdfDrive × Bool)
    → P x
    → ((a : A) → P (k a))
    → let t : VdfDrive × Bool = elim o [ none ↦ x | some a ↦ k a ] in P t
some_or_none P none x k h g = h
some_or_none P (some a) x k h g = g a

pub record Marked (r : VdfDrive × Bool) : Type 0 where
  pub open_drive : Open r.0

put-Marked : (drv : VdfDrive) (b : Bool) → drv.lockcnt ≡ 0 → Marked (set_drive_dirty drv, b)
put-Marked drv b l = record { open_drive = set_drive_dirty-Open drv l }

pub calc_shortname-Marked :
    (limit : ℕ) (drv : VdfDrive) (i dir : ℕ) → Open drv → Marked (calc_shortname limit drv i dir)
unfolding calc_shortname
calc_shortname-Marked limit drv i dir h =
    let name = (drv.files i).name in
    let base = short_base name in
    let short = base ++ short_ext name in
    if_either Marked (eq_list short name) _ _ (put-Marked _ _ h.0) (
      if_either Marked (leb 8 (length base)) _ _
        (some_or_none Marked (number_name drv i dir (length base - 1) limit 1 short) _ _
          (record { open_drive = h }) (λ s. put-Marked _ _ h.0))
        (put-Marked _ _ h.0))

record Keeps (n : ℕ) (r : VdfDrive × Bool) : Type 0 where
  lockcnt : r.0.lockcnt ≡ n

put-Keeps : (drv : VdfDrive) (b : Bool) → Keeps drv.lockcnt (set_drive_dirty drv, b)
put-Keeps drv b = record { lockcnt = set_drive_dirty-lockcnt drv }

pub calc_shortname-lockcnt :
    (limit : ℕ) (drv : VdfDrive) (i dir : ℕ)
    → (calc_shortname limit drv i dir).0.lockcnt ≡ drv.lockcnt
unfolding calc_shortname
calc_shortname-lockcnt limit drv i dir =
    let name = (drv.files i).name in
    let base = short_base name in
    let short = base ++ short_ext name in
    (if_either (Keeps drv.lockcnt) (eq_list short name) _ _ (put-Keeps (put_file drv i _) _) (
      if_either (Keeps drv.lockcnt) (leb 8 (length base)) _ _
        (some_or_none (Keeps drv.lockcnt) (number_name drv i dir (length base - 1) limit 1 short) _
          _ (record { lockcnt = refl }) (λ s. put-Keeps (put_file drv i _) _))
        (put-Keeps (put_file drv i _) _))).lockcnt
