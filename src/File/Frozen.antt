-- ===== src/File/Frozen.antt =====
-- The operations on the files and the label of a drive, in any order.
use vdf.Prelude.{
  ℕ, ◌≡◌, ◌≢◌, refl, sym, ap, ◌∙◌, not, true, List, Option, Result, ok, err, einval, eperm, has,
  set_bit, fault, arith, ◌==◌,
}
use mathlib.Core.Path.{subst}
use vdf.Drive.{VdfDrive, Filesys, drive_is_valid, vdf_dirty}
use vdf.Geometry.{Plan, DriveExt, plan_drive}
use vdf.Recalc.{drive_recalc}
use vdf.Recalc.Clean.{if_known, drive_recalc-locked, drive_recalc-lockcnt}
use vdf.DriveState.{
  set_drive_label, drive_recreate_ext, recreate_ext, set_plan, relink_root, same_fsys, drive_lock,
  drive_unlock, set_drive_serial,
}
use vdf.DriveState.Lock.{LockClean, drive_lock-LockClean, drive_unlock-LockClean}
use vdf.File.Entries.{
  set_file_date, set_file_size, add_dir, add_file_real, add_file_virt, vdf_delete_file, move_file,
}
use vdf.File.Props.{set_file_name, set_file_shortname, set_fat_file_size, set_file_attr}
use vdf.File.Tracked.{
  Tracked, kept, opened, guard, unlocked, marked, set_file_date-Tracked, set_file_size-Tracked,
  set_fat_file_size-Tracked, set_file_attr-Tracked, set_file_name-Tracked,
  set_file_shortname-Tracked,
}
use vdf.File.Creation.{
  add_dir-Tracked, add_file_virt-Tracked, add_file_real-Tracked, vdf_delete_file-Tracked,
  move_file-Tracked,
}

set_drive_label-Tracked :
    (drv : VdfDrive) (label : Option (List ℕ)) → Tracked drv (set_drive_label drv label).0
unfolding set_drive_label
set_drive_label-Tracked drv label = guard drv (not (drive_is_valid drv)) (err einval) _ λ v.
    guard drv (not (drv.lockcnt == 0)) (err eperm) _
      λ l. marked drv (record drv { label = label }) l refl

marked_flags : (flags : ℕ) → has (set_bit flags vdf_dirty) vdf_dirty ≡ true
marked_flags flags = ground arith

relink_root-flags : (f : Filesys) (drv : VdfDrive) → (relink_root f drv).flags ≡ drv.flags
unfolding relink_root
relink_root-flags f drv = ground arith

relink_root-lockcnt : (f : Filesys) (drv : VdfDrive) → (relink_root f drv).lockcnt ≡ drv.lockcnt
unfolding relink_root
relink_root-lockcnt f drv = ground arith

drive_recreate_ext-Tracked :
    (drv : VdfDrive) (size flags : ℕ) (ext : DriveExt)
    → Tracked drv (drive_recreate_ext drv size flags ext).0
unfolding drive_recreate_ext recreate_ext set_plan
drive_recreate_ext-Tracked drv size flags ext =
    guard drv (not (drive_is_valid drv)) (err einval) _ λ v.
      guard drv (not (drv.lockcnt == 0)) (err eperm) _
        λ l. go (unlocked drv.lockcnt l) (plan_drive size (same_fsys drv flags) ext)
  where
    go :
        drv.lockcnt ≡ 0
        → (o : Result Plan)
        → let t : VdfDrive × Result (Unit {0}) = elim o [
          | fault ↦ (drv, fault)
          | err e ↦ (drv, err e)
          | ok p ↦ (relink_root drv.filesys (set_plan drv (same_fsys drv flags) p), ok tt)
        ] in
          Tracked drv t.0
    go l fault = kept refl
    go l (err e) = kept refl
    go l (ok p) = opened l (
      relink_root-lockcnt drv.filesys _ ∙ l,
      ap (λ f. has f vdf_dirty) (relink_root-flags drv.filesys _)
          ∙ marked_flags (same_fsys drv flags),
    )

-- A call of one of the operations, whatever its arguments and its result.
pub data Change : VdfDrive → VdfDrive → Type 0 where
  set_label : (drv : VdfDrive) (l : Option (List ℕ)) → Change drv (set_drive_label drv l).0
  set_date : (drv : VdfDrive) (i date : ℕ) → Change drv (set_file_date drv i date).0
  set_size : (drv : VdfDrive) (i size : ℕ) → Change drv (set_file_size drv i size).0
  set_fat_size : (drv : VdfDrive) (i size : ℕ) → Change drv (set_fat_file_size drv i size).0
  set_attr : (drv : VdfDrive) (i attr mask : ℕ) → Change drv (set_file_attr drv i attr mask).0
  set_name :
      (limit : ℕ) (drv : VdfDrive) (i : ℕ) (name : Option (List ℕ))
      → Change drv (set_file_name limit drv i name).0
  set_shortname :
      (drv : VdfDrive) (i : ℕ) (name : Option (List ℕ))
      → Change drv (set_file_shortname drv i name).0
  add_a_dir :
      (limit : ℕ) (drv : VdfDrive) (new : ℕ) (p : Option ℕ) (name : Option (List ℕ)) (now : ℕ)
      → Change drv (add_dir limit drv new p name now).0
  add_real :
      (stat : List ℕ → Result (ℕ × ℕ)) (limit : ℕ) (drv : VdfDrive) (new : ℕ) (p : Option ℕ)
      (name path : Option (List ℕ))
      → Change drv (add_file_real stat limit drv new p name path).0
  add_virt :
      (limit : ℕ) (drv : VdfDrive) (new : ℕ) (p : Option ℕ) (name : Option (List ℕ))
      (len cback now : ℕ)
      → Change drv (add_file_virt limit drv new p name len cback now).0
  delete : (drv : VdfDrive) (i : ℕ) → Change drv (vdf_delete_file drv i).0
  recreate :
      (drv : VdfDrive) (size flags : ℕ) (ext : DriveExt)
      → Change drv (drive_recreate_ext drv size flags ext).0
  move : (limit : ℕ) (drv : VdfDrive) (i q : ℕ) → Change drv (move_file limit drv i q).0

pub Change-Tracked : {a b : VdfDrive} → Change a b → Tracked a b
Change-Tracked (set_label drv l) = set_drive_label-Tracked drv l
Change-Tracked (set_date drv i d) = set_file_date-Tracked drv i d
Change-Tracked (set_size drv i s) = set_file_size-Tracked drv i s
Change-Tracked (set_fat_size drv i s) = set_fat_file_size-Tracked drv i s
Change-Tracked (set_attr drv i attr mask) = set_file_attr-Tracked drv i attr mask
Change-Tracked (set_name limit drv i name) = set_file_name-Tracked limit drv i name
Change-Tracked (set_shortname drv i name) = set_file_shortname-Tracked drv i name
Change-Tracked (add_a_dir limit drv new p name now) = add_dir-Tracked limit drv new p name now
Change-Tracked (add_real stat limit drv new p name path) =
    add_file_real-Tracked stat limit drv new p name path
Change-Tracked (add_virt limit drv new p name len cback now) =
    add_file_virt-Tracked limit drv new p name len cback now
Change-Tracked (delete drv i) = vdf_delete_file-Tracked drv i
Change-Tracked (recreate drv size flags ext) = drive_recreate_ext-Tracked drv size flags ext
Change-Tracked (move limit drv i q) = move_file-Tracked limit drv i q

-- Calls one behind the other.
pub data Changes : VdfDrive → VdfDrive → Type 0 where
  no_change : (drv : VdfDrive) → Changes drv drv
  then_change : (a b c : VdfDrive) → Changes a b → Change b c → Changes a c

-- No sequence of calls of the operations on the files, the label or the layout of a drive changes a
-- locked drive, in any of its fields or files.
pub Changes-locked : {a b : VdfDrive} → Changes a b → a.lockcnt ≢ 0 → b ≡ a
Changes-locked (no_change drv) h = refl
Changes-locked (then_change a b c cs step) h =
    let same = Changes-locked cs h in go same (Change-Tracked step)
  where
    go : b ≡ a → Tracked b c → c ≡ a
    go e (kept f) = f ∙ e
    go e (opened l d) = absurd (h (sym (ap (λ d. d.lockcnt) e) ∙ l))

-- Any call on a drive but its release: an operation as above, or one on the lock, the serial number
-- and the recalculation.
pub data Call : VdfDrive → VdfDrive → Type 0 where
  change : (a b : VdfDrive) → Change a b → Call a b
  lock : (fuel : ℕ) (drv : VdfDrive) → Call drv (drive_lock fuel drv).0
  unlock : (drv : VdfDrive) → Call drv (drive_unlock drv).0
  set_serial : (drv : VdfDrive) (serial : ℕ) → Call drv (set_drive_serial drv serial).0
  recalc : (fuel : ℕ) (drv : VdfDrive) → Call drv (drive_recalc fuel drv).0

pub data Calls : VdfDrive → VdfDrive → Type 0 where
  no_call : (drv : VdfDrive) → Calls drv drv
  then_call : (a b c : VdfDrive) → Calls a b → Call b c → Calls a c

Tracked-LockClean : {a b : VdfDrive} → Tracked a b → LockClean a → LockClean b
Tracked-LockClean (kept e) inv = subst LockClean (sym e) inv
Tracked-LockClean (opened l o) inv = λ h. absurd (h o.0)

drive_recalc-LockClean :
    (fuel : ℕ) (drv : VdfDrive) → LockClean drv → LockClean (drive_recalc fuel drv).0
drive_recalc-LockClean fuel drv inv h =
    let l : drv.lockcnt ≢ 0 = λ z. h (drive_recalc-lockcnt fuel drv ∙ z) in
    ap (λ d. has d.flags vdf_dirty) (drive_recalc-locked fuel drv l) ∙ inv l

set_drive_serial-LockClean :
    (drv : VdfDrive) (serial : ℕ) → LockClean drv → LockClean (set_drive_serial drv serial).0
unfolding set_drive_serial
set_drive_serial-LockClean drv serial inv =
    if_known (λ (r : VdfDrive × Result (Unit {0})). LockClean r.0) (not (drive_is_valid drv)) _ _
      (λ v. inv) (λ v. inv)

Call-LockClean : {a b : VdfDrive} → Call a b → LockClean a → LockClean b
Call-LockClean (change a b c) = Tracked-LockClean (Change-Tracked c)
Call-LockClean (lock fuel drv) = drive_lock-LockClean fuel drv
Call-LockClean (unlock drv) = drive_unlock-LockClean drv
Call-LockClean (set_serial drv serial) = set_drive_serial-LockClean drv serial
Call-LockClean (recalc fuel drv) = drive_recalc-LockClean fuel drv

-- Whatever calls are made, in any order and with any result, from a drive that is not locked:
-- whenever the drive is locked, it is not marked dirty. The calls are the operations on files,
-- label and layout, the serial number, the lock and its release, and the recalculation.
pub Calls-LockClean : {a b : VdfDrive} → Calls a b → a.lockcnt ≡ 0 → LockClean b
Calls-LockClean (no_call drv) e = λ h. absurd (h e)
Calls-LockClean (then_call a b c cs step) e = Call-LockClean step (Calls-LockClean cs e)
