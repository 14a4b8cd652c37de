-- ===== src/DriveState/Lock.antt =====
-- What the lock of a drive promises: the drive has been recalculated when the lock is taken.
use vdf.Prelude.{
  ℕ, ◌≡◌, ◌≢◌, refl, ◌∙◌, true, false, not, Result, ok, err, fault, arith, ◌==◌, has, set_bit, none,
  Bool, if◌then◌else◌, ==→eq,
}
use vdf.Drive.{VdfDrive, drive_is_valid, vdf_dirty}
use vdf.Recalc.{drive_recalc}
use vdf.Recalc.Clean.{if_known, drive_recalc-lockcnt, drive_recalc-clean}
use vdf.DriveState.{set_drive_dirty, drive_lock, drive_unlock, count_lock}

pub set_drive_dirty-dirty : (drv : VdfDrive) → has (set_drive_dirty drv).flags vdf_dirty ≡ true
unfolding set_drive_dirty
set_drive_dirty-dirty drv = ground arith

pub set_drive_dirty-lockcnt : (drv : VdfDrive) → (set_drive_dirty drv).lockcnt ≡ drv.lockcnt
unfolding set_drive_dirty
set_drive_dirty-lockcnt drv = ground arith

-- A drive that is locked has been recalculated since it was last changed.
abbrev pub LockClean : VdfDrive → Type 0
LockClean drv = drv.lockcnt ≢ 0 → has drv.flags vdf_dirty ≡ false

locked_if_not : (n : ℕ) → (n == 0) ≡ false → n ≢ 0
locked_if_not n h e = ground arith

count_lock-LockClean :
    (r : VdfDrive × Result (Unit {0}))
    → r.0.lockcnt ≡ 0
    → (r.1 ≡ ok tt → has r.0.flags vdf_dirty ≡ false)
    → LockClean (count_lock r).0
count_lock-LockClean (d, ok u) e clean h = clean refl
count_lock-LockClean (d, err x) e clean h = absurd (h e)
count_lock-LockClean (d, fault) e clean h = absurd (h e)

pub drive_lock-LockClean :
    (fuel : ℕ) (drv : VdfDrive) → LockClean drv → LockClean (drive_lock fuel drv).0
unfolding drive_lock
drive_lock-LockClean fuel drv inv =
    if_known P (not (drive_is_valid drv)) _ _ (λ v. inv)
      λ v.
        if_known P (drv.lockcnt == 0) _ _
          (λ l.
            count_lock-LockClean (drive_recalc fuel drv)
              (drive_recalc-lockcnt fuel drv ∙ ==→eq drv.lockcnt 0 l) (drive_recalc-clean fuel drv))
          (λ l h. inv (locked_if_not drv.lockcnt l))
  where
    P : VdfDrive × Result (Unit {0}) → Type 0
    P r = LockClean r.0

pub drive_unlock-LockClean : (drv : VdfDrive) → LockClean drv → LockClean (drive_unlock drv).0
unfolding drive_unlock
drive_unlock-LockClean drv inv =
    if_known P (not (drive_is_valid drv)) _ _ (λ v. inv)
      λ v. if_known P (drv.lockcnt == 0) _ _ (λ l. inv) (λ l h. inv (locked_if_not drv.lockcnt l))
  where
    P : VdfDrive × Result (Unit {0}) → Type 0
    P r = LockClean r.0

pub set_drive_dirty-files : (drv : VdfDrive) → (set_drive_dirty drv).files ≡ drv.files
unfolding set_drive_dirty
set_drive_dirty-files drv = go (has drv.flags vdf_dirty)
  where
    go :
        (b : Bool)
        → (if b
            then drv
            else record drv { ranges = none; flags = set_bit drv.flags vdf_dirty }).files
          ≡ drv.files
    go true = refl
    go false = refl
