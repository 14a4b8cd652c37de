-- ===== src/File/Creation.antt =====
-- The operations of libvdf/file.c that make, delete and move files: each leaves a locked drive alone, and
-- marks a drive that it changes.
use vdf.Prelude.{
  ℕ, ◌≡◌, refl, sym, Bool, true, false, not, ◌&&◌, List, Option, none, some, Result, ok, err, Errno,
  u32, fault, einval, eperm, arith, ◌==◌,
}
use mathlib.Core.Path.{subst}
use vdf.Drive.{VdfDrive, file_is_valid, file_is_dir}
use vdf.File.Shortname.{Open, set_drive_dirty-Open, Marked, calc_shortname-Marked}
use vdf.File.Names.{find_file_skip, calc_shortname, vff_longonly}
use vdf.DriveState.{set_drive_dirty}
use vdf.File.Deletion.{delete_file_lem}
use vdf.File.Entries.{
  create_file, create_dir, check_new, named, link, as_dir, dated, sized, virtual, shortened,
  add_dir, add_file_virt, add_file_real, vdf_delete_file, unlink, move_file, base_name,
}
use vdf.File.Tracked.{
  Tracked, kept, opened, guard, unlocked, none_or_some, some_refuses, set_file_date-Tracked,
  set_file_size-Tracked,
}

-- A result of create_file, and what its callers make of it.
check_new-unlocked :
    (drv : VdfDrive) (p : ℕ) (name : List ℕ) (u : Unit {0})
    → check_new drv p name ≡ ok u
    → drv.lockcnt ≡ 0
unfolding check_new
check_new-unlocked drv p name u e = ground arith

named-Open : (new p : ℕ) (r : VdfDrive × Bool) → Marked r → Open (named new p r).0
named-Open new p (drv, true) m = m.open_drive
named-Open new p (drv, false) m = m.open_drive

-- A call that makes a file refuses, or the drive was not locked and is marked now.
data Made (drv : VdfDrive) : VdfDrive × Result ℕ → Type 0 where
  refused : (e : Errno) → Made drv (drv, err e)
  faulted : Made drv (drv, fault)
  made : (r : VdfDrive × Result ℕ) → drv.lockcnt ≡ 0 → Open r.0 → Made drv r

create_file-Made :
    (limit : ℕ) (drv : VdfDrive) (new p : ℕ) (name : List ℕ)
    → Made drv (create_file limit drv new p name)
unfolding create_file
create_file-Made limit drv new p name = go (check_new drv p name) refl
  where
    go :
        (c : Result (Unit {0}))
        → check_new drv p name ≡ c
        → let t : VdfDrive × Result ℕ = elim c [
          | fault ↦ (drv, fault)
          | err e ↦ (drv, err e)
          | ok u ↦ named new p (calc_shortname limit (link drv new p name) new p)
        ] in
          Made drv t
    go fault e = faulted
    go (err x) e = refused x
    go (ok u) e =
        let l = check_new-unlocked drv p name u e in
        made _ l (
          named-Open new p (calc_shortname limit (link drv new p name) new p)
            (calc_shortname-Marked limit (link drv new p name) new p (set_drive_dirty-Open _ l)))

Made-Tracked : {drv : VdfDrive} {r : VdfDrive × Result ℕ} → Made drv r → Tracked drv r.0
Made-Tracked (refused e) = kept refl
Made-Tracked faulted = kept refl
Made-Tracked (made r l d) = opened l d

Tracked-Open : {a b : VdfDrive} → Tracked a b → Open a → Open b
Tracked-Open (kept e) h = subst Open (sym e) h
Tracked-Open (opened l d) h = d

as_dir-Made : {drv : VdfDrive} {r : VdfDrive × Result ℕ} → Made drv r → Made drv (as_dir r)
as_dir-Made (refused e) = refused e
as_dir-Made faulted = faulted
as_dir-Made (made (d, ok i) l h) = made _ l h
as_dir-Made (made (d, err e) l h) = made _ l h
as_dir-Made (made (d, fault) l h) = made _ l h

dated-Made :
    {drv : VdfDrive} (now : ℕ) {r : VdfDrive × Result ℕ} → Made drv r → Made drv (dated now r)
dated-Made now (refused e) = refused e
dated-Made now faulted = faulted
dated-Made now (made (d, ok i) l h) = made _ l (Tracked-Open (set_file_date-Tracked d i now) h)
dated-Made now (made (d, err e) l h) = made _ l h
dated-Made now (made (d, fault) l h) = made _ l h

sized-Made :
    {drv : VdfDrive} (st : ℕ × ℕ) (path : List ℕ) {r : VdfDrive × Result ℕ}
    → Made drv r
    → Made drv (sized st path r)
sized-Made st path (refused e) = refused e
sized-Made st path faulted = faulted
sized-Made st path (made (d, ok i) l h) = made _ l (Tracked-Open (set_file_date-Tracked _ i st.1) h)
sized-Made st path (made (d, err e) l h) = made _ l h
sized-Made st path (made (d, fault) l h) = made _ l h

virtual-Made :
    {drv : VdfDrive} (len cback now : ℕ) {r : VdfDrive × Result ℕ}
    → Made drv r
    → Made drv (virtual len cback now r)
virtual-Made len cback now (refused e) = refused e
virtual-Made len cback now faulted = faulted
virtual-Made len cback now (made (d, ok i) l h) = made _ l (
    Tracked-Open (set_file_date-Tracked _ i now)
      (Tracked-Open (set_file_size-Tracked _ i (u32 len)) h))
virtual-Made len cback now (made (d, err e) l h) = made _ l h
virtual-Made len cback now (made (d, fault) l h) = made _ l h

pub add_dir-Tracked :
    (limit : ℕ) (drv : VdfDrive) (new : ℕ) (p : Option ℕ) (name : Option (List ℕ)) (now : ℕ)
    → Tracked drv (add_dir limit drv new p name now).0
unfolding add_dir create_dir
add_dir-Tracked limit drv new none name now = kept refl
add_dir-Tracked limit drv new (some p) none now = kept refl
add_dir-Tracked limit drv new (some p) (some name) now =
    Made-Tracked (dated-Made now (as_dir-Made (create_file-Made limit drv new p name)))

pub add_file_virt-Tracked :
    (limit : ℕ) (drv : VdfDrive) (new : ℕ) (p : Option ℕ) (name : Option (List ℕ))
    (len cback now : ℕ)
    → Tracked drv (add_file_virt limit drv new p name len cback now).0
unfolding add_file_virt
add_file_virt-Tracked limit drv new none name len cback now = kept refl
add_file_virt-Tracked limit drv new (some p) none len cback now = kept refl
add_file_virt-Tracked limit drv new (some p) (some name) len cback now =
    Made-Tracked (virtual-Made len cback now (create_file-Made limit drv new p name))

pub add_file_real-Tracked :
    (stat : List ℕ → Result (ℕ × ℕ)) (limit : ℕ) (drv : VdfDrive) (new : ℕ) (p : Option ℕ)
    (name path : Option (List ℕ))
    → Tracked drv (add_file_real stat limit drv new p name path).0
unfolding add_file_real
add_file_real-Tracked stat limit drv new none name path = kept refl
add_file_real-Tracked stat limit drv new (some p) name none = kept refl
add_file_real-Tracked stat limit drv new (some p) name (some path) = go (stat path)
  where
    n : List ℕ
    n = elim name [ some s ↦ s | none ↦ base_name path path ]

    go :
        (o : Result (ℕ × ℕ))
        → let t : VdfDrive × Result ℕ = elim o [
          | fault ↦ (drv, fault)
          | err e ↦ (drv, err e)
          | ok st ↦ sized st path (create_file limit drv new p n)
        ] in
          Tracked drv t.0
    go fault = kept refl
    go (err x) = kept refl
    go (ok st) = Made-Tracked (sized-Made st path (create_file-Made limit drv new p n))

pub vdf_delete_file-Tracked : (drv : VdfDrive) (i : ℕ) → Tracked drv (vdf_delete_file drv i).0
unfolding vdf_delete_file
vdf_delete_file-Tracked drv i = guard drv (not (file_is_valid drv (some i))) (err einval) _ λ v.
    guard drv (i == drv.root_dir) (err einval) _ λ r.
      guard drv (not (drv.lockcnt == 0)) (err eperm) _ λ l.
        none_or_some drv (drv.files i).parent _ _ λ p h.
          let u = unlocked drv.lockcnt l in
          opened u
            (rw (delete_file_lem (set_drive_dirty (unlink drv i p)) i) (set_drive_dirty-Open _ u))

shortened-Open : (r : VdfDrive × Bool) → Marked r → Open (shortened r).0
shortened-Open (d, true) m = m.open_drive
shortened-Open (d, false) m = m.open_drive

pub move_file-Tracked :
    (limit : ℕ) (drv : VdfDrive) (i q : ℕ) → Tracked drv (move_file limit drv i q).0
unfolding move_file
move_file-Tracked limit drv i q = none_or_some drv (drv.files i).parent _ _ λ p h.
    guard drv (not (file_is_valid drv (some i) && file_is_valid drv (some q))) (err einval) _ λ v.
      guard drv (not (file_is_dir drv q)) (err einval) _ λ d.
        guard drv (not (drv.lockcnt == 0)) (err eperm) _ λ l. guard drv (p == q) (ok tt) _ λ n.
          some_refuses drv (find_file_skip drv q (drv.files i).name vff_longonly none) _ _ (
            let u = unlocked drv.lockcnt l in
            opened u
              (shortened-Open _ (calc_shortname-Marked limit _ i q (set_drive_dirty-Open _ u))))
