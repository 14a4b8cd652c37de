-- ===== src/Transport/Frozen.antt =====
-- While a transport runs, the drive that it reads does not change.
use vdf.Prelude.{
  ℕ, ◌+◌, ◌-◌, ◌≤◌, ◌≡◌, ◌≢◌, sym, ap, ◌∙◌, Bool-cases, Bool, inl, inr, true, List, [], ◌∷◌, Option,
  some, Result, ok, err, fault, arith, ◌==◌, ==→eq,
}
use mathlib.Core.Path.{subst}
use vdf.Drive.{VdfDrive}
use vdf.Recalc.{drive_recalc}
use vdf.Recalc.Alloc.{Fresh, Distinct}
use vdf.Recalc.Clean.{drive_recalc-lockcnt}
use vdf.DriveState.{drive_lock, drive_unlock, set_drive_serial}
use vdf.File.Names.{elem}
use vdf.File.Tracked.{Tracked, kept, opened}
use vdf.File.Frozen.{Change, Changes, Change-Tracked, Changes-locked}
use vdf.Transport.{
  VdfTransport, Hub, Transdriver, transport_open, transport_start, transport_stop, transport_close,
  set_transport_non_block, transport_process,
}
use vdf.Transport.Held.{
  runs, count_running, Held, IsDriver, taken, drive_lock-Took, drive_unlock-Gave, elem_later,
}
use vdf.Transport.Steps.{
  transport_open-Held, transport_start-Held, transport_stop-Held, transport_close-Held,
  set_transport_non_block-Held, transport_process-Held,
}

-- The application holds some locks of its own, and releases no other.
abbrev pub World : Type 0
World = Hub × ℕ

module _ (drivers : ℕ → Option Transdriver) where
  -- A call on a transport, on the lock, or on the drive. A transport is opened at a place of its own, and
  -- closed or stopped when it is one of the drive's.
  pub data Event : World → World → Type 0 where
    open_call :
        (h : Hub) (t driver : ℕ) (cback : Option ℕ) (args e : ℕ)
        → Fresh t h.transports
        → Event (h, e) ((transport_open drivers h t driver cback args).0, e)
    close_call :
        (h : Hub) (t e : ℕ)
        → elem t h.transports ≡ true
        → Event (h, e) ((transport_close drivers h t).0, e)
    start_call :
        (fuel : ℕ) (h : Hub) (t e : ℕ) → Event (h, e) ((transport_start drivers fuel h t).0, e)
    stop_call :
        (h : Hub) (t e : ℕ)
        → elem t h.transports ≡ true
        → Event (h, e) ((transport_stop drivers h t).0, e)
    non_block_call :
        (h : Hub) (t : ℕ) (on : Bool) (e : ℕ)
        → Event (h, e) ((set_transport_non_block drivers h t on).0, e)
    process_call : (h : Hub) (t e : ℕ) → Event (h, e) ((transport_process drivers h t).0, e)
    lock_call :
        (fuel : ℕ) (h : Hub) (e : ℕ)
        → Event
            (h, e)
            (record h { drv = (drive_lock fuel h.drv).0 }, e + taken (drive_lock fuel h.drv).1)
    unlock_call :
        (h : Hub) (e : ℕ)
        → Event
            (h, e + 1)
            (record h { drv = (drive_unlock h.drv).0 }, e + 1 - taken (drive_unlock h.drv).1)
    change_call :
        (h : Hub) (drv : VdfDrive) (e : ℕ)
        → Change h.drv drv
        → Event (h, e) (record h { drv = drv }, e)
    serial_call :
        (h : Hub) (serial e : ℕ)
        → Event (h, e) (record h { drv = (set_drive_serial h.drv serial).0 }, e)
    recalc_call :
        (fuel : ℕ) (h : Hub) (e : ℕ)
        → Event (h, e) (record h { drv = (drive_recalc fuel h.drv).0 }, e)

  pub data Events : World → World → Type 0 where
    no_event : (w : World) → Events w w
    then_event : (a b c : World) → Events a b → Event b c → Events a c

Tracked-lockcnt : {a b : VdfDrive} → Tracked a b → b.lockcnt ≡ a.lockcnt
Tracked-lockcnt (kept e) = ap (λ d. d.lockcnt) e
Tracked-lockcnt (opened l o) = o.0 ∙ sym l

set_drive_serial-lockcnt :
    (drv : VdfDrive) (serial : ℕ) → (set_drive_serial drv serial).0.lockcnt ≡ drv.lockcnt
unfolding set_drive_serial
set_drive_serial-lockcnt drv serial = ground arith

one_runs :
    (trans : ℕ → VdfTransport) (t : ℕ) (ts : List ℕ)
    → elem t ts ≡ true
    → runs (trans t) ≡ true
    → 1 ≤ count_running trans ts
unfolding elem
one_runs trans t [] m r = cc
one_runs trans t (u ∷ ts) m r = elim (Bool-cases (t == u)) [
  | inl here ↦
      let r' : runs (trans u) ≡ true = ap (λ v. runs (trans v)) (sym (==→eq t u here)) ∙ r in
      rw r' (omega arith)
  | inr other ↦ omega (arith, one_runs trans t ts (elem_later t u ts m other) r)
]

module _ (drivers : ℕ → Option Transdriver)
    (are : (d : ℕ) (td : Transdriver) → drivers d ≡ some td → IsDriver td) where
  Event-Held : {a b : World} → Event drivers a b → Held a.0 a.1 → Held b.0 b.1
  Event-Held (open_call h t driver cback args e fresh) inv =
      transport_open-Held drivers are h t driver cback args e fresh inv
  Event-Held (close_call h t e at) inv = transport_close-Held drivers are h t e at inv
  Event-Held (start_call fuel h t e) inv = transport_start-Held drivers are fuel h t e inv
  Event-Held (stop_call h t e at) inv = transport_stop-Held drivers are h t e at inv
  Event-Held (non_block_call h t on e) inv = set_transport_non_block-Held drivers are h t on e inv
  Event-Held (process_call h t e) inv = transport_process-Held drivers are h t e inv
  Event-Held (lock_call fuel h e) inv =
      let took = drive_lock-Took fuel h.drv in
      record { distinct = inv.distinct; held = omega (arith, inv.held, took.eq) }
  Event-Held (unlock_call h e) inv =
      let gave = drive_unlock-Gave h.drv in
      record {
        distinct = inv.distinct;
        held = omega (arith, inv.held, gave.eq, taken_le (drive_unlock h.drv).1);
      }
    where
      taken_le : (r : Result (Unit {0})) → taken r ≤ 1
      taken_le (ok u) = omega arith
      taken_le (err e) = omega arith
      taken_le fault = omega arith
  Event-Held (change_call h drv e c) inv = record {
    distinct = inv.distinct;
    held = omega (arith, inv.held, Tracked-lockcnt (Change-Tracked c));
  }
  Event-Held (serial_call h serial e) inv = record {
    distinct = inv.distinct;
    held = omega (arith, inv.held, set_drive_serial-lockcnt h.drv serial);
  }
  Event-Held (recalc_call fuel h e) inv = record {
    distinct = inv.distinct;
    held = omega (arith, inv.held, drive_recalc-lockcnt fuel h.drv);
  }

  -- Every running transport holds a lock of its drive: if no transport stands twice in the list of the
  -- drive, and the locks are at least as many as the transports that run and the locks of the
  -- application together, then so it is after any calls of transports, of the lock and of the drive, in
  -- any order and with any results of the drivers. The drivers leave the drive alone and start or stop
  -- no transport by themselves; a transport is opened at a place that no other in the list has, and
  -- closed or stopped only if it is in the list; the application releases only locks that it holds.
  pub Events-Held : {a b : World} → Events drivers a b → Held a.0 a.1 → Held b.0 b.1
  Events-Held (no_event w) inv = inv
  Events-Held (then_event a b c es e) inv = Event-Held e (Events-Held es inv)

  -- While a transport runs, nothing changes its drive: after any calls of transports, of the lock and of
  -- the drive, from a drive without transports on which the application holds no more locks than there
  -- are, as long as one of the transports of the drive runs, any sequence of the operations on the
  -- files, the label and the layout leaves the drive as it is, in all its fields and files. The drivers
  -- leave the drive alone and start or stop no transport by themselves; a transport is opened at a
  -- place that no other in the list has, and closed or stopped only if it is in the list; the
  -- application releases only locks that it holds.
  pub Events-frozen :
      (a b : World)
      → a.0.transports ≡ []
      → a.1 ≤ a.0.drv.lockcnt
      → Events drivers a b
      → (t : ℕ) → elem t b.0.transports ≡ true
      → runs (b.0.trans t) ≡ true
      → (drv : VdfDrive) → Changes b.0.drv drv
      → drv ≡ b.0.drv
  Events-frozen a b none_there held es t at run drv changes =
      let start : Held a.0 a.1 = record {
        distinct = subst (λ ts. Distinct ts) (sym none_there) tt;
        held =
            subst (λ ts. count_running a.0.trans ts + a.1 ≤ a.0.drv.lockcnt) (sym none_there)
              (omega arith);
      } in
      let inv = Events-Held es start in
      let some = one_runs b.0.trans t b.0.transports at run in
      Changes-locked changes (locked b.0.drv.lockcnt (omega (arith, inv.held)))
    where
      locked : (n : ℕ) → 1 ≤ n → n ≢ 0
      locked n h e = omega arith
