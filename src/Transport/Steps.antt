-- ===== src/Transport/Steps.antt =====
-- Each call of transport.c keeps the locks that the transports hold.
use vdf.Prelude.{
  ℕ, ◌+◌, ◌≤◌, ◌≡◌, refl, ◌∙◌, Bool, Bool-cases, inl, inr, true, false, not, List, [], ◌∷◌, Option,
  none, some, Result, ok, err, fault, einval, arith, ◌==◌, if◌then◌else◌, has, set_bit, clear_bit,
  leb, eq→==,
}
use vdf.Drive.{VdfDrive, drive_is_valid}
use vdf.Recalc.Alloc.{Fresh, Distinct}
use vdf.Recalc.Clean.{if_known}
use vdf.DriveState.{drive_lock, drive_unlock, remove}
use vdf.File.Names.{elem}
use vdf.Transport.{
  VdfTransport, Hub, Transdriver, vtf_running, vtf_error, vtf_active, vtf_nonblock, vtf_deleted,
  vdf_driver_cnt, tdf_nonblock, put_trans, put_flags, trans_is_valid, td_of, linked, fresh_trans,
  transport_open, started, start_driver, with_lock, transport_start, after_unlock, stopped,
  transport_stop, unlink, close_driver, transport_close, non_blocked, set_transport_non_block,
  transport_process,
}
use vdf.Transport.Held.{
  runs, count_running, Held, IsDriver, Keeps-Held, put-Keeps, flags-Keeps, count_elsewhere,
  count_started, count_stopped, Took, Gave, drive_lock-Took, drive_unlock-Gave,
}

-- The flags but VTF_RUNNING.
error_runs : (f : ℕ) → has (clear_bit f vtf_error) vtf_running ≡ has f vtf_running
error_runs f = ground arith

nonblock_runs :
    (f : ℕ) (on : Bool)
    → has (if on then set_bit f vtf_nonblock else clear_bit f vtf_nonblock) vtf_running
      ≡ has f vtf_running
nonblock_runs f true = ground arith
nonblock_runs f false = ground arith

deleted_runs : (f : ℕ) → has (set_bit f vtf_deleted) vtf_running ≡ has f vtf_running
deleted_runs f = ground arith

stopped_flags : (f : ℕ) → has (clear_bit (clear_bit f vtf_running) vtf_active) vtf_running ≡ false
stopped_flags f = ground arith

-- Fewer transports in the list.
remove-count :
    (trans : ℕ → VdfTransport) (t : ℕ) (ts : List ℕ)
    → count_running trans (remove t ts) ≤ count_running trans ts
unfolding remove
remove-count trans t [] = omega arith
remove-count trans t (u ∷ ts) = elim (Bool-cases (t == u)) [
  | inl here ↦ rw (remove, here) (omega arith)
  | inr other ↦ rw (remove, other) (omega (arith, remove-count trans t ts))
]

remove-Fresh : (u t : ℕ) (ts : List ℕ) → Fresh u ts → Fresh u (remove t ts)
unfolding remove
remove-Fresh u t [] f = tt
remove-Fresh u t (v ∷ ts) f = elim (Bool-cases (t == v)) [
  | inl here ↦ rw (remove, here) f.1
  | inr other ↦ rw (remove, other) (f.0, remove-Fresh u t ts f.1)
]

remove-Distinct : (t : ℕ) (ts : List ℕ) → Distinct ts → Distinct (remove t ts)
unfolding remove
remove-Distinct t [] d = tt
remove-Distinct t (u ∷ ts) d = elim (Bool-cases (t == u)) [
  | inl here ↦ rw (remove, here) d.1
  | inr other ↦ rw (remove, other) (remove-Fresh u t ts d.0, remove-Distinct t ts d.1)
]

-- A new count of locks.
relocked :
    (h : Hub) (drv : VdfDrive) (extra : ℕ)
    → Held h extra
    → h.drv.lockcnt ≤ drv.lockcnt
    → Held (record h { drv = drv }) extra
relocked h drv extra inv le = record { distinct = inv.distinct; held = omega (arith, inv.held) }

-- The drivers that are compiled in keep the state.
module _ (drivers : ℕ → Option Transdriver)
    (are : (d : ℕ) (td : Transdriver) → drivers d ≡ some td → IsDriver td) where
  -- A call whose driver is looked up.
  with_driver :
      {Out : Type 0} (d : ℕ) (P : Hub × Result Out → Type 0) (x : Hub × Result Out)
      (k : Transdriver → Hub × Result Out)
      → P x
      → ((td : Transdriver) → IsDriver td → P (k td))
      → P (elim (drivers d) [ none ↦ x | some td ↦ k td ])
  with_driver {Out} d P x k hx hk = go (drivers d) refl
    where
      go : (o : Option Transdriver) → drivers d ≡ o → P (elim o [ none ↦ x | some td ↦ k td ])
      go none e = hx
      go (some td) e = hk td (are d td e)

  abbrev HeldBy : {Out : Type 0} → ℕ → Hub × Result Out → Type 0
  HeldBy extra r = Held r.0 extra

  linked-Held :
      (t extra : ℕ) (r : Hub × Bool)
      → Held r.0 extra
      → Fresh t r.0.transports
      → runs (r.0.trans t) ≡ false
      → Held (linked drivers t r).0 extra
  linked-Held t extra (h, false) inv fresh idle = inv
  linked-Held t extra (h, true) inv fresh idle = record {
    distinct = (fresh, inv.distinct);
    held = rw idle (omega (arith, inv.held));
  }

  pub transport_open-Held :
      (h : Hub) (t driver : ℕ) (cback : Option ℕ) (args extra : ℕ)
      → Fresh t h.transports
      → Held h extra
      → Held (transport_open drivers h t driver cback args).0 extra
  unfolding transport_open
  transport_open-Held h t driver cback args extra fresh inv =
      if_known (HeldBy extra) (leb vdf_driver_cnt driver) (h, err einval)
        (elim (drivers driver) [ none ↦ (h, err einval) | some td ↦ opened_by td ]) (λ v. inv)
        (λ v.
          with_driver driver (HeldBy extra) (h, err einval) opened_by inv
            (λ td is.
              if_known (HeldBy extra) (not (drive_is_valid h.drv)) (h, err einval)
                (linked drivers t (td.open_with h1 t args)) (λ w. inv)
                (λ w.
                  let k = is.opens h1 t args in
                  linked-Held t extra (td.open_with h1 t args) (Keeps-Held k inv1)
                    (rw k.transports fresh) (k.running t ∙ idle))))
    where
      h1 : Hub
      h1 = fresh_trans drivers h t driver cback

      opened_by : Transdriver → Hub × Result ℕ
      opened_by td =
          if not (drive_is_valid h.drv)
          then (h, err einval)
          else linked drivers t (td.open_with h1 t args)

      inv1 : Held h1 extra
      inv1 = record {
        distinct = inv.distinct;
        held =
            rw
              (count_elsewhere h.trans t
                (record (h.trans t) { flags = 0; driver = driver; cback = cback }) h.transports
                fresh)
              inv.held;
      }

      idle : runs (h1.trans t) ≡ false
      idle = rw (eq→== t t refl) refl

  started-Held :
      (t extra : ℕ) (r : Hub × Bool) → Held r.0 (extra + 1) → Held (started drivers t r).0 extra
  started-Held t extra (h, false) inv = record {
    distinct = inv.distinct;
    held = omega (arith, inv.held);
  }
  started-Held t extra (h, true) inv = record {
    distinct = inv.distinct;
    held = omega (
      arith,
      inv.held,
      count_started h.trans t (record (h.trans t) { flags = set_bit (h.trans t).flags vtf_running })
          h.transports inv.distinct,
    );
  }

  start_driver-Held :
      (h : Hub) (t extra : ℕ) → Held h (extra + 1) → Held (start_driver drivers h t).0 extra
  start_driver-Held h t extra inv =
      with_driver (h.trans t).driver (HeldBy extra) (cleared, fault)
        (λ td. started drivers t (td.start cleared t))
        (record { distinct = inv1.distinct; held = omega (arith, inv1.held) })
        (λ td is. started-Held t extra (td.start cleared t) (Keeps-Held (is.starts cleared t) inv1))
    where
      tr : VdfTransport
      tr = record (h.trans t) { flags = clear_bit (h.trans t).flags vtf_error; error = 0 }

      cleared : Hub
      cleared = put_trans h t tr

      inv1 : Held cleared (extra + 1)
      inv1 = Keeps-Held (put-Keeps h t tr (error_runs (h.trans t).flags)) inv

  with_lock-Held :
      (h : Hub) (t extra : ℕ) (r : VdfDrive × Result (Unit {0}))
      → Took h.drv r
      → Held h extra
      → Held (with_lock drivers h t r).0 extra
  with_lock-Held h t extra (drv, ok u) took inv =
      start_driver-Held (record h { drv = drv }) t extra
        (record { distinct = inv.distinct; held = omega (arith, inv.held, took.eq) })
  with_lock-Held h t extra (drv, err e) took inv = relocked h drv extra inv (omega (arith, took.eq))
  with_lock-Held h t extra (drv, fault) took inv = relocked h drv extra inv (omega (arith, took.eq))

  pub transport_start-Held :
      (fuel : ℕ) (h : Hub) (t extra : ℕ)
      → Held h extra
      → Held (transport_start drivers fuel h t).0 extra
  unfolding transport_start
  transport_start-Held fuel h t extra inv =
      if_known (HeldBy extra) (not (trans_is_valid h (some t))) (h, err einval)
        (if has (h.trans t).flags vtf_running then (h, err einval) else run) (λ v. inv)
        (λ v.
          if_known (HeldBy extra) (has (h.trans t).flags vtf_running) (h, err einval) run (λ w. inv)
            (λ w.
              with_lock-Held h t extra (drive_lock fuel h.drv) (drive_lock-Took fuel h.drv) inv))
    where
      run : Hub × Result (Unit {0})
      run = with_lock drivers h t (drive_lock fuel h.drv)

  after_unlock-Held :
      (h : Hub) (t extra : ℕ) (r : VdfDrive × Result (Unit {0}))
      → Gave h.drv r
      → elem t h.transports ≡ true
      → runs (h.trans t) ≡ true
      → Held h extra
      → Held (after_unlock drivers h t r).0 extra
  after_unlock-Held h t extra (drv, err e) gave at run inv =
      relocked h drv extra inv (omega (arith, gave.eq))
  after_unlock-Held h t extra (drv, fault) gave at run inv =
      relocked h drv extra inv (omega (arith, gave.eq))
  after_unlock-Held h t extra (drv, ok u) gave at run inv = record {
    distinct = inv.distinct;
    held = omega (
      arith,
      inv.held,
      gave.eq,
      count_stopped h.trans t
          (record (h.trans t) {
            flags = clear_bit (clear_bit (h.trans t).flags vtf_running) vtf_active;
          })
          h.transports inv.distinct at run (stopped_flags (h.trans t).flags),
    );
  }

  stopped-Held :
      (t extra : ℕ) (r : Hub × Bool)
      → elem t r.0.transports ≡ true
      → runs (r.0.trans t) ≡ true
      → Held r.0 extra
      → Held (stopped drivers t r).0 extra
  stopped-Held t extra (h, false) at run inv = inv
  stopped-Held t extra (h, true) at run inv =
      after_unlock-Held h t extra (drive_unlock h.drv) (drive_unlock-Gave h.drv) at run inv

  pub transport_stop-Held :
      (h : Hub) (t extra : ℕ)
      → elem t h.transports ≡ true
      → Held h extra
      → Held (transport_stop drivers h t).0 extra
  unfolding transport_stop
  transport_stop-Held h t extra at inv =
      if_known (HeldBy extra) (not (trans_is_valid h (some t))) (h, err einval)
        (if not (has (h.trans t).flags vtf_running) then (h, err einval) else end_it) (λ v. inv)
        (λ v.
          if_known (HeldBy extra) (not (has (h.trans t).flags vtf_running)) (h, err einval) end_it
            (λ w. inv)
            (λ w.
              with_driver (h.trans t).driver (HeldBy extra) (h, fault)
                (λ td. stopped drivers t (td.stop h t)) inv
                (λ td is.
                  let k = is.stops h t in
                  stopped-Held t extra (td.stop h t) (rw k.transports at)
                    (k.running t ∙ runs_if (has (h.trans t).flags vtf_running) w)
                    (Keeps-Held k inv))))
    where
      end_it : Hub × Result (Unit {0})
      end_it = elim (td_of drivers h t) [
        | none ↦ (h, fault)
        | some td ↦ stopped drivers t (td.stop h t)
      ]

      runs_if : (b : Bool) → not b ≡ false → b ≡ true
      runs_if true e = refl
      runs_if false e = cc

  unlink-Held : (t : ℕ) (h : Hub) (extra : ℕ) → Held h extra → Held (unlink drivers t h) extra
  unlink-Held t h extra inv =
      let flagged = put_flags h t (set_bit (h.trans t).flags vtf_deleted) in
      let inv1 =
        Keeps-Held
          (flags-Keeps h t (set_bit (h.trans t).flags vtf_deleted) (deleted_runs (h.trans t).flags))
          inv in
      record {
        distinct = remove-Distinct t h.transports inv.distinct;
        held = omega (arith, inv1.held, remove-count flagged.trans t h.transports);
      }

  close_driver-Held :
      (h : Hub) (t extra : ℕ) → Held h extra → Held (close_driver drivers h t).0 extra
  close_driver-Held h t extra inv =
      with_driver (h.trans t).driver (HeldBy extra) (h, fault)
        (λ td. (unlink drivers t (td.close h t), ok tt)) inv
        (λ td is. unlink-Held t (td.close h t) extra (Keeps-Held (is.closes h t) inv))

  pub transport_close-Held :
      (h : Hub) (t extra : ℕ)
      → elem t h.transports ≡ true
      → Held h extra
      → Held (transport_close drivers h t).0 extra
  unfolding transport_close
  transport_close-Held h t extra at inv =
      if_known (HeldBy extra) (not (trans_is_valid h (some t))) (h, err einval)
        (if has (h.trans t).flags vtf_running
          then close_driver drivers (transport_stop drivers h t).0 t
          else close_driver drivers h t)
        (λ v. inv)
        (λ v.
          if_known (HeldBy extra) (has (h.trans t).flags vtf_running)
            (close_driver drivers (transport_stop drivers h t).0 t) (close_driver drivers h t)
            (λ w.
              close_driver-Held (transport_stop drivers h t).0 t extra
                (transport_stop-Held h t extra at inv))
            (λ w. close_driver-Held h t extra inv))

  non_blocked-Held :
      (t : ℕ) (on : Bool) (extra : ℕ) (r : Hub × Bool)
      → Held r.0 extra
      → Held (non_blocked drivers t on r).0 extra
  non_blocked-Held t on extra (h, false) inv = inv
  non_blocked-Held t on extra (h, true) inv =
      Keeps-Held (flags-Keeps h t _ (nonblock_runs (h.trans t).flags on)) inv

  pub set_transport_non_block-Held :
      (h : Hub) (t : ℕ) (on : Bool) (extra : ℕ)
      → Held h extra
      → Held (set_transport_non_block drivers h t on).0 extra
  unfolding set_transport_non_block
  set_transport_non_block-Held h t on extra inv =
      if_known (HeldBy extra) (not (trans_is_valid h (some t))) (h, err einval) looked_up (λ v. inv)
        (λ v.
          with_driver (h.trans t).driver (HeldBy extra) (h, fault) by_driver inv
            (λ td is.
              if_known (HeldBy extra) (not (has td.flags tdf_nonblock)) (h, err einval)
                (non_blocked drivers t on (td.nonblock h t on)) (λ w. inv)
                (λ w.
                  non_blocked-Held t on extra (td.nonblock h t on)
                    (Keeps-Held (is.nonblocks h t on) inv))))
    where
      by_driver : Transdriver → Hub × Result (Unit {0})
      by_driver td =
          if not (has td.flags tdf_nonblock)
          then (h, err einval)
          else non_blocked drivers t on (td.nonblock h t on)

      looked_up : Hub × Result (Unit {0})
      looked_up = elim (td_of drivers h t) [ none ↦ (h, fault) | some td ↦ by_driver td ]

  pub transport_process-Held :
      (h : Hub) (t extra : ℕ) → Held h extra → Held (transport_process drivers h t).0 extra
  unfolding transport_process
  transport_process-Held h t extra inv =
      if_known (HeldBy extra) (not (trans_is_valid h (some t))) (h, err einval)
        (if not (has (h.trans t).flags vtf_running) then (h, err einval) else fine) (λ v. inv)
        (λ v.
          if_known (HeldBy extra) (not (has (h.trans t).flags vtf_running)) (h, err einval) fine
            (λ w. inv)
            (λ w.
              if_known (HeldBy extra) (has (h.trans t).flags vtf_error) (h, err einval) by_driver
                (λ x. inv)
                (λ x.
                  with_driver (h.trans t).driver (HeldBy extra) (h, fault) (λ td. td.process h t)
                    inv (λ td is. Keeps-Held (is.processes h t) inv))))
    where
      by_driver : Hub × Result ℕ
      by_driver = elim (td_of drivers h t) [ none ↦ (h, fault) | some td ↦ td.process h t ]

      fine : Hub × Result ℕ
      fine = if has (h.trans t).flags vtf_error then (h, err einval) else by_driver
