-- ===== src/Transport/Leak.antt =====
-- vdf_transport_start when the driver cannot start.
use vdf.Prelude.{
  ℕ, ◌+◌, ◌≡◌, refl, sym, ap, ◌∙◌, Bool, true, false, Option, none, some, Result, ok, err, fault,
  unset, arith, has, clear_bit,
}
use mathlib.Core.Path.{subst}
use vdf.Drive.{VdfDrive}
use vdf.DriveState.{drive_lock}
use vdf.Transport.{
  Hub, Transdriver, vtf_running, vtf_error, put_trans, trans_is_valid, td_of, started, start_driver,
  with_lock, transport_start,
}
use vdf.Transport.Held.{runs, IsDriver, put-Keeps, taken, drive_lock-Took}

-- The state from which the driver starts.
abbrev pub cleared : Hub → ℕ → Hub
cleared h t =
    put_trans h t (record (h.trans t) { flags = clear_bit (h.trans t).flags vtf_error; error = 0 })

error_runs : (f : ℕ) → has (clear_bit f vtf_error) vtf_running ≡ has f vtf_running
error_runs f = ground arith

refused :
    (drivers : ℕ → Option Transdriver) (h : Hub) (t : ℕ) (td : Transdriver)
    → td_of drivers h t ≡ some td
    → (td.start (cleared h t) t).1 ≡ false
    → start_driver drivers h t ≡ ((td.start (cleared h t) t).0, err unset)
refused drivers h t td e no_start =
    ap
      (λ o. elim o as (λ o. Hub × Result (Unit {0})) [
        | none ↦ (cleared h t, fault)
        | some td ↦ started drivers t (td.start (cleared h t) t)
      ])
      e
    ∙ go (td.start (cleared h t) t) no_start
  where
    go : (r : Hub × Bool) → r.1 ≡ false → started drivers t r ≡ (r.0, err unset)
    go (h, false) e = refl
    go (h, true) e = cc

locked_first :
    (drivers : ℕ → Option Transdriver) (h : Hub) (t : ℕ) (r : VdfDrive × Result (Unit {0}))
    → r.1 ≡ ok tt
    → with_lock drivers h t r ≡ start_driver drivers (record h { drv = r.0 }) t
locked_first drivers h t (drv, ok u) e = refl
locked_first drivers h t (drv, err x) e = cc
locked_first drivers h t (drv, fault) e = cc

-- When the driver of a transport that is valid and stopped cannot start, and the drive could be
-- locked, vdf_transport_start returns -1 and keeps the lock: the drive has one lock more, the transport
-- does not run, and no other has been started.
pub transport_start-leaks :
    (drivers : ℕ → Option Transdriver) (fuel : ℕ) (h : Hub) (t : ℕ) (td : Transdriver)
    → IsDriver td
    → td_of drivers h t ≡ some td
    → trans_is_valid h (some t) ≡ true
    → runs (h.trans t) ≡ false
    → (drive_lock fuel h.drv).1 ≡ ok tt
    → ((g : Hub) → (td.start g t).1 ≡ false)
    → let r = transport_start drivers fuel h t in
      (r.1 ≡ err unset)
      × (r.0.drv.lockcnt ≡ h.drv.lockcnt + 1)
      × ((u : ℕ) → runs (r.0.trans u) ≡ runs (h.trans u))
unfolding transport_start
transport_start-leaks drivers fuel h t td is found valid idle locked no_start =
    let r = drive_lock fuel h.drv in
    let h1 : Hub = record h { drv = r.0 } in
    let before = cleared h1 t in
    let k = is.starts before t in
    let p =
      put-Keeps h1 t
        (record (h.trans t) { flags = clear_bit (h.trans t).flags vtf_error; error = 0 })
        (error_runs (h.trans t).flags) in
    let done : transport_start drivers fuel h t ≡ ((td.start before t).0, err unset) =
      rw (transport_start, valid, idle)
        (locked_first drivers h t r locked ∙ refused drivers h1 t td found (no_start before)) in
    let one : taken r.1 ≡ 1 = ap taken locked in
    subst
      (λ q.
        (q.1 ≡ err unset)
        × (q.0.drv.lockcnt ≡ h.drv.lockcnt + 1)
        × ((u : ℕ) → runs (q.0.trans u) ≡ runs (h.trans u)))
      (sym done)
      (
        refl,
        ap (λ d. d.lockcnt) k.drv
            ∙ (drive_lock-Took fuel h.drv).eq
            ∙ ap (λ n. h.drv.lockcnt + n) one,
        λ u. k.running u ∙ p.running u,
      )
