-- ===== src/Transport.antt =====
-- libvdf/transport.c and libvdf/vdf_transport.h: the transports of a drive. A `vdf_transport *` is a
-- number, the place of the transport in the store; the list head of the drive is the list of its
-- transports. The functions of a driver are a record; they act on the whole state. Allocation is taken
-- to succeed. (All drives of a program are independent; one is modelled.)
pub mod Held
pub mod Steps
pub mod Frozen
pub mod Leak
pub mod Tests
use vdf.Prelude.{
  ℕ, ◌+◌, Bool, true, false, not, List, [], ◌∷◌, ◌++◌, Option, none, some, Result, ok, err, fault,
  einval, e2big, unset, leb, ◌==◌, if◌then◌else◌, u32, has, set_bit, clear_bit, length,
}
use vdf.Drive.{VdfDrive, drive_is_valid}
use vdf.DriveState.{drive_lock, drive_unlock, remove}

abbrev pub vtf_running : ℕ
vtf_running = 0x01

abbrev pub vtf_error : ℕ
vtf_error = 0x02

abbrev pub vtf_nonblock : ℕ
vtf_nonblock = 0x04

abbrev pub vtf_active : ℕ
vtf_active = 0x08

abbrev pub vtf_deleted : ℕ
vtf_deleted = 0x10

abbrev pub tdf_nonblock : ℕ
tdf_nonblock = 0x01

abbrev pub tdf_support_fd : ℕ
tdf_support_fd = 0x02

abbrev pub vdf_driver_cnt : ℕ
vdf_driver_cnt = 6

-- struct _vdf_transport, but its driver data.
pub record VdfTransport : Type 0 where
  pub flags : ℕ
  pub driver : ℕ
  pub cback : Option ℕ
  pub error : ℕ

-- A drive with its transports.
pub record Hub : Type 0 where
  pub drv : VdfDrive
  pub trans : ℕ → VdfTransport
  pub transports : List ℕ

-- struct _vdf_transdriver. A function gives the state after it, and whether it did not return -1.
pub record Transdriver : Type 0 where
  pub name : List ℕ
  pub flags : ℕ
  pub open_with : Hub → ℕ → ℕ → Hub × Bool
  pub close : Hub → ℕ → Hub
  pub start : Hub → ℕ → Hub × Bool
  pub stop : Hub → ℕ → Hub × Bool
  pub nonblock : Hub → ℕ → Bool → Hub × Bool
  pub process : Hub → ℕ → Hub × Result ℕ
  pub fd : Hub → ℕ → Result ℕ

-- `drivers`, with the two that are compiled in.
abbrev pub drivers : Transdriver → Transdriver → ℕ → Option Transdriver
drivers server client driver =
    if driver == 1
    then some server
    else if driver == 2
    then some client
    else if driver == 3
    then some client
    else none

-- Writes through a `vdf_transport *`.
abbrev pub put_trans : Hub → ℕ → VdfTransport → Hub
put_trans h t tr = record h { trans = λ u. if t == u then tr else h.trans u }

abbrev pub put_flags : Hub → ℕ → ℕ → Hub
put_flags h t flags = put_trans h t (record (h.trans t) { flags = flags })

abbrev pub trans_is_valid : Hub → Option ℕ → Bool
trans_is_valid h none = false
trans_is_valid h (some t) = not (has (h.trans t).flags vtf_deleted)

-- The callback of a transport; 0 without one.
pub trans_cback : Hub → ℕ → (ℕ → Result ℕ) → Result ℕ
trans_cback h t call = elim (h.trans t).cback [ none ↦ ok 0 | some c ↦ call c ]

-- The next value of `next_id`, which is returned.
pub trans_get_id : ℕ → ℕ
trans_get_id next_id = u32 (next_id + 1)

pub trans_set_error : Hub → ℕ → ℕ → Hub
trans_set_error h t e =
    put_trans h t (record (h.trans t) { flags = set_bit (h.trans t).flags vtf_error; error = e })

pub trans_set_active : Hub → ℕ → Bool → Hub
trans_set_active h t active =
    let flags = (h.trans t).flags in
    put_flags h t (if active then set_bit flags vtf_active else clear_bit flags vtf_active)

-- What a driver returns, without errno.
abbrev pub int_of : Bool → Result (Unit {0})
int_of true = ok tt
int_of false = err unset

module _ (drivers : ℕ → Option Transdriver) where
  pub transport_present : ℕ → Result Bool
  transport_present driver =
      if leb vdf_driver_cnt driver
      then err unset
      else elim (drivers driver) [ none ↦ ok false | some td ↦ ok true ]

  pub transport_flags : ℕ → Result ℕ
  transport_flags driver =
      if leb vdf_driver_cnt driver
      then err unset
      else elim (drivers driver) [ none ↦ err unset | some td ↦ ok td.flags ]

  -- The length, and what is written to `name` with the 0 behind it; `len` is none for NULL.
  pub transport_name : ℕ → Option ℕ → Result (ℕ × List ℕ)
  transport_name driver len =
      if leb vdf_driver_cnt driver then err unset else elim (drivers driver) [
        | none ↦ err unset
        | some td ↦ elim len [
          | none ↦ ok (length td.name, [])
          | some n ↦
              if leb n (length td.name) then err e2big else ok (length td.name, td.name ++ (0 ∷ []))
        ]
      ]

  -- The driver of a transport. One that was opened has it; the place of a missing one is a fault.
  abbrev pub td_of : Hub → ℕ → Option Transdriver
  td_of h t = drivers (h.trans t).driver

  -- vdf_transport_open, with the number that malloc gives. `error` is not set.
  abbrev pub linked : ℕ → Hub × Bool → Hub × Result ℕ
  linked t (h, false) = (h, err unset)
  linked t (h, true) = (record h { transports = t ∷ h.transports }, ok t)

  abbrev pub fresh_trans : Hub → ℕ → ℕ → Option ℕ → Hub
  fresh_trans h t driver cback =
      put_trans h t (record (h.trans t) { flags = 0; driver = driver; cback = cback })

  pub transport_open : Hub → ℕ → ℕ → Option ℕ → ℕ → Hub × Result ℕ
  transport_open h t driver cback args =
      if leb vdf_driver_cnt driver then (h, err einval) else elim (drivers driver) [
        | none ↦ (h, err einval)
        | some td ↦
            if not (drive_is_valid h.drv)
            then (h, err einval)
            else linked t (td.open_with (fresh_trans h t driver cback) t args)
      ]

  -- vdf_transport_start, once the drive is locked, and once the driver has started.
  abbrev pub started : ℕ → Hub × Bool → Hub × Result (Unit {0})
  started t (h, false) = (h, err unset)
  started t (h, true) = (put_flags h t (set_bit (h.trans t).flags vtf_running), ok tt)

  abbrev pub start_driver : Hub → ℕ → Hub × Result (Unit {0})
  start_driver h t =
      let cleared =
        put_trans h t
          (record (h.trans t) { flags = clear_bit (h.trans t).flags vtf_error; error = 0 }) in
      elim (td_of h t) [ none ↦ (cleared, fault) | some td ↦ started t (td.start cleared t) ]

  abbrev pub with_lock : Hub → ℕ → VdfDrive × Result (Unit {0}) → Hub × Result (Unit {0})
  with_lock h t (drv, ok u) = start_driver (record h { drv = drv }) t
  with_lock h t (drv, err e) = (record h { drv = drv }, err e)
  with_lock h t (drv, fault) = (record h { drv = drv }, fault)

  -- `fuel` is for the recalculation.
  pub transport_start : ℕ → Hub → ℕ → Hub × Result (Unit {0})
  transport_start fuel h t =
      if not (trans_is_valid h (some t))
      then (h, err einval)
      else if has (h.trans t).flags vtf_running
      then (h, err einval)
      else with_lock h t (drive_lock fuel h.drv)

  -- vdf_transport_stop, once the driver has stopped.
  abbrev pub after_unlock : Hub → ℕ → VdfDrive × Result (Unit {0}) → Hub × Result (Unit {0})
  after_unlock h t (drv, err e) = (record h { drv = drv }, err e)
  after_unlock h t (drv, fault) = (record h { drv = drv }, fault)
  after_unlock h t (drv, ok u) = (
    put_flags (record h { drv = drv }) t
        (clear_bit (clear_bit (h.trans t).flags vtf_running) vtf_active),
    ok tt,
  )

  abbrev pub stopped : ℕ → Hub × Bool → Hub × Result (Unit {0})
  stopped t (h, false) = (h, err unset)
  stopped t (h, true) = after_unlock h t (drive_unlock h.drv)

  pub transport_stop : Hub → ℕ → Hub × Result (Unit {0})
  transport_stop h t =
      if not (trans_is_valid h (some t))
      then (h, err einval)
      else if not (has (h.trans t).flags vtf_running)
      then (h, err einval)
      else elim (td_of h t) [ none ↦ (h, fault) | some td ↦ stopped t (td.stop h t) ]

  -- vdf_transport_close; the result of the stop is not looked at.
  abbrev pub unlink : ℕ → Hub → Hub
  unlink t h = record (put_flags h t (set_bit (h.trans t).flags vtf_deleted)) {
    transports = remove t h.transports;
  }

  abbrev pub close_driver : Hub → ℕ → Hub × Result (Unit {0})
  close_driver h t = elim (td_of h t) [
    | none ↦ (h, fault)
    | some td ↦ (unlink t (td.close h t), ok tt)
  ]

  pub transport_close : Hub → ℕ → Hub × Result (Unit {0})
  unfolding transport_stop
  transport_close h t =
      if not (trans_is_valid h (some t))
      then (h, err einval)
      else if has (h.trans t).flags vtf_running
      then close_driver (transport_stop h t).0 t
      else close_driver h t

  pub transport_running : Hub → ℕ → Result Bool
  transport_running h t =
      if not (trans_is_valid h (some t)) then err einval else ok (has (h.trans t).flags vtf_running)

  pub transport_error : Hub → ℕ → Result ℕ
  transport_error h t = if not (trans_is_valid h (some t)) then err einval else ok (h.trans t).error

  pub transport_active : Hub → ℕ → Result Bool
  transport_active h t =
      if not (trans_is_valid h (some t)) then err einval else ok (has (h.trans t).flags vtf_active)

  abbrev pub non_blocked : ℕ → Bool → Hub × Bool → Hub × Result (Unit {0})
  non_blocked t on (h, false) = (h, err unset)
  non_blocked t on (h, true) =
      let flags = (h.trans t).flags in
      (
        put_flags h t (if on then set_bit flags vtf_nonblock else clear_bit flags vtf_nonblock),
        ok tt,
      )

  pub set_transport_non_block : Hub → ℕ → Bool → Hub × Result (Unit {0})
  set_transport_non_block h t on =
      if not (trans_is_valid h (some t)) then (h, err einval) else elim (td_of h t) [
        | none ↦ (h, fault)
        | some td ↦
            if not (has td.flags tdf_nonblock)
            then (h, err einval)
            else non_blocked t on (td.nonblock h t on)
      ]

  pub transport_process : Hub → ℕ → Hub × Result ℕ
  transport_process h t =
      if not (trans_is_valid h (some t))
      then (h, err einval)
      else if not (has (h.trans t).flags vtf_running)
      then (h, err einval)
      else if has (h.trans t).flags vtf_error
      then (h, err einval)
      else elim (td_of h t) [ none ↦ (h, fault) | some td ↦ td.process h t ]

  pub get_transport_fd : Hub → ℕ → Result ℕ
  get_transport_fd h t = if not (trans_is_valid h (some t)) then err einval else elim (td_of h t) [
    | none ↦ fault
    | some td ↦ if not (has td.flags tdf_support_fd) then err einval else td.fd h t
  ]

  -- The loops over the transports of a drive: they end at the first call that does not return 0.
  abbrev pub next_call :
      (Hub → Hub × Result (Unit {0})) → Hub × Result (Unit {0}) → Hub × Result (Unit {0})
  next_call next (h, ok u) = next h
  next_call next (h, err e) = (h, err e)
  next_call next (h, fault) = (h, fault)

  pub start_all : ℕ → List ℕ → Hub → Hub × Result (Unit {0})
  unfolding transport_start
  start_all fuel [] h = (h, ok tt)
  start_all fuel (t ∷ ts) h = next_call (start_all fuel ts) (transport_start fuel h t)

  pub drive_start : ℕ → Hub → Hub × Result (Unit {0})
  unfolding start_all
  drive_start fuel h =
      if not (drive_is_valid h.drv) then (h, err einval) else start_all fuel h.transports h

  pub stop_all : List ℕ → Hub → Hub × Result (Unit {0})
  unfolding transport_stop
  stop_all [] h = (h, ok tt)
  stop_all (t ∷ ts) h = next_call (stop_all ts) (transport_stop h t)

  pub drive_stop : Hub → Hub × Result (Unit {0})
  unfolding stop_all
  drive_stop h = if not (drive_is_valid h.drv) then (h, err einval) else stop_all h.transports h

  -- The loops of vdf_drive_active and vdf_drive_running; -1 counts as true.
  pub any_of : (ℕ → Result Bool) → List ℕ → Result Bool
  any_of test [] = ok false
  any_of test (t ∷ ts) =
      let rest = any_of test ts in
      elim (test t) [ ok false ↦ rest | ok true ↦ ok true | err e ↦ ok true | fault ↦ fault ]

  pub drive_active : Hub → Result Bool
  unfolding transport_active any_of
  drive_active h =
      if not (drive_is_valid h.drv) then err einval else any_of (transport_active h) h.transports

  pub drive_running : Hub → Result Bool
  unfolding transport_running any_of
  drive_running h =
      if not (drive_is_valid h.drv) then err einval else any_of (transport_running h) h.transports
