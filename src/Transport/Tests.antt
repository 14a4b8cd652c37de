-- ===== src/Transport/Tests.antt =====
-- A transport of the sample drive, opened and started.
use vdf.Prelude.{
  ℕ, ◌+◌, ◌≡◌, refl, Bool, true, false, [], ◌∷◌, Option, none, some, ok, err, unset, arith,
}
use mathlib.Core.Path.{subst}
use vdf.DriveState.{drive_lock}
use vdf.Samples.{unplaced}
use vdf.File.Names.{elem}
use vdf.File.Frozen.{no_change, then_change, set_date}
use vdf.File.Entries.{set_file_date}
use vdf.Transport.{Hub, Transdriver, transport_open, transport_start}
use vdf.Transport.Held.{runs, Held, IsDriver}
use vdf.Transport.Frozen.{
  Events, open_call, start_call, no_event, then_event, Events-Held, Events-frozen,
}
use vdf.Transport.Leak.{transport_start-leaks}

-- A driver that does nothing, and succeeds or not.
abbrev simple : Bool → Transdriver
simple good = record {
  name = 78 ∷ [];
  flags = 1;
  open_with = λ h t args. (h, true);
  close = λ h t. h;
  start = λ h t. (h, good);
  stop = λ h t. (h, true);
  nonblock = λ h t on. (h, true);
  process = λ h t. (h, ok 0);
  fd = λ h t. err unset;
}

simple-IsDriver : (good : Bool) → IsDriver (simple good)
simple-IsDriver good = record {
  opens = λ h t args. record { drv = refl; transports = refl; running = λ u. refl };
  closes = λ h t. record { drv = refl; transports = refl; running = λ u. refl };
  starts = λ h t. record { drv = refl; transports = refl; running = λ u. refl };
  stops = λ h t. record { drv = refl; transports = refl; running = λ u. refl };
  nonblocks = λ h t on. record { drv = refl; transports = refl; running = λ u. refl };
  processes = λ h t. record { drv = refl; transports = refl; running = λ u. refl };
}

table : ℕ → Option Transdriver
table = λ d. some (simple true)

table-IsDriver : (d : ℕ) (td : Transdriver) → table d ≡ some td → IsDriver td
unfolding table
table-IsDriver d td e = subst IsDriver (some_inj e) (simple-IsDriver true)
  where
    some_inj : some (simple true) ≡ some td → simple true ≡ td
    some_inj h = cc

-- The application holds a lock.
abbrev empty_hub : Hub
empty_hub = record {
  drv = record unplaced { lockcnt = 1 };
  trans = λ t. record { flags = 0x1f; driver = 0; cback = none; error = 9 };
  transports = [];
}

abbrev open_hub : Hub
open_hub = (transport_open table empty_hub 7 1 none 10809).0

abbrev run_hub : Hub
run_hub = (transport_start table 0 open_hub 7).0

running-Events : Events table (empty_hub, 1) (run_hub, 1)
running-Events =
    then_event (empty_hub, 1) (open_hub, 1) (run_hub, 1)
      (then_event (empty_hub, 1) (empty_hub, 1) (open_hub, 1) (no_event (empty_hub, 1))
        (open_call empty_hub 7 1 none 10809 1 tt))
      (start_call 0 open_hub 7 1)

run_hub-listed : elem 7 run_hub.transports ≡ true
unfolding transport_open transport_start drive_lock elem table
run_hub-listed = refl

run_hub-runs : runs (run_hub.trans 7) ≡ true
unfolding transport_open transport_start drive_lock table
run_hub-runs = refl

Events-Held_example : Held run_hub 1
Events-Held_example =
    Events-Held table table-IsDriver running-Events (record { distinct = tt; held = omega arith })

Events-frozen_example : (set_file_date run_hub.drv 1 5).0 ≡ run_hub.drv
Events-frozen_example =
    Events-frozen table table-IsDriver (empty_hub, 1) (run_hub, 1) refl (omega arith) running-Events
      7 run_hub-listed run_hub-runs (set_file_date run_hub.drv 1 5).0
      (then_change run_hub.drv run_hub.drv (set_file_date run_hub.drv 1 5).0 (no_change run_hub.drv)
        (set_date run_hub.drv 1 5))

-- A driver that cannot start.
broken : ℕ → Option Transdriver
broken = λ d. some (simple false)

abbrev idle_hub : Hub
idle_hub = record empty_hub {
  trans = λ t. record { flags = 0; driver = 1; cback = none; error = 0 };
  transports = 7 ∷ [];
}

lock_again : (drive_lock 0 idle_hub.drv).1 ≡ ok tt
unfolding drive_lock
lock_again = refl

broken_there : broken 1 ≡ some (simple false)
unfolding broken
broken_there = refl

transport_start-leaks_example :
    let r = transport_start broken 0 idle_hub 7 in
    (r.1 ≡ err unset)
    × (r.0.drv.lockcnt ≡ 1 + 1)
    × ((u : ℕ) → runs (r.0.trans u) ≡ runs (idle_hub.trans u))
transport_start-leaks_example =
    transport_start-leaks broken 0 idle_hub 7 (simple false) (simple-IsDriver false) broken_there
      refl refl lock_again (λ g. refl)
