-- ===== src/Transport/Held.antt =====
-- A transport that runs holds a lock of its drive.
use vdf.Prelude.{
  ℕ, ◌+◌, ◌-◌, ◌≤◌, ◌≡◌, refl, sym, ap, ◌∙◌, Bool, Bool-cases, inl, inr, true, false, not, List, [],
  ◌∷◌, Result, ok, err, fault, einval, arith, ◌==◌, if◌then◌else◌, has, ==→eq, ne→==, ==→ne,
}
use mathlib.Core.Path.{subst}
use vdf.Drive.{VdfDrive, drive_is_valid}
use vdf.Recalc.{drive_recalc}
use vdf.Recalc.Alloc.{Fresh, Distinct}
use vdf.Recalc.Clean.{if_known, drive_recalc-lockcnt}
use vdf.DriveState.{drive_lock, drive_unlock, count_lock}
use vdf.File.Names.{elem}
use vdf.Transport.{VdfTransport, Hub, Transdriver, vtf_running, put_trans, put_flags}

abbrev pub runs : VdfTransport → Bool
runs tr = has tr.flags vtf_running

abbrev pub bit : Bool → ℕ
bit b = if b then 1 else 0

bit_le : (b : Bool) → bit b ≤ 1
bit_le true = omega arith
bit_le false = omega arith

-- The transports of the list that run.
abbrev pub count_running : (ℕ → VdfTransport) → List ℕ → ℕ
count_running trans [] = 0
count_running trans (t ∷ ts) = bit (runs (trans t)) + count_running trans ts

-- No transport stands twice in the list, and the locks are at least as many as the transports that run
-- and the `extra` that others hold.
pub record Held (h : Hub) (extra : ℕ) : Type 0 where
  pub distinct : Distinct h.transports
  pub held : count_running h.trans h.transports + extra ≤ h.drv.lockcnt

-- A function of a driver leaves the drive alone, and starts or stops no transport by itself.
pub record Keeps (h h' : Hub) : Type 0 where
  pub drv : h'.drv ≡ h.drv
  pub transports : h'.transports ≡ h.transports
  pub running : (u : ℕ) → runs (h'.trans u) ≡ runs (h.trans u)

pub record IsDriver (td : Transdriver) : Type 0 where
  pub opens : (h : Hub) (t args : ℕ) → Keeps h (td.open_with h t args).0
  pub closes : (h : Hub) (t : ℕ) → Keeps h (td.close h t)
  pub starts : (h : Hub) (t : ℕ) → Keeps h (td.start h t).0
  pub stops : (h : Hub) (t : ℕ) → Keeps h (td.stop h t).0
  pub nonblocks : (h : Hub) (t : ℕ) (on : Bool) → Keeps h (td.nonblock h t on).0
  pub processes : (h : Hub) (t : ℕ) → Keeps h (td.process h t).0

count-same :
    (a b : ℕ → VdfTransport) (ts : List ℕ)
    → ((u : ℕ) → runs (b u) ≡ runs (a u))
    → count_running b ts ≡ count_running a ts
count-same a b [] h = refl
count-same a b (t ∷ ts) h = rw (h t, count-same a b ts h) refl

pub Keeps-Held : {h h' : Hub} {extra : ℕ} → Keeps h h' → Held h extra → Held h' extra
Keeps-Held {h} {h'} {extra} k inv = record {
  distinct = rw k.transports inv.distinct;
  held = rw (k.transports, k.drv, count-same h.trans h'.trans h.transports k.running) inv.held;
}

pub Keeps-trans : {a b c : Hub} → Keeps a b → Keeps b c → Keeps a c
Keeps-trans p q = record {
  drv = q.drv ∙ p.drv;
  transports = q.transports ∙ p.transports;
  running = λ u. q.running u ∙ p.running u;
}

-- Flags written that do not touch VTF_RUNNING.
pub put-Keeps :
    (h : Hub) (t : ℕ) (tr : VdfTransport) → runs tr ≡ runs (h.trans t) → Keeps h (put_trans h t tr)
put-Keeps h t tr e = record { drv = refl; transports = refl; running = λ u. go u (t == u) refl }
  where
    go : (u : ℕ) (b : Bool) → (t == u) ≡ b → runs (if b then tr else h.trans u) ≡ runs (h.trans u)
    go u true q = e ∙ ap (λ v. runs (h.trans v)) (==→eq t u q)
    go u false q = refl

pub flags-Keeps :
    (h : Hub) (t flags : ℕ)
    → has flags vtf_running ≡ runs (h.trans t)
    → Keeps h (put_flags h t flags)
flags-Keeps h t flags e = put-Keeps h t (record (h.trans t) { flags = flags }) e

abbrev pub put_at : (ℕ → VdfTransport) → ℕ → VdfTransport → ℕ → VdfTransport
put_at trans t tr u = if t == u then tr else trans u

pub count_elsewhere :
    (trans : ℕ → VdfTransport) (t : ℕ) (tr : VdfTransport) (ts : List ℕ)
    → Fresh t ts
    → count_running (put_at trans t tr) ts ≡ count_running trans ts
count_elsewhere trans t tr [] f = refl
count_elsewhere trans t tr (u ∷ ts) f = rw (ne→== t u f.0, count_elsewhere trans t tr ts f.1) refl

-- One transport more that runs, at most.
pub count_started :
    (trans : ℕ → VdfTransport) (t : ℕ) (tr : VdfTransport) (ts : List ℕ)
    → Distinct ts
    → count_running (put_at trans t tr) ts ≤ count_running trans ts + 1
count_started trans t tr [] d = omega arith
count_started trans t tr (u ∷ ts) d = elim (Bool-cases (t == u)) [
  | inl here ↦
      let e = ==→eq t u here in
      let same = count_elsewhere trans t tr ts (subst (λ v. Fresh v ts) (sym e) d.0) in
      rw (here, same) (omega (arith, bit_le (runs tr)))
  | inr other ↦ rw other (omega (arith, count_started trans t tr ts d.1))
]

pub elem_later :
    (t u : ℕ) (ts : List ℕ) → elem t (u ∷ ts) ≡ true → (t == u) ≡ false → elem t ts ≡ true
unfolding elem
elem_later t u ts h k = rw k at h

-- One less.
pub count_stopped :
    (trans : ℕ → VdfTransport) (t : ℕ) (tr : VdfTransport) (ts : List ℕ)
    → Distinct ts
    → elem t ts ≡ true
    → runs (trans t) ≡ true
    → runs tr ≡ false
    → count_running (put_at trans t tr) ts + 1 ≡ count_running trans ts
unfolding elem
count_stopped trans t tr [] d m r s = cc
count_stopped trans t tr (u ∷ ts) d m r s = elim (Bool-cases (t == u)) [
  | inl here ↦
      let e = ==→eq t u here in
      let same = count_elsewhere trans t tr ts (subst (λ v. Fresh v ts) (sym e) d.0) in
      let r' : runs (trans u) ≡ true = ap (λ v. runs (trans v)) (sym e) ∙ r in
      rw (here, same, s, r') (omega arith)
  | inr other ↦
      rw other (omega (arith, count_stopped trans t tr ts d.1 (elem_later t u ts m other) r s))
]

-- The locks after a call of vdf_drive_lock and of vdf_drive_unlock.
abbrev pub taken : Result (Unit {0}) → ℕ
taken (ok u) = 1
taken (err e) = 0
taken fault = 0

count_lock-lockcnt :
    (r : VdfDrive × Result (Unit {0}))
    → (count_lock r).0.lockcnt ≡ r.0.lockcnt + taken (count_lock r).1
count_lock-lockcnt (drv, ok u) = refl
count_lock-lockcnt (drv, err e) = omega arith
count_lock-lockcnt (drv, fault) = omega arith

pub record Took (drv : VdfDrive) (r : VdfDrive × Result (Unit {0})) : Type 0 where
  pub eq : r.0.lockcnt ≡ drv.lockcnt + taken r.1

pub record Gave (drv : VdfDrive) (r : VdfDrive × Result (Unit {0})) : Type 0 where
  pub eq : r.0.lockcnt + taken r.1 ≡ drv.lockcnt

pub drive_lock-Took : (fuel : ℕ) (drv : VdfDrive) → Took drv (drive_lock fuel drv)
unfolding drive_lock
drive_lock-Took fuel drv =
    if_known (Took drv) (not (drive_is_valid drv)) (drv, err einval)
      (if drv.lockcnt == 0 then count_lock (drive_recalc fuel drv) else locked)
      (λ v. record { eq = omega arith })
      (λ v.
        if_known (Took drv) (drv.lockcnt == 0) (count_lock (drive_recalc fuel drv)) locked
          (λ l. record {
            eq =
                count_lock-lockcnt (drive_recalc fuel drv)
                ∙ ap (λ n. n + taken (count_lock (drive_recalc fuel drv)).1)
                    (drive_recalc-lockcnt fuel drv);
          })
          (λ l. record { eq = refl }))
  where
    locked : VdfDrive × Result (Unit {0})
    locked = (record drv { lockcnt = drv.lockcnt + 1 }, ok tt)

pub drive_unlock-Gave : (drv : VdfDrive) → Gave drv (drive_unlock drv)
unfolding drive_unlock
drive_unlock-Gave drv =
    if_known (Gave drv) (not (drive_is_valid drv)) (drv, err einval)
      (if drv.lockcnt == 0 then (drv, err einval) else released) (λ v. record { eq = omega arith })
      (λ v.
        if_known (Gave drv) (drv.lockcnt == 0) (drv, err einval) released
          (λ l. record { eq = omega arith })
          (λ l. record { eq = omega (arith, ==→ne drv.lockcnt 0 l) }))
  where
    released : VdfDrive × Result (Unit {0})
    released = (record drv { lockcnt = drv.lockcnt - 1 }, ok tt)
