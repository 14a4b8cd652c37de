-- ===== src/Dir/Long.antt =====
-- The entries of a long name, as the loop of fill_dirent of libvdf/read_dir.c writes them.
use vdf.Prelude.{
  ℕ, zero, suc, ◌+◌, ◌-◌, ◌*◌, ◌≤◌, ◌<◌, ◌≡◌, refl, sym, ap, ◌∙◌, min, true, false, Bool-cases, inl,
  inr, List, [], ◌++◌, append_assoc, ok, arith, ltb, ◌==◌, length, length-drop, take, drop,
  drop-drop, take-append, drop-append, map_ok, le→ltb, le→leb, leb, eq→==, ne→==,
}
use vdf.Drive.{VdfFile}
use vdf.Boot.{put}
use vdf.Read.Bytes.Slices.{slice, slice_add}
use vdf.Dir.{vfat_entry, long_loop}
use vdf.Dir.Entry.{length-vfat_entry}

-- The entries of a long name from the number `n` down, one behind the other.
abbrev pub long_bytes : VdfFile → ℕ → ℕ → List ℕ
long_bytes f chk zero = []
long_bytes f chk (suc n) = vfat_entry f chk (suc n) ++ long_bytes f chk n

put_entry :
    (f : VdfFile) (chk seq : ℕ) (buf : List ℕ)
    → 32 ≤ length buf
    → put (0, vfat_entry f chk seq) buf ≡ ok (vfat_entry f chk seq ++ drop 32 buf)
put_entry f chk seq buf h =
    let room : leb (0 + length (vfat_entry f chk seq)) (length buf) ≡ true =
      le→leb _ _ (omega (arith, length-vfat_entry f chk seq)) in
    let len : 0 + length (vfat_entry f chk seq) ≡ 32 = omega (arith, length-vfat_entry f chk seq) in
    rw (room, len)

-- Entries that are passed over.
skip_bytes :
    (f : VdfFile) (chk n d d' w : ℕ)
    → d ≡ d' + 32
    → slice (long_bytes f chk (suc n)) d w ≡ slice (long_bytes f chk n) d' w
skip_bytes f chk n d d' w h =
    let entry = vfat_entry f chk (suc n) in
    ap (take w) (
      sym (drop-drop 32 d' d (entry ++ long_bytes f chk n) (omega arith))
      ∙ ap (drop d')
          (drop-append entry (long_bytes f chk n) 32 (sym (length-vfat_entry f chk (suc n)))))

-- The first entry, and those behind it.
first_bytes :
    (f : VdfFile) (chk n w w' : ℕ)
    → w ≡ w' + 32
    → slice (long_bytes f chk (suc n)) 0 w
      ≡ vfat_entry f chk (suc n) ++ slice (long_bytes f chk n) 0 w'
first_bytes f chk n w w' h =
    let entry = vfat_entry f chk (suc n) in
    let len : 32 ≡ length entry = sym (length-vfat_entry f chk (suc n)) in
    slice_add (entry ++ long_bytes f chk n) 0 32 w' w 32 (omega arith) refl
    ∙ ap (λ r. r ++ take w' (drop 32 (entry ++ long_bytes f chk n)))
        (take-append entry (long_bytes f chk n) 32 len)
    ∙ ap (λ r. entry ++ take w' r) (drop-append entry (long_bytes f chk n) 32 len)

-- What is in the buffer after an entry and `m'` more.
round_bytes :
    (f : VdfFile) (chk n d m m' : ℕ) (buf : List ℕ)
    → m ≡ m' + 1
    → d ≡ 0
    → slice (long_bytes f chk (suc n)) (32 * d) (32 * m) ++ drop (32 * m) buf
      ≡ vfat_entry f chk (suc n)
        ++ (slice (long_bytes f chk n) (32 * d) (32 * m') ++ drop (32 * m') (drop 32 buf))
round_bytes f chk n d m m' buf h none_left =
    let entry = vfat_entry f chk (suc n) in
    let at : 32 * d ≡ 0 = omega arith in
    ap (λ k. slice (long_bytes f chk (suc n)) k (32 * m) ++ drop (32 * m) buf) at
    ∙ ap (λ r. r ++ drop (32 * m) buf) (first_bytes f chk n (32 * m) (32 * m') (omega arith))
    ∙ append_assoc entry (slice (long_bytes f chk n) 0 (32 * m')) (drop (32 * m) buf)
    ∙ ap (λ r. entry ++ (slice (long_bytes f chk n) 0 (32 * m') ++ r))
        (sym (drop-drop 32 (32 * m') (32 * m) buf (omega arith)))
    ∙ ap (λ k. entry ++ (slice (long_bytes f chk n) k (32 * m') ++ drop (32 * m') (drop 32 buf)))
        (sym at)

-- What the loop does: `m` is the number of entries that it writes.
pub long_loop-long_bytes :
    (f : VdfFile) (chk entnum maxcnt n e cnt m : ℕ) (buf : List ℕ)
    → (n - 1) * 13 ≤ length f.name
    → cnt < maxcnt
    → m ≡ min (maxcnt - cnt) (n - (entnum - e))
    → 32 * m ≤ length buf
    → long_loop f chk entnum maxcnt n e cnt buf
      ≡ ok (
        m == (maxcnt - cnt),
        cnt + m,
        slice (long_bytes f chk n) (32 * (entnum - e)) (32 * m) ++ drop (32 * m) buf,
      )
unfolding long_loop
long_loop-long_bytes f chk entnum maxcnt zero e cnt m buf name some_left h room =
    let z : m ≡ 0 = omega arith in
    let same : cnt + 0 ≡ cnt = omega arith in rw (z, ne→== 0 (maxcnt - cnt) (omega arith), same)
long_loop-long_bytes f chk entnum maxcnt (suc n) e cnt m buf name some_left h room =
    elim (Bool-cases (ltb e entnum)) [
      | inl before ↦
          let le : e < entnum = ground arith in
          rw (long_loop, before)
            (long_loop-long_bytes f chk entnum maxcnt n (e + 1) cnt m buf (omega arith) some_left
                (omega arith) room
              ∙ ap (λ r. ok (m == (maxcnt - cnt), cnt + m, r ++ drop (32 * m) buf))
                  (sym (
                    skip_bytes f chk n (32 * (entnum - e)) (32 * (entnum - (e + 1))) (32 * m)
                      (omega arith))))
      | inr from ↦
          let le : entnum ≤ e = ground arith in
          let inside : ltb (length f.name) (n * 13) ≡ false = le→ltb _ _ (omega arith) in
          let bytes = round_bytes f chk n (entnum - e) m (m - 1) buf (omega arith) (omega arith) in
          elim (Bool-cases (cnt + 1 == maxcnt)) [
            | inl full ↦
                let fin : (m == (maxcnt - cnt)) ≡ true = eq→== m (maxcnt - cnt) (ground arith) in
                let sum : cnt + m ≡ cnt + 1 = ground arith in
                let none_more : m - 1 ≡ 0 = ground arith in
                rw (long_loop, from, inside, put_entry f chk (suc n) buf (omega arith), full)
                  (sym (
                    ap (λ t. ok (m == (maxcnt - cnt), cnt + m, t)) bytes
                    ∙ rw (fin, sum, none_more) refl))
            | inr more ↦
                let entry = vfat_entry f chk (suc n) in
                let len : 32 ≡ length entry = sym (length-vfat_entry f chk (suc n)) in
                let left : cnt + 1 < maxcnt = ground arith in
                let flag : (m - 1 == (maxcnt - (cnt + 1))) ≡ (m == (maxcnt - cnt)) = ground arith in
                let sum : cnt + 1 + (m - 1) ≡ cnt + m = omega arith in
                let at : entnum - (e + 1) ≡ entnum - e = omega arith in
                let rest =
                  long_loop-long_bytes f chk entnum maxcnt n (e + 1) (cnt + 1) (m - 1) (drop 32 buf)
                    (omega arith) left (omega arith) (omega (arith, length-drop 32 buf)) in
                let next = long_loop f chk entnum maxcnt n (e + 1) (cnt + 1) in
                rw (long_loop, from, inside, put_entry f chk (suc n) buf (omega arith), more)
                  (ap
                      (λ b.
                        map_ok (λ r. (r.0, r.1, take 32 (entry ++ drop 32 buf) ++ r.2)) (next b))
                      (drop-append entry (drop 32 buf) 32 len)
                    ∙ ap (λ t. map_ok (λ r. (r.0, r.1, t ++ r.2)) (next (drop 32 buf)))
                        (take-append entry (drop 32 buf) 32 len)
                    ∙ ap (map_ok (λ r. (r.0, r.1, entry ++ r.2))) rest
                    ∙ rw (flag, sum, at)
                        (ap (λ t. ok (m == (maxcnt - cnt), cnt + m, t)) (sym bytes)))
          ]
    ]
