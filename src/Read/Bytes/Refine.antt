-- ===== src/Read/Bytes/Refine.antt =====
-- vdf_read_bytes of libvdf/read.c: it gives a slice of the bytes of the drive.
use vdf.Prelude.{
  ℕ, zero, suc, ◌+◌, ◌-◌, ◌*◌, ◌/◌, ◌%◌, ◌≤◌, ◌<◌, ◌^◌, ◌≡◌, refl, sym, ap, ◌∙◌, min, inl, inr,
  Bool-cases, false, List, [], ◌++◌, append-nil, append_assoc, Result, ok, map_ok, arith, ltb, leb,
  ◌==◌, u32, length, length-append, length-drop, take, drop, drop-drop, take-append, drop-append,
  drop_all, leb→le, leb→lt, le→leb, ltb→lt, ltb→le, lt→ltb, le→ltb, ne→==, ==→eq, ==→ne,
}
use Prim.Native.Nat.{bit_and}
use native.Mathlib.Nat.{div-add-mod', mod-lt}
use vdf.Read.Bytes.{
  size_of_int, is_minus_one, memcpy, read_last, whole_bytes, read_whole, first_bytes, read_from,
}
use vdf.Read.Bytes.Slices.{slice, length-slice, slice_add, slice-slice, take-slice}

memcpy_lem :
    (n : ℕ) (src buff : List ℕ)
    → n ≤ length src
    → n ≤ length buff
    → memcpy n src buff ≡ ok (take n src ++ drop n buff)
memcpy_lem n src buff h k = rw (memcpy, le→leb n (length src) h, le→leb n (length buff) k)

mul_sub : (a b c bps : ℕ) → c ≡ a + b → c * bps ≡ a * bps + b * bps
mul_sub a b c bps e = rw e (omega arith)

mul_le : (a b bps : ℕ) → a ≤ b → a * bps ≤ b * bps
mul_le a b bps h = grind arith

size_of_int_lem : (r : ℕ) → r < 2 ^ 31 → size_of_int r ≡ r
size_of_int_lem r h = rw (lt→ltb r (2 ^ 31) h)

none_negative : (r : ℕ) → r < 2 ^ 31 → is_minus_one r ≡ false
none_negative r h = ne→== r (2 ^ 64 - 1) (omega arith)

le_mul : (n bps : ℕ) → 1 ≤ bps → n ≤ n * bps
le_mul n bps h = grind arith

drive_le : (q total bps x : ℕ) → 1 ≤ bps → q * bps + x ≤ total * bps → q ≤ total
drive_le q total bps x h k = grind arith

drive_lt : (q total bps x : ℕ) → 1 ≤ x → q * bps + x ≤ total * bps → q < total
drive_lt q total bps x h k = grind arith

-- `disk` has the bytes of the `total` sectors of the drive, and `read` gives as many sectors as are
-- asked for, or as there are.
module _ (bps total : ℕ) (disk : List ℕ) where
  abbrev pub Reads : (ℕ → ℕ → List ℕ → Result (ℕ × List ℕ)) → Type 0
  Reads read =
      (s c m : ℕ) (buf : List ℕ)
      → s ≤ total
      → c < 2 ^ 31
      → c * bps < 2 ^ 31
      → c * bps ≤ length buf
      → m ≡ min c (total - s)
      → read s c buf ≡ ok (m, slice disk (s * bps) (m * bps) ++ drop (m * bps) buf)

module _ (bps total : ℕ) (disk : List ℕ) (read : ℕ → ℕ → List ℕ → Result (ℕ × List ℕ))
    (sbuff : List ℕ) (reads : Reads bps total disk read) (bps_ge : 1 ≤ bps) (top : total < 2 ^ 32)
    (whole : length disk ≡ total * bps) (stack : length sbuff ≡ bps) (bps_top : bps < 2 ^ 31) where
  one_sector :
      (s : ℕ) → s < total → read s 1 sbuff ≡ ok (1, slice disk (s * bps) bps ++ drop bps sbuff)
  one_sector s h =
      let one : 1 * bps ≡ bps = omega arith in
      rw one at
        (reads s 1 1 sbuff (omega arith) (omega arith) (omega arith) (omega arith) (omega arith))

  -- A sector of the drive ends inside of it.
  inside : (s : ℕ) → s < total → s * bps + bps ≤ length disk
  inside s h = omega (arith, mul_le (s + 1) total bps (omega arith), mul_sub s 1 (s + 1) bps refl)

  last-slice :
      (s rcnt cnt m : ℕ) (buff : List ℕ)
      → s ≤ total
      → cnt < bps
      → cnt ≤ length buff
      → m ≡ min cnt (total * bps - s * bps)
      → read_last bps read sbuff s rcnt cnt buff
        ≡ ok (rcnt + m, slice disk (s * bps) m ++ drop m buff)
  unfolding read_last
  last-slice s rcnt zero m buff le small room e =
      let e' : m ≡ 0 = omega arith in let z : rcnt + 0 ≡ rcnt = omega arith in rw (e', z)
  last-slice s rcnt (suc c) m buff le small room e = elim (Bool-cases (ltb s total)) [
    | inl before ↦
        let lt = ltb→lt s total before in
        let end = inside s lt in
        let e' : m ≡ suc c = omega arith in
        let len = length-append (slice disk (s * bps) bps) (drop bps sbuff) in
        let copied =
          memcpy_lem (suc c) (slice disk (s * bps) bps ++ drop bps sbuff) buff
            (omega (arith, length-slice disk (s * bps) bps end, len)) room in
        rw (
          read_last,
          ne→== (suc c) 0 (omega arith),
          one_sector s lt,
          copied,
          take-slice disk (drop bps sbuff) (s * bps) bps (suc c) (omega arith) end,
          e',
        )
    | inr behind ↦
        let same : s ≡ total = omega (arith, ltb→le s total behind) in
        let z : total * bps - s * bps ≡ 0 = rw same (omega arith) in
        let e' : m ≡ 0 = omega arith in
        let z' : rcnt + 0 ≡ rcnt = omega arith in
        let got = reads s 1 0 sbuff le (omega arith) (omega arith) (omega arith) (omega arith) in
        rw (read_last, ne→== (suc c) 0 (omega arith), got, e', z')
  ]

  -- Bytes in front of the rest of a read.
  prefix :
      (a a' w n k r : ℕ) (buff : List ℕ) (call : List ℕ → Result (ℕ × List ℕ))
      → a + w ≤ length disk
      → a' ≡ a + w
      → k ≡ w + n
      → call (drop w buff) ≡ ok (r, slice disk a' n ++ drop n (drop w buff))
      → map_ok {Out = ℕ × List ℕ}
          (λ res. (res.0, take w (slice disk a w ++ drop w buff) ++ res.1))
          (call (drop w (slice disk a w ++ drop w buff)))
        ≡ ok (r, slice disk a k ++ drop k buff)
  prefix a a' w n k r buff call end next e h =
      let len = length-slice disk a w end in
      rw
        (
          drop-append (slice disk a w) (drop w buff) w (sym len),
          take-append (slice disk a w) (drop w buff) w (sym len),
          h,
          drop-drop w n k buff e,
          slice_add disk a w n k a' e next,
        )
        (ap (λ t. ok (r, t)) (sym (append_assoc (slice disk a w) (slice disk a' n) (drop k buff))))

  fewer :
      (s rcnt cnt m want : ℕ) (buff : List ℕ)
      → s ≤ total
      → want * bps ≤ cnt
      → total - s < want
      → want < 2 ^ 31
      → m ≡ min cnt (total * bps - s * bps)
      → whole_bytes bps read sbuff want s rcnt cnt
          (total - s, slice disk (s * bps) ((total - s) * bps) ++ drop ((total - s) * bps) buff)
        ≡ ok (rcnt + m, slice disk (s * bps) m ++ drop m buff)
  fewer s rcnt cnt m want buff le fit less few e =
      let m' : m ≡ (total - s) * bps = omega (
        arith,
        mul_sub s (total - s) total bps (omega arith),
        mul_le (total - s) want bps (omega arith),
      ) in
      rw
        (
          whole_bytes,
          size_of_int_lem (total - s) (omega arith),
          none_negative (total - s) (omega arith),
          size_of_int_lem (total - s) (omega arith),
          lt→ltb (total - s) want less,
          size_of_int_lem (total - s) (omega arith),
          m',
        )
        refl

  enough :
      (s rcnt cnt m want : ℕ) (buff : List ℕ)
      → s + want ≤ total
      → want < 2 ^ 31
      → want * bps ≤ cnt
      → cnt < want * bps + bps
      → cnt ≤ length buff
      → m ≡ min cnt (total * bps - s * bps)
      → whole_bytes bps read sbuff want s rcnt cnt
          (want, slice disk (s * bps) (want * bps) ++ drop (want * bps) buff)
        ≡ ok (rcnt + m, slice disk (s * bps) m ++ drop m buff)
  enough s rcnt cnt m want buff fit few le lt room e =
      let w = want * bps in
      let a' = mul_sub s want (s + want) bps refl in
      let t = mul_le (s + want) total bps fit in
      let n = min (cnt - w) (total * bps - (s + want) * bps) in
      let next : u32 (s + want) ≡ s + want = omega arith in
      let sum : rcnt + w + n ≡ rcnt + m = omega arith in
      rw
        (
          whole_bytes,
          size_of_int_lem want few,
          none_negative want few,
          size_of_int_lem want few,
          le→ltb want want (omega arith),
          next,
        )
        (prefix (s * bps) ((s + want) * bps) w n m (rcnt + m) buff
          (read_last bps read sbuff (s + want) (rcnt + w) (cnt - w)) (omega arith) a' (omega arith)
          (last-slice (s + want) (rcnt + w) (cnt - w) n (drop w buff) fit (omega arith)
              (omega (arith, length-drop w buff)) refl
            ∙ ap (λ r. ok (r, slice disk ((s + want) * bps) n ++ drop n (drop w buff))) sum))

  whole-slice :
      (s rcnt cnt m : ℕ) (buff : List ℕ)
      → s ≤ total
      → cnt < 2 ^ 31
      → cnt ≤ length buff
      → m ≡ min cnt (total * bps - s * bps)
      → read_whole bps read sbuff s rcnt cnt buff
        ≡ ok (rcnt + m, slice disk (s * bps) m ++ drop m buff)
  unfolding read_whole
  whole-slice s rcnt cnt m buff le small room e =
      let want = cnt / bps in
      let d = div-add-mod' cnt bps in
      let r : cnt % bps < bps = mod-lt cnt bps_ge in
      let few : want < 2 ^ 31 = omega (arith, le_mul want bps bps_ge) in
      let w : u32 want ≡ want = omega arith in
      elim (Bool-cases (want == 0)) [
        | inl none_whole ↦
            let z : want * bps ≡ 0 = rw (==→eq want 0 none_whole) (omega arith) in
            rw (read_whole, none_whole) (last-slice s rcnt cnt m buff le (omega arith) room e)
        | inr several ↦ elim (Bool-cases (ltb (total - s) want)) [
          | inl less ↦
              let lt = ltb→lt (total - s) want less in
              let got =
                reads s want (total - s) buff le few (omega arith) (omega arith) (omega arith) in
              rw (read_whole, several, w, got)
                (fewer s rcnt cnt m want buff le (omega arith) lt few e)
          | inr all ↦
              let fit = ltb→le (total - s) want all in
              let got = reads s want want buff le few (omega arith) (omega arith) (omega arith) in
              rw (read_whole, several, w, got)
                (enough s rcnt cnt m want buff (omega arith) few (omega arith) (omega arith) room e)
        ]
      ]

  -- The call behind the first bytes.
  rest-slice :
      (q doff off cnt w n m : ℕ) (buff : List ℕ)
      → q < total
      → doff < bps
      → off ≡ q * bps + doff
      → cnt < 2 ^ 31
      → cnt ≤ length buff
      → w ≡ min (bps - doff) cnt
      → m ≡ min cnt (total * bps - off)
      → n ≡ m - w
      → read_whole bps read sbuff (q + 1) w (cnt - w) (drop w buff)
        ≡ ok (m, slice disk (off + w) n ++ drop n (drop w buff))
  rest-slice q doff off cnt w n m buff lt d at small room e f g =
      let end = inside q lt in
      let next = mul_sub q 1 (q + 1) bps refl in
      let less : cnt - w < 2 ^ 31 = omega arith in
      let sum : w + n ≡ m = omega arith in
      elim (Bool-cases (leb (bps - doff) cnt)) [
        | inl all ↦
            let to : (q + 1) * bps ≡ off + w = omega (arith, leb→le (bps - doff) cnt all) in
            rw (to, sum) at
              (whole-slice (q + 1) w (cnt - w) n (drop w buff) (omega arith) less
                (omega (arith, length-drop w buff)) (omega arith))
        | inr short ↦
            let none_left : n ≡ 0 = omega (arith, leb→lt (bps - doff) cnt short) in
            let done : w + 0 ≡ m = omega (arith, leb→lt (bps - doff) cnt short) in
            rw none_left (
              rw (none_left, done) at
                (whole-slice (q + 1) w (cnt - w) n (drop w buff) (omega arith) less
                  (omega (arith, length-drop w buff))
                  (omega (arith, leb→lt (bps - doff) cnt short))))
      ]

  first-slice :
      (q doff off cnt m : ℕ) (buffer : List ℕ)
      → q < total
      → doff < bps
      → 1 ≤ doff
      → off ≡ q * bps + doff
      → cnt < 2 ^ 31
      → cnt ≤ length buffer
      → m ≡ min cnt (total * bps - off)
      → first_bytes bps read sbuff q doff cnt buffer (1, slice disk (q * bps) bps ++ drop bps sbuff)
        ≡ ok (m, slice disk off m ++ drop m buffer)
  first-slice q doff off cnt m buffer lt d some_off at small room e =
      let end = inside q lt in
      let w = min (bps - doff) cnt in
      let n = m - w in
      let next : u32 (q + 1) ≡ q + 1 = omega arith in
      let none_behind : drop bps sbuff ≡ [] = drop_all bps sbuff (omega arith) in
      let found : take w (drop doff (slice disk (q * bps) bps)) ≡ slice disk off w =
        slice-slice disk (q * bps) bps doff w off (omega arith) at in
      let len : w ≤ length (drop doff (slice disk (q * bps) bps)) =
        omega (
          arith,
          length-slice disk (q * bps) bps end,
          length-drop doff (slice disk (q * bps) bps),
        ) in
      let copied = memcpy_lem w (drop doff (slice disk (q * bps) bps)) buffer len (omega arith) in
      rw (none_behind, append-nil (slice disk (q * bps) bps), first_bytes, copied, found, next)
        (prefix off (off + w) w n m m buffer (read_whole bps read sbuff (q + 1) w (cnt - w))
          (omega arith) refl (omega arith)
          (rest-slice q doff off cnt w n m buffer lt d at small room refl e refl))

  pub from-slice :
      (off cnt m : ℕ) (buffer : List ℕ)
      → bit_and off (bps - 1) ≡ off % bps
      → off ≤ total * bps
      → cnt < 2 ^ 31
      → cnt ≤ length buffer
      → m ≡ min cnt (total * bps - off)
      → read_from bps read sbuff off cnt buffer ≡ ok (m, slice disk off m ++ drop m buffer)
  unfolding read_from
  from-slice off cnt m buffer masked le small room e =
      let q = off / bps in
      let d = div-add-mod' off bps in
      let r : off % bps < bps = mod-lt off bps_ge in
      elim (Bool-cases (off % bps == 0)) [
        | inl aligned ↦
            let at : q * bps ≡ off = omega (arith, ==→eq (off % bps) 0 aligned) in
            let q_le : q ≤ total = drive_le q total bps 0 bps_ge (omega arith) in
            let q' : u32 q ≡ q = omega arith in
            let whole_call = whole-slice q 0 cnt m buffer q_le small room (omega arith) in
            let z : 0 + m ≡ m = omega arith in
            rw (read_from, masked, aligned, q') (rw (at, z) at whole_call)
        | inr within ↦
            let ne = ==→ne (off % bps) 0 within in
            let q_lt : q < total = drive_lt q total bps (off % bps) (omega arith) (omega arith) in
            let q' : u32 q ≡ q = omega arith in
            rw (read_from, masked, within, q', one_sector q q_lt)
              (ap
                  (λ d.
                    first_bytes bps read sbuff q d cnt buffer
                      (1, slice disk (q * bps) bps ++ drop bps sbuff))
                  masked
                ∙ first-slice q (off % bps) off cnt m buffer q_lt r (omega arith) (omega arith)
                    small room e)
      ]
