-- ===== src/Fat/Loop.antt =====
-- The loop of read_sector_fat for FAT16 and FAT32 writes the table.
use vdf.Prelude.{
  ℕ, zero, suc, ◌+◌, ◌*◌, ◌≤◌, ◌<◌, ◌^◌, ◌≡◌, refl, sym, ap, ◌∙◌, List, [], ◌∷◌, ◌++◌, append_assoc,
  arith, ltb, Bool-cases, inl, inr, length, length-drop, drop, drop-drop, none, some, Result, ok,
  map_ok, replicate, sub32, u32, ltb→lt, ltb→le, ne→==, eq→==,
}
use vdf.Drive.{VdfDrive, FileRange}
use vdf.Fat.{ranges, last_of, fat_next_file, memset_zero, finish, fat_loop}
use vdf.Fat.Spec.{entry, table, Rising, Rising-lt, table_skip, table_free, drop-suc}
use vdf.Recalc.Chain.{Agree}

pub memset_zero_lem :
    (n : ℕ) (buf : List ℕ) → n ≤ length buf → memset_zero n buf ≡ ok (replicate n 0 ++ drop n buf)
unfolding memset_zero
memset_zero_lem zero buf h = refl
memset_zero_lem (suc n) [] h = absurd (omega arith)
memset_zero_lem (suc n) (b ∷ buf) h = rw (memset_zero_lem n buf (omega arith))

pub finish_lem :
    (scnt i m : ℕ) (buf : List ℕ)
    → i + m ≡ scnt
    → scnt < 2 ^ 31
    → m ≤ length buf
    → finish scnt i buf ≡ ok (replicate m 0 ++ drop m buf)
finish_lem scnt i m buf h top k =
    let e : sub32 scnt i ≡ m = omega arith in
    ground (arith, memset_zero_lem m buf k, ap (λ n. memset_zero n buf) e)

-- With as many files as ranges, the next file is that of the next range, and behind the last there
-- is none.
next_none :
    (drv : VdfDrive) (ind : ℕ) (r : FileRange)
    → drv.file_cnt ≡ length (ranges drv)
    → drop ind (ranges drv) ≡ r ∷ []
    → fat_next_file drv ind ≡ ok none
unfolding fat_next_file
next_none drv ind r cnt h =
    let (d, l, g) = drop-suc (ranges drv) ind h in rw (eq→== (ind + 1) drv.file_cnt (omega arith))

next_some :
    (drv : VdfDrive) (ind : ℕ) (r r2 : FileRange) (rs : List FileRange)
    → drv.file_cnt ≡ length (ranges drv)
    → drop ind (ranges drv) ≡ r ∷ r2 ∷ rs
    → fat_next_file drv ind ≡ ok (some (ind + 1, sub32 (drv.files r2.file).end 1))
unfolding fat_next_file last_of
next_some drv ind r r2 rs cnt h =
    let (d, l, g) = drop-suc (ranges drv) ind h in
    let (d2, l2, g2) = drop-suc (ranges drv) (ind + 1) d in
    rw (ne→== (ind + 1) drv.file_cnt (omega arith)) (rw (g2, last_of, map_ok))

module _ (drv : VdfDrive) (w : ℕ) (le : ℕ → List ℕ) (eoc scnt : ℕ) (w_pos : 1 ≤ w)
    (scnt_small : scnt < 2 ^ 31) (zeros : le 0 ≡ replicate w 0)
    (cnt : drv.file_cnt ≡ length (ranges drv)) where
  -- One round inside a file, and one at its end.
  round_inside :
      (fuel : ℕ) (buf : List ℕ) (i ent clust last ind : ℕ)
      → i < scnt
      → w ≤ length buf
      → i + w < 2 ^ 31
      → ent < last
      → fat_loop drv w le eoc scnt (suc fuel) buf i ent clust last ind
        ≡ map_ok
            (λ r. le clust ++ r)
            (fat_loop drv w le eoc scnt fuel
              (drop w buf)
              (i + w)
              (u32 (ent + 1))
              (u32 (clust + 1))
              last
              ind)
  unfolding fat_loop
  round_inside fuel buf i ent clust last ind h k t l = ground arith

  round_last :
      (fuel : ℕ) (buf : List ℕ) (i ent clust last ind : ℕ)
      → i < scnt
      → w ≤ length buf
      → i + w < 2 ^ 31
      → last ≤ ent
      → fat_next_file drv ind ≡ ok none
      → fat_loop drv w le eoc scnt (suc fuel) buf i ent clust last ind
        ≡ map_ok (λ r. le eoc ++ r) (finish scnt (i + w) (drop w buf))
  unfolding fat_loop
  round_last fuel buf i ent clust last ind h k t l n = ground arith

  round_next :
      (fuel : ℕ) (buf : List ℕ) (i ent clust last ind ind' last' : ℕ)
      → i < scnt
      → w ≤ length buf
      → i + w < 2 ^ 31
      → last ≤ ent
      → fat_next_file drv ind ≡ ok (some (ind', last'))
      → fat_loop drv w le eoc scnt (suc fuel) buf i ent clust last ind
        ≡ map_ok
            (λ r. le eoc ++ r)
            (fat_loop drv w le eoc scnt fuel
              (drop w buf)
              (i + w)
              (u32 (ent + 1))
              (u32 (u32 (ent + 1) + 1))
              last'
              ind')
  unfolding fat_loop
  round_next fuel buf i ent clust last ind ind' last' h k t l n = ground arith

  round_end :
      (fuel : ℕ) (buf : List ℕ) (i ent clust last ind : ℕ)
      → i ≡ scnt
      → fat_loop drv w le eoc scnt (suc fuel) buf i ent clust last ind ≡ ok buf
  unfolding fat_loop memset_zero
  round_end fuel buf i ent clust last ind h =
      let e : sub32 scnt i ≡ 0 = omega arith in ground (arith, ap (λ n. memset_zero n buf) e)

  glue :
      (v t buf : List ℕ) (k' k : ℕ)
      → k ≡ w + k'
      → map_ok (λ r. v ++ r) (ok (t ++ drop k' (drop w buf))) ≡ ok ((v ++ t) ++ drop k buf)
  glue v t buf k' k h = rw (drop-drop w k' k buf h) (ap ok (sym (append_assoc v t (drop k buf))))

  abbrev loop : ℕ → List ℕ → ℕ → ℕ → FileRange → ℕ → Result (List ℕ)
  loop fuel buf i ent r ind =
      fat_loop drv w le eoc scnt fuel buf i ent (ent + 1) (sub32 r.fatend 1) ind

  inside_lem :
      (fuel : ℕ) (buf ts : List ℕ) (i ent ind k' k : ℕ) (r : FileRange) (rs : List FileRange)
      → i < scnt
      → w ≤ length buf
      → i + w < 2 ^ 31
      → Rising ent (r ∷ rs)
      → ent + 1 < r.fatend
      → k ≡ w + k'
      → loop fuel (drop w buf) (i + w) (ent + 1) r ind ≡ ok (ts ++ drop k' (drop w buf))
      → loop (suc fuel) buf i ent r ind ≡ ok ((le (entry eoc (r ∷ rs) ent) ++ ts) ++ drop k buf)
  inside_lem fuel buf ts i ent ind k' k r rs h l t rise lt e ih =
      let top = Rising-lt rs r.fatend rise.1 in
      let one : u32 (ent + 1) ≡ ent + 1 = omega arith in
      let two : u32 (ent + 1 + 1) ≡ ent + 1 + 1 = omega arith in
      let val : entry eoc (r ∷ rs) ent ≡ ent + 1 = ground arith in
      round_inside fuel buf i ent (ent + 1) (sub32 r.fatend 1) ind h l t (omega arith)
      ∙ rw (one, two, ih, val) (glue (le (ent + 1)) ts buf k' k e)

  last_lem :
      (fuel n : ℕ) (buf : List ℕ) (i ent ind k' k : ℕ) (r : FileRange)
      → i < scnt
      → w ≤ length buf
      → i + w < 2 ^ 31
      → i + k ≡ scnt
      → k ≤ length buf
      → ent + 1 ≡ r.fatend
      → r.fatend < 2 ^ 32
      → k' ≡ n * w
      → k ≡ w + k'
      → drop ind (ranges drv) ≡ r ∷ []
      → loop (suc fuel) buf i ent r ind
        ≡ ok ((le (entry eoc (r ∷ []) ent) ++ table le eoc (r ∷ []) (ent + 1) n) ++ drop k buf)
  last_lem fuel n buf i ent ind k' k r h l t f m e top q s d =
      let val : entry eoc (r ∷ []) ent ≡ eoc = ground arith in
      let zero_rest =
        finish_lem scnt (i + w) k' (drop w buf) (omega arith) scnt_small
          (omega (arith, length-drop w buf)) in
      round_last fuel buf i ent (ent + 1) (sub32 r.fatend 1) ind h l t (omega arith)
        (next_none drv ind r cnt d)
      ∙ rw
          (
            zero_rest,
            val,
            table_skip le eoc r [] (ent + 1) n (omega arith),
            table_free le w eoc (ent + 1) n k' zeros q,
          )
          (glue (le eoc) _ buf k' k s)

  next_lem :
      (fuel n : ℕ) (buf : List ℕ) (i ent ind k' k : ℕ) (r r2 : FileRange) (rs : List FileRange)
      → i < scnt
      → w ≤ length buf
      → i + w < 2 ^ 31
      → ent + 1 ≡ r.fatend
      → r.fatend + 1 < 2 ^ 32
      → k ≡ w + k'
      → drop ind (ranges drv) ≡ r ∷ r2 ∷ rs
      → (drv.files r2.file).end ≡ r2.fatend
      → loop fuel (drop w buf) (i + w) (ent + 1) r2 (ind + 1)
        ≡ ok (table le eoc (r2 ∷ rs) (ent + 1) n ++ drop k' (drop w buf))
      → loop (suc fuel) buf i ent r ind
        ≡ ok (
            (le (entry eoc (r ∷ r2 ∷ rs) ent) ++ table le eoc (r ∷ r2 ∷ rs) (ent + 1) n)
            ++ drop k buf)
  next_lem fuel n buf i ent ind k' k r r2 rs h l t e top s d ag ih =
      let val : entry eoc (r ∷ r2 ∷ rs) ent ≡ eoc = ground arith in
      let one : u32 (ent + 1) ≡ ent + 1 = omega arith in
      let two : u32 (ent + 1 + 1) ≡ ent + 1 + 1 = omega arith in
      round_next fuel buf i ent (ent + 1) (sub32 r.fatend 1) ind (ind + 1)
        (sub32 (drv.files r2.file).end 1) h l t (omega arith) (next_some drv ind r r2 rs cnt d)
      ∙ rw (ag, one, two, ih, val, table_skip le eoc r (r2 ∷ rs) (ent + 1) n (omega arith))
          (glue (le eoc) _ buf k' k s)

  -- With enough fuel and buffer the loop writes the next `n` entries of the table, and leaves the
  -- rest of the buffer alone.
  pub fat_loop-table :
      (n fuel : ℕ) (buf : List ℕ) (i ent ind k : ℕ) (r : FileRange) (rs : List FileRange)
      → k ≡ n * w
      → i + k ≡ scnt
      → n < fuel
      → k ≤ length buf
      → drop ind (ranges drv) ≡ r ∷ rs
      → Rising ent (r ∷ rs)
      → Agree drv.files (r ∷ rs)
      → fat_loop drv w le eoc scnt fuel buf i ent (ent + 1) (sub32 r.fatend 1) ind
        ≡ ok (table le eoc (r ∷ rs) ent n ++ drop k buf)
  fat_loop-table n zero buf i ent ind k r rs e f g h d rise agree = absurd (omega arith)
  fat_loop-table zero (suc fuel) buf i ent ind k r rs e f g h d rise agree =
      let z : k ≡ 0 = omega arith in
      round_end fuel buf i ent (ent + 1) (sub32 r.fatend 1) ind (omega arith) ∙ rw z
  fat_loop-table (suc n) (suc fuel) buf i ent ind k r [] e f g h d rise agree =
      elim (Bool-cases (ltb (ent + 1) r.fatend)) [
        | inl inside ↦
            inside_lem fuel buf _ i ent ind (n * w) k r [] (omega arith) (omega arith) (omega arith)
              rise (ltb→lt _ _ inside) (omega arith)
              (fat_loop-table n fuel (drop w buf) (i + w) (ent + 1) ind (n * w) r [] refl
                (omega arith) (omega arith) (omega (arith, length-drop w buf)) d
                (ltb→lt _ _ inside, rise.1) agree)
        | inr last ↦
            last_lem fuel n buf i ent ind (n * w) k r (omega arith) (omega arith) (omega arith) f h
              (omega (arith, ltb→le _ _ last)) (omega arith) refl (omega arith) d
      ]
  fat_loop-table (suc n) (suc fuel) buf i ent ind k r (r2 ∷ rs) e f g h d rise agree =
      let k2 : n * w ≤ length (drop w buf) = omega (arith, length-drop w buf) in
      elim (Bool-cases (ltb (ent + 1) r.fatend)) [
        | inl inside ↦
            inside_lem fuel buf _ i ent ind (n * w) k r (r2 ∷ rs) (omega arith) (omega arith)
              (omega arith) rise (ltb→lt _ _ inside) (omega arith)
              (fat_loop-table n fuel (drop w buf) (i + w) (ent + 1) ind (n * w) r (r2 ∷ rs) refl
                (omega arith) (omega arith) k2 d (ltb→lt _ _ inside, rise.1) agree)
        | inr last ↦
            let end : ent + 1 ≡ r.fatend = omega (arith, ltb→le _ _ last) in
            let top = Rising-lt (r2 ∷ rs) r.fatend rise.1 in
            next_lem fuel n buf i ent ind (n * w) k r r2 rs (omega arith) (omega arith)
              (omega arith) end top (omega arith) d agree.1.0
              (fat_loop-table n fuel (drop w buf) (i + w) (ent + 1) (ind + 1) (n * w) r2 rs refl
                (omega arith) (omega arith) k2 (drop-suc (ranges drv) ind d).0
                (omega arith, rise.1.1) agree.1)
      ]
