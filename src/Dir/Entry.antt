-- ===== src/Dir/Entry.antt =====
-- The bytes of the entries that libvdf/read_dir.c makes.
use vdf.Prelude.{
  ℕ, zero, suc, ◌+◌, ◌-◌, ◌*◌, ◌%◌, ◌≤◌, ◌≡◌, refl, sym, ap, ◌∙◌, Bool, true, false, List, [], ◌∷◌,
  ◌++◌, ok, arith, ◌==◌, if◌then◌else◌, u8, le_16, le_32, has, length, length-append, length-take,
  length-drop, length-replicate, take, drop, replicate, leb, le→leb, take-append-drop, drop-drop,
  ◌>>=◌, map_ok,
}
use vdf.Drive.{VdfFile, vfa_dir}
use vdf.Boot.{put, puts}
use vdf.Read.Bytes.Slices.{slice, length-slice}
use vdf.Boot.Writes.{concat, puts-LaidOut}
use vdf.Dir.{
  Tm, base_part, ext_part, pad, short_bytes, code_unit, code_units, vfat_entry, modified_time,
  modified_date, first_cluster, high_cluster, dir_ent_writes, short_entry,
}

length-code_unit : (c : ℕ) → length (code_unit c) ≡ 2
length-code_unit c = ground arith

length-code_units : (n : ℕ) (s : List ℕ) → length (code_units n s) ≡ n * 2
length-code_units zero s = refl
length-code_units (suc n) [] = omega (arith, length-code_units n [])
length-code_units (suc n) (c ∷ s) =
    omega (
      arith,
      length-code_units n s,
      length-code_unit c,
      length-append (code_unit c) (code_units n s),
    )

pub length-vfat_entry : (f : VdfFile) (chk seq : ℕ) → length (vfat_entry f chk seq) ≡ 32
unfolding vfat_entry
length-vfat_entry f chk seq =
    let s = drop ((seq - 1) * 13) f.name in
    let back = 0 ∷ 0 ∷ code_units 2 (drop 11 s) in
    let middle = 15 ∷ 0 ∷ chk ∷ code_units 6 (drop 5 s) in
    omega (
      arith,
      length-append (code_units 5 s) (middle ++ back),
      length-append middle back,
      length-code_units 5 s,
      length-code_units 6 (drop 5 s),
      length-code_units 2 (drop 11 s),
    )

length-base_part : (n : ℕ) (s : List ℕ) → length (base_part n s).0 ≤ n
unfolding base_part
length-base_part zero s = omega arith
length-base_part (suc n) [] = omega arith
length-base_part (suc n) (c ∷ s) = let h = length-base_part n s in ground arith

length-ext_part : (s : List ℕ) → length (ext_part s) ≤ 3
length-ext_part [] = omega arith
length-ext_part (c ∷ s) = let h = length-take 3 s in ground arith

length-pad : (n : ℕ) (s : List ℕ) → length s ≤ n → length (pad n s) ≡ n
length-pad n s h =
    let blanks : List ℕ = replicate (n - length s) 32 in
    let len : length blanks ≡ n - length s = length-replicate (n - length s) 32 in
    omega (arith, length-append s blanks, len)

pub length-short_bytes : (s : List ℕ) → length (short_bytes s) ≡ 11
unfolding short_bytes
length-short_bytes s =
    let base = (base_part 8 s).0 in
    let ext = ext_part (base_part 8 s).1 in
    length-append (pad 8 base) (pad 3 ext)
    ∙ omega (
      arith,
      length-pad 8 base (length-base_part 8 s),
      length-pad 3 ext (length-ext_part (base_part 8 s).1),
    )

-- Bytes that are put where they are.
put_same :
    (off n : ℕ) (buf : List ℕ) → off + n ≤ length buf → put (off, slice buf off n) buf ≡ ok buf
put_same off n buf h =
    let len = length-slice buf off n h in
    let inside : leb (off + n) (length buf) ≡ true = le→leb (off + n) (length buf) h in
    let back : drop (off + n) buf ≡ drop n (drop off buf) =
      sym (drop-drop off n (off + n) buf refl) in
    rw (len, inside, back)
      (ap ok (
        ap (λ r. take off buf ++ r) (take-append-drop n (drop off buf)) ∙ take-append-drop off buf))

-- What holds of every list of `n` bytes.
abbrev AllLists : ℕ → (List ℕ → Type 0) → Type 0
AllLists zero P = P []
AllLists (suc n) P = (c : ℕ) → AllLists n (λ s. P (c ∷ s))

each_list : (n : ℕ) (P : List ℕ → Type 0) → AllLists n P → (s : List ℕ) → length s ≡ n → P s
each_list zero P all [] h = all
each_list zero P all (c ∷ s) h = absurd (omega arith)
each_list (suc n) P all [] h = absurd (omega arith)
each_list (suc n) P all (c ∷ s) h = each_list n (λ t. P (c ∷ t)) (all c) s (omega arith)

module _ (gmtime : ℕ → Tm) where
  -- An entry, with the bytes of its date of creation, which are those of the modification on FAT32.
  abbrev pub entry_parts : Bool → VdfFile → List ℕ → List ℕ → List (List ℕ)
  entry_parts wide f name created =
      name
      ∷ (u8 f.attr ∷ 0 ∷ [])
      ∷ ((if wide then if (gmtime f.date).tm_sec % 2 == 1 then 5 else 0 else 0) ∷ [])
      ∷ (if wide then modified_time gmtime f else 0 ∷ 0 ∷ [])
      ∷ created
      ∷ (if wide then modified_date gmtime f else 0 ∷ 0 ∷ [])
      ∷ le_16 (high_cluster gmtime wide f)
      ∷ modified_time gmtime f
      ∷ modified_date gmtime f
      ∷ le_16 (first_cluster gmtime wide f)
      ∷ le_32 (if has f.attr vfa_dir then 0 else f.size)
      ∷ []

  wide_entry :
      (f : VdfFile) (name buf : List ℕ)
      → length name ≡ 11
      → 32 ≤ length buf
      → puts (dir_ent_writes gmtime true f name) buf
        ≡ ok (concat (entry_parts true f name (modified_date gmtime f)) ++ drop 32 buf)
  unfolding modified_time modified_date
  wide_entry f name buf len room =
      each_list 11
        (λ s.
          puts (dir_ent_writes gmtime true f s) buf
          ≡ ok (concat (entry_parts true f s (modified_date gmtime f)) ++ drop 32 buf))
        (λ a b c d e g h i j k l.
          let s = a ∷ b ∷ c ∷ d ∷ e ∷ g ∷ h ∷ i ∷ j ∷ k ∷ l ∷ [] in
          puts-LaidOut (dir_ent_writes gmtime true f s)
            (entry_parts true f s (modified_date gmtime f)) 32 buf refl
            (
              refl,
              (refl, (refl, (refl, (refl, (refl, (refl, (refl, (refl, (refl, (refl, tt)))))))))),
            )
            refl room)
        name len

  -- The writes of FAT12 and FAT16, with one that leaves the two bytes there as they are.
  abbrev kept_writes : VdfFile → List ℕ → List ℕ → List (ℕ × List ℕ)
  kept_writes f name created = (16, created) ∷ dir_ent_writes gmtime false f name

  kept_entry :
      (f : VdfFile) (name created buf : List ℕ)
      → length name ≡ 11
      → length created ≡ 2
      → 32 ≤ length buf
      → puts (kept_writes f name created) buf
        ≡ ok (concat (entry_parts false f name created) ++ drop 32 buf)
  unfolding modified_time modified_date
  kept_entry f name created buf len two room =
      each_list 2
        (λ old.
          puts (kept_writes f name old) buf
          ≡ ok (concat (entry_parts false f name old) ++ drop 32 buf))
        (λ x y.
          each_list 11
            (λ s.
              puts (kept_writes f s (x ∷ y ∷ [])) buf
              ≡ ok (concat (entry_parts false f s (x ∷ y ∷ [])) ++ drop 32 buf))
            (λ a b c d e g h i j k l.
              let s = a ∷ b ∷ c ∷ d ∷ e ∷ g ∷ h ∷ i ∷ j ∷ k ∷ l ∷ [] in
              puts-LaidOut (kept_writes f s (x ∷ y ∷ [])) (entry_parts false f s (x ∷ y ∷ [])) 32
                buf refl
                (
                  refl,
                  (
                    refl,
                    (refl, (refl, (refl, (refl, (refl, (refl, (refl, (refl, (refl, tt))))))))),
                  ),
                )
                refl room)
            name len)
        created two

  -- The date of creation: FAT12 and FAT16 do not write it.
  abbrev pub created : Bool → VdfFile → List ℕ → List ℕ
  created true f buf = modified_date gmtime f
  created false f buf = slice buf 16 2

  abbrev pub entry_bytes : Bool → VdfFile → List ℕ → List ℕ → List ℕ
  entry_bytes wide f name buf = concat (entry_parts wide f name (created wide f buf))

  length-entry_parts :
      (wide : Bool) (f : VdfFile) (name old : List ℕ)
      → length name ≡ 11
      → length old ≡ 2
      → length (concat (entry_parts wide f name old)) ≡ 32
  unfolding modified_time modified_date
  length-entry_parts true f name old len two =
      each_list 2 (λ o. length (concat (entry_parts true f name o)) ≡ 32)
        (λ x y.
          each_list 11 (λ s. length (concat (entry_parts true f s (x ∷ y ∷ []))) ≡ 32)
            (λ a b c d e g h i j k l. refl) name len)
        old two
  length-entry_parts false f name old len two =
      each_list 2 (λ o. length (concat (entry_parts false f name o)) ≡ 32)
        (λ x y.
          each_list 11 (λ s. length (concat (entry_parts false f s (x ∷ y ∷ []))) ≡ 32)
            (λ a b c d e g h i j k l. refl) name len)
        old two

  length-modified_date : (f : VdfFile) → length (modified_date gmtime f) ≡ 2
  unfolding modified_date
  length-modified_date f = refl

  pub length-entry_bytes :
      (wide : Bool) (f : VdfFile) (name buf : List ℕ)
      → length name ≡ 11
      → 18 ≤ length buf
      → length (entry_bytes wide f name buf) ≡ 32
  length-entry_bytes true f name buf len room =
      length-entry_parts true f name (modified_date gmtime f) len (length-modified_date f)
  length-entry_bytes false f name buf len room =
      length-entry_parts false f name (slice buf 16 2) len (length-slice buf 16 2 room)

  entry_written :
      (wide : Bool) (f : VdfFile) (name buf : List ℕ)
      → length name ≡ 11
      → 32 ≤ length buf
      → puts (dir_ent_writes gmtime wide f name) buf
        ≡ ok (entry_bytes wide f name buf ++ drop 32 buf)
  unfolding puts
  entry_written true f name buf len room = wide_entry f name buf len room
  entry_written false f name buf len room =
      ap (λ b. b >>= puts (dir_ent_writes gmtime false f name))
        (sym (put_same 16 2 buf (omega arith)))
      ∙ kept_entry f name (slice buf 16 2) buf len (length-slice buf 16 2 (omega arith)) room

  -- The entry itself, behind `cnt` entries.
  pub short_entry-entry_bytes :
      (wide : Bool) (f : VdfFile) (name : List ℕ) (cnt : ℕ) (buf : List ℕ)
      → length name ≡ 11
      → 32 * cnt + 32 ≤ length buf
      → short_entry gmtime wide f name cnt buf
        ≡ ok (
          cnt + 1,
          take (32 * cnt) buf
              ++ (entry_bytes wide f name (drop (32 * cnt) buf) ++ drop (32 * cnt + 32) buf),
        )
  unfolding short_entry
  short_entry-entry_bytes wide f name cnt buf len room =
      let rest = drop (32 * cnt) buf in
      let behind = drop-drop (32 * cnt) 32 (32 * cnt + 32) buf refl in
      ap (map_ok (λ r. (cnt + 1, take (32 * cnt) buf ++ r)))
        (entry_written wide f name rest len (omega (arith, length-drop (32 * cnt) buf)))
      ∙ ap (λ d. ok (cnt + 1, take (32 * cnt) buf ++ (entry_bytes wide f name rest ++ d))) behind

  created_at :
      (f : VdfFile) (name old : List ℕ)
      → length name ≡ 11
      → length old ≡ 2
      → slice (concat (entry_parts false f name old)) 16 2 ≡ old
  unfolding modified_time modified_date
  created_at f name old len two =
      each_list 2 (λ o. slice (concat (entry_parts false f name o)) 16 2 ≡ o)
        (λ x y.
          each_list 11 (λ s. slice (concat (entry_parts false f s (x ∷ y ∷ []))) 16 2 ≡ x ∷ y ∷ [])
            (λ a b c d e g h i j k l. refl) name len)
        old two

  -- The date of creation of FAT12 and FAT16 is that of the buffer.
  pub entry_bytes-created :
      (f : VdfFile) (name buf : List ℕ)
      → length name ≡ 11
      → 18 ≤ length buf
      → slice (entry_bytes false f name buf) 16 2 ≡ slice buf 16 2
  entry_bytes-created f name buf len room =
      created_at f name (slice buf 16 2) len (length-slice buf 16 2 room)
