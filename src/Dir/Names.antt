-- ===== src/Dir/Names.antt =====
-- The entries of a long name apart from the code of fill_dirent of libvdf/read_dir.c: its code units
-- one behind the other, cut up into parts of thirteen; and the checksum of the short name.
use vdf.Prelude.{
  ℕ, zero, suc, ◌+◌, ◌-◌, ◌*◌, ◌/◌, ◌%◌, ◌≤◌, ◌<◌, ◌≡◌, refl, sym, ap, ◌∙◌, Bool-cases, inl, inr,
  true, false, List, [], ◌∷◌, ◌++◌, arith, ltb, ◌==◌, if◌then◌else◌, le_16, u8, set_bit, take, drop,
  drop-drop, length, leb, lt→leb, le→leb, replicate,
}
use vdf.Drive.{VdfFile}
use vdf.Data.Content.{pad}
use vdf.Read.Bytes.Slices.{slice}
use vdf.Dir.{base_part, ext_part, short_bytes, code_unit, code_units, vfat_entry, chk_step, chk_sum}
use vdf.Dir.Long.{long_bytes}

-- Blanks behind a name.
abbrev blank_pad : ℕ → List ℕ → List ℕ
blank_pad n s = s ++ replicate (n - length s) 32

-- The code units of a name, of two bytes each, the low one first. A character from 128 on is negative.
abbrev name_units : List ℕ → List ℕ
name_units [] = []
name_units (c ∷ s) = le_16 (if ltb c 128 then c else 0xff00 + c) ++ name_units s

-- Those of all the parts, filled up with zeros.
abbrev part_units : VdfFile → List ℕ
part_units f = pad (f.fent_cnt * 26) (name_units f.name)

-- The entry with the number `n`, from 1 on, has the part with that number: five code units of it at 1,
-- six at 14 and two at 28. The entry with the last part has 64 added to its number.
abbrev long_entry : VdfFile → ℕ → ℕ → List ℕ
long_entry f sum n =
    let from = (n - 1) * 26 in
    (((if n == f.fent_cnt then n + 64 else n) ∷ slice (part_units f) from 10)
      ++ ((15 ∷ 0 ∷ sum ∷ slice (part_units f) (from + 10) 12)
          ++ (0 ∷ 0 ∷ slice (part_units f) (from + 22) 4)))

-- The entries with the numbers `n`, `n` - 1 and so on to 1.
abbrev pub parts_down : VdfFile → ℕ → ℕ → List ℕ
parts_down f sum zero = []
parts_down f sum (suc n) = long_entry f sum (suc n) ++ parts_down f sum n

-- The sum so far, rotated right by a bit in its eight, and the next character.
abbrev pub name_sum : ℕ → List ℕ → ℕ
name_sum sum [] = sum
name_sum sum (c ∷ cs) = name_sum (((if sum % 2 == 1 then 128 else 0) + sum / 2 + c) % 256) cs

chk_step-rotated :
    (sum c : ℕ) → chk_step sum c ≡ ((if sum % 2 == 1 then 128 else 0) + sum / 2 + c) % 256
chk_step-rotated sum c = ground arith

pub chk_sum-name_sum : (cs : List ℕ) (sum : ℕ) → chk_sum sum cs ≡ name_sum sum cs
chk_sum-name_sum [] sum = refl
chk_sum-name_sum (c ∷ cs) sum =
    chk_sum-name_sum cs (chk_step sum c) ∙ ap (λ s. name_sum s cs) (chk_step-rotated sum c)

code_unit_lem : (c : ℕ) → code_unit c ≡ le_16 (if ltb c 128 then c else 0xff00 + c)
code_unit_lem c = elim (Bool-cases (ltb c 128)) [ inl e ↦ rw e refl | inr e ↦ rw e refl ]

pad_two : (k a b : ℕ) (s : List ℕ) → pad (suc k * 2) (a ∷ b ∷ s) ≡ a ∷ b ∷ pad (k * 2) s
pad_two k a b s = let e : suc k * 2 ≡ suc (suc (k * 2)) = omega arith in rw e refl

pad_none : (k : ℕ) → pad (suc k * 2) [] ≡ 0 ∷ 0 ∷ pad (k * 2) []
pad_none k = let e : suc k * 2 ≡ suc (suc (k * 2)) = omega arith in rw e refl

code_units-pad : (k : ℕ) (s : List ℕ) → code_units k s ≡ pad (k * 2) (name_units s)
code_units-pad zero s = refl
code_units-pad (suc k) [] = ap (λ r. 0 ∷ 0 ∷ r) (code_units-pad k []) ∙ sym (pad_none k)
code_units-pad (suc k) (c ∷ s) =
    let u = if ltb c 128 then c else 0xff00 + c in
    ap (λ r. r ++ code_units k s) (code_unit_lem c)
    ∙ ap (λ r. le_16 u ++ r) (code_units-pad k s)
    ∙ sym (pad_two k (u % 256) (u / 256 % 256) (name_units s))

drop_two : (m a b : ℕ) (s : List ℕ) → drop (suc m * 2) (a ∷ b ∷ s) ≡ drop (m * 2) s
drop_two m a b s = let e : suc m * 2 ≡ suc (suc (m * 2)) = omega arith in rw e refl

drop-name_units : (m : ℕ) (s : List ℕ) → drop (m * 2) (name_units s) ≡ name_units (drop m s)
drop-name_units zero s = refl
drop-name_units (suc m) [] = let e : suc m * 2 ≡ suc (suc (m * 2)) = omega arith in rw e refl
drop-name_units (suc m) (c ∷ s) =
    let u = if ltb c 128 then c else 0xff00 + c in
    drop_two m (u % 256) (u / 256 % 256) (name_units s) ∙ drop-name_units m s

slice-pad :
    (t a n : ℕ) (bytes : List ℕ) → a + n ≤ t → slice (pad t bytes) a n ≡ pad n (drop a bytes)
slice-pad t zero zero bytes h = refl
slice-pad zero zero (suc n) bytes h = absurd (omega arith)
slice-pad zero (suc a) n bytes h = absurd (omega arith)
slice-pad (suc t) zero (suc n) [] h = ap (λ r. 0 ∷ r) (slice-pad t zero n [] (omega arith))
slice-pad (suc t) zero (suc n) (b ∷ bytes) h =
    ap (λ r. b ∷ r) (slice-pad t zero n bytes (omega arith))
slice-pad (suc t) (suc a) n [] h = slice-pad t a n [] (omega arith) ∙ ap (pad n) (drop_none a)
  where
    drop_none : (a : ℕ) → drop {A = ℕ} a [] ≡ drop {A = ℕ} (suc a) []
    drop_none zero = refl
    drop_none (suc a) = refl
slice-pad (suc t) (suc a) n (b ∷ bytes) h = slice-pad t a n bytes (omega arith)

-- `k` code units of the name from the character `m` on.
units_at :
    (f : VdfFile) (m k from w : ℕ)
    → from ≡ m * 2
    → w ≡ k * 2
    → from + w ≤ f.fent_cnt * 26
    → code_units k (drop m f.name) ≡ slice (part_units f) from w
units_at f m k from w at width h =
    code_units-pad k (drop m f.name)
    ∙ ap (pad (k * 2)) (sym (drop-name_units m f.name))
    ∙ ap (λ a. pad (k * 2) (drop a (name_units f.name))) (sym at)
    ∙ ap (λ v. pad v (drop from (name_units f.name))) (sym width)
    ∙ sym (slice-pad (f.fent_cnt * 26) from w (name_units f.name) h)

number_lem :
    (n cnt : ℕ)
    → n ≤ cnt
    → cnt < 64
    → (if n == cnt then set_bit (u8 n) 64 else u8 n) ≡ (if n == cnt then n + 64 else n)
number_lem n cnt le few = ground arith

vfat_entry-long_entry :
    (f : VdfFile) (sum n : ℕ)
    → 1 ≤ n
    → n ≤ f.fent_cnt
    → f.fent_cnt < 64
    → vfat_entry f sum n ≡ long_entry f sum n
unfolding vfat_entry
vfat_entry-long_entry f sum n some_part le few =
    let from = (n - 1) * 26 in
    let m = (n - 1) * 13 in
    let part : ℕ → List ℕ → List ℕ → List ℕ → List ℕ =
      λ k a b c. ((k ∷ a) ++ ((15 ∷ 0 ∷ sum ∷ b) ++ (0 ∷ 0 ∷ c))) in
    let name = drop m f.name in
    let first = units_at f m 5 from 10 (omega arith) (omega arith) (omega arith) in
    let second =
      ap (code_units 6) (drop-drop m 5 (m + 5) f.name refl)
      ∙ units_at f (m + 5) 6 (from + 10) 12 (omega arith) (omega arith) (omega arith) in
    let third =
      ap (code_units 2) (drop-drop m 11 (m + 11) f.name refl)
      ∙ units_at f (m + 11) 2 (from + 22) 4 (omega arith) (omega arith) (omega arith) in
    ap (λ k. part k (code_units 5 name) (code_units 6 (drop 5 name)) (code_units 2 (drop 11 name)))
      (number_lem n f.fent_cnt le few)
    ∙ ap
        (λ a.
          part (if n == f.fent_cnt then n + 64 else n) a (code_units 6 (drop 5 name))
            (code_units 2 (drop 11 name)))
        first
    ∙ ap
        (λ b.
          part (if n == f.fent_cnt then n + 64 else n) (slice (part_units f) from 10) b
            (code_units 2 (drop 11 name)))
        second
    ∙ ap
        (part (if n == f.fent_cnt then n + 64 else n) (slice (part_units f) from 10)
          (slice (part_units f) (from + 10) 12))
        third

pub long_bytes-parts_down :
    (f : VdfFile) (sum n : ℕ)
    → n ≤ f.fent_cnt
    → f.fent_cnt < 64
    → long_bytes f sum n ≡ parts_down f sum n
long_bytes-parts_down f sum zero le few = refl
long_bytes-parts_down f sum (suc n) le few =
    ap (λ r. r ++ long_bytes f sum n) (vfat_entry-long_entry f sum (suc n) (omega arith) le few)
    ∙ ap (λ r. long_entry f sum (suc n) ++ r) (long_bytes-parts_down f sum n (omega arith) few)

-- What is before the first dot of a short name, and what is behind it.
abbrev before_dot : List ℕ → List ℕ
before_dot [] = []
before_dot (c ∷ s) = let rest = before_dot s in if c == 46 then [] else c ∷ rest

abbrev after_dot : List ℕ → List ℕ
after_dot [] = []
after_dot (c ∷ s) = let rest = after_dot s in if c == 46 then s else rest

-- The eleven characters of a short name: eight before the dot and three behind it, with blanks where
-- there are fewer. (Behind nine and more before the dot, which no short name has, there are blanks.)
abbrev pub dos_name : List ℕ → List ℕ
dos_name s =
    blank_pad 8 (take 8 (before_dot s))
    ++ blank_pad 3 (if leb (length (before_dot s)) 8 then take 3 (after_dot s) else [])

base_part-before_dot :
    (n : ℕ) (s : List ℕ)
    → ((base_part n s).0 ≡ take n (before_dot s))
      × (ext_part (base_part n s).1
          ≡ (if leb (length (before_dot s)) n then take 3 (after_dot s) else []))
unfolding base_part
base_part-before_dot zero [] = (refl, refl)
base_part-before_dot zero (c ∷ s) = elim (Bool-cases (c == 46)) [
  | inl e ↦ rw e (refl, refl)
  | inr e ↦
      let over : leb (suc (length (before_dot s))) 0 ≡ false = lt→leb _ _ (omega arith) in
      rw (e, over) (refl, refl)
]
base_part-before_dot (suc n) [] =
    let short : leb 0 (suc n) ≡ true = le→leb _ _ (omega arith) in rw short (refl, refl)
base_part-before_dot (suc n) (c ∷ s) = elim (Bool-cases (c == 46)) [
  | inl e ↦
      let short : leb 0 (suc n) ≡ true = le→leb _ _ (omega arith) in
      rw (base_part, e, short, e) (refl, refl)
  | inr e ↦
      let (base, ext) = base_part-before_dot n s in
      let same : leb (suc (length (before_dot s))) (suc n) ≡ leb (length (before_dot s)) n =
        ground arith in
      rw (base_part, e, same) (ap (λ r. c ∷ r) base, ext)
]

pub short_bytes-dos_name : (s : List ℕ) → short_bytes s ≡ dos_name s
unfolding short_bytes
short_bytes-dos_name s =
    let (base, ext) = base_part-before_dot 8 s in
    ap (λ b. blank_pad 8 b ++ blank_pad 3 (ext_part (base_part 8 s).1)) base
    ∙ ap (λ e. blank_pad 8 (take 8 (before_dot s)) ++ blank_pad 3 e) ext
