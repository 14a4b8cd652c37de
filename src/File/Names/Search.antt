-- ===== src/File/Names/Search.antt =====
-- find_file_skip of libvdf/file.c: the first entry of a directory that has the name.
use vdf.Prelude.{
  ℕ, ◌≡◌, refl, sym, ap, ◌∙◌, ◌⊎◌, inl, inr, Bool, true, false, not, ◌&&◌, ◌||◌, ◌==◌, has,
  Bool-cases, arith, List, [], ◌∷◌, ◌++◌, Option, none, some, if◌then◌else◌,
}
use vdf.Drive.{VdfDrive, VdfFile}
use vdf.File.Names.{find_entry, find_file_skip, is_skipped, matches, strcasecmp_eq}

-- The names of a file that count: with the flag SHORTONLY not the long one, and with LONGONLY not the
-- short one.
abbrev names_that_count : Bool → Bool → VdfFile → List (List ℕ)
names_that_count false false f = f.name ∷ f.shortname ∷ []
names_that_count true false f = f.shortname ∷ []
names_that_count false true f = f.name ∷ []
names_that_count true true f = []

abbrev is_one_of : List ℕ → List (List ℕ) → Bool
is_one_of name [] = false
is_one_of name (s ∷ ss) = strcasecmp_eq name s || is_one_of name ss

-- Whether one of the names that count is the name, with no regard to case.
abbrev has_name : VdfDrive → List ℕ → ℕ → ℕ → Bool
has_name drv name flags i =
    is_one_of name (names_that_count (has flags 1) (has flags 2) (drv.files i))

-- Whether a file is one that is looked for: it has the name, and is not the one to skip.
abbrev pub is_wanted : VdfDrive → List ℕ → ℕ → Option ℕ → ℕ → Bool
is_wanted drv name flags none i = has_name drv name flags i
is_wanted drv name flags (some k) i = if i == k then false else has_name drv name flags i

matches_lem :
    (drv : VdfDrive) (name : List ℕ) (flags i : ℕ)
    → matches drv name flags i ≡ has_name drv name flags i
matches_lem drv name flags i =
    go (has flags 1) (has flags 2) (strcasecmp_eq name (drv.files i).name)
      (strcasecmp_eq name (drv.files i).shortname)
  where
    go :
        (s l a b : Bool)
        → ((not s && strcasecmp_eq name (drv.files i).name)
            || (not l && strcasecmp_eq name (drv.files i).shortname))
          ≡ is_one_of name (names_that_count s l (drv.files i))
    go false false a b = ground arith
    go true false a b = ground arith
    go false true a b = ground arith
    go true true a b = refl

wanted_lem :
    (drv : VdfDrive) (name : List ℕ) (flags : ℕ) (skip : Option ℕ) (i : ℕ)
    → (not (is_skipped skip i) && matches drv name flags i) ≡ is_wanted drv name flags skip i
wanted_lem drv name flags none i = matches_lem drv name flags i
wanted_lem drv name flags (some k) i = elim (Bool-cases (i == k)) [
  | inl e ↦ rw e refl
  | inr e ↦ rw e (matches_lem drv name flags i)
]

-- None of the files is one that is looked for.
abbrev pub NoMatch : VdfDrive → List ℕ → ℕ → Option ℕ → List ℕ → Type 0
NoMatch drv name flags skip [] = Unit {0}
NoMatch drv name flags skip (i ∷ is) =
    (is_wanted drv name flags skip i ≡ false) × NoMatch drv name flags skip is

-- The file found, with the entries in front of it and behind it.
pub record FirstMatch (drv : VdfDrive) (name : List ℕ) (flags : ℕ) (skip : Option ℕ) (is : List ℕ)
    (res : Option ℕ) : Type 0 where
  pub file : ℕ
  pub before : List ℕ
  pub behind : List ℕ
  pub found : res ≡ some file
  pub parts : is ≡ before ++ (file ∷ behind)
  pub none_before : NoMatch drv name flags skip before
  pub is_match : is_wanted drv name flags skip file ≡ true

find_entry-first :
    (drv : VdfDrive) (name : List ℕ) (flags : ℕ) (skip : Option ℕ) (is : List ℕ)
    → ((find_entry drv name flags skip is ≡ none) × NoMatch drv name flags skip is)
      ⊎ FirstMatch drv name flags skip is (find_entry drv name flags skip is)
unfolding find_entry
find_entry-first drv name flags skip [] = inl (refl, tt)
find_entry-first drv name flags skip (i ∷ is) =
    go (not (is_skipped skip i) && matches drv name flags i) refl
      (find_entry-first drv name flags skip is)
  where
    go :
        (b : Bool)
        → (not (is_skipped skip i) && matches drv name flags i) ≡ b
        → ((find_entry drv name flags skip is ≡ none) × NoMatch drv name flags skip is)
          ⊎ FirstMatch drv name flags skip is (find_entry drv name flags skip is)
        → let r : Option ℕ = if b then some i else find_entry drv name flags skip is in
          ((r ≡ none) × NoMatch drv name flags skip (i ∷ is))
          ⊎ FirstMatch drv name flags skip (i ∷ is) r
    go true e rest = inr (record {
      file = i;
      before = [];
      behind = is;
      found = refl;
      parts = refl;
      none_before = tt;
      is_match = sym (wanted_lem drv name flags skip i) ∙ e;
    })
    go false e (inl (n, none_in)) = inl (n, (sym (wanted_lem drv name flags skip i) ∙ e, none_in))
    go false e (inr f) = inr (record {
      file = f.file;
      before = i ∷ f.before;
      behind = f.behind;
      found = f.found;
      parts = ap (λ js. i ∷ js) f.parts;
      none_before = (sym (wanted_lem drv name flags skip i) ∙ e, f.none_before);
      is_match = f.is_match;
    })

-- find_file_skip gives NULL only if no entry of the directory, but the one to skip, has the name, and
-- otherwise the first entry that has. With the flag SHORTONLY (bit 0) the long names of the entries do
-- not count, with LONGONLY (bit 1) the short ones do not, and with both none does; without a flag a
-- file has the name if its long or its short name is it. Case does not count.
pub find_file_skip-first :
    (drv : VdfDrive) (dir : ℕ) (name : List ℕ) (flags : ℕ) (skip : Option ℕ)
    → ((find_file_skip drv dir name flags skip ≡ none)
        × NoMatch drv name flags skip (drv.files dir).entries)
      ⊎ FirstMatch drv name flags skip
          (drv.files dir).entries
          (find_file_skip drv dir name flags skip)
unfolding find_file_skip
find_file_skip-first drv dir name flags skip =
    find_entry-first drv name flags skip (drv.files dir).entries
