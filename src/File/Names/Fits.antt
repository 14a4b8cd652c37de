-- ===== src/File/Names/Fits.antt =====
-- calc_shortname of libvdf/file.c: the short name has room in its array of thirteen characters.
use vdf.Prelude.{
  ℕ, ◌≤◌, ◌⊎◌, ◌≡◌, Bool, true, false, List, [], ◌∷◌, Option, none, some, arith, if◌then◌else◌,
  length,
}
use vdf.Drive.{VdfDrive}

-- Each character but the last is written or not.
length-if : (b : Bool) (c : ℕ) → length (if b then c ∷ [] else []) ≤ 1
length-if true c = omega arith
length-if false c = omega arith

-- Of at most twelve characters, if it is there.
abbrev ShortIfAny : Option (List ℕ) → Type 0
ShortIfAny none = Unit {0}
ShortIfAny (some s) = length s ≤ 12

-- A short name of at most twelve characters, or a drive as it was.
abbrev Fits : VdfDrive → ℕ → VdfDrive × Bool → Type 0
Fits old i r =
    ((r.1 ≡ true) × (length (r.0.files i).shortname ≤ 12)) ⊎ ((r.1 ≡ false) × (r.0 ≡ old))
