-- ===== src/Data/Found.antt =====
-- find_file_sector: the search finds the file that has the sector.
use vdf.Prelude.{
  ℕ, zero, suc, ◌-◌, ◌*◌, ◌≤◌, ◌<◌, ◌^◌, ◌≡◌, refl, ◌∙◌, inl, inr, Bool-cases, List, [], ◌∷◌,
  Option, none, some, Result, ok, arith, ltb, length, ltb→lt, ltb→le,
}
use vdf.Drive.{VdfFile, FileRange}
use vdf.Data.{find_sector}
use vdf.Data.Content.{owner}

-- The files of the ranges lie one behind the other from sector `s` to `s'`, none is without a
-- sector, the size of each fits into its sectors, and these have 2 ^ 32 bytes at most.
abbrev pub Laid : (ℕ → VdfFile) → ℕ → ℕ → List FileRange → ℕ → Type 0
Laid files bps s [] s' = s' ≡ s
Laid files bps s (r ∷ rs) s' =
    ((files r.file).startsect ≡ s)
    × ((files r.file).endsect ≡ r.sectend)
    × (s < r.sectend)
    × ((files r.file).size ≤ (r.sectend - s) * bps)
    × ((r.sectend - s) * bps ≤ 2 ^ 32)
    × Laid files bps r.sectend rs s'

pub Laid-le :
    (files : ℕ → VdfFile) (bps s : ℕ) (rs : List FileRange) (s' : ℕ)
    → Laid files bps s rs s'
    → s ≤ s'
Laid-le files bps s [] s' h = omega arith
Laid-le files bps s (r ∷ rs) s' h = omega (arith, h.2, Laid-le files bps r.sectend rs s' h.5)

owner_here :
    (files : ℕ → VdfFile) (r : FileRange) (rs : List FileRange) (u : ℕ)
    → (files r.file).startsect ≤ u
    → u < (files r.file).endsect
    → owner files (r ∷ rs) u ≡ some r.file
owner_here files r rs u h k = ground arith

owner_behind :
    (files : ℕ → VdfFile) (r : FileRange) (rs : List FileRange) (u : ℕ)
    → (files r.file).endsect ≤ u
    → owner files (r ∷ rs) u ≡ owner files rs u
owner_behind files r rs u h = ground arith

-- No file has a sector behind the last.
pub owner-none :
    (files : ℕ → VdfFile) (bps s : ℕ) (rs : List FileRange) (s' u : ℕ)
    → Laid files bps s rs s'
    → s' ≤ u
    → owner files rs u ≡ none
owner-none files bps s [] s' u h k = refl
owner-none files bps s (r ∷ rs) s' u h k =
    owner_behind files r rs u (omega (arith, h.1, Laid-le files bps r.sectend rs s' h.5))
    ∙ owner-none files bps r.sectend rs s' u h.5 k

pub record FoundAt (files : ℕ → VdfFile) (bps : ℕ) (rs : List FileRange) (s' sector : ℕ)
    (res : Result (Option ℕ)) : Type 0 where
  pub file : ℕ
  pub found : res ≡ ok (some file)
  pub from : (files file).startsect ≤ sector
  pub to : sector < (files file).endsect
  pub inside : (files file).endsect ≤ s'
  pub fits : (files file).size ≤ ((files file).endsect - (files file).startsect) * bps
  pub small : ((files file).endsect - (files file).startsect) * bps ≤ 2 ^ 32
  pub same : (u : ℕ) → sector ≤ u → u < (files file).endsect → owner files rs u ≡ some file

pub find_sector-FoundAt :
    (files : ℕ → VdfFile) (bps s : ℕ) (rs : List FileRange) (s' sector n : ℕ)
    → n ≡ length rs
    → Laid files bps s rs s'
    → s ≤ sector
    → sector < s'
    → FoundAt files bps rs s' sector (find_sector rs n sector)
unfolding find_sector
find_sector-FoundAt files bps s [] s' sector n l h a b = absurd (omega arith)
find_sector-FoundAt files bps s (r ∷ rs) s' sector zero l h a b = absurd (omega arith)
find_sector-FoundAt files bps s (r ∷ rs) s' sector (suc n) l (st, en, lt, fit, sm, rest) a b =
    elim (Bool-cases (ltb sector r.sectend)) [
      | inl here ↦ record {
        file = r.file;
        found = rw here;
        from = omega arith;
        to = omega (arith, ltb→lt _ _ here);
        inside = omega (arith, Laid-le files bps r.sectend rs s' rest);
        fits = rw (st, en) fit;
        small = rw (st, en) sm;
        same = λ u x y. owner_here files r rs u (omega arith) y;
      }
      | inr later ↦
          let past = ltb→le _ _ later in
          let f =
            find_sector-FoundAt files bps r.sectend rs s' sector n (omega arith) rest past b in
          record {
            file = f.file;
            found = rw later f.found;
            from = f.from;
            to = f.to;
            inside = f.inside;
            fits = f.fits;
            small = f.small;
            same = λ u x y. owner_behind files r rs u (omega arith) ∙ f.same u x y;
          }
    ]
