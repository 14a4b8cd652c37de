-- ===== src/Recalc/Order.antt =====
-- The order of cmp_filerange of libvdf/drive.c on the ranges of vdf_drive_recalc.
use vdf.Prelude.{ℕ, ◌+◌, ◌-◌, ◌*◌, ◌^◌, ◌≤◌, ◌<◌, ◌≡◌, refl, true, false, List, [], ◌∷◌, arith}
use vdf.Drive.{FileRange}
use vdf.Recalc.{cmp_filerange_le}
use vdf.Recalc.Chain.{Chain}

-- A range comes before others, and they do not come before it.
abbrev pub Before : FileRange → List FileRange → Type 0
Before r [] = Unit {0}
Before r (x ∷ xs) = (cmp_filerange_le r x ≡ true) × (cmp_filerange_le x r ≡ false) × Before r xs

-- Each range comes before all that follow it: this is the only order that a sort can give them.
abbrev pub Ordered : List FileRange → Type 0
Ordered [] = Unit {0}
Ordered (r ∷ rs) = Before r rs × Ordered rs

le_less :
    (r x : FileRange) (a b : ℕ)
    → r.sectstart ≡ a
    → x.sectstart ≡ b
    → a < b
    → b < 2 ^ 31
    → cmp_filerange_le r x ≡ true
le_less r x a b ra xb lt top = ground arith

not_le_more :
    (r x : FileRange) (a b : ℕ)
    → r.sectstart ≡ a
    → x.sectstart ≡ b
    → a < b
    → b < 2 ^ 31
    → cmp_filerange_le x r ≡ false
not_le_more r x a b ra xb lt top = ground arith

longer : (s n spc : ℕ) → 1 ≤ n → 1 ≤ spc → s < s + n * spc
longer s n spc h k = grind arith

Chain-grows : (rs : List FileRange) (spc c s c' s' : ℕ) → 1 ≤ spc → Chain spc c s rs c' s' → s ≤ s'
Chain-grows [] spc c s c' s' k h = omega (arith, h.1)
Chain-grows (r ∷ rs) spc c s c' s' k (at, some_clusters, start, end, h) = omega (
  arith,
  end,
  longer s (r.fatend - c) spc (omega arith) k,
  Chain-grows rs spc r.fatend r.sectend c' s' k h,
)

Chain-Before :
    (r : FileRange) (rs : List FileRange) (spc c s c' s' : ℕ)
    → 1 ≤ spc
    → Chain spc c s rs c' s'
    → r.sectstart < s
    → s' < 2 ^ 31
    → Before r rs
Chain-Before r [] spc c s c' s' k h lt top = tt
Chain-Before r (x ∷ xs) spc c s c' s' k (at, some_clusters, start, end, h) lt top =
    let grows = longer s (x.fatend - c) spc (omega arith) k in
    let le = Chain-grows xs spc x.fatend x.sectend c' s' k h in
    let low : s < 2 ^ 31 = omega (arith, grows, le, end) in
    (
      le_less r x r.sectstart s refl start lt low,
      not_le_more r x r.sectstart s refl start lt low,
      Chain-Before r xs spc x.fatend x.sectend c' s' k h (omega (arith, grows, end)) top,
    )

-- The ranges of a chain that ends below 2 ^ 31.
pub Chain-Ordered :
    (rs : List FileRange) (spc c s c' s' : ℕ)
    → 1 ≤ spc
    → Chain spc c s rs c' s'
    → s' < 2 ^ 31
    → Ordered rs
Chain-Ordered [] spc c s c' s' k h top = tt
Chain-Ordered (r ∷ rs) spc c s c' s' k (at, some_clusters, start, end, h) top = (
  Chain-Before r rs spc r.fatend r.sectend c' s' k h
      (omega (arith, start, end, longer s (r.fatend - c) spc (omega arith) k)) top,
  Chain-Ordered rs spc r.fatend r.sectend c' s' k h top,
)
