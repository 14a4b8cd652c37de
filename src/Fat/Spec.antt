-- ===== src/Fat/Spec.antt =====
-- What a FAT should hold, described with no regard to the loop that writes it: each cluster of a file
-- points to the next one, the last is marked, and a free cluster is 0.
use vdf.Prelude.{
  ℕ, zero, suc, ◌+◌, ◌*◌, ◌≤◌, ◌<◌, ◌^◌, ◌≡◌, refl, sym, ap, List, [], ◌∷◌, ◌++◌, arith, ltb,
  if◌then◌else◌, length, drop, get_elem?, some, replicate, replicate-add,
}
use vdf.Drive.{FileRange}
use vdf.Recalc.Chain.{Chain}

abbrev pub entry : ℕ → List FileRange → ℕ → ℕ
entry eoc [] e = 0
entry eoc (r ∷ rs) e =
    if ltb e r.fatend then if ltb (e + 1) r.fatend then e + 1 else eoc else entry eoc rs e

-- The bytes of `n` entries from `e` on.
abbrev pub table : (ℕ → List ℕ) → ℕ → List FileRange → ℕ → ℕ → List ℕ
table le eoc rs e zero = []
table le eoc rs e (suc n) = le (entry eoc rs e) ++ table le eoc rs (e + 1) n

-- The ends of the ranges rise from `c` on, and no entry number wraps.
abbrev pub Rising : ℕ → List FileRange → Type 0
Rising c [] = c + 1 < 2 ^ 32
Rising c (r ∷ rs) = (c < r.fatend) × Rising r.fatend rs

pub Rising-lt : (rs : List FileRange) (c : ℕ) → Rising c rs → c + 1 < 2 ^ 32
Rising-lt [] c h = h
Rising-lt (r ∷ rs) c h = omega (arith, Rising-lt rs r.fatend h.1)

pub Chain-Rising :
    (rs : List FileRange) (spc c s c' s' : ℕ)
    → Chain spc c s rs c' s'
    → c' + 1 < 2 ^ 32
    → Rising c rs
Chain-Rising [] spc c s c' s' h k = omega arith
Chain-Rising (r ∷ rs) spc c s c' s' h k = (h.1, Chain-Rising rs spc r.fatend r.sectend c' s' h.4 k)

pub table_skip :
    (le : ℕ → List ℕ) (eoc : ℕ) (r : FileRange) (rs : List FileRange) (e n : ℕ)
    → r.fatend ≤ e
    → table le eoc (r ∷ rs) e n ≡ table le eoc rs e n
table_skip le eoc r rs e zero h = refl
table_skip le eoc r rs e (suc n) h = ground (arith, table_skip le eoc r rs (e + 1) n)

-- Behind the last range all is free.
pub table_free :
    (le : ℕ → List ℕ) (w eoc e n k : ℕ)
    → le 0 ≡ replicate w 0
    → k ≡ n * w
    → table le eoc [] e n ≡ replicate k 0
table_free le w eoc e zero zero h k = refl
table_free le w eoc e zero (suc m) h k = absurd (omega arith)
table_free le w eoc e (suc n) k h q =
    rw (h, table_free le w eoc (e + 1) n (n * w) h refl)
      (sym (replicate-add w (n * w) k 0 (omega arith)))

pub drop-suc :
    {A : Type 0} (xs : List A) (i : ℕ) {x : A} {ys : List A}
    → drop i xs ≡ x ∷ ys
    → (drop (i + 1) xs ≡ ys) × (length xs ≡ i + suc (length ys)) × (get_elem? xs i ≡ some x)
drop-suc [] zero h = cc
drop-suc [] (suc i) h = cc
drop-suc (y ∷ xs) zero h = (ground arith, omega (arith, ap length h), cc)
drop-suc (y ∷ xs) (suc i) h =
    let (d, l, g) = drop-suc xs i h in
    let e : suc i + 1 ≡ suc (i + 1) = omega arith in (rw e d, omega arith, g)
