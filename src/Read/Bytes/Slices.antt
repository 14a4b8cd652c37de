-- ===== src/Read/Bytes/Slices.antt =====
-- Slices of a list of bytes.
use vdf.Prelude.{
  ℕ, zero, suc, ◌+◌, ◌-◌, ◌≤◌, ◌≡◌, refl, ap, ◌∙◌, List, [], ◌∷◌, ◌++◌, arith, length, length-take,
  length-drop, take, drop, drop-drop, drop-take, take-take,
}

-- `n` bytes from `a` on.
abbrev pub slice : List ℕ → ℕ → ℕ → List ℕ
slice bytes a n = take n (drop a bytes)

pub length-slice : (bytes : List ℕ) (a n : ℕ) → a + n ≤ length bytes → length (slice bytes a n) ≡ n
length-slice bytes a n h = omega (arith, length-take n (drop a bytes), length-drop a bytes)

take_add :
    (m n k : ℕ) (bytes : List ℕ) → k ≡ m + n → take k bytes ≡ take m bytes ++ take n (drop m bytes)
take_add zero n k bytes h = let e : k ≡ n = omega arith in rw e
take_add (suc m) zero zero [] h = refl
take_add (suc m) (suc n) zero [] h = refl
take_add (suc m) zero (suc k) [] h = refl
take_add (suc m) (suc n) (suc k) [] h = refl
take_add (suc m) n zero (b ∷ bytes) h = absurd (omega arith)
take_add (suc m) n (suc k) (b ∷ bytes) h = ap (λ r. b ∷ r) (take_add m n k bytes (omega arith))

pub slice_add :
    (bytes : List ℕ) (a m n k a' : ℕ)
    → k ≡ m + n
    → a' ≡ a + m
    → slice bytes a k ≡ slice bytes a m ++ slice bytes a' n
slice_add bytes a m n k a' h e =
    take_add m n k (drop a bytes) h
    ∙ ap (λ r. slice bytes a m ++ take n r) (drop-drop a m a' bytes e)

-- A slice of a slice.
pub slice-slice :
    (bytes : List ℕ) (a n d w a' : ℕ)
    → d + w ≤ n
    → a' ≡ a + d
    → slice (slice bytes a n) d w ≡ slice bytes a' w
slice-slice bytes a n d w a' h e =
    ap (take w) (drop-take d n (n - d) (drop a bytes) refl (omega arith))
    ∙ take-take w (n - d) (drop d (drop a bytes)) (omega arith)
    ∙ ap (take w) (drop-drop a d a' bytes e)

-- The start of a slice, with anything behind it.
pub take-slice :
    (bytes rest : List ℕ) (a n w : ℕ)
    → w ≤ n
    → a + n ≤ length bytes
    → take w (slice bytes a n ++ rest) ≡ slice bytes a w
take-slice bytes rest a n w h k =
    take_within w (slice bytes a n) rest (omega (arith, length-slice bytes a n k))
    ∙ take-take w n (drop a bytes) h
  where
    take_within : (w : ℕ) (xs ys : List ℕ) → w ≤ length xs → take w (xs ++ ys) ≡ take w xs
    take_within zero xs ys h = refl
    take_within (suc w) [] ys h = absurd (omega arith)
    take_within (suc w) (x ∷ xs) ys h = ap (λ r. x ∷ r) (take_within w xs ys (omega arith))
