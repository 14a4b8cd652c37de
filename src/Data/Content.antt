-- ===== src/Data/Content.antt =====
-- The bytes of the data area: each file in its sectors, filled up with zeros.
use vdf.Prelude.{
  ℕ, zero, suc, ◌+◌, ◌-◌, ◌*◌, ◌≤◌, ◌≡◌, refl, sym, ap, ◌∙◌, min, List, [], ◌∷◌, ◌++◌, drop-drop,
  Option, none, some, arith, ltb, leb, ◌&&◌, if◌then◌else◌, length, take, drop, replicate,
}
use vdf.Drive.{VdfDrive, VdfFile, FileRange, file_is_dir}
use vdf.Fat.{ranges}
use vdf.Read.Image.{image}

-- The first `n` bytes, with zeros behind the last.
abbrev pub pad : ℕ → List ℕ → List ℕ
pad zero bytes = []
pad (suc n) [] = 0 ∷ pad n []
pad (suc n) (b ∷ bytes) = b ∷ pad n bytes

-- The file that has a sector.
abbrev pub owner : (ℕ → VdfFile) → List FileRange → ℕ → Option ℕ
owner files [] s = none
owner files (r ∷ rs) s =
    if leb (files r.file).startsect s && ltb s (files r.file).endsect
    then some r.file
    else owner files rs s

-- `content` has the bytes of the files, `dir_bytes` the sectors of the directories.
module _ (drv : VdfDrive) (content : ℕ → List ℕ) (dir_bytes : ℕ → ℕ → List ℕ) where
  -- A sector of a file, counted from its first.
  abbrev pub file_sector : ℕ → ℕ → List ℕ
  file_sector i k =
      if file_is_dir drv i
      then dir_bytes i k
      else pad drv.bps (drop (k * drv.bps) (take (drv.files i).size (content i)))

  abbrev pub data_bytes : ℕ → List ℕ
  data_bytes s = elim (owner drv.files (ranges drv) s) [
    | none ↦ replicate drv.bps 0
    | some i ↦ file_sector i (s - (drv.files i).startsect)
  ]

pub pad-nil : (n : ℕ) → pad n [] ≡ replicate n 0
pad-nil zero = refl
pad-nil (suc n) = ap (λ r. 0 ∷ r) (pad-nil n)

pub length-pad : (n : ℕ) (bytes : List ℕ) → length (pad n bytes) ≡ n
length-pad zero bytes = refl
length-pad (suc n) [] = ap suc (length-pad n [])
length-pad (suc n) (b ∷ bytes) = ap suc (length-pad n bytes)

pub pad_add :
    (m n k : ℕ) (bytes : List ℕ) → k ≡ m + n → pad k bytes ≡ pad m bytes ++ pad n (drop m bytes)
pad_add zero n k bytes h = let e : k ≡ n = omega arith in rw e
pad_add (suc m) n zero bytes h = absurd (omega arith)
pad_add (suc m) zero (suc k) [] h = ap (λ r. 0 ∷ r) (pad_add m 0 k [] (omega arith) ∙ again m)
  where
    again : (m : ℕ) → pad m [] ++ pad 0 (drop m []) ≡ pad m [] ++ []
    again m = refl
pad_add (suc m) (suc n) (suc k) [] h =
    ap (λ r. 0 ∷ r) (pad_add m (suc n) k [] (omega arith) ∙ ap (λ r. pad m [] ++ r) (again m))
  where
    again : (m : ℕ) → pad (suc n) (drop m []) ≡ pad (suc n) []
    again zero = refl
    again (suc m) = refl
pad_add (suc m) n (suc k) (b ∷ bytes) h = ap (λ r. b ∷ r) (pad_add m n k bytes (omega arith))

-- Bytes that fit are written, and zeros behind them.
pub pad-append :
    (k : ℕ) (bytes : List ℕ)
    → length bytes ≤ k
    → pad k bytes ≡ bytes ++ replicate (k - length bytes) 0
pad-append k [] h = let e : k - 0 ≡ k = omega arith in rw e (pad-nil k)
pad-append zero (b ∷ bytes) h = absurd (omega arith)
pad-append (suc k) (b ∷ bytes) h =
    let e : suc k - suc (length bytes) ≡ k - length bytes = omega arith in
    rw e (ap (λ r. b ∷ r) (pad-append k bytes (omega arith)))

-- With `want` bytes of them, for as many as are there or as fit.
pub pad-take :
    (k want : ℕ) (bytes : List ℕ)
    → min k (length bytes) ≤ want
    → pad k bytes ≡ pad k (take want bytes)
pad-take zero want bytes h = refl
pad-take (suc k) zero [] h = refl
pad-take (suc k) (suc want) [] h = refl
pad-take (suc k) zero (b ∷ bytes) h = absurd (omega arith)
pad-take (suc k) (suc want) (b ∷ bytes) h = ap (λ r. b ∷ r) (pad-take k want bytes (omega arith))

-- The sectors of a file are its bytes, cut up.
pub image-pad :
    (bps start n s k a : ℕ) (bytes : List ℕ)
    → start ≤ s
    → k ≡ n * bps
    → a ≡ (s - start) * bps
    → image (λ t. pad bps (drop ((t - start) * bps) bytes)) s n ≡ pad k (drop a bytes)
image-pad bps start zero s zero a bytes h e f = refl
image-pad bps start zero s (suc k) a bytes h e f = absurd (omega arith)
image-pad bps start (suc n) s k a bytes h e f =
    let step : (s + 1 - start) * bps ≡ a + bps =
      shift (s - start) (s + 1 - start) (omega arith) f in
    rw (sym f) (
      ap (λ r. pad bps (drop a bytes) ++ r)
        (image-pad bps start n (s + 1) (n * bps) (a + bps) bytes (omega arith) refl (sym step)
          ∙ ap (pad (n * bps)) (sym (drop-drop a bps (a + bps) bytes refl)))
      ∙ sym (pad_add bps (n * bps) k (drop a bytes) (omega arith)))
  where
    shift : (x y : ℕ) → y ≡ x + 1 → a ≡ x * bps → y * bps ≡ a + bps
    shift x y g f' = rw g (omega arith)
