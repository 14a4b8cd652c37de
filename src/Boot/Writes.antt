-- ===== src/Boot/Writes.antt =====
-- What a list of writes leaves in the buffer.
use vdf.Prelude.{
  ℕ, zero, suc, ◌+◌, ◌-◌, ◌≤◌, ◌≡◌, refl, sym, ap, ap₂, take-append-drop, ◌∙◌, ◌⊎◌, inl, inr, Bool,
  true, false, Bool-cases, Option-cases, ◌&&◌, ◌||◌, List, [], ◌∷◌, ◌++◌, Option, none, some, ok,
  bind-eq-ok, arith, leb, ◌==◌, if◌then◌else◌, length, length-append, length-take, length-drop,
  take, drop, take-append, drop-append, drop-drop, leb→le, le→leb, ==→eq,
}
use vdf.Boot.{put, puts}
use vdf.Read.Bytes.Slices.{slice, slice_add}

-- No write meets the `n` bytes from `a` on.
abbrev pub apart : ℕ → ℕ → List (ℕ × List ℕ) → Bool
apart a n [] = true
apart a n (w ∷ ws) = (leb (a + n) w.0 || leb (w.0 + length w.1) a) && apart a n ws

-- The last write that gives exactly these bytes, with none behind it that meets them.
abbrev pub field : List (ℕ × List ℕ) → ℕ → ℕ → Option (List ℕ)
field [] a n = none
field (w ∷ ws) a n = elim (field ws a n) [
  | some bytes ↦ some bytes
  | none ↦ if (w.0 == a) && ((length w.1 == n) && apart a n ws) then some w.1 else none
]

-- The writes stay within `n` bytes.
abbrev pub fits : ℕ → List (ℕ × List ℕ) → Bool
fits n [] = true
fits n (w ∷ ws) = leb (w.0 + length w.1) n && fits n ws

and_left : (a b : Bool) → (a && b) ≡ true → a ≡ true
and_left true b h = refl
and_left false b h = h

and_right : (a b : Bool) → (a && b) ≡ true → b ≡ true
and_right true b h = h
and_right false b h = cc

or-cases : (a b : Bool) → (a || b) ≡ true → (a ≡ true) ⊎ (b ≡ true)
or-cases true b h = inl refl
or-cases false b h = inr h

put-eq :
    (off : ℕ) (bytes buf out : List ℕ)
    → put (off, bytes) buf ≡ ok out
    → (off + length bytes ≤ length buf)
      × (out ≡ take off buf ++ (bytes ++ drop (off + length bytes) buf))
put-eq off bytes buf out h = elim (Bool-cases (leb (off + length bytes) (length buf))) [
  | inl room ↦ (leb→le _ _ room, ground arith)
  | inr short ↦ absurd (ground arith)
]

-- A write keeps what it does not meet.
before_write :
    (a n off : ℕ) (buf rest : List ℕ)
    → a + n ≤ off
    → off ≤ length buf
    → slice (take off buf ++ rest) a n ≡ slice buf a n
before_write a zero off buf rest h k = refl
before_write a (suc n) zero buf rest h k = absurd (omega arith)
before_write a (suc n) (suc off) [] rest h k = absurd (omega arith)
before_write (suc a) (suc n) (suc off) (b ∷ buf) rest h k =
    before_write a (suc n) off buf rest (omega arith) (omega arith)
before_write zero (suc n) (suc off) (b ∷ buf) rest h k =
    ap (λ r. b ∷ r) (before_write zero n off buf rest (omega arith) (omega arith))

behind_write :
    (a n off e : ℕ) (bytes buf : List ℕ)
    → e ≡ off + length bytes
    → e ≤ a
    → e ≤ length buf
    → slice (take off buf ++ (bytes ++ drop e buf)) a n ≡ slice buf a n
behind_write a n off e bytes buf e_eq h k = ap (take n) (
    ap (λ d. drop d (take off buf ++ (bytes ++ drop e buf))) (shift (omega arith))
    ∙ sym (
        drop-drop off (length bytes + (a - e)) (off + (length bytes + (a - e)))
          (take off buf ++ (bytes ++ drop e buf)) refl)
    ∙ ap (drop (length bytes + (a - e)))
        (drop-append (take off buf) (bytes ++ drop e buf) off (omega (arith, length-take off buf)))
    ∙ sym (drop-drop (length bytes) (a - e) (length bytes + (a - e)) (bytes ++ drop e buf) refl)
    ∙ ap (drop (a - e)) (drop-append bytes (drop e buf) (length bytes) refl)
    ∙ drop-drop e (a - e) a buf (omega arith))
  where
    shift : a ≡ off + (length bytes + (a - e)) → a ≡ off + (length bytes + (a - e))
    shift h = h

at_write :
    (off : ℕ) (bytes rest buf : List ℕ)
    → off ≤ length buf
    → slice (take off buf ++ (bytes ++ rest)) off (length bytes) ≡ bytes
at_write off bytes rest buf h =
    ap (take (length bytes))
      (drop-append (take off buf) (bytes ++ rest) off (omega (arith, length-take off buf)))
    ∙ take-append bytes rest (length bytes) refl

put-apart :
    (a n off : ℕ) (bytes buf out : List ℕ)
    → put (off, bytes) buf ≡ ok out
    → (leb (a + n) off || leb (off + length bytes) a) ≡ true
    → slice out a n ≡ slice buf a n
put-apart a n off bytes buf out h k =
    let (room, e) = put-eq off bytes buf out h in
    rw e (elim (or-cases (leb (a + n) off) (leb (off + length bytes) a) k) [
      | inl front ↦
          before_write a n off buf (bytes ++ drop (off + length bytes) buf)
            (leb→le (a + n) off front) (omega arith)
      | inr back ↦
          behind_write a n off (off + length bytes) bytes buf refl
            (leb→le (off + length bytes) a back) room
    ])

puts-apart :
    (ws : List (ℕ × List ℕ)) (a n : ℕ) (buf out : List ℕ)
    → puts ws buf ≡ ok out
    → apart a n ws ≡ true
    → slice out a n ≡ slice buf a n
unfolding puts
puts-apart [] a n buf out h k = cc
puts-apart ((off, bytes) ∷ ws) a n buf out h k =
    let (mid, first, rest) = bind-eq-ok (put (off, bytes) buf) (puts ws) h in
    puts-apart ws a n mid out rest (and_right _ (apart a n ws) k)
    ∙ put-apart a n off bytes buf mid first (and_left _ (apart a n ws) k)

put_here :
    (off : ℕ) (bytes buf out : List ℕ)
    → put (off, bytes) buf ≡ ok out
    → slice out off (length bytes) ≡ bytes
put_here off bytes buf out h =
    let (room, e) = put-eq off bytes buf out h in
    rw e (at_write off bytes (drop (off + length bytes) buf) buf (omega arith))

field_here :
    (off a n : ℕ) (bs bytes : List ℕ) (free : Bool) (mid out : List ℕ)
    → slice mid off (length bs) ≡ bs
    → (free ≡ true → slice out a n ≡ slice mid a n)
    → (if (off == a) && ((length bs == n) && free) then some bs else none) ≡ some bytes
    → slice out a n ≡ bytes
field_here off a n bs bytes free mid out written kept k =
    elim (Bool-cases ((off == a) && ((length bs == n) && free))) [
      | inr other ↦ absurd (apart_options (rw other at k))
      | inl here ↦
          let len_free = and_right (off == a) ((length bs == n) && free) here in
          let at : off ≡ a = ==→eq off a (and_left (off == a) ((length bs == n) && free) here) in
          let len : length bs ≡ n = ==→eq (length bs) n (and_left (length bs == n) free len_free) in
          let same : bs ≡ bytes = some_inj (rw here at k) in
          kept (and_right (length bs == n) free len_free) ∙ (rw (at, len) at written) ∙ same
    ]
  where
    apart_options : none ≡ some bytes → ⊥
    apart_options h = cc

    some_inj : some bs ≡ some bytes → bs ≡ bytes
    some_inj h = cc

-- The last write of a field stays.
pub puts-field :
    (ws : List (ℕ × List ℕ)) (a n : ℕ) (buf out bytes : List ℕ)
    → puts ws buf ≡ ok out
    → field ws a n ≡ some bytes
    → slice out a n ≡ bytes
unfolding puts
puts-field [] a n buf out bytes h k = cc
puts-field ((off, bs) ∷ ws) a n buf out bytes h k =
    let (mid, first, rest) = bind-eq-ok (put (off, bs) buf) (puts ws) h in
    elim (Option-cases (field ws a n)) [
      | inr (later, e) ↦ puts-field ws a n mid out bytes rest (e ∙ rw e at k)
      | inl none_later ↦
          field_here off a n bs bytes (apart a n ws) mid out (put_here off bs buf mid first)
            (λ p. puts-apart ws a n mid out rest p) (rw none_later at k)
    ]

-- Writes that stay within the buffer are made.
pub puts_within :
    (n : ℕ) (ws : List (ℕ × List ℕ)) (buf : List ℕ)
    → fits n ws ≡ true
    → n ≤ length buf
    → (out : List ℕ) × (puts ws buf ≡ ok out) × (length out ≡ length buf)
unfolding puts
puts_within n [] buf h k = (buf, refl, refl)
puts_within n ((off, bytes) ∷ ws) buf h k =
    let inside =
      leb→le (off + length bytes) n (and_left (leb (off + length bytes) n) (fits n ws) h) in
    let mid = take off buf ++ (bytes ++ drop (off + length bytes) buf) in
    let len : length mid ≡ length buf = omega (
      arith,
      length-append (take off buf) (bytes ++ drop (off + length bytes) buf),
      length-append bytes (drop (off + length bytes) buf),
      length-take off buf,
      length-drop (off + length bytes) buf,
    ) in
    let (out, done, same) =
      puts_within n ws mid (and_right (leb (off + length bytes) n) (fits n ws) h) (omega arith) in
    (out, rw (puts, le→leb (off + length bytes) (length buf) (omega arith)) done, same ∙ len)

pub fits-append :
    (n : ℕ) (vs ws : List (ℕ × List ℕ))
    → fits n vs ≡ true
    → fits n ws ≡ true
    → fits n (vs ++ ws) ≡ true
fits-append n [] ws h k = k
fits-append n (v ∷ vs) ws h k =
    rw (and_left (leb (v.0 + length v.1) n) (fits n vs) h)
      (fits-append n vs ws (and_right (leb (v.0 + length v.1) n) (fits n vs) h) k)

-- Parts that lie one behind the other from `a` on, each of them written.
abbrev pub LaidOut : List (ℕ × List ℕ) → ℕ → List (List ℕ) → Type 0
LaidOut ws a [] = Unit {0}
LaidOut ws a (p ∷ ps) = (field ws a (length p) ≡ some p) × LaidOut ws (a + length p) ps

abbrev pub concat : List (List ℕ) → List ℕ
concat [] = []
concat (p ∷ ps) = p ++ concat ps

slice-LaidOut :
    (ws : List (ℕ × List ℕ)) (ps : List (List ℕ)) (a n : ℕ) (buf out : List ℕ)
    → puts ws buf ≡ ok out
    → LaidOut ws a ps
    → n ≡ length (concat ps)
    → slice out a n ≡ concat ps
slice-LaidOut ws [] a n buf out h k e = rw e refl
slice-LaidOut ws (p ∷ ps) a n buf out h (first, k) e =
    slice_add out a (length p) (length (concat ps)) n (a + length p)
      (omega (arith, length-append p (concat ps))) refl
    ∙ ap₂ (λ x y. x ++ y) (puts-field ws a (length p) buf out p h first)
        (slice-LaidOut ws ps (a + length p) (length (concat ps)) buf out h k refl)

behind_all : (n k : ℕ) (ws : List (ℕ × List ℕ)) → fits n ws ≡ true → apart n k ws ≡ true
behind_all n k [] h = refl
behind_all n k (w ∷ ws) h =
    let first = and_left (leb (w.0 + length w.1) n) (fits n ws) h in
    rw (first, behind_all n k ws (and_right (leb (w.0 + length w.1) n) (fits n ws) h))
      (or_true (leb (n + k) w.0))
  where
    or_true : (b : Bool) → ((b || true) && true) ≡ true
    or_true true = refl
    or_true false = refl

take_all : (n : ℕ) (xs : List ℕ) → length xs ≤ n → take n xs ≡ xs
take_all zero [] h = refl
take_all (suc n) [] h = refl
take_all zero (x ∷ xs) h = absurd (omega arith)
take_all (suc n) (x ∷ xs) h = ap (λ r. x ∷ r) (take_all n xs (omega arith))

-- Writes that give every byte of the first `n` make them what they are, whatever was there.
pub puts-LaidOut :
    (ws : List (ℕ × List ℕ)) (ps : List (List ℕ)) (n : ℕ) (buf : List ℕ)
    → fits n ws ≡ true
    → LaidOut ws 0 ps
    → n ≡ length (concat ps)
    → n ≤ length buf
    → puts ws buf ≡ ok (concat ps ++ drop n buf)
puts-LaidOut ws ps n buf within laid e room =
    let (out, done, len) = puts_within n ws buf within room in
    let k = length buf in
    let rest : drop n out ≡ drop n buf =
      sym (take_all k (drop n out) (omega (arith, length-drop n out)))
      ∙ puts-apart ws n k buf out done (behind_all n k ws within)
      ∙ take_all k (drop n buf) (omega (arith, length-drop n buf)) in
    done
    ∙ ap (λ t. ok t)
        (sym (take-append-drop n out)
          ∙ ap₂ (λ x y. x ++ y) (slice-LaidOut ws ps 0 n buf out done laid e) rest)
