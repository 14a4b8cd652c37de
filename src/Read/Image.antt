-- ===== src/Read/Image.antt =====
-- The image as a function from sectors to bytes, and what it is to read it rightly.
use vdf.Prelude.{
  ℕ, zero, suc, ◌+◌, ◌-◌, ◌*◌, ◌≤◌, ◌<◌, ◌^◌, ◌≡◌, refl, sym, ap, ◌∙◌, min, inl, inr, true, false,
  Bool-cases, List, [], ◌++◌, append_assoc, ok, map_ok, ltb, leb, ◌==◌, arith, u32, length,
  length-append, length-drop, drop, take-append, drop-append, drop-drop, leb→le, leb→lt, ltb→lt,
  ltb→le, lt→ltb, le→ltb,
}
use mathlib.Core.Path.{subst}
use vdf.Read.{Reader, Rest, area, want_for}

-- The bytes of `n` sectors from `s` on.
abbrev pub image : (ℕ → List ℕ) → ℕ → ℕ → List ℕ
image sector_bytes s zero = []
image sector_bytes s (suc n) = sector_bytes s ++ image sector_bytes (s + 1) n

room_left : (a b rem bps len : ℕ) → rem ≡ a + b → rem * bps ≤ len → b * bps ≤ len - a * bps
room_left a b rem bps len e h = grind arith

pub image_add :
    (sector_bytes : ℕ → List ℕ) (a b k s s' : ℕ)
    → k ≡ a + b
    → s' ≡ s + a
    → image sector_bytes s k ≡ image sector_bytes s a ++ image sector_bytes s' b
image_add sector_bytes zero b k s s' e f =
    let e' : k ≡ b = omega arith in let f' : s' ≡ s = omega arith in rw (e', f')
image_add sector_bytes (suc a) b zero s s' e f = absurd (omega arith)
image_add sector_bytes (suc a) b (suc k) s s' e f =
    rw (image_add sector_bytes a b k (s + 1) s' (omega arith) (omega arith))
      (sym (append_assoc (sector_bytes s) (image sector_bytes (s + 1) a) (image sector_bytes s' b)))

-- `bps` bytes to a sector, and `total` sectors.
module _ (bps total : ℕ) (sector_bytes : ℕ → List ℕ) where
  -- The reader fills any sectors, one at least, from `lo` to `hi`, of less than 2 ^ 31 bytes, and leaves the buffer behind them alone.
  abbrev pub IsReader : ℕ → ℕ → Reader → Type 0
  IsReader lo hi reader =
      (s n : ℕ) (buf : List ℕ)
      → 1 ≤ n
      → lo ≤ s
      → s + n ≤ hi
      → n * bps < 2 ^ 31
      → n * bps ≤ length buf
      → reader s n buf ≡ ok (image sector_bytes s n ++ drop (n * bps) buf)

  -- From any sector behind `lo`, as many sectors as are asked for are read, or as many as there are.
  abbrev pub IsRest : ℕ → Rest → Type 0
  IsRest lo rest =
      (s rem cnt : ℕ) (buf : List ℕ)
      → lo ≤ s
      → s ≤ total
      → 1 ≤ rem
      → cnt + rem < 2 ^ 32
      → rem * bps < 2 ^ 31
      → rem * bps ≤ length buf
      → rest s rem cnt buf
        ≡ ok (
          cnt + min rem (total - s),
          image sector_bytes s (min rem (total - s)) ++ drop (min rem (total - s) * bps) buf,
        )

  module _ (width : (s : ℕ) → length (sector_bytes s) ≡ bps) where
    pub length-image : (n s k : ℕ) → k ≡ n * bps → length (image sector_bytes s n) ≡ k
    length-image zero s k e = omega arith
    length-image (suc n) s k e = omega (
      arith,
      width s,
      length-image n (s + 1) (n * bps) refl,
      length-append (sector_bytes s) (image sector_bytes (s + 1) n),
    )

    area_inside :
        (limit s rem cnt : ℕ) (buf : List ℕ) (reader : Reader) (rest : Rest)
        → s < limit
        → limit < 2 ^ 32
        → s + rem ≤ limit
        → cnt + rem < 2 ^ 32
        → reader s rem buf ≡ ok (image sector_bytes s rem ++ drop (rem * bps) buf)
        → area bps limit reader rest s rem cnt buf
          ≡ ok (cnt + rem, image sector_bytes s rem ++ drop (rem * bps) buf)
    unfolding area
    area_inside limit s rem cnt buf reader rest h top le small e =
        let want : want_for limit s rem ≡ rem = ground arith in
        let done : (rem - rem == 0) ≡ true = ground arith in
        let sum : u32 (cnt + rem) ≡ cnt + rem = omega arith in
        rw (lt→ltb s limit h, area, want, e, done, sum)

    area_across :
        (limit s rem cnt : ℕ) (buf : List ℕ) (reader : Reader) (rest : Rest)
        → s < limit
        → limit < 2 ^ 32
        → limit < s + rem
        → cnt + rem < 2 ^ 32
        → reader s (limit - s) buf
          ≡ ok (image sector_bytes s (limit - s) ++ drop ((limit - s) * bps) buf)
        → area bps limit reader rest s rem cnt buf
          ≡ map_ok
              (λ r. (r.0, image sector_bytes s (limit - s) ++ r.1))
              (rest limit (rem - (limit - s)) (cnt + (limit - s)) (drop ((limit - s) * bps) buf))
    unfolding area
    area_across limit s rem cnt buf reader rest h top gt small e =
        let want : want_for limit s rem ≡ limit - s = ground arith in
        let more : (rem - (limit - s) == 0) ≡ false = ground arith in
        let sum : u32 (cnt + (limit - s)) ≡ cnt + (limit - s) = omega arith in
        let next : u32 (s + (limit - s)) ≡ limit = omega arith in
        let len = length-image (limit - s) s ((limit - s) * bps) refl in
        rw (
          lt→ltb s limit h,
          area,
          want,
          e,
          more,
          sum,
          next,
          take-append (image sector_bytes s (limit - s)) (drop ((limit - s) * bps) buf)
              ((limit - s) * bps) (sym len),
          drop-append (image sector_bytes s (limit - s)) (drop ((limit - s) * bps) buf)
              ((limit - s) * bps) (sym len),
        )

    pub area_behind :
        (limit s rem cnt : ℕ) (buf : List ℕ) (reader : Reader) (rest : Rest)
        → limit ≤ s
        → area bps limit reader rest s rem cnt buf ≡ rest s rem cnt buf
    unfolding area
    area_behind limit s rem cnt buf reader rest h = rw (le→ltb s limit h, area)

    -- Two parts of a read, put together.
    join :
        (a b m s s' cnt cnt' : ℕ) (buf : List ℕ)
        → m ≡ a + b
        → s' ≡ s + a
        → cnt' + b ≡ cnt + m
        → map_ok {Out = ℕ × List ℕ}
            (λ (r : ℕ × List ℕ). (r.0, image sector_bytes s a ++ r.1))
            (ok (cnt' + b, image sector_bytes s' b ++ drop (b * bps) (drop (a * bps) buf)))
          ≡ ok (cnt + m, image sector_bytes s m ++ drop (m * bps) buf)
    join a b m s s' cnt cnt' buf e f g =
        rw
          (
            g,
            drop-drop (a * bps) (b * bps) (m * bps) buf (grind arith),
            image_add sector_bytes a b m s s' e f,
          )
          (ap (λ t. ok (cnt + m, t))
            (sym (
              append_assoc (image sector_bytes s a) (image sector_bytes s' b)
                (drop (m * bps) buf))))

    fewer : (a b len : ℕ) → a ≤ b → b * bps ≤ len → a * bps ≤ len
    fewer a b len le h = grind arith

    fewer_lt : (a b top : ℕ) → a ≤ b → b * bps < top → a * bps < top
    fewer_lt a b top le h = grind arith

    -- An area in front of a rest that reads rightly.
    pub area-IsRest :
        (lo limit : ℕ) (reader : Reader) (rest : Rest)
        → limit ≤ total
        → total < 2 ^ 32
        → IsReader lo limit reader
        → IsRest limit rest
        → IsRest lo (area bps limit reader rest)
    area-IsRest lo limit reader rest lt top r k s rem cnt buf le in_drive some_left small bytes
          room =
        elim (Bool-cases (ltb s limit)) [
          | inr behind ↦
              area_behind limit s rem cnt buf reader rest (ltb→le _ _ behind)
              ∙ k s rem cnt buf (ltb→le _ _ behind) in_drive some_left small bytes room
          | inl before ↦ elim (Bool-cases (leb (s + rem) limit)) [
            | inl inside ↦
                let fits = leb→le _ _ inside in
                let m : min rem (total - s) ≡ rem = omega arith in
                rw m (
                  area_inside limit s rem cnt buf reader rest (ltb→lt _ _ before) (omega arith) fits
                    small (r s rem buf some_left le fits bytes room))
            | inr across ↦
                let past = leb→lt _ _ across in
                let a = limit - s in
                let start = ltb→lt _ _ before in
                let m : min rem (total - s) ≡ a + min (rem - a) (total - limit) = omega arith in
                let fit : a * bps ≤ length buf = fewer a rem (length buf) (omega arith) room in
                let few : a * bps < 2 ^ 31 = fewer_lt a rem (2 ^ 31) (omega arith) bytes in
                let few' : (rem - a) * bps < 2 ^ 31 =
                  fewer_lt (rem - a) rem (2 ^ 31) (omega arith) bytes in
                let fit' : (rem - a) * bps ≤ length (drop (a * bps) buf) =
                  subst (λ n. (rem - a) * bps ≤ n) (sym (length-drop (a * bps) buf))
                    (room_left a (rem - a) rem bps (length buf) (omega arith) room) in
                area_across limit s rem cnt buf reader rest start (omega arith) past small
                  (r s a buf (omega arith) le (omega arith) few fit)
                ∙ ap (map_ok (λ r. (r.0, image sector_bytes s a ++ r.1))) (
                    k limit (rem - a) (cnt + a) (drop (a * bps) buf) (omega arith) (omega arith)
                      (omega arith) (omega arith) few' fit')
                ∙ join a (min (rem - a) (total - limit)) (min rem (total - s)) s limit cnt (cnt + a)
                    buf m (omega arith) (omega arith)
          ]
        ]

  pub IsRest-none_read :
      (lo : ℕ) (rest : Rest)
      → IsRest lo rest
      → (s cnt : ℕ) (buf : List ℕ) → lo ≤ s
      → s ≤ total
      → 1 ≤ cnt
      → cnt < 2 ^ 32
      → cnt * bps < 2 ^ 31
      → cnt * bps ≤ length buf
      → rest s cnt 0 buf
        ≡ ok (
          min cnt (total - s),
          image sector_bytes s (min cnt (total - s)) ++ drop (min cnt (total - s) * bps) buf,
        )
  IsRest-none_read lo rest h s cnt buf le in_drive some small bytes room =
      h s cnt 0 buf le in_drive some (omega arith) bytes room
      ∙ ap
          (λ c.
            ok (
              c,
              image sector_bytes s (min cnt (total - s)) ++ drop (min cnt (total - s) * bps) buf,
            ))
          (omega arith)
