-- ===== src/Data/File.antt =====
-- The sectors of one file: what is there of its bytes, and zeros up to the end of the sectors.
use vdf.Prelude.{
  ℕ, ◌+◌, ◌-◌, ◌*◌, ◌≤◌, ◌<◌, ◌≡◌, refl, sym, ap, ◌∙◌, min, inl, inr, true, false, Bool-cases, List,
  ◌++◌, append_assoc, some, ok, ◌>>=◌, arith, ltb, leb, length, length-take, length-drop, take,
  drop, drop-drop, take-append, drop-append, append-nil, drop-take, take-take, drop_all, replicate,
  leb→le, leb→lt, le→leb, lt→leb, ltb→le,
}
use vdf.Drive.{VdfDrive, file_is_dir, file_is_virt}
use vdf.Fat.Loop.{memset_zero_lem}
use vdf.Data.{Sources, overwrite, pad_zero, receive, fetch, read_file}
use vdf.Data.Content.{pad, pad-nil, pad-append, pad-take}

-- Bytes read from `off` on: `want` of them, or as many as there are.
abbrev pub delivered : List ℕ → ℕ → ℕ → ℕ × List ℕ
delivered bytes off want = let got = take want (drop off bytes) in (length got, got)

-- The callback of a virtual file and the host file of another give the bytes of the file at the offset,
-- as long as its size is not passed.
pub record Delivers (drv : VdfDrive) (src : Sources) (content : ℕ → List ℕ) : Type 0 where
  pub virt :
      (i off want : ℕ)
      → file_is_virt drv i ≡ true
      → off + want ≤ (drv.files i).size
      → src.cback (drv.files i).cback i off want ≡ some (delivered (content i) off want)
  pub real :
      (i off want : ℕ)
      → file_is_virt drv i ≡ false
      → file_is_dir drv i ≡ false
      → off + want ≤ (drv.files i).size
      → (fd : ℕ) × (src.open_file (drv.files i).path ≡ some fd)
        × (src.read_at fd off want ≡ some (delivered (content i) off want))

-- Bytes put into the buffer, and zeros behind them.
overwrite-pad_zero :
    (bytes buf : List ℕ) (want k c : ℕ)
    → c ≡ min (length bytes) want
    → length bytes ≤ want
    → length bytes ≤ k
    → k ≤ length buf
    → (overwrite bytes buf >>= pad_zero c k) ≡ ok (k, pad k bytes ++ drop k buf)
overwrite-pad_zero bytes buf want k c e le fits room =
    let e' : c ≡ length bytes = omega arith in
    rw (le→leb (length bytes) (length buf) (omega arith), e', pad-append k bytes fits)
      (elim (Bool-cases (ltb (length bytes) k)) [
        | inl less ↦
            let tl = take-append bytes (drop (length bytes) buf) (length bytes) refl in
            let dl = drop-append bytes (drop (length bytes) buf) (length bytes) refl in
            let left : k - length bytes ≤ length (drop (length bytes) buf) =
              omega (arith, length-drop (length bytes) buf) in
            rw
              (
                pad_zero,
                less,
                tl,
                dl,
                memset_zero_lem (k - length bytes) (drop (length bytes) buf) left,
                drop-drop (length bytes) (k - length bytes) k buf (omega arith),
              )
              (ap (λ t. ok (k, t))
                (sym (append_assoc bytes (replicate (k - length bytes) 0) (drop k buf))))
        | inr full ↦
            let same : length bytes ≡ k = omega (arith, ltb→le _ _ full) in
            let nothing : k - k ≡ 0 = omega arith in
            rw (pad_zero, full, same, nothing, append-nil bytes)
      ])

module _ (drv : VdfDrive) (src : Sources) (content : ℕ → List ℕ)
    (delivers : Delivers drv src content) (i : ℕ) (plain : file_is_dir drv i ≡ false) where
  fetch-delivered :
      (off want : ℕ)
      → off + want ≤ (drv.files i).size
      → fetch drv src i off want ≡ some (delivered (content i) off want)
  unfolding fetch
  fetch-delivered off want h = elim (Bool-cases (file_is_virt drv i)) [
    | inl v ↦ rw (v, fetch) (delivers.virt i off want v h)
    | inr r ↦
        let (fd, opened, got) = delivers.real i off want r plain h in rw (r, fetch, opened) got
  ]

  none_left :
      (off k swant scnt : ℕ) (buf : List ℕ)
      → k ≡ swant * drv.bps
      → (drv.files i).size ≤ off
      → k ≤ length buf
      → read_file drv src i off swant scnt buf
        ≡ ok (k, pad k (drop off (take (drv.files i).size (content i))) ++ drop k buf)
  unfolding read_file
  none_left off k swant scnt buf e behind room =
      let short : length (take (drv.files i).size (content i)) ≤ off =
        omega (arith, length-take (drv.files i).size (content i)) in
      rw (
        read_file,
        le→leb (drv.files i).size off behind,
        sym e,
        memset_zero_lem k buf room,
        drop_all off (take (drv.files i).size (content i)) short,
        pad-nil k,
      )

  some_left :
      (off k swant scnt want : ℕ) (buf : List ℕ)
      → k ≡ swant * drv.bps
      → off < (drv.files i).size
      → want ≡ min ((drv.files i).size - off) (scnt * drv.bps)
      → want ≤ k
      → k ≤ scnt * drv.bps
      → k ≤ length buf
      → read_file drv src i off swant scnt buf
        ≡ ok (k, pad k (drop off (take (drv.files i).size (content i))) ++ drop k buf)
  unfolding read_file
  some_left off k swant scnt want buf e before w fits few room =
      let size = (drv.files i).size in
      let got = take want (drop off (content i)) in
      let len : length got ≤ want = omega (arith, length-take want (drop off (content i))) in
      let wrap : min (size - off) (scnt * drv.bps) ≡ want = sym w in
      let same : pad k (drop off (take size (content i))) ≡ pad k got =
        ap (pad k) (drop-take off size (size - off) (content i) refl (omega arith))
        ∙ pad-take k want (take (size - off) (drop off (content i)))
            (omega (arith, length-take (size - off) (drop off (content i))))
        ∙ ap (pad k) (take-take want (size - off) (drop off (content i)) (omega arith)) in
      let asked = fetch-delivered off want (omega arith) in
      rw (read_file, lt→leb size off before, same)
        (ap (λ w. receive w (swant * drv.bps) buf (fetch drv src i off w)) wrap
          ∙ ap (receive want (swant * drv.bps) buf) asked
          ∙ ap (λ k. overwrite got buf >>= pad_zero (min (length got) want) k) (sym e)
          ∙ overwrite-pad_zero got buf want k (min (length got) want) refl len (omega arith) room)

  -- The rest of the file fits into its sectors, or no more is wanted than the sectors have.
  pub read_file-pad :
      (off k swant scnt : ℕ) (buf : List ℕ)
      → k ≡ swant * drv.bps
      → min ((drv.files i).size - off) (scnt * drv.bps) ≤ k
      → k ≤ scnt * drv.bps
      → k ≤ length buf
      → read_file drv src i off swant scnt buf
        ≡ ok (k, pad k (drop off (take (drv.files i).size (content i))) ++ drop k buf)
  read_file-pad off k swant scnt buf e fits few room =
      elim (Bool-cases (leb (drv.files i).size off)) [
        | inl behind ↦ none_left off k swant scnt buf e (leb→le _ _ behind) room
        | inr before ↦
            some_left off k swant scnt (min ((drv.files i).size - off) (scnt * drv.bps)) buf e
              (leb→lt _ _ before) refl fits few room
      ]
