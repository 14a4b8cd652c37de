-- ===== src/Sock/Partial.antt =====
-- What libvdf/vdf_sock.c does when send() or recv() takes or gives only a part.
use vdf.Prelude.{
  take_all, ℕ, zero, suc, ◌+◌, ◌≤◌, ◌<◌, ◌≡◌, refl, true, Bool-cases, inl, inr, List, Option, none,
  some, ok, err, fault, unset, ltb, ◌==◌, length, drop, arith, if◌then◌else◌, length-drop, le→ltb,
  lt→ltb, ne→==,
}
use vdf.Sock.{Looped, wrote, write_loop, sock_write, take_received, read_loop, sock_read}

module _ {Conn : Type 0} (send : Conn → List ℕ → Option (ℕ × Conn))
    (recv : Conn → ℕ → Option (List ℕ × Conn)) where
  -- What comes of the first send() of a buffer of `n` bytes.
  abbrev pub first_send : ℕ → Option (ℕ × Conn) → Looped (ℕ × Conn)
  first_send n none = some (err unset)
  first_send n (some (zero, c)) = some (err unset)
  first_send n (some (suc k, c)) = if suc k == n then some (ok (n, c)) else some fault

  after_send :
      (n : ℕ) (b : List ℕ) (got : Option (ℕ × Conn))
      → 1 ≤ n
      → length b ≡ n
      → ((k : ℕ) (c : Conn) → got ≡ some (k, c) → k ≤ n)
      → wrote send recv (λ k c. write_loop send recv n c (drop k b) n (0 + k)) got
        ≡ first_send n got
  unfolding write_loop
  after_send n b none some_n len h = refl
  after_send n b (some (zero, c)) some_n len h = refl
  after_send zero b (some (suc k, c)) some_n len h = absurd (omega arith)
  after_send (suc m) b (some (suc k, c)) some_n len h = elim (Bool-cases (suc k == suc m)) [
    | inl all ↦
        let e : k ≡ m = ground arith in
        let z : 0 + suc k ≡ suc k = omega arith in
        let z' : 0 + suc m ≡ suc m = omega arith in
        rw (write_loop, all, z, le→ltb (suc k) (suc m) (omega arith), e, z')
    | inr part ↦
        let short : k < m = ground (arith, h (suc k) c refl) in
        let over : ltb (length (drop (suc k) b)) (suc m) ≡ true =
          lt→ltb _ _ (omega (arith, length-drop (suc k) b)) in
        let z : 0 + suc k ≡ suc k = omega arith in
        rw (write_loop, part, z, lt→ltb (suc k) (suc m) (omega arith), over)
  ]

  -- sock_write of a buffer of at least one byte and of nothing behind it, if send() never takes more
  -- than it is asked for: the first send() decides. If it takes all, their number is returned; if it
  -- fails or takes nothing, sock_write fails; if it takes a part, which is no error, the next round
  -- asks for the whole number of bytes again, and send() reads behind the end of the buffer.
  pub sock_write-first_send :
      (c : Conn) (b : List ℕ)
      → 1 ≤ length b
      → ((k : ℕ) (c' : Conn) → send c b ≡ some (k, c') → k ≤ length b)
      → sock_write send recv c b (length b) ≡ first_send (length b) (send c b)
  unfolding sock_write write_loop
  sock_write-first_send c b some_b h =
      rw
        (
          write_loop,
          lt→ltb 0 (length b) some_b,
          le→ltb (length b) (length b) (omega arith),
          take_all (length b) b (omega arith),
        )
        (after_send (length b) b (send c b) some_b refl h)

  -- sock_read of as many bytes as the buffer has, if the first recv() gives a part of them, which is no
  -- error, and the next one more than what is then left, as it is asked for the whole number again: it
  -- writes behind the end of the buffer.
  pub sock_read-overflow :
      (c c1 c2 : Conn) (b got more : List ℕ)
      → recv c (length b) ≡ some (got, c1)
      → recv c1 (length b) ≡ some (more, c2)
      → 1 ≤ length got
      → length got < length b
      → length b < length got + length more
      → sock_read send recv c b (length b) ≡ some fault
  unfolding sock_read read_loop
  sock_read-overflow c c1 c2 b got more e1 e2 some_got part over =
      first (length b) (omega arith) refl
    where
      second :
          (fuel : ℕ)
          → 1 ≤ fuel
          → read_loop send recv fuel c1 (drop (length got) b) (length b) (0 + length got)
            ≡ some fault
      second zero h = absurd (omega arith)
      second (suc fuel) h = rw (
        read_loop,
        lt→ltb (0 + length got) (length b) (omega arith),
        take_received,
        e2,
        ne→== (length more) 0 (omega arith),
        lt→ltb (length (drop (length got) b)) (length more)
            (omega (arith, length-drop (length got) b)),
      )

      first :
          (fuel : ℕ)
          → 1 ≤ fuel
          → fuel ≡ length b
          → read_loop send recv (suc fuel) c b (length b) 0 ≡ some fault
      first fuel h e = rw (
        read_loop,
        lt→ltb 0 (length b) (omega arith),
        take_received,
        e1,
        ne→== (length got) 0 (omega arith),
        le→ltb (length b) (length got) (omega arith),
        second fuel h,
      )
