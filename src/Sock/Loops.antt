-- ===== src/Sock/Loops.antt =====
-- The loops of libvdf/vdf_sock.c end.
use vdf.Prelude.{
  ℕ, zero, suc, ◌+◌, ◌-◌, ◌≤◌, ◌<◌, ◌≡◌, refl, Bool-cases, inl, inr, List, ◌++◌, Option, none, some,
  Result, ok, err, fault, unset, ltb, ◌==◌, length, drop, arith, map_ok, take,
}
use vdf.Sock.{Looped, wrote, write_loop, sock_write, take_received, put_back, read_loop, sock_read}

-- The loop has ended.
abbrev pub Ended : {Value : Type 0} → Looped Value → Type 0
Ended {Value} res = (r : Result Value) × (res ≡ some r)

module _ {Conn : Type 0} (send : Conn → List ℕ → Option (ℕ × Conn))
    (recv : Conn → ℕ → Option (List ℕ × Conn)) where
  wrote-Ended :
      (next : ℕ → Conn → Looped (ℕ × Conn)) (got : Option (ℕ × Conn))
      → ((k : ℕ) (c : Conn) → Ended (next (suc k) c))
      → Ended (wrote send recv next got)
  wrote-Ended next none h = (err unset, refl)
  wrote-Ended next (some (zero, c)) h = (err unset, refl)
  wrote-Ended next (some (suc k, c)) h = h k c

  write_loop-Ended :
      (fuel : ℕ) (c : Conn) (b : List ℕ) (cnt total : ℕ)
      → cnt - total < fuel
      → Ended (write_loop send recv fuel c b cnt total)
  unfolding write_loop
  write_loop-Ended zero c b cnt total h = absurd (omega arith)
  write_loop-Ended (suc fuel) c b cnt total h = elim (Bool-cases (ltb total cnt)) [
    | inr stop ↦ rw (write_loop, stop) (ok (total, c), refl)
    | inl more ↦ elim (Bool-cases (ltb (length b) cnt)) [
      | inl short ↦ rw (write_loop, more, short) (fault, refl)
      | inr long ↦
          rw (write_loop, more, long)
            (wrote-Ended (λ k c'. write_loop send recv fuel c' (drop k b) cnt (total + k))
              (send c (take cnt b))
              (λ k c'.
                write_loop-Ended fuel c' (drop (suc k) b) cnt (total + suc k) (ground arith)))
    ]
  ]

  put_back-Ended :
      (got : List ℕ) (res : Looped (ℕ × List ℕ × Conn))
      → Ended res
      → Ended (put_back send recv got res)
  put_back-Ended got none h = absurd (cc h.1)
  put_back-Ended got (some r) h = (map_ok (λ v. (v.0, got ++ v.1, v.2)) r, refl)

  take_received-Ended :
      (next : List ℕ → ℕ → Conn → Looped (ℕ × List ℕ × Conn)) (b : List ℕ) (total : ℕ)
      (got : Option (List ℕ × Conn))
      → ((b' : List ℕ) (k : ℕ) (c : Conn) → 1 ≤ k → Ended (next b' (total + k) c))
      → Ended (take_received send recv next b total got)
  take_received-Ended next b total none h = (err unset, refl)
  take_received-Ended next b total (some (got, c)) h = elim (Bool-cases (length got == 0)) [
    | inl stop ↦ rw (take_received, stop) (ok (total, b, c), refl)
    | inr some_got ↦ elim (Bool-cases (ltb (length b) (length got))) [
      | inl over ↦ rw (take_received, some_got, over) (fault, refl)
      | inr fits ↦
          rw (take_received, some_got, fits)
            (put_back-Ended got (next (drop (length got) b) (total + length got) c)
              (h (drop (length got) b) (length got) c (ground arith)))
    ]
  ]

  read_loop-Ended :
      (fuel : ℕ) (c : Conn) (b : List ℕ) (cnt total : ℕ)
      → cnt - total < fuel
      → Ended (read_loop send recv fuel c b cnt total)
  unfolding read_loop
  read_loop-Ended zero c b cnt total h = absurd (omega arith)
  read_loop-Ended (suc fuel) c b cnt total h = elim (Bool-cases (ltb total cnt)) [
    | inr stop ↦ rw (read_loop, stop) (ok (total, b, c), refl)
    | inl more ↦
        rw (read_loop, more)
          (take_received-Ended (λ b' t c'. read_loop send recv fuel c' b' cnt t) b total
            (recv c cnt) (λ b' k c' one. read_loop-Ended fuel c' b' cnt (total + k) (ground arith)))
  ]

  -- sock_write and sock_read end, on any buffer and for any number of bytes, whatever send() and recv()
  -- do, as a round either ends the loop or moves on by a byte at least; the call does not return only
  -- if one of these does not.
  pub sockets-Ended :
      (c : Conn) (buff : List ℕ) (cnt : ℕ)
      → Ended (sock_write send recv c buff cnt) × Ended (sock_read send recv c buff cnt)
  unfolding sock_write sock_read
  sockets-Ended c buff cnt = (
    write_loop-Ended (suc cnt) c buff cnt 0 (omega arith),
    read_loop-Ended (suc cnt) c buff cnt 0 (omega arith),
  )
