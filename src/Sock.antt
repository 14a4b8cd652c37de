-- ===== src/Sock.antt =====
-- sock_write and sock_read of libvdf/vdf_sock.c: loops over send() and recv(), which are parameters
-- here, on the state of the socket, as is everything behind it. A buffer is the list of the bytes of
-- its object from the pointer on.
pub mod Loops
pub mod Partial
pub mod Stream
pub mod Tests
use vdf.Prelude.{
  ℕ, zero, suc, ◌+◌, true, false, List, ◌++◌, Option, none, some, Result, ok, err, fault, unset,
  ltb, ◌==◌, length, take, drop, map_ok,
}

-- A loop that has not ended when its fuel is out is `none`.
abbrev pub Looped : Type 0 → Type 0
Looped Value = Option (Result Value)

module _ {Conn : Type 0} (send : Conn → List ℕ → Option (ℕ × Conn))
    (recv : Conn → ℕ → Option (List ℕ × Conn)) where
  -- What follows a send(), which gives the number of bytes taken. -1 and 0 are errors.
  abbrev pub wrote : (ℕ → Conn → Looped (ℕ × Conn)) → Option (ℕ × Conn) → Looped (ℕ × Conn)
  wrote next none = some (err unset)
  wrote next (some (zero, c)) = some (err unset)
  wrote next (some (suc k, c)) = next (suc k) c

  -- The loop of sock_write. send() reads `cnt` bytes, all that was asked for, in every round.
  pub write_loop : ℕ → Conn → List ℕ → ℕ → ℕ → Looped (ℕ × Conn)
  write_loop zero c b cnt total = none
  write_loop (suc fuel) c b cnt total =
      let rest = write_loop fuel in
      elim (ltb total cnt) [
        | false ↦ some (ok (total, c))
        | true ↦ elim (ltb (length b) cnt) [
          | true ↦ some fault
          | false ↦ wrote (λ k c'. rest c' (drop k b) cnt (total + k)) (send c (take cnt b))
        ]
      ]

  -- A round puts a byte at least.
  pub sock_write : Conn → List ℕ → ℕ → Looped (ℕ × Conn)
  unfolding write_loop
  sock_write c buff cnt = write_loop (suc cnt) c buff cnt 0

  -- What follows a recv(), which gives the bytes put at the pointer: none at the end of the input. The
  -- result has the bytes of the object.
  abbrev pub put_back : List ℕ → Looped (ℕ × List ℕ × Conn) → Looped (ℕ × List ℕ × Conn)
  put_back got none = none
  put_back got (some r) = some (map_ok (λ v. (v.0, got ++ v.1, v.2)) r)

  abbrev pub take_received :
      (List ℕ → ℕ → Conn → Looped (ℕ × List ℕ × Conn))
      → List ℕ
      → ℕ
      → Option (List ℕ × Conn)
      → Looped (ℕ × List ℕ × Conn)
  take_received next b total none = some (err unset)
  take_received next b total (some (got, c)) = elim (length got == 0) [
    | true ↦ some (ok (total, b, c))
    | false ↦ elim (ltb (length b) (length got)) [
      | true ↦ some fault
      | false ↦ put_back got (next (drop (length got) b) (total + length got) c)
    ]
  ]

  -- The loop of sock_read. recv() is asked for `cnt` bytes in every round.
  pub read_loop : ℕ → Conn → List ℕ → ℕ → ℕ → Looped (ℕ × List ℕ × Conn)
  read_loop zero c b cnt total = none
  read_loop (suc fuel) c b cnt total =
      let rest = read_loop fuel in
      elim (ltb total cnt) [
        | false ↦ some (ok (total, b, c))
        | true ↦ take_received (λ b' t c'. rest c' b' cnt t) b total (recv c cnt)
      ]

  pub sock_read : Conn → List ℕ → ℕ → Looped (ℕ × List ℕ × Conn)
  unfolding read_loop
  sock_read c buff cnt = read_loop (suc cnt) c buff cnt 0
