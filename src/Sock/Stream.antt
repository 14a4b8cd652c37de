-- ===== src/Sock/Stream.antt =====
-- The sockets under the NBD server: sock_write and sock_read of libvdf/vdf_sock.c as the calls of
-- libvdf/transport/nbd_server.c.
use vdf.Prelude.{
  append-nil, true, take-append, ◌∷◌, ℕ, zero, suc, ◌+◌, ◌≤◌, ◌≡◌, false, refl, sym, ap, ◌∙◌, List,
  [], ◌++◌, Option, none, some, ok, ltb, ◌==◌, length, drop, arith, take, replicate,
  length-replicate, length-take, le→ltb, lt→ltb, ne→==,
}
use vdf.Sock.{Looped, write_loop, sock_write, take_received, read_loop, sock_read}
use vdf.Sock.Partial.{sock_write-first_send, first_send}
use vdf.Net.Serve.{IsStream}

-- A blocking socket that takes at once all that is sent, and that gives at once all that is asked for
-- if there is as much. What it gives when there is less is left open.
pub record IsWhole {Conn : Type 0} (send : Conn → List ℕ → Option (ℕ × Conn))
    (recv : Conn → ℕ → Option (List ℕ × Conn)) (output input : Conn → List ℕ) : Type 0 where
  pub sends :
      (c : Conn) (bytes : List ℕ)
      → (c' : Conn) × (send c bytes ≡ some (length bytes, c'))
        × (output c' ≡ output c ++ bytes)
        × (input c' ≡ input c)
  pub gives :
      (c : Conn) (n : ℕ)
      → n ≤ length (input c)
      → (c' : Conn) × (recv c n ≡ some (take n (input c), c'))
        × (output c' ≡ output c)
        × (input c' ≡ drop n (input c))

-- The calls of the server: the buffer is that of the call, and the memory that sock_read fills holds
-- zeros here.
abbrev pub conn_of : {Conn : Type 0} → Looped (ℕ × Conn) → Option Conn
conn_of (some (ok (n, c))) = some c
conn_of _ = none

abbrev pub bytes_of : {Conn : Type 0} → Looped (ℕ × List ℕ × Conn) → Option (List ℕ × Conn)
bytes_of (some (ok (n, buf, c))) = some (take n buf, c)
bytes_of _ = none

module _ {Conn : Type 0} (send : Conn → List ℕ → Option (ℕ × Conn))
    (recv : Conn → ℕ → Option (List ℕ × Conn)) where
  abbrev pub server_write : Conn → List ℕ → Option Conn
  server_write c bytes = conn_of (sock_write send recv c bytes (length bytes))

  abbrev pub server_read : Conn → ℕ → Option (List ℕ × Conn)
  server_read c n = bytes_of (sock_read send recv c (replicate n 0) n)

  first_whole : (n : ℕ) (c : Conn) → 1 ≤ n → first_send send recv n (some (n, c)) ≡ some (ok (n, c))
  first_whole zero c h = absurd (omega arith)
  first_whole (suc m) c h = let same : (suc m == suc m) ≡ true = ground arith in rw same

  write_whole :
      (c c' : Conn) (bytes : List ℕ)
      → 1 ≤ length bytes
      → send c bytes ≡ some (length bytes, c')
      → server_write c bytes ≡ some c'
  write_whole c c' bytes some_b h = ap conn_of (
      sock_write-first_send send recv c bytes some_b
        (λ k d e. let same : k ≡ length bytes = cc in omega (arith, same))
      ∙ ap (first_send send recv (length bytes)) h
      ∙ first_whole (length bytes) c' some_b)

  read_whole :
      (c c' : Conn) (n : ℕ) (got : List ℕ)
      → 1 ≤ n
      → length got ≡ n
      → recv c n ≡ some (got, c')
      → server_read c n ≡ some (got, c')
  unfolding sock_read read_loop
  read_whole c c' zero got some_n len h = absurd (omega arith)
  read_whole c c' (suc m) got some_n len h =
      let zeros : List ℕ = replicate (suc m) 0 in
      let len_zeros : length zeros ≡ suc m = length-replicate (suc m) 0 in
      let all : 0 + length got ≡ suc m = omega arith in
      let room : ltb (length zeros) (length got) ≡ false = le→ltb _ _ (omega (arith, len_zeros)) in
      rw
        (
          sock_read,
          read_loop,
          lt→ltb 0 (suc m) (omega arith),
          take_received,
          h,
          ne→== (length got) 0 (omega arith),
          room,
          le→ltb (0 + length got) (suc m) (omega arith),
          all,
        )
        (ap (λ t. some (t, c')) (take-append got (drop (length got) zeros) (suc m) (sym len)))

  write_none : (c : Conn) → server_write c [] ≡ some c
  unfolding sock_write write_loop
  write_none c = refl

  read_none : (c : Conn) → server_read c 0 ≡ some ([], c)
  unfolding sock_read read_loop
  read_none c = refl

  -- The sockets keep the promise that the server relies on: over a socket that takes and gives at
  -- once all that it is asked for, sock_write puts what it is given behind the output, and nothing for
  -- no bytes; sock_read takes as many bytes as it is asked for from the input, if it has them.
  pub sockets-IsStream :
      (output input : Conn → List ℕ)
      → IsWhole send recv output input
      → IsStream server_write server_read output input
  sockets-IsStream output input whole = record { writes = writes; reads = reads }
    where
      writes :
          (c : Conn) (bytes : List ℕ)
          → (c' : Conn) × (server_write c bytes ≡ some c')
            × (output c' ≡ output c ++ bytes)
            × (input c' ≡ input c)
      writes c [] = (c, write_none c, sym (append-nil (output c)), refl)
      writes c (b ∷ bytes) =
          let (c', e, out, left) = whole.sends c (b ∷ bytes) in
          (c', write_whole c c' (b ∷ bytes) (omega arith) e, out, left)

      reads :
          (c : Conn) (n : ℕ)
          → n ≤ length (input c)
          → (c' : Conn) × (server_read c n ≡ some (take n (input c), c'))
            × (output c' ≡ output c)
            × (input c' ≡ drop n (input c))
      reads c zero h = (c, read_none c, refl, refl)
      reads c (suc m) h =
          let (c', e, out, left) = whole.gives c (suc m) h in
          (
            c',
            read_whole c c' (suc m) (take (suc m) (input c)) (omega arith)
                (omega (arith, length-take (suc m) (input c))) e,
            out,
            left,
          )
