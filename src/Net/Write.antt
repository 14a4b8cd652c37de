-- ===== src/Net/Write.antt =====
-- A write request of the NBD server.
use vdf.Prelude.{
  ℕ, zero, suc, ◌≤◌, ◌≡◌, refl, min, List, ◌++◌, Option, some, arith, Result, length, drop, ne→==,
}
use vdf.Net.{running, received, skip_data}

-- The loop over the data of a write request never ends: on a connection on which no read fails, where
-- the end of the input is no failure either, it is still running after any number of rounds if the
-- request has any data, so that no reply is sent.
pub skip_data-running :
    {Conn : Type 0} (sock_write : Conn → List ℕ → Option Conn)
    (sock_read : Conn → ℕ → Option (List ℕ × Conn))
    (read_bytes : ℕ → ℕ → List ℕ → Result (ℕ × List ℕ)) (drive_bytes bufflen fuel len : ℕ)
    (c : Conn) (buff : List ℕ)
    → ((c : Conn) (n : ℕ) → (got : List ℕ) × (c' : Conn) × (sock_read c n ≡ some (got, c')))
    → 1 ≤ len
    → skip_data sock_write sock_read read_bytes drive_bytes bufflen fuel len (c, buff) ≡ running
unfolding skip_data
skip_data-running sock_write sock_read read_bytes drive_bytes bufflen zero len c buff reads h = refl
skip_data-running sock_write sock_read read_bytes drive_bytes bufflen (suc fuel) len c buff reads
      h =
    let (got, c', e) = reads c (min len bufflen) in
    rw (skip_data, ne→== len 0 (omega arith), received, e)
      (skip_data-running sock_write sock_read read_bytes drive_bytes bufflen fuel len c'
        (got ++ drop (length got) buff) reads h)
