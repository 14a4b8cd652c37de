-- ===== src/Sock/Tests.antt =====
-- A socket on a pair of lists, which may take and give parts.
use vdf.Prelude.{
  ℕ, ◌≡◌, refl, min, List, [], ◌∷◌, ◌++◌, Option, some, fault, arith, length, take, drop,
}
use vdf.Net.Serve.{IsStream}
use vdf.Sock.{sock_write, sock_read}
use vdf.Sock.Loops.{Ended, sockets-Ended}
use vdf.Sock.Partial.{first_send, sock_write-first_send, sock_read-overflow}
use vdf.Sock.Stream.{IsWhole, server_write, server_read, sockets-IsStream}

-- What was sent, and what can be take_received.
abbrev Line : Type 0
Line = List ℕ × List ℕ

abbrev sent : Line → List ℕ
sent (out, left) = out

abbrev waiting : Line → List ℕ
waiting (out, left) = left

abbrev send_some : ℕ → Line → List ℕ → Option (ℕ × Line)
send_some most (out, left) bytes = some (min most (length bytes), (out ++ take most bytes, left))

abbrev send_all : Line → List ℕ → Option (ℕ × Line)
send_all (out, left) bytes = some (length bytes, (out ++ bytes, left))

abbrev give : Line → ℕ → Option (List ℕ × Line)
give (out, left) n = some (take n left, (out, drop n left))

-- Two bytes, and then as many as are asked for.
abbrev give_two : Line → ℕ → Option (List ℕ × Line)
give_two ([], left) n = some (take 2 left, (0 ∷ [], drop 2 left))
give_two (o ∷ out, left) n = give (o ∷ out, left) n

abbrev buff : List ℕ
buff = 1 ∷ 2 ∷ 3 ∷ []

line-IsWhole : IsWhole send_all give sent waiting
line-IsWhole = record {
  sends = λ c bytes. ((c.0 ++ bytes, c.1), refl, refl, refl);
  gives = λ c n h. ((c.0, drop n c.1), refl, refl, refl);
}

sockets-Ended_example :
    Ended (sock_write (send_some 2) give_two ([], buff) buff 3)
    × Ended (sock_read (send_some 2) give_two ([], buff) buff 3)
sockets-Ended_example = sockets-Ended (send_some 2) give_two ([], buff) buff 3

-- Two of three bytes are sent.
sock_write-first_send_example :
    sock_write (send_some 2) give ([], []) buff 3
    ≡ first_send (send_some 2) give 3 (send_some 2 ([], []) buff)
sock_write-first_send_example =
    sock_write-first_send (send_some 2) give ([], []) buff (omega arith)
      (λ k c e. let same : 2 ≡ k = cc in omega (arith, same))

sock_read-overflow_example :
    sock_read send_all give_two ([], 1 ∷ 2 ∷ 3 ∷ 4 ∷ 5 ∷ []) buff 3 ≡ some fault
sock_read-overflow_example =
    sock_read-overflow send_all give_two ([], 1 ∷ 2 ∷ 3 ∷ 4 ∷ 5 ∷ []) (0 ∷ [], 3 ∷ 4 ∷ 5 ∷ [])
      (0 ∷ [], []) buff (1 ∷ 2 ∷ []) (3 ∷ 4 ∷ 5 ∷ []) refl refl (omega arith) (omega arith)
      (omega arith)

sockets-IsStream_example :
    IsStream (server_write send_all give) (server_read send_all give) sent waiting
sockets-IsStream_example = sockets-IsStream send_all give sent waiting line-IsWhole
