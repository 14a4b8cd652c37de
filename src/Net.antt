-- ===== src/Net.antt =====
-- libvdf/transport/nbd_server.c: the thread of a client, which answers the requests of the NBD
-- protocol. sock_write and sock_read are parameters here, on the state of the connection: a failed call
-- is `none`, and sock_read gives fewer bytes at the end of the input.
pub mod Serve
pub mod Write
pub mod Tests
use vdf.Prelude.{
  ℕ, zero, suc, ◌+◌, ◌-◌, ◌*◌, ◌/◌, ◌%◌, min, true, false, List, [], ◌∷◌, ◌++◌, Option, none, some,
  Result, ok, err, fault, ltb, ◌==◌, if◌then◌else◌, u8, u64, length, take, drop, replicate,
}

-- Numbers in network byte order.
abbrev pub be_32 : ℕ → List ℕ
be_32 v = u8 (v / 16777216) ∷ u8 (v / 65536) ∷ u8 (v / 256) ∷ u8 v ∷ []

abbrev pub be_64 : ℕ → List ℕ
be_64 v = be_32 (v / 4294967296) ++ be_32 v

abbrev pub from_be : ℕ → List ℕ → ℕ
from_be acc [] = acc
from_be acc (b ∷ bytes) = from_be (acc * 256 + b) bytes

-- struct nbd_request and struct nbd_reply, by their bytes.
abbrev pub request_magic : ℕ
request_magic = 0x25609513

abbrev pub reply_magic : ℕ
reply_magic = 0x67446698

pub record NbdRequest : Type 0 where
  pub magic : ℕ
  pub cmd : ℕ
  pub handle : List ℕ
  pub from : ℕ
  pub len : ℕ

abbrev pub parse_request : List ℕ → NbdRequest
parse_request req = record {
  magic = from_be 0 (take 4 req);
  cmd = from_be 0 (take 4 (drop 4 req)) % 65536;
  handle = take 8 (drop 8 req);
  from = from_be 0 (take 8 (drop 16 req));
  len = from_be 0 (take 4 (drop 24 req));
}

abbrev pub reply : List ℕ → List ℕ
reply handle = be_32 reply_magic ++ (be_32 0 ++ handle)

-- What is sent first: the magics, the size of the drive, the flags NBD_FLAG_HAS_FLAGS and
-- NBD_FLAG_READ_ONLY, and 124 zeros.
abbrev pub nbd_magic : List ℕ
nbd_magic = 78 ∷ 66 ∷ 68 ∷ 77 ∷ 65 ∷ 71 ∷ 73 ∷ 67 ∷ []

abbrev pub greeting : ℕ → List (List ℕ)
greeting bytes = nbd_magic ∷ be_64 0x00420281861253 ∷ be_64 bytes ∷ be_32 3 ∷ replicate 124 0 ∷ []

-- A part of the thread goes on, ends at `finish`, has not ended when its fuel is out, or is undefined.
pub data Outcome (Next Conn : Type 0) : Type 0 where
  next : Next → Outcome Next Conn
  finish : Conn → Outcome Next Conn
  running : Outcome Next Conn
  undefined : Outcome Next Conn

module _ {Conn : Type 0} (sock_write : Conn → List ℕ → Option Conn)
    (sock_read : Conn → ℕ → Option (List ℕ × Conn))
    (read_bytes : ℕ → ℕ → List ℕ → Result (ℕ × List ℕ)) (drive_bytes bufflen : ℕ) where
  -- The connection and `buff`, which has `bufflen` bytes.
  abbrev pub Buffered : Type 0
  Buffered = Conn × List ℕ

  abbrev pub After : Type 0
  After = Outcome Buffered Conn

  -- sock_write, and what follows if it succeeds.
  abbrev pub sent : Conn → List ℕ → (Conn → After) → After
  sent c bytes k = elim (sock_write c bytes) [ none ↦ finish c | some c' ↦ k c' ]

  -- Bytes read into the buffer.
  abbrev pub received : Conn → List ℕ → ℕ → (Buffered → After) → After
  received c buff n k = elim (sock_read c n) [
    | none ↦ finish c
    | some (got, c') ↦ k (c', got ++ drop (length got) buff)
  ]

  -- The loop of NBD_CMD_READ: as much as fits into the buffer is read and sent at a time.
  pub send_data : ℕ → ℕ → ℕ → Buffered → After
  send_data zero off len (c, buff) = running
  send_data (suc fuel) off len (c, buff) =
      let rest = send_data fuel in
      elim (len == 0) [
        | true ↦ next (c, buff)
        | false ↦
            let read = min len bufflen in
            elim (read_bytes off read buff) [
              | fault ↦ undefined
              | err e ↦ finish c
              | ok (n, buff') ↦
                  sent c (take read buff') (λ c'. rest (u64 (off + read)) (len - read) (c', buff'))
            ]
      ]

  -- The loop of NBD_CMD_WRITE, which does not count what it reads.
  pub skip_data : ℕ → ℕ → Buffered → After
  skip_data zero len (c, buff) = running
  skip_data (suc fuel) len (c, buff) =
      let rest = skip_data fuel len in
      elim (len == 0) [ true ↦ next (c, buff) | false ↦ received c buff (min len bufflen) rest ]

  -- Two parts, one behind the other.
  abbrev pub and_then : After → (Buffered → After) → After
  and_then (next b) k = k b
  and_then (finish c) k = finish c
  and_then running k = running
  and_then undefined k = undefined

  -- The answer to a request with the right magic. `fuel` is for the loop over the data.
  pub answer : ℕ → NbdRequest → Buffered → After
  unfolding send_data skip_data
  answer fuel r (c, buff) =
      let replied : Buffered → After = λ b. sent b.0 (reply r.handle) (λ c'. next (c', b.1)) in
      if r.cmd == 2
      then finish c
      else if r.cmd == 0
      then (if ltb drive_bytes (u64 (r.from + r.len))
          then next (c, buff)
          else sent c (reply r.handle) (λ c'. send_data fuel r.from r.len (c', buff)))
      else if r.cmd == 1
      then and_then (skip_data fuel r.len (c, buff)) replied
      else if r.cmd == 3
      then replied (c, buff)
      else if r.cmd == 4
      then replied (c, buff)
      else next (c, buff)

  -- A round of the loop over the requests: what is read falls on the request before.
  abbrev pub Waiting : Type 0
  Waiting = Buffered × List ℕ

  abbrev pub serve_request : ℕ → NbdRequest → List ℕ → Buffered → Outcome Waiting Conn
  serve_request fuel r request (c, buff) = elim (r.magic == request_magic) [
    | false ↦ finish c
    | true ↦ elim (answer fuel r (c, buff)) [
      | next b ↦ next (b, request)
      | finish c2 ↦ finish c2
      | running ↦ running
      | undefined ↦ undefined
    ]
  ]

  abbrev pub serve_one : ℕ → Waiting → Outcome Waiting Conn
  serve_one fuel ((c, buff), request) = elim (sock_read c 28) [
    | none ↦ finish c
    | some (got, c') ↦
        let request' = got ++ drop (length got) request in
        serve_request fuel (parse_request request') request' (c', buff)
  ]

  -- The loop, for a number of rounds.
  pub serve : ℕ → ℕ → Waiting → Outcome Waiting Conn
  unfolding answer
  serve fuel zero w = next w
  serve fuel (suc rounds) w = elim (serve_one fuel w) [
    | next w' ↦ serve fuel rounds w'
    | finish c ↦ finish c
    | running ↦ running
    | undefined ↦ undefined
  ]

  -- The thread: the greeting, and the loop. `request` is what lies in the memory of the request.
  pub greet : List (List ℕ) → Conn → Option Conn
  greet [] c = some c
  greet (bytes ∷ rest) c = elim (sock_write c bytes) [ none ↦ none | some c' ↦ greet rest c' ]

  pub client_thread : ℕ → ℕ → List ℕ → List ℕ → Conn → Outcome Waiting Conn
  unfolding greet serve
  client_thread fuel rounds buff request c =
      if ltb bufflen 124 then undefined else elim (greet (greeting drive_bytes) c) [
        | none ↦ finish c
        | some c' ↦ serve fuel rounds ((c', replicate 124 0 ++ drop 124 buff), request)
      ]
