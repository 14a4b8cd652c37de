-- ===== src/Net/Serve.antt =====
-- A read request of the NBD server is answered with the bytes of the drive.
use vdf.Prelude.{
  ℕ, zero, suc, ◌+◌, ◌-◌, ◌*◌, ◌/◌, ◌%◌, ◌≤◌, ◌<◌, ◌^◌, ◌≡◌, refl, sym, ap, ◌∙◌, min, true, false,
  List, [], ◌∷◌, ◌++◌, append_assoc, append-nil, Option, some, Result, ok, arith, ltb, ◌==◌, u32,
  u64, length, length-append, length-drop, take, drop, drop-drop, take-append, drop-append,
  drop_all, le→ltb, ne→==,
}
use vdf.Read.Bytes.Slices.{slice, length-slice, slice_add}
use vdf.Net.{
  be_32, be_64, from_be, request_magic, NbdRequest, parse_request, reply, Outcome, next, sent,
  send_data, answer, serve_request, serve_one,
}

-- The calls on the connection succeed: what is written comes behind the output, and as many bytes as are
-- asked for are taken from the input, if it has them.
pub record IsStream {Conn : Type 0} (sock_write : Conn → List ℕ → Option Conn)
    (sock_read : Conn → ℕ → Option (List ℕ × Conn)) (output input : Conn → List ℕ) : Type 0 where
  pub writes :
      (c : Conn) (bytes : List ℕ)
      → (c' : Conn) × (sock_write c bytes ≡ some c')
        × (output c' ≡ output c ++ bytes)
        × (input c' ≡ input c)
  pub reads :
      (c : Conn) (n : ℕ)
      → n ≤ length (input c)
      → (c' : Conn) × (sock_read c n ≡ some (take n (input c), c'))
        × (output c' ≡ output c)
        × (input c' ≡ drop n (input c))

-- vdf_read_bytes gives the bytes of the drive.
abbrev pub ReadsDisk : (ℕ → ℕ → List ℕ → Result (ℕ × List ℕ)) → List ℕ → Type 0
ReadsDisk read_bytes disk =
    (off n : ℕ) (buff : List ℕ)
    → off + n ≤ length disk
    → n ≤ length buff
    → read_bytes off n buff ≡ ok (n, slice disk off n ++ drop n buff)

module _ {Conn : Type 0} (sock_write : Conn → List ℕ → Option Conn)
    (sock_read : Conn → ℕ → Option (List ℕ × Conn))
    (read_bytes : ℕ → ℕ → List ℕ → Result (ℕ × List ℕ)) (bufflen : ℕ) (output input : Conn → List ℕ)
    (disk : List ℕ) (stream : IsStream sock_write sock_read output input)
    (reads : ReadsDisk read_bytes disk) (some_room : 1 ≤ bufflen)
    (small : length disk < 2 ^ 64) where
  -- What the loop over the data does.
  record Sent (res : Outcome (Conn × List ℕ) Conn) (c : Conn) (bytes : List ℕ) : Type 0 where
    conn : Conn
    buff : List ℕ
    done : res ≡ next (conn, buff)
    len : length buff ≡ bufflen
    out : output conn ≡ output c ++ bytes
    left : input conn ≡ input c

  one_part :
      (fuel off m n : ℕ) (c c' : Conn) (buff : List ℕ)
      → n ≡ min (suc m) bufflen
      → read_bytes off n buff ≡ ok (n, slice disk off n ++ drop n buff)
      → length (slice disk off n) ≡ n
      → sock_write c (slice disk off n) ≡ some c'
      → off + n < 2 ^ 64
      → send_data sock_write sock_read read_bytes
          (length disk)
          bufflen
          (suc fuel)
          off
          (suc m)
          (c, buff)
        ≡ send_data sock_write sock_read read_bytes
            (length disk)
            bufflen
            fuel
            (off + n)
            (suc m - n)
            (c', slice disk off n ++ drop n buff)
  unfolding send_data
  one_part fuel off m n c c' buff e got len wrote top =
      let at : u64 (off + n) ≡ off + n = omega arith in
      rw (
        send_data,
        ne→== (suc m) 0 (omega arith),
        sym e,
        got,
        sym e,
        take-append (slice disk off n) (drop n buff) n (sym len),
        sent,
        wrote,
        sym e,
        at,
      )

  send_data-Sent :
      (fuel off len : ℕ) (c : Conn) (buff : List ℕ)
      → len < fuel
      → off + len ≤ length disk
      → length buff ≡ bufflen
      → Sent
          (send_data sock_write sock_read read_bytes (length disk) bufflen fuel off len (c, buff))
          c
          (slice disk off len)
  unfolding send_data
  send_data-Sent zero off len c buff h k e = absurd (omega arith)
  send_data-Sent (suc fuel) off zero c buff h k e = record {
    conn = c;
    buff = buff;
    done = refl;
    len = e;
    out = sym (append-nil (output c));
    left = refl;
  }
  send_data-Sent (suc fuel) off (suc m) c buff h k e =
      let n = min (suc m) bufflen in
      let got = reads off n buff (omega arith) (omega arith) in
      let len = length-slice disk off n (omega arith) in
      let buff' = slice disk off n ++ drop n buff in
      let (c', wrote, out, left) = stream.writes c (slice disk off n) in
      let rest = send_data-Sent fuel (off + n) (suc m - n) c' buff' (omega arith) (omega arith) (
        omega
          (arith, e, len, length-append (slice disk off n) (drop n buff), length-drop n buff)) in
      record {
        conn = rest.conn;
        buff = rest.buff;
        done = one_part fuel off m n c c' buff refl got len wrote (omega arith) ∙ rest.done;
        len = rest.len;
        out =
            rest.out
            ∙ ap (λ o. o ++ slice disk (off + n) (suc m - n)) out
            ∙ append_assoc (output c) (slice disk off n) (slice disk (off + n) (suc m - n))
            ∙ ap (λ r. output c ++ r)
                (sym (slice_add disk off n (suc m - n) (suc m) (off + n) (omega arith) refl));
        left = rest.left ∙ left;
      }

-- Numbers in network byte order, read back.
from_be-be_32 : (acc v : ℕ) → from_be acc (be_32 v) ≡ acc * 4294967296 + u32 v
from_be-be_32 acc v = omega arith

from_be-append : (acc : ℕ) (xs ys : List ℕ) → from_be acc (xs ++ ys) ≡ from_be (from_be acc xs) ys
from_be-append acc [] ys = refl
from_be-append acc (x ∷ xs) ys = from_be-append (acc * 256 + x) xs ys

from_be-be_64 : (v : ℕ) → v < 2 ^ 64 → from_be 0 (be_64 v) ≡ v
from_be-be_64 v h =
    from_be-append 0 (be_32 (v / 4294967296)) (be_32 v)
    ∙ from_be-be_32 (from_be 0 (be_32 (v / 4294967296))) v
    ∙ omega (arith, from_be-be_32 0 (v / 4294967296))

-- The bytes of a request.
abbrev pub encode : ℕ → List ℕ → ℕ → ℕ → List ℕ
encode type handle from len =
    be_32 request_magic ++ (be_32 type ++ (handle ++ (be_64 from ++ be_32 len)))

parse-encode :
    (type : ℕ) (handle : List ℕ) (from len : ℕ)
    → type < 2 ^ 32
    → length handle ≡ 8
    → from < 2 ^ 64
    → len < 2 ^ 32
    → parse_request (encode type handle from len) ≡ record {
      magic = request_magic;
      cmd = type % 65536;
      handle = handle;
      from = from;
      len = len;
    }
parse-encode type handle from len h k l m =
    let tail = be_64 from ++ be_32 len in
    let behind : drop 8 (handle ++ tail) ≡ tail = drop-append handle tail 8 (sym k) in
    let far : drop 16 (handle ++ tail) ≡ be_32 len =
      sym (drop-drop 8 8 16 (handle ++ tail) refl) ∙ ap (drop 8) behind in
    let type_back : from_be 0 (be_32 type) ≡ type = omega (arith, from_be-be_32 0 type) in
    let len_back : from_be 0 (be_32 len) ≡ len = omega (arith, from_be-be_32 0 len) in
    rw (take-append handle tail 8 (sym k), behind, far, type_back, len_back, from_be-be_64 from l)
      refl

-- A request that is read and has the right magic.
request_read :
    {Conn : Type 0} (sock_write : Conn → List ℕ → Option Conn)
    (sock_read : Conn → ℕ → Option (List ℕ × Conn))
    (read_bytes : ℕ → ℕ → List ℕ → Result (ℕ × List ℕ)) (drive_bytes bufflen fuel : ℕ)
    (c c1 c2 : Conn) (buff buff' old request : List ℕ) (r : NbdRequest)
    → sock_read c 28 ≡ some (request, c1)
    → length request ≡ length old
    → parse_request request ≡ r
    → (r.magic == request_magic) ≡ true
    → answer sock_write sock_read read_bytes drive_bytes bufflen fuel r (c1, buff)
      ≡ next (c2, buff')
    → serve_one sock_write sock_read read_bytes drive_bytes bufflen fuel ((c, buff), old)
      ≡ next ((c2, buff'), request)
request_read sock_write sock_read read_bytes drive_bytes bufflen fuel c c1 c2 buff buff' old request
      r got same parsed magic answered =
    let all : request ++ drop (length request) old ≡ request =
      ap (λ d. request ++ d) (drop_all (length request) old (omega arith)) ∙ append-nil request in
    let serve = serve_request sock_write sock_read read_bytes drive_bytes bufflen fuel in
    rw (serve_one, got)
      (ap (λ q. serve (parse_request q) q (c1, buff)) all
        ∙ ap (λ s. serve s request (c1, buff)) parsed
        ∙ rw (serve_request, magic, answered) refl)

-- A read request inside the drive, whose reply is sent.
read_answered :
    {Conn : Type 0} (sock_write : Conn → List ℕ → Option Conn)
    (sock_read : Conn → ℕ → Option (List ℕ × Conn))
    (read_bytes : ℕ → ℕ → List ℕ → Result (ℕ × List ℕ)) (drive_bytes bufflen fuel : ℕ) (c c1 : Conn)
    (buff : List ℕ) (r : NbdRequest)
    → r.cmd ≡ 0
    → r.from + r.len ≤ drive_bytes
    → drive_bytes < 2 ^ 64
    → sock_write c (reply r.handle) ≡ some c1
    → answer sock_write sock_read read_bytes drive_bytes bufflen fuel r (c, buff)
      ≡ send_data sock_write sock_read read_bytes drive_bytes bufflen fuel r.from r.len (c1, buff)
unfolding answer
read_answered sock_write sock_read read_bytes drive_bytes bufflen fuel c c1 buff r cmd inside top
      wrote =
    let in_drive : ltb drive_bytes (u64 (r.from + r.len)) ≡ false =
      le→ltb drive_bytes (u64 (r.from + r.len)) (omega arith) in
    rw (answer, cmd, in_drive, sent, wrote)

-- A read request is answered: if a request with the magic, the command NBD_CMD_READ and any flags
-- comes on the connection, for bytes inside the drive, of which no sum wraps, then the round of the
-- loop ends, whatever lay in the buffer and in the request before, with the reply with the handle of
-- the request sent, and behind it all the bytes asked for, in as many parts as the buffer needs, and it
-- goes on with the input behind the request. The calls on the connection succeed, vdf_read_bytes gives
-- the bytes of the drive, and a fuel above the number of bytes is enough.
pub serve_one-answers :
    {Conn : Type 0} (sock_write : Conn → List ℕ → Option Conn)
    (sock_read : Conn → ℕ → Option (List ℕ × Conn))
    (read_bytes : ℕ → ℕ → List ℕ → Result (ℕ × List ℕ)) (bufflen : ℕ) (output input : Conn → List ℕ)
    (disk : List ℕ) (type : ℕ) (handle : List ℕ) (from len fuel : ℕ) (c : Conn)
    (buff old rest : List ℕ)
    → IsStream sock_write sock_read output input
    → ReadsDisk read_bytes disk
    → 1 ≤ bufflen
    → length disk < 2 ^ 64
    → length buff ≡ bufflen
    → length old ≡ 28
    → input c ≡ encode type handle from len ++ rest
    → type < 2 ^ 32
    → type % 65536 ≡ 0
    → length handle ≡ 8
    → from + len ≤ length disk
    → len < 2 ^ 32
    → len < fuel
    → (c' : Conn) × (buff' : List ℕ) × (serve_one sock_write sock_read read_bytes
          (length disk)
          bufflen
          fuel
          ((c, buff), old)
        ≡ next ((c', buff'), encode type handle from len))
      × (length buff' ≡ bufflen)
      × (output c' ≡ output c ++ (reply handle ++ slice disk from len))
      × (input c' ≡ rest)
serve_one-answers {Conn} sock_write sock_read read_bytes bufflen output input disk type handle from
      len fuel c buff old rest stream reads some_room small room old_len waiting t_top t_cmd h_len
      inside l_top enough =
    let request = encode type handle from len in
    let size : length request ≡ 28 =
      omega (arith, h_len, length-append handle (be_64 from ++ be_32 len)) in
    let front : take 28 (input c) ≡ request =
      ap (take 28) waiting ∙ take-append request rest 28 (sym size) in
    let behind : drop 28 (input c) ≡ rest =
      ap (drop 28) waiting ∙ drop-append request rest 28 (sym size) in
    let long : 28 ≤ length (input c) =
      omega (arith, ap length waiting, length-append request rest, size) in
    let (c1, got, out1, in1) = stream.reads c 28 long in
    let (c2, wrote, out2, in2) = stream.writes c1 (reply handle) in
    let part =
      send_data-Sent sock_write sock_read read_bytes bufflen output input disk stream reads
        some_room small fuel from len c2 buff enough inside room in
    let r : NbdRequest = record {
      magic = request_magic;
      cmd = type % 65536;
      handle = handle;
      from = from;
      len = len;
    } in
    let answered =
      read_answered sock_write sock_read read_bytes (length disk) bufflen fuel c1 c2 buff r t_cmd
        inside small wrote
      ∙ part.done in
    (
      part.conn,
      part.buff,
      request_read sock_write sock_read read_bytes (length disk) bufflen fuel c c1 part.conn buff
          part.buff old request r (got ∙ ap (λ q. some (q, c1)) front) (size ∙ sym old_len)
          (parse-encode type handle from len t_top h_len (omega arith) l_top) refl answered,
      part.len,
      part.out
          ∙ ap (λ o. o ++ slice disk from len) (out2 ∙ ap (λ o. o ++ reply handle) out1)
          ∙ append_assoc (output c) (reply handle) (slice disk from len),
      part.left ∙ in2 ∙ in1 ∙ behind,
    )
