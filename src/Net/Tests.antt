-- ===== src/Net/Tests.antt =====
-- A read and a write request on a connection that is a pair of lists.
use vdf.Prelude.{
  ℕ, ◌≡◌, refl, List, [], ◌∷◌, ◌++◌, Option, some, Result, ok, arith, replicate, length, take, drop,
}
use vdf.Read.Bytes.Slices.{slice}
use vdf.Net.{next, running, skip_data, reply, serve_one}
use vdf.Net.Serve.{IsStream, encode, serve_one-answers}
use vdf.Net.Write.{skip_data-running}

-- What was written, and what can be read.
abbrev Pipe : Type 0
Pipe = List ℕ × List ℕ

abbrev put_bytes : Pipe → List ℕ → Option Pipe
put_bytes (out, left) bytes = some (out ++ bytes, left)

abbrev get_bytes : Pipe → ℕ → Option (List ℕ × Pipe)
get_bytes (out, left) n = some (take n left, (out, drop n left))

abbrev written : Pipe → List ℕ
written (out, left) = out

abbrev waiting : Pipe → List ℕ
waiting (out, left) = left

pipe-IsStream : IsStream put_bytes get_bytes written waiting
pipe-IsStream = record {
  writes = λ c bytes. ((c.0 ++ bytes, c.1), refl, refl, refl);
  reads = λ c n h. ((c.0, drop n c.1), refl, refl, refl);
}

abbrev disk : List ℕ
disk = 1 ∷ 2 ∷ 3 ∷ 4 ∷ 5 ∷ []

abbrev read_disk : ℕ → ℕ → List ℕ → Result (ℕ × List ℕ)
read_disk off n buff = ok (n, slice disk off n ++ drop n buff)

abbrev handle : List ℕ
handle = 9 ∷ 8 ∷ 7 ∷ 6 ∷ 5 ∷ 4 ∷ 3 ∷ 2 ∷ []

-- Three bytes from the second on, with two bytes of buffer.
abbrev asked : Pipe
asked = ([], encode 0 handle 1 3 ++ (77 ∷ []))

serve_one-answers_example :
    (c' : Pipe) × (buff' : List ℕ) × (serve_one put_bytes get_bytes read_disk 5 2 4
        ((asked, 0 ∷ 0 ∷ []), replicate 28 0)
      ≡ next ((c', buff'), encode 0 handle 1 3))
    × (length buff' ≡ 2)
    × (written c' ≡ [] ++ (reply handle ++ slice disk 1 3))
    × (waiting c' ≡ 77 ∷ [])
serve_one-answers_example =
    serve_one-answers put_bytes get_bytes read_disk 2 written waiting disk 0 handle 1 3 4 asked
      (0 ∷ 0 ∷ []) (replicate 28 0) (77 ∷ []) pipe-IsStream (λ off n buff h k. refl) (omega arith)
      (omega arith) refl refl refl (omega arith) refl refl (omega arith) (omega arith) (omega arith)

skip_data-running_example :
    skip_data put_bytes get_bytes read_disk 5 2 100 1 (asked, 0 ∷ 0 ∷ []) ≡ running
skip_data-running_example =
    skip_data-running put_bytes get_bytes read_disk 5 2 100 1 asked (0 ∷ 0 ∷ [])
      (λ c n. (take n c.1, (c.0, drop n c.1), refl)) (omega arith)
