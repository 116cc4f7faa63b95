-- ===== src/Go/Io.antt =====
-- io.Reader and io.ReadFull.
use jocasta.Prelude.{ℕ, ◌<◌, ◌≡◌, List, [], ◌∷◌, ◌++◌, length, take, drop, arith}
use jocasta.Prelude.{take-append-drop, length-take, take-append, drop-append, leb, if◌then◌else◌}
use jocasta.Prelude.{All, length-append}
use jocasta.Go.Result.{Result, ok, err}

abbrev pub Bytes : Type 0
Bytes = List ℕ

abbrev pub IsByte : ℕ → Type 0
IsByte b = b < 256

abbrev pub IsBytes : Bytes → Type 0
IsBytes = All IsByte

-- `failure` stands for what is not an end of file: a reset, a timeout, a closed pipe.
pub data ReadError : Type 0 where
  eof unexpected_eof failure : ReadError

-- What a reader is going to deliver, and the error it answers with afterwards.
pub record Reader : Type 0 where
  pub bytes : Bytes
  pub ending : ReadError

abbrev pub over : Bytes → ReadError → Reader
over xs e = record { bytes = xs; ending = e }

-- The error of a read that came out short.
abbrev short : Bytes → ReadError → ReadError
short [] e = e
short (x ∷ xs) eof = unexpected_eof
short (x ∷ xs) e = e

-- io.ReadFull(r, buf) with `n` bytes of `buf`.
unfoldable pub read_full : ℕ → Reader → Result ReadError (Bytes × Reader)
read_full n r =
    if leb n (length r.bytes)
    then ok (take n r.bytes, over (drop n r.bytes) r.ending)
    else err (short r.bytes r.ending)

-- A read of as many bytes as stand in front takes these.
pub read_full-append :
    (n : ℕ) (xs ys : Bytes) (e : ReadError)
    → length xs ≡ n
    → read_full n (over (xs ++ ys) e) ≡ ok (xs, over ys e)
unfolding read_full
read_full-append n xs ys e h =
    rw (← h) (ground (arith, length-append xs ys, take-append xs ys, drop-append xs ys))

-- What a successful read took, and what it left.
pub read_full_splits :
    (n : ℕ) (r : Reader) {xs : Bytes} {s : Reader}
    → read_full n r ≡ ok (xs, s)
    → (r.bytes ≡ xs ++ s.bytes) × (length xs ≡ n) × (s.ending ≡ r.ending)
unfolding read_full
read_full_splits n r h = ground (arith, take-append-drop n r.bytes, length-take n r.bytes)
