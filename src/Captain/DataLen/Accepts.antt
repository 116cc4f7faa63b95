-- ===== src/Captain/DataLen/Accepts.antt =====
-- What ParseDataLen accepts, on any reader.
use jocasta.Prelude.{
  ℕ, suc, ◌+◌, ◌*◌, ◌/◌, ◌%◌, ◌≤◌, ◌<◌, ◌≡◌, refl, [], ◌∷◌, ◌++◌, length, arith, Bool-cases, inl,
  inr, ltb,
}
use jocasta.Go.Result.{ok, err}
use jocasta.Go.Io.{Bytes, IsBytes, Reader, ReadError, over, read_full}
use jocasta.Captain.{read, io}
use jocasta.Captain.DataLen.{max_data_len, parse_data_len_loop, parse_data_len}
use jocasta.Captain.DataLen.RoundTrip.{parse_round, one_group}

-- A round on an exhausted reader.
parse_round_empty :
    (k i acc : ℕ) (e : ReadError) → parse_data_len_loop (suc k) i acc (over [] e) ≡ err (io e)
unfolding parse_data_len_loop read read_full
parse_round_empty k i acc e = refl

-- The length `n` was read from one to three bytes of `xs`, and the reader `s` is left.
abbrev pub Takes : Bytes → ReadError → ℕ → Reader → Type 0
Takes xs e n s =
    (n ≤ max_data_len)
    × (g : Bytes) × (xs ≡ g ++ s.bytes)
    × (1 ≤ length g)
    × (length g ≤ 3)
    × (s.ending ≡ e)

Takes-of :
    (g ys : Bytes) (m : ℕ) {e : ReadError} {n : ℕ} {s : Reader}
    → parse_data_len (over (g ++ ys) e) ≡ ok (n, s)
    → parse_data_len (over (g ++ ys) e) ≡ ok (m, over ys e)
    → m ≤ max_data_len
    → 1 ≤ length g
    → length g ≤ 3
    → Takes (g ++ ys) e n s
Takes-of g ys m h k fits lo hi = (ground arith, g, ground arith, lo, hi, ground arith)

-- The value that two and three bytes stand for, their top bits taken off.
module _ (x : ℕ) (e : ReadError) (n : ℕ) (s : Reader) (hx : x < 256) (top : 128 ≤ x) where
  Takes-three :
      (y z : ℕ) (xs : Bytes)
      → y < 256
      → 128 ≤ y
      → z < 256
      → parse_data_len (over (x ∷ y ∷ z ∷ xs) e) ≡ ok (n, s)
      → Takes (x ∷ y ∷ z ∷ xs) e n s
  unfolding parse_data_len
  Takes-three y z xs hy ty hz h =
      Takes-of (x ∷ y ∷ z ∷ []) xs (x % 128 + y % 128 * 128 + z * 16384) h (ground (arith, last))
        (ground (arith, last)) (omega arith) (omega arith)
    where
      last :
          parse_data_len_loop 3 0 0 (over (x ∷ y ∷ z ∷ xs) e)
          ≡ ok ((x % 128 + y % 128 * 128 + z % 128 * 16384, z / 128 * 128), over xs e)
      last = ground (
        arith,
        parse_round 2 0 0 x (y ∷ z ∷ xs) e,
        parse_round 1 1 (x % 128) y (z ∷ xs) e,
        parse_round 0 2 (x % 128 + y % 128 * 128) z xs e,
      )

  Takes-two :
      (y : ℕ) (xs : Bytes)
      → y < 128
      → parse_data_len (over (x ∷ y ∷ xs) e) ≡ ok (n, s)
      → Takes (x ∷ y ∷ xs) e n s
  unfolding parse_data_len
  Takes-two y xs hy h =
      Takes-of (x ∷ y ∷ []) xs (x % 128 + y * 128) h
        (ground (arith, parse_round 2 0 0 x (y ∷ xs) e, parse_round 1 1 (x % 128) y xs e))
        (ground arith) (omega arith) (omega arith)

  Takes-more :
      (xs : Bytes)
      → IsBytes xs
      → parse_data_len (over (x ∷ xs) e) ≡ ok (n, s)
      → Takes (x ∷ xs) e n s
  unfolding parse_data_len
  Takes-more [] b h =
      absurd (ground (arith, parse_round 2 0 0 x [] e, parse_round_empty 1 1 (x % 128) e))
  Takes-more (y ∷ []) b h = elim (Bool-cases (ltb y 128)) [
    | inl two ↦ Takes-two y [] (ground arith) h
    | inr more ↦ absurd (
        ground (
          arith,
          parse_round 2 0 0 x (y ∷ []) e,
          parse_round 1 1 (x % 128) y [] e,
          parse_round_empty 0 2 (x % 128 + y % 128 * 128) e,
        ))
  ]
  Takes-more (y ∷ z ∷ xs) b h = elim (Bool-cases (ltb y 128)) [
    | inl two ↦ Takes-two y (z ∷ xs) (ground arith) h
    | inr more ↦ Takes-three y z xs b.0 (ground arith) b.1.0 h
  ]

-- A successful ParseDataLen takes one to three bytes from the reader and returns a length in range.
pub parse_data_len-Takes :
    (xs : Bytes) (e : ReadError) (n : ℕ) (s : Reader)
    → IsBytes xs
    → parse_data_len (over xs e) ≡ ok (n, s)
    → Takes xs e n s
parse_data_len-Takes [] e n s b h =
    absurd (unfold parse_data_len in ground (arith, parse_round_empty 2 0 0 e))
parse_data_len-Takes (x ∷ xs) e n s b h = elim (Bool-cases (ltb x 128)) [
  | inl one ↦
      Takes-of (x ∷ []) xs x h (one_group xs e x (ground arith)) (ground arith) (omega arith)
        (omega arith)
  | inr more ↦ Takes-more x e n s b.0 (ground arith) xs b.1 h
]
