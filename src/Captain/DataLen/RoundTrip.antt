-- ===== src/Captain/DataLen/RoundTrip.antt =====
-- What DataLen writes and what ParseDataLen reads, on every length and every reader.
use jocasta.Prelude.{
  ℕ, suc, ◌+◌, ◌*◌, ◌/◌, ◌%◌, ◌^◌, ◌≤◌, ◌<◌, ◌≡◌, refl, inl, inr, [], ◌∷◌, ◌++◌, take, arith, ltb,
  if◌then◌else◌, ◌&&◌, Bool-cases,
}
use jocasta.Prelude.Bits.{set_top_bit, top_bit}
use jocasta.Prelude.Int.{pos}
use jocasta.Go.Result.{ok, err}
use jocasta.Go.Io.{Bytes, ReadError, over}
use jocasta.Captain.{invalid_data_length, read-append}
use jocasta.Captain.DataLen.{max_data_len, data_len, parse_data_len_loop, parse_data_len}

-- The groups of a length, the lowest first, in plain arithmetic.
unfoldable pub len_bytes : ℕ → Bytes
len_bytes n =
    if ltb n 128
    then n ∷ []
    else if ltb n 16384
    then (n % 128 + 128) ∷ n / 128 ∷ []
    else (n % 128 + 128) ∷ (n / 128 % 128 + 128) ∷ n / 16384 ∷ []

-- DataLen writes the groups of every length in range.
pub data_len-len_bytes :
    (n : ℕ)
    → n ≤ max_data_len
    → (ds : Bytes) × (k : ℕ) × (data_len (pos n) ≡ ok (ds, k)) × (take k ds ≡ len_bytes n)
unfolding data_len len_bytes
data_len-len_bytes n h = elim (Bool-cases (ltb n 128)) [
  | inl small ↦ (n ∷ 0 ∷ 0 ∷ [], 1, ground arith, ground arith)
  | inr large ↦ elim (Bool-cases (ltb n 16384)) [
    | inl two ↦
        ((n % 128 + 128) ∷ n / 128 ∷ 0 ∷ [], 2, ground (arith, set_top_bit (n % 128)), ground arith)
    | inr three ↦ (
      (n % 128 + 128) ∷ (n / 128 % 128 + 128) ∷ n / 16384 ∷ [],
      3,
      ground (arith, set_top_bit (n % 128), set_top_bit (n / 128 % 128)),
      ground arith,
    )
  ]
]

-- One round of ParseDataLen's loop.
pub parse_round :
    (k i acc b : ℕ) (ys : Bytes) (e : ReadError)
    → b < 256
    → parse_data_len_loop (suc k) i acc (over (b ∷ ys) e) ≡ (
        if ltb 127 b && ltb i 2
        then parse_data_len_loop k (i + 1) (acc + b % 128 * 2 ^ (7 * i)) (over ys e)
        else ok ((acc + b % 128 * 2 ^ (7 * i), b / 128 * 128), over ys e))
unfolding parse_data_len_loop
parse_round k i acc b ys e h = ground (arith, read-append 1 (b ∷ []) ys e refl, top_bit b)

module _ (ys : Bytes) (e : ReadError) where
  pub one_group : (a : ℕ) → a < 128 → parse_data_len (over (a ∷ ys) e) ≡ ok (a, over ys e)
  unfolding parse_data_len
  one_group a ha = ground (arith, parse_round 2 0 0 a ys e)

  pub two_groups :
      (a b : ℕ)
      → a < 128
      → b < 128
      → parse_data_len (over ((a + 128) ∷ b ∷ ys) e) ≡ ok (a + b * 128, over ys e)
  unfolding parse_data_len
  two_groups a b ha hb =
      ground (arith, parse_round 2 0 0 (a + 128) (b ∷ ys) e, parse_round 1 1 a b ys e)

  pub three_groups :
      (a b c : ℕ)
      → a < 128
      → b < 128
      → c < 128
      → parse_data_len (over ((a + 128) ∷ (b + 128) ∷ c ∷ ys) e)
        ≡ ok (a + b * 128 + c * 16384, over ys e)
  unfolding parse_data_len
  three_groups a b c ha hb hc = ground (
    arith,
    parse_round 2 0 0 (a + 128) ((b + 128) ∷ c ∷ ys) e,
    parse_round 1 1 a (b + 128) (c ∷ ys) e,
    parse_round 0 2 (a + b * 128) c ys e,
  )

  -- A third byte that announces a fourth is refused.
  pub four_groups :
      (a b c : ℕ)
      → a < 128
      → b < 128
      → c < 128
      → parse_data_len (over ((a + 128) ∷ (b + 128) ∷ (c + 128) ∷ ys) e) ≡ err invalid_data_length
  unfolding parse_data_len
  four_groups a b c ha hb hc = ground (
    arith,
    parse_round 2 0 0 (a + 128) ((b + 128) ∷ (c + 128) ∷ ys) e,
    parse_round 1 1 a (b + 128) ((c + 128) ∷ ys) e,
    parse_round 0 2 (a + b * 128) (c + 128) ys e,
  )

-- ParseDataLen reads back the groups, and leaves what follows.
pub parse_data_len-len_bytes :
    (n : ℕ) (ys : Bytes) (e : ReadError)
    → n ≤ max_data_len
    → parse_data_len (over (len_bytes n ++ ys) e) ≡ ok (n, over ys e)
unfolding len_bytes
parse_data_len-len_bytes n ys e h = ground (
  arith,
  one_group ys e n,
  two_groups ys e (n % 128) (n / 128),
  three_groups ys e (n % 128) (n / 128 % 128) (n / 16384),
)

-- When DataLen succeeds it has written the groups of a length in range.
pub data_len_inv :
    (n : ℕ) {ds : Bytes} {k : ℕ}
    → data_len (pos n) ≡ ok (ds, k)
    → (n ≤ max_data_len) × (take k ds ≡ len_bytes n)
data_len_inv n {ds} {k} h = elim (Bool-cases (ltb max_data_len n)) [
  | inl large ↦ absurd (unfold data_len in ground arith)
  | inr fits ↦ let (ds', k', e, t) = data_len-len_bytes n (ground arith) in ground (arith, h, e, t)
]

-- DataLen fails on every other integer.
pub data_len_refuses : (n : ℕ) → max_data_len < n → data_len (pos n) ≡ err invalid_data_length
unfolding data_len
data_len_refuses n h = ground arith
