-- ===== src/Captain/DataLen.antt =====
-- core/captain/datalen.go: lengths up to 2097151 in one to three groups of seven bits.
pub mod RoundTrip
pub mod Accepts
mod Tests
use jocasta.Prelude.{ℕ, zero, suc, ◌+◌, ◌*◌, ◌/◌, ◌%◌, ◌^◌, ◌&&◌, not, [], ◌∷◌}
use jocasta.Prelude.{set, ltb, ◌==◌, if◌then◌else◌, bit_and, bit_or}
use jocasta.Prelude.Int.{ℤ, pos, negsuc}
use jocasta.Go.Result.{Result, ok, err}
use jocasta.Go.Io.{Bytes}
use jocasta.Go.Net.{at}
use jocasta.Captain.{Error, invalid_data_length, Parser, ◌>>=◌, pure, fail, read}

abbrev pub max_data_len : ℕ
max_data_len = 2097151

-- The loop of DataLen, on the rounds left: it ends by its own test when `n` is 3. `length & 0x7f`
-- is the remainder by 128 and `length >> 7` the quotient.
data_len_loop : ℕ → ℕ → Bytes → ℕ → Bytes × ℕ
data_len_loop zero length ds n = (ds, n)
data_len_loop (suc rounds) length ds n =
    let b = length % 128 in
    let length' = length / 128 in
    let b' = if ltb 0 length' then bit_or b 0x80 else b in
    let ds' = set ds n b' in
    let rest = data_len_loop rounds length' ds' (n + 1) in
    if not (ltb (n + 1) 3 && ltb 0 length') then (ds', n + 1) else rest

-- DataLen: the array of three bytes and how many of them count.
unfoldable pub data_len : ℤ → Result Error (Bytes × ℕ)
unfolding data_len_loop
data_len (negsuc k) = err invalid_data_length
data_len (pos length) =
    if ltb max_data_len length
    then err invalid_data_length
    else ok (data_len_loop 3 length (0 ∷ 0 ∷ 0 ∷ []) 0)

-- The loop of ParseDataLen in its round `i`, on the rounds left: it ends by its own test when
-- `i` is 2. The result is the length and the top bit of the last byte.
unfoldable pub parse_data_len_loop : ℕ → ℕ → ℕ → Parser (ℕ × ℕ)
parse_data_len_loop zero i length = pure (length, 0)
parse_data_len_loop (suc rounds) i length = do
  tmp ← read 1
  let length' = length + at tmp 0 % 128 * 2 ^ (7 * i)
  let remain = bit_and (at tmp 0) 0x80
  if not (remain == 0x80 && ltb i 2)
      then pure (length', remain)
      else parse_data_len_loop rounds (i + 1) length'

-- ParseDataLen.
unfoldable pub parse_data_len : Parser ℕ
parse_data_len = do
  (length, remain) ← parse_data_len_loop 3 0 0
  if remain == 0x80 then fail invalid_data_length else pure length
