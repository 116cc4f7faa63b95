-- ===== src/Captain/DataLen/Tests.antt =====
-- The lengths of the table in datalen.go, and the theorems at them.
use jocasta.Prelude.{◌≡◌, refl, [], ◌∷◌, arith}
use jocasta.Prelude.Int.{pos, negsuc}
use jocasta.Go.Result.{ok, err}
use jocasta.Go.Io.{eof, over}
use jocasta.Captain.{invalid_data_length}
use jocasta.Captain.DataLen.{data_len, parse_data_len}
use jocasta.Captain.DataLen.RoundTrip.{two_groups}

data_len_16384 : data_len (pos 16384) ≡ ok (0x80 ∷ 0x80 ∷ 0x01 ∷ [], 3)
unfolding data_len
data_len_16384 = refl

data_len_negative : data_len (negsuc 0) ≡ err invalid_data_length
unfolding data_len
data_len_negative = refl

parse_data_len_300 : parse_data_len (over (0xac ∷ 0x02 ∷ 9 ∷ []) eof) ≡ ok (300, over (9 ∷ []) eof)
parse_data_len_300 = two_groups (9 ∷ []) eof 44 2 (omega arith) (omega arith)
