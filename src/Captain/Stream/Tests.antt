-- ===== src/Captain/Stream/Tests.antt =====
-- A request and a reply, and the theorems at them.
use jocasta.Prelude.{ℕ, ◌≡◌, refl, [], ◌∷◌, length}
use jocasta.Go.Result.{Result, ok}
use jocasta.Go.Io.{Bytes}
use jocasta.Captain.DataLen.{data_len}
use jocasta.Captain.Stream.{Request, request_bytes, send_reply}

abbrev request : Request
request = record { types = 1; version = 2; payload = 7 ∷ 8 ∷ [] }

request_frame : request_bytes request ≡ ok (1 ∷ 2 ∷ 2 ∷ 7 ∷ 8 ∷ [])
unfolding request_bytes data_len
request_frame = refl

abbrev count_bytes : Bytes → Result ℕ ℕ
count_bytes bs = ok (length bs)

send_reply_counted : send_reply count_bytes 0 1 ≡ ok tt
unfolding send_reply
send_reply_counted = refl
