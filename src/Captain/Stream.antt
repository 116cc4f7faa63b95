-- ===== src/Captain/Stream.antt =====
-- core/captain/stream.go: requests and replies.
pub mod RoundTrip
mod Tests
use jocasta.Prelude.{
  ℕ, zero, suc, ◌+◌, Bool, true, false, [], ◌∷◌, ◌++◌, length, take, if◌then◌else◌,
}
use jocasta.Prelude.Int.{pos}
use jocasta.Go.Result.{Result, ok, err, panic}
use jocasta.Go.Io.{Bytes, Reader}
use jocasta.Go.Net.{at}
use jocasta.Captain.{Error, Parser, ◌>>=◌, pure, read}
use jocasta.Captain.DataLen.{data_len, parse_data_len}
use jocasta.Go.Result

pub record Request : Type 0 where
  pub types : ℕ
  pub version : ℕ
  pub payload : Bytes

-- ParseRequest.
unfoldable pub parse_request : Parser Request
parse_request = do
  tmp ← read 2
  length ← parse_data_len
  payload ← read length
  pure (record { types = at tmp 0; version = at tmp 1; payload = payload })

-- (Request).value
request_value : Request → Bool → Result Error Bytes
request_value req has_data = Result.◌>>=◌ (data_len (pos (length req.payload))) λ p.
    let head = (req.types ∷ req.version ∷ []) ++ take p.1 p.0 in
    ok (if has_data then head ++ req.payload else head)

-- (Request).Bytes
unfoldable pub request_bytes : Request → Result Error Bytes
unfolding request_value
request_bytes req = request_value req true

-- (Request).Header
pub request_header : Request → Result Error Bytes
unfolding request_value
request_header req = request_value req false

pub record Reply : Type 0 where
  pub status : ℕ
  pub version : ℕ

-- ParseReply.
pub parse_reply : Parser Reply
parse_reply = do tmp ← read 2; pure (record { status = at tmp 0; version = at tmp 1 })

-- SendReply, on a writer that answers with the number of bytes written or an error.
pub send_reply {κ} : {E : Type κ} → (Bytes → Result E ℕ) → ℕ → ℕ → Result E (Unit {0})
send_reply write status version = Result.◌>>=◌ (write (status ∷ version ∷ [])) (λ _. ok tt)
