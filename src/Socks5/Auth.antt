-- ===== src/Socks5/Auth.antt =====
-- core/socks5/server.go: what the server reads of an authentication message.
use jocasta.Prelude.{◌+◌, ◌%◌}
use jocasta.Go.Result.{Result, ok, ◌>>=◌}
use jocasta.Go.Io.{Bytes}
use jocasta.Go.Slice.{index, slice, slice_from}
use jocasta.Socks5.Methods.{padded}

pub data ServerError : Type 0 where
  methods_request_fail reply_fail none_method read_auth_fail answer_auth_fail : ServerError
  auth_fail read_request_fail bind_not_supported associate_not_supported udp_bind_fail : ServerError

-- The user and the password of an authentication message. The bounds are bytes, which wrap, and a
-- slice of `buf[:n]` with an upper bound may reach to the end of the 500 bytes of `buf`.
unfoldable pub credentials : Bytes → Result ServerError (Bytes × Bytes)
credentials r = do
  user_len ← index r 1
  name ← slice (padded 500 r) 2 ((user_len + 2) % 256)
  pwd ← slice_from r ((2 + user_len + 1) % 256)
  ok (name, pwd)
