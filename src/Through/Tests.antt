-- ===== src/Through/Tests.antt =====
-- A node that asks for a negotiation and a handshake.
use jocasta.Prelude.{◌≡◌, refl, some, [], ◌∷◌, ◌++◌}
use jocasta.Go.Result.{ok}
use jocasta.Go.Io.{Bytes, eof, over}
use jocasta.Captain.DataLen.{data_len}
use jocasta.Captain.Stream.{request_bytes}
use jocasta.Through.{
  Codec, NegotiateRequest, HandshakeRequest, parse_negotiate_request, parse_handshake_request,
  negotiate_request_bytes, handshake_request_bytes, types_client, version, message_bytes,
}
use jocasta.Through.RoundTrip.{parse_negotiate_request-negotiate_request_bytes}

abbrev codec : Codec Bytes
codec = record { marshal = some; unmarshal = some }

codec_undoes : (m b : Bytes) → codec.marshal m ≡ some b → codec.unmarshal b ≡ some m
codec_undoes m b h = cc

abbrev negotiation : NegotiateRequest Bytes
negotiation = record { types = types_client; version = version; nego = 7 ∷ [] }

abbrev hand : HandshakeRequest Bytes
hand = record { version = version; hand = 8 ∷ [] }

negotiation_bytes : negotiate_request_bytes codec negotiation ≡ ok (1 ∷ 1 ∷ 1 ∷ 7 ∷ [])
unfolding negotiate_request_bytes message_bytes request_bytes data_len
negotiation_bytes = refl

hand_bytes : handshake_request_bytes codec hand ≡ ok (0 ∷ 1 ∷ 1 ∷ 8 ∷ [])
unfolding handshake_request_bytes message_bytes request_bytes data_len
hand_bytes = refl

parse_negotiate_request-negotiate_request_bytes_example :
    (parse_negotiate_request codec (over ((1 ∷ 1 ∷ 1 ∷ 7 ∷ []) ++ 9 ∷ []) eof)
      ≡ ok (negotiation, over (9 ∷ []) eof))
    × (parse_handshake_request codec (over ((0 ∷ 1 ∷ 1 ∷ 8 ∷ []) ++ 9 ∷ []) eof)
        ≡ ok (hand, over (9 ∷ []) eof))
parse_negotiate_request-negotiate_request_bytes_example =
    parse_negotiate_request-negotiate_request_bytes codec codec_undoes negotiation hand
      (1 ∷ 1 ∷ 1 ∷ 7 ∷ []) (0 ∷ 1 ∷ 1 ∷ 8 ∷ []) (9 ∷ []) eof negotiation_bytes hand_bytes
