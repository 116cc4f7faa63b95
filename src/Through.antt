-- ===== src/Through.antt =====
-- pkg/through/negotiate.go and handshake.go: the first messages of a node. The coding of a message by
-- protobuf is a parameter.
pub mod RoundTrip
mod Tests
use jocasta.Prelude.{ℕ, Option, none, some}
use jocasta.Go.Result.{Result, ok, err, panic}
use jocasta.Go.Io.{Bytes, Reader}
use jocasta.Captain.{Error}
use jocasta.Captain.Stream.{Request, parse_request, request_bytes}

-- Version
abbrev pub version : ℕ
version = 1

-- TypesClient and TypesServer
abbrev pub types_client : ℕ
types_client = 1

abbrev pub types_server : ℕ
types_server = 2

abbrev pub rep_success : ℕ
rep_success = 0

abbrev pub rep_server_failure : ℕ
rep_server_failure = 2

abbrev pub rep_types_not_support : ℕ
rep_types_not_support = 4

-- proto.Marshal and proto.Unmarshal of a message.
pub record Codec (M : Type 0) : Type 0 where
  pub marshal : M → Option Bytes
  pub unmarshal : Bytes → Option M

-- An error of captain, or one of the codec.
pub data ThroughError : Type 0 where
  of_captain : Error → ThroughError
  bad_message : ThroughError

pub record NegotiateRequest (M : Type 0) : Type 0 where
  pub types : ℕ
  pub version : ℕ
  pub nego : M

pub record HandshakeRequest (M : Type 0) : Type 0 where
  pub version : ℕ
  pub hand : M

module _ {M : Type 0} (codec : Codec M) where
  -- The request of captain and the message in it.
  unfoldable pub parse_message : Reader → Result ThroughError (Request × M × Reader)
  parse_message r = elim (parse_request r) [
    | err e ↦ err (of_captain e)
    | panic ↦ panic
    | ok p ↦ elim (codec.unmarshal p.0.payload) [
      | none ↦ err bad_message
      | some m ↦ ok (p.0, m, p.1)
    ]
  ]

  -- ParseNegotiateRequest
  unfoldable pub parse_negotiate_request :
      Reader → Result ThroughError (NegotiateRequest M × Reader)
  unfolding parse_message
  parse_negotiate_request r = elim (parse_message r) [
    | err e ↦ err e
    | panic ↦ panic
    | ok p ↦ ok (record { types = p.0.types; version = p.0.version; nego = p.1 }, p.2)
  ]

  -- ParseHandshakeRequest
  unfoldable pub parse_handshake_request :
      Reader → Result ThroughError (HandshakeRequest M × Reader)
  unfolding parse_message
  parse_handshake_request r = elim (parse_message r) [
    | err e ↦ err e
    | panic ↦ panic
    | ok p ↦ ok (record { version = p.0.version; hand = p.1 }, p.2)
  ]

  unfoldable pub message_bytes : ℕ → ℕ → M → Result ThroughError Bytes
  message_bytes types v m = elim (codec.marshal m) [
    | none ↦ err bad_message
    | some b ↦ elim (request_bytes (record { types = types; version = v; payload = b })) [
      | err e ↦ err (of_captain e)
      | panic ↦ panic
      | ok bs ↦ ok bs
    ]
  ]

  -- (*NegotiateRequest).Bytes
  unfoldable pub negotiate_request_bytes : NegotiateRequest M → Result ThroughError Bytes
  unfolding message_bytes
  negotiate_request_bytes r = message_bytes r.types r.version r.nego

  -- (*HandshakeRequest).Bytes, which leaves the types out.
  unfoldable pub handshake_request_bytes : HandshakeRequest M → Result ThroughError Bytes
  unfolding message_bytes
  handshake_request_bytes r = message_bytes 0 r.version r.hand
