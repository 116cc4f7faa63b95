-- ===== src/Mux/Streams.antt =====
-- services/mux/server.go and client.go: what a stream between the two kinds of nodes begins with.
pub mod Meets
mod Tests
use jocasta.Prelude.{
  ℕ, ◌≡◌, refl, Bool, true, false, if◌then◌else◌, ◌%◌, ◌^◌, Option, none, some, List, [], ◌∷◌, ◌++◌,
}
use jocasta.Prelude.Int.{pos}
use jocasta.Go.Result.{Result, ok, err, panic}
use jocasta.Go.Io.{Bytes, Reader, ReadError, over}
use jocasta.Socks5.Packet.{itoa}
use jocasta.Go.HostPort.{join_host_port}
use jocasta.Go.Conn.{Conn, Exec, fail, crash, write, fresh_conn, write_ok}
use jocasta.Through.{
  Codec, HandshakeRequest, version, handshake_request_bytes, parse_handshake_request,
}
use jocasta.Mux.Route.{Route}
use jocasta.Mux.Node.{NodeError, bad_message, write_fail}

-- ddt.Network
pub data Network : Type 0 where
  tcp udp : Network

-- ddt.HandshakeRequest
pub record Hand : Type 0 where
  pub node_id : Bytes
  pub session_id : Bytes
  pub protocol : Network
  pub host : Bytes
  pub port : ℕ

-- What dialThroughRemote asks for, with the id of the server node, its route and a new id of the session:
-- the port as a uint32.
unfoldable pub hand_request : Bytes → Route → Bytes → HandshakeRequest Hand
hand_request id cfg session_id = record {
  version = version;
  hand = record {
    node_id = id;
    session_id = session_id;
    protocol = if cfg.is_udp then udp else tcp;
    host = cfg.remote_host;
    port = cfg.remote_port % 2 ^ 32;
  };
}

-- dialThroughRemote, on the stream that GetConn gives.
unfoldable pub dial_through_remote : Codec Hand → Bytes → Route → Bytes → Exec NodeError (Unit {0})
dial_through_remote codec id cfg session_id =
    elim (handshake_request_bytes codec (hand_request id cfg session_id)) [
      | err _ ↦ fail bad_message
      | panic ↦ crash
      | ok b ↦ write write_fail b
    ]

-- hand.Hand.Protocol == ddt.Network_UDP
abbrev pub is_udp : Network → Bool
is_udp tcp = false
is_udp udp = true

-- What a client node does with a stream: whether it goes on over UDP, and to which address.
unfoldable pub local_target : Codec Hand → Reader → Option (Bool × Bytes)
local_target codec r = elim (parse_handshake_request codec r) [
  | err _ ↦ none
  | panic ↦ none
  | ok p ↦ some (is_udp p.0.hand.protocol, join_host_port p.0.hand.host (itoa p.0.hand.port))
]
