-- ===== src/Mux/Streams/Tests.antt =====
-- A stream for the host "a" over UDP.
use jocasta.Prelude.{
  ℕ, ◌≡◌, refl, sym, ap, true, ◌==◌, if◌then◌else◌, arith, Option, none, some, [], ◌∷◌, ◌++◌,
}
use jocasta.Go.Result.{ok}
use jocasta.Go.Io.{Bytes, eof, over}
use jocasta.Go.HostPort.{join_host_port, has_byte}
use jocasta.Go.Conn.{fresh_conn}
use jocasta.Captain.DataLen.{data_len}
use jocasta.Captain.Stream.{request_bytes}
use jocasta.Socks5.Packet.{itoa}
use jocasta.Through.{Codec, handshake_request_bytes, message_bytes}
use jocasta.Mux.Route.{Route, parse_route, scheme}
use jocasta.Mux.Streams.{Network, tcp, udp, Hand, hand_request, dial_through_remote, local_target}
use jocasta.Mux.Streams.Meets.{streams_meet}

abbrev route : Route
route = record { is_udp = true; local = 98 ∷ []; remote_host = 97 ∷ []; remote_port = 53 }

-- The host is one byte; the port is 53.
abbrev split_remote : Bytes → Option (Bytes × ℕ)
split_remote [] = none
split_remote (h ∷ port) = some (h ∷ [], 53)

abbrev hand_of : Network → ℕ → Bytes → Hand
hand_of p port host = record {
  node_id = [];
  session_id = [];
  protocol = p;
  host = host;
  port = port;
}

-- A message is the protocol, the port and the host; those with ids cannot be written.
abbrev encode : Bytes → Bytes → Network → Bytes → ℕ → Option Bytes
encode [] [] tcp host port = some (0 ∷ port ∷ host)
encode [] [] udp host port = some (1 ∷ port ∷ host)
encode [] (c ∷ cs) p host port = none
encode (c ∷ cs) session p host port = none

abbrev decode : Bytes → Option Hand
decode (p ∷ port ∷ host) = some (hand_of (if p == 0 then tcp else udp) port host)
decode _ = none

abbrev codec : Codec Hand
codec = record {
  marshal = λ h. encode h.node_id h.session_id h.protocol h.host h.port;
  unmarshal = decode;
}

decode_encoded :
    (node session : Bytes) (p : Network) (host : Bytes) (port : ℕ) (x : Bytes)
    → encode node session p host port ≡ some x
    → decode x
      ≡ some
          (record { node_id = node; session_id = session; protocol = p; host = host; port = port })
decode_encoded [] [] tcp host port x h = let same : 0 ∷ port ∷ host ≡ x = cc in ap decode (sym same)
decode_encoded [] [] udp host port x h = let same : 1 ∷ port ∷ host ≡ x = cc in ap decode (sym same)
decode_encoded [] (c ∷ cs) p host port x h = cc
decode_encoded (c ∷ cs) session p host port x h = cc

codec_undoes : (m : Hand) (x : Bytes) → codec.marshal m ≡ some x → codec.unmarshal x ≡ some m
codec_undoes m x h = decode_encoded m.node_id m.session_id m.protocol m.host m.port x h

hand_bytes :
    handshake_request_bytes codec (hand_request [] route []) ≡ ok (0 ∷ 1 ∷ 3 ∷ 1 ∷ 53 ∷ 97 ∷ [])
unfolding handshake_request_bytes message_bytes request_bytes data_len hand_request
hand_bytes = refl

streams_meet_example :
    (cfg : Route) × (parse_route split_remote (scheme true ++ (98 ∷ b'@' ∷ 97 ∷ b':' ∷ []))
      ≡ ok cfg)
    × (dial_through_remote codec [] cfg [] (fresh_conn [] 1)
        ≡ (ok tt, record { pending = []; room = 0; written = (0 ∷ 1 ∷ 3 ∷ 1 ∷ 53 ∷ 97 ∷ []) ∷ [] }))
    × (local_target codec (over ((0 ∷ 1 ∷ 3 ∷ 1 ∷ 53 ∷ 97 ∷ []) ++ 9 ∷ []) eof)
        ≡ some (true, join_host_port (97 ∷ []) (itoa 53)))
unfolding has_byte
streams_meet_example =
    streams_meet codec codec_undoes split_remote true (98 ∷ []) (97 ∷ b':' ∷ []) (97 ∷ []) [] []
      (0 ∷ 1 ∷ 3 ∷ 1 ∷ 53 ∷ 97 ∷ []) (9 ∷ []) 53 eof (omega arith) refl refl (omega arith) refl refl
      (omega arith) hand_bytes
