-- ===== src/Captain/Datagram/Tests.antt =====
-- Packets of the three address types, and the theorems at them.
use jocasta.Prelude.{◌≡◌, refl, inl, [], ◌∷◌, arith}
use jocasta.Go.Result.{ok}
use jocasta.Go.Io.{Bytes}
use jocasta.Go.Slice.{index, slice, slice_from}
use jocasta.Captain.Datagram.{Datagram, parse_datagram, parse_domain, build, datagram_bytes}
use jocasta.Captain.Datagram.Wire.{domain_addr, IsWire}
use jocasta.Captain.Datagram.RoundTrip.{parse_datagram-datagram_bytes}
use jocasta.Captain.Datagram.Accepts.{datagram_bytes-parse_datagram}

-- The name "a.b" and port 80.
abbrev named : Bytes → Datagram
named payload = record {
  reserved = 0;
  addr = domain_addr (97 ∷ 46 ∷ 98 ∷ []) 80;
  payload = payload;
}

abbrev named_IsWire : (payload : Bytes) → IsWire (named payload).addr
named_IsWire payload = IsWire.domain (97 ∷ 46 ∷ 98 ∷ []) 80 (omega arith) (omega arith) refl

abbrev packet : Bytes → Bytes
packet payload = 0 ∷ 3 ∷ 3 ∷ 97 ∷ 46 ∷ 98 ∷ 0 ∷ 80 ∷ payload

named_bytes : (payload : Bytes) → datagram_bytes (named payload) ≡ ok (packet payload)
unfolding datagram_bytes
named_bytes payload = refl

packet_read : parse_datagram (packet (7 ∷ [])) ≡ ok (named (7 ∷ []))
unfolding parse_datagram parse_domain build index slice slice_from
packet_read = refl

parse_datagram-datagram_bytes_example : parse_datagram (packet (7 ∷ [])) ≡ ok (named (7 ∷ []))
parse_datagram-datagram_bytes_example =
    parse_datagram-datagram_bytes (named (7 ∷ [])) (named_IsWire (7 ∷ [])) (packet (7 ∷ []))
      (named_bytes (7 ∷ [])) (omega arith) (inl (λ e. cc))

datagram_bytes-parse_datagram_example :
    IsWire (named (7 ∷ [])).addr × (datagram_bytes (named (7 ∷ [])) ≡ ok (packet (7 ∷ [])))
datagram_bytes-parse_datagram_example =
    datagram_bytes-parse_datagram (packet (7 ∷ [])) (named (7 ∷ [])) (omega arith) packet_read
