-- ===== src/Socks5/Packet.antt =====
-- core/socks5/structs.go: UDPPacket and PacketUDP, which carry a datagram with its address.
pub mod Bounds
mod Tests
use jocasta.Prelude.{
  ℕ, zero, suc, ◌+◌, ◌*◌, ◌/◌, ◌%◌, ◌^◌, ◌-◌, Bool, true, false, Option, none, some, [], ◌∷◌, ◌++◌,
  length, take, drop, ltb, leb, ◌==◌, if◌then◌else◌,
}
use jocasta.Go.Result.{Result, ok, err, panic, ◌>>=◌, ◌>>◌, ensure, map_err}
use jocasta.Go.Io.{Bytes}
use jocasta.Go.Slice.{index, slice, slice_from}
use jocasta.Go.Net.{AddrText, ipv4, to4, to16, or_empty}
use jocasta.Go.HostPort.{split_host_port, join_host_port, digits}
use jocasta.Socks5.{
  Error, too_short, frag_unsupported, host_too_long, address, atyp_ipv4, atyp_domain, atyp_ipv6,
}

-- strconv.Itoa of a number that is no int's overflow: at most twenty digits.
decimal : ℕ → ℕ → Bytes
decimal zero n = []
decimal (suc fuel) n =
    let front = decimal fuel (n / 10) in
    if ltb n 10 then (48 + n) ∷ [] else front ++ (48 + n % 10) ∷ []

pub itoa : ℕ → Bytes
unfolding decimal
itoa n = decimal 20 n

-- The value that strconv.ParseUint(s, 10, 64) returns, also with an error.
pub parse_uint : Bytes → ℕ
parse_uint [] = 0
parse_uint (c ∷ cs) = elim (digits 0 (c ∷ cs)) [
  | none ↦ 0
  | some n ↦ if ltb n (2 ^ 64) then n else 2 ^ 64 - 1
]

-- PacketUDP; rsv is 0 always.
pub record Packet : Type 0 where
  pub frag : ℕ
  pub atype : ℕ
  pub dst_host : Bytes
  pub dst_port : Bytes
  pub contents : Bytes

-- The host of an address that stands behind the type, and the place of the port. The sum of the
-- domain's place and length is a uint8.
pub host_at : AddrText → Bytes → ℕ → Result Error (Bytes × ℕ)
host_at t b atype =
    if atype == atyp_ipv4
    then slice b 4 8 >>= (λ q. ok (t.ip_string (ipv4 q), 8))
    else if atype == atyp_domain
    then index b 4 >>= (λ domain_len.
      slice b 5 ((5 + domain_len) % 256) >>= (λ host. ok (host, (5 + domain_len) % 256)))
    else if atype == atyp_ipv6
    then slice b 4 20 >>= (λ q. ok (t.ip_string q, 20))
    else ok ([], 0)

-- The port and the payload behind the address.
pub port_at : Bytes → ℕ → Result Error (Bytes × Bytes)
port_at b port_index = do
  hi ← index b port_index
  lo ← index b (port_index + 1)
  contents ← slice_from b (port_index + 2)
  ok (itoa (hi * 256 + lo), contents)

-- The tests on the length of (*PacketUDP).Parse.
pub long_enough : Bytes → ℕ → Result Error (Unit {0})
long_enough b atype =
    if atype == atyp_ipv4
    then ensure (leb 11 (length b)) too_short
    else if atype == atyp_domain
    then index b 4 >>= (λ domain_len. ensure (leb (domain_len + 7) (length b)) too_short)
    else if atype == atyp_ipv6
    then ensure (leb 22 (length b)) too_short
    else ok tt

-- (*PacketUDP).Parse
pub parse : AddrText → Bytes → Result Error Packet
parse t b = do
  ensure (leb 9 (length b)) too_short
  frag ← index b 2
  ensure (frag == 0) frag_unsupported
  atype ← index b 3
  _ ← long_enough b atype
  h ← host_at t b atype
  p ← port_at b h.1
  ok (record { frag = frag; atype = atype; dst_host = h.0; dst_port = p.0; contents = p.1 })

-- UDPPacket: also its header, for replies.
pub record UdpPacket : Type 0 where
  pub udp_frag : ℕ
  pub udp_atype : ℕ
  pub udp_host : Bytes
  pub udp_port : Bytes
  pub udp_contents : Bytes
  pub header : Bytes

-- Fragments are refused, with an error whose text shows the first four bytes.
whole : Bytes → ℕ → Result Error (Unit {0})
whole b frag =
    let refused : Result Error (Unit {0}) = slice b 0 4 >>= (λ _. err frag_unsupported) in
    if frag == 0 then ok tt else refused

-- ParseUDPPacket, which tests no length.
pub parse_udp_packet : AddrText → Bytes → Result Error UdpPacket
parse_udp_packet t b = do
  frag ← index b 2
  _ ← whole b frag
  atype ← index b 3
  h ← host_at t b atype
  p ← port_at b h.1
  front ← slice b 0 (h.1 + 2)
  ok (record {
    udp_frag = frag;
    udp_atype = atype;
    udp_host = h.0;
    udp_port = p.0;
    udp_contents = p.1;
    header = front;
  })

-- (*UDPPacket).NewReply
pub new_reply : UdpPacket → Bytes → Bytes
new_reply p reply = p.header ++ reply

-- (*PacketUDP).Build
pub build : AddrText → Bytes → Bytes → Result Error Packet
build t dest_addr contents = do
  hp ← map_err (λ _. address) (split_host_port dest_addr)
  let packet : ℕ → Result Error Packet = λ atype.
      ok (record { frag = 0; atype = atype; dst_host = hp.0; dst_port = hp.1; contents = contents })
  elim (t.parse_ip hp.0) [
    | some ip ↦ elim (to4 ip) [ some _ ↦ packet atyp_ipv4 | none ↦ packet atyp_ipv6 ]
    | none ↦ ensure (leb (length hp.0) 255) host_too_long >> packet atyp_domain
  ]

-- (*PacketUDP).Header
pub packet_header : AddrText → Packet → Bytes
packet_header t p =
    let ip = or_empty (t.parse_ip p.dst_host) in
    let addr =
      if p.atype == atyp_ipv4
      then or_empty (to4 ip)
      else if p.atype == atyp_ipv6
      then or_empty (to16 ip)
      else if p.atype == atyp_domain
      then length p.dst_host % 256 ∷ p.dst_host
      else [] in
    let port = parse_uint p.dst_port in
    (0 ∷ 0 ∷ p.frag ∷ p.atype ∷ addr) ++ (port / 256 % 256 ∷ port % 256 ∷ [])

-- (*PacketUDP).Bytes
pub packet_bytes : AddrText → Packet → Bytes
packet_bytes t p = packet_header t p ++ p.contents
