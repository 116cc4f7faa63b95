-- ===== src/Captain/Datagram.antt =====
-- core/captain/datagram.go: a datagram with its address, as one UDP packet.
pub mod Wire
pub mod RoundTrip
pub mod Accepts
mod Tests
use jocasta.Prelude.{
  ℕ, ◌+◌, ◌-◌, ◌%◌, Bool, true, false, [], ◌∷◌, ◌++◌, ◌&&◌, length, take, drop, ltb, leb, ◌==◌,
  if◌then◌else◌, Option, none, some,
}
use jocasta.Prelude.Int.{pos, to_byte, shr_eight}
use jocasta.Go.Result.{Result, ok, err, panic, ◌>>=◌, ◌>>◌, ensure, or_else}
use jocasta.Go.Io.{Bytes}
use jocasta.Go.Slice.{index, slice, slice_from}
use jocasta.Go.Net.{AddrText, ipv4_len, ipv6_len, ipv4, to4, to16, or_empty, big_endian}
use jocasta.Captain.{
  Error, unrecognized_addr_type, too_short, host_too_long, AddrSpec, atyp_ipv4, atyp_domain,
  atyp_ipv6,
}
use jocasta.Captain.Addr.{parse_addr_spec}

-- Datagram, and StreamDatagram, which has the same fields.
pub record Datagram : Type 0 where
  pub reserved : ℕ
  pub addr : AddrSpec
  pub payload : Bytes

-- NewDatagram.
pub new_datagram : AddrText → Bytes → Bytes → Result Error Datagram
new_datagram t dest_addr payload = do
  addr ← parse_addr_spec t dest_addr
  if addr.addr_type == atyp_domain && ltb 255 (length addr.fqdn)
      then err host_too_long
      else ok (record { reserved = 0; addr = addr; payload = payload })

-- A datagram whose address and payload stand at the given places of a packet.
build : Bytes → ℕ → ℕ → Bytes → Bytes → ℕ → Result Error Datagram
build b reserved addr_type fqdn ip head_len = do
  port ← slice b (head_len - 2) head_len
  payload ← slice_from b head_len
  ok (record {
    reserved = reserved;
    addr = record { fqdn = fqdn; ip = ip; port = pos (big_endian port); addr_type = addr_type };
    payload = payload;
  })

parse_ipv4 : Bytes → ℕ → Result Error Datagram
parse_ipv4 b reserved = do
  ip ← slice b 2 6
  build b reserved atyp_ipv4 [] (ipv4 ip) (2 + (ipv4_len + 2))

parse_ipv6 : Bytes → ℕ → Result Error Datagram
parse_ipv6 b reserved = do
  let head_len = 2 + (ipv6_len + 2)
  ensure (ltb head_len (length b)) too_short
  ip ← slice b 2 (2 + ipv6_len)
  build b reserved atyp_ipv6 [] ip head_len

parse_domain : Bytes → ℕ → Result Error Datagram
parse_domain b reserved = do
  addr_len ← index b 2
  let head_len = 2 + (1 + addr_len + 2)
  ensure (ltb head_len (length b)) too_short
  fqdn ← slice b 3 (3 + addr_len)
  build b reserved atyp_domain fqdn [] head_len

-- ParseDatagram.
pub parse_datagram : Bytes → Result Error Datagram
parse_datagram b = do
  ensure (leb (2 + ipv4_len + 2) (length b)) too_short
  reserved ← index b 0
  addr_type ← index b 1
  if addr_type == atyp_ipv4
      then parse_ipv4 b reserved
      else if addr_type == atyp_ipv6
      then parse_ipv6 b reserved
      else if addr_type == atyp_domain
      then parse_domain b reserved
      else err unrecognized_addr_type

-- The bytes that stand for the address; `none` is an address type that is none of the three.
unfoldable pub addr_bytes : AddrSpec → Option Bytes
addr_bytes a =
    if a.addr_type == atyp_ipv4
    then some (or_empty (to4 a.ip))
    else if a.addr_type == atyp_ipv6
    then some (or_empty (to16 a.ip))
    else if a.addr_type == atyp_domain
    then some a.fqdn
    else none

-- The reserved byte, the address type, the length of a name, the address and the port.
unfoldable pub head_bytes : Datagram → Bytes → Bytes
head_bytes d bytes =
    let a = d.addr in
    let tail = bytes ++ to_byte (shr_eight a.port) ∷ to_byte a.port ∷ [] in
    d.reserved
    ∷ a.addr_type
    ∷ (if a.addr_type == atyp_domain then length a.fqdn % 256 ∷ tail else tail)

-- (*Datagram).values
values : Datagram → Bool → Result Error Bytes
unfolding addr_bytes head_bytes
values d has_data = do
  bytes ← or_else (addr_bytes d.addr) panic
  let head = head_bytes d bytes
  ok (if has_data then head ++ d.payload else head)

-- (*Datagram).Header
pub datagram_header : Datagram → Result Error Bytes
unfolding values
datagram_header d = values d false

-- (*Datagram).Bytes
pub datagram_bytes : Datagram → Result Error Bytes
unfolding values
datagram_bytes d = values d true
