-- ===== src/Captain/StreamDatagram.antt =====
-- core/captain/stream_datagram.go: a datagram with its address and its length, on a stream.
pub mod RoundTrip
mod Tests
use jocasta.Prelude.{
  ℕ, ◌+◌, Bool, true, false, [], ◌∷◌, ◌++◌, ◌&&◌, length, take, drop, ltb, ◌==◌, if◌then◌else◌,
  none, some,
}
use jocasta.Prelude.Int.{pos}
use jocasta.Go.Result
use jocasta.Go.Result.{Result, ok, err, panic, or_else}
use jocasta.Go.Io.{Bytes}
use jocasta.Go.Net.{AddrText, ipv4_len, ipv6_len, ipv4, big_endian, at}
use jocasta.Captain.{
  Error, unrecognized_addr_type, invalid_addr_type, host_too_long, AddrSpec, atyp_ipv4, atyp_domain,
  atyp_ipv6, Parser, ◌>>=◌, pure, fail, read,
}
use jocasta.Captain.Addr.{parse_addr_spec}
use jocasta.Captain.DataLen.{data_len, parse_data_len}
use jocasta.Captain.Datagram.{Datagram, addr_bytes, head_bytes}

-- NewStreamDatagram.
pub new_stream_datagram : AddrText → Bytes → Bytes → Result Error Datagram
new_stream_datagram t dest_addr payload = Result.◌>>=◌ (parse_addr_spec t dest_addr) λ addr.
    if addr.addr_type == atyp_domain && ltb 255 (length addr.fqdn)
    then err host_too_long
    else ok (record { reserved = 0; addr = addr; payload = payload })

-- An address of `n` bytes and its port, by a function that places the address.
parse_addr : ℕ → (Bytes → ℕ → AddrSpec) → Parser AddrSpec
parse_addr n place = do b ← read (n + 2); pure (place (take n b) (big_endian (drop n b)))

parse_ipv4 : Parser AddrSpec
parse_ipv4 =
    parse_addr ipv4_len
      λ b port. record { fqdn = []; ip = ipv4 b; port = pos port; addr_type = atyp_ipv4 }

parse_ipv6 : Parser AddrSpec
parse_ipv6 =
    parse_addr ipv6_len
      λ b port. record { fqdn = []; ip = b; port = pos port; addr_type = atyp_ipv6 }

parse_domain : Parser AddrSpec
parse_domain = do
  tmp ← read 1
  parse_addr (at tmp 0)
      λ b port. record { fqdn = b; ip = []; port = pos port; addr_type = atyp_domain }

parse_by_type : ℕ → Parser AddrSpec
parse_by_type addr_type =
    if addr_type == atyp_ipv4
    then parse_ipv4
    else if addr_type == atyp_ipv6
    then parse_ipv6
    else if addr_type == atyp_domain
    then parse_domain
    else fail unrecognized_addr_type

-- ParseStreamDatagram.
pub parse_stream_datagram : Parser Datagram
parse_stream_datagram = do
  tmp ← read 2
  addr ← parse_by_type (at tmp 1)
  length ← parse_data_len
  payload ← read length
  pure (record { reserved = at tmp 0; addr = addr; payload = payload })

-- (*StreamDatagram).values
values : Datagram → Bool → Result Error Bytes
values d has_data =
    Result.◌>>=◌ (or_else (addr_bytes d.addr) (err (invalid_addr_type d.addr.addr_type))) λ bytes.
      Result.◌>>=◌ (data_len (pos (length d.payload))) λ p.
        let head = head_bytes d bytes ++ take p.1 p.0 in
        ok (if has_data then head ++ d.payload else head)

-- (*StreamDatagram).Header
pub stream_datagram_header : Datagram → Result Error Bytes
unfolding values
stream_datagram_header d = values d false

-- (*StreamDatagram).Bytes
pub stream_datagram_bytes : Datagram → Result Error Bytes
unfolding values
stream_datagram_bytes d = values d true
