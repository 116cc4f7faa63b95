-- ===== src/Shadowsocks.antt =====
-- connection/shadowsocks/request.go: the address in front of a stream.
pub mod Cipher
pub mod Stream
pub mod Packets
pub mod Reads
mod Tests
use jocasta.Prelude.{
  ℕ, ◌+◌, ◌*◌, ◌%◌, Option, none, some, [], ◌∷◌, ◌++◌, length, take, drop, ◌==◌, if◌then◌else◌,
  bit_and,
}
use jocasta.Prelude.Int.{ℤ, to_byte, shr_eight}
use jocasta.Go.Result.{Result, ok, err, panic, ◌>>=◌, map_err}
use jocasta.Go.Io.{Bytes, Reader, ReadError, read_full}
use jocasta.Go.Net.{AddrText, at, big_endian, to4, to16, or_empty}
use jocasta.Go.HostPort.{split_host_port, join_host_port, atoi}
use jocasta.Socks5.Packet.{itoa}

pub data Error : Type 0 where
  read_error : ReadError → Error
  type_not_supported : Error
  address_error : Error
  invalid_port : Error

abbrev pub addr_mask : ℕ
addr_mask = 15

abbrev pub type_ipv4 : ℕ
type_ipv4 = 1

abbrev pub type_domain : ℕ
type_domain = 3

abbrev pub type_ipv6 : ℕ
type_ipv6 = 4

-- The read of an address of `n` bytes and its port: the address, the port and what is left.
pub read_addr : ℕ → Reader → Result Error (Bytes × ℕ × Reader)
read_addr n r =
    map_err read_error (read_full (n + 2) r) >>= λ x. ok (take n x.0, big_endian (drop n x.0), x.1)

-- The host of ParseRequest behind the type.
pub read_host : AddrText → ℕ → Reader → Result Error (Bytes × ℕ × Reader)
read_host t addr_type r =
    if addr_type == type_ipv4
    then read_addr 4 r >>= (λ a. ok (t.ip_string a.0, a.1, a.2))
    else if addr_type == type_ipv6
    then read_addr 16 r >>= (λ a. ok (t.ip_string a.0, a.1, a.2))
    else if addr_type == type_domain
    then map_err read_error (read_full 1 r) >>= (λ x. read_addr (at x.0 0) x.1)
    else err type_not_supported

-- ParseRequest, with what is left of the reader.
pub parse_request : AddrText → Reader → Result Error (Bytes × Reader)
parse_request t r = map_err read_error (read_full 1 r) >>= λ x.
    read_host t (bit_and (at x.0 0) addr_mask) x.1 >>= λ a. ok (join_host_port a.0 (itoa a.1), a.2)

-- ParseAddrSpec: an address that is nil has no 4-byte and no 16-byte form.
pub parse_addr_spec : AddrText → Bytes → Result Error Bytes
parse_addr_spec t addr = map_err (λ _. address_error) (split_host_port addr) >>= λ hp.
    map_err (λ _. invalid_port) (atoi hp.1) >>= λ port.
    let ip = or_empty (t.parse_ip hp.0) in
    let tail : Bytes = to_byte (shr_eight port) ∷ to_byte port ∷ [] in
    elim (to4 ip) [
      | some ip4 ↦ ok (type_ipv4 ∷ (ip4 ++ tail))
      | none ↦ elim (to16 ip) [
        | some ip6 ↦ ok (type_ipv6 ∷ (ip6 ++ tail))
        | none ↦ ok (type_domain ∷ length hp.0 % 256 ∷ (hp.0 ++ tail))
      ]
    ]
