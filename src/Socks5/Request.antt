-- ===== src/Socks5/Request.antt =====
-- core/socks5/structs.go: Request and the replies to it.
pub mod Reads
mod Tests
use jocasta.Prelude.{
  ℕ, zero, suc, ◌+◌, ◌*◌, ◌/◌, ◌%◌, ◌-◌, ◌≡◌, refl, Bool, true, false, not, ◌&&◌, Option, none,
  some, [], ◌∷◌, ◌++◌, length, take, drop, ltb, leb, ◌==◌, if◌then◌else◌,
}
use jocasta.Prelude.Int.{ℤ, pos, to_byte, shr_eight}
use jocasta.Go.Result.{Result, ok, err, panic, ◌>>=◌, ◌>>◌, ensure, or_else}
use jocasta.Go.Io.{Bytes}
use jocasta.Go.Slice.{index, slice}
use jocasta.Go.Net.{AddrText, ipv4, to4, to16, or_empty, bytes_eq}
use jocasta.Go.HostPort.{split_host_port, join_host_port, atoi}
use jocasta.Socks5.{Error, version_not_supported, atyp_ipv4, atyp_domain, atyp_ipv6, version_v5}
use jocasta.Socks5.Packet.{itoa}
use jocasta.Socks5.Methods.{padded}

pub record Request : Type 0 where
  pub ver : ℕ
  pub cmd : ℕ
  pub reserve : ℕ
  pub address_type : ℕ
  pub dst_host : Bytes
  pub dst_port : Bytes
  pub dst_addr : Bytes
  pub bytes : Bytes

-- The host of NewRequest, in a buffer with `n` bytes; the length byte of a domain is not read.
unfoldable pub request_host : AddrText → Bytes → ℕ → ℕ → Result Error Bytes
request_host t b n atype =
    if atype == atyp_ipv4
    then slice b 4 8 >>= (λ q. ok (t.ip_string (ipv4 q)))
    else if atype == atyp_domain
    then slice b 5 (n - 2)
    else if atype == atyp_ipv6
    then slice b 4 20 >>= (λ q. ok (t.ip_string q))
    else ok []

-- b[n-2] and b[n-1]: a negative index panics.
unfoldable pub request_port : Bytes → ℕ → Result Error Bytes
request_port b n =
    if ltb n 2
    then panic
    else index b (n - 2) >>= (λ hi. index b (n - 1) >>= (λ lo. ok (itoa (hi * 256 + lo))))

-- NewRequest, on what one read into its 1024 bytes gives. An error of the version is also answered.
unfoldable pub new_request : AddrText → Bytes → Result Error Request
unfolding request_host request_port
new_request t read = do
  let b = padded 1024 read
  let n = length read
  ver ← index b 0
  cmd ← index b 1
  reserve ← index b 2
  address_type ← index b 3
  ensure (ver == version_v5) version_not_supported
  host ← request_host t b n address_type
  port ← request_port b n
  bytes ← slice b 0 n
  ok (record {
    ver = ver;
    cmd = cmd;
    reserve = reserve;
    address_type = address_type;
    dst_host = host;
    dst_port = port;
    dst_addr = join_host_port host port;
    bytes = bytes;
  })

-- fmt.Sprintf of the decimal digits of bytes.
pub digits_of : Bytes → Bytes
digits_of [] = []
digits_of (b ∷ bs) = itoa b ++ digits_of bs

-- "0000000000255255"
abbrev pub mapped_prefix : Bytes
mapped_prefix = 48 ∷ 48 ∷ 48 ∷ 48 ∷ 48 ∷ 48 ∷ 48 ∷ 48 ∷ 48 ∷ 48 ∷ 50 ∷ 53 ∷ 53 ∷ 50 ∷ 53 ∷ 53 ∷ []

-- What a call that also returns an error returns.
abbrev pub host_or_empty : {E : Type 0} → Result E (Bytes × Bytes) → Bytes × Bytes
host_or_empty (ok hp) = hp
host_or_empty (err _) = ([], [])
host_or_empty panic = ([], [])

abbrev pub port_or_zero : {E : Type 0} → Result E ℤ → ℤ
port_or_zero (ok n) = n
port_or_zero (err _) = pos 0
port_or_zero panic = pos 0

-- (*Request).NewReply: the first bytes of the 16-byte form of the address are read, and a nil address
-- has none.
unfoldable pub new_reply : AddrText → ℕ → Bytes → Result Error Bytes
unfolding digits_of
new_reply t rep addr =
    let hp = host_or_empty (split_host_port addr) in
    let ip = or_empty (t.parse_ip hp.0) in
    let port = port_or_zero (atoi hp.1) in
    or_else (to16 ip) panic >>= (λ ipv6.
      let wide = not (bytes_eq mapped_prefix (digits_of (take 12 ipv6))) in
      let reply : ℕ → Bytes → Result Error Bytes = λ atyp ipb.
        ok
          ((version_v5 ∷ rep ∷ 0 ∷ atyp ∷ ipb) ++ (to_byte (shr_eight port) ∷ to_byte port ∷ [])) in
      elim (to4 ip) [
        | some ipb ↦ reply atyp_ipv4 ipb
        | none ↦ if wide then reply atyp_ipv6 ipv6 else reply atyp_ipv4 []
      ])

-- A reply with an address whose host is no IP address panics.
pub new_reply_panics :
    (t : AddrText) (rep : ℕ) (addr : Bytes) {hp : Bytes × Bytes}
    → host_or_empty (split_host_port addr) ≡ hp
    → t.parse_ip hp.0 ≡ none
    → new_reply t rep addr ≡ panic
unfolding new_reply to16
new_reply_panics t rep addr e k = rw (new_reply, e, k) refl
