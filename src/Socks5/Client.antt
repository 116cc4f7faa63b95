-- ===== src/Socks5/Client.antt =====
-- core/socks5/client.go: the handshake of the client.
use jocasta.Prelude.{
  ℕ, ◌%◌, Bool, true, false, not, ◌&&◌, ◌||◌, Option, none, some, [], ◌∷◌, ◌++◌, length, ltb, leb,
  ◌==◌, if◌then◌else◌,
}
use jocasta.Prelude.Int.{ℤ, pos, to_byte, shr_eight, ltb_ℤ}
use jocasta.Go.Result.{Result, ok, err, map_err}
use jocasta.Go.Io.{Bytes}
use jocasta.Go.Conn.{Exec, ◌>>=◌, ◌>>◌, pure, fail, lift, write, read_full}
use jocasta.Go.Net.{AddrText, at, to4, to16, or_empty, big_endian, ipv4_len, ipv6_len}
use jocasta.Go.HostPort.{split_host_port, join_host_port, atoi}
use jocasta.Socks5.{version_v5, atyp_ipv4, atyp_domain, atyp_ipv6}
use jocasta.Socks5.Packet.{itoa}
use jocasta.Socks5.Server.{no_auth, user_pass, any_addr, cmd_connect, cmd_associate}

pub data ClientError : Type 0 where
  address_fail port_fail port_range greeting_write_fail greeting_read_fail : ClientError
  unexpected_version auth_required auth_write_fail auth_read_fail auth_rejected : ClientError
  host_too_long request_write_fail reply_read_fail unknown_address : ClientError
  domain_read_fail address_read_fail port_read_fail : ClientError
  -- "failed to connect", with the place in `socks5Errors`, of eight texts, or "unknown error".
  failed : ℕ → ClientError

pub data Network : Type 0 where
  tcp udp : Network

-- Client; the connection is the state of the procedures below.
pub record Client : Type 0 where
  pub user : Bytes
  pub password : Bytes
  pub addr : Bytes
  pub network : Network

-- "udp" with no target stands for any address.
abbrev pub target_or_any : Network → Bytes → Bytes
target_or_any tcp target = target
target_or_any udp [] = any_addr
target_or_any udp (x ∷ xs) = x ∷ xs

-- NewClient
unfoldable pub new_client : Network → Bytes → Option (Bytes × Bytes) → Client
new_client network target none = record {
  user = [];
  password = [];
  addr = target_or_any network target;
  network = network;
}
new_client network target (some a) = record {
  user = a.0;
  password = a.1;
  addr = target_or_any network target;
  network = network;
}

abbrev pub check : Bool → ClientError → Exec ClientError (Unit {0})
check true e = pure tt
check false e = fail e

-- Whether the user and the password can be sent.
abbrev pub sends_auth : Client → Bool
sends_auth s = ltb 0 (length s.user) && (ltb (length s.user) 256 && ltb (length s.password) 256)

abbrev pub greeting : Client → Bytes
greeting s =
    if sends_auth s
    then version_v5 ∷ 2 ∷ no_auth ∷ user_pass ∷ []
    else version_v5 ∷ 1 ∷ no_auth ∷ []

-- The message of RFC 1929; the lengths are cut to a byte.
abbrev pub auth_message : Client → Bytes
auth_message s = (1 ∷ length s.user % 256 ∷ s.user) ++ (length s.password % 256 ∷ s.password)

-- The answer to the greeting, given its method.
unfoldable pub answer_method : Client → ℕ → Exec ClientError (Unit {0})
answer_method s m =
    if m == user_pass
    then (do
      write auth_write_fail (auth_message s)
      r ← read_full auth_read_fail 2
      check (at r 1 == 0) auth_rejected)
    else pure tt

-- (*Client).handshake
unfoldable pub negotiate : Client → Exec ClientError (Unit {0})
unfolding answer_method
negotiate s = do
  write greeting_write_fail (greeting s)
  r ← read_full greeting_read_fail 2
  check (at r 0 == 5) unexpected_version
  check (not (at r 1 == 255)) auth_required
  answer_method s (at r 1)

abbrev pub command : Network → ℕ
command tcp = cmd_connect
command udp = cmd_associate

-- The address of a request, or the error of a host that is too long for the length byte.
unfoldable pub request_addr : AddrText → Bytes → Result ClientError Bytes
request_addr t host = elim (t.parse_ip host) [
  | some ip ↦ elim (to4 ip) [ some ip4 ↦ ok (atyp_ipv4 ∷ ip4) | none ↦ ok (atyp_ipv6 ∷ ip) ]
  | none ↦
      if leb (length host) 255
      then ok (atyp_domain ∷ length host % 256 ∷ host)
      else err host_too_long
]

unfoldable pub request_bytes : Client → Bytes → ℤ → Bytes
request_bytes s a port =
    (version_v5 ∷ command s.network ∷ 0 ∷ a) ++ (to_byte (shr_eight port) ∷ to_byte port ∷ [])

-- The number of bytes of the address in a reply of this type.
unfoldable pub address_length : ℕ → Exec ClientError ℕ
address_length atyp =
    let domain : Exec ClientError ℕ = read_full domain_read_fail 1 >>= λ b. pure (at b 0) in
    if atyp == atyp_ipv4
    then pure ipv4_len
    else if atyp == atyp_ipv6
    then pure ipv6_len
    else if atyp == atyp_domain
    then domain
    else fail unknown_address

-- The text of an address is made of its length alone: 4 or 16 bytes of a domain are read as an IP
-- address, and another domain has no text.
unfoldable pub address_text : AddrText → Bytes → Bytes
address_text t ip =
    if length ip == ipv4_len || length ip == ipv6_len
    then elim (to4 ip) [ some ip4 ↦ t.ip_string ip4 | none ↦ t.ip_string (or_empty (to16 ip)) ]
    else []

-- The reply, from which the address for UDP is made.
unfoldable pub read_reply : AddrText → Exec ClientError Bytes
unfolding address_length address_text
read_reply t = do
  r ← read_full reply_read_fail 4
  check (at r 1 == 0) (failed (at r 1))
  n ← address_length (at r 3)
  ip ← read_full address_read_fail n
  p ← read_full port_read_fail 2
  pure (join_host_port (address_text t ip) (itoa (big_endian p)))

abbrev pub in_range : Network → ℤ → Bool
in_range tcp port = not (ltb_ℤ port (pos 1)) && not (ltb_ℤ (pos 65535) port)
in_range udp port = true

-- (*Client).Handshake, which returns what it sets UDPAddr to.
unfoldable pub client_handshake : AddrText → Client → Exec ClientError Bytes
unfolding negotiate request_addr request_bytes read_reply
client_handshake t s = do
  hp ← lift (map_err (λ _. address_fail) (split_host_port s.addr))
  port ← lift (map_err (λ _. port_fail) (atoi hp.1))
  check (in_range s.network port) port_range
  negotiate s
  a ← lift (request_addr t hp.0)
  write request_write_fail (request_bytes s a port)
  read_reply t
