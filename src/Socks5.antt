-- ===== src/Socks5.antt =====
-- core/socks5/structs.go, server.go and client.go: the messages and the handshakes of SOCKS5.
pub mod Packet
pub mod Methods
pub mod Request
pub mod Auth
pub mod Server
pub mod Client
pub mod Meets
use jocasta.Prelude.{ℕ}

pub data Error : Type 0 where
  version_not_supported methods_length too_short frag_unsupported host_too_long address : Error

-- ATYP_IPV4, ATYP_DOMAIN and ATYP_IPV6; VERSION_V5 and RSV.
abbrev pub atyp_ipv4 : ℕ
atyp_ipv4 = 1

abbrev pub atyp_domain : ℕ
atyp_domain = 3

abbrev pub atyp_ipv6 : ℕ
atyp_ipv6 = 4

abbrev pub version_v5 : ℕ
version_v5 = 5
