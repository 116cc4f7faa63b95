-- ===== src/Captain/Datagram/Wire.antt =====
-- The addresses that have a wire form, and what that form is.
use jocasta.Prelude.{ℕ, ◌/◌, ◌%◌, ◌<◌, ◌≡◌, ap, [], ◌∷◌, ◌++◌, length, some, arith, append_assoc}
use jocasta.Prelude.Int.{pos}
use jocasta.Go.Io.{Bytes}
use jocasta.Go.Net.{to4-ipv4}
use jocasta.Go.Net
use jocasta.Captain.{AddrSpec, atyp_ipv4, atyp_domain, atyp_ipv6}
use jocasta.Captain.Datagram.{Datagram, addr_bytes, head_bytes}

abbrev pub v4_addr : Bytes → ℕ → AddrSpec
v4_addr q p = record { fqdn = []; ip = Net.ipv4 q; port = pos p; addr_type = atyp_ipv4 }

abbrev pub v6_addr : Bytes → ℕ → AddrSpec
v6_addr q p = record { fqdn = []; ip = q; port = pos p; addr_type = atyp_ipv6 }

abbrev pub domain_addr : Bytes → ℕ → AddrSpec
domain_addr q p = record { fqdn = q; ip = []; port = pos p; addr_type = atyp_domain }

-- An address that the sender of a frame can write in full: a 16-byte form of an IPv4 address, an
-- IPv6 address or a name of at most 255 bytes, and a port in range.
pub data IsWire (a : AddrSpec) : Type 0 where
  ipv4 : (q : Bytes) (p : ℕ) → length q ≡ 4 → p < 65536 → a ≡ v4_addr q p → IsWire a
  ipv6 : (q : Bytes) (p : ℕ) → length q ≡ 16 → p < 65536 → a ≡ v6_addr q p → IsWire a
  domain : (q : Bytes) (p : ℕ) → length q < 256 → p < 65536 → a ≡ domain_addr q p → IsWire a

-- The address, between the address type and what follows the port.
abbrev pub wire : {a : AddrSpec} → IsWire a → Bytes → Bytes
wire (ipv4 q p _ _ _) ys = q ++ (p / 256) ∷ p % 256 ∷ ys
wire (ipv6 q p _ _ _) ys = q ++ (p / 256) ∷ p % 256 ∷ ys
wire (domain q p _ _ _) ys = length q ∷ (q ++ (p / 256) ∷ p % 256 ∷ ys)

-- The head of a frame is the reserved byte, the address type and the address.
pub head_bytes-wire :
    (d : Datagram) (w : IsWire d.addr)
    → (bytes : Bytes) × (addr_bytes d.addr ≡ some bytes)
      × (head_bytes d bytes ≡ d.reserved ∷ d.addr.addr_type ∷ wire w [])
unfolding addr_bytes head_bytes
head_bytes-wire d (ipv4 q p l h e) = (q, ground (arith, to4-ipv4 q l), ground arith)
head_bytes-wire d (ipv6 q p l h e) = (q, unfold Net.to16 in ground arith, ground arith)
head_bytes-wire d (domain q p l h e) = (q, ground arith, ground arith)

pub wire-append : {a : AddrSpec} (w : IsWire a) (ys : Bytes) → wire w [] ++ ys ≡ wire w ys
wire-append (ipv4 q p _ _ _) ys = append_assoc q _ ys
wire-append (ipv6 q p _ _ _) ys = append_assoc q _ ys
wire-append (domain q p _ _ _) ys = ap (λ t. length q ∷ t) (append_assoc q _ ys)
