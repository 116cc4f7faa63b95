-- ===== src/Captain/Datagram/RoundTrip.antt =====
-- Datagrams in one packet, written and read back.
use jocasta.Prelude.{
  ℕ, ◌+◌, ◌-◌, ◌/◌, ◌%◌, ◌≤◌, ◌<◌, ◌≡◌, ◌≢◌, ◌⊎◌, [], ◌∷◌, ◌++◌, length, arith, append_assoc,
  length-append,
}
use jocasta.Prelude.Int.{pos}
use jocasta.Go.Result.{ok, err}
use jocasta.Go.Io.{Bytes}
use jocasta.Go.Net.{ipv4}
use jocasta.Go.Slice.{index, slice-append, slice_from-append}
use jocasta.Captain.{Error, AddrSpec, too_short, atyp_ipv4}
use jocasta.Captain.Datagram.{
  Datagram, build, parse_ipv4, parse_ipv6, parse_domain, parse_datagram, datagram_bytes,
}
use jocasta.Captain.Datagram.Wire.{
  v4_addr, v6_addr, domain_addr, IsWire, wire, head_bytes-wire, wire-append,
}

-- The port and the payload behind a front of known length.
build_lem :
    (front payload : Bytes) (p reserved addr_type : ℕ) (fqdn ip : Bytes) (head_len : ℕ)
    → head_len ≡ length front + 2
    → p < 65536
    → build (front ++ (p / 256) ∷ p % 256 ∷ payload) reserved addr_type fqdn ip head_len
      ≡ ok (record {
        reserved = reserved;
        addr = record { fqdn = fqdn; ip = ip; port = pos p; addr_type = addr_type };
        payload = payload;
      })
unfolding build
build_lem front payload p reserved addr_type fqdn ip head_len l h =
    let port : Bytes = p / 256 ∷ p % 256 ∷ [] in
    ground (
      arith,
      slice-append {E = Error} front port payload (head_len - 2) head_len (omega arith)
          (omega arith),
      slice_from-append {E = Error} (front ++ port) payload head_len
          (omega (arith, length-append front port)),
      append_assoc front port payload,
    )

abbrev packet : ℕ → AddrSpec → Bytes → Datagram
packet r a payload = record { reserved = r; addr = a; payload = payload }

module _ (r p : ℕ) (q payload : Bytes) (h : p < 65536) where
  parse_ipv4_lem :
      length q ≡ 4
      → parse_ipv4 (r ∷ 1 ∷ (q ++ p / 256 ∷ p % 256 ∷ payload)) r
        ≡ ok (packet r (v4_addr q p) payload)
  unfolding parse_ipv4
  parse_ipv4_lem l = ground (
    arith,
    slice-append {E = Error} (r ∷ 1 ∷ []) q (p / 256 ∷ p % 256 ∷ payload) 2 6,
    build_lem (r ∷ 1 ∷ q) payload p r 1 [] (ipv4 q) 8 (omega arith) h,
  )

  parse_ipv6_lem :
      length q ≡ 16
      → payload ≢ []
      → parse_ipv6 (r ∷ 4 ∷ (q ++ p / 256 ∷ p % 256 ∷ payload)) r
        ≡ ok (packet r (v6_addr q p) payload)
  unfolding parse_ipv6
  parse_ipv6_lem l n = ground (
    arith,
    slice-append {E = Error} (r ∷ 4 ∷ []) q (p / 256 ∷ p % 256 ∷ payload) 2 18,
    build_lem (r ∷ 4 ∷ q) payload p r 4 [] q 20 (omega arith) h,
    length-append q (p / 256 ∷ p % 256 ∷ payload),
  )

  parse_domain_lem :
      length q < 256
      → payload ≢ []
      → parse_domain (r ∷ 3 ∷ length q ∷ (q ++ p / 256 ∷ p % 256 ∷ payload)) r
        ≡ ok (packet r (domain_addr q p) payload)
  unfolding parse_domain index
  parse_domain_lem l n = ground (
    arith,
    slice-append {E = Error} (r ∷ 3 ∷ length q ∷ []) q (p / 256 ∷ p % 256 ∷ payload) 3
        (3 + length q),
    build_lem (r ∷ 3 ∷ length q ∷ q) payload p r 3 q [] (2 + (1 + length q + 2)) (omega arith) h,
    length-append q (p / 256 ∷ p % 256 ∷ payload),
  )

-- A packet is the reserved byte, the address type, the address and the payload.
pub datagram_bytes_shape :
    (d : Datagram) (w : IsWire d.addr)
    → datagram_bytes d ≡ ok (d.reserved ∷ d.addr.addr_type ∷ wire w d.payload)
unfolding datagram_bytes
datagram_bytes_shape d w =
    let (bytes, s, f) = head_bytes-wire d w in ground (arith, s, f, wire-append w d.payload)

parse_datagram-wire :
    (d : Datagram) (w : IsWire d.addr)
    → let b = d.reserved ∷ d.addr.addr_type ∷ wire w d.payload in
      8 ≤ length b → (d.payload ≢ []) ⊎ (d.addr.addr_type ≡ atyp_ipv4) → parse_datagram b ≡ ok d
unfolding parse_datagram index
parse_datagram-wire d (IsWire.ipv4 q p l h s) long n =
    ground (arith, parse_ipv4_lem d.reserved p q d.payload h l)
parse_datagram-wire d (IsWire.ipv6 q p l h s) long n =
    ground (arith, parse_ipv6_lem d.reserved p q d.payload h l)
parse_datagram-wire d (IsWire.domain q p l h s) long n =
    ground (arith, parse_domain_lem d.reserved p q d.payload h l)

-- What (*Datagram).Bytes wrote for a wire address, ParseDatagram reads back whole, if the packet has
-- eight bytes or more and the payload is not empty or the address is an IPv4 one.
pub parse_datagram-datagram_bytes :
    (d : Datagram) (w : IsWire d.addr) (bs : Bytes)
    → datagram_bytes d ≡ ok bs
    → 8 ≤ length bs
    → (d.payload ≢ []) ⊎ (d.addr.addr_type ≡ atyp_ipv4)
    → parse_datagram bs ≡ ok d
parse_datagram-datagram_bytes d w bs e long n =
    ground (arith, datagram_bytes_shape d w, parse_datagram-wire d w, e)

parse_datagram-wire_empty :
    (d : Datagram) (w : IsWire d.addr)
    → d.payload ≡ []
    → d.addr.addr_type ≢ atyp_ipv4
    → parse_datagram (d.reserved ∷ d.addr.addr_type ∷ wire w d.payload) ≡ err too_short
unfolding parse_datagram parse_ipv6 parse_domain index
parse_datagram-wire_empty d (IsWire.ipv4 q p l h s) n t = absurd (ground arith)
parse_datagram-wire_empty d (IsWire.ipv6 q p l h s) n t =
    ground (arith, length-append q (p / 256 ∷ p % 256 ∷ d.payload))
parse_datagram-wire_empty d (IsWire.domain q p l h s) n t =
    ground (arith, length-append q (p / 256 ∷ p % 256 ∷ d.payload))

-- A packet with an IPv6 address or a name and an empty payload is written, and refused when read.
pub parse_datagram_empty :
    (d : Datagram) (w : IsWire d.addr) (bs : Bytes)
    → datagram_bytes d ≡ ok bs
    → d.payload ≡ []
    → d.addr.addr_type ≢ atyp_ipv4
    → parse_datagram bs ≡ err too_short
parse_datagram_empty d w bs e n t =
    ground (arith, datagram_bytes_shape d w, parse_datagram-wire_empty d w n t, e)
