-- ===== src/Captain/StreamDatagram/RoundTrip.antt =====
-- Stream datagrams, written and read back.
use jocasta.Prelude.{
  ℕ, ◌+◌, ◌/◌, ◌%◌, ◌≤◌, ◌<◌, ◌≡◌, refl, ◌∙◌, [], ◌∷◌, ◌++◌, length, arith, append_assoc,
  take-append, drop-append, length-append,
}
use jocasta.Prelude.Int.{pos}
use jocasta.Go.Result.{ok, >>=_inv, or_else}
use jocasta.Go.Io.{Bytes, ReadError, over}
use jocasta.Captain.{AddrSpec, read, read-append, >>=_ok}
use jocasta.Captain.DataLen.{max_data_len, data_len}
use jocasta.Captain.DataLen.RoundTrip.{len_bytes, data_len_inv, parse_data_len-len_bytes}
use jocasta.Captain.Datagram.{Datagram, addr_bytes}
use jocasta.Captain.Datagram.Wire.{IsWire, wire, head_bytes-wire, wire-append}
use jocasta.Captain.StreamDatagram.{
  parse_addr, parse_by_type, parse_ipv4, parse_ipv6, parse_domain, parse_stream_datagram,
  stream_datagram_bytes,
}

-- An address of `n` bytes and its port.
parse_addr-append :
    (n p : ℕ) (place : Bytes → ℕ → AddrSpec) (q ys : Bytes) (e : ReadError)
    → length q ≡ n
    → p < 65536
    → parse_addr n place (over (q ++ (p / 256) ∷ p % 256 ∷ ys) e) ≡ ok (place q p, over ys e)
unfolding parse_addr
parse_addr-append n p place q ys e l h =
    let port : Bytes = p / 256 ∷ p % 256 ∷ [] in
    rw (← l) (
      ground (
        arith,
        read-append (length q + 2) (q ++ port) ys e (rw (length-append q port) refl),
        append_assoc q port ys,
        take-append q port,
        drop-append q port,
      ))

parse_by_type-wire :
    {a : AddrSpec} (w : IsWire a) (ys : Bytes) (e : ReadError)
    → parse_by_type a.addr_type (over (wire w ys) e) ≡ ok (a, over ys e)
unfolding parse_by_type parse_ipv4 parse_ipv6 parse_domain
parse_by_type-wire (IsWire.ipv4 q p l h s) ys e = rw s (parse_addr-append 4 p _ q ys e l h)
parse_by_type-wire (IsWire.ipv6 q p l h s) ys e = rw s (parse_addr-append 16 p _ q ys e l h)
parse_by_type-wire (IsWire.domain q p l h s) ys e =
    let rest : Bytes = q ++ p / 256 ∷ p % 256 ∷ ys in
    rw s (
      >>=_ok (read 1) _ _ (read-append 1 (length q ∷ []) rest e refl)
      ∙ parse_addr-append (length q) p _ q ys e refl h)

-- The frame of a stream datagram, on success.
stream_datagram_bytes_shape :
    (d : Datagram) (w : IsWire d.addr) {bs : Bytes}
    → stream_datagram_bytes d ≡ ok bs
    → (length d.payload ≤ max_data_len)
      × (bs
          ≡ (d.reserved ∷ d.addr.addr_type ∷ wire w [])
            ++ len_bytes (length d.payload)
            ++ d.payload)
unfolding stream_datagram_bytes
stream_datagram_bytes_shape d w {bs} h =
    let (bytes, s, f) = head_bytes-wire d w in
    let (bytes', s', k) = >>=_inv (or_else (addr_bytes d.addr) _) _ h in
    let (p, e, g) = >>=_inv (data_len (pos (length d.payload))) _ k in
    let (fits, groups) = data_len_inv (length d.payload) {ds = p.0} {k = p.1} e in
    (fits, ground (arith, groups, g, f, s, s'))

-- What (*StreamDatagram).Bytes wrote for a wire address, ParseStreamDatagram reads back whole, and
-- it leaves what follows in the reader.
pub parse-stream_datagram_bytes :
    (d : Datagram) (w : IsWire d.addr) (bs ys : Bytes) (e : ReadError)
    → stream_datagram_bytes d ≡ ok bs
    → parse_stream_datagram (over (bs ++ ys) e) ≡ ok (d, over ys e)
unfolding parse_stream_datagram
parse-stream_datagram_bytes d w bs ys e h =
    let (fits, shape) = stream_datagram_bytes_shape d w h in
    let groups = len_bytes (length d.payload) in
    let rest : Bytes = groups ++ (d.payload ++ ys) in
    ground (
      arith,
      shape,
      append_assoc (d.reserved ∷ d.addr.addr_type ∷ (wire w [] ++ groups)) d.payload ys,
      append_assoc (wire w []) groups (d.payload ++ ys),
      wire-append w rest,
      read-append 2 (d.reserved ∷ d.addr.addr_type ∷ []) (wire w rest) e refl,
      parse_by_type-wire w rest e,
      parse_data_len-len_bytes (length d.payload) (d.payload ++ ys) e fits,
      read-append (length d.payload) d.payload ys e refl,
    )
