-- ===== src/Shadowsocks/Reads.antt =====
-- ParseRequest on the bytes of an address.
use jocasta.Prelude.{
  ℕ, ◌+◌, ◌*◌, ◌≡◌, refl, [], ◌∷◌, ◌++◌, length, length-append, take-append, drop-append,
}
use jocasta.Go.Result.{ok}
use jocasta.Go.Io.{Bytes, ReadError, over, read_full-append}
use jocasta.Go.Net.{AddrText}
use jocasta.Go.HostPort.{join_host_port}
use jocasta.Socks5.Packet.{itoa}
use jocasta.Shadowsocks.{read_addr, read_host, parse_request, type_domain}

read_addr-append :
    (host rest : Bytes) (hi lo : ℕ) (e : ReadError)
    → read_addr (length host) (over ((host ++ (hi ∷ lo ∷ [])) ++ rest) e)
      ≡ ok (host, hi * 256 + lo, over rest e)
unfolding read_addr
read_addr-append host rest hi lo e =
    rw
      (
        read_addr,
        read_full-append (length host + 2) (host ++ (hi ∷ lo ∷ [])) rest e
            (length-append host (hi ∷ lo ∷ [])),
        take-append host (hi ∷ lo ∷ []),
        drop-append host (hi ∷ lo ∷ []),
      )
      refl

-- From a type, a length, a domain of that length and a port ParseRequest reads the domain with the
-- port, and leaves what follows.
pub parse_request-domain :
    (t : AddrText) (host rest : Bytes) (hi lo : ℕ) (e : ReadError)
    → parse_request t (over (type_domain ∷ length host ∷ ((host ++ (hi ∷ lo ∷ [])) ++ rest)) e)
      ≡ ok (join_host_port host (itoa (hi * 256 + lo)), over rest e)
unfolding parse_request read_host
parse_request-domain t host rest hi lo e =
    rw
      (
        parse_request,
        read_full-append 1 (type_domain ∷ []) (length host ∷ ((host ++ (hi ∷ lo ∷ [])) ++ rest)) e
            refl,
        read_host,
        read_full-append 1 (length host ∷ []) ((host ++ (hi ∷ lo ∷ [])) ++ rest) e refl,
        read_addr-append host rest hi lo e,
      )
      refl
