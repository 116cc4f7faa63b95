-- ===== src/Socks5/Request/Reads.antt =====
-- core/socks5/structs.go: NewRequest on a request for a domain.
use jocasta.Prelude.{
  ltb, false, ℕ, ◌+◌, ◌*◌, ◌-◌, ◌≤◌, ◌≡◌, refl, [], ◌∷◌, ◌++◌, length, arith, length-append,
  append_assoc,
}
use jocasta.Go.Result.{ok}
use jocasta.Go.Io.{Bytes}
use jocasta.Go.Slice.{index, slice-append, index-append}
use jocasta.Go.Net.{AddrText}
use jocasta.Go.HostPort.{join_host_port}
use jocasta.Socks5.{Error, version_v5, atyp_domain}
use jocasta.Socks5.Packet.{itoa}
use jocasta.Socks5.Methods.{padded-append}
use jocasta.Socks5.Request.{Request, new_request, request_host, request_port}

-- A request for a domain, of which the length byte is not read.
abbrev pub domain_head : ℕ → ℕ → Bytes
domain_head cmd l = version_v5 ∷ cmd ∷ 0 ∷ atyp_domain ∷ l ∷ []

abbrev pub domain_request : ℕ → ℕ → Bytes → ℕ → ℕ → Bytes
domain_request cmd l host hi lo = domain_head cmd l ++ (host ++ (hi ∷ lo ∷ []))

-- Its length.
n : Bytes → ℕ
n host = length host + 7

length-domain_request :
    (cmd l hi lo : ℕ) (host : Bytes) → length (domain_request cmd l host hi lo) ≡ n host
unfolding n
length-domain_request cmd l hi lo host = omega (
  arith,
  length-append (domain_head cmd l) (host ++ (hi ∷ lo ∷ [])),
  length-append host (hi ∷ lo ∷ []),
)

module _ (t : AddrText) (cmd l hi lo : ℕ) (host ys : Bytes) where
  n_large : ltb (n host) 2 ≡ false
  unfolding n
  n_large = ground arith

  request_host-domain :
      request_host t (domain_request cmd l host hi lo ++ ys) (n host) atyp_domain ≡ ok host
  unfolding request_host n
  request_host-domain =
      rw
        (
          append_assoc (domain_head cmd l) (host ++ (hi ∷ lo ∷ [])) ys,
          append_assoc host (hi ∷ lo ∷ []) ys,
        )
        (slice-append (domain_head cmd l) host ((hi ∷ lo ∷ []) ++ ys) 5 (length host + 7 - 2) refl
          (omega arith))

  hi_at : index {E = Error} (domain_request cmd l host hi lo ++ ys) (n host - 2) ≡ ok hi
  unfolding n
  hi_at =
      rw
        (
          append_assoc (domain_head cmd l) (host ++ (hi ∷ lo ∷ [])) ys,
          append_assoc host (hi ∷ lo ∷ []) ys,
          ← append_assoc (domain_head cmd l) host (hi ∷ lo ∷ ys),
        )
        (index-append (domain_head cmd l ++ host) hi (lo ∷ ys) (length host + 7 - 2)
          (omega (arith, length-append (domain_head cmd l) host)))

  lo_at : index {E = Error} (domain_request cmd l host hi lo ++ ys) (n host - 1) ≡ ok lo
  unfolding n
  lo_at =
      rw
        (
          append_assoc (domain_head cmd l) (host ++ (hi ∷ lo ∷ [])) ys,
          append_assoc host (hi ∷ lo ∷ []) ys,
          ← append_assoc host (hi ∷ []) (lo ∷ ys),
          ← append_assoc (domain_head cmd l) (host ++ (hi ∷ [])) (lo ∷ ys),
        )
        (index-append (domain_head cmd l ++ (host ++ (hi ∷ []))) lo ys (length host + 7 - 1) (
          omega (
            arith,
            length-append (domain_head cmd l) (host ++ (hi ∷ [])),
            length-append host (hi ∷ []),
          )))

  request_port-domain :
      request_port (domain_request cmd l host hi lo ++ ys) (n host) ≡ ok (itoa (hi * 256 + lo))
  unfolding request_port
  request_port-domain = let e : ltb (n host) 2 ≡ false = n_large in rw (e, hi_at, lo_at) refl

module _ (t : AddrText) (cmd l hi lo : ℕ) (host : Bytes) where
  abbrev pub domain_read : Request
  domain_read = record {
    ver = version_v5;
    cmd = cmd;
    reserve = 0;
    address_type = atyp_domain;
    dst_host = host;
    dst_port = itoa (hi * 256 + lo);
    dst_addr = join_host_port host (itoa (hi * 256 + lo));
    bytes = domain_request cmd l host hi lo;
  }

  pub fits : length host ≤ 1000 → length (domain_request cmd l host hi lo) ≤ 1024
  unfolding n
  fits h = omega (arith, length-domain_request cmd l hi lo host)

  -- A request for a domain that fits the buffer is read whole.
  pub new_request-domain :
      length host ≤ 1000 → new_request t (domain_request cmd l host hi lo) ≡ ok domain_read
  unfolding new_request index
  new_request-domain h =
      let e = length-domain_request cmd l hi lo host in
      let (ys, p) = padded-append 1024 (domain_request cmd l host hi lo) (fits h) in
      rw
        (p, e, request_host-domain t cmd l hi lo host ys, request_port-domain t cmd l hi lo host ys)
        (rw
          (slice-append [] (domain_request cmd l host hi lo) ys 0 (n host) refl (omega (arith, e)))
          refl)
