-- ===== src/Mux/Route.antt =====
-- services/mux/server.go: the route of a server node, which inspectConfig reads from its configuration.
-- SplitHostPort of the third-party package extnet is a parameter: a host and a port, or an error.
use jocasta.Prelude.{
  ℕ, ◌<◌, ◌≡◌, refl, ap, ◌∙◌, Bool, true, false, Option, none, some, inl, inr, List, [], ◌∷◌, ◌++◌,
  length, take, ◌==◌, if◌then◌else◌, arith, Bool-cases,
}
use jocasta.Go.Result.{Result, ok, err}
use jocasta.Go.Io.{Bytes}
use jocasta.Go.Net.{bytes_eq}
use jocasta.Go.Text.{ascii, has_prefix}
use jocasta.Go.HostPort.{has_byte}
use jocasta.Filter.{extend, trim_prefix}

pub data RouteError : Type 0 where
  invalid_route bad_remote : RouteError

-- The fields of the configuration that a route sets; the port is a uint16.
pub record Route : Type 0 where
  pub is_udp : Bool
  pub local : Bytes
  pub remote_host : Bytes
  pub remote_port : ℕ

-- strings.Split for a separator of one byte.
unfoldable split_at : ℕ → Bytes → List Bytes
split_at sep [] = [] ∷ []
split_at sep (c ∷ cs) = let rest = split_at sep cs in if c == sep then [] ∷ rest else extend c rest

-- The test on the two parts of the route, and what is read of them.
unfoldable pub route_of : (Bytes → Option (Bytes × ℕ)) → Bool → List Bytes → Result RouteError Route
route_of split_host_port is_udp ((c ∷ cs) ∷ (d ∷ ds) ∷ []) = elim (split_host_port (d ∷ ds)) [
  | none ↦ err bad_remote
  | some p ↦ ok (record { is_udp = is_udp; local = c ∷ cs; remote_host = p.0; remote_port = p.1 })
]
route_of split_host_port is_udp _ = err invalid_route

-- The end of inspectConfig.
unfoldable pub parse_route : (Bytes → Option (Bytes × ℕ)) → Bytes → Result RouteError Route
unfolding split_at route_of
parse_route split_host_port route =
    route_of split_host_port (has_prefix route (ascii "udp://"))
      (split_at b'@' (trim_prefix (ascii "tcp://") (trim_prefix (ascii "udp://") route)))

-- What stands in front of a route.
abbrev pub scheme : Bool → Bytes
scheme true = ascii "udp://"
scheme false = ascii "tcp://"

split_at_none : (sep : ℕ) (a : Bytes) → has_byte sep a ≡ false → split_at sep a ≡ a ∷ []
unfolding split_at has_byte
split_at_none sep [] h = refl
split_at_none sep (x ∷ xs) h = elim (Bool-cases (x == sep)) [
  | inl t ↦ absurd (ground arith)
  | inr f ↦ rw (f, split_at_none sep xs (ground arith)) refl
]

split_at_one :
    (sep : ℕ) (a b : Bytes)
    → has_byte sep a ≡ false
    → has_byte sep b ≡ false
    → split_at sep (a ++ (sep ∷ b)) ≡ a ∷ b ∷ []
unfolding split_at has_byte
split_at_one sep [] b h k =
    let same : (sep == sep) ≡ true = ground arith in rw (same, split_at_none sep b k) refl
split_at_one sep (x ∷ xs) b h k = elim (Bool-cases (x == sep)) [
  | inl t ↦ absurd (ground arith)
  | inr f ↦ rw (f, split_at_one sep xs b (ground arith) k) refl
]

-- A prefix with a slash, but no at sign, is not in front of an address without a slash.
not_in_front :
    (p a b : Bytes)
    → has_byte b'@' p ≡ false
    → has_byte b'/' p ≡ true
    → has_byte b'/' a ≡ false
    → bytes_eq (take (length p) (a ++ (b'@' ∷ b))) p ≡ false
unfolding has_byte bytes_eq
not_in_front [] a b h k l = cc
not_in_front (q ∷ qs) [] b h k l = ground arith
not_in_front (q ∷ qs) (x ∷ xs) b h k l = elim (Bool-cases (x == q)) [
  | inr f ↦ rw f refl
  | inl t ↦ rw t (not_in_front qs xs b (ground arith) (ground arith) (ground arith))
]

trims :
    (udp : Bool) (a b : Bytes)
    → has_byte b'/' a ≡ false
    → trim_prefix (ascii "tcp://") (trim_prefix (ascii "udp://") (scheme udp ++ (a ++ (b'@' ∷ b))))
      ≡ a ++ (b'@' ∷ b)
unfolding bytes_eq has_byte
trims false a b h = refl
trims true a b h = rw (not_in_front (ascii "tcp://") a b refl refl h) refl

has_scheme : (udp : Bool) (a : Bytes) → has_prefix (scheme udp ++ a) (ascii "udp://") ≡ udp
unfolding has_prefix
has_scheme true a = refl
has_scheme false a = refl

route_of_parts :
    (s : Bytes → Option (Bytes × ℕ)) (udp : Bool) (a b host : Bytes) (port : ℕ)
    → 0 < length a
    → 0 < length b
    → s b ≡ some (host, port)
    → route_of s udp (a ∷ b ∷ [])
      ≡ ok (record { is_udp = udp; local = a; remote_host = host; remote_port = port })
unfolding route_of
route_of_parts s udp [] b host port n m e = absurd (omega arith)
route_of_parts s udp (c ∷ cs) [] host port n m e = absurd (omega arith)
route_of_parts s udp (c ∷ cs) (d ∷ ds) host port n m e = rw (route_of, e) refl

-- The route of a scheme, a local address without a slash, and a remote address that can be split.
pub parse_route_lem :
    (split_host_port : Bytes → Option (Bytes × ℕ)) (is_udp : Bool) (local remote host : Bytes)
    (port : ℕ)
    → 0 < length local
    → has_byte b'/' local ≡ false
    → has_byte b'@' local ≡ false
    → 0 < length remote
    → has_byte b'@' remote ≡ false
    → split_host_port remote ≡ some (host, port)
    → parse_route split_host_port (scheme is_udp ++ (local ++ (b'@' ∷ remote)))
      ≡ ok (record { is_udp = is_udp; local = local; remote_host = host; remote_port = port })
unfolding parse_route
parse_route_lem s udp a b host port n slash at1 m at2 e =
    let route = scheme udp ++ (a ++ (b'@' ∷ b)) in
    ap (λ t. route_of s (has_prefix route (ascii "udp://")) (split_at b'@' t)) (trims udp a b slash)
    ∙ ap (λ ts. route_of s (has_prefix route (ascii "udp://")) ts) (split_at_one b'@' a b at1 at2)
    ∙ ap (λ u. route_of s u (a ∷ b ∷ [])) (has_scheme udp (a ++ (b'@' ∷ b)))
    ∙ route_of_parts s udp a b host port n m e
