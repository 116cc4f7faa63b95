-- ===== src/Http.antt =====
-- services/http/http.go: what the HTTP service does with a connection. The tests of the package extnet,
-- the resolver, the addresses of the system and whether a dial succeeds are parameters.
pub mod Direct
pub mod Loops
mod Tests
use jocasta.Prelude.{
  ℕ, Bool, true, false, not, ◌&&◌, ◌||◌, Option, none, some, List, [], ◌∷◌, ◌++◌, length, ◌==◌,
  if◌then◌else◌,
}
use jocasta.Prelude.Int.{ℤ}
use jocasta.Go.Result.{Result, ok, err, panic}
use jocasta.Go.Io.{Bytes}
use jocasta.Go.Net.{AddrText, bytes_eq, ipv4, to4, ipv4_len, ipv6_len, or_empty}
use jocasta.Go.HostPort.{split_host_port}
use jocasta.Filter.{ConcurrentMap, Item, Filter, is_proxy, add}
use jocasta.Enet.{remove_proxy_headers}
use jocasta.Httpc.{Request, is_https, new}
use jocasta.Httpc

-- (net.IP).Equal, where a nil address has no bytes.
abbrev pub ip_equal : Bytes → Bytes → Bool
ip_equal a b =
    if length a == length b
    then bytes_eq a b
    else if length a == ipv4_len && length b == ipv6_len
    then bytes_eq (ipv4 a) b
    else if length a == ipv6_len && length b == ipv4_len
    then bytes_eq a (ipv4 b)
    else false

-- What the service is configured with.
pub record Config : Type 0 where
  pub text : AddrText
  -- DNSConfig.Addr is set
  pub has_dns : Bool
  -- outil.Resolve and net.LookupIP
  pub resolve : Bytes → Bytes
  pub lookup_ip : Bytes → Option (List Bytes)
  -- sword.SystemNetworkIPs and LocalIPS
  pub system_ips : Option (List Bytes)
  pub local_ips : List Bytes
  pub has_parent : Bool
  pub always : Bool
  -- ParentType is "ssh"
  pub ssh : Bool
  pub is_domain : Bytes → Bool
  pub is_intranet : Bytes → Bool

unfoldable pub any_named : AddrText → Bytes → List Bytes → Bool
any_named t name [] = false
any_named t name (ip ∷ ips) =
    let rest = any_named t name ips in if bytes_eq (t.ip_string ip) name then true else rest

unfoldable pub any_equal : Bytes → List Bytes → Bool
any_equal a [] = false
any_equal a (b ∷ bs) = let rest = any_equal a bs in if ip_equal a b then true else rest

unfoldable pub any_shared : List Bytes → List Bytes → Bool
unfolding any_equal
any_shared [] outs = false
any_shared (a ∷ locals) outs =
    let rest = any_shared locals outs in if any_equal a outs then true else rest

-- net.ParseIP(ip).To4() of each; what is none of the two is nil.
unfoldable pub four_bytes : AddrText → List Bytes → List Bytes
four_bytes t [] = []
four_bytes t (ip ∷ ips) = elim (t.parse_ip ip) [
  | none ↦ [] ∷ four_bytes t ips
  | some x ↦ or_empty (to4 x) ∷ four_bytes t ips
]

-- The addresses of a host, or none if they are not found.
unfoldable pub out_ips : Config → Bytes → Option (List Bytes)
out_ips e host =
    if e.has_dns then some (or_empty (e.text.parse_ip (e.resolve host)) ∷ []) else e.lookup_ip host

-- Whether one of them is that of this side or of an interface.
unfoldable pub leads_back : Config → Bytes → Bytes → Bool
unfolding out_ips any_named any_shared four_bytes
leads_back e in_ip host =
    let found : List Bytes = elim (out_ips e host) [ none ↦ [] | some ips ↦ ips ] in
    let shared : Bool = elim e.system_ips [
      | none ↦ false
      | some ips ↦ any_shared (ips ++ four_bytes e.text e.local_ips) found
    ] in
    any_named e.text in_ip found || shared

-- IsDeadLoop
unfoldable pub is_dead_loop : Config → Bytes → Bytes → Bool
unfolding leads_back
is_dead_loop e in_local host =
    let of_target : Bytes × Bytes → Bool = λ i. elim (split_host_port host) [
      | err _ ↦ false
      | panic ↦ false
      | ok o ↦ bytes_eq i.1 o.1 && leads_back e i.0 o.0
    ] in
    elim (split_host_port in_local) [ err _ ↦ false | panic ↦ false | ok i ↦ of_target i ]

-- The host, which is empty where the address has no port.
abbrev pub host_of : Bytes → Bytes
host_of addr = elim (split_host_port addr) [ ok p ↦ p.0 | err _ ↦ [] | panic ↦ [] ]

-- Whether CONNECT is answered, and what is written to the target.
unfoldable pub forwarded : Bool → Bool → Request → Bool × List Bytes
forwarded use_proxy ssh r =
    let plain = not use_proxy || ssh in
    if is_https r.method && plain
    then (true, [])
    else if plain && not r.is_sni
    then (false, remove_proxy_headers r.raw_header ∷ [])
    else (false, r.raw_header ∷ [])

pub record Joined : Type 0 where
  pub through_parent : Bool
  pub replied : Bool
  pub written : List Bytes

-- What becomes of a connection.
pub data Outcome : Type 0 where
  bad_request crashed dead_loop dial_failed : Outcome
  joined : Joined → Outcome

module _ (Items : ConcurrentMap Item) (Hosts : ConcurrentMap (Unit {0})) where
  -- isUseProxy: an address that is not known is added to the filter.
  unfoldable pub is_use_proxy : Config → ℤ → Bytes → Filter Items Hosts → Bool × Filter Items Hosts
  is_use_proxy e now addr f =
      let a = is_proxy Items Hosts now addr f in
      let asked : Bool × Filter Items Hosts =
        (a.proxied, if a.in_map then f else add Items Hosts addr (e.resolve addr) f) in
      if not e.has_parent
      then (false, f)
      else if e.is_domain (host_of addr) && e.always
      then (true, f)
      else if e.is_intranet (host_of addr)
      then (false, f)
      else asked

  -- handle behind httpc.New, up to the copying between the two connections. `dials` is whether the parent
  -- or the target can be reached.
  unfoldable pub serve :
      Config
      → ℤ
      → Bytes
      → (Bool → Bytes → Bool)
      → Request
      → Filter Items Hosts
      → Outcome × Filter Items Hosts
  unfolding is_use_proxy forwarded
  serve e now local_addr dials r f =
      let p = is_use_proxy e now r.host f in
      let sent = forwarded p.0 e.ssh r in
      let reached : Outcome × Filter Items Hosts =
        (joined (record { through_parent = p.0; replied = sent.0; written = sent.1 }), p.1) in
      if is_dead_loop e local_addr r.host
      then (dead_loop, f)
      else if dials p.0 r.host
      then reached
      else (dial_failed, p.1)

  -- handle
  unfoldable pub handle :
      Httpc.Settings
      → Config
      → ℤ
      → (Bool → Bytes → Bool)
      → Option Bytes
      → Filter Items Hosts
      → Outcome × Filter Items Hosts
  unfolding serve
  handle settings e now dials read f = elim (new settings read).0 [
    | err _ ↦ (bad_request, f)
    | panic ↦ (crashed, f)
    | ok r ↦ serve e now settings.local_addr dials r f
  ]
