-- ===== src/Idns.antt =====
-- core/idns/idns.go: a resolver with a cache. The DNS client of a third-party package is a parameter: what
-- it answers to the question for a domain. The cache is the concurrent map of the filter's interface.
pub mod Cached
mod Tests
use jocasta.Prelude.{
  ℕ, ◌+◌, ◌≡◌, Bool, true, false, Option, none, some, List, [], ◌∷◌, length, leb, ◌==◌,
  if◌then◌else◌,
}
use jocasta.Prelude.Int.{ℤ, pos, ltb_ℤ, ◌+ℤ◌, wrap_int64}
use jocasta.Go.Result
use jocasta.Go.Result.{Result, ok, err, panic, map_err}
use jocasta.Go.Io.{Bytes}
use jocasta.Go.Net.{AddrText}
use jocasta.Go.HostPort.{AddrError, split_host_port, join_host_port, has_byte}
use jocasta.Filter.{ConcurrentMap}

-- Item
pub record Item : Type 0 where
  pub ip : Bytes
  pub expired_at : ℤ

-- An answer: whether it is of type A, and the fields of its text.
pub record Answer : Type 0 where
  pub is_a : Bool
  pub fields : List Bytes

-- What cli.Exchange gives: an error, a response with another code, or one with answers.
pub data Response : Type 0 where
  failed refused : Response
  answered : List Answer → Response

pub data ResolveError : Type 0 where
  address_fail exchange_fail invalid_answer unknown_answer : ResolveError

-- joinIPPort
unfoldable pub join_ip_port : Bytes → Bytes → Bytes
join_ip_port ip [] = ip
join_ip_port ip (c ∷ port) = join_host_port ip (c ∷ port)

-- The domain and the port of an address.
unfoldable pub target_of : Bytes → Result ResolveError (Bytes × Bytes)
target_of domain =
    if has_byte b':' domain
    then map_err (λ _. address_fail) (split_host_port domain)
    else ok (domain, [])

-- The fifth field of a text.
abbrev pub fifth : List Bytes → Option Bytes
fifth (_ ∷ _ ∷ _ ∷ _ ∷ ip ∷ _) = some ip
fifth _ = none

-- The loop over the answers: the first one of type A with five fields.
unfoldable pub first_address : List Answer → Option Bytes
first_address [] = none
first_address (a ∷ more) =
    let rest = first_address more in
    let here : Option Bytes = elim (fifth a.fields) [ none ↦ rest | some ip ↦ some ip ] in
    if a.is_a then here else rest

module _ (Cache : ConcurrentMap Item) where
  pub record Resolver : Type 0 where
    pub ttl : ℤ
    pub cache : Cache.carrier

  -- New
  unfoldable pub new : ℤ → Resolver
  new ttl = record { ttl = ttl; cache = Cache.empty }

  -- The address in the cache that has not expired.
  unfoldable pub cached : ℤ → Bytes → Cache.carrier → Option Bytes
  cached now domain cache = elim (Cache.get domain cache) [
    | none ↦ none
    | some it ↦ if ltb_ℤ now it.expired_at then some it.ip else none
  ]

  -- What becomes of a response, which is read at the moment `later`.
  unfoldable pub accept :
      ℤ → Bytes → Bytes → Response → Resolver → Result ResolveError Bytes × Resolver
  accept later domain port failed r = (err exchange_fail, r)
  accept later domain port refused r = (err invalid_answer, r)
  accept later domain port (answered answers) r = elim (first_address answers) [
    | none ↦ (err unknown_answer, r)
    | some ip ↦ (
      ok (join_ip_port ip port),
      record r {
        cache =
            Cache.put domain (record { ip = ip; expired_at = wrap_int64 (later +ℤ r.ttl) }) r.cache;
      },
    )
  ]

  -- Resolve behind the split of the address.
  unfoldable pub resolve_host :
      AddrText
      → (Bytes → Response)
      → ℤ
      → ℤ
      → Bytes
      → Bytes
      → Resolver
      → Result ResolveError Bytes × Resolver
  unfolding accept cached
  resolve_host t exchange now later domain port r = elim (t.parse_ip domain) [
    | some _ ↦ (ok (join_ip_port domain port), r)
    | none ↦ elim (cached now domain r.cache) [
      | some ip ↦ (ok (join_ip_port ip port), r)
      | none ↦ accept later domain port (exchange domain) r
    ]
  ]

  -- Resolve
  unfoldable pub resolve :
      AddrText
      → (Bytes → Response)
      → ℤ
      → ℤ
      → Bytes
      → Resolver
      → Result ResolveError Bytes × Resolver
  unfolding resolve_host
  resolve t exchange now later address r = elim (target_of address) [
    | ok hp ↦ resolve_host t exchange now later hp.0 hp.1 r
    | err e ↦ (err e, r)
    | panic ↦ (panic, r)
  ]

  abbrev pub or_input : Bytes → Result ResolveError Bytes → Result ResolveError Bytes
  or_input address (ok ip) = ok ip
  or_input address (err _) = ok address
  or_input address panic = panic

  -- MustResolve
  unfoldable pub must_resolve :
      AddrText
      → (Bytes → Response)
      → ℤ
      → ℤ
      → Bytes
      → Resolver
      → Result ResolveError Bytes × Resolver
  unfolding resolve
  must_resolve t exchange now later address r =
      let p = resolve t exchange now later address r in (or_input address p.0, p.1)
