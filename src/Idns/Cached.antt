-- ===== src/Idns/Cached.antt =====
-- core/idns/idns.go: what the cache does to the answers.
use jocasta.Prelude.{◌≡◌, ◌∙◌, if◌then◌else◌, refl, true, false, none, some, List}
use jocasta.Prelude.Int.{ℤ, ltb_ℤ, ◌+ℤ◌, wrap_int64}
use jocasta.Go.Result.{ok}
use jocasta.Go.Io.{Bytes}
use jocasta.Go.Net.{AddrText}
use jocasta.Filter.{ConcurrentMap}
use jocasta.Idns.{
  Item, Answer, Response, answered, Resolver, target_of, join_ip_port, first_address, cached,
  accept, resolve_host, resolve,
}

module _ (Cache : ConcurrentMap Item) (t : AddrText) where
  resolve_split :
      (exchange : Bytes → Response) (now later : ℤ) (address : Bytes) (r : Resolver Cache)
      {hp : Bytes × Bytes}
      → target_of address ≡ ok hp
      → resolve Cache t exchange now later address r
        ≡ resolve_host Cache t exchange now later hp.0 hp.1 r
  unfolding resolve
  resolve_split exchange now later address r e = rw (resolve, e) refl

  module _ (exchange : Bytes → Response) (now later : ℤ) (domain port : Bytes)
      (r : Resolver Cache) where
    resolve_ip :
        {x : Bytes}
        → t.parse_ip domain ≡ some x
        → resolve_host Cache t exchange now later domain port r ≡ (ok (join_ip_port domain port), r)
    unfolding resolve_host
    resolve_ip e = rw (resolve_host, e) refl

    resolve_cached :
        {ip : Bytes}
        → t.parse_ip domain ≡ none
        → cached Cache now domain r.cache ≡ some ip
        → resolve_host Cache t exchange now later domain port r ≡ (ok (join_ip_port ip port), r)
    unfolding resolve_host
    resolve_cached e c = rw (resolve_host, e, c) refl

    resolve_asks :
        t.parse_ip domain ≡ none
        → cached Cache now domain r.cache ≡ none
        → resolve_host Cache t exchange now later domain port r
          ≡ accept Cache later domain port (exchange domain) r
    unfolding resolve_host
    resolve_asks e c = rw (resolve_host, e, c) refl

  accept_found :
      (later : ℤ) (domain port ip : Bytes) (answers : List Answer) (r : Resolver Cache)
      → first_address answers ≡ some ip
      → accept Cache later domain port (answered answers) r ≡ (
        ok (join_ip_port ip port),
        record r {
          cache =
              Cache.put domain
                (record { ip = ip; expired_at = wrap_int64 (later +ℤ r.ttl) })
                r.cache;
        },
      )
  unfolding accept
  accept_found later domain port ip answers r e = rw (accept, e) refl

  cached_put :
      (now expires : ℤ) (domain ip : Bytes) (cache : Cache.carrier)
      → cached Cache now domain (Cache.put domain (record { ip = ip; expired_at = expires }) cache)
        ≡ (if ltb_ℤ now expires then some ip else none)
  unfolding cached
  cached_put now expires domain ip cache =
      rw (cached, Cache.get_put domain (record { ip = ip; expired_at = expires }) cache) refl

  -- An address that was found through the DNS server for a domain that is no IP and not in the cache is
  -- found again as long as the moment is before that of the answer plus the ttl, a sum that wraps at 64 bits,
  -- for every port of the domain, whatever the server would answer then and without a change of the cache;
  -- from that moment on, what the server answers then counts.
  pub resolve_again :
      (exchange exchange' : Bytes → Response) (now later now' later' : ℤ)
      (address address' domain port port' ip : Bytes) (answers : List Answer) (r : Resolver Cache)
      → target_of address ≡ ok (domain, port)
      → target_of address' ≡ ok (domain, port')
      → t.parse_ip domain ≡ none
      → cached Cache now domain r.cache ≡ none
      → exchange domain ≡ answered answers
      → first_address answers ≡ some ip
      → (r' : Resolver Cache) × (resolve Cache t exchange now later address r
          ≡ (ok (join_ip_port ip port), r'))
        × (ltb_ℤ now' (wrap_int64 (later +ℤ r.ttl)) ≡ true
            → resolve Cache t exchange' now' later' address' r' ≡ (ok (join_ip_port ip port'), r'))
        × (ltb_ℤ now' (wrap_int64 (later +ℤ r.ttl)) ≡ false
            → resolve Cache t exchange' now' later' address' r'
              ≡ accept Cache later' domain port' (exchange' domain) r')
  resolve_again exchange exchange' now later now' later' address address' domain port port' ip
        answers r a b i c e f =
      let r' : Resolver Cache = record r {
        cache =
            Cache.put domain (record { ip = ip; expired_at = wrap_int64 (later +ℤ r.ttl) }) r.cache;
      } in
      (
        r',
        resolve_split exchange now later address r a
            ∙ resolve_asks exchange now later domain port r i c
            ∙ rw e (accept_found later domain port ip answers r f),
        λ h.
            resolve_split exchange' now' later' address' r' b
            ∙ resolve_cached exchange' now' later' domain port' r' i
                (cached_put now' _ domain ip r.cache ∙ rw h refl),
        λ h.
            resolve_split exchange' now' later' address' r' b
            ∙ resolve_asks exchange' now' later' domain port' r' i
                (cached_put now' _ domain ip r.cache ∙ rw h refl),
      )
