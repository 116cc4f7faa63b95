-- ===== src/LoadBalance/Balanced/Selects.antt =====
-- What Select of Balanced returns, for each selector.
use jocasta.Prelude.{ℕ, ◌^◌, ◌<◌, ◌≤◌, ◌≡◌, ◌≢◌, refl, Option, length, arith}
use jocasta.Prelude.Int.{ℤ}
use jocasta.Go.Result.{ok}
use jocasta.Go.Io.{Bytes}
use jocasta.LoadBalance.Upstream.{Upstream}
use jocasta.LoadBalance.Pool.{Pool}
use jocasta.LoadBalance.Choice.{Sound, Choice-Sound}
use jocasta.LoadBalance.RoundRobin.Safe.{round_robin_select-Sound}
use jocasta.LoadBalance.Least.Safe.{least_conn_select-Sound, least_time_select-Sound}
use jocasta.LoadBalance.Weight.Select.{Started, weight_select-IsCandidate}
use jocasta.LoadBalance.Random.{random_select}
use jocasta.LoadBalance.Random.Finds.{random_select-Choice}
use jocasta.LoadBalance.Hash.Place.{hash_select-Choice}
use jocasta.LoadBalance.Registry.{
  Selector, random, round_robin, least_conn, ip_hash, addr_hash, least_time, weight,
}
use jocasta.LoadBalance.Balanced.{Balanced, selector_select, addr_or_empty, select}

-- The state that a selector can be in.
abbrev pub IsFit : Selector → Type 0
IsFit random = Unit {0}
IsFit (round_robin n) = Unit {0}
IsFit least_conn = Unit {0}
IsFit ip_hash = Unit {0}
IsFit addr_hash = Unit {0}
IsFit least_time = Unit {0}
IsFit (weight s) = Started s.index

several : (us : Pool) → 1 < length us → length us ≢ 1
several us h e = omega arith

selector_select-Sound :
    (rand : ℕ → ℕ) (gcdx : ℤ → ℤ → ℤ) (us : Pool) (src : Bytes) (s : Selector)
    → IsFit s
    → 1 < length us
    → length us ≤ 2 ^ 31
    → (r : Option Upstream) × (s' : Selector) × (selector_select rand gcdx us src s ≡ ok (r, s'))
      × Sound us r
      × IsFit s'
unfolding selector_select
selector_select-Sound rand gcdx us src random f h l =
    (random_select rand us, random, refl, Choice-Sound us _ (random_select-Choice rand us), tt)
selector_select-Sound rand gcdx us src (round_robin n) f h l =
    let (r, n', e, c) = round_robin_select-Sound us n (omega arith) in
    (r, round_robin n', rw (selector_select, e) refl, c, tt)
selector_select-Sound rand gcdx us src least_conn f h l =
    (_, least_conn, refl, least_conn_select-Sound rand us, tt)
selector_select-Sound rand gcdx us src ip_hash f h l =
    let (_, (r, e, c)) = hash_select-Choice rand us src (omega arith) l in
    (r, ip_hash, rw (selector_select, e) refl, Choice-Sound us r c, tt)
selector_select-Sound rand gcdx us src addr_hash f h l =
    let ((r, e, c), _) = hash_select-Choice rand us src (omega arith) l in
    (r, addr_hash, rw (selector_select, e) refl, Choice-Sound us r c, tt)
selector_select-Sound rand gcdx us src least_time f h l =
    (_, least_time, refl, least_time_select-Sound rand us, tt)
selector_select-Sound rand gcdx us src (weight s) f h l =
    let (r, s', e, c, f') = weight_select-IsCandidate gcdx us s f (several us h) in
    (r, weight s', rw (selector_select, e) refl, c, f')

-- With each selector, in every state that selections leave behind, Select returns the empty address
-- or that of an available backend of the pool, and changes nothing but the selector's state: it does
-- not panic, on a pool of two up to 2^31 backends.
pub select-Sound :
    (rand : ℕ → ℕ) (gcdx : ℤ → ℤ → ℤ) (src : Bytes) (b : Balanced)
    → IsFit b.selector
    → 1 < length b.upstreams
    → length b.upstreams ≤ 2 ^ 31
    → (r : Option Upstream) × (s : Selector) × (select rand gcdx src b
        ≡ ok (addr_or_empty r, record b { selector = s }))
      × Sound b.upstreams r
      × IsFit s
unfolding select
select-Sound rand gcdx src b f h l =
    let (r, s, e, c, f') = selector_select-Sound rand gcdx b.upstreams src b.selector f h l in
    (r, s, rw (select, e) refl, c, f')
