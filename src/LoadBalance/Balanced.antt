-- ===== src/LoadBalance/Balanced.antt =====
-- core/loadbalance/loadbalance.go: Balanced, the selector and the backends behind one lock for reading and
-- writing. An operation is a function on the state, with no other one beside it. Select holds the lock only
-- for reading: selections can overlap, which Runs says of the states between them. The random numbers that
-- a selection draws, Gcdx of extmath, the probes and the resolver of the DNS are parameters.
pub mod Selects
pub mod Runs
pub mod Reset
mod Tests
use jocasta.Prelude.{
  ℕ, ◌+◌, ◌%◌, Bool, true, false, Option, none, some, List, [], ◌∷◌, if◌then◌else◌,
}
use jocasta.Prelude.Int.{ℤ}
use jocasta.Go.Result.{Result, ok, err, panic, ◌>>=◌}
use jocasta.Go.Io.{Bytes}
use jocasta.LoadBalance.Upstream.{Probe, Config, Upstream, healthy_check}
use jocasta.LoadBalance.Pool.{
  Pool, NoError, new_upstream_pool, pool_increase, pool_decrease, has_healthy, healthy_count,
}
use jocasta.LoadBalance.Random.{random_select}
use jocasta.LoadBalance.RoundRobin.{round_robin_select}
use jocasta.LoadBalance.Hash.{addr_hash_select, ip_hash_select}
use jocasta.LoadBalance.Least.{least_conn_select, least_time_select}
use jocasta.LoadBalance.Weight.{Weight, weight_select}
use jocasta.LoadBalance.Registry.{
  Selector, random, round_robin, least_conn, ip_hash, addr_hash, least_time, weight, Registry,
  new_selector,
}

-- The fields that a selection or an update reads; `closed` says whether closeChan is closed.
pub record Balanced : Type 0 where
  pub method : Bytes
  pub upstreams : Pool
  pub selector : Selector
  pub closed : Bool

-- New, less its options.
unfoldable pub new : Registry → Bytes → List Config → Result NoError Balanced
new rs method configs = new_selector method rs >>= λ s. ok (record {
  method = method;
  upstreams = new_upstream_pool configs;
  selector = s;
  closed = false;
})

-- The call of the selector's Select.
pub selector_select :
    (ℕ → ℕ) → (ℤ → ℤ → ℤ) → Pool → Bytes → Selector → Result NoError (Option Upstream × Selector)
selector_select rand gcdx us src random = ok (random_select rand us, random)
selector_select rand gcdx us src (round_robin n) =
    round_robin_select us n >>= λ r. ok (r.0, round_robin r.1)
selector_select rand gcdx us src least_conn = ok (least_conn_select rand us, least_conn)
selector_select rand gcdx us src ip_hash = ip_hash_select rand us src >>= λ r. ok (r, ip_hash)
selector_select rand gcdx us src addr_hash = addr_hash_select rand us src >>= λ r. ok (r, addr_hash)
selector_select rand gcdx us src least_time = ok (least_time_select rand us, least_time)
selector_select rand gcdx us src (weight s) = weight_select gcdx us s >>= λ r. ok (r.0, weight r.1)

-- The address that Select returns.
abbrev pub addr_or_empty : Option Upstream → Bytes
addr_or_empty none = []
addr_or_empty (some u) = u.addr

-- (Balanced).Select
pub select : (ℕ → ℕ) → (ℤ → ℤ → ℤ) → Bytes → Balanced → Result NoError (Bytes × Balanced)
select rand gcdx src b = selector_select rand gcdx b.upstreams src b.selector >>= λ r.
    ok (addr_or_empty r.0, record b { selector = r.1 })

-- (Balanced).ConnsIncrease, ConnsDecrease, Close, HasHealthy and HealthyCount
pub balanced_increase : Bytes → Balanced → Balanced
balanced_increase addr b = record b { upstreams = pool_increase addr b.upstreams }

pub balanced_decrease : Bytes → Balanced → Balanced
balanced_decrease addr b = record b { upstreams = pool_decrease addr b.upstreams }

pub close : Balanced → Balanced
close b = record b { closed = true }

pub balanced_has_healthy : Balanced → Bool
balanced_has_healthy b = has_healthy b.upstreams

pub balanced_healthy_count : Balanced → ℕ
balanced_healthy_count b = healthy_count b.upstreams

-- (Balanced).Reset
pub reset : Registry → List Config → Balanced → Result NoError Balanced
reset rs configs b = new_selector b.method rs >>= λ s.
    ok (record b { upstreams = new_upstream_pool configs; selector = s })

-- What a tick of activeHealthChecker starts, once all of its checks are done: each is about a backend
-- of its own. The check at place `i` takes the time `elapsed i`.
pub check_all : Probe → (Bytes → Bytes) → ℕ → (ℕ → ℤ) → ℕ → Pool → Pool
check_all probe resolve moment elapsed i [] = []
check_all probe resolve moment elapsed i (u ∷ us) =
    healthy_check probe moment (elapsed i) (resolve u.addr) u
    ∷ check_all probe resolve moment elapsed (i + 1) us

-- A tick; after Close there is none.
pub tick : Probe → (Bytes → Bytes) → ℕ → (ℕ → ℤ) → Balanced → Balanced
unfolding check_all
tick probe resolve moment elapsed b =
    if b.closed
    then b
    else record b { upstreams = check_all probe resolve moment elapsed 0 b.upstreams }
