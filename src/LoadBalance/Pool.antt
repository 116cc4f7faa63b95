-- ===== src/LoadBalance/Pool.antt =====
-- core/loadbalance/upstream.go: the pool of the backends. A pool is a slice of pointers to distinct
-- backends, so an update of one is an update of its place in the list.
pub mod Counts
pub mod Valid
use jocasta.Prelude.{
  ℕ, ◌≡◌, refl, suc, ◌+◌, Bool, true, false, ◌||◌, List, [], ◌∷◌, Option, none, some, get_elem?,
  if◌then◌else◌,
}
use jocasta.Go.Result.{Result, ok, err, panic}
use jocasta.Go.Io.{Bytes}
use jocasta.Go.Net.{bytes_eq}
use jocasta.LoadBalance.Upstream.{
  Config, Upstream, fresh, new_upstream, conns_increase, conns_decrease, healthy,
}

abbrev pub Pool : Type 0
Pool = List Upstream

-- A selector has no error to return: it can only panic.
pub data NoError : Type 0 where

-- pool[i]
unfoldable pub pool_at : Pool → ℕ → Result NoError Upstream
pool_at us i = elim (get_elem? us i) [ none ↦ panic | some u ↦ ok u ]

pub pool_at_ok : (us : Pool) (i : ℕ) {u : Upstream} → get_elem? us i ≡ some u → pool_at us i ≡ ok u
unfolding pool_at
pool_at_ok us i e = rw (pool_at, e) refl

-- NewUpstreamPool: a configuration that is refused is left out.
unfoldable pub new_upstream_pool : List Config → Pool
new_upstream_pool [] = []
new_upstream_pool (c ∷ cs) =
    let rest = new_upstream_pool cs in
    elim (new_upstream c) [ ok u ↦ u ∷ rest | err _ ↦ rest | panic ↦ rest ]

-- The loop of ConnsIncrease and ConnsDecrease: the first backend with the address is updated.
update_first : (Upstream → Upstream) → Bytes → Pool → Pool
update_first f addr [] = []
update_first f addr (u ∷ us) =
    let rest = update_first f addr us in if bytes_eq u.addr addr then f u ∷ us else u ∷ rest

-- (UpstreamPool).ConnsIncrease
pub pool_increase : Bytes → Pool → Pool
unfolding update_first
pool_increase = update_first conns_increase

-- (UpstreamPool).ConnsDecrease
pub pool_decrease : Bytes → Pool → Pool
unfolding update_first
pool_decrease = update_first conns_decrease

-- (UpstreamPool).HasHealthy
pub has_healthy : Pool → Bool
has_healthy [] = false
has_healthy (u ∷ us) = let rest = has_healthy us in if healthy u then true else rest

-- (UpstreamPool).HealthyCount
pub healthy_count : Pool → ℕ
healthy_count [] = 0
healthy_count (u ∷ us) = let rest = healthy_count us in if healthy u then suc rest else rest
