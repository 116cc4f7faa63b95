-- ===== src/LoadBalance/Pool/Counts.antt =====
-- The connections and the health of a pool as counts.
use jocasta.Prelude.{◌≡◌, refl, [], ◌∷◌, arith, All, leb}
use jocasta.Prelude.Int.{ℤ, pos, negsuc, wrap_int64, IsInt64, ◌+ℤ◌, ◌-ℤ◌}
use jocasta.Go.Io.{Bytes}
use jocasta.LoadBalance.Upstream.{conns_increase, conns_decrease}
use jocasta.LoadBalance.Pool.{Pool, pool_increase, pool_decrease, has_healthy, healthy_count}

wrap_back : (c : ℤ) → IsInt64 c → wrap_int64 (wrap_int64 (c +ℤ pos 1) -ℤ pos 1) ≡ c
unfolding wrap_int64 ◌+ℤ◌ ◌-ℤ◌
wrap_back (pos n) h = ground arith
wrap_back (negsuc n) h = ground arith

-- ConnsDecrease undoes ConnsIncrease, for every address and also where the counter wraps.
pub pool_decrease-pool_increase :
    (addr : Bytes) (us : Pool)
    → All (λ u. IsInt64 u.connections) us
    → pool_decrease addr (pool_increase addr us) ≡ us
unfolding pool_decrease pool_increase conns_increase conns_decrease
pool_decrease-pool_increase addr [] h = refl
pool_decrease-pool_increase addr (u ∷ us) h =
    ground (arith, wrap_back u.connections h.0, pool_decrease-pool_increase addr us h.1)

-- HasHealthy says whether HealthyCount is positive.
pub has_healthy-healthy_count : (us : Pool) → has_healthy us ≡ leb 1 (healthy_count us)
unfolding has_healthy healthy_count
has_healthy-healthy_count [] = refl
has_healthy-healthy_count (u ∷ us) = ground (arith, has_healthy-healthy_count us)
