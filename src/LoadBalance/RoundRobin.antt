-- ===== src/LoadBalance/RoundRobin.antt =====
-- core/loadbalance/selector.go: RoundRobin. Its state is the counter `robin`, a uint32.
pub mod Turn
pub mod Safe
use jocasta.Prelude.{ℕ, zero, suc, ◌+◌, ◌*◌, ◌%◌, ◌^◌, Option, none, some, length, if◌then◌else◌}
use jocasta.Go.Result.{Result, ok, ◌>>=◌}
use jocasta.LoadBalance.Upstream.{Upstream, available, add_uint32}
use jocasta.LoadBalance.Pool.{Pool, NoError, pool_at}

-- The loop, with as many turns left as the counter `i` has to go.
pub round_loop : ℕ → Pool → ℕ → Result NoError (Option Upstream × ℕ)
round_loop zero us robin = ok (none, robin)
round_loop (suc turns) us robin =
    let robin' = add_uint32 robin in
    let rest = round_loop turns us robin' in
    pool_at us (robin' % (length us % 2 ^ 32)) >>= λ u.
    if available u then ok (some u, robin') else rest

-- (RoundRobin).Select, with the counter after it.
unfoldable pub round_robin_select : Pool → ℕ → Result NoError (Option Upstream × ℕ)
round_robin_select us robin = round_loop (length us % 2 ^ 32) us robin
