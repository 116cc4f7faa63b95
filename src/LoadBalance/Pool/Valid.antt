-- ===== src/LoadBalance/Pool/Valid.antt =====
-- What holds of the backends of a pool through its operations.
use jocasta.Prelude.{◌≡◌, refl, List, [], ◌∷◌, All, Bool-cases, inl, inr}
use jocasta.Go.Result.{Result, ok, err, panic}
use jocasta.Go.Io.{Bytes}
use jocasta.Go.Net.{bytes_eq}
use jocasta.LoadBalance.Upstream.{
  ConfigError, Config, Upstream, new_upstream, conns_increase, conns_decrease,
}
use jocasta.LoadBalance.Upstream.Valid.{
  Valid, new_upstream-Valid, conns_increase-Valid, conns_decrease-Valid,
}
use jocasta.LoadBalance.Pool.{Pool, new_upstream_pool, update_first, pool_increase, pool_decrease}

pub new_upstream_pool-Valid : (cs : List Config) → All Valid (new_upstream_pool cs)
unfolding new_upstream_pool
new_upstream_pool-Valid [] = tt
new_upstream_pool-Valid (c ∷ cs) = go (new_upstream c) refl (new_upstream_pool-Valid cs)
  where
    go :
        (r : Result ConfigError Upstream)
        → new_upstream c ≡ r
        → All Valid (new_upstream_pool cs)
        → All Valid (elim r [
          | ok u ↦ u ∷ new_upstream_pool cs
          | err _ ↦ new_upstream_pool cs
          | panic ↦ new_upstream_pool cs
        ])
    go (ok u) e rest = (new_upstream-Valid c u e, rest)
    go (err _) e rest = rest
    go panic e rest = rest

update_first-Valid :
    (f : Upstream → Upstream)
    → ((u : Upstream) → Valid u → Valid (f u))
    → (addr : Bytes) (us : Pool) → All Valid us
    → All Valid (update_first f addr us)
unfolding update_first
update_first-Valid f keeps addr [] v = tt
update_first-Valid f keeps addr (u ∷ us) v = elim (Bool-cases (bytes_eq u.addr addr)) [
  | inl t ↦ rw t (keeps u v.0, v.1)
  | inr t ↦ rw t (v.0, update_first-Valid f keeps addr us v.1)
]

pub pool_increase-Valid :
    (addr : Bytes) (us : Pool) → All Valid us → All Valid (pool_increase addr us)
unfolding pool_increase
pool_increase-Valid = update_first-Valid conns_increase conns_increase-Valid

pub pool_decrease-Valid :
    (addr : Bytes) (us : Pool) → All Valid us → All Valid (pool_decrease addr us)
unfolding pool_decrease
pool_decrease-Valid = update_first-Valid conns_decrease conns_decrease-Valid
