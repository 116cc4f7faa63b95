-- ===== src/LoadBalance/Upstream/Valid.antt =====
-- What holds of each backend that NewUpstream makes, and stays so.
use mathlib.Core.Path.{subst}
use jocasta.Prelude.{ℕ, ◌<◌, ◌≤◌, ◌≡◌, refl, Bool, arith}
use jocasta.Prelude.Int.{ℤ, pos, ◌<ℤ◌}
use jocasta.Go.Result.{Result, ok, err, panic}
use jocasta.Go.Io.{Bytes}
use jocasta.Go.HostPort.{AddrError, split_host_port}
use jocasta.LoadBalance.Upstream.{
  Probe, Config, Upstream, with_defaults, fresh, new_upstream, address_required, conns_increase,
  conns_decrease, record_probe, healthy_check,
}

-- The address is host:port, and the thresholds, the weight and the durations are positive.
pub record ValidConfig (c : Config) : Type 0 where
  pub address : (hp : Bytes × Bytes) × (split_host_port c.addr ≡ ok hp)
  pub success : 0 < c.success_threshold
  pub failure : 0 < c.failure_threshold
  pub weighted : pos 0 <ℤ c.weight
  pub timed : pos 0 <ℤ c.timeout
  pub periodic : pos 0 <ℤ c.period

-- The configuration is valid, and the health is 0 or 1.
abbrev pub Valid : Upstream → Type 0
Valid u = ValidConfig u.config × (u.health ≤ 1)

fresh-Valid : (c : Config) {hp : Bytes × Bytes} → split_host_port c.addr ≡ ok hp → Valid (fresh c)
unfolding fresh with_defaults
fresh-Valid c {hp} e = (
  record {
    address = (hp, e);
    success = ground (arith);
    failure = ground (arith);
    weighted = ground (arith);
    timed = ground (arith);
    periodic = ground (arith);
  },
  omega arith,
)

-- What NewUpstream makes of a configuration is valid.
pub new_upstream-Valid : (c : Config) (u : Upstream) → new_upstream c ≡ ok u → Valid u
unfolding new_upstream
new_upstream-Valid c u e = go (split_host_port c.addr) refl e
  where
    go :
        (r : Result AddrError (Bytes × Bytes))
        → split_host_port c.addr ≡ r
        → (elim r [ ok _ ↦ ok (fresh c) | err _ ↦ err address_required | panic ↦ panic ]) ≡ ok u
        → Valid u
    go (ok hp) s e = subst Valid {x = fresh c} {y = u} (cc) (fresh-Valid c s)
    go (err _) s e = absurd (cc)
    go panic s e = absurd (cc)

pub conns_increase-Valid : (u : Upstream) → Valid u → Valid (conns_increase u)
unfolding conns_increase
conns_increase-Valid u v = v

pub conns_decrease-Valid : (u : Upstream) → Valid u → Valid (conns_decrease u)
unfolding conns_decrease
conns_decrease-Valid u v = v

pub record_probe-Valid :
    (outcome : Bool) (elapsed : ℤ) (u : Upstream) → Valid u → Valid (record_probe outcome elapsed u)
unfolding record_probe
record_probe-Valid outcome elapsed u v =
    (subst ValidConfig (ground (arith)) v.0, ground (arith, v.1))

pub healthy_check-Valid :
    (probe : Probe) (moment : ℕ) (elapsed : ℤ) (addr : Bytes) (u : Upstream)
    → Valid u
    → Valid (healthy_check probe moment elapsed addr u)
unfolding healthy_check
healthy_check-Valid probe moment elapsed addr u v = record_probe-Valid _ elapsed u v
