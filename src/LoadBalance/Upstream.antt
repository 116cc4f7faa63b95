-- ===== src/LoadBalance/Upstream.antt =====
-- core/loadbalance/upstream.go: one backend, its health and its connections.
pub mod Health
pub mod Valid
use jocasta.Prelude.{
  ℕ, zero, suc, ◌+◌, ◌*◌, ◌%◌, ◌^◌, Bool, true, false, not, ◌&&◌, Option, none, some, ltb, leb,
  ◌==◌, if◌then◌else◌,
}
use jocasta.Prelude.Int.{ℤ, pos, negsuc, ltb_ℤ, ◌+ℤ◌, ◌-ℤ◌, wrap_int64}
use jocasta.Go.Result.{Result, ok, err, panic}
use jocasta.Go.Io.{Bytes}
use jocasta.Go.HostPort.{split_host_port}

-- What a liveness probe of an address, with a timeout, finds at a moment: `true` is no error.
abbrev pub Probe : Type 0
Probe = ℕ → Bytes → ℤ → Bool

-- Durations are in nanoseconds.
pub record Config : Type 0 where
  pub addr : Bytes
  pub weight : ℤ
  pub max_connections : ℤ
  pub success_threshold : ℕ
  pub failure_threshold : ℕ
  pub period : ℤ
  pub timeout : ℤ
  pub liveness_probe : Option Probe

pub record Upstream : Type 0 where
  pub config : Config
  pub open config use *
  pub health : ℕ
  pub success_count : ℕ
  pub failure_count : ℕ
  pub connections : ℤ
  pub least_time : ℤ

pub data ConfigError : Type 0 where
  address_required : ConfigError

abbrev pub second : ℕ
second = 1000000000

-- The value, or the default where it is not positive.
abbrev positive_or : ℤ → ℤ → ℤ
positive_or x d = if ltb_ℤ (pos 0) x then x else d

-- The configuration with the defaults of NewUpstream.
unfoldable pub with_defaults : Config → Config
with_defaults c = record c {
  success_threshold = if c.success_threshold == 0 then 3 else c.success_threshold;
  failure_threshold = if c.failure_threshold == 0 then 3 else c.failure_threshold;
  weight = positive_or c.weight (pos 1);
  timeout = positive_or c.timeout (pos second);
  period = positive_or c.period (pos (second * 30));
}

-- The backend that NewUpstream makes, unhealthy and without connections.
unfoldable pub fresh : Config → Upstream
unfolding with_defaults
fresh c = record {
  config = with_defaults c;
  health = 0;
  success_count = 0;
  failure_count = 0;
  connections = pos 0;
  least_time = pos 0;
}

-- NewUpstream.
unfoldable pub new_upstream : Config → Result ConfigError Upstream
new_upstream c = elim (split_host_port c.addr) [
  | ok _ ↦ ok (fresh c)
  | err _ ↦ err address_required
  | panic ↦ panic
]

-- ConnsIncrease and ConnsDecrease: atomic.AddInt64.
unfoldable pub conns_increase : Upstream → Upstream
conns_increase u = record u { connections = wrap_int64 (u.connections +ℤ pos 1) }

unfoldable pub conns_decrease : Upstream → Upstream
conns_decrease u = record u { connections = wrap_int64 (u.connections -ℤ pos 1) }

-- ConnsCount.
abbrev pub conns_count : Upstream → ℤ
conns_count u = u.connections

-- LeastTime.
abbrev pub latest_time : Upstream → ℤ
latest_time u = u.least_time

-- Healthy.
unfoldable pub healthy : Upstream → Bool
healthy u = u.health == 1

-- Full.
unfoldable pub full : Upstream → Bool
full u = ltb_ℤ (pos 0) u.max_connections && not (ltb_ℤ u.connections u.max_connections)

-- Available.
unfoldable pub available : Upstream → Bool
unfolding healthy full
available u = healthy u && not (full u)

-- atomic.AddUint32(&n, 1)
abbrev pub add_uint32 : ℕ → ℕ
add_uint32 n = (n + 1) % 2 ^ 32

-- The counters and the health after a probe that failed.
probe_failed : Upstream → Upstream
probe_failed u =
    let failure = add_uint32 u.failure_count in
    if leb u.failure_threshold failure
    then record u { failure_count = failure; success_count = 0; health = 0 }
    else record u { failure_count = failure }

-- The counters and the health after a probe that succeeded.
probe_succeeded : Upstream → Upstream
probe_succeeded u =
    let success = add_uint32 u.success_count in
    if leb u.success_threshold success
    then record u { success_count = success; failure_count = 0; health = 1 }
    else record u { success_count = success }

-- What healthyCheck does with the outcome of its probe and the time that it took.
pub record_probe : Bool → ℤ → Upstream → Upstream
unfolding probe_failed probe_succeeded
record_probe outcome elapsed u =
    let timed = record u { least_time = elapsed } in
    if outcome then probe_succeeded timed else probe_failed timed

-- healthyCheck, at a moment, with the probe that dials TCP and the time that the probe takes.
pub healthy_check : Probe → ℕ → ℤ → Bytes → Upstream → Upstream
unfolding record_probe
healthy_check tcp_liveness_probe moment elapsed addr u =
    let probe : Probe = elim u.liveness_probe [ none ↦ tcp_liveness_probe | some p ↦ p ] in
    record_probe (probe moment addr u.timeout) elapsed u
