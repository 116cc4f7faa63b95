-- ===== src/LoadBalance/Balanced/Tests.antt =====
-- A balancer of two backends with the method "weight", and a registry, at which the theorems hold.
use jocasta.Prelude.{ℕ, ◌≡◌, refl, false, Option, [], ◌∷◌, arith}
use jocasta.Prelude.Int.{ℤ}
use jocasta.Go.Result.{ok}
use jocasta.Go.Io.{Bytes}
use jocasta.Go.Net.{bytes_eq}
use jocasta.Go.HostPort.{split_host_port}
use jocasta.LoadBalance.Samples.{a_addr, b_addr, config}
use jocasta.LoadBalance.Upstream.{Probe, Upstream, new_upstream, fresh}
use jocasta.LoadBalance.Pool.{new_upstream_pool}
use jocasta.LoadBalance.Choice.{Sound}
use jocasta.LoadBalance.Weight.{new_weight}
use jocasta.LoadBalance.Registry.{weight, weight_name, lookup, new_selector}
use jocasta.LoadBalance.Registry.Fallback.{defaults, init-defaults}
use jocasta.LoadBalance.Balanced.{Balanced, new, select, addr_or_empty}
use jocasta.LoadBalance.Balanced.Runs.{Reachable, starts, Sane, Reachable-Sane, select-Reachable}

abbrev zeros : ℕ → ℕ
zeros k = 0

abbrev fst : ℤ → ℤ → ℤ
fst a b = a

abbrev dead : Probe
dead moment addr timeout = false

abbrev same : Bytes → Bytes
same addr = addr

-- What New makes of two configurations.
abbrev started : Balanced
started = record {
  method = weight_name;
  upstreams = fresh (config a_addr 1) ∷ fresh (config b_addr 2) ∷ [];
  selector = weight new_weight;
  closed = false;
}

started-new : new defaults weight_name (config a_addr 1 ∷ config b_addr 2 ∷ []) ≡ ok started
unfolding new new_selector lookup bytes_eq new_upstream_pool new_upstream split_host_port
started-new = refl

started-Reachable : Reachable zeros fst dead same defaults started
started-Reachable = starts weight_name (config a_addr 1 ∷ config b_addr 2 ∷ []) started-new

Reachable-Sane_example : Sane zeros fst dead same defaults started
Reachable-Sane_example = Reachable-Sane zeros fst dead same defaults init-defaults started-Reachable

select-Reachable_example :
    (r : Option Upstream) × (b' : Balanced) × (select zeros fst a_addr started
      ≡ ok (addr_or_empty r, b'))
    × Sound started.upstreams r
    × Reachable zeros fst dead same defaults b'
select-Reachable_example =
    select-Reachable zeros fst dead same defaults init-defaults a_addr started started-Reachable
      (omega arith) (omega arith)
