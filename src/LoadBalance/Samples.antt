-- ===== src/LoadBalance/Samples.antt =====
-- Backends and pools for the tests of the load balancer.
use jocasta.Prelude.{ℕ, none, [], ◌∷◌}
use jocasta.Prelude.Int.{pos}
use jocasta.Go.Io.{Bytes}
use jocasta.LoadBalance.Upstream.{Config, Upstream}
use jocasta.LoadBalance.Pool.{Pool}

-- "a:1" and "b:1"
abbrev pub a_addr : Bytes
a_addr = 97 ∷ 58 ∷ 49 ∷ []

abbrev pub b_addr : Bytes
b_addr = 98 ∷ 58 ∷ 49 ∷ []

abbrev pub config : Bytes → ℕ → Config
config addr weight = record {
  addr = addr;
  weight = pos weight;
  max_connections = pos 0;
  success_threshold = 3;
  failure_threshold = 3;
  period = pos 1;
  timeout = pos 1;
  liveness_probe = none;
}

abbrev pub backend : Bytes → ℕ → ℕ → ℕ → Upstream
backend addr weight health connections = record {
  config = config addr weight;
  health = health;
  success_count = 3;
  failure_count = 3;
  connections = pos connections;
  least_time = pos connections;
}

-- One backend that is up and one that is down.
abbrev pub up : Upstream
up = backend a_addr 1 1 4

abbrev pub down : Upstream
down = backend b_addr 2 0 0

abbrev pub two : Pool
two = down ∷ up ∷ []
