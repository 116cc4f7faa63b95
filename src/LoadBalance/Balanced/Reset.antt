-- ===== src/LoadBalance/Balanced/Reset.antt =====
-- Reset and New of Balanced.
use jocasta.Prelude.{◌≡◌, refl, false, List}
use jocasta.Go.Result.{ok}
use jocasta.LoadBalance.Upstream.{Config}
use jocasta.LoadBalance.Pool.{new_upstream_pool}
use jocasta.LoadBalance.Registry.{Registry, init}
use jocasta.LoadBalance.Registry.Fallback.{new_selector_ok}
use jocasta.LoadBalance.Balanced.{Balanced, new, reset}

-- For every method New makes a balancer, and Reset puts a balancer back to what New makes of its
-- method, except that a closed one stays closed, where the registry is what `init` registers.
pub reset-new :
    (rs : Registry)
    → init ≡ ok rs
    → (configs : List Config) (b : Balanced)
    → (b' : Balanced) × (new rs b.method configs ≡ ok b')
      × (reset rs configs b ≡ ok (record b' { closed = b.closed }))
unfolding new reset
reset-new rs initial configs b =
    let (s, e) = new_selector_ok rs initial b.method in
    (
      record {
        method = b.method;
        upstreams = new_upstream_pool configs;
        selector = s;
        closed = false;
      },
      rw (new, e) refl,
      rw (reset, e) refl,
    )
