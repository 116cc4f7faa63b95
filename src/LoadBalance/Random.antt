-- ===== src/LoadBalance/Random.antt =====
-- core/loadbalance/selector.go: Random. The `k`-th number that is drawn is `rand k`.
pub mod Finds
use jocasta.Prelude.{
  ℕ, suc, ◌+◌, ◌%◌, true, false, Option, none, some, [], ◌∷◌, ◌==◌, if◌then◌else◌,
}
use jocasta.LoadBalance.Upstream.{Upstream, available}
use jocasta.LoadBalance.Pool.{Pool}

-- The loop, with the candidates counted so far and the one that is held. A number is drawn for each
-- candidate, so the count is also how many were drawn.
random_loop : (ℕ → ℕ) → Pool → ℕ → Option Upstream → Option Upstream
random_loop rand [] count b = b
random_loop rand (u ∷ us) count b = elim (available u) [
  | true ↦ random_loop rand us (suc count) (if rand count % suc count == 0 then some u else b)
  | false ↦ random_loop rand us count b
]

-- (Random).Select
unfoldable pub random_select : (ℕ → ℕ) → Pool → Option Upstream
unfolding random_loop
random_select rand us = random_loop rand us 0 none
