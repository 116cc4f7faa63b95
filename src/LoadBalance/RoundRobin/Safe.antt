-- ===== src/LoadBalance/RoundRobin/Safe.antt =====
-- RoundRobin without a bound on its counter.
use native.Mathlib.Nat.{mod-lt}
use jocasta.Prelude.{
  ℕ, zero, suc, ◌%◌, ◌^◌, ◌<◌, ◌≡◌, refl, inl, inr, Option, none, some, [], ◌∷◌, length,
  get_elem?-lt, arith, Bool-cases,
}
use jocasta.Go.Result.{ok}
use jocasta.LoadBalance.Upstream.{Upstream, available, add_uint32}
use jocasta.LoadBalance.Pool.{Pool, pool_at_ok}
use jocasta.LoadBalance.Choice.{Sound}
use jocasta.LoadBalance.RoundRobin.{round_loop, round_robin_select}

-- Also where its counter wraps, RoundRobin returns nothing or an available backend of the pool.
round_loop-Sound :
    (turns : ℕ) (us : Pool) (robin : ℕ)
    → 0 < length us
    → length us < 2 ^ 32
    → (r : Option Upstream) × (robin' : ℕ) × (round_loop turns us robin ≡ ok (r, robin'))
      × Sound us r
unfolding round_loop
round_loop-Sound zero us robin h l = (none, robin, refl, tt)
round_loop-Sound (suc turns) us robin h l =
    let (u, e) = get_elem?-lt us (add_uint32 robin % length us) (mod-lt (add_uint32 robin) h) in
    let (r, robin', q, c) = round_loop-Sound turns us (add_uint32 robin) h l in
    elim (Bool-cases (available u)) [
      | inl a ↦ (some u, add_uint32 robin, rw (len, pool_at_ok us _ e, a) refl, ((a, _, e), tt))
      | inr a ↦ (r, robin', rw (len, pool_at_ok us _ e, a) q, c)
    ]
  where
    len : length us % 2 ^ 32 ≡ length us
    len = omega arith

pub round_robin_select-Sound :
    (us : Pool) (robin : ℕ)
    → length us < 2 ^ 32
    → (r : Option Upstream) × (robin' : ℕ) × (round_robin_select us robin ≡ ok (r, robin'))
      × Sound us r
unfolding round_robin_select round_loop
round_robin_select-Sound [] robin l = (none, robin, refl, tt)
round_robin_select-Sound (u ∷ us) robin l = round_loop-Sound _ (u ∷ us) robin (omega arith) l
