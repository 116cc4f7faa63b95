-- ===== src/LoadBalance/Weight.antt =====
-- core/loadbalance/selector.go: Weight, the weighted round robin. Gcdx of extmath is a parameter.
pub mod Heaviest
pub mod Finds
pub mod Select
pub mod Starves
use jocasta.Prelude.{
  ℕ, zero, suc, ◌+◌, ◌%◌, ◌&&◌, true, false, not, Option, none, some, [], ◌∷◌, length,
  if◌then◌else◌,
}
use jocasta.Prelude.Int.{ℤ, pos, negsuc, ltb_ℤ, eqb_ℤ, ◌+ℤ◌, ◌-ℤ◌, wrap_int64}
use jocasta.Go.Result.{Result, ok, panic, ◌>>=◌}
use jocasta.LoadBalance.Upstream.{Upstream, available}
use jocasta.LoadBalance.Pool.{Pool, NoError, pool_at}

pub record Weight : Type 0 where
  pub index : ℤ
  pub cur_weight : ℤ

-- NewWeight
abbrev pub new_weight : Weight
new_weight = record { index = negsuc 0; cur_weight = pos 0 }

-- a % n on int, which has the sign of a.
abbrev pub rem : ℤ → ℕ → ℤ
rem (pos a) n = pos (a % n)
rem (negsuc a) n = elim (suc a % n) [ zero ↦ pos 0 | suc r ↦ negsuc r ]

-- pool[i] for an int.
pub at_int : Pool → ℤ → Result NoError Upstream
at_int us (pos i) = pool_at us i
at_int us (negsuc i) = panic

-- The loop of getMaxWeightAndGCD, with the largest weight and the divisor so far.
pub max_and_gcd : (ℤ → ℤ → ℤ) → Pool → ℤ → ℤ → ℤ × ℤ
max_and_gcd gcdx [] max g = (max, g)
max_and_gcd gcdx (u ∷ us) max g =
    max_and_gcd gcdx us (if ltb_ℤ max u.weight then u.weight else max) (gcdx g u.weight)

-- What a turn does to the current weight when the index is back at the start.
pub lower_weight : ℤ → ℤ → ℤ → ℤ
lower_weight max gcd cur =
    let cur' = wrap_int64 (cur -ℤ gcd) in if ltb_ℤ (pos 0) cur' then cur' else max

-- The state at which a turn looks for a backend, in a pool of `n`.
pub turn : ℤ → ℤ → ℕ → Weight → Weight
unfolding lower_weight
turn max gcd n s =
    let index = rem (s.index +ℤ pos 1) n in
    record {
      index = index;
      cur_weight = if eqb_ℤ index (pos 0) then lower_weight max gcd s.cur_weight else s.cur_weight;
    }

-- The loop of Select, with the turns that are left.
pub weight_loop : ℤ → ℤ → ℕ → Pool → Weight → Result NoError (Option Upstream × Weight)
weight_loop max gcd zero us s = ok (none, s)
weight_loop max gcd (suc turns) us s =
    let s' = turn max gcd (length us) s in
    let rest = weight_loop max gcd turns us s' in
    at_int us s'.index >>= λ u.
    if not (ltb_ℤ u.weight s'.cur_weight) && available u then ok (some u, s') else rest

-- (Weight).Select
unfoldable pub weight_select :
    (ℤ → ℤ → ℤ) → Pool → Weight → Result NoError (Option Upstream × Weight)
weight_select gcdx [] s = ok (none, s)
weight_select gcdx (u ∷ []) s = ok (some u, s)
weight_select gcdx (u ∷ v ∷ us) s =
    let (max, gcd) = max_and_gcd gcdx (v ∷ us) u.weight u.weight in
    weight_loop max gcd (length (u ∷ v ∷ us)) (u ∷ v ∷ us) s
