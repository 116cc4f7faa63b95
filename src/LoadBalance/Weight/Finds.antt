-- ===== src/LoadBalance/Weight/Finds.antt =====
-- Weight: a loop with enough turns finds a heaviest backend that is available.
use mathlib.Core.Path.{subst}
use native.Mathlib.Nat.{mod-lt}
use jocasta.Prelude.{
  ℕ, zero, suc, ◌+◌, ◌%◌, ◌<◌, ◌≡◌, inl, inr, true, some, [], ◌∷◌, All, length, get_elem?,
  get_elem?-lt, arith, Bool-cases, ◌∙◌,
}
use jocasta.Prelude.Int.{ℤ, pos, negsuc, ◌≤ℤ◌, ltb_ℤ, eqb_ℤ, ◌+ℤ◌, ◌-ℤ◌, IsInt64, wrap_int64}
use jocasta.Go.Result.{ok}
use jocasta.LoadBalance.Upstream.{Upstream, available}
use jocasta.LoadBalance.Pool.{Pool}
use jocasta.LoadBalance.Weight.{Weight, rem, max_and_gcd, lower_weight, turn, weight_loop}
use jocasta.LoadBalance.Weight.Heaviest.{Before, turn-Before, suits, turn_taken, turn_skipped}

-- The current weight stands between nothing and a bound on the weights.
abbrev pub Within : ℤ → ℤ → Type 0
Within w cur = (pos 0 ≤ℤ cur) × (cur ≤ℤ w)

lower_weight-Within :
    (w max gcd cur : ℤ)
    → IsInt64 w
    → Within w max
    → pos 0 ≤ℤ gcd
    → IsInt64 gcd
    → Within w cur
    → Within w (lower_weight max gcd cur)
unfolding lower_weight wrap_int64 ◌-ℤ◌
lower_weight-Within (pos w) (pos max) (pos gcd) (pos cur) i m g h c = ground (arith)
lower_weight-Within (negsuc w) max gcd cur i m g h c = absurd (omega (arith, c.0, c.1))
lower_weight-Within w (negsuc max) gcd cur i m g h c = absurd (omega (arith, m.0))
lower_weight-Within w max (negsuc gcd) cur i m g h c = absurd (omega arith)
lower_weight-Within w max gcd (negsuc cur) i m g h c = absurd (omega (arith, c.0))

module _ (w max gcd : ℤ) (i : IsInt64 w) (m : Within w max) (g : pos 0 ≤ℤ gcd) (h : IsInt64 gcd)
    (us : Pool) (positive : 0 < length us) where
  turn-Within :
      (s : Weight) → Within w s.cur_weight → Within w (turn max gcd (length us) s).cur_weight
  unfolding turn
  turn-Within s c = elim (Bool-cases (eqb_ℤ (rem (s.index +ℤ pos 1) (length us)) (pos 0))) [
    | inl t ↦ rw (turn, t) (lower_weight-Within w max gcd s.cur_weight i m g h c)
    | inr t ↦ rw (turn, t) c
  ]

  -- A loop with enough turns to come to an available backend of that weight finds one.
  pub weight_loop_finds :
      (j turns : ℕ) (s : Weight) (p : ℕ) {u : Upstream}
      → Before (length us) p s.index
      → Within w s.cur_weight
      → j < turns
      → get_elem? us ((p + j) % length us) ≡ some u
      → available u ≡ true
      → w ≤ℤ u.weight
      → (v : Upstream) × (s' : Weight) × (weight_loop max gcd turns us s ≡ ok (some v, s'))
  weight_loop_finds j zero s p b c l e a k = absurd (omega arith)
  weight_loop_finds zero (suc turns) s p {u} b c l e a k = (
    u,
    _,
    turn_taken max gcd us s p b (subst (λ q. get_elem? us (q % length us) ≡ some u) (omega arith) e)
        turns (ground (arith, turn-Within s c, k, a)),
  )
  weight_loop_finds (suc j) (suc turns) s p {u} b c l e a k =
      let (v, f) = get_elem?-lt us (p % length us) (mod-lt p positive) in
      elim (Bool-cases (suits max gcd us s p b v)) [
        | inl t ↦ (v, _, turn_taken max gcd us s p b f turns t)
        | inr t ↦
            let (x, s', q) =
              weight_loop_finds j turns _ (suc p) (turn-Before max gcd us s p b) (turn-Within s c)
                (omega arith) (subst (λ q. get_elem? us (q % length us) ≡ some u) (omega arith) e) a
                k in
            (x, s', turn_skipped max gcd us s p b f turns t ∙ q)
      ]

-- What is relied on of Gcdx: the divisor of natural numbers that fit an int is such a number.
abbrev pub IsGcdx : (ℤ → ℤ → ℤ) → Type 0
IsGcdx gcdx =
    (a b : ℤ)
    → pos 0 ≤ℤ a
    → IsInt64 a
    → pos 0 ≤ℤ b
    → IsInt64 b
    → (pos 0 ≤ℤ gcdx a b) × IsInt64 (gcdx a b)

abbrev pub Weighted : Pool → Type 0
Weighted = All (λ u. (pos 0 ≤ℤ u.weight) × IsInt64 u.weight)

-- No backend is heavier than the bound.
abbrev pub Lighter : ℤ → Pool → Type 0
Lighter w = All (λ u. u.weight ≤ℤ w)

module _ (gcdx : ℤ → ℤ → ℤ) (law : IsGcdx gcdx) where
  pub max_and_gcd-Weighted :
      (us : Pool) (max g w : ℤ)
      → Weighted us
      → Lighter w us
      → (pos 0 ≤ℤ max) × IsInt64 max × (max ≤ℤ w)
      → (pos 0 ≤ℤ g) × IsInt64 g
      → (let r = max_and_gcd gcdx us max g in
          ((pos 0 ≤ℤ r.0) × IsInt64 r.0 × (r.0 ≤ℤ w)) × ((pos 0 ≤ℤ r.1) × IsInt64 r.1))
  unfolding max_and_gcd
  max_and_gcd-Weighted [] max g w a b m d = (m, d)
  max_and_gcd-Weighted (u ∷ us) max g w a b m d =
      max_and_gcd-Weighted us _ _ w a.1 b.1
        (elim (Bool-cases (ltb_ℤ max u.weight)) [
          | inl t ↦ rw t (a.0.0, a.0.1, b.0)
          | inr t ↦ rw t m
        ])
        (law g u.weight d.0 d.1 a.0.0 a.0.1)
