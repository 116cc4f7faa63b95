-- ===== src/LoadBalance/Weight/Heaviest.antt =====
-- Weight returns only available backends, and one whenever a heaviest backend is available.
use native.Mathlib.Nat.{mod-lt, mod-add-mod}
use jocasta.Prelude.{
  ℕ, Bool, zero, suc, ◌%◌, ◌<◌, ◌≡◌, refl, ◌&&◌, inl, inr, true, false, not, Option, none, some,
  All, length, get_elem?, get_elem?-lt, arith, Bool-cases, ap, ◌∙◌,
}
use jocasta.Prelude.Int.{ℤ, pos, negsuc, ltb_ℤ, ◌+ℤ◌}
use jocasta.Go.Result.{ok}
use jocasta.LoadBalance.Upstream.{Upstream, available}
use jocasta.LoadBalance.Pool.{Pool, pool_at_ok}
use jocasta.LoadBalance.Choice.{IsCandidate, option_list}
use jocasta.LoadBalance.Weight.{Weight, rem, at_int, turn, weight_loop}

-- The turns so far have come to the place before `p`.
abbrev pub Before : ℕ → ℕ → ℤ → Type 0
Before n p (pos i) = (suc i) % n ≡ p % n
Before n p (negsuc i) = (i ≡ 0) × (0 ≡ p % n)

next_place : (n p : ℕ) (index : ℤ) → Before n p index → rem (index +ℤ pos 1) n ≡ pos (p % n)
unfolding ◌+ℤ◌
next_place n p (pos i) h = ground (arith, h)
next_place n p (negsuc i) h = rw (h.0) (ap pos (omega (arith, h.1)))

suc_mod : (n p : ℕ) → suc (p % n) % n ≡ suc p % n
suc_mod n p = ap (λ x. x % n) (omega arith) ∙ mod-add-mod p n 1 ∙ ap (λ x. x % n) (omega arith)

-- One turn at the place `p`.
module _ (max gcd : ℤ) (us : Pool) (s : Weight) (p : ℕ) (at : Before (length us) p s.index) where
  pub turn_index : (turn max gcd (length us) s).index ≡ pos (p % length us)
  unfolding turn
  turn_index = next_place (length us) p s.index at

  pub turn-Before : Before (length us) (suc p) (turn max gcd (length us) s).index
  turn-Before = rw turn_index (suc_mod (length us) p)

  place :
      {u : Upstream}
      → get_elem? us (p % length us) ≡ some u
      → at_int us (turn max gcd (length us) s).index ≡ ok u
  unfolding at_int
  place e = rw (turn_index) (pool_at_ok us _ e)

  abbrev pub suits : Upstream → Bool
  suits u = not (ltb_ℤ u.weight (turn max gcd (length us) s).cur_weight) && available u

  module _ {u : Upstream} (e : get_elem? us (p % length us) ≡ some u) (turns : ℕ) where
    pub turn_taken :
        suits u ≡ true
        → weight_loop max gcd (suc turns) us s ≡ ok (some u, turn max gcd (length us) s)
    unfolding weight_loop
    turn_taken t = rw (place e, t) refl

    pub turn_skipped :
        suits u ≡ false
        → weight_loop max gcd (suc turns) us s
          ≡ weight_loop max gcd turns us (turn max gcd (length us) s)
    unfolding weight_loop
    turn_skipped t = rw (place e, t) refl

pub weight_loop_zero :
    (max gcd : ℤ) (us : Pool) (s : Weight) → weight_loop max gcd 0 us s ≡ ok (none, s)
unfolding weight_loop
weight_loop_zero max gcd us s = refl

module _ (max gcd : ℤ) (us : Pool) (positive : 0 < length us) where
  -- What a loop returns is an available backend of the pool, or nothing.
  pub weight_loop-IsCandidate :
      (turns : ℕ) (s : Weight) (p : ℕ)
      → Before (length us) p s.index
      → (r : Option Upstream) × (s' : Weight) × (weight_loop max gcd turns us s ≡ ok (r, s'))
        × All (IsCandidate us) (option_list r)
        × ((q : ℕ) × Before (length us) q s'.index)
  weight_loop-IsCandidate zero s p b = (none, s, weight_loop_zero max gcd us s, tt, (p, b))
  weight_loop-IsCandidate (suc turns) s p b =
      let (u, e) = get_elem?-lt us (p % length us) (mod-lt p positive) in
      let next = turn-Before max gcd us s p b in
      elim (Bool-cases (suits max gcd us s p b u)) [
        | inl t ↦ (
          some u,
          turn max gcd (length us) s,
          turn_taken max gcd us s p b e turns t,
          ((ground (arith), p % length us, e), tt),
          (suc p, next),
        )
        | inr t ↦
            let (r, s', q, c, i) = weight_loop-IsCandidate turns _ (suc p) next in
            (r, s', turn_skipped max gcd us s p b e turns t ∙ q, c, i)
      ]
