-- ===== src/LoadBalance/Weight/Starves.antt =====
-- Weight: the first round offers the backends of the largest weight only.
use native.Mathlib.Nat.{mod-eq_of_lt, mod-lt}
use jocasta.Prelude.{
  ℕ, zero, suc, ◌+◌, ◌%◌, ◌<◌, ◌≡◌, refl, inl, inr, true, false, not, ◌&&◌, none, some, [], ◌∷◌,
  All, length, get_elem?, get_elem?-lt, All-get_elem?, All-of_index, arith, ◌∙◌, if◌then◌else◌,
  Bool-cases,
}
use jocasta.Prelude.Int.{ℤ, pos, negsuc, ◌≤ℤ◌, ◌<ℤ◌, ltb_ℤ, eqb_ℤ, ◌-ℤ◌, IsInt64, wrap_int64}
use jocasta.Go.Result.{ok}
use jocasta.LoadBalance.Upstream.{Upstream, available}
use jocasta.LoadBalance.Pool.{Pool}
use jocasta.LoadBalance.Weight.{
  Weight, new_weight, max_and_gcd, lower_weight, turn, weight_loop, weight_select,
}
use jocasta.LoadBalance.Weight.Heaviest.{
  Before, turn_index, turn-Before, turn_skipped, weight_loop_zero,
}
use jocasta.LoadBalance.Weight.Finds.{IsGcdx, Weighted, Lighter, max_and_gcd-Weighted}

≤ℤ_trans : (a b c : ℤ) → a ≤ℤ b → b ≤ℤ c → a ≤ℤ c
≤ℤ_trans a b c h k = omega arith

<ℤ_trans : (a b c : ℤ) → a <ℤ b → b ≤ℤ c → a <ℤ c
<ℤ_trans a b c h k = omega arith

-- The largest weight is at least each.
max_and_gcd_le :
    (gcdx : ℤ → ℤ → ℤ) (us : Pool) (max g : ℤ)
    → (max ≤ℤ (max_and_gcd gcdx us max g).0) × Lighter (max_and_gcd gcdx us max g).0 us
unfolding max_and_gcd
max_and_gcd_le gcdx [] max g = (omega arith, tt)
max_and_gcd_le gcdx (u ∷ us) max g =
    let max' = if ltb_ℤ max u.weight then u.weight else max in
    let (h, k) = max_and_gcd_le gcdx us max' (gcdx g u.weight) in
    (≤ℤ_trans max max' _ (ground (arith)) h, (≤ℤ_trans u.weight max' _ (ground (arith)) h, k))

lower_weight_first : (max gcd : ℤ) → pos 0 ≤ℤ gcd → IsInt64 gcd → lower_weight max gcd (pos 0) ≡ max
unfolding lower_weight wrap_int64 ◌-ℤ◌
lower_weight_first max (pos gcd) g h = ground (arith)
lower_weight_first max (negsuc gcd) g h = absurd (omega arith)

module _ (max gcd : ℤ) (g : pos 0 ≤ℤ gcd) (h : IsInt64 gcd) (us : Pool) where
  -- At the first place of the first round the current weight is nothing, then the largest.
  FirstRound : ℕ → ℤ → Type 0
  FirstRound zero cur = cur ≡ pos 0
  FirstRound (suc p) cur = cur ≡ max

  turn_cur :
      (s : Weight)
      → (turn max gcd (length us) s).cur_weight ≡ (
          if eqb_ℤ (turn max gcd (length us) s).index (pos 0)
          then lower_weight max gcd s.cur_weight
          else s.cur_weight)
  unfolding turn
  turn_cur s = refl

  later : (p : ℕ) → eqb_ℤ (pos (suc p)) (pos 0) ≡ false
  later p = ground (arith)

  unsuited :
      (x : Upstream) (cur : ℤ)
      → cur ≡ max
      → (available x ≡ true → x.weight <ℤ max)
      → (not (ltb_ℤ x.weight cur) && available x) ≡ false
  unsuited x cur e l = elim (Bool-cases (available x)) [
    | inl a ↦ rw (a, e) (ground (arith, l a))
    | inr a ↦ rw a (ground (arith))
  ]

  turn-FirstRound :
      (p : ℕ) (s : Weight)
      → Before (length us) p s.index
      → p < length us
      → FirstRound p s.cur_weight
      → (turn max gcd (length us) s).cur_weight ≡ max
  unfolding FirstRound
  turn-FirstRound zero s b l f =
      rw (turn_cur s, turn_index max gcd us s 0 b, mod-eq_of_lt l, f)
        (lower_weight_first max gcd g h)
  turn-FirstRound (suc p) s b l f =
      rw (turn_cur s, turn_index max gcd us s (suc p) b, mod-eq_of_lt l, later p) f

  weight_loop_starves :
      All (λ x. available x ≡ true → x.weight <ℤ max) us
      → (turns : ℕ) (p : ℕ) (s : Weight) → Before (length us) p s.index
      → p + turns ≡ length us
      → FirstRound p s.cur_weight
      → (s' : Weight) × (weight_loop max gcd turns us s ≡ ok (none, s'))
  unfolding FirstRound
  weight_loop_starves light zero p s b e f = (s, weight_loop_zero max gcd us s)
  weight_loop_starves light (suc turns) p s b e f =
      let (v, get) = get_elem?-lt us (p % length us) (mod-lt p (omega arith)) in
      let next = turn-FirstRound p s b (omega arith) f in
      let (s', q) =
        weight_loop_starves light turns (suc p) _ (turn-Before max gcd us s p b) (omega arith)
          next in
      (
        s',
        turn_skipped max gcd us s p b get turns (unsuited v _ next (All-get_elem? _ us _ light get))
            ∙ q,
      )

-- From NewWeight on, a pool of at least two backends in which every available backend is lighter than
-- the heaviest yields nothing at the first selection, however many backends are available.
pub weight_select_starves :
    (gcdx : ℤ → ℤ → ℤ)
    → IsGcdx gcdx
    → (u v : Upstream) (us : Pool) (w : Upstream) (i : ℕ) → Weighted (u ∷ v ∷ us)
    → get_elem? (u ∷ v ∷ us) i ≡ some w
    → All (λ x. available x ≡ true → x.weight <ℤ w.weight) (u ∷ v ∷ us)
    → (s : Weight) × (weight_select gcdx (u ∷ v ∷ us) new_weight ≡ ok (none, s))
unfolding weight_select FirstRound
weight_select_starves gcdx law u v us w i a e l =
    let pool = u ∷ v ∷ us in
    let (max, gcd) = max_and_gcd gcdx (v ∷ us) u.weight u.weight in
    let (first, others) = max_and_gcd_le gcdx (v ∷ us) u.weight u.weight in
    let (_, g) =
      max_and_gcd-Weighted gcdx law (v ∷ us) u.weight u.weight max a.1 others (a.0.0, a.0.1, first)
        a.0 in
    let heavy = All-get_elem? (λ x. x.weight ≤ℤ max) pool i (first, others) e in
    weight_loop_starves max gcd g.0 g.1 pool
      (All-of_index _ pool
        (λ j x at b. <ℤ_trans x.weight w.weight max (All-get_elem? _ pool j l at b) heavy))
      (length pool) 0 new_weight (refl, omega arith) (omega arith) refl
