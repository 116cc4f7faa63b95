-- ===== src/LoadBalance/Weight/Select.antt =====
-- What Weight selects over a whole pool.
use jocasta.Prelude.{
  ℕ, suc, ◌≡◌, ◌≢◌, refl, true, Option, none, some, [], ◌∷◌, All, length, get_elem?, get_elem?_lt,
  All-get_elem?, arith,
}
use jocasta.Prelude.Int.{ℤ, pos, negsuc}
use jocasta.Go.Result.{ok}
use jocasta.LoadBalance.Upstream.{Upstream, available}
use jocasta.LoadBalance.Pool.{Pool}
use jocasta.LoadBalance.Choice.{IsCandidate, option_list}
use jocasta.LoadBalance.Cycle.{covers}
use jocasta.LoadBalance.Weight.{Weight, max_and_gcd, weight_select}
use jocasta.LoadBalance.Weight.Heaviest.{Before, weight_loop-IsCandidate}
use jocasta.LoadBalance.Weight.Finds.{
  Within, weight_loop_finds, IsGcdx, Weighted, Lighter, max_and_gcd-Weighted,
}

-- The index is -1 before the first selection, and a place afterwards.
abbrev pub Started : ℤ → Type 0
Started (pos i) = Unit {0}
Started (negsuc i) = i ≡ 0

started : (n p : ℕ) (index : ℤ) → Before n p index → Started index
started n p (pos i) b = tt
started n p (negsuc i) b = b.0

before : (n : ℕ) (index : ℤ) → Started index → (p : ℕ) × Before n p index
before n (pos i) h = (suc i, refl)
before n (negsuc i) h = (0, (h, omega arith))

-- On a pool of other than one backend, a selection never panics and returns nothing or an available
-- backend of the pool, and the next one can follow.
pub weight_select-IsCandidate :
    (gcdx : ℤ → ℤ → ℤ) (us : Pool) (s : Weight)
    → Started s.index
    → length us ≢ 1
    → (r : Option Upstream) × (s' : Weight) × (weight_select gcdx us s ≡ ok (r, s'))
      × All (IsCandidate us) (option_list r)
      × Started s'.index
unfolding weight_select
weight_select-IsCandidate gcdx [] s h n = (none, s, refl, tt, h)
weight_select-IsCandidate gcdx (u ∷ []) s h n = absurd (n refl)
weight_select-IsCandidate gcdx (u ∷ v ∷ us) s h n =
    let pool = u ∷ v ∷ us in
    let (max, gcd) = max_and_gcd gcdx (v ∷ us) u.weight u.weight in
    let (p, b) = before (length pool) s.index h in
    let (r, s', e, c, (q, b')) =
      weight_loop-IsCandidate max gcd pool (omega arith) (length pool) s p b in
    (r, s', e, c, started (length pool) q s'.index b')

-- A selection finds a backend whenever a heaviest backend of the pool is available, from every
-- state that selections from NewWeight can leave behind: the weights are natural numbers that fit
-- an int, and the current weight is at most the largest.
pub weight_select_finds :
    (gcdx : ℤ → ℤ → ℤ)
    → IsGcdx gcdx
    → (us : Pool) (s : Weight) (u : Upstream) (i : ℕ) → Started s.index
    → Weighted us
    → get_elem? us i ≡ some u
    → Lighter u.weight us
    → available u ≡ true
    → Within u.weight s.cur_weight
    → (v : Upstream) × (s' : Weight) × (weight_select gcdx us s ≡ ok (some v, s'))
unfolding weight_select
weight_select_finds gcdx law [] s u i h w e l a c = absurd (cc)
weight_select_finds gcdx law (x ∷ []) s u i h w e l a c = (x, s, refl)
weight_select_finds gcdx law (x ∷ y ∷ us) s u i h w e l a c =
    let pool = x ∷ y ∷ us in
    let (max, gcd) = max_and_gcd gcdx (y ∷ us) x.weight x.weight in
    let (p, b) = before (length pool) s.index h in
    let (j, j_lt, at) = covers (length pool) p i (get_elem?_lt pool i e) in
    let (m, g) =
      max_and_gcd-Weighted gcdx law (y ∷ us) x.weight x.weight u.weight w.1 l.1 (w.0.0, w.0.1, l.0)
        w.0 in
    weight_loop_finds u.weight max gcd (All-get_elem? _ pool i w e).1 (m.0, m.2) g.0 g.1 pool
      (omega arith) j (length pool) s p b c j_lt (rw at e) a (omega arith)
