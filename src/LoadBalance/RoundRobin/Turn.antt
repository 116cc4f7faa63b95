-- ===== src/LoadBalance/RoundRobin/Turn.antt =====
-- RoundRobin takes the first available backend after the one that its counter stands at.
use native.Mathlib.Nat.{mod-lt}
use jocasta.Prelude.{
  ℕ, zero, suc, ◌+◌, ◌%◌, ◌^◌, ◌-◌, ◌<◌, ◌≡◌, refl, false, Option, none, some, length, [], ◌∷◌, inl,
  inr, get_elem?-lt, arith, Bool-cases, ◌∙◌, ap,
}
use jocasta.Go.Result.{ok}
use jocasta.LoadBalance.Upstream.{Upstream, available, add_uint32}
use jocasta.LoadBalance.Pool.{Pool, pool_at, pool_at_ok}
use jocasta.LoadBalance.Choice.{Choice}
use jocasta.LoadBalance.Cycle.{First, First-hit, First-skip, First-Choice, found}
use jocasta.LoadBalance.RoundRobin.{round_loop, round_robin_select}

-- The counter after a search of `k` turns.
abbrev pub counter : ℕ → Option (Upstream × ℕ) → ℕ
counter e none = e
counter e (some (_, p)) = p

round_loop-First :
    (k : ℕ) (us : Pool) (robin : ℕ)
    → 0 < length us
    → length us < 2 ^ 32
    → robin + k < 2 ^ 32
    → (r : Option (Upstream × ℕ)) × First us (suc robin) k r
      × (round_loop k us robin ≡ ok (found r, counter (robin + k) r))
unfolding round_loop
round_loop-First zero us robin h l b = (none, (λ i u h e. absurd (omega arith)), ground arith)
round_loop-First (suc k) us robin h l b =
    let (u, e) = get_elem?-lt us (suc robin % length us) (mod-lt (suc robin) h) in
    let (r, f, q) = round_loop-First k us (suc robin) h l (omega arith) in
    elim (Bool-cases (available u)) [
      | inl a ↦ (
        some (u, suc robin),
        First-hit us (suc robin) k u e a,
        rw (next, len, pool_at_ok us _ e, a) refl,
      )
      | inr a ↦ (
        r,
        First-skip us (suc robin) k u e r a f,
        rw (next, len, pool_at_ok us _ e, a)
            (q ∙ ap (λ c. ok (found r, counter c r)) (omega arith)),
      )
    ]
  where
    next : add_uint32 robin ≡ suc robin
    next = omega arith

    len : length us % 2 ^ 32 ≡ length us
    len = omega arith

-- Select returns the first available backend of the turns after the counter, which then stands at
-- it, and none if no backend is available, after a turn for each; the pool has at most 2^32 - 1
-- backends, and the counter does not wrap on the way.
pub round_robin_select-First :
    (us : Pool) (robin : ℕ)
    → robin + length us < 2 ^ 32
    → (r : Option (Upstream × ℕ)) × First us (suc robin) (length us) r
      × (round_robin_select us robin ≡ ok (found r, counter (robin + length us) r))
unfolding round_robin_select round_loop
round_robin_select-First [] robin h =
    (none, (λ i u l e. absurd (omega arith)), ap (λ c. ok (none, c)) (omega arith))
round_robin_select-First (u ∷ us) robin h =
    rw len (round_loop-First (length (u ∷ us)) (u ∷ us) robin (omega arith) (omega arith) h)
  where
    len : length (u ∷ us) % 2 ^ 32 ≡ length (u ∷ us)
    len = omega arith

-- A selection finds an available backend if there is one, unless the counter wraps on the way.
pub round_robin_select-Choice :
    (us : Pool) (robin : ℕ)
    → robin + length us < 2 ^ 32
    → (r : Option Upstream) × (robin' : ℕ) × (round_robin_select us robin ≡ ok (r, robin'))
      × Choice us r
round_robin_select-Choice us robin h =
    let (r, f, e) = round_robin_select-First us robin h in
    (found r, _, e, First-Choice us (suc robin) r f)

-- Where the counter wraps, a selection can miss an available backend: of three backends, the last
-- one is not looked at from the counter 2^32 - 2 on, and if the others are unavailable, nothing is
-- selected, whether the last one is available or not.
pub round_robin_select_wraps :
    (u v w : Upstream)
    → available u ≡ false
    → available v ≡ false
    → round_robin_select (u ∷ v ∷ w ∷ []) (2 ^ 32 - 2) ≡ ok (none, 1)
unfolding round_robin_select round_loop pool_at
round_robin_select_wraps u v w a b = rw (a, b) refl
