-- ===== src/LoadBalance/Random/Finds.antt =====
-- Random finds an available backend if there is one, whatever numbers are drawn.
use jocasta.Prelude.{
  ℕ, suc, ◌%◌, ◌<◌, ◌≡◌, refl, ◌⊎◌, inl, inr, true, Option, none, some, [], ◌∷◌, All, arith,
  Bool-cases, ◌==◌, if◌then◌else◌,
}
use jocasta.LoadBalance.Upstream.{Upstream, available}
use jocasta.LoadBalance.Pool.{Pool}
use jocasta.LoadBalance.Choice.{Choice, NoneAvailable, IsCandidate, All-IsCandidate}
use jocasta.LoadBalance.Random.{random_loop, random_select}

-- Before the first candidate nothing is held; after it, something with the property `Q`.
abbrev Held : (Upstream → Type 0) → ℕ → Option Upstream → Type 0
Held Q count b = ((count ≡ 0) × (b ≡ none)) ⊎ ((0 < count) × (u : Upstream) × (b ≡ some u) × Q u)

-- What is held after a candidate: the candidate itself, or what was held before.
one_more :
    (Q : Upstream → Type 0) (u : Upstream) (count r : ℕ) (b : Option Upstream)
    → Q u
    → Held Q count b
    → Held Q (suc count) (if r % suc count == 0 then some u else b)
one_more Q u count r b q (inl (z, e)) = inr (omega arith, u, ground arith, q)
one_more Q u count r b q (inr (p, v, e, h)) = elim (Bool-cases (r % suc count == 0)) [
  | inl t ↦ inr (omega arith, u, rw t refl, q)
  | inr t ↦ inr (omega arith, v, rw t e, h)
]

random_loop-Held :
    (Q : Upstream → Type 0) (rand : ℕ → ℕ) (us : Pool) (count : ℕ) (b : Option Upstream)
    → All (λ u. available u ≡ true → Q u) us
    → Held Q count b
    → ((random_loop rand us count b ≡ none) × (count ≡ 0) × NoneAvailable us)
      ⊎ ((u : Upstream) × (random_loop rand us count b ≡ some u) × Q u)
unfolding random_loop
random_loop-Held Q rand [] count b q (inl (z, e)) = inl (e, z, tt)
random_loop-Held Q rand [] count b q (inr (p, u, e, h)) = inr (u, e, h)
random_loop-Held Q rand (u ∷ us) count b q held = elim (Bool-cases (available u)) [
  | inl a ↦
      elim (random_loop-Held Q rand us (suc count) _ q.1
        (one_more Q u count (rand count) b (q.0 a) held)) [
          | inl (e, z, h) ↦ absurd (omega arith)
          | inr (v, e, h) ↦ inr (v, rw (random_loop, a) e, h)
        ]
  | inr a ↦ elim (random_loop-Held Q rand us count b q.1 held) [
    | inl (e, z, h) ↦ inl (rw (random_loop, a) e, z, (a, h))
    | inr (v, e, h) ↦ inr (v, rw (random_loop, a) e, h)
  ]
]

-- Random returns an available backend of the pool, whatever numbers are drawn, and nothing only if
-- no backend is available.
pub random_select-Choice : (rand : ℕ → ℕ) (us : Pool) → Choice us (random_select rand us)
unfolding random_select
random_select-Choice rand us =
    elim (random_loop-Held (IsCandidate us) rand us 0 none (All-IsCandidate us)
      (inl (refl, refl))) [ inl (e, _, h) ↦ inl (e, h) | inr (u, e, h) ↦ inr (u, e, h) ]
