-- ===== src/LoadBalance/Cycle.antt =====
-- A search through a pool from one place on, around its end: what RoundRobin and the hash selectors
-- do.
use mathlib.Core.Path.{subst}
use native.Mathlib.Nat.{mul-add-mod_self_right, mod-add-div', mod-eq_of_lt, mod-lt}
use jocasta.Prelude.{
  ℕ, zero, suc, ◌+◌, ◌*◌, ◌/◌, ◌%◌, ◌-◌, ◌<◌, ◌≤◌, ◌≡◌, refl, inl, inr, true, false, Option, none,
  some, length, get_elem?, get_elem?_lt, All-of_index, arith, le_or_lt, ◌∙◌,
}
use jocasta.LoadBalance.Upstream.{Upstream, available}
use jocasta.LoadBalance.Pool.{Pool}
use jocasta.LoadBalance.Choice.{Choice, NoneAvailable}

-- No backend at the `k` places from `s` on is available.
abbrev pub Busy : Pool → ℕ → ℕ → Type 0
Busy us s k =
    (i : ℕ) (u : Upstream)
    → i < k
    → get_elem? us ((s + i) % length us) ≡ some u
    → available u ≡ false

-- The first available backend of the `k` places from `s` on, with its place, if there is one.
abbrev pub First : Pool → ℕ → ℕ → Option (Upstream × ℕ) → Type 0
First us s k none = Busy us s k
First us s k (some (u, p)) =
    (s ≤ p)
    × (p < s + k)
    × (get_elem? us (p % length us) ≡ some u)
    × (available u ≡ true)
    × Busy us s (p - s)

abbrev pub found : Option (Upstream × ℕ) → Option Upstream
found none = none
found (some (u, _)) = some u

module _ (us : Pool) (s : ℕ) (k : ℕ) (u : Upstream)
    (e : get_elem? us (s % length us) ≡ some u) where
  pub First-hit : available u ≡ true → First us s (suc k) (some (u, s))
  First-hit a = (omega arith, omega arith, e, a, λ i v h. absurd (omega arith))

  shift : (i : ℕ) → suc s + i ≡ s + suc i
  shift i = omega arith

  no_shift : s + 0 ≡ s
  no_shift = omega arith

  Busy-skip : (j : ℕ) → available u ≡ false → Busy us (suc s) j → Busy us s (suc j)
  Busy-skip j a b zero v h get = subst (λ w. available w ≡ false) (cc no_shift) a
  Busy-skip j a b (suc i) v h get = b i v (omega arith) (rw (shift i) get)

  pub First-skip :
      (r : Option (Upstream × ℕ))
      → available u ≡ false
      → First us (suc s) k r
      → First us s (suc k) r
  First-skip none a b = Busy-skip k a b
  First-skip (some (v, p)) a (l, h, get, w, b) = (
    omega arith,
    omega arith,
    get,
    w,
    subst (Busy us s) (omega arith) (Busy-skip (p - suc s) a b),
  )

-- A walk of `n` steps around `n` places comes to each.
pub covers : (n s i : ℕ) → i < n → (k : ℕ) × (k < n) × ((s + k) % n ≡ i)
covers n s i h = elim (le_or_lt (s % n) i) [
  | inl l ↦ (i - s % n, omega arith, turn (s / n) (omega (arith, mod-add-div' s n)))
  | inr g ↦ (
    n - s % n + i,
    omega (arith, mod-lt s positive),
    turn (suc (s / n)) (omega (arith, mod-add-div' s n, mod-lt s positive)),
  )
]
  where
    positive : 0 < n
    positive = omega arith

    turn : (q : ℕ) {m : ℕ} → m ≡ q * n + i → m % n ≡ i
    turn q e = rw e (mul-add-mod_self_right q n i ∙ mod-eq_of_lt h)

Busy-NoneAvailable : (us : Pool) (s : ℕ) → Busy us s (length us) → NoneAvailable us
Busy-NoneAvailable us s b =
    All-of_index _ us
      (λ i u e. let (k, l, c) = covers (length us) s i (get_elem?_lt us i e) in b k u l (rw c e))

-- A search through the whole pool finds what a selector is expected to return.
pub First-Choice :
    (us : Pool) (s : ℕ) (r : Option (Upstream × ℕ)) → First us s (length us) r → Choice us (found r)
First-Choice us s none b = inl (refl, Busy-NoneAvailable us s b)
First-Choice us s (some (u, p)) (l, h, get, a, b) = inr (u, refl, (a, p % length us, get))
