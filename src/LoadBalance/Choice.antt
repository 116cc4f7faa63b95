-- ===== src/LoadBalance/Choice.antt =====
-- What a selector is expected to return: an available backend of the pool, or nothing if there is
-- none.
use mathlib.Core.Path.{subst}
use jocasta.Prelude.{
  List, [], ◌∷◌, inl, inr, ℕ, ◌≡◌, ◌⊎◌, true, false, Option, none, some, get_elem?, All,
  All-of_index,
}
use jocasta.LoadBalance.Upstream.{Upstream, available}
use jocasta.LoadBalance.Pool.{Pool}

-- A backend that stands in the pool and is available.
abbrev pub IsCandidate : Pool → Upstream → Type 0
IsCandidate us u = (available u ≡ true) × (i : ℕ) × (get_elem? us i ≡ some u)

abbrev pub NoneAvailable : Pool → Type 0
NoneAvailable = All (λ u. available u ≡ false)

abbrev pub Choice : Pool → Option Upstream → Type 0
Choice us r = ((r ≡ none) × NoneAvailable us) ⊎ ((u : Upstream) × (r ≡ some u) × IsCandidate us u)

-- Each backend of a pool is a candidate if it is available.
pub All-IsCandidate : (us : Pool) → All (λ u. available u ≡ true → IsCandidate us u) us
All-IsCandidate us = All-of_index _ us (λ i u e a. (a, i, e))

-- What is selected, as a list.
abbrev pub option_list : Option Upstream → List Upstream
option_list none = []
option_list (some u) = u ∷ []

-- Nothing, or a candidate.
abbrev pub Sound : Pool → Option Upstream → Type 0
Sound us r = All (IsCandidate us) (option_list r)

pub Choice-Sound : (us : Pool) (r : Option Upstream) → Choice us r → Sound us r
Choice-Sound us none c = tt
Choice-Sound us (some u) (inl (e, _)) = absurd (cc)
Choice-Sound us (some u) (inr (v, e, c)) = (subst (IsCandidate us) (cc) c, tt)
