-- ===== src/LoadBalance/Least/Safe.antt =====
-- LeastConn and LeastTime without a bound on what they measure.
use mathlib.Core.Path.{subst}
use jocasta.Prelude.{
  ℕ, sym, ◌⊎◌, ◌≡◌, inl, inr, true, Option, some, [], ◌∷◌, All, arith, Bool-cases,
}
use jocasta.Prelude.Int.{ℤ}
use jocasta.LoadBalance.Upstream.{Upstream, available, conns_count, latest_time}
use jocasta.LoadBalance.Pool.{Pool}
use jocasta.LoadBalance.Choice.{IsCandidate, All-IsCandidate, option_list, Sound}
use jocasta.LoadBalance.Least.{
  Search, consider, least_loop, start, least_conn_select, least_time_select,
}

module _ (Q : Upstream → Type 0) (rand : ℕ → ℕ) (measure : Upstream → ℤ) where
  Keeps : Option Upstream → Type 0
  Keeps b = All Q (option_list b)

  consider_best :
      (u : Upstream) (m : ℤ) (s : Search)
      → ((consider rand u m s).best ≡ some u) ⊎ ((consider rand u m s).best ≡ s.best)
  unfolding consider
  consider_best u m s = ground (arith)

  consider-Keeps :
      (u : Upstream) (m : ℤ) (s : Search) → Q u → Keeps s.best → Keeps (consider rand u m s).best
  unfolding Keeps
  consider-Keeps u m s q k = elim (consider_best u m s) [
    | inl e ↦ subst Keeps (sym e) (q, tt)
    | inr e ↦ subst Keeps (sym e) k
  ]

  least_loop-Keeps :
      (us : Pool) (s : Search)
      → All (λ u. available u ≡ true → Q u) us
      → Keeps s.best
      → Keeps (least_loop measure rand us s)
  unfolding least_loop
  least_loop-Keeps [] s q k = k
  least_loop-Keeps (u ∷ us) s q k = elim (Bool-cases (available u)) [
    | inl a ↦ least_loop-Keeps us _ q.1 (rw a (consider-Keeps u (measure u) s (q.0 a) k))
    | inr a ↦ least_loop-Keeps us _ q.1 (rw a k)
  ]

pub least_conn_select-Sound : (rand : ℕ → ℕ) (us : Pool) → Sound us (least_conn_select rand us)
unfolding least_conn_select Keeps
least_conn_select-Sound rand us =
    least_loop-Keeps (IsCandidate us) rand conns_count us start (All-IsCandidate us) tt

pub least_time_select-Sound : (rand : ℕ → ℕ) (us : Pool) → Sound us (least_time_select rand us)
unfolding least_time_select Keeps
least_time_select-Sound rand us =
    least_loop-Keeps (IsCandidate us) rand latest_time us start (All-IsCandidate us) tt
