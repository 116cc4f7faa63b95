-- ===== src/LoadBalance/Least/Minimal.antt =====
-- LeastConn and LeastTime return an available backend with the least measure.
use jocasta.Prelude.{
  ℕ, suc, ◌%◌, ◌≤◌, ◌≡◌, refl, ◌⊎◌, inl, inr, true, false, Option, none, some, [], ◌∷◌, All, arith,
  Bool-cases, le_or_lt, sym, ap, ◌∙◌, if◌then◌else◌, ◌==◌,
}
use jocasta.Prelude.Int.{ℤ, pos, negsuc, ◌≤ℤ◌, ◌<ℤ◌}
use jocasta.LoadBalance.Upstream.{Upstream, available, conns_count, latest_time}
use jocasta.LoadBalance.Pool.{Pool}
use jocasta.LoadBalance.Choice.{IsCandidate, NoneAvailable, All-IsCandidate}
use jocasta.LoadBalance.Least.{
  Search, consider, least_loop, start, least_conn_select, least_time_select,
}

module _ (rand : ℕ → ℕ) (b : Upstream) (m : ℤ) (s : Search) where
  lowered_first :
      s.min ≡ negsuc 0
      → consider rand b m s ≡ record { min = m; count = 1; best = some b; drawn = suc s.drawn }
  unfolding consider
  lowered_first h = ground (arith)

  lowered :
      m <ℤ s.min
      → consider rand b m s ≡ record { min = m; count = 1; best = some b; drawn = suc s.drawn }
  unfolding consider
  lowered h = ground (arith)

  equalled :
      pos 0 ≤ℤ s.min
      → m ≡ s.min
      → consider rand b m s ≡ record {
        min = s.min;
        count = suc s.count;
        best = if rand s.drawn % suc s.count == 0 then some b else s.best;
        drawn = suc s.drawn;
      }
  unfolding consider
  equalled p h = ground (arith)

  passed : pos 0 ≤ℤ s.min → s.min <ℤ m → consider rand b m s ≡ s
  unfolding consider
  passed p h = ground (arith)

ℕ-cases : (a b : ℕ) → (suc a ≤ b) ⊎ ((a ≡ b) ⊎ (suc b ≤ a))
ℕ-cases a b = elim (le_or_lt (suc a) b) [
  | inl l ↦ inl l
  | inr g ↦ elim (le_or_lt a b) [ inl l ↦ inr (inl (omega arith)) | inr g' ↦ inr (inr g') ]
]

ℤ-cases : (a b : ℤ) → (a <ℤ b) ⊎ ((a ≡ b) ⊎ (b <ℤ a))
ℤ-cases (pos a) (pos b) = elim (ℕ-cases a b) [
  | inl l ↦ inl (omega arith)
  | inr (inl e) ↦ inr (inl (ap pos e))
  | inr (inr g) ↦ inr (inr (omega arith))
]
ℤ-cases (pos a) (negsuc b) = inr (inr (omega arith))
ℤ-cases (negsuc a) (pos b) = inl (omega arith)
ℤ-cases (negsuc a) (negsuc b) = elim (ℕ-cases b a) [
  | inl l ↦ inl (omega arith)
  | inr (inl e) ↦ inr (inl (ap negsuc (sym e)))
  | inr (inr g) ↦ inr (inr (omega arith))
]

≤ℤ_trans : (a b c : ℤ) → a ≤ℤ b → b ≤ℤ c → a ≤ℤ c
≤ℤ_trans a b c h k = omega arith

-- The available backends measure at least nothing, and at least as much as `b`.
abbrev pub Natural : (Upstream → ℤ) → Pool → Type 0
Natural measure = All (λ u. available u ≡ true → pos 0 ≤ℤ measure u)

abbrev pub Below : (Upstream → ℤ) → Upstream → Pool → Type 0
Below measure b = All (λ u. available u ≡ true → measure b ≤ℤ measure u)

module _ (measure : Upstream → ℤ) where
  -- The backend `b` is held, and its measure is the minimum so far.
  record Held (Q : Upstream → Type 0) (s : Search) (b : Upstream) : Type 0 where
    best : s.best ≡ some b
    minimum : measure b ≡ s.min
    natural : pos 0 ≤ℤ s.min
    kept : Q b

  module _ (Q : Upstream → Type 0) (rand : ℕ → ℕ) where
    -- After an available backend, it is held, or one that was held and measures no more.
    consider-Held :
        (u : Upstream) (s : Search) {b : Upstream}
        → pos 0 ≤ℤ measure u
        → Q u
        → Held Q s b
        → (c : Upstream) × Held Q (consider rand u (measure u) s) c
          × (measure c ≤ℤ measure b)
          × (measure c ≤ℤ measure u)
    consider-Held u s {b} p q h = elim (ℤ-cases (measure u) s.min) [
      | inl l ↦ (
        u,
        rw (lowered rand u (measure u) s l)
            (record { best = refl; minimum = refl; natural = p; kept = q }),
        rw (h.minimum) (omega arith),
        omega arith,
      )
      | inr (inl e) ↦ elim (Bool-cases (rand s.drawn % suc s.count == 0)) [
        | inl t ↦ (
          u,
          rw (equalled rand u (measure u) s h.natural e, t)
              (record { best = refl; minimum = e; natural = h.natural; kept = q }),
          rw (h.minimum, e) (omega arith),
          omega arith,
        )
        | inr t ↦ (
          b,
          rw (equalled rand u (measure u) s h.natural e, t)
              (record { best = h.best; minimum = h.minimum; natural = h.natural; kept = h.kept }),
          omega arith,
          rw (h.minimum, e) (omega arith),
        )
      ]
      | inr (inr g) ↦ (
        b,
        rw (passed rand u (measure u) s h.natural g) h,
        omega arith,
        rw (h.minimum) (omega arith),
      )
    ]

    first-Held :
        (u : Upstream) → pos 0 ≤ℤ measure u → Q u → Held Q (consider rand u (measure u) start) u
    first-Held u p q =
        rw (lowered_first rand u (measure u) start refl)
          (record { best = refl; minimum = refl; natural = p; kept = q })

    turn_taken :
        (u : Upstream) (us : Pool) (s : Search)
        → available u ≡ true
        → least_loop measure rand (u ∷ us) s
          ≡ least_loop measure rand us (consider rand u (measure u) s)
    unfolding least_loop
    turn_taken u us s a = rw a refl

    turn_skipped :
        (u : Upstream) (us : Pool) (s : Search)
        → available u ≡ false
        → least_loop measure rand (u ∷ us) s ≡ least_loop measure rand us s
    unfolding least_loop
    turn_skipped u us s a = rw a refl

    least_loop_nil : (s : Search) → least_loop measure rand [] s ≡ s.best
    unfolding least_loop
    least_loop_nil s = refl

    least_loop-Held :
        (us : Pool) (s : Search) {b : Upstream}
        → Natural measure us
        → All (λ u. available u ≡ true → Q u) us
        → Held Q s b
        → (c : Upstream) × (least_loop measure rand us s ≡ some c)
          × Q c
          × (measure c ≤ℤ measure b)
          × Below measure c us
    least_loop-Held [] s {b} n q h = (b, least_loop_nil s ∙ h.best, h.kept, omega arith, tt)
    least_loop-Held (u ∷ us) s {b} n q h = elim (Bool-cases (available u)) [
      | inl a ↦
          let (b', h', l, m) = consider-Held u s (n.0 a) (q.0 a) h in
          let (c, e, k, l', below) = least_loop-Held us _ n.1 q.1 h' in
          (
            c,
            turn_taken u us s a ∙ e,
            k,
            ≤ℤ_trans (measure c) (measure b') (measure b) l' l,
            ((λ a'. ≤ℤ_trans (measure c) (measure b') (measure u) l' m), below),
          )
      | inr a ↦
          let (c, e, k, l, below) = least_loop-Held us s n.1 q.1 h in
          (c, turn_skipped u us s a ∙ e, k, l, ((λ a'. absurd (cc)), below))
    ]

    least_loop_start :
        (us : Pool)
        → Natural measure us
        → All (λ u. available u ≡ true → Q u) us
        → ((least_loop measure rand us start ≡ none) × NoneAvailable us)
          ⊎ ((c : Upstream) × (least_loop measure rand us start ≡ some c)
              × Q c
              × Below measure c us)
    least_loop_start [] n q = inl (least_loop_nil start, tt)
    least_loop_start (u ∷ us) n q = elim (Bool-cases (available u)) [
      | inl a ↦
          let (c, e, k, l, below) = least_loop-Held us _ n.1 q.1 (first-Held u (n.0 a) (q.0 a)) in
          inr (c, turn_taken u us start a ∙ e, k, ((λ _. l), below))
      | inr a ↦ elim (least_loop_start us n.1 q.1) [
        | inl (e, b) ↦ inl (turn_skipped u us start a ∙ e, (a, b))
        | inr (c, e, k, below) ↦
            inr (c, turn_skipped u us start a ∙ e, k, ((λ a'. absurd (cc)), below))
      ]
    ]

-- An available backend of the pool that measures no more than any other that is available, or
-- nothing if there is none.
abbrev pub LeastChoice : (Upstream → ℤ) → Pool → Option Upstream → Type 0
LeastChoice measure us r =
    ((r ≡ none) × NoneAvailable us)
    ⊎ ((u : Upstream) × (r ≡ some u) × IsCandidate us u × Below measure u us)

-- LeastConn returns an available backend of the pool with the fewest connections, whatever numbers
-- are drawn, and nothing only if no backend is available, where no available backend has a negative
-- count.
pub least_conn_select-LeastChoice :
    (rand : ℕ → ℕ) (us : Pool)
    → Natural conns_count us
    → LeastChoice conns_count us (least_conn_select rand us)
unfolding least_conn_select
least_conn_select-LeastChoice rand us n =
    least_loop_start conns_count (IsCandidate us) rand us n (All-IsCandidate us)

-- LeastTime returns an available backend of the pool whose last probe took the least time, whatever
-- numbers are drawn, and nothing only if no backend is available, where no time is negative.
pub least_time_select-LeastChoice :
    (rand : ℕ → ℕ) (us : Pool)
    → Natural latest_time us
    → LeastChoice latest_time us (least_time_select rand us)
unfolding least_time_select
least_time_select-LeastChoice rand us n =
    least_loop_start latest_time (IsCandidate us) rand us n (All-IsCandidate us)
