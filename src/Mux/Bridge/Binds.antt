-- ===== src/Mux/Bridge/Binds.antt =====
-- services/mux/bridge.go: which session a server's stream is joined to.
use mathlib.Core.Path.{subst}
use jocasta.Prelude.{
  ℕ, zero, suc, ◌+◌, ◌≤◌, ◌⊎◌, ap, ◌≡◌, refl, sym, ◌∙◌, Bool, true, false, none, some, inl, inr,
  arith, Bool-cases, Option-cases,
}
use jocasta.Go.Io.{Bytes}
use jocasta.Connection.Manager.{SharedMap}
use jocasta.Through.{Codec}
use jocasta.Mux.Bridge.{
  Nego, client, Bridge, Opening, opened, closed_pipe, open_fails, Attempt, bound, permanent, again,
  attempt, retry, max_retries,
}
use jocasta.Mux.Bridge.Runs.{Reachable, Reachable-IsSound}

Attempt-cases : (a : Attempt) → ((i : ℕ) × (a ≡ bound i)) ⊎ ((a ≡ permanent) ⊎ (a ≡ again))
Attempt-cases (bound i) = inl (i, refl)
Attempt-cases permanent = inr (inl refl)
Attempt-cases again = inr (inr refl)

-- A result comes from one of the turns.
retry_inv :
    (n : ℕ) (turns : ℕ → Attempt) (k i : ℕ)
    → retry n turns k ≡ some i
    → (j : ℕ) × (k ≤ j) × (j ≤ k + n) × (turns j ≡ bound i)
unfolding retry
retry_inv zero turns k i h = elim (Attempt-cases (turns k)) [
  | inl a ↦
      let found : retry 0 turns k ≡ some a.0 = rw (retry, a.1) refl in
      let same : a.0 ≡ i = cc in (k, omega arith, omega arith, a.1 ∙ ap bound same)
  | inr (inl a) ↦ let no : retry 0 turns k ≡ none = rw (retry, a) refl in cc
  | inr (inr a) ↦ let no : retry 0 turns k ≡ none = rw (retry, a) refl in cc
]
retry_inv (suc n) turns k i h = elim (Attempt-cases (turns k)) [
  | inl a ↦
      let found : retry (suc n) turns k ≡ some a.0 = rw (retry, a.1) refl in
      let same : a.0 ≡ i = cc in (k, omega arith, omega arith, a.1 ∙ ap bound same)
  | inr (inl a) ↦ let no : retry (suc n) turns k ≡ none = rw (retry, a) refl in cc
  | inr (inr a) ↦
      let more : retry (suc n) turns k ≡ retry n turns (suc k) = rw (retry, a) refl in
      let (j, lo, hi, f) = retry_inv n turns (suc k) i (sym more ∙ h) in
      (j, omega arith, omega arith, f)
]

module _ (Conns : SharedMap ℕ) where
  attempt_inv :
      (sk : Bytes) (dies : Bool) (opening : Opening) (b : Bridge Conns) (i : ℕ)
      → attempt Conns sk dies opening b ≡ bound i
      → (Conns.get sk b.clients ≡ some i) × ((b.store.session i).closed ≡ false)
  unfolding attempt
  attempt_inv sk true opening b i h = cc
  attempt_inv sk false opening b i h = elim (Option-cases (Conns.get sk b.clients)) [
    | inl n ↦ let no : attempt Conns sk false opening b ≡ again = rw n refl in cc
    | inr o ↦ elim (Bool-cases (b.store.session o.0).closed) [
      | inl c ↦ let no : attempt Conns sk false opening b ≡ permanent = rw (o.1, c) refl in cc
      | inr c ↦
          let same : o.0 ≡ i = answered opening (sym (rw (o.1, c) refl) ∙ h) in
          (o.1 ∙ ap some same, subst (λ (x : ℕ). (b.store.session x).closed ≡ false) same c)
    ]
  ]
    where
      answered :
          (opening : Opening) {j : ℕ}
          → (elim opening [ opened ↦ bound j | closed_pipe ↦ permanent | open_fails ↦ again ])
            ≡ bound i
          → j ≡ i
      answered opened e = cc
      answered closed_pipe e = cc
      answered open_fails e = cc

  -- What proxyStream joins a server's stream to is a session that, at the moment of one of at most eleven
  -- turns, is open, was made by a client node with the same secret key, and is the one in the table.
  pub retry-attempt :
      (codec : Codec Nego) (sk : Bytes) (dies : ℕ → Bool) (opening : ℕ → Opening)
      (b : ℕ → Bridge Conns) (i : ℕ)
      → ((k : ℕ) → Reachable Conns false codec (b k))
      → retry max_retries (λ k. attempt Conns sk (dies k) (opening k) (b k)) 0 ≡ some i
      → (k : ℕ) × (k ≤ 10)
        × (Conns.get sk (b k).clients ≡ some i)
        × (((b k).store.session i).role ≡ client)
        × (((b k).store.session i).key ≡ sk)
        × (((b k).store.session i).closed ≡ false)
  retry-attempt codec sk dies opening b i reached h =
      let (k, lo, hi, turn) =
        retry_inv max_retries (λ k. attempt Conns sk (dies k) (opening k) (b k)) 0 i h in
      let (here, live) = attempt_inv sk (dies k) (opening k) (b k) i turn in
      let (lt, role, key) = (Reachable-IsSound Conns false (reached k)).0 sk i here in
      (k, omega arith, here, role, key, live)
