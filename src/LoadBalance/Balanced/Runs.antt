-- ===== src/LoadBalance/Balanced/Runs.antt =====
-- The runs of a balancer: what its operations make of it in any order.
use mathlib.Core.Path.{subst}
use jocasta.Prelude.{
  ℕ, ◌+◌, ◌<◌, ◌≤◌, ◌^◌, ◌≡◌, refl, Bool, true, false, Option, List, [], ◌∷◌, All, length, arith,
  if◌then◌else◌, inl, inr,
}
use jocasta.Prelude.Int.{ℤ}
use jocasta.Go.Result.{Result, ok, >>=_inv}
use jocasta.Go.Io.{Bytes}
use jocasta.LoadBalance.Upstream.{Probe, Config, Upstream}
use jocasta.LoadBalance.Upstream.Valid.{Valid, healthy_check-Valid}
use jocasta.LoadBalance.Pool.{Pool, NoError}
use jocasta.LoadBalance.Pool.Valid.{
  new_upstream_pool-Valid, pool_increase-Valid, pool_decrease-Valid,
}
use jocasta.LoadBalance.Choice.{Sound}
use jocasta.LoadBalance.RoundRobin.{round_robin_select}
use jocasta.LoadBalance.Hash.{ip_hash_select, addr_hash_select}
use jocasta.LoadBalance.Weight.{Weight, weight_select}
use jocasta.LoadBalance.Weight.Select.{Started, weight_select-IsCandidate}
use jocasta.LoadBalance.Registry.{
  Selector, random, round_robin, least_conn, ip_hash, addr_hash, least_time, weight, Registry, init,
  new_selector,
}
use jocasta.LoadBalance.Registry.Fallback.{new_selector-init, lookup_init}
use jocasta.LoadBalance.Balanced.{
  Balanced, new, selector_select, addr_or_empty, select, balanced_increase, balanced_decrease,
  close, reset, check_all, tick,
}
use jocasta.LoadBalance.Balanced.Selects.{IsFit, select-Sound}

-- The random numbers, Gcdx, the probe that dials TCP and the resolver.
FitAt : Weight → Type 0
FitAt s = Started s.index

ok_inj : {b b' : Balanced} → ◌≡◌ {A = Result NoError Balanced} (ok b) (ok b') → b ≡ b'
ok_inj e = cc

module _ (rand : ℕ → ℕ) (gcdx : ℤ → ℤ → ℤ) (probe : Probe) (resolve : Bytes → Bytes)
    (rs : Registry) where
  -- One operation on a balancer, with what it is called with. Select holds the lock for reading, so that
  -- selections can overlap and write the selector in any order: what is known of the selector behind them is
  -- that the counter of RoundRobin is some number, and that Weight has a weight and an index which a
  -- selection has counted on to a place of the pool, or the first ones.
  pub data Step : Balanced → Balanced → Type 0 where
    selects :
        (src addr : Bytes) {b b' : Balanced} → select rand gcdx src b ≡ ok (addr, b') → Step b b'
    overlap_robin :
        (n n' : ℕ) {b : Balanced}
        → b.selector ≡ round_robin n
        → Step b (record b { selector = round_robin n' })
    overlap_weight :
        (w w' : Weight) {b : Balanced}
        → b.selector ≡ weight w
        → Started w'.index
        → Step b (record b { selector = weight w' })
    increases : (addr : Bytes) {b : Balanced} → Step b (balanced_increase addr b)
    decreases : (addr : Bytes) {b : Balanced} → Step b (balanced_decrease addr b)
    closes : {b : Balanced} → Step b (close b)
    resets : (configs : List Config) {b b' : Balanced} → reset rs configs b ≡ ok b' → Step b b'
    ticks :
        (moment : ℕ) (elapsed : ℕ → ℤ) {b : Balanced} → Step b (tick probe resolve moment elapsed b)

  -- What New makes, and what further operations make of it.
  pub data Reachable : Balanced → Type 0 where
    starts :
        (method : Bytes) (configs : List Config) {b : Balanced}
        → new rs method configs ≡ ok b
        → Reachable b
    goes_on : {b b' : Balanced} → Reachable b → Step b b' → Reachable b'

  -- The backends are valid, and the selector is in a state that it can be in.
  pub record Sane (b : Balanced) : Type 0 where
    pub valid : All Valid b.upstreams
    pub fit : IsFit b.selector

  weight_select-Started :
      (us : Pool) (s s' : Weight) (r : Option Upstream)
      → Started s.index
      → weight_select gcdx us s ≡ ok (r, s')
      → Started s'.index
  unfolding weight_select FitAt
  weight_select-Started [] s s' r f e = subst FitAt {x = s} {y = s'} (cc) f
  weight_select-Started (u ∷ []) s s' r f e = subst FitAt {x = s} {y = s'} (cc) f
  weight_select-Started (u ∷ v ∷ us) s s' r f e =
      let (r'', s'', e', _, f') =
        weight_select-IsCandidate gcdx (u ∷ v ∷ us) s f (λ l. absurd (omega arith)) in
      subst FitAt {x = s''} {y = s'} (cc) f'

  selector_select-IsFit :
      (us : Pool) (src : Bytes) (s s' : Selector) (r : Option Upstream)
      → IsFit s
      → selector_select rand gcdx us src s ≡ ok (r, s')
      → IsFit s'
  unfolding selector_select
  selector_select-IsFit us src random s' r f e = subst IsFit {x = random} {y = s'} (cc) tt
  selector_select-IsFit us src (round_robin n) s' r f e =
      let (q, _, k) = >>=_inv (round_robin_select us n) _ e in
      subst IsFit {x = round_robin q.1} {y = s'} (cc) tt
  selector_select-IsFit us src least_conn s' r f e = subst IsFit {x = least_conn} {y = s'} (cc) tt
  selector_select-IsFit us src ip_hash s' r f e =
      let (q, _, k) = >>=_inv (ip_hash_select rand us src) _ e in
      subst IsFit {x = ip_hash} {y = s'} (cc) tt
  selector_select-IsFit us src addr_hash s' r f e =
      let (q, _, k) = >>=_inv (addr_hash_select rand us src) _ e in
      subst IsFit {x = addr_hash} {y = s'} (cc) tt
  selector_select-IsFit us src least_time s' r f e = subst IsFit {x = least_time} {y = s'} (cc) tt
  selector_select-IsFit us src (weight s) s' r f e =
      let (q, h, k) = >>=_inv (weight_select gcdx us s) _ e in
      subst IsFit {x = weight q.1} {y = s'} (cc) (weight_select-Started us s q.1 q.0 f h)

  select-Sane :
      (src addr : Bytes) (b b' : Balanced)
      → Sane b
      → select rand gcdx src b ≡ ok (addr, b')
      → Sane b'
  unfolding select
  select-Sane src addr b b' s e =
      let (q, h, k) = >>=_inv (selector_select rand gcdx b.upstreams src b.selector) _ e in
      subst Sane {x = record b { selector = q.1 }} {y = b'} (cc) (record {
        valid = s.valid;
        fit = selector_select-IsFit b.upstreams src b.selector q.1 q.0 s.fit h;
      })

  check_all-Valid :
      (moment : ℕ) (elapsed : ℕ → ℤ) (i : ℕ) (us : Pool)
      → All Valid us
      → All Valid (check_all probe resolve moment elapsed i us)
  unfolding check_all
  check_all-Valid moment elapsed i [] v = tt
  check_all-Valid moment elapsed i (u ∷ us) v = (
    healthy_check-Valid probe moment (elapsed i) (resolve u.addr) u v.0,
    check_all-Valid moment elapsed (i + 1) us v.1,
  )

  tick-Sane :
      (moment : ℕ) (elapsed : ℕ → ℤ) (b : Balanced)
      → Sane b
      → Sane (tick probe resolve moment elapsed b)
  unfolding tick
  tick-Sane moment elapsed b s = go b.closed
    where
      go :
          (closed : Bool)
          → Sane (
              if closed
              then b
              else record b { upstreams = check_all probe resolve moment elapsed 0 b.upstreams })
      go true = s
      go false = record {
        valid = check_all-Valid moment elapsed 0 b.upstreams s.valid;
        fit = s.fit;
      }

  module _ (initial : init ≡ ok rs) where
    new_selector-IsFit : (method : Bytes) (s : Selector) → new_selector method rs ≡ ok s → IsFit s
    new_selector-IsFit method s e = elim (new_selector-init rs method initial) [
      | inl (_, t, l, n) ↦
          subst IsFit {x = t} {y = s} (cc)
            (lookup_init IsFit rs _ initial (refl, (tt, (tt, (tt, (tt, (tt, (tt, tt))))))) l)
      | inr (_, n) ↦ subst IsFit {x = round_robin 0} {y = s} (cc) tt
    ]

    new-Sane :
        (method : Bytes) (configs : List Config) (b : Balanced)
        → new rs method configs ≡ ok b
        → Sane b
    unfolding new
    new-Sane method configs b e =
        let (s, h, k) = >>=_inv (new_selector method rs) _ e in
        subst Sane (ok_inj k)
          (record { valid = new_upstream_pool-Valid configs; fit = new_selector-IsFit method s h })

    reset-Sane : (configs : List Config) (b b' : Balanced) → reset rs configs b ≡ ok b' → Sane b'
    unfolding reset
    reset-Sane configs b b' e =
        let (s, h, k) = >>=_inv (new_selector b.method rs) _ e in
        subst Sane (ok_inj k) (record {
          valid = new_upstream_pool-Valid configs;
          fit = new_selector-IsFit b.method s h;
        })

    Step-Sane : {b b' : Balanced} → Step b b' → Sane b → Sane b'
    unfolding balanced_increase balanced_decrease close
    Step-Sane (selects src addr e) s = select-Sane src addr _ _ s e
    Step-Sane (overlap_robin n n' e) s = record { valid = s.valid; fit = tt }
    Step-Sane (overlap_weight w w' e f) s = record { valid = s.valid; fit = f }
    Step-Sane (increases addr) s = record {
      valid = pool_increase-Valid addr _ s.valid;
      fit = s.fit;
    }
    Step-Sane (decreases addr) s = record {
      valid = pool_decrease-Valid addr _ s.valid;
      fit = s.fit;
    }
    Step-Sane closes s = record { valid = s.valid; fit = s.fit }
    Step-Sane (resets configs e) s = reset-Sane configs _ _ e
    Step-Sane (ticks moment elapsed) s = tick-Sane moment elapsed _ s

    -- In every state that a balancer reaches, its backends have an address of the form host:port,
    -- positive thresholds, weights and durations and a health of 0 or 1, and its selector is in a state
    -- that it can be in.
    pub Reachable-Sane : {b : Balanced} → Reachable b → Sane b
    Reachable-Sane (starts method configs e) = new-Sane method configs _ e
    Reachable-Sane (goes_on r t) = Step-Sane t (Reachable-Sane r)

    -- In every state that a balancer reaches, also behind selections that overlapped, a selection that
    -- overlaps with no other operation returns the empty address or that of an available backend of the
    -- pool, and does not panic, if the pool has two up to 2^31 backends.
    pub select-Reachable :
        (src : Bytes) (b : Balanced)
        → Reachable b
        → 1 < length b.upstreams
        → length b.upstreams ≤ 2 ^ 31
        → (r : Option Upstream) × (b' : Balanced) × (select rand gcdx src b
            ≡ ok (addr_or_empty r, b'))
          × Sound b.upstreams r
          × Reachable b'
    select-Reachable src b r h l =
        let (u, s, e, c, _) = select-Sound rand gcdx src b (Reachable-Sane r).fit h l in
        (u, record b { selector = s }, e, c, goes_on r (selects src (addr_or_empty u) e))
