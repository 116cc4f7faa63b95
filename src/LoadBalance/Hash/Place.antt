-- ===== src/LoadBalance/Hash/Place.antt =====
-- The hash selectors take the first available backend from the place of the hash on.
use native.Mathlib.Nat.{mod-lt}
use jocasta.Prelude.{
  ℕ, zero, suc, ◌+◌, ◌%◌, ◌^◌, ◌<◌, ◌≤◌, ◌≡◌, refl, Option, none, some, length, [], ◌∷◌, inl, inr,
  get_elem?, get_elem?-lt, true, false, arith, Bool-cases, ◌∙◌, ap,
}
use jocasta.Go.Result.{ok, panic}
use jocasta.Go.Io.{Bytes}
use jocasta.LoadBalance.Upstream.{Upstream, available, add_uint32}
use jocasta.LoadBalance.Pool.{Pool, pool_at_ok}
use jocasta.LoadBalance.Choice.{Choice}
use jocasta.LoadBalance.Cycle.{First, First-hit, First-skip, First-Choice, found}
use jocasta.LoadBalance.Random.{random_select}
use jocasta.LoadBalance.Random.Finds.{random_select-Choice}
use jocasta.LoadBalance.Hash.{hash, hash_loop, hashing, addr_hash_select, hash_key, ip_hash_select}

module _ (us : Pool) (s : ℕ) (l : length us < 2 ^ 32) where
  -- One turn of the loop, on an available backend and on another.
  module _ {u : Upstream} (e : get_elem? us (s % length us) ≡ some u) (turns : ℕ) where
    turn_taken : available u ≡ true → hash_loop (suc turns) us s ≡ ok (some u)
    unfolding hash_loop
    turn_taken a = rw (len, pool_at_ok us _ e, a) refl
      where
        len : length us % 2 ^ 32 ≡ length us
        len = omega arith

    turn_skipped :
        available u ≡ false → hash_loop (suc turns) us s ≡ hash_loop turns us (add_uint32 s)
    unfolding hash_loop
    turn_skipped a = rw (len, pool_at_ok us _ e, a) refl
      where
        len : length us % 2 ^ 32 ≡ length us
        len = omega arith

hash_loop-zero : (us : Pool) (s : ℕ) → hash_loop zero us s ≡ ok none
unfolding hash_loop
hash_loop-zero us s = refl

hash_loop-First :
    (k : ℕ) (us : Pool) (s : ℕ)
    → 0 < length us
    → length us < 2 ^ 32
    → s + k < 2 ^ 32
    → (r : Option (Upstream × ℕ)) × First us s k r × (hash_loop k us s ≡ ok (found r))
hash_loop-First zero us s h l b = (none, (λ i u h e. absurd (omega arith)), hash_loop-zero us s)
hash_loop-First (suc k) us s h l b =
    let (u, e) = get_elem?-lt us (s % length us) (mod-lt s h) in
    let (r, f, q) = hash_loop-First k us (suc s) h l (omega arith) in
    elim (Bool-cases (available u)) [
      | inl a ↦ (some (u, s), First-hit us s k u e a, turn_taken us s l e k a)
      | inr a ↦
          (r, First-skip us s k u e r a f, turn_skipped us s l e k a ∙ ap (hash_loop k us) next ∙ q)
    ]
  where
    next : add_uint32 s ≡ suc s
    next = omega arith

-- hashing returns the first available backend from the place of the hash on, and none if no backend
-- is available, for a pool of one up to 2^31 backends.
pub hashing-First :
    (us : Pool) (s : Bytes)
    → 0 < length us
    → length us ≤ 2 ^ 31
    → (r : Option (Upstream × ℕ)) × First us (hash s % length us) (length us) r
      × (hashing us s ≡ ok (found r))
unfolding hashing
hashing-First [] s h l = absurd (omega arith)
hashing-First (u ∷ us) s h l =
    rw (hashing, len)
      (hash_loop-First (length (u ∷ us)) (u ∷ us) _ h (omega arith)
        (omega (arith, mod-lt (hash s) h)))
  where
    len : length (u ∷ us) % 2 ^ 32 ≡ length (u ∷ us)
    len = omega arith

-- On an empty pool hashing panics.
hashing_empty : (s : Bytes) → hashing [] s ≡ panic
unfolding hashing
hashing_empty s = refl

hashing-Choice :
    (us : Pool) (s : Bytes)
    → 0 < length us
    → length us ≤ 2 ^ 31
    → (r : Option Upstream) × (hashing us s ≡ ok r) × Choice us r
hashing-Choice us s h l =
    let (r, f, e) = hashing-First us s h l in (found r, e, First-Choice us _ r f)

-- AddrHash and IPHash find an available backend if there is one, in a pool of one up to 2^31
-- backends, for each source address.
pub hash_select-Choice :
    (rand : ℕ → ℕ) (us : Pool) (src : Bytes)
    → 0 < length us
    → length us ≤ 2 ^ 31
    → ((r : Option Upstream) × (addr_hash_select rand us src ≡ ok r) × Choice us r)
      × ((r : Option Upstream) × (ip_hash_select rand us src ≡ ok r) × Choice us r)
unfolding addr_hash_select ip_hash_select
hash_select-Choice rand us [] h l =
    let c = random_select-Choice rand us in
    ((random_select rand us, refl, c), (random_select rand us, refl, c))
hash_select-Choice rand us (c ∷ cs) h l =
    (hashing-Choice us (c ∷ cs) h l, hashing-Choice us (hash_key (c ∷ cs)) h l)

-- On an empty pool both panic, unless the source address is empty.
pub hash_select_empty :
    (rand : ℕ → ℕ) (c : ℕ) (cs : Bytes)
    → (addr_hash_select rand [] (c ∷ cs) ≡ panic) × (ip_hash_select rand [] (c ∷ cs) ≡ panic)
unfolding addr_hash_select ip_hash_select
hash_select_empty rand c cs = (hashing_empty (c ∷ cs), hashing_empty (hash_key (c ∷ cs)))
