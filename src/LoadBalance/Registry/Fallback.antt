-- ===== src/LoadBalance/Registry/Fallback.antt =====
-- Which selector a method gets.
use mathlib.Core.Path.{subst}
use jocasta.LoadBalance.Weight.{new_weight}
use jocasta.Prelude.{
  ◌≡◌, refl, ◌⊎◌, inl, inr, true, false, Option, none, some, [], ◌∷◌, Option-cases, All, Bool-cases,
}
use jocasta.Go.Result.{ok, panic}
use jocasta.Go.Io.{Bytes}
use jocasta.Go.Net.{bytes_eq, bytes_eq_refl}
use jocasta.LoadBalance.Registry.{
  Selector, random, round_robin, least_conn, ip_hash, addr_hash, least_time, weight, random_name,
  leastconn_name, hash_name, addrhash_name, leasttime_name, weight_name, Registry, lookup,
  register_selector, roundrobin_name, init, to_lower, new_selector, has_support_method,
}

-- What `init` registers, the last one first.
abbrev pub defaults : Registry
defaults =
    (weight_name, weight new_weight)
    ∷ (leasttime_name, least_time)
    ∷ (addrhash_name, addr_hash)
    ∷ (hash_name, ip_hash)
    ∷ (leastconn_name, least_conn)
    ∷ (roundrobin_name, round_robin 0)
    ∷ (random_name, random)
    ∷ []

found_here :
    (method name : Bytes) (t : Selector) (rs : Registry)
    → bytes_eq name method ≡ true
    → lookup method ((name, t) ∷ rs) ≡ some t
unfolding lookup
found_here method name t rs b = rw (lookup, b) refl

found_later :
    (method name : Bytes) (t : Selector) (rs : Registry)
    → bytes_eq name method ≡ false
    → lookup method ((name, t) ∷ rs) ≡ lookup method rs
unfolding lookup
found_later method name t rs b = rw b refl

lookup-All :
    (P : Selector → Type 0) (rs : Registry) (method : Bytes) {s : Selector}
    → All (λ e. P e.1) rs
    → lookup method rs ≡ some s
    → P s
unfolding lookup
lookup-All P [] method p f = absurd (cc)
lookup-All P ((name, t) ∷ rs) method {s} p f = elim (Bool-cases (bytes_eq name method)) [
  | inl b ↦ subst P {x = t} {y = s} (cc (found_here method name t rs b)) p.0
  | inr b ↦ lookup-All P rs method p.1 (cc (found_later method name t rs b))
]

pub init-defaults : init ≡ ok defaults
unfolding init register_selector lookup bytes_eq
init-defaults = refl

lookup_roundrobin : lookup roundrobin_name defaults ≡ some (round_robin 0)
unfolding lookup bytes_eq
lookup_roundrobin = refl

lookup_roundrobin_init :
    (rs : Registry) → init ≡ ok rs → lookup roundrobin_name rs ≡ some (round_robin 0)
lookup_roundrobin_init rs e =
    subst (λ r. lookup roundrobin_name r ≡ some (round_robin 0)) (cc init-defaults)
      lookup_roundrobin

-- What a property of all the selectors that `init` registers says of one that is found.
pub lookup_init :
    (P : Selector → Type 0) (rs : Registry) (method : Bytes) {s : Selector}
    → init ≡ ok rs
    → All (λ e. P e.1) defaults
    → lookup method rs ≡ some s
    → P s
lookup_init P rs method e p f =
    lookup-All P rs method (subst (All (λ e. P e.1)) {x = defaults} {y = rs} (cc init-defaults) p) f

-- A method gets the selector that is registered under its name in small letters, and the round robin
-- from the start if there is none.
pub new_selector-init :
    (rs : Registry) (method : Bytes)
    → init ≡ ok rs
    → ((has_support_method method rs ≡ true)
        × (s : Selector) × (lookup (to_lower method) rs ≡ some s)
        × (new_selector method rs ≡ ok s))
      ⊎ ((has_support_method method rs ≡ false) × (new_selector method rs ≡ ok (round_robin 0)))
unfolding has_support_method new_selector
new_selector-init rs method e = elim (Option-cases (lookup (to_lower method) rs)) [
  | inl n ↦
      inr (rw (has_support_method, n) refl, rw (new_selector, n, lookup_roundrobin_init rs e) refl)
  | inr (s, f) ↦ inl (rw (has_support_method, f) refl, s, f, rw (new_selector, f) refl)
]

pub new_selector_ok :
    (rs : Registry)
    → init ≡ ok rs
    → (method : Bytes) → (s : Selector) × (new_selector method rs ≡ ok s)
new_selector_ok rs initial method = elim (new_selector-init rs method initial) [
  | inl (_, t, l, n) ↦ (t, n)
  | inr (_, n) ↦ (round_robin 0, n)
]

module _ (method : Bytes) (s : Selector) (rs : Registry) where
  taken :
      lookup method rs ≡ none → register_selector method (some (some s)) rs ≡ ok ((method, s) ∷ rs)
  unfolding register_selector
  taken n = rw (register_selector, n) refl

  refused :
      {t : Selector}
      → lookup method rs ≡ some t
      → register_selector method (some (some s)) rs ≡ panic
  unfolding register_selector
  refused f = rw (register_selector, f) refl

  here : lookup method ((method, s) ∷ rs) ≡ some s
  unfolding lookup
  here = rw (bytes_eq_refl method) refl

  others :
      (other : Bytes)
      → bytes_eq method other ≡ false
      → lookup other ((method, s) ∷ rs) ≡ lookup other rs
  unfolding lookup
  others other d = rw d refl

  again : (f : Option (Option Selector)) → register_selector method f ((method, s) ∷ rs) ≡ panic
  unfolding register_selector
  again none = refl
  again (some none) = refl
  again (some (some t)) = rw (register_selector, here) refl

  -- What holds once the selector is registered.
  abbrev pub After : Registry → Type 0
  After r =
      (lookup method r ≡ some s)
      × ((other : Bytes) → bytes_eq method other ≡ false → lookup other r ≡ lookup other rs)
      × ((f : Option (Option Selector)) → register_selector method f r ≡ panic)

  -- A selector that is registered is found, the others stay as they are, and its name cannot be
  -- registered again.
  pub lookup-register_selector :
      (rs' : Registry) → register_selector method (some (some s)) rs ≡ ok rs' → After rs'
  lookup-register_selector rs' e = elim (Option-cases (lookup method rs)) [
    | inl n ↦ subst After (cc (taken n)) (here, others, again)
    | inr (t, f) ↦ absurd (cc (refused f))
  ]
