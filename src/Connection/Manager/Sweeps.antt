-- ===== src/Connection/Manager/Sweeps.antt =====
-- connection/manager.go: what a tick removes.
use mathlib.Core.Path.{subst}
use jocasta.Prelude.{
  ◌≡◌, refl, ap, ◌∙◌, Bool, true, false, Option, none, some, List, [], ◌∷◌, if◌then◌else◌, arith,
  Bool-cases, inl, inr,
}
use jocasta.Prelude.Int.{ℤ}
use jocasta.Go.Io.{Bytes}
use jocasta.Go.Net.{bytes_eq, bytes_eq_sound}
use jocasta.Connection.Manager.{SharedMap, Collector, find, OneEach, sweep, sweep_loop}

-- Whether an optional connection is due.
abbrev pub holds {ℓ} : {V : Type ℓ} → (V → Bool) → Option V → Bool
holds p none = false
holds p (some v) = p v

module _ {V S : Type 0} (Conns : SharedMap V) (c : Collector V S) (now : ℤ) where
  loop_due :
      (es : List (Bytes × V)) (s : S) (m : Conns.carrier) (j : Bytes) (v : V)
      → c.due now j v s ≡ true
      → sweep_loop Conns c now ((j, v) ∷ es) (s, m)
        ≡ sweep_loop Conns c now es (c.release j v s, Conns.remove j m)
  unfolding sweep_loop
  loop_due es s m j v e = rw (sweep_loop, e) refl

  loop_kept :
      (es : List (Bytes × V)) (s : S) (m : Conns.carrier) (j : Bytes) (v : V)
      → c.due now j v s ≡ false
      → sweep_loop Conns c now ((j, v) ∷ es) (s, m) ≡ sweep_loop Conns c now es (s, m)
  unfolding sweep_loop
  loop_kept es s m j v e = rw (sweep_loop, e) refl

module _ {V S : Type 0} (Conns : SharedMap V) (c : Collector V S) (now : ℤ)
    (stable : (k j : Bytes) (v w : V) (s : S)
      → c.due now j w s ≡ true
      → c.due now k v (c.release j w s) ≡ c.due now k v s) where
  holds_stable :
      (j k : Bytes) (v : V) (s : S) (o : Option V)
      → c.due now j v s ≡ true
      → holds (λ w. c.due now k w (c.release j v s)) o ≡ holds (λ w. c.due now k w s) o
  holds_stable j k v s none d = refl
  holds_stable j k v s (some w) d = stable k j w v s d

  loop_get :
      (es : List (Bytes × V)) (s : S) (m : Conns.carrier) (k : Bytes)
      → OneEach es
      → Conns.get k (sweep_loop Conns c now es (s, m)).1
        ≡ (if holds (λ v. c.due now k v s) (find k es) then none else Conns.get k m)
  loop_get [] s m k h = unfold sweep_loop in refl
  loop_get ((j, v) ∷ es) s m k h = elim (Bool-cases (c.due now j v s)) [
    | inl d ↦ elim (Bool-cases (bytes_eq j k)) [
      | inl e ↦
          let same = bytes_eq_sound j k e in
          let gone : find k es ≡ none = subst (λ (x : Bytes). find x es ≡ none) same h.0 in
          let due : c.due now k v s ≡ true = subst (λ (x : Bytes). c.due now x v s ≡ true) same d in
          rw
            (
              loop_due Conns c now es s m j v d,
              loop_get es (c.release j v s) (Conns.remove j m) k h.1,
              gone,
              Conns.get_remove k j m,
              e,
              due,
            )
            refl
      | inr e ↦
          rw
            (
              loop_due Conns c now es s m j v d,
              loop_get es (c.release j v s) (Conns.remove j m) k h.1,
              holds_stable j k v s (find k es) d,
              Conns.get_remove k j m,
              e,
            )
            refl
    ]
    | inr d ↦ elim (Bool-cases (bytes_eq j k)) [
      | inl e ↦
          let same = bytes_eq_sound j k e in
          let gone : find k es ≡ none = subst (λ (x : Bytes). find x es ≡ none) same h.0 in
          let due : c.due now k v s ≡ false =
            subst (λ (x : Bytes). c.due now x v s ≡ false) same d in
          rw (loop_kept Conns c now es s m j v d, loop_get es s m k h.1, gone, e, due) refl
      | inr e ↦ rw (loop_kept Conns c now es s m j v d, loop_get es s m k h.1, e) refl
    ]
  ]

  -- A tick removes exactly the connections that the callback accepts, if what it does to one does not
  -- change its answer about any.
  pub get-sweep :
      (s : S) (m : Conns.carrier) (k : Bytes)
      → Conns.get k (sweep Conns c now (s, m)).1
        ≡ (if holds (λ v. c.due now k v s) (Conns.get k m) then none else Conns.get k m)
  unfolding sweep
  get-sweep s m k =
      loop_get (Conns.items m) s m k (Conns.items_OneEach m)
      ∙ ap (λ (o : Option V). if holds (λ v. c.due now k v s) o then none else Conns.get k m)
          (Conns.find_items k m)

module _ {V S : Type 0} (Conns : SharedMap V) (c : Collector V S) (now : ℤ) (P : S → Type 0)
    (keeps : (k : Bytes) (v : V) (s : S) → P s → P (c.release k v s)) where
  loop_keeps :
      (es : List (Bytes × V)) (s : S) (m : Conns.carrier)
      → P s
      → P (sweep_loop Conns c now es (s, m)).0
  loop_keeps [] s m h = unfold sweep_loop in h
  loop_keeps ((j, v) ∷ es) s m h = elim (Bool-cases (c.due now j v s)) [
    | inl d ↦
        rw (loop_due Conns c now es s m j v d)
          (loop_keeps es (c.release j v s) (Conns.remove j m) (keeps j v s h))
    | inr d ↦ rw (loop_kept Conns c now es s m j v d) (loop_keeps es s m h)
  ]

  -- What every release keeps, a tick keeps.
  pub sweep_keeps : (s : S) (m : Conns.carrier) → P s → P (sweep Conns c now (s, m)).0
  unfolding sweep
  sweep_keeps s m h = loop_keeps (Conns.items m) s m h

module _ {V S : Type 0} (Conns : SharedMap V) (c : Collector V S) (now : ℤ)
    (stable : (k j : Bytes) (v w : V) (s : S)
      → c.due now j w s ≡ true
      → c.due now k v (c.release j w s) ≡ c.due now k v s)
    (k : Bytes) (v : V) (Q : S → Type 0)
    (keeps : (j : Bytes) (w : V) (s : S) → Q s → Q (c.release j w s))
    (done : (s : S) → Q (c.release k v s)) where
  loop_releases :
      (es : List (Bytes × V)) (s : S) (m : Conns.carrier)
      → find k es ≡ some v
      → c.due now k v s ≡ true
      → Q (sweep_loop Conns c now es (s, m)).0
  loop_releases [] s m f d = absurd (cc)
  loop_releases ((j, w) ∷ es) s m f d = elim (Bool-cases (bytes_eq j k)) [
    | inl e ↦
        let same : w ≡ v = ground arith in
        let due : c.due now j w s ≡ true = rw (bytes_eq_sound j k e, same) d in
        rw (loop_due Conns c now es s m j w due, bytes_eq_sound j k e, same)
          (loop_keeps Conns c now Q keeps es (c.release k v s) (Conns.remove k m) (done s))
    | inr e ↦
        let later : find k es ≡ some v = ground arith in
        elim (Bool-cases (c.due now j w s)) [
          | inl t ↦
              rw (loop_due Conns c now es s m j w t) (
                loop_releases es (c.release j w s) (Conns.remove j m) later
                  (stable k j v w s t ∙ d))
          | inr t ↦ rw (loop_kept Conns c now es s m j w t) (loop_releases es s m later d)
        ]
  ]

  -- What the callback accepts is released.
  pub sweep_releases :
      (s : S) (m : Conns.carrier)
      → Conns.get k m ≡ some v
      → c.due now k v s ≡ true
      → Q (sweep Conns c now (s, m)).0
  unfolding sweep
  sweep_releases s m g d = loop_releases (Conns.items m) s m (Conns.find_items k m ∙ g) d
