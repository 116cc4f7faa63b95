-- ===== src/Udp/Unlisted.antt =====
-- services/udp/udp.go: a session that no entry of the table leads to.
use mathlib.Core.Path.{subst}
use jocasta.Prelude.{
  ℕ, ◌≡◌, ◌≢◌, sym, ap, ◌∙◌, false, none, some, inl, inr, List, [], ◌∷◌, Bool-cases,
}
use jocasta.Prelude.Int.{ℤ}
use jocasta.Go.Io.{Bytes}
use jocasta.Go.Net.{bytes_eq, bytes_eq_sound, bytes_eq_refl}
use jocasta.Connection.Manager.{SharedMap, find, OneEach, sweep, sweep_loop}
use jocasta.Udp.{Store, change, close, collector, is_idle, tick, stop, close_all}
use jocasta.Udp.Others.{change_other}

abbrev pub IsUnlisted : ℕ → List (Bytes × ℕ) → Type 0
IsUnlisted n es = (k : Bytes) → find k es ≢ some n

IsUnlisted-head : (n v : ℕ) (k : Bytes) (es : List (Bytes × ℕ)) → IsUnlisted n ((k, v) ∷ es) → v ≢ n
IsUnlisted-head n v k es h e = h k (rw (bytes_eq_refl k) (ap some e))

IsUnlisted-tail :
    (n v : ℕ) (k : Bytes) (es : List (Bytes × ℕ))
    → find k es ≡ none
    → IsUnlisted n ((k, v) ∷ es)
    → IsUnlisted n es
IsUnlisted-tail n v k es one h j e = elim (Bool-cases (bytes_eq k j)) [
  | inl same ↦
      let gone : find j es ≡ none =
        subst (λ (x : Bytes). find x es ≡ none) (bytes_eq_sound k j same) one in
      cc
  | inr other ↦ h j (rw other e)
]

module _ (Conns : SharedMap ℕ) (n : ℕ) where
  close_all_open :
      (es : List (Bytes × ℕ)) (s : Store)
      → OneEach es
      → IsUnlisted n es
      → (s.item n).closed ≡ false
      → ((close_all Conns es s).item n).closed ≡ false
  unfolding close_all
  close_all_open [] s one h live = live
  close_all_open ((k, v) ∷ es) s one h live =
      close_all_open es (change s v close) one.1 (IsUnlisted-tail n v k es one.0 h)
        (rw (change_other s v n close (IsUnlisted-head n v k es h)) live)

  loop_open :
      (idle_time now : ℤ) (es : List (Bytes × ℕ)) (s : Store) (m : Conns.carrier)
      → OneEach es
      → IsUnlisted n es
      → (s.item n).closed ≡ false
      → ((sweep_loop Conns (collector idle_time) now es (s, m)).0.item n).closed ≡ false
  unfolding sweep_loop
  loop_open idle_time now [] s m one h live = live
  loop_open idle_time now ((k, v) ∷ es) s m one h live =
      let tail = IsUnlisted-tail n v k es one.0 h in
      elim (Bool-cases (is_idle idle_time now (s.item v))) [
        | inr e ↦ rw (sweep_loop, e) (loop_open idle_time now es s m one.1 tail live)
        | inl e ↦
            rw (sweep_loop, e)
              (loop_open idle_time now es (change s v close) (Conns.remove k m) one.1 tail
                (rw (change_other s v n close (IsUnlisted-head n v k es h)) live))
      ]

  module _ (s : Store) (m : Conns.carrier) (h : (k : Bytes) → Conns.get k m ≢ some n)
      (live : (s.item n).closed ≡ false) where
    IsUnlisted-items : IsUnlisted n (Conns.items m)
    IsUnlisted-items k e = h k (sym (Conns.find_items k m) ∙ e)

    pub tick_open :
        (idle_time now : ℤ) → ((tick Conns idle_time now (s, m)).0.item n).closed ≡ false
    unfolding tick sweep
    tick_open idle_time now =
        loop_open idle_time now (Conns.items m) s m (Conns.items_OneEach m) IsUnlisted-items live

    pub stop_open : ((stop Conns (s, m)).0.item n).closed ≡ false
    unfolding stop
    stop_open = close_all_open (Conns.items m) s (Conns.items_OneEach m) IsUnlisted-items live
