-- ===== src/Udp/Collects.antt =====
-- services/udp/udp.go: the sessions that a tick of the manager collects.
use jocasta.Prelude.{ℕ, ◌≡◌, refl, true, false, none, some, ◌==◌, arith, Bool-cases, inl, inr}
use jocasta.Prelude.Int.{ℤ}
use jocasta.Go.Io.{Bytes}
use jocasta.Connection.Manager.{SharedMap}
use jocasta.Connection.Manager.Sweeps.{sweep_releases}
use jocasta.Udp.{Store, change, close, collector, is_idle, tick}
use jocasta.Udp.Tracked.{stable, get-tick}

module _ (Conns : SharedMap ℕ) (idle_time now : ℤ) (s : Store) (m : Conns.carrier) where
  abbrev pub IsClosed : ℕ → Store → Type 0
  IsClosed i t = (t.item i).closed ≡ true

  closes : (i : ℕ) (t : Store) → IsClosed i (change t i close)
  unfolding change
  closes i t = ground arith

  stays : (i j : ℕ) (t : Store) → IsClosed i t → IsClosed i (change t j close)
  unfolding change
  stays i j t h = elim (Bool-cases (j == i)) [ inl e ↦ rw e refl | inr e ↦ rw e h ]

  -- A tick, where nothing comes in between the turns of its loop, takes every session off the table that was
  -- idle for longer than the idle time and closes its connection; the other sources have the session that
  -- they had, and no source has a new one.
  pub tick_lem :
      (k : Bytes)
      → ((i : ℕ)
          → Conns.get k m ≡ some i
          → (is_idle idle_time now (s.item i) ≡ true
              → (Conns.get k (tick Conns idle_time now (s, m)).1 ≡ none)
                × IsClosed i (tick Conns idle_time now (s, m)).0)
            × (is_idle idle_time now (s.item i) ≡ false
                → Conns.get k (tick Conns idle_time now (s, m)).1 ≡ some i))
        × (Conns.get k m ≡ none → Conns.get k (tick Conns idle_time now (s, m)).1 ≡ none)
  tick_lem k = (
    λ i g. (
      λ d. (rw (get-tick Conns idle_time now s m k, g, d) refl, closed i g d),
      λ d. rw (get-tick Conns idle_time now s m k, g, d) refl,
    ),
    λ g. rw (get-tick Conns idle_time now s m k, g) refl,
  )
    where
      closed :
          (i : ℕ)
          → Conns.get k m ≡ some i
          → is_idle idle_time now (s.item i) ≡ true
          → IsClosed i (tick Conns idle_time now (s, m)).0
      closed i g d =
          unfold tick in
          sweep_releases Conns (collector idle_time) now
            (λ k j v w s d. stable Conns idle_time now k j v w s) k i (IsClosed i)
            (λ j w t h. stays i w t h) (closes i) s m g d
