-- ===== src/Udp/Tracked.antt =====
-- services/udp/udp.go: what the parts of the service keep of the table.
use jocasta.Prelude.{
  ℕ, ◌<◌, ◌≡◌, refl, ◌∙◌, Bool, true, false, Option, none, some, inl, inr, List, [], ◌∷◌, ◌==◌,
  if◌then◌else◌, arith, Bool-cases, Option-cases, ==_iff,
}
use jocasta.Prelude.Int.{ℤ}
use jocasta.Go.Io.{Bytes}
use jocasta.Go.Net.{bytes_eq, bytes_eq_sound}
use jocasta.Connection.Manager.{SharedMap}
use jocasta.Connection.Manager.Sweeps.{get-sweep, sweep_keeps, holds}
use jocasta.Udp.{
  ConnItem, Store, State, change, close, touch, send, collector, is_idle, find_or_dial, forward,
  send_frame, reply, reader_ends, tick, stop, close_all, add, new_item,
}

-- The sources of the items and their number are what a store has of another.
abbrev pub SameSources : Store → Store → Type 0
SameSources s t = ((j : ℕ) → (t.item j).src_addr ≡ (s.item j).src_addr) × (t.made ≡ s.made)

abbrev Keeps : (ConnItem → ConnItem) → Type 0
Keeps f = (it : ConnItem) → (f it).src_addr ≡ it.src_addr

change_sources :
    (s : Store) (i : ℕ) (f : ConnItem → ConnItem) → Keeps f → SameSources s (change s i f)
unfolding change
change_sources s i f k = (λ j. ground (arith, k (s.item j)), refl)

SameSources-trans : (s t u : Store) → SameSources s t → SameSources t u → SameSources s u
SameSources-trans s t u h k = (λ j. k.0 j ∙ h.0 j, k.1 ∙ h.1)

send-Keeps : (b : Bytes) → Keeps (send b)
send-Keeps b it = ground arith

module _ (Conns : SharedMap ℕ) where
  -- The table has for each source an item that was made for it.
  abbrev pub IsTracked : State Conns → Type 0
  IsTracked state =
      (k : Bytes) (i : ℕ)
      → Conns.get k state.1 ≡ some i
      → (i < state.0.made) × ((state.0.item i).src_addr ≡ k)

  -- A change of the store that keeps the sources, and a table with no new entries.
  IsTracked-sources :
      (s t : Store) (m n : Conns.carrier)
      → SameSources s t
      → ((k : Bytes) (i : ℕ) → Conns.get k n ≡ some i → Conns.get k m ≡ some i)
      → IsTracked (s, m)
      → IsTracked (t, n)
  IsTracked-sources s t m n same old h k i e =
      let (lt, src) = h k i (old k i e) in (rw same.1 lt, same.0 i ∙ src)

  removed_old :
      (j : Bytes) (m : Conns.carrier) (k : Bytes) (i : ℕ)
      → Conns.get k (Conns.remove j m) ≡ some i
      → Conns.get k m ≡ some i
  removed_old j m k i e = ground (arith, Conns.get_remove k j m)

  pub reader_ends-IsTracked :
      (i : ℕ) (s : Store) (m : Conns.carrier)
      → IsTracked (s, m)
      → IsTracked (reader_ends Conns i (s, m))
  unfolding reader_ends
  reader_ends-IsTracked i s m h =
      IsTracked-sources s (change s i close) m (Conns.remove (s.item i).src_addr m)
        (change_sources s i close (λ it. refl)) (removed_old (s.item i).src_addr m) h

  pub closed-IsTracked :
      (i : ℕ) (s : Store) (m : Conns.carrier) → IsTracked (s, m) → IsTracked (change s i close, m)
  closed-IsTracked i s m h =
      IsTracked-sources s (change s i close) m m (change_sources s i close (λ it. refl))
        (λ k j e. e) h

  pub removed-IsTracked :
      (j : Bytes) (s : Store) (m : Conns.carrier)
      → IsTracked (s, m)
      → IsTracked (s, Conns.remove j m)
  removed-IsTracked j s m h =
      IsTracked-sources s s m (Conns.remove j m) (λ k. refl, refl) (removed_old j m) h

  pub reply-IsTracked :
      (now : ℤ) (i : ℕ) (s : Store) (m : Conns.carrier)
      → IsTracked (s, m)
      → IsTracked (reply Conns now i (s, m))
  unfolding reply
  reply-IsTracked now i s m h =
      IsTracked-sources s (change s i (touch now)) m m (change_sources s i (touch now) (λ it. refl))
        (λ k j e. e) h

  pub stable :
      (idle_time now : ℤ) (k j : Bytes) (v w : ℕ) (s : Store)
      → (collector idle_time).due now k v ((collector idle_time).release j w s)
        ≡ (collector idle_time).due now k v s
  unfolding change
  stable idle_time now k j v w s = elim (Bool-cases (w == v)) [
    | inl e ↦ rw e refl
    | inr e ↦ rw e refl
  ]

  pub tick_sources :
      (idle_time now : ℤ) (s : Store) (m : Conns.carrier)
      → SameSources s (tick Conns idle_time now (s, m)).0
  unfolding tick
  tick_sources idle_time now s m =
      sweep_keeps Conns (collector idle_time) now (SameSources s)
        (λ k i t h.
          SameSources-trans s t (change t i close) h (change_sources t i close (λ it. refl)))
        s m (λ j. refl, refl)

  pub get-tick :
      (idle_time now : ℤ) (s : Store) (m : Conns.carrier) (k : Bytes)
      → Conns.get k (tick Conns idle_time now (s, m)).1 ≡ (
          if holds (λ i. is_idle idle_time now (s.item i)) (Conns.get k m)
          then none
          else Conns.get k m)
  unfolding tick
  get-tick idle_time now s m k =
      get-sweep Conns (collector idle_time) now (λ k j v w s d. stable idle_time now k j v w s) s m
        k

  pub kept_old : (b : Bool) (o : Option ℕ) (i : ℕ) → (if b then none else o) ≡ some i → o ≡ some i
  kept_old b o i e = ground arith

  close_all_sources : (es : List (Bytes × ℕ)) (s : Store) → SameSources s (close_all Conns es s)
  unfolding close_all
  close_all_sources [] s = (λ j. refl, refl)
  close_all_sources ((k, i) ∷ es) s =
      SameSources-trans s (change s i close) (close_all Conns es (change s i close))
        (change_sources s i close (λ it. refl)) (close_all_sources es (change s i close))

  pub stop-IsTracked :
      (s : Store) (m : Conns.carrier) → IsTracked (s, m) → IsTracked (stop Conns (s, m))
  unfolding stop
  stop-IsTracked s m h =
      IsTracked-sources s (close_all Conns (Conns.items m) s) m m
        (close_all_sources (Conns.items m) s) (λ k j e. e) h

  send_frame_sources :
      (b : Option Bytes) (i : ℕ) (s : Store) → SameSources s (send_frame Conns b i s)
  send_frame_sources none i s = (λ j. refl, refl)
  send_frame_sources (some b) i s = change_sources s i (send b) (send-Keeps b)

  pub forward-IsTracked :
      (now : ℤ) (b : Option Bytes) (o : Option ℕ) (s : Store) (m : Conns.carrier)
      → IsTracked (s, m)
      → IsTracked (forward Conns now b (o, (s, m)))
  forward-IsTracked now b none s m h = h
  forward-IsTracked now b (some i) s m h =
      let touched = change s i (touch now) in
      IsTracked-sources s (send_frame Conns b i touched) m m
        (SameSources-trans s touched (send_frame Conns b i touched)
          (change_sources s i (touch now) (λ it. refl)) (send_frame_sources b i touched))
        (λ k j e. e) h

  module _ (now : ℤ) (src : Bytes) (s : Store) (m : Conns.carrier) where
    pub found :
        (dials : Bool) {i : ℕ}
        → Conns.get src m ≡ some i
        → find_or_dial Conns now dials src (s, m) ≡ (some i, (s, m))
    unfolding find_or_dial
    found dials e = rw (find_or_dial, e) refl

    pub dialed :
        Conns.get src m ≡ none
        → find_or_dial Conns now true src (s, m)
          ≡ (some s.made, (add s (new_item now src), Conns.set src s.made m))
    unfolding find_or_dial
    dialed e = rw (find_or_dial, e) refl

    pub refused : Conns.get src m ≡ none → find_or_dial Conns now false src (s, m) ≡ (none, (s, m))
    unfolding find_or_dial
    refused e = rw (find_or_dial, e) refl

    added-IsTracked :
        IsTracked (s, m) → IsTracked (add s (new_item now src), Conns.set src s.made m)
    added-IsTracked h k i e = elim (Bool-cases (bytes_eq src k)) [
      | inl same ↦
          let here : s.made ≡ i = ground (arith, Conns.get_set k src s.made m) in
          (omega arith, rw ((==_iff s.made i).1 here) (bytes_eq_sound src k same))
      | inr other ↦
          let old : Conns.get k m ≡ some i = ground (arith, Conns.get_set k src s.made m) in
          let (lt, was) = h k i old in (omega arith, ground arith)
    ]

    pub find_or_dial-IsTracked :
        (dials : Bool) → IsTracked (s, m) → IsTracked (find_or_dial Conns now dials src (s, m)).1
    find_or_dial-IsTracked dials h = elim (Option-cases (Conns.get src m)) [
      | inr (i, e) ↦ rw (found dials e) h
      | inl e ↦ find_or_dial_new dials h e
    ]
      where
        find_or_dial_new :
            (dials : Bool)
            → IsTracked (s, m)
            → Conns.get src m ≡ none
            → IsTracked (find_or_dial Conns now dials src (s, m)).1
        find_or_dial_new true h e = rw (dialed e) (added-IsTracked h)
        find_or_dial_new false h e = rw (refused e) h
