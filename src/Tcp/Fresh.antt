-- ===== src/Tcp/Fresh.antt =====
-- services/tcp/tcp.go: a tick between the making of an item and its first use.
use jocasta.Prelude.{ℕ, ◌≡◌, refl, true, none, some, inl, inr, [], ◌==◌, arith, Bool-cases, ==_iff}
use jocasta.Prelude.Int.{ℤ, pos, ltb_ℤ, ◌-ℤ◌}
use jocasta.Go.Io.{Bytes}
use jocasta.Go.Net.{bytes_eq_refl}
use jocasta.Connection.Manager.{SharedMap}
use jocasta.Connection.Manager.Sweeps.{get-sweep, sweep_releases}
use jocasta.Tcp.{Store, change, change_stream, release, is_idle, collector, find_or_dial, tick}
use jocasta.Tcp.First.{grown}

module _ (idle_time now : ℤ) where
  stable :
      (k j : Bytes) (v w : ℕ) (s : Store)
      → (collector idle_time).due now j w s ≡ true
      → (collector idle_time).due now k v ((collector idle_time).release j w s)
        ≡ (collector idle_time).due now k v s
  unfolding release change change_stream
  stable k j v w s d = elim (Bool-cases (w == v)) [ inl e ↦ rw e refl | inr e ↦ rw e refl ]

  module _ (i : ℕ) where
    abbrev IsClosed : Store → Type 0
    IsClosed s = (s.item i).closed ≡ true

    releases_keep : (j : Bytes) (w : ℕ) (s : Store) → IsClosed s → IsClosed (release w s)
    unfolding release change change_stream
    releases_keep j w s h = ground (arith, h)

    released : (s : Store) → IsClosed (release i s)
    unfolding release change change_stream
    released s = ground arith

makes :
    (Conns : SharedMap ℕ) (now : ℤ) (c : ℕ) (src : Bytes) (s : Store) (m : Conns.carrier)
    → Conns.get src m ≡ none
    → find_or_dial Conns true c src (s, m)
      ≡ (some s.made, (grown Conns now c src [] s m, Conns.set src s.made m))
unfolding find_or_dial
makes Conns now c src s m n = rw (find_or_dial, n) refl

-- The time of an item is set only behind its making. A tick of the manager between the two, at a time
-- beyond the idle time, takes the new item off the table and closes it.
pub new_item_collected :
    (Conns : SharedMap ℕ) (idle_time now : ℤ) (c : ℕ) (src : Bytes) (s : Store) (m : Conns.carrier)
    → Conns.get src m ≡ none
    → ltb_ℤ idle_time (now -ℤ pos 0) ≡ true
    → (Conns.get src (tick Conns idle_time now (find_or_dial Conns true c src (s, m)).1).1 ≡ none)
      × (((tick Conns idle_time now (find_or_dial Conns true c src (s, m)).1).0.item s.made).closed
          ≡ true)
unfolding tick
new_item_collected Conns idle_time now c src s m n late =
    let g : Store = grown Conns now c src [] s m in
    let here : (s.made == s.made) ≡ true = (==_iff s.made s.made).1 refl in
    let is : Conns.get src (Conns.set src s.made m) ≡ some s.made =
      rw (Conns.get_set src src s.made m, bytes_eq_refl src) refl in
    let due : is_idle idle_time now (g.item s.made) ≡ true = rw here late in
    rw (makes Conns now c src s m n) (
      rw
          (
            get-sweep Conns (collector idle_time) now (stable idle_time now) g
                (Conns.set src s.made m) src,
            is,
            due,
          )
          refl,
      sweep_releases Conns (collector idle_time) now (stable idle_time now) src s.made
          (IsClosed idle_time now s.made) (releases_keep idle_time now s.made)
          (released idle_time now s.made) g (Conns.set src s.made m) is due,
    )
