-- ===== src/Udp/Lost.antt =====
-- services/udp/udp.go: a session that the table loses.
use mathlib.Core.Path.{subst}
use jocasta.Prelude.{
  ℕ, ◌<◌, ◌≡◌, ◌≢◌, refl, sym, ap, ◌∙◌, true, false, Option, none, some, ◌==◌, arith,
}
use jocasta.Prelude.Int.{ℤ}
use jocasta.Go.Io.{Bytes}
use jocasta.Go.Net.{AddrText, bytes_eq_refl}
use jocasta.Connection.Manager.{SharedMap}
use jocasta.Udp.{
  Store, State, Parent, stream, udp, unknown, change, close, is_idle, frame, forward, find_or_dial,
  send_frame, handle, reader_ends, tick, stop, add, new_item, touch,
}
use jocasta.Udp.Tracked.{IsTracked, tick_sources, get-tick, dialed, kept_old}
use jocasta.Udp.Unlisted.{tick_open, stop_open}

module _ (Conns : SharedMap ℕ) (src : Bytes) where
  -- The session at the place `n` is open and off the table, and stays open behind a tick or Stop.
  abbrev pub IsLost : ℕ → State Conns → Type 0
  IsLost n u =
      ((u.0.item n).closed ≡ false)
      × (Conns.get src u.1 ≡ none)
      × ((k : Bytes) → Conns.get k u.1 ≢ some n)
      × ((idle_time now : ℤ) → ((tick Conns idle_time now u).0.item n).closed ≡ false)
      × (((stop Conns u).0.item n).closed ≡ false)

  IsLost-state :
      (n : ℕ) (u : Store) (c : Conns.carrier)
      → (u.item n).closed ≡ false
      → Conns.get src c ≡ none
      → ((k : Bytes) → Conns.get k c ≢ some n)
      → IsLost n (u, c)
  IsLost-state n u c live gone off = (
    live,
    gone,
    off,
    λ idle_time now. tick_open Conns n u c off live idle_time now,
    stop_open Conns n u c off live,
  )

module _ (Conns : SharedMap ℕ) (t : AddrText) (parent : Parent) (later : ℤ) (src payload : Bytes)
    (i : ℕ) (s : Store) (m : Conns.carrier) where
  -- The store after the datagram of a source without a session.
  abbrev sent_store : Option Bytes → Store
  sent_store b =
      send_frame Conns b s.made (change (add s (new_item later src)) s.made (touch later))

  forwarded :
      (b : Option Bytes)
      → Conns.get src m ≡ none
      → forward Conns later b (find_or_dial Conns later true src (s, m))
        ≡ (sent_store b, Conns.set src s.made m)
  forwarded b e = rw (dialed Conns later src s m e) refl

  handled :
      (p : Parent)
      → p ≢ unknown
      → Conns.get src m ≡ none
      → handle Conns t p later true src payload (s, m)
        ≡ (sent_store (frame t p src payload), Conns.set src s.made m)
  unfolding handle
  handled unknown known e = absurd (known refl)
  handled stream known e = forwarded (frame t stream src payload) e
  handled udp known e = forwarded (frame t udp src payload) e

  new_open :
      (b : Option Bytes) → ((change (sent_store b) i close).item s.made).closed ≡ (i == s.made)
  unfolding change
  new_open none = ground arith
  new_open (some b) = ground arith

  old_source :
      (b : Option Bytes) → i < s.made → ((sent_store b).item i).src_addr ≡ (s.item i).src_addr
  unfolding change
  old_source none h = ground arith
  old_source (some b) h = ground arith

  lost :
      parent ≢ unknown
      → Conns.get src m ≡ none
      → i < s.made
      → (s.item i).src_addr ≡ src
      → ((k : Bytes) → Conns.get k m ≢ some s.made)
      → IsLost Conns src s.made
          (reader_ends Conns i (handle Conns t parent later true src payload (s, m)))
  unfolding reader_ends
  lost known e lt o new =
      let b = frame t parent src payload in
      rw (handled parent known e, old_source b lt, o)
        (IsLost-state Conns src s.made (change (sent_store b) i close)
          (Conns.remove src (Conns.set src s.made m)) (new_open b ∙ ground arith)
          (Conns.get_remove src src (Conns.set src s.made m) ∙ rw (bytes_eq_refl src) refl)
          (λ k g. ground (
            arith,
            Conns.get_remove k src (Conns.set src s.made m),
            Conns.get_set k src s.made m,
            new k,
          )))

module _ (Conns : SharedMap ℕ) (t : AddrText) (parent : Parent) (idle_time now later : ℤ)
    (src payload : Bytes) (i : ℕ) (s : Store) (m : Conns.carrier) where
  -- What follows one another: the tick that collects the session, a datagram of its source, and the end of
  -- the goroutine that read for the session, which the closed connection brings about.
  abbrev pub collected : State Conns
  collected = tick Conns idle_time now (s, m)

  abbrev pub again : State Conns
  again = handle Conns t parent later true src payload collected

  abbrev pub ended : State Conns
  ended = reader_ends Conns i again

  -- Where the parent is a stream or UDP and can be dialed: if the goroutine of an idle session comes to its
  -- end only when a tick has collected the session and the source has been given a new one, it takes this new
  -- one off the table. Its connection is open, no entry leads to it any more, and neither a tick nor Stop that
  -- follows closes it.
  pub session_lost :
      parent ≢ unknown
      → IsTracked Conns (s, m)
      → Conns.get src m ≡ some i
      → is_idle idle_time now (s.item i) ≡ true
      → IsLost Conns src s.made ended
  session_lost known h g d =
      let (same, made) = tick_sources Conns idle_time now s m in
      let (lt, src_of) = h src i g in
      let gone = get-tick Conns idle_time now s m src ∙ rw (g, d) refl in
      subst (λ (n : ℕ). IsLost Conns src n ended) made
        (lost Conns t parent later src payload i collected.0 collected.1 known gone (rw made lt)
          (same i ∙ src_of) (λ k e. absurd (fresh k (e ∙ ap some made))))
    where
      fresh : (k : Bytes) → Conns.get k collected.1 ≢ some s.made
      fresh k e =
          let old =
            kept_old Conns _ (Conns.get k m) s.made
              (sym (get-tick Conns idle_time now s m k) ∙ e) in
          omega (arith, (h k s.made old).0)
