-- ===== src/Udp/Others.antt =====
-- services/udp/udp.go: what a datagram does to the sessions of other sources.
use mathlib.Core.Path.{subst}
use jocasta.Prelude.{
  ℕ, ◌<◌, ◌≡◌, ◌≢◌, refl, ◌∙◌, Bool, true, false, Option, none, some, inl, inr, ◌==◌, arith,
  Bool-cases, Option-cases, ==_iff,
}
use jocasta.Prelude.Int.{ℤ}
use jocasta.Go.Io.{Bytes}
use jocasta.Go.Net.{AddrText}
use jocasta.Connection.Manager.{SharedMap}
use jocasta.Udp.{
  ConnItem, Store, Parent, stream, udp, unknown, change, add, new_item, touch, send, frame,
  find_or_dial, forward, send_frame, handle,
}
use jocasta.Udp.Tracked.{IsTracked, found, dialed, refused}

pub change_other :
    (s : Store) (i j : ℕ) (f : ConnItem → ConnItem) → i ≢ j → (change s i f).item j ≡ s.item j
unfolding change
change_other s i j f h = elim (Bool-cases (i == j)) [
  | inl e ↦ absurd (h ((==_iff i j).0 e))
  | inr e ↦ rw e refl
]

module _ (Conns : SharedMap ℕ) where
  send_frame_other :
      (b : Option Bytes) (s : Store) (i j : ℕ) → i ≢ j → (send_frame Conns b i s).item j ≡ s.item j
  send_frame_other none s i j h = refl
  send_frame_other (some b) s i j h = change_other s i j (send b) h

  forward_other :
      (now : ℤ) (b : Option Bytes) (s : Store) (m : Conns.carrier) (i j : ℕ)
      → i ≢ j
      → (forward Conns now b (some i, (s, m))).0.item j ≡ s.item j
  forward_other now b s m i j h =
      send_frame_other b (change s i (touch now)) i j h ∙ change_other s i j (touch now) h

  module _ (now : ℤ) (src : Bytes) (j : ℕ) (s : Store) (m : Conns.carrier)
      (h : IsTracked Conns (s, m)) (lt : j < s.made) (other : (s.item j).src_addr ≢ src) where
    sent_others :
        (dials : Bool) (b : Option Bytes)
        → (forward Conns now b (find_or_dial Conns now dials src (s, m))).0.item j ≡ s.item j
    sent_others dials b = elim (Option-cases (Conns.get src m)) [
      | inr (i, e) ↦ rw (found Conns now src s m dials e) (
          forward_other now b s m i j
            (λ same. other (subst (λ (n : ℕ). (s.item n).src_addr ≡ src) same (h src i e).1)))
      | inl e ↦ sent_new dials e
    ]
      where
        sent_new :
            (dials : Bool)
            → Conns.get src m ≡ none
            → (forward Conns now b (find_or_dial Conns now dials src (s, m))).0.item j ≡ s.item j
        sent_new false e = rw (refused Conns now src s m e) refl
        sent_new true e =
            let new : s.made ≢ j = omega arith in
            rw (dialed Conns now src s m e) (
              forward_other now b (add s (new_item now src)) (Conns.set src s.made m) s.made j new
              ∙ ground arith)

    item_others :
        (t : AddrText) (parent : Parent) (dials : Bool) (payload : Bytes)
        → (handle Conns t parent now dials src payload (s, m)).0.item j ≡ s.item j
    unfolding handle
    item_others t unknown dials payload = refl
    item_others t stream dials payload = sent_others dials (frame t stream src payload)
    item_others t udp dials payload = sent_others dials (frame t udp src payload)

  pub handle_others :
      (t : AddrText) (parent : Parent) (now : ℤ) (dials : Bool) (src payload : Bytes) (j : ℕ)
      (s : Store) (m : Conns.carrier)
      → IsTracked Conns (s, m)
      → j < s.made
      → (s.item j).src_addr ≢ src
      → ((handle Conns t parent now dials src payload (s, m)).0.item j).sent ≡ (s.item j).sent
  handle_others t parent now dials src payload j s m h lt other =
      rw (item_others now src j s m h lt other t parent dials payload) refl
