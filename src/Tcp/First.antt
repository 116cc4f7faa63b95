-- ===== src/Tcp/First.antt =====
-- services/tcp/tcp.go: whose stream the answers go to.
use jocasta.Prelude.{
  ℕ, suc, ◌≡◌, refl, Bool, true, false, none, some, [], ◌∷◌, ◌==◌, if◌then◌else◌, arith, ==_iff,
}
use jocasta.Prelude.Int.{ℤ}
use jocasta.Go.Io.{Bytes}
use jocasta.Go.Net.{bytes_eq_refl}
use jocasta.Connection.Manager.{SharedMap}
use jocasta.Tcp.{
  Store, new_item, send, touch, shut, State, change, change_stream, find_or_dial, datagram, answer,
  stream_ends,
}

module _ (Conns : SharedMap ℕ) (now : ℤ) (c : ℕ) (src payload : Bytes) (s : Store)
    (m : Conns.carrier) where
  abbrev pub grown : Store
  grown = record s {
    item = λ j. if s.made == j then new_item c src else s.item j;
    made = suc s.made;
  }

  dialed :
      Conns.get src m ≡ none
      → datagram Conns now true c src payload (s, m)
        ≡ (change s.made (send payload) (change s.made (touch now) grown), Conns.set src s.made m)
  unfolding datagram find_or_dial
  dialed n = rw (find_or_dial, n) refl

  found :
      (dials : Bool) {i : ℕ}
      → Conns.get src m ≡ some i
      → datagram Conns now dials c src payload (s, m)
        ≡ (change i (send payload) (change i (touch now) s), m)
  unfolding datagram find_or_dial
  found dials e = rw (find_or_dial, e) refl

-- A source sends on the stream c, which ends, and then on the stream d.
abbrev pub resumed :
    (Conns : SharedMap ℕ) → ℤ → ℤ → Bool → ℕ → ℕ → Bytes → Bytes → Bytes → State Conns → State Conns
resumed Conns t0 t1 dials c d src x y state =
    datagram Conns t1 dials d src y (stream_ends Conns c (datagram Conns t0 true c src x state))

-- A first datagram of a source on the stream c makes an item. If this stream ends and the source sends again
-- on the stream d, the datagram goes out over the same item, which is still open, and an answer to it is
-- written to no stream at all: not to d, which the item does not know, nor to c, which is closed.
pub answer_lost :
    (Conns : SharedMap ℕ) (t0 t1 t2 : ℤ) (dials : Bool) (c d : ℕ) (src x y frame : Bytes)
    (s : Store) (m : Conns.carrier)
    → Conns.get src m ≡ none
    → (e : ℕ)
    → (((resumed Conns t0 t1 dials c d src x y (s, m)).0.item s.made).closed ≡ false)
      × (((resumed Conns t0 t1 dials c d src x y (s, m)).0.item s.made).sent ≡ x ∷ y ∷ [])
      × (((answer Conns t2 s.made frame (resumed Conns t0 t1 dials c d src x y (s, m))).0.stream
            e).written
          ≡ (s.stream e).written)
unfolding stream_ends answer change change_stream
answer_lost Conns t0 t1 t2 dials c d src x y frame s m n e =
    let here : (s.made == s.made) ≡ true = (==_iff s.made s.made).1 refl in
    let is : Conns.get src (Conns.set src s.made m) ≡ some s.made =
      rw (Conns.get_set src src s.made m, bytes_eq_refl src) refl in
    let s1 : Store =
      change s.made (send x) (change s.made (touch t0) (grown Conns t0 c src x s m)) in
    rw
      (
        dialed Conns t0 c src x s m n,
        found Conns t1 d src y (change_stream c shut s1) (Conns.set src s.made m) dials is,
        here,
      )
      (refl, refl, ground arith)
