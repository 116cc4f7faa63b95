-- ===== src/Tcp.antt =====
-- services/tcp/tcp.go: datagrams that arrive on streams and go on over UDP. An item is a connection to the
-- target for the datagrams of one source. The table has the place of an item in a store, since the table
-- and the goroutines hold pointers to it; streams have places too.
pub mod First
pub mod Fresh
mod Tests
use jocasta.Prelude.{
  ℕ, suc, Bool, true, false, Option, none, some, List, [], ◌∷◌, ◌++◌, ◌==◌, if◌then◌else◌,
}
use jocasta.Prelude.Int.{ℤ, pos, ltb_ℤ, ◌-ℤ◌}
use jocasta.Go.Io.{Bytes}
use jocasta.Connection.Manager.{SharedMap, Collector, sweep}

-- connItem, with what was written to the target.
pub record ConnItem : Type 0 where
  pub conn : ℕ
  pub src_addr : Bytes
  pub last_active_time : ℤ
  pub closed : Bool
  pub sent : List Bytes

-- A stream from a client.
pub record Stream : Type 0 where
  pub closed : Bool
  pub written : List Bytes

pub record Store : Type 0 where
  pub item : ℕ → ConnItem
  pub made : ℕ
  pub stream : ℕ → Stream

unfoldable pub change : ℕ → (ConnItem → ConnItem) → Store → Store
change i f s = record s { item = λ j. if i == j then f (s.item j) else s.item j }

unfoldable pub change_stream : ℕ → (Stream → Stream) → Store → Store
change_stream c f s = record s { stream = λ d. if c == d then f (s.stream d) else s.stream d }

abbrev pub close : ConnItem → ConnItem
close it = record it { closed = true }

abbrev pub touch : ℤ → ConnItem → ConnItem
touch now it = record it { last_active_time = now }

-- A write to what is closed fails.
abbrev pub send : Bytes → ConnItem → ConnItem
send b it = if it.closed then it else record it { sent = it.sent ++ b ∷ [] }

abbrev pub put : Bytes → Stream → Stream
put b s = if s.closed then s else record s { written = s.written ++ b ∷ [] }

abbrev pub shut : Stream → Stream
shut s = record s { closed = true }

-- The time of a new item is not set.
abbrev pub new_item : ℕ → Bytes → ConnItem
new_item c src = record {
  conn = c;
  src_addr = src;
  last_active_time = pos 0;
  closed = false;
  sent = [];
}

-- The two connections of an item are closed.
unfoldable pub release : ℕ → Store → Store
unfolding change change_stream
release i s = change i close (change_stream (s.item i).conn shut s)

module _ (idle_time : ℤ) where
  abbrev pub is_idle : ℤ → ConnItem → Bool
  is_idle now it = ltb_ℤ idle_time (now -ℤ it.last_active_time)

  -- The callback that New gives the manager.
  abbrev pub collector : Collector ℕ Store
  collector = record { due = λ now k i s. is_idle now (s.item i); release = λ k i s. release i s }

module _ (Conns : SharedMap ℕ) where
  abbrev pub State : Type 0
  State = Store × Conns.carrier

  -- A datagram of a source on a stream: its item, or a new one if the target can be dialed.
  unfoldable pub find_or_dial : Bool → ℕ → Bytes → State → Option ℕ × State
  find_or_dial dials c src (s, m) = elim (Conns.get src m) [
    | some i ↦ (some i, (s, m))
    | none ↦
        let grown : Store = record s {
          item = λ j. if s.made == j then new_item c src else s.item j;
          made = suc s.made;
        } in
        let dialed : Option ℕ × State = (some s.made, (grown, Conns.set src s.made m)) in
        if dials then dialed else (none, (s, m))
  ]

  -- What follows in the loop: the datagram goes to the target.
  unfoldable pub forward : ℤ → Bytes → Option ℕ × State → State
  unfolding change
  forward now payload (none, state) = state
  forward now payload (some i, (s, m)) = (change i (send payload) (change i (touch now) s), m)

  -- A turn of the loop of proxyStream2UDP for a datagram that was parsed.
  unfoldable pub datagram : ℤ → Bool → ℕ → Bytes → Bytes → State → State
  unfolding find_or_dial forward
  datagram now dials c src payload state = forward now payload (find_or_dial dials c src state)

  -- An answer of the target, whose frame the goroutine of the item writes to the item's stream.
  unfoldable pub answer : ℤ → ℕ → Bytes → State → State
  unfolding change change_stream
  answer now i frame (s, m) =
      (change_stream (s.item i).conn (put frame) (change i (touch now) s), m)

  -- What this goroutine deferred.
  unfoldable pub reader_ends : ℕ → State → State
  unfolding release
  reader_ends i (s, m) = (release i s, Conns.remove (s.item i).src_addr m)

  -- handler deferred the close of the stream.
  unfoldable pub stream_ends : ℕ → State → State
  unfolding change_stream
  stream_ends c (s, m) = (change_stream c shut s, m)

  -- A tick of the manager, where nothing comes in between the turns of its loop.
  unfoldable pub tick : ℤ → ℤ → State → State
  unfolding release
  tick idle_time now state = sweep Conns (collector idle_time) now state
