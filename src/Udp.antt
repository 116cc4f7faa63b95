-- ===== src/Udp.antt =====
-- services/udp/udp.go: the sessions of the UDP service. A session is a connection to the parent for the
-- datagrams of one source. Items are held by pointer: the table has the place of an item in a store. That a
-- datagram finds or makes its item is one step, which singleflight sees to.
pub mod Tracked
pub mod Others
pub mod Unlisted
pub mod Runs
pub mod Collects
pub mod Lost
mod Tests
use jocasta.Prelude.{
  ℕ, suc, ◌+◌, ◌≡◌, Bool, true, false, Option, none, some, List, [], ◌∷◌, ◌++◌, length, ◌==◌,
  if◌then◌else◌,
}
use jocasta.Prelude.Int.{ℤ, pos, ltb_ℤ, ◌-ℤ◌, ◌+ℤ◌}
use jocasta.Go.Result
use jocasta.Go.Result.{Result, ok, err, panic}
use jocasta.Go.Io.{Bytes}
use jocasta.Go.Net.{AddrText}
use jocasta.Captain.Addr.{parse_addr_spec}
use jocasta.Captain.Datagram.{Datagram}
use jocasta.Captain.StreamDatagram.{stream_datagram_header}
use jocasta.Connection.Manager.{SharedMap, Collector, sweep, watch}

-- connItem, with what was written to its connection and whether that is closed.
pub record ConnItem : Type 0 where
  pub src_addr : Bytes
  pub last_active_time : ℤ
  pub closed : Bool
  pub sent : List Bytes

-- The store of the items and the number of those that were made.
pub record Store : Type 0 where
  pub item : ℕ → ConnItem
  pub made : ℕ

unfoldable pub change : Store → ℕ → (ConnItem → ConnItem) → Store
change s i f = record s { item = λ j. if i == j then f (s.item j) else s.item j }

abbrev pub close : ConnItem → ConnItem
close it = record it { closed = true }

abbrev pub touch : ℤ → ConnItem → ConnItem
touch now it = record it { last_active_time = now }

-- A write to a closed connection fails, which is only logged.
abbrev pub send : Bytes → ConnItem → ConnItem
send b it = if it.closed then it else record it { sent = it.sent ++ b ∷ [] }

abbrev pub new_item : ℤ → Bytes → ConnItem
new_item now src = record { src_addr = src; last_active_time = now; closed = false; sent = [] }

abbrev pub add : Store → ConnItem → Store
add s it = record { item = λ j. if s.made == j then it else s.item j; made = suc s.made }

-- ParentType: a stream, UDP, or what is neither.
pub data Parent : Type 0 where
  stream udp unknown : Parent

-- defaultUDPIdleTime
abbrev pub default_idle_time : ℤ
default_idle_time = pos 10

module _ (idle_time : ℤ) where
  abbrev pub is_idle : ℤ → ConnItem → Bool
  is_idle now it = ltb_ℤ idle_time (now -ℤ it.last_active_time)

  -- The callback that New gives the manager.
  abbrev pub collector : Collector ℕ Store
  collector = record {
    due = λ now k i s. is_idle now (s.item i);
    release = λ k i s. change s i close;
  }

-- What proxyUdp2Stream writes: the header of a datagram of captain and the bytes. Nothing is written
-- where one of the two steps before fails.
unfoldable pub stream_frame : AddrText → Bytes → Bytes → Option Bytes
stream_frame t src payload = elim (parse_addr_spec t src) [
  | ok a ↦ elim (stream_datagram_header (record { reserved = 0; addr = a; payload = payload })) [
    | ok header ↦ some (header ++ payload)
    | err _ ↦ none
    | panic ↦ none
  ]
  | err _ ↦ none
  | panic ↦ none
]

unfoldable pub frame : AddrText → Parent → Bytes → Bytes → Option Bytes
unfolding stream_frame
frame t stream src payload = stream_frame t src payload
frame t udp src payload = some payload
frame t unknown src payload = none

module _ (Conns : SharedMap ℕ) where
  abbrev pub State : Type 0
  State = Store × Conns.carrier

  -- The item of a source: one that is there, or a new one if the parent can be dialed.
  unfoldable pub find_or_dial : ℤ → Bool → Bytes → State → Option ℕ × State
  find_or_dial now dials src (s, m) = elim (Conns.get src m) [
    | some i ↦ (some i, (s, m))
    | none ↦
        let dialed : Option ℕ × State =
          (some s.made, (add s (new_item now src), Conns.set src s.made m)) in
        if dials then dialed else (none, (s, m))
  ]

  abbrev pub send_frame : Option Bytes → ℕ → Store → Store
  send_frame none i s = s
  send_frame (some b) i s = change s i (send b)

  abbrev pub forward : ℤ → Option Bytes → Option ℕ × State → State
  forward now b (none, state) = state
  forward now b (some i, (s, m)) = (send_frame b i (change s i (touch now)), m)

  -- handle: proxyUdp2Stream or proxyUdp2Udp for a datagram, given the time and whether a dial succeeds.
  unfoldable pub handle : AddrText → Parent → ℤ → Bool → Bytes → Bytes → State → State
  unfolding find_or_dial frame
  handle t unknown now dials src payload state = state
  handle t stream now dials src payload state =
      forward now (frame t stream src payload) (find_or_dial now dials src state)
  handle t udp now dials src payload state =
      forward now (frame t udp src payload) (find_or_dial now dials src state)

  -- A datagram from the parent, which the goroutine of the item reads and passes on to the source.
  unfoldable pub reply : ℤ → ℕ → State → State
  reply now i (s, m) = (change s i (touch now), m)

  -- The end of this goroutine: what it deferred takes the source off the table and closes the connection.
  unfoldable pub reader_ends : ℕ → State → State
  reader_ends i (s, m) = (change s i close, Conns.remove (s.item i).src_addr m)

  -- A tick of the manager, where nothing comes in between the turns of its loop.
  unfoldable pub tick : ℤ → ℤ → State → State
  tick idle_time now state = sweep Conns (collector idle_time) now state

  close_all : List (Bytes × ℕ) → Store → Store
  close_all [] s = s
  close_all ((k, i) ∷ es) s = close_all es (change s i close)

  -- Stop: the connections of the table are closed.
  unfoldable pub stop : State → State
  unfolding close_all
  stop (s, m) = (close_all (Conns.items m) s, m)
