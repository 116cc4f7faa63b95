-- ===== src/Udp/Runs.antt =====
-- services/udp/udp.go: what every run of the service keeps.
use jocasta.Prelude.{ℕ, ◌<◌, ◌≡◌, ◌≢◌, Bool, true, Option, arith}
use jocasta.Prelude.Int.{ℤ}
use jocasta.Go.Io.{Bytes}
use jocasta.Go.Net.{AddrText}
use jocasta.Connection.Manager.{SharedMap}
use jocasta.Udp.{
  ConnItem, Store, State, Parent, stream, udp, unknown, change, close, is_idle, frame, find_or_dial,
  forward, handle, reply, reader_ends, stop,
}
use jocasta.Udp.Tracked.{
  IsTracked, reader_ends-IsTracked, reply-IsTracked, closed-IsTracked, removed-IsTracked,
  stop-IsTracked, forward-IsTracked, find_or_dial-IsTracked,
}
use jocasta.Udp.Others.{handle_others}

module _ (Conns : SharedMap ℕ) where
  -- What any part of the program can do next: the datagrams, the goroutines of the items, the loop of a tick,
  -- and the end of the service, in any order. The loop closes a session that was idle when it was tested,
  -- and then removes the key under which it saw the session, with other steps between these.
  pub data Step (t : AddrText) (parent : Parent) (idle_time : ℤ) (s : State Conns)
      : State Conns → Type 0 where
    datagram :
        (now : ℤ) (dials : Bool) (src payload : Bytes)
        → Step t parent idle_time s (handle Conns t parent now dials src payload s)
    replied : (now : ℤ) (i : ℕ) → Step t parent idle_time s (reply Conns now i s)
    ended : (i : ℕ) → Step t parent idle_time s (reader_ends Conns i s)
    idle_closed :
        (now : ℤ) (i : ℕ) (tested : ConnItem)
        → is_idle idle_time now tested ≡ true
        → Step t parent idle_time s (change s.0 i close, s.1)
    idle_removed :
        (k : Bytes) (i : ℕ)
        → (s.0.item i).closed ≡ true
        → Step t parent idle_time s (s.0, Conns.remove k s.1)
    stopped : Step t parent idle_time s (stop Conns s)

  pub data Reachable (t : AddrText) (parent : Parent) (idle_time : ℤ) : State Conns → Type 0 where
    start : (s : Store) → Reachable t parent idle_time (record s { made = 0 }, Conns.empty)
    next :
        {s u : State Conns}
        → Reachable t parent idle_time s
        → Step t parent idle_time s u
        → Reachable t parent idle_time u

  forward_any :
      (now : ℤ) (b : Option Bytes) (p : Option ℕ × State Conns)
      → IsTracked Conns p.1
      → IsTracked Conns (forward Conns now b p)
  forward_any now b (o, (s, m)) h = forward-IsTracked Conns now b o s m h

  handle-IsTracked :
      (t : AddrText) (parent : Parent) (now : ℤ) (dials : Bool) (src payload : Bytes) (s : Store)
      (m : Conns.carrier)
      → IsTracked Conns (s, m)
      → IsTracked Conns (handle Conns t parent now dials src payload (s, m))
  unfolding handle
  handle-IsTracked t unknown now dials src payload s m h = h
  handle-IsTracked t stream now dials src payload s m h =
      forward_any now (frame t stream src payload) (find_or_dial Conns now dials src (s, m))
        (find_or_dial-IsTracked Conns now src s m dials h)
  handle-IsTracked t udp now dials src payload s m h =
      forward_any now (frame t udp src payload) (find_or_dial Conns now dials src (s, m))
        (find_or_dial-IsTracked Conns now src s m dials h)

  Step-IsTracked :
      {t : AddrText} {parent : Parent} {idle_time : ℤ} {s u : State Conns}
      → Step t parent idle_time s u
      → IsTracked Conns s
      → IsTracked Conns u
  Step-IsTracked {t} {parent} {idle_time} {s} (datagram now dials src payload) h =
      handle-IsTracked t parent now dials src payload s.0 s.1 h
  Step-IsTracked {t} {parent} {idle_time} {s} (replied now i) h =
      reply-IsTracked Conns now i s.0 s.1 h
  Step-IsTracked {t} {parent} {idle_time} {s} (ended i) h = reader_ends-IsTracked Conns i s.0 s.1 h
  Step-IsTracked {t} {parent} {idle_time} {s} (idle_closed now i tested d) h =
      closed-IsTracked Conns i s.0 s.1 h
  Step-IsTracked {t} {parent} {idle_time} {s} (idle_removed k i d) h =
      removed-IsTracked Conns k s.0 s.1 h
  Step-IsTracked {t} {parent} {idle_time} {s} stopped h = stop-IsTracked Conns s.0 s.1 h

  -- In every state that the service reaches, an entry of the table is for an item that was made, and
  -- made for the source of the entry; and a datagram that is handled in this state changes what was sent over
  -- no session that was made for another source.
  pub Reachable-IsTracked :
      {t : AddrText} {parent : Parent} {idle_time : ℤ} {s : State Conns}
      → Reachable t parent idle_time s
      → IsTracked Conns s
        × ((now : ℤ) (dials : Bool) (src payload : Bytes) (j : ℕ)
            → j < s.0.made
            → (s.0.item j).src_addr ≢ src
            → ((handle Conns t parent now dials src payload s).0.item j).sent ≡ (s.0.item j).sent)
  Reachable-IsTracked {t} {parent} {idle_time} {s} r =
      let h = tracked r in
      (
        h,
        λ now dials src payload j lt other.
            handle_others Conns t parent now dials src payload j s.0 s.1 h lt other,
      )
    where
      tracked : {u : State Conns} → Reachable t parent idle_time u → IsTracked Conns u
      tracked (start u) = λ k i e. absurd (ground (arith, Conns.get_empty k))
      tracked (next q step) = Step-IsTracked step (tracked q)
