-- ===== src/Udp/Tests.antt =====
-- The service with one source.
use jocasta.Prelude.{ℕ, ◌<◌, Bool, ◌≡◌, ◌≢◌, refl, true, false, none, some, [], ◌∷◌}
use jocasta.Prelude.Int.{ℤ, pos, ◌-ℤ◌}
use jocasta.Go.Io.{Bytes}
use jocasta.Go.Net.{AddrText, bytes_eq}
use jocasta.Connection.Manager.Entries.{entries}
use jocasta.Udp.{
  Store, State, udp, unknown, new_item, is_idle, tick, handle, frame, find_or_dial, change,
}
use jocasta.Udp.Tracked.{IsTracked}
use jocasta.Udp.Runs.{Reachable, start, next, datagram, Reachable-IsTracked}
use jocasta.Udp.Collects.{IsClosed, tick_lem}
use jocasta.Udp.Lost.{IsLost, ended, session_lost}

abbrev text : AddrText
text = record { parse_ip = λ s. none; ip_string = λ ip. [] }

abbrev src : Bytes
src = 97 ∷ []

abbrev nothing : Store
nothing = record { item = λ j. new_item (pos 0) []; made = 0 }

-- After a datagram at the time 5.
abbrev one : State (entries ℕ)
one = handle (entries ℕ) text udp (pos 5) true src [] (nothing, (entries ℕ).empty)

udp_known : udp ≢ unknown
udp_known e = cc

one_reached : Reachable (entries ℕ) text udp (pos 10) one
one_reached = next (start nothing) (datagram (pos 5) true src [])

Reachable-IsTracked_example :
    IsTracked (entries ℕ) one
    × ((now : ℤ) (dials : Bool) (from payload : Bytes) (j : ℕ)
        → j < one.0.made
        → (one.0.item j).src_addr ≢ from
        → ((handle (entries ℕ) text udp now dials from payload one).0.item j).sent
          ≡ (one.0.item j).sent)
Reachable-IsTracked_example = Reachable-IsTracked (entries ℕ) one_reached

tick_lem_example :
    ((i : ℕ)
      → (entries ℕ).get src one.1 ≡ some i
      → (is_idle (pos 10) (pos 20) (one.0.item i) ≡ true
          → ((entries ℕ).get src (tick (entries ℕ) (pos 10) (pos 20) one).1 ≡ none)
            × IsClosed
                (entries ℕ)
                (pos 10)
                (pos 20)
                one.0
                one.1
                i
                (tick (entries ℕ) (pos 10) (pos 20) one).0)
        × (is_idle (pos 10) (pos 20) (one.0.item i) ≡ false
            → (entries ℕ).get src (tick (entries ℕ) (pos 10) (pos 20) one).1 ≡ some i))
    × ((entries ℕ).get src one.1 ≡ none
        → (entries ℕ).get src (tick (entries ℕ) (pos 10) (pos 20) one).1 ≡ none)
tick_lem_example = tick_lem (entries ℕ) (pos 10) (pos 20) one.0 one.1 src

session_lost_example :
    IsLost
      (entries ℕ)
      src
      1
      (ended (entries ℕ) text udp (pos 10) (pos 20) (pos 21) src [] 0 one.0 one.1)
unfolding handle frame find_or_dial change bytes_eq ◌-ℤ◌
session_lost_example =
    session_lost (entries ℕ) text udp (pos 10) (pos 20) (pos 21) src [] 0 one.0 one.1 udp_known
      (Reachable-IsTracked (entries ℕ) one_reached).0 refl refl
