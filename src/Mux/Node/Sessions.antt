-- ===== src/Mux/Node/Sessions.antt =====
-- services/mux/server.go: what a call of GetConn leaves.
use jocasta.Prelude.{◌≡◌, refl, ap, Bool, true, false, inl, inr, Bool-cases, Option-cases}
use jocasta.Go.Result.{Result, ok, err, panic}
use jocasta.Go.Io.{Bytes}
use jocasta.Through.{Codec}
use jocasta.Mux.Bridge.{Nego}
use jocasta.Mux.Node.{
  NodeError, refused, closes, Parent, Got, open_stream, start_session, server_request, join,
  get_conn,
}

abbrev pub is_ok : Result NodeError (Unit {0}) → Bool
is_ok (ok _) = true
is_ok (err _) = false
is_ok panic = false

abbrev IsSettled : Got → Type 0
IsSettled g = (g.session ≡ is_ok g.result) × (g.result ≡ err refused → g.closed ≡ false)

open_stream-IsSettled : (opens : Bool) → IsSettled (open_stream opens)
open_stream-IsSettled true = (refl, λ h. cc)
open_stream-IsSettled false = (refl, λ h. cc)

start_session-IsSettled :
    (p : Parent) (r : Result NodeError (Unit {0})) → IsSettled (start_session p r)
start_session-IsSettled p (err e) = (refl, λ h. let same : e ≡ refused = cc in ap closes same)
start_session-IsSettled p panic = (refl, λ h. refl)
start_session-IsSettled p (ok _) = elim (Bool-cases p.makes) [
  | inl m ↦ rw m (open_stream-IsSettled p.opens)
  | inr m ↦ rw m (refl, λ h. refl)
]

-- Behind a call of GetConn the node has a session just if the call gave a stream, whatever failed
-- on the way. But the connection to a bridge that refuses the node is left open.
pub get_conn_lem :
    (codec : Codec Nego) (sk id : Bytes) (p : Parent) (session : Bool)
    → ((get_conn codec sk id p session).session ≡ is_ok (get_conn codec sk id p session).result)
      × ((get_conn codec sk id p session).result ≡ err refused
          → (get_conn codec sk id p session).closed ≡ false)
unfolding get_conn
get_conn_lem codec sk id p true = open_stream-IsSettled p.opens
get_conn_lem codec sk id p false = elim (Option-cases p.conn) [
  | inl n ↦ rw (get_conn, n) (refl, λ h. refl)
  | inr c ↦ rw (get_conn, c.1) (start_session-IsSettled p (join codec (server_request sk id) c.0).0)
]
