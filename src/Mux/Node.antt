-- ===== src/Mux/Node.antt =====
-- services/mux/server.go and client.go: how a node joins its bridge. Dialing is a parameter, and so is
-- whether smux makes a session on the connection and opens a stream.
pub mod Meets
pub mod Sessions
mod Tests
use jocasta.Prelude.{ℕ, Bool, true, false, Option, none, some, List, [], ◌∷◌, ◌==◌, if◌then◌else◌}
use jocasta.Go.Result.{Result, ok, err, panic}
use jocasta.Go.Io.{Bytes}
use jocasta.Go.Net.{at}
use jocasta.Go.Text.{ascii}
use jocasta.Go.Conn.{Conn, Exec, pure, fail, crash, write, read_full, ◌>>=◌, ◌>>◌}
use jocasta.Through.{
  Codec, NegotiateRequest, negotiate_request_bytes, types_client, types_server, version,
  rep_success,
}
use jocasta.Mux.Bridge.{Nego}

pub data NodeError : Type 0 where
  dial_fail bad_message write_fail read_fail refused session_fail open_fail : NodeError

-- The messages of the two kinds of nodes.
abbrev pub server_request : Bytes → Bytes → NegotiateRequest Nego
server_request sk id = record {
  types = types_server;
  version = version;
  nego = record { secret_key = sk; id = id };
}

abbrev pub client_request : Bytes → NegotiateRequest Nego
client_request sk = record {
  types = types_client;
  version = version;
  nego = record { secret_key = sk; id = ascii "reserved" };
}

abbrev pub granted : ℕ → Exec NodeError (Unit {0})
granted status = if status == rep_success then pure tt else fail refused

-- The negotiation on a connection to the bridge.
unfoldable pub join : Codec Nego → NegotiateRequest Nego → Exec NodeError (Unit {0})
join codec r = elim (negotiate_request_bytes codec r) [
  | err _ ↦ fail bad_message
  | panic ↦ crash
  | ok message ↦ do write write_fail message; reply ← read_full read_fail 2; granted (at reply 0)
]

-- What the bridge's connection and the session on it do in one call.
pub record Parent : Type 0 where
  pub conn : Option Conn
  pub makes : Bool
  pub opens : Bool

-- What a call of GetConn leaves: its result, whether the node has a session, and whether the
-- connection to the bridge has been closed.
pub record Got : Type 0 where
  pub result : Result NodeError (Unit {0})
  pub session : Bool
  pub closed : Bool

-- The connection is closed after a failed write or read alone.
abbrev pub closes : NodeError → Bool
closes write_fail = true
closes read_fail = true
closes dial_fail = false
closes bad_message = false
closes refused = false
closes session_fail = false
closes open_fail = false

-- A session that opens no stream is closed, and its connection with it.
abbrev pub open_stream : Bool → Got
open_stream opens =
    if opens
    then record { result = ok tt; session = true; closed = false }
    else record { result = err open_fail; session = false; closed = true }

-- The end of the negotiation.
abbrev pub start_session : Parent → Result NodeError (Unit {0}) → Got
start_session p (err e) = record { result = err e; session = false; closed = closes e }
start_session p panic = record { result = panic; session = false; closed = false }
start_session p (ok _) =
    if p.makes
    then open_stream p.opens
    else record { result = err session_fail; session = false; closed = false }

-- (*Server).GetConn, given whether there is a session.
unfoldable pub get_conn : Codec Nego → Bytes → Bytes → Parent → Bool → Got
unfolding join
get_conn codec sk id p session =
    let dialed : Got = elim p.conn [
      | none ↦ record { result = err dial_fail; session = false; closed = false }
      | some c ↦ start_session p (join codec (server_request sk id) c).0
    ] in
    if session then open_stream p.opens else dialed
