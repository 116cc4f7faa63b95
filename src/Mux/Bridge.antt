-- ===== src/Mux/Bridge.antt =====
-- services/mux/bridge.go: the sessions of the nodes. Sessions are held by pointer: the tables have the
-- place of a session in a store. What smux does on a connection is a parameter: whether it makes a session,
-- and whether a session opens a stream.
pub mod Sound
pub mod Newest
pub mod Runs
pub mod Binds
pub mod Swept
mod Tests
use jocasta.Prelude.{
  ℕ, zero, suc, Bool, true, false, Option, none, some, List, [], ◌∷◌, ◌==◌, if◌then◌else◌,
}
use jocasta.Prelude.Int.{ℤ}
use jocasta.Go.Result.{Result, ok, err, panic}
use jocasta.Go.Io.{Bytes, Reader}
use jocasta.Connection.Manager.{SharedMap, Collector, visit}
use jocasta.Through.{
  Codec, NegotiateRequest, parse_negotiate_request, types_client, types_server, rep_success,
  rep_server_failure, rep_types_not_support,
}

-- ddt.NegotiateRequest
pub record Nego : Type 0 where
  pub secret_key : Bytes
  pub id : Bytes

pub data Role : Type 0 where
  client server : Role

-- A session, with the key under which its table has it: the secret key of a client node, the address
-- of a server node.
pub record Session : Type 0 where
  pub role : Role
  pub key : Bytes
  pub closed : Bool

pub record Store : Type 0 where
  pub session : ℕ → Session
  pub made : ℕ

abbrev pub close : Session → Session
close s = record s { closed = true }

unfoldable pub close_at : ℕ → Store → Store
close_at i s = record s { session = λ j. if i == j then close (s.session j) else s.session j }

unfoldable pub add : Session → Store → Store
add new s = record { session = λ j. if s.made == j then new else s.session j; made = suc s.made }

-- A connection that comes in: what is read of it, its address, and whether smux makes a session on it.
pub record Incoming : Type 0 where
  pub reader : Reader
  pub addr : Bytes
  pub makes : Bool

-- What handler does to the connection: the status of its reply, and whether it closes it.
pub record Outcome : Type 0 where
  pub status : Option ℕ
  pub closes : Bool

-- The callback that NewBridge gives the manager.
abbrev pub collector : Collector ℕ Store
collector = record { due = λ now k i s. (s.session i).closed; release = λ k i s. close_at i s }

-- What OpenStream answers.
pub data Opening : Type 0 where
  opened closed_pipe open_fails : Opening

-- What one turn of the retries in proxyStream comes to.
pub data Attempt : Type 0 where
  bound : ℕ → Attempt
  permanent again : Attempt

module _ (Conns : SharedMap ℕ) where
  -- Bridge
  pub record Bridge : Type 0 where
    pub store : Store
    pub clients : Conns.carrier
    pub servers : Conns.carrier

  -- The callbacks of Upsert close the session that is there.
  unfoldable pub close_old : Option ℕ → Store → Store
  unfolding close_at
  close_old none s = s
  close_old (some i) s = close_at i s

  unfoldable pub take_server : Bytes → Bridge → Bridge
  unfolding close_old add
  take_server addr b = record {
    store =
        add (record { role = server; key = addr; closed = false })
          (close_old (Conns.get addr b.servers) b.store);
    clients = b.clients;
    servers = Conns.set addr b.store.made b.servers;
  }

  unfoldable pub take_client : Bytes → Bridge → Bridge
  unfolding close_old add
  take_client sk b = record {
    store =
        add (record { role = client; key = sk; closed = false })
          (close_old (Conns.get sk b.clients) b.store);
    clients = Conns.set sk b.store.made b.clients;
    servers = b.servers;
  }

  -- The switch of handler on the type of the node.
  unfoldable pub take : Incoming → NegotiateRequest Nego → Bridge → Outcome × Bridge
  unfolding take_server take_client
  take c r b =
      let failed : Outcome × Bridge =
        (record { status = some rep_server_failure; closes = true }, b) in
      let joined : Bridge → Outcome × Bridge =
        λ b'. (record { status = some rep_success; closes = false }, b') in
      if r.types == types_server
      then (if c.makes then joined (take_server c.addr b) else failed)
      else if r.types == types_client
      then (if c.makes then joined (take_client r.nego.secret_key b) else failed)
      else (record { status = some rep_types_not_support; closes = false }, b)

  -- handler, up to the loop over the streams of a server node.
  unfoldable pub handler : Codec Nego → Incoming → Bridge → Outcome × Bridge
  unfolding take
  handler codec c b =
      let dropped : Outcome × Bridge = (record { status = none; closes = true }, b) in
      elim (parse_negotiate_request codec c.reader) [
        | err _ ↦ dropped
        | panic ↦ dropped
        | ok p ↦ take c p.0 b
      ]

  -- The end of this loop: what handler deferred.
  unfoldable pub server_ends : Bytes → ℕ → Bridge → Bridge
  unfolding close_at
  server_ends addr i b = record b {
    store = close_at i b.store;
    servers = Conns.remove addr b.servers;
  }

  -- A session ends from the other side.
  unfoldable pub lost : ℕ → Bridge → Bridge
  unfolding close_at
  lost i b = record b { store = close_at i b.store }

  -- One turn of the loop at a tick of the manager, for an entry that the table had when the tick began.
  unfoldable pub turn : ℤ → Bytes → ℕ → Bridge → Bridge
  turn now k i b =
      let p = visit Conns collector now k i (b.store, b.clients) in
      record b { store = p.0; clients = p.1 }

  unfoldable pub close_all : List (Bytes × ℕ) → Store → Store
  unfolding close_at
  close_all [] s = s
  close_all ((k, i) ∷ es) s = close_all es (close_at i s)

  -- Stop
  unfoldable pub stop : Bridge → Bridge
  unfolding close_all
  stop b = record b {
    store = close_all (Conns.items b.servers) (close_all (Conns.items b.clients) b.store);
  }

  -- One turn, given whether the server's stream is over and what OpenStream answers.
  unfoldable pub attempt : Bytes → Bool → Opening → Bridge → Attempt
  attempt sk dies opening b =
      let answer : ℕ → Attempt =
        λ i. elim opening [ opened ↦ bound i | closed_pipe ↦ permanent | open_fails ↦ again ] in
      let try : Option ℕ → Attempt = λ o. elim o [
        | none ↦ again
        | some i ↦ if (b.store.session i).closed then permanent else answer i
      ] in
      if dies then permanent else try (Conns.get sk b.clients)

-- backoff.Retry with a maximum of retries, on the turns from the `k`th on.
unfoldable pub retry : ℕ → (ℕ → Attempt) → ℕ → Option ℕ
retry zero turns k = elim (turns k) [ bound i ↦ some i | permanent ↦ none | again ↦ none ]
retry (suc n) turns k =
    let more = retry n turns (suc k) in
    elim (turns k) [ bound i ↦ some i | permanent ↦ none | again ↦ more ]

-- backoff.WithMaxRetries(..., 10)
abbrev pub max_retries : ℕ
max_retries = 10
