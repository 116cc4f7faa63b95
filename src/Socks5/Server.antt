-- ===== src/Socks5/Server.antt =====
-- core/socks5/server.go: the handshake of the server. The center's Verify is a parameter, and so is
-- the local address that net.ListenUDP gives.
pub mod Refuses
pub mod Messages
mod Tests
use jocasta.Prelude.{
  ℕ, zero, suc, ◌+◌, ◌%◌, Bool, true, false, not, ◌&&◌, Option, none, some, List, [], ◌∷◌, ◌++◌,
  length, take, drop, leb, ◌==◌, if◌then◌else◌,
}
use jocasta.Go.Result.{Result, ok, err, panic, map_err}
use jocasta.Go.Io.{Bytes}
use jocasta.Go.Conn.{
  Conn, Exec, ◌>>=◌, ◌>>◌, pure, fail, lift, crash, ignore, continue, read, write,
}
use jocasta.Go.Net.{AddrText}
use jocasta.Go.HostPort.{split_host_port, join_host_port}
use jocasta.BasicAuth.{fields, format}
use jocasta.Socks5.{Error, version_v5, version_not_supported}
use jocasta.Socks5.Auth.{
  ServerError, credentials, methods_request_fail, reply_fail, none_method, read_auth_fail,
  answer_auth_fail, auth_fail, read_request_fail, bind_not_supported, associate_not_supported,
  udp_bind_fail,
}
use jocasta.Socks5.Methods.{MethodsRequest, new_methods_request, select}
use jocasta.Socks5.Request.{Request, new_request, new_reply, host_or_empty}

abbrev pub no_auth : ℕ
no_auth = 0

abbrev pub user_pass : ℕ
user_pass = 2

abbrev pub none_acceptable : ℕ
none_acceptable = 255

abbrev pub cmd_connect : ℕ
cmd_connect = 1

abbrev pub cmd_bind : ℕ
cmd_bind = 2

abbrev pub cmd_associate : ℕ
cmd_associate = 3

abbrev pub rep_success : ℕ
rep_success = 0

abbrev pub rep_req_fail : ℕ
rep_req_fail = 1

abbrev pub rep_unknown : ℕ
rep_unknown = 9

-- "0.0.0.0:0"
abbrev pub any_addr : Bytes
any_addr = 48 ∷ 46 ∷ 48 ∷ 46 ∷ 48 ∷ 46 ∷ 48 ∷ 58 ∷ 48 ∷ []

-- What the server is made of: the center, if there is one, with the pair, the user's and the local
-- address, and the url; what is known of the connection.
pub record Settings : Type 0 where
  pub center : Option (Bytes → Bytes → Bytes → Bytes → Bool)
  pub header : Bytes
  pub enable_udp : Bool
  pub udp_ip : Bytes
  pub remote_addr : Bytes
  pub local_addr : Bytes
  -- net.ListenUDP: the address of the listener, or an error.
  pub listen_udp : Option Bytes
  pub text : AddrText

-- The fields of Server that Handshake reads and sets.
pub record Server : Type 0 where
  pub target : Bytes
  pub auth_user : Bytes
  pub auth_password : Bytes
  pub user : Bytes
  pub password : Bytes
  pub methods_count : ℕ
  pub methods : Bytes
  pub method : ℕ
  pub cmd : ℕ
  pub reserve : ℕ
  pub address_type : ℕ
  pub dst_addr : Bytes
  pub dst_port : Bytes
  pub dst_host : Bytes

-- NewServer
unfoldable pub new_server : Server
new_server = record {
  target = [];
  auth_user = [];
  auth_password = [];
  user = [];
  password = [];
  methods_count = 0;
  methods = [];
  method = 0;
  cmd = 0;
  reserve = 0;
  address_type = 0;
  dst_addr = [];
  dst_port = [];
  dst_host = [];
}

-- IsUDP and IsTCP
pub is_udp : Server → Bool
is_udp s = s.cmd == cmd_associate

pub is_tcp : Server → Bool
is_tcp s = s.cmd == cmd_connect

-- strings.Split(addr, ":")[0]
abbrev pub front_field : List Bytes → Bytes
front_field [] = []
front_field (x ∷ xs) = x

abbrev pub is_none {ℓ} : {A : Type ℓ} → Option A → Bool
is_none none = true
is_none (some _) = false

-- The methods request: a refusal is written for what is none, also if that fails.
unfoldable pub methods_phase : Settings → Exec ServerError MethodsRequest
methods_phase e c =
    let refuse : Exec ServerError MethodsRequest =
      ignore (write reply_fail (version_v5 ∷ none_acceptable ∷ [])) >> fail methods_request_fail in
    let accept : Result Error MethodsRequest → Exec ServerError MethodsRequest =
      λ r. elim r [ ok m ↦ pure m | err _ ↦ refuse | panic ↦ crash ] in
    let from_read : Exec ServerError MethodsRequest = λ c.
      let p = read methods_request_fail 300 c in
      elim p.0 [
        | ok b ↦ accept (new_methods_request e.header b) p.1
        | err _ ↦ refuse p.1
        | panic ↦ (panic, p.1)
      ] in
    if leb 2 (length e.header) then accept (new_methods_request e.header []) c else from_read c

-- The center is asked about the fields `user` and `password`.
unfoldable pub accepted : Settings → Server → Bool
accepted e s = elim e.center [
  | none ↦ true
  | some verify ↦
      verify (format s.user s.password) (front_field (fields e.remote_addr))
        (front_field (fields e.local_addr)) []
]

-- The user and the password are read, into the fields `auth_user` and `auth_password`.
unfoldable pub auth_phase : Settings → Server → Exec ServerError Server
unfolding accepted
auth_phase e s = do
  r ← read read_auth_fail 500
  up ← lift (credentials r)
  let s' = record s { auth_user = up.0; auth_password = up.1 }
  if accepted e s'
      then write answer_auth_fail (1 ∷ 0 ∷ []) >> pure s'
      else write answer_auth_fail (1 ∷ 1 ∷ []) >> fail auth_fail

-- The method that is agreed on.
unfoldable pub method_phase : Settings → MethodsRequest → Server → Exec ServerError Server
unfolding auth_phase
method_phase e m s =
    let offers : ℕ → Bool = λ k. select k m.methods in
    if is_none e.center && (offers no_auth && not (offers user_pass))
    then write reply_fail (version_v5 ∷ no_auth ∷ []) >> pure (record s { method = no_auth })
    else if not (offers user_pass)
    then ignore (write reply_fail (version_v5 ∷ none_acceptable ∷ [])) >> fail none_method
    else write reply_fail (version_v5 ∷ user_pass ∷ [])
      >> auth_phase e (record s { method = user_pass })

-- The error of a reply that panics is of no account.
abbrev pub reply_bytes : Settings → ℕ → Bytes → Exec ServerError Bytes
reply_bytes e rep addr = lift (map_err (λ _. reply_fail) (new_reply e.text rep addr))

unfoldable pub send_reply : Settings → ℕ → Bytes → Exec ServerError (Unit {0})
send_reply e rep addr = reply_bytes e rep addr >>= write reply_fail

-- What comes of the request: one of another version is also answered.
unfoldable pub take_request : Settings → Result Error Request → Exec ServerError Request
unfolding send_reply
take_request e (ok r) = pure r
take_request e (err _) = ignore (send_reply e rep_req_fail any_addr) >> fail read_request_fail
take_request e panic = crash

-- NewRequest on the connection.
unfoldable pub request_phase : Settings → Exec ServerError Request
unfolding take_request
request_phase e = read read_request_fail 1024 >>= λ b. take_request e (new_request e.text b)

-- UDP is bound, and the port of the listener is told.
unfoldable pub associate : Settings → Exec ServerError (Unit {0})
unfolding send_reply
associate e =
    if not e.enable_udp
    then send_reply e rep_unknown any_addr >> fail associate_not_supported
    else elim e.listen_udp [
      | none ↦ ignore (send_reply e rep_unknown any_addr) >> fail udp_bind_fail
      | some bound ↦
          send_reply e rep_success
            (join_host_port e.udp_ip (host_or_empty (split_host_port bound)).1)
    ]

-- The switch on the command; any other one is passed over without a reply.
unfoldable pub command_phase : Settings → Request → Exec ServerError (Unit {0})
unfolding send_reply associate
command_phase e r =
    if r.cmd == cmd_bind
    then send_reply e rep_unknown any_addr >> fail bind_not_supported
    else if r.cmd == cmd_connect
    then send_reply e rep_success any_addr
    else if r.cmd == cmd_associate
    then associate e
    else pure tt

-- (*Server).Handshake. What a handshake that fails wrote into the server is not used.
unfoldable pub handshake : Settings → Server → Exec ServerError Server
unfolding methods_phase method_phase request_phase command_phase
handshake e s = do
  m ← methods_phase e
  s' ← method_phase e m s
  r ← request_phase e
  command_phase e r
  pure (record s' {
    target = r.dst_addr;
    methods_count = m.methods_count;
    methods = m.methods;
    cmd = r.cmd;
    reserve = r.reserve;
    address_type = r.address_type;
    dst_addr = r.dst_addr;
    dst_host = r.dst_host;
    dst_port = r.dst_port;
  })
