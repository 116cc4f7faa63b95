-- ===== src/Socks5/Meets.antt =====
-- core/socks5/client.go and server.go: the client's handshake with the server's.
use jocasta.Prelude.{
  ℕ, suc, ◌+◌, ◌*◌, ◌/◌, ◌%◌, ◌≤◌, ◌<◌, ◌≡◌, refl, true, false, none, some, List, [], ◌∷◌, ◌++◌,
  length, arith, lt→leb, le→leb,
}
use jocasta.Prelude.Int.{pos}
use jocasta.Go.Result.{ok}
use jocasta.Go.Io.{Bytes}
use jocasta.Go.Conn.{fresh_conn, read_full, read_whole, write_ok, take_chunks}
use jocasta.Go.Slice.{index, slice}
use jocasta.Go.Net.{AddrText, ipv4, to4, to16}
use jocasta.Go.HostPort.{split_host_port, join_host_port, atoi}
use jocasta.Socks5.{version_v5, atyp_ipv4, atyp_domain}
use jocasta.Socks5.Packet.{itoa}
use jocasta.Socks5.Auth.{reply_fail, read_request_fail}
use jocasta.Socks5.Methods.{MethodsRequest, new_methods_request, select, padded}
use jocasta.Socks5.Request.{Request, new_reply}
use jocasta.Socks5.Request.Reads.{domain_request, domain_read, new_request-domain, fits}
use jocasta.Socks5.Server.Refuses.{methods_phase_lem}
use jocasta.Socks5.Server.{
  Settings, Server, new_server, handshake, method_phase, request_phase, command_phase, take_request,
  send_reply, any_addr, cmd_connect,
}
use jocasta.Socks5.Client.{
  Client, ClientError, tcp, sends_auth, greeting_write_fail, client_handshake, negotiate,
  request_addr, request_bytes, read_reply, address_text, in_range, request_write_fail,
}

-- "0.0.0.0"
abbrev pub any_host : Bytes
any_host = 48 ∷ 46 ∷ 48 ∷ 46 ∷ 48 ∷ 46 ∷ 48 ∷ []

abbrev pub any_ip : Bytes
any_ip = 0 ∷ 0 ∷ 0 ∷ 0 ∷ []

-- The reply to a request that is granted.
abbrev pub granted : Bytes
granted = version_v5 ∷ 0 ∷ 0 ∷ atyp_ipv4 ∷ 0 ∷ 0 ∷ 0 ∷ 0 ∷ 0 ∷ 0 ∷ []

abbrev pub answers : List Bytes
answers = (version_v5 ∷ 0 ∷ []) ∷ granted ∷ []

abbrev pub requests : Bytes → ℕ → List Bytes
requests host port =
    (version_v5 ∷ 1 ∷ 0 ∷ [])
    ∷ domain_request cmd_connect (length host % 256) host (port / 256 % 256) (port % 256)
    ∷ []

new_reply-granted :
    (t : AddrText) → t.parse_ip any_host ≡ some (ipv4 any_ip) → new_reply t 0 any_addr ≡ ok granted
unfolding new_reply split_host_port to16 to4 atoi
new_reply-granted t h = rw (split_host_port, h) refl

read_two :
    (e : ClientError) (a b room : ℕ) (rest w : List Bytes)
    → read_full e 2 (record { pending = (a ∷ b ∷ []) ∷ rest; room = room; written = w })
      ≡ (ok (a ∷ b ∷ []), record { pending = rest; room = room; written = w })
unfolding read_full take_chunks
read_two e a b room rest w = refl

module _ (t : AddrText) (s : Client) (w : List Bytes) where
  negotiate_lem :
      (rest : List Bytes) (room : ℕ)
      → sends_auth s ≡ false
      → negotiate s (fresh_conn ((version_v5 ∷ 0 ∷ []) ∷ rest) (suc room))
        ≡ (ok tt, record { pending = rest; room = room; written = (version_v5 ∷ 1 ∷ 0 ∷ []) ∷ [] })
  unfolding negotiate
  negotiate_lem rest room h =
      rw (write_ok greeting_write_fail ((version_v5 ∷ 0 ∷ []) ∷ rest) [] room, read_two, h) refl

  read_reply_lem :
      (room : ℕ)
      → read_reply t (record { pending = granted ∷ []; room = room; written = w }) ≡ (
        ok (join_host_port (address_text t any_ip) (itoa 0)),
        record { pending = []; room = room; written = w },
      )
  unfolding read_reply read_full take_chunks to4
  read_reply_lem room = refl

request_addr-domain :
    (t : AddrText) (host : Bytes)
    → t.parse_ip host ≡ none
    → length host ≤ 255
    → request_addr t host ≡ ok (atyp_domain ∷ length host % 256 ∷ host)
unfolding request_addr
request_addr-domain t host ip l = rw (request_addr, ip, le→leb (length host) 255 l) refl

module _ (t : AddrText) (s : Client) (host digits : Bytes) (port : ℕ) where
  client_lem :
      s.network ≡ tcp
      → sends_auth s ≡ false
      → split_host_port s.addr ≡ ok (host, digits)
      → atoi digits ≡ ok (pos port)
      → 0 < port
      → port < 65536
      → t.parse_ip host ≡ none
      → length host ≤ 255
      → client_handshake t s (fresh_conn answers 2) ≡ (
        ok (join_host_port (address_text t any_ip) (itoa 0)),
        record { pending = []; room = 0; written = requests host port },
      )
  unfolding client_handshake request_bytes
  client_lem n a sp at lo hi ip l =
      rw
        (
          sp,
          at,
          n,
          range,
          negotiate_lem t s [] (granted ∷ []) 1 a,
          request_addr-domain t host ip l,
          write_ok request_write_fail (granted ∷ []) ((version_v5 ∷ 1 ∷ 0 ∷ []) ∷ []) 0,
        )
        (read_reply_lem t s (requests host port) 0)
    where
      range : in_range tcp (pos port) ≡ true
      range = ground arith

abbrev offer : MethodsRequest
offer = record {
  ver = version_v5;
  methods_count = 1;
  methods = 0 ∷ [];
  bytes = version_v5 ∷ 1 ∷ 0 ∷ [];
}

module _ (e : Settings) (host : Bytes) (port : ℕ) where
  abbrev pub agreed : Server
  agreed = record {
    target = join_host_port host (itoa port);
    auth_user = [];
    auth_password = [];
    user = [];
    password = [];
    methods_count = 1;
    methods = 0 ∷ [];
    method = 0;
    cmd = cmd_connect;
    reserve = 0;
    address_type = atyp_domain;
    dst_addr = join_host_port host (itoa port);
    dst_port = itoa port;
    dst_host = host;
  }

  methods_lem :
      length e.header < 2 → new_methods_request e.header (version_v5 ∷ 1 ∷ 0 ∷ []) ≡ ok offer
  unfolding new_methods_request padded index slice
  methods_lem h = rw (lt→leb 2 (length e.header) h) refl

  method_lem :
      (r : MethodsRequest) (rest : List Bytes) (room : ℕ)
      → e.center ≡ none
      → r.methods ≡ 0 ∷ []
      → method_phase e r new_server (fresh_conn rest (suc room)) ≡ (
        ok (record new_server { method = 0 }),
        record { pending = rest; room = room; written = (version_v5 ∷ 0 ∷ []) ∷ [] },
      )
  unfolding method_phase select
  method_lem r rest room c m = rw (c, m, write_ok reply_fail rest [] room) refl

  request_lem :
      (room : ℕ) (w : List Bytes) (cmd l hi lo : ℕ)
      → length host ≤ 255
      → request_phase e
          (record { pending = domain_request cmd l host hi lo ∷ []; room = room; written = w })
        ≡ (
          ok (domain_read e.text cmd l hi lo host),
          record { pending = []; room = room; written = w },
        )
  unfolding request_phase take_request
  request_lem room w cmd l hi lo h =
      rw
        (
          read_whole read_request_fail [] w room 1024 (domain_request cmd l host hi lo)
              (fits e.text cmd l hi lo host (omega arith)),
          new_request-domain e.text cmd l hi lo host (omega arith),
        )
        refl

  command_lem :
      (r : Request) (w : List Bytes)
      → r.cmd ≡ cmd_connect
      → e.text.parse_ip any_host ≡ some (ipv4 any_ip)
      → command_phase e r (record { pending = []; room = 1; written = w })
        ≡ (ok tt, record { pending = []; room = 0; written = w ++ granted ∷ [] })
  unfolding command_phase send_reply
  command_lem r w c g = rw (c, new_reply-granted e.text g, write_ok reply_fail [] w 0) refl

  server_lem :
      length host ≤ 255
      → port < 65536
      → e.center ≡ none
      → length e.header < 2
      → e.text.parse_ip any_host ≡ some (ipv4 any_ip)
      → handshake e new_server (fresh_conn (requests host port) 2)
        ≡ (ok agreed, record { pending = []; room = 0; written = answers })
  unfolding handshake new_server
  server_lem l p c h g =
      let w = (version_v5 ∷ 0 ∷ []) ∷ [] in
      let message =
        domain_request cmd_connect (length host % 256) host (port / 256 % 256) (port % 256) in
      let read =
        domain_read e.text cmd_connect (length host % 256) (port / 256 % 256) (port % 256) host in
      let digits : port / 256 % 256 * 256 + port % 256 ≡ port = omega arith in
      rw
        (
          methods_phase_lem e (version_v5 ∷ 1 ∷ 0 ∷ []) message [] 2 2 h (omega arith)
              (methods_lem h),
          method_lem offer (message ∷ []) 1 c refl,
          request_lem 1 w cmd_connect (length host % 256) (port / 256 % 256) (port % 256) l,
          command_lem read w refl g,
        )
        (rw digits refl)

-- A client of TCP that sends no password and a server without a center come to terms about every domain
-- of at most 255 bytes and every port: each reads what the other writes, and the server's target is the
-- host with the port that the client was asked for. The resolver knows that the host is no IP address and
-- that 0.0.0.0 is one.
pub handshakes_meet :
    (e : Settings) (s : Client) (host digits : Bytes) (port : ℕ)
    → s.network ≡ tcp
    → sends_auth s ≡ false
    → split_host_port s.addr ≡ ok (host, digits)
    → atoi digits ≡ ok (pos port)
    → 0 < port
    → port < 65536
    → length host ≤ 255
    → e.text.parse_ip host ≡ none
    → e.text.parse_ip any_host ≡ some (ipv4 any_ip)
    → e.center ≡ none
    → length e.header < 2
    → (client_handshake e.text s (fresh_conn answers 2) ≡ (
      ok (join_host_port (address_text e.text any_ip) (itoa 0)),
      record { pending = []; room = 0; written = requests host port },
    ))
      × (handshake e new_server (fresh_conn (requests host port) 2)
          ≡ (ok (agreed e host port), record { pending = []; room = 0; written = answers }))
handshakes_meet e s host digits port n a sp at lo hi l ip g c h =
    (client_lem e.text s host digits port n a sp at lo hi ip l, server_lem e host port l hi c h g)
