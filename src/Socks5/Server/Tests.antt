-- ===== src/Socks5/Server/Tests.antt =====
-- Handshakes on small messages.
use jocasta.Prelude.{◌≡◌, refl, Bool, true, false, Option, none, some, [], ◌∷◌, arith}
use jocasta.Go.Result.{ok, err, panic}
use jocasta.Go.Io.{Bytes}
use jocasta.Go.Conn.{fresh_conn}
use jocasta.Go.Slice.{index, slice, slice_from}
use jocasta.Go.Net.{AddrText, bytes_eq, ipv4}
use jocasta.Go.HostPort.{split_host_port, join_host_port, atoi}
use jocasta.Filter.FunctionMap.{function_map, put}
use jocasta.BasicAuth.{verify}
use jocasta.Socks5.Packet.{itoa}
use jocasta.Socks5.Auth.{credentials, auth_fail}
use jocasta.Socks5.Methods.{new_methods_request, select, padded}
use jocasta.Socks5.Server.{Settings, new_server, handshake}
use jocasta.Socks5.Server.Refuses.{handshake_refuses}
use jocasta.Socks5.Server.Messages.{handshake_panics}
use jocasta.Socks5.Client.{Client, tcp, client_handshake, address_text}
use jocasta.Socks5.Meets.{handshakes_meet, answers, requests, any_ip, agreed}

-- "0.0.0.0" is the only address.
abbrev text : AddrText
text = record {
  parse_ip = λ s. elim (bytes_eq s (48 ∷ 46 ∷ 48 ∷ 46 ∷ 48 ∷ 46 ∷ 48 ∷ [])) [
    | true ↦ some (ipv4 (0 ∷ 0 ∷ 0 ∷ 0 ∷ []))
    | false ↦ none
  ];
  ip_string = λ ip. [];
}

abbrev settings : Option (Bytes → Bytes → Bytes → Bytes → Bool) → Settings
settings center = record {
  center = center;
  header = [];
  enable_udp = false;
  udp_ip = [];
  remote_addr = [];
  local_addr = [];
  listen_udp = none;
  text = text;
}

-- The user "a" with the password "b".
abbrev users : Bytes → Option Bytes
users = put Bytes (97 ∷ []) (98 ∷ []) (λ _. none)

abbrev center : Bytes → Bytes → Bytes → Bytes → Bool
center pair _ _ _ = verify (function_map Bytes) (λ _ _. false) pair users

abbrev methods : Bytes
methods = 5 ∷ 1 ∷ 2 ∷ []

abbrev message : Bytes
message = 1 ∷ 1 ∷ 97 ∷ 1 ∷ 98 ∷ []

abbrev client : Client
client = record { user = 97 ∷ []; password = 98 ∷ []; addr = []; network = tcp }

handshake_refuses_example :
    handshake (settings (some center)) new_server (fresh_conn (methods ∷ message ∷ []) 2)
    ≡ (err auth_fail, record { pending = []; room = 0; written = (5 ∷ 2 ∷ []) ∷ (1 ∷ 1 ∷ []) ∷ [] })
unfolding bytes_eq new_methods_request padded select credentials index slice slice_from
handshake_refuses_example =
    handshake_refuses (function_map Bytes) users (λ _ _. false) (settings (some center)) methods
      message [] 0 refl refl refl (omega arith) (omega arith) refl refl (omega arith) refl

handshake_panics_example :
    (handshake (settings none) new_server (fresh_conn (methods ∷ (1 ∷ 9 ∷ []) ∷ []) 1)).0 ≡ panic
unfolding new_methods_request padded select index slice
handshake_panics_example =
    handshake_panics (settings none) methods [] [] 1 9 0 (omega arith) (omega arith) refl refl
      (omega arith) (omega arith)

-- "a:80"
abbrev caller : Client
caller = record { user = []; password = []; addr = 97 ∷ 58 ∷ 56 ∷ 48 ∷ []; network = tcp }

handshakes_meet_example :
    (client_handshake text caller (fresh_conn answers 2) ≡ (
      ok (join_host_port (address_text text any_ip) (itoa 0)),
      record { pending = []; room = 0; written = requests (97 ∷ []) 80 },
    ))
    × (handshake (settings none) new_server (fresh_conn (requests (97 ∷ []) 80) 2) ≡ (
      ok (agreed (settings none) (97 ∷ []) 80),
      record { pending = []; room = 0; written = answers },
    ))
unfolding split_host_port atoi bytes_eq
handshakes_meet_example =
    handshakes_meet (settings none) caller (97 ∷ []) (56 ∷ 48 ∷ []) 80 refl refl refl refl
      (omega arith) (omega arith) (omega arith) refl refl refl (omega arith)
