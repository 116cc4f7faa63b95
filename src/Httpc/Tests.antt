-- ===== src/Httpc/Tests.antt =====
-- A CONNECT request with credentials, and an authority that lets all through.
use jocasta.Prelude.{◌≡◌, refl, Bool, true, false, some, [], ◌∷◌, ◌++◌}
use jocasta.Go.Result.{ok}
use jocasta.Go.Slice.{index}
use jocasta.Go.Io.{Bytes}
use jocasta.Go.HostPort.{has_byte}
use jocasta.Go.Text.{ascii}
use jocasta.Go.Net.{bytes_eq}
use jocasta.Go.HostPort.{index_byte}
use jocasta.Go.Text.{cut, split_lines, to_upper}
use jocasta.BasicAuth
use jocasta.Sni.{peek, get_servername, server_name_from_bytes}
use jocasta.Httpc.{
  Settings, Request, words, trim_left, trim_right, get_header, user_pass_pair, method_and_target,
  basic_auth, finish, is_https, first_field, new,
}
use jocasta.Httpc.Verified.{new_verified}

abbrev lets_through : Bytes → Bytes → Bytes → Bytes → Bool
lets_through user remote local url = true

abbrev settings : Settings
settings = record {
  decode = some;
  url_host = some;
  remote_addr = ascii "10.0.0.1:80";
  local_addr = ascii "10.0.0.2:80";
  center = some lets_through;
}

abbrev crlf : Bytes
crlf = 13 ∷ 10 ∷ []

abbrev raw : Bytes
raw =
    ascii "CONNECT a HTTP/1.1"
    ++ (crlf ++ (ascii "Proxy-Authorization: Basic u:p" ++ (crlf ++ crlf)))

abbrev request : Request
request = record {
  raw_header = raw;
  host = ascii "a:443";
  method = ascii "CONNECT";
  raw_url = [];
  is_sni = false;
}

new_request : (new settings (some raw)).0 ≡ ok request
unfolding new method_and_target basic_auth finish peek get_servername server_name_from_bytes index
    index_byte words trim_left trim_right get_header split_lines cut bytes_eq to_upper has_byte
new_request = refl

new_verified_example :
    (has_byte b':' request.host ≡ true)
    × ((user : Bytes) × (url : Bytes) × ((user_pass_pair settings raw).0 ≡ ok user)
        × (lets_through user
              (first_field (BasicAuth.fields settings.remote_addr))
              (first_field (BasicAuth.fields settings.local_addr))
              url
            ≡ true)
        × (is_https request.method ≡ true → url ≡ ascii "https://"))
new_verified_example = new_verified settings lets_through raw request refl new_request
