-- ===== src/Http/Tests.antt =====
-- A request with credentials for the proxy, to a target that is dialed without a parent.
use jocasta.Prelude.{◌≡◌, refl, true, false, Option, none, some, List, [], ◌∷◌, if◌then◌else◌}
use jocasta.Prelude.Int.{pos}
use jocasta.Go.Io.{Bytes}
use jocasta.Go.Net.{bytes_eq, to4}
use jocasta.Go.HostPort.{has_byte, split_host_port, last_index}
use jocasta.Go.Text.{ascii}
use jocasta.Filter.{Item, Filter, intelligent}
use jocasta.Filter.FunctionMap.{function_map}
use jocasta.Enet.Headers.{message}
use jocasta.Httpc.{Settings, Request}
use jocasta.Http.{Config, is_dead_loop}
use jocasta.Http.Loops.{is_dead_loop_unresolved}

abbrev settings : Settings
settings = record {
  decode = some;
  url_host = λ url. some (ascii "a");
  remote_addr = ascii "10.0.0.1:80";
  local_addr = ascii "10.0.0.2:8080";
  center = none;
}

abbrev config : Config
config = record {
  text = record { parse_ip = λ s. none; ip_string = λ ip. [] };
  has_dns = false;
  resolve = λ s. s;
  lookup_ip = λ s. none;
  system_ips = some [];
  local_ips = [];
  has_parent = false;
  always = false;
  ssh = false;
  is_domain = λ s. true;
  is_intranet = λ s. false;
}

abbrev filter : Filter (function_map Item) (function_map (Unit {0}))
filter = record {
  mode = intelligent;
  cache = λ k. none;
  proxies = λ k. none;
  directs = λ k. none;
  success_threshold = 3;
  failure_threshold = 3;
  alive_threshold = pos 1800;
}

abbrev first_line : Bytes
first_line = ascii "GET / HTTP/1.1"

abbrev headers : List Bytes
headers = ascii "Host: a" ∷ ascii "Proxy-Authorization: b" ∷ []

abbrev request : Request
request = record {
  raw_header = message first_line headers [];
  host = ascii "a:80";
  method = ascii "GET";
  raw_url = ascii "http://a/";
  is_sni = false;
}

-- The address ::1 among LocalIPS.
abbrev sixteen : Bytes
sixteen = 0 ∷ 0 ∷ 0 ∷ 0 ∷ 0 ∷ 0 ∷ 0 ∷ 0 ∷ 0 ∷ 0 ∷ 0 ∷ 0 ∷ 0 ∷ 0 ∷ 0 ∷ 1 ∷ []

abbrev parse_six : Bytes → Option Bytes
parse_six s = if bytes_eq s (ascii "::1") then some sixteen else none

abbrev with_six : Config
with_six = record config {
  text = record { parse_ip = parse_six; ip_string = λ ip. [] };
  has_dns = true;
  local_ips = ascii "::1" ∷ [];
}

is_dead_loop_unresolved_example :
    is_dead_loop with_six (ascii "10.0.0.2:8080") (ascii "nowhere:8080") ≡ true
unfolding split_host_port last_index has_byte bytes_eq to4
is_dead_loop_unresolved_example =
    is_dead_loop_unresolved with_six (ascii "10.0.0.2:8080") (ascii "nowhere:8080")
      (ascii "10.0.0.2") (ascii "nowhere") (ascii "8080") (ascii "::1") sixteen [] [] [] refl refl
      refl refl refl refl refl refl
