-- ===== src/Enet/Tests.antt =====
-- A request with three headers.
use jocasta.Prelude.{◌≡◌, refl, not, ◌&&◌, List, [], ◌∷◌, All}
use jocasta.Go.Io.{Bytes}
use jocasta.Go.Net.{bytes_eq}
use jocasta.Go.Text.{ascii, has_prefix, to_upper, cut, split_lines, join_lines}
use jocasta.Enet.{contains, passes, headers_loop, is_http, remove_proxy_headers}
use jocasta.Enet.Lines.{has_end}
use jocasta.Enet.Kept.{names, Among, Distinct}
use jocasta.Enet.Headers.{message, remove_proxy_headers_lem}

abbrev request : Bytes
request = ascii "GET / HTTP/1.1"

abbrev headers : List Bytes
headers = ascii "Host: a" ∷ ascii "Proxy-Connection: b" ∷ ascii "host: c" ∷ []

removed :
    remove_proxy_headers (message request headers []) ≡ message request (ascii "Host: a" ∷ []) []
unfolding remove_proxy_headers is_http split_lines join_lines headers_loop passes contains
    has_prefix to_upper cut bytes_eq
removed = refl

remove_proxy_headers_lem_example :
    (kept : List Bytes) × (remove_proxy_headers (message request headers [])
      ≡ message request kept [])
    × All (Among headers) kept
    × ((k : Bytes)
        → contains k (names kept)
          ≡ (contains k (names headers) && not (has_prefix k (ascii "PROXY-"))))
    × Distinct (names kept)
unfolding is_http has_prefix join_lines has_end bytes_eq
remove_proxy_headers_lem_example =
    remove_proxy_headers_lem request headers [] refl (refl, (refl, (refl, tt)))
      (refl, (refl, (refl, (refl, (refl, tt))))) refl
