-- ===== src/Enet.antt =====
-- pkg/enet/enet.go: what kind of request begins with these bytes, and the headers of a proxied one.
pub mod Lines
pub mod Kept
pub mod Headers
mod Tests
use jocasta.Prelude.{
  ℕ, suc, ◌+◌, Bool, true, false, ◌&&◌, ◌||◌, Option, none, some, List, [], ◌∷◌, ◌++◌, length, ltb,
  leb, ◌==◌, if◌then◌else◌,
}
use jocasta.Go.Io.{Bytes}
use jocasta.Go.Net.{at, bytes_eq}
use jocasta.Go.Text.{ascii, has_prefix, to_upper, cut, split_lines, join_lines}

-- httpMethod
abbrev pub http_methods : List Bytes
http_methods =
    ascii "GET"
    ∷ ascii "HEAD"
    ∷ ascii "POST"
    ∷ ascii "PUT"
    ∷ ascii "DELETE"
    ∷ ascii "CONNECT"
    ∷ ascii "OPTIONS"
    ∷ ascii "TRACE"
    ∷ ascii "PATCH"
    ∷ ascii "get"
    ∷ ascii "head"
    ∷ ascii "post"
    ∷ ascii "put"
    ∷ ascii "delete"
    ∷ ascii "connect"
    ∷ ascii "options"
    ∷ ascii "trace"
    ∷ ascii "patch"
    ∷ []

unfoldable pub begins_with_any : List Bytes → Bytes → Bool
begins_with_any [] head = false
begins_with_any (m ∷ ms) head = has_prefix head m || begins_with_any ms head

-- IsHTTP
unfoldable pub is_http : Bytes → Bool
unfolding begins_with_any
is_http head = begins_with_any http_methods head

-- IsSocks5
unfoldable pub is_socks5 : Bytes → Bool
is_socks5 head =
    leb 3 (length head)
    && (at head 0 == 5
        && ((ltb 0 (at head 1) && ltb (at head 1) 255) && length head == 2 + at head 1))

-- InsertProxyHeaders: behind the first end of a line.
unfoldable pub insert_proxy_headers : Bytes → Bytes → Bytes
insert_proxy_headers [] headers = []
insert_proxy_headers (c ∷ []) headers = c ∷ []
insert_proxy_headers (c ∷ d ∷ cs) headers =
    let on = c ∷ insert_proxy_headers (d ∷ cs) headers in
    if c == 13 && d == 10 then (13 ∷ 10 ∷ headers) ++ cs else on

unfoldable pub contains : Bytes → List Bytes → Bool
contains k [] = false
contains k (x ∷ xs) = bytes_eq x k || contains k xs

-- Whether a header goes on, given the names so far: its name is new and not one for proxies.
unfoldable pub passes : List Bytes → Bytes → Bool
passes keys k =
    if contains k keys then false else if has_prefix k (ascii "PROXY-") then false else true

-- The loop of RemoveProxyHeaders behind the first line, given the names so far. Behind an empty line
-- everything is kept.
unfoldable pub headers_loop : List Bytes → List Bytes → List Bytes
headers_loop keys [] = []
headers_loop keys ([] ∷ ls) = [] ∷ ls
headers_loop keys ((c ∷ l) ∷ ls) =
    let skip = headers_loop keys ls in
    elim (cut b':' (c ∷ l)) [
      | none ↦ skip
      | some p ↦
          let add = (c ∷ l) ∷ headers_loop (to_upper p.0 ∷ keys) ls in
          if passes keys (to_upper p.0) then add else skip
    ]

-- The whole loop, given whether the bytes are a request of HTTP, whose first line is kept.
unfoldable pub lines_loop : Bool → List Bytes → List Bytes
lines_loop http [] = []
lines_loop http ([] ∷ ls) = headers_loop [] ([] ∷ ls)
lines_loop http ((c ∷ l) ∷ ls) =
    if http then (c ∷ l) ∷ headers_loop [] ls else headers_loop [] ((c ∷ l) ∷ ls)

-- RemoveProxyHeaders
unfoldable pub remove_proxy_headers : Bytes → Bytes
unfolding headers_loop lines_loop
remove_proxy_headers head = join_lines (lines_loop (is_http head) (split_lines head))
