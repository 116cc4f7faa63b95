-- ===== src/Httpc.antt =====
-- pkg/httpc/httpc.go: the request at the head of a connection, by TLS server name or by HTTP. Base64 and
-- url.Parse of the standard library are parameters, and so is the center's Verify.
pub mod Verified
mod Tests
use jocasta.Prelude.{
  ℕ, suc, ◌≡◌, Bool, true, false, not, ◌&&◌, ◌||◌, Option, none, some, List, [], ◌∷◌, ◌++◌, length,
  leb, ◌==◌, if◌then◌else◌, take,
}
use jocasta.Go.Result.{Result, ok, err, panic}
use jocasta.Go.Io.{Bytes}
use jocasta.Go.Net.{bytes_eq}
use jocasta.Go.HostPort.{has_byte, index_byte}
use jocasta.Go.Text.{ascii, has_prefix, to_upper, cut, split_lines}
use jocasta.BasicAuth
use jocasta.Sni.{SniError, server_name_from_bytes}

-- strings.Trim(s, cutset)
unfoldable pub trim_left : (ℕ → Bool) → Bytes → Bytes
trim_left within [] = []
trim_left within (c ∷ cs) = let rest = trim_left within cs in if within c then rest else c ∷ cs

unfoldable pub trim_right : (ℕ → Bool) → Bytes → Bytes
trim_right within [] = []
trim_right within (c ∷ cs) =
    let rest = trim_right within cs in if within c && (length rest == 0) then [] else c ∷ rest

abbrev pub trim : (ℕ → Bool) → Bytes → Bytes
trim within s = trim_left within (trim_right within s)

abbrev pub is_blank : ℕ → Bool
is_blank c = c == b' '

abbrev pub is_line_blank : ℕ → Bool
is_line_blank c = c == 13 || (c == 10 || c == b' ')

abbrev pub is_edge : ℕ → Bool
is_edge c = is_line_blank c || c == 9

-- White space of ASCII
abbrev pub is_space : ℕ → Bool
is_space c = (leb 9 c && leb c 13) || c == b' '

abbrev front : ℕ → List Bytes → List Bytes
front c [] = (c ∷ []) ∷ []
front c (w ∷ ws) = (c ∷ w) ∷ ws

abbrev starts_blank : Bytes → Bool
starts_blank [] = true
starts_blank (c ∷ cs) = is_space c

-- strings.Fields: the words between white space.
unfoldable pub words : Bytes → List Bytes
words [] = []
words (c ∷ cs) =
    let rest = words cs in
    if is_space c then rest else if starts_blank cs then (c ∷ []) ∷ rest else front c rest

-- A line of getHeader: the value, if the name is the key in capitals.
unfoldable pub header_value : Bytes → Bytes → Option Bytes
header_value key line = elim (cut b':' (trim is_line_blank line)) [
  | none ↦ none
  | some p ↦ if bytes_eq key (to_upper (trim is_blank p.0)) then some (trim is_blank p.1) else none
]

unfoldable pub first_value : Bytes → List Bytes → Bytes
unfolding header_value
first_value key [] = []
first_value key (l ∷ ls) =
    let rest = first_value key ls in elim (header_value key l) [ none ↦ rest | some v ↦ v ]

-- getHeader
unfoldable pub get_header : Bytes → Bytes → Bytes
unfolding first_value
get_header key raw = first_value (to_upper key) (split_lines raw)

-- getHTTPRawURL
unfoldable pub http_raw_url : Bytes → Bytes → Bytes
http_raw_url raw host_or_url =
    let of_host =
      λ (host : Bytes). if length host == 0 then [] else ascii "http://" ++ (host ++ host_or_url) in
    if not (has_prefix host_or_url (ascii "/"))
    then host_or_url
    else of_host (get_header (ascii "host") raw)

-- IsHTTPS
abbrev pub is_https : Bytes → Bool
is_https method = bytes_eq method (ascii "CONNECT")

pub data HttpError : Type 0 where
  read_failed no_line no_method auth_required auth_malformed auth_undecodable auth_fail bad_url :
      HttpError

-- What is written to a connection that is refused, which is then closed.
pub data Refusal : Type 0 where
  challenge denial : Refusal

pub record Refused : Type 0 where
  pub answer : Option Refusal
  pub closed : Bool

abbrev pub untouched : Refused
untouched = record { answer = none; closed = false }

abbrev pub closing : Refused
closing = record { answer = none; closed = true }

-- base64.StdEncoding.DecodeString; the host that url.Parse finds; the addresses of the connection; Verify
-- with the pair, the addresses and the url.
pub record Settings : Type 0 where
  pub decode : Bytes → Option Bytes
  pub url_host : Bytes → Option Bytes
  pub remote_addr : Bytes
  pub local_addr : Bytes
  pub center : Option (Bytes → Bytes → Bytes → Bytes → Bool)

-- GetProxyAuthUserPassPair: what it returns, and what it did to the connection.
unfoldable pub user_pass_pair : Settings → Bytes → Result HttpError Bytes × Refused
user_pass_pair e raw =
    let authorization = trim is_edge (get_header (ascii "Proxy-Authorization") raw) in
    let decoded : Bytes → Result HttpError Bytes × Refused = λ basic. elim (e.decode basic) [
      | none ↦ (err auth_undecodable, closing)
      | some pair ↦ (ok pair, untouched)
    ] in
    let two : List Bytes → Result HttpError Bytes × Refused = λ ws. elim ws [
      | [] ↦ (err auth_malformed, closing)
      | scheme ∷ more ↦ elim more [
        | [] ↦ (err auth_malformed, closing)
        | basic ∷ rest ↦ elim rest [ [] ↦ decoded basic | _ ∷ _ ↦ (err auth_malformed, closing) ]
      ]
    ] in
    if length authorization == 0
    then (err auth_required, record { answer = some challenge; closed = true })
    else two (words authorization)

abbrev pub first_field : List Bytes → Bytes
first_field [] = []
first_field (x ∷ xs) = x

-- The url about which the center is asked: sf.Host, which New has not set yet, behind a scheme, or that
-- of the request.
unfoldable pub auth_url : Bytes → Bytes → Bytes → Bytes
auth_url raw method host_or_url =
    if is_https method then ascii "https://" ++ [] else http_raw_url raw host_or_url

-- (*Request).BasicAuth
unfoldable pub basic_auth : Settings → Bytes → Bytes → Bytes → Result HttpError (Unit {0}) × Refused
unfolding user_pass_pair auth_url
basic_auth e raw method host_or_url = elim e.center [
  | none ↦ (ok tt, untouched)
  | some verify ↦
      let p = user_pass_pair e raw in
      elim p.0 [
        | ok user ↦
            if verify user (first_field (BasicAuth.fields e.remote_addr))
              (first_field (BasicAuth.fields e.local_addr)) (auth_url raw method host_or_url)
            then (ok tt, untouched)
            else (err auth_fail, record { answer = some denial; closed = true })
        | err x ↦ (err x, p.1)
        | panic ↦ (panic, p.1)
      ]
]

pub record Request : Type 0 where
  pub raw_header : Bytes
  pub host : Bytes
  pub method : Bytes
  pub raw_url : Bytes
  pub is_sni : Bool

pub record Target : Type 0 where
  pub method : Bytes
  pub host_or_url : Bytes
  pub is_sni : Bool

-- The method and the target: those of a ClientHello, or the first two words of the first line.
unfoldable pub method_and_target : Bytes → Result HttpError Target
method_and_target raw =
    let of_words : List Bytes → Result HttpError Target = λ ws. elim ws [
      | [] ↦ err no_method
      | m ∷ more ↦ elim more [
        | [] ↦ err no_method
        | u ∷ _ ↦ ok (record { method = to_upper m; host_or_url = u; is_sni = false })
      ]
    ] in
    let of_line : Result HttpError Target = elim (index_byte 10 raw) [
      | none ↦ err no_line
      | some i ↦ of_words (words (take i raw))
    ] in
    elim (server_name_from_bytes raw) [
      | ok name ↦ ok (record {
        method = ascii "SNI";
        host_or_url = ascii "https://" ++ (name ++ ascii ":443");
        is_sni = true;
      })
      | err _ ↦ of_line
      | panic ↦ panic
    ]

-- The port is put behind a host that has none.
abbrev pub with_port : Bytes → Bytes → Bytes
with_port host port = if has_byte b':' host then host else host ++ (b':' ∷ port)

-- The end of New.
unfoldable pub finish : Settings → Bytes → Target → Result HttpError Request
finish e raw m =
    let request : Bytes → Bytes → Request = λ host raw_url. record {
      raw_header = raw;
      host = host;
      method = m.method;
      raw_url = raw_url;
      is_sni = m.is_sni;
    } in
    let plain : Result HttpError Request = elim (e.url_host (http_raw_url raw m.host_or_url)) [
      | none ↦ err bad_url
      | some host ↦ ok (request (with_port host (ascii "80")) (http_raw_url raw m.host_or_url))
    ] in
    if is_https m.method then ok (request (with_port m.host_or_url (ascii "443")) []) else plain

-- New on what Read has put into the buffer, or `none` if it has failed: the request, and what became of
-- the connection. What the authority does not let through, and an url that url.Parse refuses, end it
-- without a Close of its own.
unfoldable pub new : Settings → Option Bytes → Result HttpError Request × Refused
unfolding method_and_target basic_auth finish
new e none = (err read_failed, closing)
new e (some raw) = elim (method_and_target raw) [
  | err x ↦ (err x, closing)
  | panic ↦ (panic, untouched)
  | ok m ↦
      let authority = basic_auth e raw m.method m.host_or_url in
      elim authority.0 [
        | err x ↦ (err x, authority.1)
        | panic ↦ (panic, authority.1)
        | ok _ ↦ (finish e raw m, untouched)
      ]
]
