-- ===== src/Httpc/Verified.antt =====
-- pkg/httpc/httpc.go: who gets past New, and which host it finds.
use jocasta.Prelude.{
  ℕ, ◌≡◌, refl, sym, ap, ◌∙◌, Bool, true, inl, inr, some, [], ◌∷◌, ◌++◌, Bool-cases, Option-cases,
  ◌==◌,
}
use jocasta.Go.Result.{Result, ok, err, panic, Result-cases}
use jocasta.Go.Io.{Bytes}
use jocasta.Go.HostPort.{has_byte}
use jocasta.Go.Text.{ascii}
use jocasta.BasicAuth
use jocasta.Httpc.{
  HttpError, bad_url, auth_fail, Settings, Request, Target, user_pass_pair, auth_url, basic_auth,
  finish, method_and_target, with_port, first_field, is_https, http_raw_url, new,
}

has_byte-append : (c : ℕ) (a b : Bytes) → has_byte c b ≡ true → has_byte c (a ++ b) ≡ true
unfolding has_byte
has_byte-append c [] b h = h
has_byte-append c (x ∷ xs) b h =
    let e = has_byte-append c xs b h in
    elim (Bool-cases (x == c)) [ inl t ↦ rw t refl | inr f ↦ rw f e ]

with_port-has_byte : (host port : Bytes) → has_byte b':' (with_port host port) ≡ true
unfolding has_byte
with_port-has_byte host port = elim (Bool-cases (has_byte b':' host)) [
  | inl t ↦ rw t t
  | inr f ↦ rw f (has_byte-append b':' host (b':' ∷ port) refl)
]

abbrev made : Request → Result HttpError Request
made r = ok r

request_made :
    (q r : Request) (m : Target)
    → made q ≡ made r
    → q.method ≡ m.method
    → has_byte b':' q.host ≡ true
    → (r.method ≡ m.method) × (has_byte b':' r.host ≡ true) × (r.raw_header ≡ q.raw_header)
request_made q r m e a b =
    let p : q ≡ r = cc in
    (
      sym (ap (λ x. x.method) p) ∙ a,
      sym (ap (λ x. has_byte b':' x.host) p) ∙ b,
      sym (ap (λ x. x.raw_header) p),
    )

finish-has_byte :
    (e : Settings) (raw : Bytes) (m : Target) (r : Request)
    → finish e raw m ≡ ok r
    → (r.method ≡ m.method) × (has_byte b':' r.host ≡ true) × (r.raw_header ≡ raw)
unfolding finish
finish-has_byte e raw m r h =
    let url = http_raw_url raw m.host_or_url in
    let q : Bytes → Bytes → Request = λ host raw_url. record {
      raw_header = raw;
      host = host;
      method = m.method;
      raw_url = raw_url;
      is_sni = m.is_sni;
    } in
    let named : (host port raw_url : Bytes)
        → finish e raw m ≡ ok (q (with_port host port) raw_url)
        → (r.method ≡ m.method) × (has_byte b':' r.host ≡ true) × (r.raw_header ≡ raw) =
      λ host port raw_url p.
        request_made (q (with_port host port) raw_url) r m (sym p ∙ h) refl
          (with_port-has_byte host port) in
    elim (Bool-cases (is_https m.method)) [
      | inl t ↦ named m.host_or_url (ascii "443") [] (rw (finish, t) refl)
      | inr f ↦ elim (Option-cases (e.url_host url)) [
        | inl n ↦ let bad : finish e raw m ≡ err bad_url = rw (finish, f, n) refl in cc
        | inr p ↦ named p.0 (ascii "80") url (rw (finish, f, p.1) refl)
      ]
    ]

basic_auth_inv :
    (e : Settings) (verify : Bytes → Bytes → Bytes → Bytes → Bool) (raw method host_or_url : Bytes)
    (u : Unit {0})
    → e.center ≡ some verify
    → (basic_auth e raw method host_or_url).0 ≡ ok u
    → (user : Bytes) × ((user_pass_pair e raw).0 ≡ ok user)
      × (verify user
            (first_field (BasicAuth.fields e.remote_addr))
            (first_field (BasicAuth.fields e.local_addr))
            (auth_url raw method host_or_url)
          ≡ true)
unfolding basic_auth
basic_auth_inv e verify raw method host_or_url u c h =
    let asked = λ (user : Bytes).
      verify user (first_field (BasicAuth.fields e.remote_addr))
        (first_field (BasicAuth.fields e.local_addr)) (auth_url raw method host_or_url) in
    elim (Result-cases (user_pass_pair e raw).0) [
      | inl p ↦ elim (Bool-cases (asked p.0)) [
        | inl t ↦ (p.0, p.1, t)
        | inr f ↦
            let no : (basic_auth e raw method host_or_url).0 ≡ err auth_fail =
              rw (basic_auth, c, p.1, f) refl in
            cc
      ]
      | inr (inl p) ↦
          let no : (basic_auth e raw method host_or_url).0 ≡ err p.0 =
            rw (basic_auth, c, p.1) refl in
          cc
      | inr (inr p) ↦
          let no : (basic_auth e raw method host_or_url).0 ≡ panic = rw (basic_auth, c, p) refl in
          cc
    ]

-- What New returns went through the authority, and then through `finish`.
new_inv :
    (e : Settings) (raw : Bytes) (r : Request)
    → (new e (some raw)).0 ≡ ok r
    → (m : Target) × (u : Unit {0}) × ((basic_auth e raw m.method m.host_or_url).0 ≡ ok u)
      × (finish e raw m ≡ ok r)
unfolding new
new_inv e raw r h = elim (Result-cases (method_and_target raw)) [
  | inr (inl p) ↦ let no : (new e (some raw)).0 ≡ err p.0 = rw (new, p.1) refl in cc
  | inr (inr p) ↦ let no : (new e (some raw)).0 ≡ panic = rw (new, p) refl in cc
  | inl m ↦ elim (Result-cases (basic_auth e raw m.0.method m.0.host_or_url).0) [
    | inl u ↦ (m.0, u.0, u.1, sym (rw (new, m.1, u.1) refl) ∙ h)
    | inr (inl p) ↦ let no : (new e (some raw)).0 ≡ err p.0 = rw (new, m.1, p.1) refl in cc
    | inr (inr p) ↦ let no : (new e (some raw)).0 ≡ panic = rw (new, m.1, p) refl in cc
  ]
]

pub new-raw_header :
    (e : Settings) (raw : Bytes) (r : Request) → (new e (some raw)).0 ≡ ok r → r.raw_header ≡ raw
new-raw_header e raw r h = let (m, u, a, f) = new_inv e raw r h in (finish-has_byte e raw m r f).2

auth_url_connect :
    (raw method host_or_url : Bytes)
    → is_https method ≡ true
    → auth_url raw method host_or_url ≡ ascii "https://"
unfolding auth_url
auth_url_connect raw method host_or_url t = rw (auth_url, t) refl

-- Where there is an authority, a request that New returns has a host with a colon in it, and the authority
-- has let the pair of the request's Proxy-Authorization header through; but for CONNECT it was asked about
-- the url "https://", whatever the host of the request is.
pub new_verified :
    (e : Settings) (verify : Bytes → Bytes → Bytes → Bytes → Bool) (raw : Bytes) (r : Request)
    → e.center ≡ some verify
    → (new e (some raw)).0 ≡ ok r
    → (has_byte b':' r.host ≡ true)
      × ((user : Bytes) × (url : Bytes) × ((user_pass_pair e raw).0 ≡ ok user)
          × (verify user
                (first_field (BasicAuth.fields e.remote_addr))
                (first_field (BasicAuth.fields e.local_addr))
                url
              ≡ true)
          × (is_https r.method ≡ true → url ≡ ascii "https://"))
new_verified e verify raw r c h =
    let (m, u, a, f) = new_inv e raw r h in
    let found = finish-has_byte e raw m r f in
    let asked = basic_auth_inv e verify raw m.method m.host_or_url u c a in
    (
      found.1,
      (
        asked.0,
        auth_url raw m.method m.host_or_url,
        asked.1,
        asked.2,
        λ t. auth_url_connect raw m.method m.host_or_url (sym (ap is_https found.0) ∙ t),
      ),
    )
