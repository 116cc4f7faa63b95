-- ===== src/Socks5/Server/Messages.antt =====
-- core/socks5/server.go and client.go: the message with a user and a password.
use jocasta.Prelude.{
  ℕ, suc, ◌+◌, ◌%◌, ◌≤◌, ◌<◌, ◌≡◌, refl, Bool, true, false, not, ◌&&◌, List, [], ◌∷◌, ◌++◌, length,
  leb, arith, length-append, append_assoc, lt→leb,
}
use jocasta.Go.Result.{ok, panic}
use jocasta.Go.Io.{Bytes}
use jocasta.Go.Conn.{fresh_conn, read_whole, write_ok}
use jocasta.Go.Slice.{index, slice_from, slice_ok, slice-append, slice_from-append}
use jocasta.Socks5.Auth.{ServerError, credentials, read_auth_fail, reply_fail}
use jocasta.Socks5.Client.{Client, auth_message}
use jocasta.Socks5.Methods.{
  MethodsRequest, new_methods_request, select, padded, padded-append, length-padded,
}
use jocasta.Socks5.Server.{
  Settings, new_server, user_pass, auth_phase, method_phase, handshake, is_none,
}
use jocasta.Socks5.Server.Refuses.{methods_phase_lem}

-- The server reads the user and the password that the client writes, if the user has at most 252 bytes
-- and both together fit the buffer.
pub credentials-auth_message :
    (s : Client)
    → length s.user ≤ 252
    → length s.user + length s.password ≤ 497
    → credentials (auth_message s) ≡ ok (s.user, s.password)
unfolding credentials index
credentials-auth_message s h k =
    let (ys, e) = padded-append 500 (auth_message s) (fits) in
    rw
      (
        e,
        append_assoc s.user (length s.password % 256 ∷ s.password) ys,
        slice-append {E = ServerError} (1 ∷ length s.user % 256 ∷ []) s.user
            ((length s.password % 256 ∷ s.password) ++ ys) 2 ((length s.user % 256 + 2) % 256) refl
            (omega arith),
      )
      (rw
        (
          ← append_assoc s.user (length s.password % 256 ∷ []) s.password,
          slice_from-append {E = ServerError}
              ((1 ∷ length s.user % 256 ∷ s.user) ++ (length s.password % 256 ∷ [])) s.password
              ((2 + length s.user % 256 + 1) % 256)
              (omega (arith, length-append s.user (length s.password % 256 ∷ []))),
        )
        refl)
  where
    fits : length (auth_message s) ≤ 500
    fits = omega (
      arith,
      length-append (1 ∷ length s.user % 256 ∷ s.user) (length s.password % 256 ∷ s.password),
    )

-- A message that is shorter than its user's length makes the server panic.
credentials_short :
    (v l : ℕ) (xs : Bytes) → l < 253 → length xs < l + 1 → credentials (v ∷ l ∷ xs) ≡ panic
unfolding credentials index slice_from
credentials_short v l xs h k =
    let e : (l + 2) % 256 ≡ l + 2 = omega arith in
    let f : (2 + l + 1) % 256 ≡ l + 3 = omega arith in
    let long : leb (l + 3) (suc (suc (length xs))) ≡ false = lt→leb _ _ (omega arith) in
    rw
      (
        e,
        slice_ok (padded 500 (v ∷ l ∷ xs)) 2 (l + 2) (omega arith)
            (omega (arith, length-padded 500 (v ∷ l ∷ xs))),
        f,
        long,
      )
      refl

none_but : (a b : Bool) → (a && (b && not true)) ≡ false
none_but a b = ground arith

-- A client whose methods message has at most 300 bytes, is read by a server that read less than two bytes
-- before, and offers passwords, and that then sends an authentication message with a length byte of
-- the user below 253 and less behind it than this byte says and one more, makes the handshake panic, whether
-- or not the server has an authority, if the first reply can be written.
pub handshake_panics :
    (e : Settings) (m rest_of_message : Bytes) (rest : List Bytes) (v l room : ℕ)
    {r : MethodsRequest}
    → length e.header < 2
    → length m ≤ 300
    → new_methods_request e.header m ≡ ok r
    → select user_pass r.methods ≡ true
    → l < 253
    → length rest_of_message < l + 1
    → (handshake e new_server (fresh_conn (m ∷ (v ∷ l ∷ rest_of_message) ∷ rest) (suc room))).0
      ≡ panic
unfolding handshake method_phase auth_phase
handshake_panics e m xs rest v l room {r} h k p s bound short =
    rw
      (
        methods_phase_lem e m (v ∷ l ∷ xs) rest room (suc room) h k p,
        s,
        none_but (is_none e.center) (select 0 r.methods),
        write_ok reply_fail ((v ∷ l ∷ xs) ∷ rest) [] room,
        read_whole read_auth_fail rest ((5 ∷ 2 ∷ []) ∷ []) room 500 (v ∷ l ∷ xs) (omega arith),
        credentials_short v l xs bound short,
      )
      refl
