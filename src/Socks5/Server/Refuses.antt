-- ===== src/Socks5/Server/Refuses.antt =====
-- core/socks5/server.go: the user and the password that a client sends are not those that are checked.
use jocasta.Prelude.{
  ℕ, suc, ◌≤◌, ◌<◌, ◌≡◌, refl, Bool, true, false, none, some, List, [], ◌∷◌, ◌++◌, length, lt→leb,
}
use jocasta.Go.Result.{ok, err}
use jocasta.Go.Io.{Bytes}
use jocasta.Go.Conn.{fresh_conn, read_whole, write_ok}
use jocasta.Filter.{ConcurrentMap}
use jocasta.BasicAuth.{
  format, fields, verify, verify_from_local, trim_spaces_left, trim_spaces_right,
}
use jocasta.Socks5.{version_v5}
use jocasta.Socks5.Auth.{
  credentials, auth_fail, read_auth_fail, answer_auth_fail, reply_fail, methods_request_fail,
}
use jocasta.Socks5.Methods.{MethodsRequest, new_methods_request, select}
use jocasta.Socks5.Server.{
  Settings, Server, new_server, user_pass, accepted, auth_phase, method_phase, methods_phase,
  handshake, is_none,
}

module _ (e : Settings) (m a : Bytes) (rest : List Bytes) (room : ℕ) where
  pub methods_phase_lem :
      (writes : ℕ) {r : MethodsRequest}
      → length e.header < 2
      → length m ≤ 300
      → new_methods_request e.header m ≡ ok r
      → methods_phase e (fresh_conn (m ∷ a ∷ rest) writes) ≡ (ok r, fresh_conn (a ∷ rest) writes)
  unfolding methods_phase
  methods_phase_lem writes h k p =
      rw
        (
          lt→leb 2 (length e.header) h,
          read_whole methods_request_fail (a ∷ rest) [] writes 300 m k,
          p,
        )
        (rw (read_whole methods_request_fail (a ∷ rest) [] writes 300 m k) refl)

  auth_phase_refuses :
      (s : Server) {up : Bytes × Bytes} (w : List Bytes)
      → length a ≤ 500
      → credentials a ≡ ok up
      → ((u v : Bytes) → accepted e (record s { auth_user = u; auth_password = v }) ≡ false)
      → auth_phase e s (record { pending = a ∷ rest; room = suc room; written = w })
        ≡ (err auth_fail, record { pending = rest; room = room; written = w ++ (1 ∷ 1 ∷ []) ∷ [] })
  unfolding auth_phase
  auth_phase_refuses s w h p q =
      rw
        (
          read_whole read_auth_fail rest w (suc room) 500 a h,
          p,
          q,
          write_ok answer_auth_fail rest w room,
        )
        refl

  method_phase_refuses :
      (s : Server) (r : MethodsRequest) {up : Bytes × Bytes}
      → is_none e.center ≡ false
      → select user_pass r.methods ≡ true
      → length a ≤ 500
      → credentials a ≡ ok up
      → ((u v : Bytes)
          → accepted e (record s { method = user_pass; auth_user = u; auth_password = v }) ≡ false)
      → method_phase e r s (fresh_conn (a ∷ rest) (suc (suc room))) ≡ (
        err auth_fail,
        record {
          pending = rest;
          room = room;
          written = (version_v5 ∷ user_pass ∷ []) ∷ (1 ∷ 1 ∷ []) ∷ [];
        },
      )
  unfolding method_phase
  method_phase_refuses s r n k h p q =
      rw (n, k, write_ok reply_fail (a ∷ rest) [] (suc room))
        (auth_phase_refuses (record s { method = user_pass }) _ h p q)

  handshake_rejects :
      {r : MethodsRequest} {up : Bytes × Bytes}
      → length e.header < 2
      → length m ≤ 300
      → new_methods_request e.header m ≡ ok r
      → is_none e.center ≡ false
      → select user_pass r.methods ≡ true
      → length a ≤ 500
      → credentials a ≡ ok up
      → ((u v : Bytes)
          → accepted e (record new_server { method = user_pass; auth_user = u; auth_password = v })
            ≡ false)
      → handshake e new_server (fresh_conn (m ∷ a ∷ rest) (suc (suc room))) ≡ (
        err auth_fail,
        record {
          pending = rest;
          room = room;
          written = (version_v5 ∷ user_pass ∷ []) ∷ (1 ∷ 1 ∷ []) ∷ [];
        },
      )
  unfolding handshake
  handshake_rejects {r} h k p n s l c q =
      rw (methods_phase_lem (suc (suc room)) h k p, method_phase_refuses new_server r n s l c q)
        refl

module _ (Passwords : ConcurrentMap Bytes) (table : Passwords.carrier)
    (from_url : Bytes → Bytes → Bool) where
  -- The center's Verify, which the server calls with the fields of NewServer.
  verify_empty :
      Passwords.get [] table ≡ none
      → from_url [] [] ≡ false
      → verify Passwords from_url (format [] []) table ≡ false
  unfolding verify verify_from_local fields trim_spaces_left trim_spaces_right
  verify_empty g u =
      rw (verify, fields, trim_spaces_left, trim_spaces_right, verify_from_local, g) u

  -- A server with a center refuses every user whose connection delivers a methods request that offers
  -- passwords and an authentication message that can be read, whatever user and password this holds, if
  -- neither the table of the center nor the remote authority has an empty user: it is about this user that
  -- the center is asked.
  pub handshake_refuses :
      (e : Settings) (m a : Bytes) (rest : List Bytes) (room : ℕ) {r : MethodsRequest}
      {up : Bytes × Bytes}
      → e.center ≡ some (λ pair _ _ _. verify Passwords from_url pair table)
      → Passwords.get [] table ≡ none
      → from_url [] [] ≡ false
      → length e.header < 2
      → length m ≤ 300
      → new_methods_request e.header m ≡ ok r
      → select user_pass r.methods ≡ true
      → length a ≤ 500
      → credentials a ≡ ok up
      → handshake e new_server (fresh_conn (m ∷ a ∷ rest) (suc (suc room))) ≡ (
        err auth_fail,
        record {
          pending = rest;
          room = room;
          written = (version_v5 ∷ user_pass ∷ []) ∷ (1 ∷ 1 ∷ []) ∷ [];
        },
      )
  unfolding accepted new_server
  handshake_refuses e m a rest room center g u h k p s l c =
      handshake_rejects e m a rest room h k p (rw center refl) s l c
        (λ _ _. rw (center, verify_empty g u) refl)
