-- ===== src/BasicAuth/Users.antt =====
-- A user that was added is known by its password, and by no other.
use jocasta.Prelude.{ℕ, ◌≡◌, refl, false, [], ◌∷◌, All, ◌==◌}
use jocasta.Go.Io.{Bytes}
use jocasta.Go.Net.{bytes_eq}
use jocasta.Filter.{ConcurrentMap}
use jocasta.BasicAuth.{fields, format, add_pair, verify_from_local}

-- No byte is a colon.
abbrev pub NoColon : Bytes → Type 0
NoColon = All (λ c. (c == 58) ≡ false)

fields_plain : (pwd : Bytes) → NoColon pwd → fields pwd ≡ pwd ∷ []
unfolding fields
fields_plain [] h = refl
fields_plain (c ∷ cs) h = rw (h.0, fields_plain cs h.1) refl

fields-format :
    (user pwd : Bytes) → NoColon user → NoColon pwd → fields (format user pwd) ≡ user ∷ pwd ∷ []
unfolding fields
fields-format [] pwd u h = rw (fields_plain pwd h) refl
fields-format (c ∷ cs) pwd u h = rw (u.0, fields-format cs pwd u.1 h) refl

-- After Add of a user with a password, neither with a colon, exactly this password of the user is
-- verified by the local table, and the verification of another user is as before.
pub verify_from_local-add_pair :
    (Passwords : ConcurrentMap Bytes) (user pwd other : Bytes) (n : ℕ) (m : Passwords.carrier)
    → NoColon user
    → NoColon pwd
    → ((try : Bytes)
        → verify_from_local Passwords user try (add_pair Passwords (format user pwd) (n, m)).1
          ≡ bytes_eq pwd try)
      × (bytes_eq user other ≡ false
          → (try : Bytes)
          → verify_from_local Passwords other try (add_pair Passwords (format user pwd) (n, m)).1
            ≡ verify_from_local Passwords other try m)
unfolding verify_from_local add_pair
verify_from_local-add_pair Passwords user pwd other n m u h = (
  (λ try.
      rw (add_pair, fields-format user pwd u h, verify_from_local, Passwords.get_put user pwd m)
        refl),
  (λ d try.
      rw
        (
          add_pair,
          fields-format user pwd u h,
          verify_from_local,
          Passwords.get_put_other user other pwd m d,
        )
        refl),
)
