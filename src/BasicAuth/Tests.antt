-- ===== src/BasicAuth/Tests.antt =====
-- The user "a" with the password "b", in a map as a function.
use jocasta.Prelude.{◌≡◌, refl, false, none, [], ◌∷◌}
use jocasta.Go.Io.{Bytes}
use jocasta.Go.Net.{bytes_eq}
use jocasta.Filter.{ConcurrentMap}
use jocasta.Filter.FunctionMap.{function_map}
use jocasta.BasicAuth.{format, add_pair, verify_from_local}
use jocasta.BasicAuth.Users.{verify_from_local-add_pair}

abbrev passwords : ConcurrentMap Bytes
passwords = function_map Bytes

abbrev user : Bytes
user = 97 ∷ []

abbrev pwd : Bytes
pwd = 98 ∷ []

verify_from_local-add_pair_example :
    ((try : Bytes)
      → verify_from_local passwords user try (add_pair passwords (format user pwd) (0, λ k. none)).1
        ≡ bytes_eq pwd try)
    × (bytes_eq user pwd ≡ false
        → (try : Bytes)
        → verify_from_local passwords pwd try
            (add_pair passwords (format user pwd) (0, λ k. none)).1
          ≡ verify_from_local passwords pwd try (λ k. none))
verify_from_local-add_pair_example =
    verify_from_local-add_pair passwords user pwd pwd 0 (λ k. none) (refl, tt) (refl, tt)
