-- ===== src/Idns/Tests.antt =====
-- A domain with an answer.
use jocasta.Prelude.{◌≡◌, refl, true, false, none, List, [], ◌∷◌}
use jocasta.Prelude.Int.{wrap_int64, pos, ltb_ℤ, ◌+ℤ◌}
use jocasta.Go.Result.{ok}
use jocasta.Go.Io.{Bytes}
use jocasta.Go.Net.{AddrText}
use jocasta.Go.HostPort.{has_byte}
use jocasta.Filter.FunctionMap.{function_map}
use jocasta.Idns.{
  Item, Answer, answered, failed, Resolver, new, target_of, join_ip_port, first_address, cached,
  accept, resolve,
}
use jocasta.Idns.Cached.{resolve_again}

abbrev text : AddrText
text = record { parse_ip = λ s. none; ip_string = λ ip. [] }

abbrev domain : Bytes
domain = 97 ∷ []

abbrev ip : Bytes
ip = 49 ∷ []

abbrev answers : List Answer
answers = record { is_a = true; fields = [] ∷ [] ∷ [] ∷ [] ∷ ip ∷ [] } ∷ []

abbrev resolver : Resolver (function_map Item)
resolver = new (function_map Item) (pos 60)

resolve_again_example :
    (r' : Resolver (function_map Item)) × (resolve
        (function_map Item)
        text
        (λ _. answered answers)
        (pos 0)
        (pos 1)
        domain
        resolver
      ≡ (ok (join_ip_port ip []), r'))
    × (ltb_ℤ (pos 50) (pos 1 +ℤ resolver.ttl) ≡ true
        → resolve (function_map Item) text (λ _. failed) (pos 50) (pos 51) domain r'
          ≡ (ok (join_ip_port ip []), r'))
    × (ltb_ℤ (pos 50) (pos 1 +ℤ resolver.ttl) ≡ false
        → resolve (function_map Item) text (λ _. failed) (pos 50) (pos 51) domain r'
          ≡ accept (function_map Item) (pos 51) domain [] failed r')
unfolding target_of has_byte cached new first_address ◌+ℤ◌ wrap_int64
resolve_again_example =
    resolve_again (function_map Item) text (λ _. answered answers) (λ _. failed) (pos 0) (pos 1)
      (pos 50) (pos 51) domain domain domain [] [] ip answers resolver refl refl refl refl refl refl
