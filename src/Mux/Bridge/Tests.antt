-- ===== src/Mux/Bridge/Tests.antt =====
-- A client node joins, and a server's stream asks for it.
use jocasta.Prelude.{ℕ, Bool, ◌≡◌, ◌≤◌, refl, true, false, some, [], ◌∷◌}
use jocasta.Go.Io.{Bytes, eof, over, read_full}
use jocasta.Captain.DataLen.{parse_data_len, parse_data_len_loop}
use jocasta.Go.Net.{bytes_eq}
use jocasta.Captain.{read}
use jocasta.Captain.Stream.{parse_request}
use jocasta.Connection.Manager.Entries.{entries}
use jocasta.Through.{Codec, parse_negotiate_request, parse_message}
use jocasta.Mux.Bridge.{
  Nego, client, server, Bridge, Incoming, opened, attempt, retry, max_retries, handler, take,
  take_client, close_old, add,
}
use jocasta.Mux.Bridge.Sound.{IsListed, IsKept}
use jocasta.Mux.Bridge.Runs.{Reachable, start, next, handled, Reachable-IsSound}
use jocasta.Mux.Bridge.Binds.{retry-attempt}

abbrev text_of : Nego → Bytes
text_of m = m.secret_key

abbrev codec : Codec Nego
codec = record {
  marshal = λ m. some m.secret_key;
  unmarshal = λ b. some (record { secret_key = b; id = [] });
}

abbrev secret : Bytes
secret = 7 ∷ []

abbrev node : Incoming
node = record { reader = over (1 ∷ 1 ∷ 1 ∷ 7 ∷ []) eof; addr = 97 ∷ []; makes = true }

abbrev bridge : Bridge (entries ℕ)
bridge = record {
  store = record { session = λ j. record { role = server; key = []; closed = true }; made = 0 };
  clients = (entries ℕ).empty;
  servers = (entries ℕ).empty;
}

abbrev joined : Bridge (entries ℕ)
joined = (handler (entries ℕ) codec node bridge).1

joined_reached : (strict : Bool) → Reachable (entries ℕ) strict codec joined
joined_reached strict = next (start bridge.store) (handled node)

Reachable-IsSound_example :
    IsListed (entries ℕ) joined.store joined.clients
    × (true ≡ true → IsKept (entries ℕ) joined.store joined.clients)
Reachable-IsSound_example = Reachable-IsSound (entries ℕ) true (joined_reached true)

binds : retry max_retries (λ k. attempt (entries ℕ) secret false opened joined) 0 ≡ some 0
unfolding retry attempt handler take take_client close_old add parse_negotiate_request parse_message
    parse_request parse_data_len parse_data_len_loop read read_full bytes_eq
binds = refl

retry-attempt_example :
    (k : ℕ) × (k ≤ 10)
    × ((entries ℕ).get secret joined.clients ≡ some 0)
    × ((joined.store.session 0).role ≡ client)
    × ((joined.store.session 0).key ≡ secret)
    × ((joined.store.session 0).closed ≡ false)
retry-attempt_example =
    retry-attempt (entries ℕ) codec secret (λ k. false) (λ k. opened) (λ k. joined) 0
      (λ k. joined_reached false) binds
