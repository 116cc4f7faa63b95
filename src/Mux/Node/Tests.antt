-- ===== src/Mux/Node/Tests.antt =====
-- A server node and a client node with the same secret key.
use jocasta.Prelude.{ℕ, ◌≡◌, true, false, Option, none, some, [], ◌∷◌}
use jocasta.Go.Result.{err}
use jocasta.Go.Io.{Bytes}
use jocasta.Go.Conn.{fresh_conn}
use jocasta.Go.Text.{ascii}
use jocasta.Connection.Manager.Entries.{entries}
use jocasta.Through.{Codec}
use jocasta.Mux.Bridge.{Nego, server, Bridge}
use jocasta.Mux.Node.{Parent, get_conn, refused}
use jocasta.Mux.Node.Meets.{welcome}
use jocasta.Mux.Node.Sessions.{is_ok, get_conn_lem}

-- A message is the secret key of one byte, and the rest.
abbrev decode : Bytes → Option Nego
decode [] = none
decode (k ∷ id) = some (record { secret_key = k ∷ []; id = id })

abbrev encode_key : Bytes → Bytes → Option Bytes
encode_key [] id = none
encode_key (k ∷ []) id = some (k ∷ id)
encode_key (k ∷ _ ∷ _) id = none

abbrev codec : Codec Nego
codec = record { marshal = λ m. encode_key m.secret_key m.id; unmarshal = decode }

abbrev secret : Bytes
secret = 7 ∷ []

abbrev server_bytes : Bytes
server_bytes = 2 ∷ 1 ∷ 2 ∷ 7 ∷ 9 ∷ []

abbrev client_bytes : Bytes
client_bytes = 1 ∷ 1 ∷ 9 ∷ 7 ∷ ascii "reserved"

abbrev bridge : Bridge (entries ℕ)
bridge = record {
  store = record { session = λ j. record { role = server; key = []; closed = true }; made = 0 };
  clients = (entries ℕ).empty;
  servers = (entries ℕ).empty;
}

abbrev parent : Parent
parent = record { conn = some (fresh_conn (welcome ∷ []) 1); makes = true; opens = true }

-- A bridge that answers with a status of failure.
abbrev refusing : Parent
refusing = record { conn = some (fresh_conn ((2 ∷ 1 ∷ []) ∷ []) 1); makes = true; opens = true }

get_conn_lem_example :
    ((get_conn codec secret (9 ∷ []) refusing false).session
      ≡ is_ok (get_conn codec secret (9 ∷ []) refusing false).result)
    × ((get_conn codec secret (9 ∷ []) refusing false).result ≡ err refused
        → (get_conn codec secret (9 ∷ []) refusing false).closed ≡ false)
get_conn_lem_example = get_conn_lem codec secret (9 ∷ []) refusing false
