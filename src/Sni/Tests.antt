-- ===== src/Sni/Tests.antt =====
-- A ClientHello for the name "ab", behind one other extension.
use jocasta.Prelude.{◌+◌, ◌≡◌, refl, [], ◌∷◌, ◌++◌, length, arith}
use jocasta.Go.Result.{ok, panic}
use jocasta.Go.Io.{Bytes, over, eof}
use jocasta.Sni.{extensions, client_hello, server_name_from_conn}
use jocasta.Sni.Extensions.{Extension}
use jocasta.Sni.Hello.{Hello}
use jocasta.Sni.Connection.{
  record_bytes, IsRecord, server_name_from_conn-Hello, server_name_from_conn_loses,
}
use jocasta.Sni.Fuel.{extensions_fuel}
use jocasta.Sni.Panics.{client_hello_panics}

abbrev eight : Bytes
eight = 0 ∷ 1 ∷ 2 ∷ 3 ∷ 4 ∷ 5 ∷ 6 ∷ 7 ∷ []

-- The length of the message, the version and the random bytes.
abbrev start : Bytes
start = 0 ∷ 0 ∷ 64 ∷ 3 ∷ 3 ∷ (eight ++ (eight ++ (eight ++ eight)))

abbrev groups : Extension
groups = record {
  type_high = 0;
  type_low = 10;
  length_high = 0;
  length_low = 2;
  contents = 0 ∷ 29 ∷ [];
}

abbrev hello : Hello
hello = record {
  start = start;
  session_id = 9 ∷ [];
  suites_high = 0;
  suites_low = 2;
  suites = 0x13 ∷ 0x01 ∷ [];
  methods = 0 ∷ [];
  extensions_high = 0;
  extensions_low = 17;
  others = groups ∷ [];
  data_high = 0;
  data_low = 7;
  list_high = 0;
  list_low = 5;
  name_high = 0;
  name_low = 2;
  first = 97;
  letters = 98 ∷ [];
  post = [];
}

hello-IsRecord : IsRecord 1 0 65 hello
hello-IsRecord = record {
  hello = record {
    fixed = refl;
    suites_fit = refl;
    name_fits = refl;
    no_names = (record { other = refl; fits = refl }, tt);
  };
  version = omega arith;
  length_fits = refl;
  buffered = omega arith;
}

server_name_from_conn-Hello_example :
    server_name_from_conn
      (length (record_bytes 1 0 65 hello))
      (over (record_bytes 1 0 65 hello ++ 7 ∷ []) eof)
    ≡ ok (97 ∷ 98 ∷ [], over (record_bytes 1 0 65 hello ++ 7 ∷ []) eof)
server_name_from_conn-Hello_example =
    server_name_from_conn-Hello 1 0 65 hello hello-IsRecord (7 ∷ []) eof

server_name_from_conn_loses_example :
    (server_name_from_conn 71 (over (record_bytes 1 0 65 hello ++ 7 ∷ 8 ∷ []) eof)
      ≡ ok (97 ∷ 98 ∷ [], over (record_bytes 1 0 65 hello ++ 8 ∷ []) eof))
    × (1 + 1 ≡ 2)
server_name_from_conn_loses_example =
    server_name_from_conn_loses 1 0 65 hello hello-IsRecord (7 ∷ 8 ∷ []) eof 71 (omega arith)
      (omega arith)

client_hello_panics_example : client_hello (1 ∷ start) ≡ panic
client_hello_panics_example = client_hello_panics start refl

extensions_fuel_example : extensions 9 eight 0 [] ≡ extensions 8 eight 0 []
extensions_fuel_example = extensions_fuel 8 eight 0 [] (omega arith)
