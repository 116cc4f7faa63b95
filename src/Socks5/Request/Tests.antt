-- ===== src/Socks5/Request/Tests.antt =====
-- A reply with a host name.
use jocasta.Prelude.{none, [], ◌∷◌}
use jocasta.Go.Io.{Bytes}
use jocasta.Go.Net.{AddrText}

-- No text is an address.
abbrev none_text : AddrText
none_text = record { parse_ip = λ s. none; ip_string = λ ip. [] }

-- "a:1"
abbrev addr : Bytes
addr = 97 ∷ 58 ∷ 49 ∷ []
