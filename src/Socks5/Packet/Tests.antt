-- ===== src/Socks5/Packet/Tests.antt =====
-- Packets for the theorems about Parse.
use jocasta.Prelude.{ℕ, zero, suc, ◌<◌, ◌≡◌, ◌≢◌, none, [], ◌∷◌, arith}
use jocasta.Go.Result.{ok, panic}
use jocasta.Go.Io.{Bytes}
use jocasta.Go.Net.{AddrText}
use jocasta.Go.Slice.{index}
use jocasta.Socks5.{Error, atyp_domain}
use jocasta.Socks5.Packet.{parse}
use jocasta.Socks5.Packet.Bounds.{parse-ne-panic, parse_panics}

-- No text is an address.
abbrev none_text : AddrText
none_text = record { parse_ip = λ s. none; ip_string = λ ip. [] }

-- The domain "ab" at port 80, with one byte behind.
abbrev packet : Bytes
packet = 0 ∷ 0 ∷ 0 ∷ 3 ∷ 2 ∷ 97 ∷ 98 ∷ 0 ∷ 80 ∷ 7 ∷ []

short_domain : (d : ℕ) → index {E = Error} packet 4 ≡ ok d → d < 251
unfolding index
short_domain d e = ground (arith)

parse-ne-panic_example : parse none_text packet ≢ panic
parse-ne-panic_example = parse-ne-panic none_text packet (λ _. short_domain)

abbrev repeat : ℕ → Bytes
repeat zero = []
repeat (suc n) = 97 ∷ repeat n

parse_panics_example : parse none_text (0 ∷ 0 ∷ 0 ∷ atyp_domain ∷ 251 ∷ repeat 253) ≡ panic
parse_panics_example =
    parse_panics none_text 0 0 251 (repeat 253) (omega arith) (omega arith) (omega arith)
