-- ===== src/Shadowsocks/Tests.antt =====
-- The domain "ab" at port 80.
use jocasta.Prelude.{◌≡◌, none, [], ◌∷◌}
use jocasta.Go.Result.{ok}
use jocasta.Go.Io.{over, eof}
use jocasta.Go.Net.{AddrText}
use jocasta.Go.HostPort.{join_host_port}
use jocasta.Socks5.Packet.{itoa}
use jocasta.Shadowsocks.{parse_request, type_domain}
use jocasta.Shadowsocks.Reads.{parse_request-domain}

-- No text is an address.
abbrev none_text : AddrText
none_text = record { parse_ip = λ s. none; ip_string = λ ip. [] }

parse_request-domain_example :
    parse_request none_text (over (type_domain ∷ 2 ∷ 97 ∷ 98 ∷ 0 ∷ 80 ∷ 7 ∷ []) eof)
    ≡ ok (join_host_port (97 ∷ 98 ∷ []) (itoa 80), over (7 ∷ []) eof)
parse_request-domain_example = parse_request-domain none_text (97 ∷ 98 ∷ []) (7 ∷ []) 0 80 eof
