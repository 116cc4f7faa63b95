-- ===== src/Captain/Addr.antt =====
-- core/captain/addr.go.
use jocasta.Prelude.{[], none, some}
use jocasta.Prelude.Int.{ℤ}
use jocasta.Go.Result.{Result, ok, ◌>>=◌, map_err}
use jocasta.Go.Io.{Bytes}
use jocasta.Go.Net.{AddrText, to4, to16, or_empty}
use jocasta.Go.HostPort.{split_host_port, atoi}
use jocasta.Captain.{Error, addr, AddrSpec, atyp_ipv4, atyp_domain, atyp_ipv6}

-- What ParseAddrSpec makes of the host and of the IP it may be.
unfoldable pub classify : Bytes → Bytes → ℤ → AddrSpec
classify host ip port = elim (to4 ip) [
  | some _ ↦ record { fqdn = []; ip = ip; port = port; addr_type = atyp_ipv4 }
  | none ↦ elim (to16 ip) [
    | some _ ↦ record { fqdn = []; ip = ip; port = port; addr_type = atyp_ipv6 }
    | none ↦ record { fqdn = host; ip = []; port = port; addr_type = atyp_domain }
  ]
]

-- ParseAddrSpec.
unfoldable pub parse_addr_spec : AddrText → Bytes → Result Error AddrSpec
unfolding classify
parse_addr_spec t s = do
  (host, port_text) ← map_err addr (split_host_port s)
  port ← map_err addr (atoi port_text)
  ok (classify host (or_empty (t.parse_ip host)) port)
