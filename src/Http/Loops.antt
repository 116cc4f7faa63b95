-- ===== src/Http/Loops.antt =====
-- services/http/http.go: when IsDeadLoop takes an unresolved host for its own address.
use jocasta.Prelude.{
  ◌≡◌, refl, Bool, true, ◌||◌, none, some, inl, inr, List, [], ◌∷◌, ◌++◌, arith, Option-cases,
}
use jocasta.Go.Result.{ok}
use jocasta.Go.Io.{Bytes}
use jocasta.Go.Net.{AddrText, bytes_eq, bytes_eq_refl, to4, or_empty}
use jocasta.Go.HostPort.{split_host_port}
use jocasta.Http.{Config, any_equal, any_shared, four_bytes, out_ips, leads_back, is_dead_loop}

or_true : (b : Bool) → (b || true) ≡ true
or_true b = ground arith

-- No address at all.
abbrev nil : List Bytes
nil = [] ∷ []

any_shared-append :
    (locals bs outs : List Bytes)
    → any_shared bs outs ≡ true
    → any_shared (locals ++ bs) outs ≡ true
unfolding any_shared
any_shared-append [] bs outs h = h
any_shared-append (a ∷ locals) bs outs h = ground (arith, any_shared-append locals bs outs h)

four_bytes_shared :
    (t : AddrText) (pre post : List Bytes) (x y : Bytes)
    → t.parse_ip x ≡ some y
    → to4 y ≡ none
    → any_shared (four_bytes t (pre ++ (x ∷ post))) nil ≡ true
unfolding four_bytes any_shared any_equal bytes_eq
four_bytes_shared t [] post x y e f = rw (e, f) refl
four_bytes_shared t (p ∷ pre) post x y e f =
    let rest = four_bytes_shared t pre post x y e f in
    elim (Option-cases (t.parse_ip p)) [
      | inl n ↦ rw n refl
      | inr z ↦
          rw z.1 (
            any_shared-append (or_empty (to4 z.0) ∷ []) (four_bytes t (pre ++ (x ∷ post))) nil rest)
    ]

unresolved :
    (e : Config) (host : Bytes)
    → e.has_dns ≡ true
    → e.text.parse_ip (e.resolve host) ≡ none
    → out_ips e host ≡ some nil
unfolding out_ips
unresolved e host d n = rw (out_ips, d, n) refl

-- If a DNS server is configured and LocalIPS has an address of IPv6, a request for a host that is not
-- resolved is taken for a dead loop whenever its port is the one the service listens on: a nil address is
-- equal to a nil address.
pub is_dead_loop_unresolved :
    (e : Config) (in_local target in_ip host port x y : Bytes) (pre post ips : List Bytes)
    → split_host_port in_local ≡ ok (in_ip, port)
    → split_host_port target ≡ ok (host, port)
    → e.has_dns ≡ true
    → e.text.parse_ip (e.resolve host) ≡ none
    → e.system_ips ≡ some ips
    → e.local_ips ≡ pre ++ (x ∷ post)
    → e.text.parse_ip x ≡ some y
    → to4 y ≡ none
    → is_dead_loop e in_local target ≡ true
unfolding is_dead_loop leads_back
is_dead_loop_unresolved e in_local target in_ip host port x y pre post ips a b d n s l p q =
    let shared =
      any_shared-append ips (four_bytes e.text (pre ++ (x ∷ post))) nil
        (four_bytes_shared e.text pre post x y p q) in
    rw (is_dead_loop, a, b, bytes_eq_refl port, leads_back, s, l, unresolved e host d n, shared)
      (or_true _)
