-- ===== src/Socks5/Packet/Bounds.antt =====
-- Which packets make Parse of PacketUDP panic.
use jocasta.Prelude.{
  ℕ, ap, ◌∙◌, ◌*◌, ◌+◌, ◌%◌, ◌<◌, ◌≤◌, ◌≡◌, ◌≢◌, refl, ◌⊎◌, inl, inr, get_elem?-lt, true, false, [],
  ◌∷◌, length, take, drop, leb, ◌==◌, arith, Bool-cases,
}
use jocasta.Go.Result.{ok, err, panic}
use jocasta.Go.Io.{Bytes}
use jocasta.Go.Slice.{index, slice, slice_from, slice_ok, slice_from_ok}
use jocasta.Go.Net.{AddrText, ipv4}
use jocasta.Socks5.{Error, too_short, frag_unsupported, atyp_ipv4, atyp_domain, atyp_ipv6}
use jocasta.Socks5.Packet.{Packet, itoa, parse, host_at, port_at, long_enough}

index_ok : (b : Bytes) (i : ℕ) → i < length b → (v : ℕ) × (index {E = Error} b i ≡ ok v)
unfolding index
index_ok b i h = let (v, e) = get_elem?-lt b i h in (v, rw (index, e) refl)

port_at_ok : (b : Bytes) (i : ℕ) → i + 2 ≤ length b → (p : Bytes × Bytes) × (port_at b i ≡ ok p)
unfolding port_at
port_at_ok b i h =
    let (hi, e) = index_ok b i (omega arith) in
    let (lo, k) = index_ok b (i + 1) (omega arith) in
    (
      (itoa (hi * 256 + lo), drop (i + 2) b),
      rw (port_at, e, k, slice_from_ok {E = Error} b (i + 2) h) refl,
    )

-- Behind the test on the length there are the host and the port.
module _ (t : AddrText) (b : Bytes) (a d : ℕ) (long : 9 ≤ length b)
    (at_four : index {E = Error} b 4 ≡ ok d) where
  abbrev Readable : Type 0
  Readable =
      (h : Bytes × ℕ) × (p : Bytes × Bytes) × (long_enough b a ≡ ok tt)
      × (host_at t b a ≡ ok h)
      × (port_at b h.1 ≡ ok p)

  readable_ipv4 : (a == atyp_ipv4) ≡ true → leb 11 (length b) ≡ true → Readable
  unfolding long_enough host_at
  readable_ipv4 k l =
      let (p, e) = port_at_ok b 8 (ground (arith)) in
      (
        (t.ip_string (ipv4 (drop 4 (take 8 b))), 8),
        p,
        rw (long_enough, k, l) refl,
        rw (host_at, k, slice_ok {E = Error} b 4 8 (omega arith) (ground (arith))) refl,
        e,
      )

  readable_domain :
      (a == atyp_ipv4) ≡ false
      → (a == atyp_domain) ≡ true
      → d < 251
      → leb (d + 7) (length b) ≡ true
      → Readable
  unfolding long_enough host_at
  readable_domain n k s l =
      let (p, e) = port_at_ok b ((5 + d) % 256) (ground (arith)) in
      (
        (drop 5 (take ((5 + d) % 256) b), (5 + d) % 256),
        p,
        rw (long_enough, n, k, at_four, l) refl,
        rw
            (
              host_at,
              n,
              k,
              at_four,
              slice_ok {E = Error} b 5 ((5 + d) % 256) (omega arith) (ground (arith)),
            )
            refl,
        e,
      )

  readable_ipv6 :
      (a == atyp_ipv4) ≡ false
      → (a == atyp_domain) ≡ false
      → (a == atyp_ipv6) ≡ true
      → leb 22 (length b) ≡ true
      → Readable
  unfolding long_enough host_at
  readable_ipv6 n m k l =
      let (p, e) = port_at_ok b 20 (ground (arith)) in
      (
        (t.ip_string (drop 4 (take 20 b)), 20),
        p,
        rw (long_enough, n, m, k, l) refl,
        rw (host_at, n, m, k, slice_ok {E = Error} b 4 20 (omega arith) (ground (arith))) refl,
        e,
      )

  readable_other :
      (a == atyp_ipv4) ≡ false → (a == atyp_domain) ≡ false → (a == atyp_ipv6) ≡ false → Readable
  unfolding long_enough host_at
  readable_other n m k =
      let (p, e) = port_at_ok b 0 (omega arith) in
      (([], 0), p, rw (long_enough, n, m, k) refl, rw (host_at, n, m, k) refl, e)

  readable : ((a == atyp_domain) ≡ true → d < 251) → (long_enough b a ≡ err too_short) ⊎ Readable
  unfolding long_enough
  readable s = elim (Bool-cases (a == atyp_ipv4)) [
    | inl k ↦ elim (Bool-cases (leb 11 (length b))) [
      | inl l ↦ inr (readable_ipv4 k l)
      | inr l ↦ inl (rw (long_enough, k, l) refl)
    ]
    | inr n ↦ elim (Bool-cases (a == atyp_domain)) [
      | inl k ↦ elim (Bool-cases (leb (d + 7) (length b))) [
        | inl l ↦ inr (readable_domain n k (s k) l)
        | inr l ↦ inl (rw (long_enough, n, k, at_four, l) refl)
      ]
      | inr m ↦ elim (Bool-cases (a == atyp_ipv6)) [
        | inl k ↦ elim (Bool-cases (leb 22 (length b))) [
          | inl l ↦ inr (readable_ipv6 n m k l)
          | inr l ↦ inl (rw (long_enough, n, m, k, l) refl)
        ]
        | inr k ↦ inr (readable_other n m k)
      ]
    ]
  ]

-- What a packet with a short domain, or none, leads to.
parse_settles :
    (t : AddrText) (b : Bytes)
    → (index {E = Error} b 3 ≡ ok atyp_domain → (d : ℕ) → index {E = Error} b 4 ≡ ok d → d < 251)
    → ((x : Error) × (parse t b ≡ err x)) ⊎ ((p : Packet) × (parse t b ≡ ok p))
unfolding parse
parse_settles t b h = elim (Bool-cases (leb 9 (length b))) [
  | inr l ↦ inl (too_short, rw (parse, l) refl)
  | inl l ↦
      let (f, e2) = index_ok b 2 (ground (arith)) in
      let (a, e3) = index_ok b 3 (ground (arith)) in
      let (d, e4) = index_ok b 4 (ground (arith)) in
      elim (Bool-cases (f == 0)) [
        | inr z ↦ inl (frag_unsupported, rw (parse, l, e2, z) refl)
        | inl z ↦
            elim (readable t b a d (ground (arith)) e4
              (λ k. h (e3 ∙ ap (λ n. ok n) (type_of a k)) d e4)) [
                | inl k ↦ inl (too_short, rw (parse, l, e2, z, e3, k) refl)
                | inr (hp, p, k1, k2, k3) ↦ inr (
                  record { frag = f; atype = a; dst_host = hp.0; dst_port = p.0; contents = p.1 },
                  rw (parse, l, e2, z, e3, k1, k2, k3) refl,
                )
              ]
      ]
]
  where
    type_of : (a : ℕ) → (a == atyp_domain) ≡ true → a ≡ atyp_domain
    type_of a k = ground (arith)

-- Parse guards its index and slice expressions: a packet that is no domain packet, or whose domain is
-- shorter than 251 bytes, does not make it panic.
pub parse-ne-panic :
    (t : AddrText) (b : Bytes)
    → (index {E = Error} b 3 ≡ ok atyp_domain → (d : ℕ) → index {E = Error} b 4 ≡ ok d → d < 251)
    → parse t b ≢ panic
parse-ne-panic t b h e = elim (parse_settles t b h) [ inl (x, k) ↦ cc | inr (p, k) ↦ cc ]

-- A whole packet with a domain of 251 bytes or more makes it panic: the end of the domain wraps.
pub parse_panics :
    (t : AddrText) (x y d : ℕ) (b : Bytes)
    → 251 ≤ d
    → d < 256
    → d + 2 ≤ length b
    → parse t (x ∷ y ∷ 0 ∷ atyp_domain ∷ d ∷ b) ≡ panic
unfolding parse index slice slice_from host_at port_at long_enough
parse_panics t x y d b l h k = ground (arith)
