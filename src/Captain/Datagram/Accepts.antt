-- ===== src/Captain/Datagram/Accepts.antt =====
-- What ParseDatagram accepts, on any packet at all.
use jocasta.Prelude.{
  ℕ, suc, ◌+◌, ◌-◌, ◌*◌, ◌/◌, ◌%◌, ◌≤◌, ◌<◌, ◌≡◌, ◌≢◌, refl, ap, sym, ◌∙◌, [], ◌∷◌, ◌++◌, length,
  take, drop, arith, All-take, All-drop, ltb, Bool-cases, inl, inr, leb, length-drop, cut_twice,
  length-take,
}
use mathlib.Core.Path.{subst}
use native.Mathlib.Decide.{ℕ_discrete}
use jocasta.Prelude.Int.{pos}
use jocasta.Go.Result.{ok, panic, >>=_inv, ensure}
use jocasta.Go.Io.{Bytes, IsByte, IsBytes}
use jocasta.Go.Net.{ipv4, big_endian}
use jocasta.Go.Slice.{index, slice, slice_from, slice_inv}
use jocasta.Captain.{Error, too_short}
use jocasta.Captain.Datagram.{
  Datagram, build, parse_ipv4, parse_ipv6, parse_domain, parse_datagram, datagram_bytes,
}
use jocasta.Captain.Datagram.Wire.{IsWire, wire}
use jocasta.Captain.Datagram.RoundTrip.{datagram_bytes_shape}

-- ParseDatagram guards each of its index and slice expressions: no packet makes it panic.
pub parse_datagram-ne-panic : (b : Bytes) → parse_datagram b ≢ panic
unfolding parse_datagram parse_ipv4 parse_ipv6 parse_domain build index slice slice_from
parse_datagram-ne-panic (r ∷ t ∷ n ∷ b) = ground arith
parse_datagram-ne-panic _ = λ e. cc

-- Two bytes are the number that they encode.
two_bytes :
    (xs : Bytes)
    → length xs ≡ 2
    → IsBytes xs
    → (p : ℕ) × (p < 65536) × (big_endian xs ≡ p) × (xs ≡ p / 256 ∷ p % 256 ∷ [])
two_bytes (a ∷ b ∷ []) l h = (a * 256 + b, ground arith, refl, ground arith)
two_bytes _ l h = absurd (ground arith)

-- The bytes from which `build` took the port and the payload.
build_inv :
    (b : Bytes) (r t : ℕ) (fqdn ip : Bytes) (head_len : ℕ) {d : Datagram}
    → IsBytes b
    → 2 ≤ head_len
    → build b r t fqdn ip head_len ≡ ok d
    → (p : ℕ) × (p < 65536)
      × (d.reserved ≡ r)
      × (d.addr ≡ record { fqdn = fqdn; ip = ip; port = pos p; addr_type = t })
      × (b ≡ take (head_len - 2) b ++ p / 256 ∷ p % 256 ∷ d.payload)
unfolding build slice slice_from
build_inv b r t fqdn ip head_len {d} bytes long h = elim (Bool-cases (leb head_len (length b))) [
  | inr beyond ↦ absurd (ground arith)
  | inl fits ↦
      let cut = take head_len b in
      let at_least : head_len ≤ length b = ground arith in
      let (p, hp, e, s) =
        two_bytes (drop (head_len - 2) cut)
          (omega (arith, length-drop (head_len - 2) cut, length-take head_len b at_least))
          (All-drop IsByte (head_len - 2) cut (All-take IsByte head_len b bytes)) in
      (
        p,
        hp,
        ground arith,
        ground (arith, e),
        ground (arith, s, cut_twice (head_len - 2) head_len b),
      )
]

-- The wire form of what was accepted.
abbrev Framed : Bytes → Datagram → Type 0
Framed b d = (w : IsWire d.addr) × (b ≡ d.reserved ∷ d.addr.addr_type ∷ wire w d.payload)

take_three : (b : Bytes) (n m : ℕ) → m ≡ 3 + n → take m b ≡ take (suc (suc (suc n))) b
take_three b n m h = ap (λ t. take t b) {y = suc (suc (suc n))} (omega arith)

module _ (r : ℕ) (b : Bytes) {d : Datagram} where
  parse_ipv4_inv : IsBytes (r ∷ 1 ∷ b) → parse_ipv4 (r ∷ 1 ∷ b) r ≡ ok d → Framed (r ∷ 1 ∷ b) d
  unfolding parse_ipv4
  parse_ipv4_inv bytes h =
      let b' : Bytes = r ∷ 1 ∷ b in
      let (q, s, k) = >>=_inv (slice b' 2 6) _ h in
      let (cut, l) = slice_inv {E = Error} b' 2 6 s in
      let (p, hp, er, ea, eb) = build_inv b' r 1 [] (ipv4 q) 8 bytes (omega arith) k in
      (IsWire.ipv4 q p (omega arith) hp ea, ground (arith, eb, er, ea, cut))

  parse_ipv6_inv : IsBytes (r ∷ 4 ∷ b) → parse_ipv6 (r ∷ 4 ∷ b) r ≡ ok d → Framed (r ∷ 4 ∷ b) d
  unfolding parse_ipv6
  parse_ipv6_inv bytes h =
      let b' : Bytes = r ∷ 4 ∷ b in
      let (_, _, g) = >>=_inv (ensure (ltb 20 (length b')) too_short) _ h in
      let (q, s, k) = >>=_inv (slice b' 2 18) _ g in
      let (cut, l) = slice_inv {E = Error} b' 2 18 s in
      let (p, hp, er, ea, eb) = build_inv b' r 4 [] q 20 bytes (omega arith) k in
      (IsWire.ipv6 q p (omega arith) hp ea, ground (arith, eb, er, ea, cut))

  parse_domain_inv :
      (n : ℕ)
      → IsBytes (r ∷ 3 ∷ n ∷ b)
      → parse_domain (r ∷ 3 ∷ n ∷ b) r ≡ ok d
      → Framed (r ∷ 3 ∷ n ∷ b) d
  unfolding parse_domain index
  parse_domain_inv n bytes h =
      let b' : Bytes = r ∷ 3 ∷ n ∷ b in
      let head_len = 2 + (1 + n + 2) in
      let (_, _, g) = >>=_inv (ensure (ltb head_len (length b')) too_short) _ h in
      let (q, s, k) = >>=_inv (slice b' 3 (3 + n)) _ g in
      let (cut, l) = slice_inv {E = Error} b' 3 (3 + n) s in
      let (p, hp, er, ea, eb) = build_inv b' r 3 q [] head_len bytes (omega arith) k in
      (
        IsWire.domain q p (omega arith) hp ea,
        ground (
          arith,
          eb,
          er,
          ea,
          cut,
          l,
          take_three (r ∷ 3 ∷ n ∷ b) n (3 + n),
          take_three (r ∷ 3 ∷ n ∷ b) n (head_len - 2),
        ),
      )

module _ (r n : ℕ) (b : Bytes) (d : Datagram) where
  -- What is shown of a packet with the address type `t`.
  abbrev IsFramed : ℕ → Type 0
  IsFramed t =
      IsBytes (r ∷ t ∷ n ∷ b) → parse_datagram (r ∷ t ∷ n ∷ b) ≡ ok d → Framed (r ∷ t ∷ n ∷ b) d

  IsFramed-of_type : (t : ℕ) → IsFramed t
  unfolding parse_datagram index
  IsFramed-of_type t = elim (ℕ_discrete t 1) [
    | yes e ↦ subst IsFramed (sym e) λ bytes h. parse_ipv4_inv r (n ∷ b) bytes (ground arith)
    | no ne1 ↦ elim (ℕ_discrete t 4) [
      | yes e ↦ subst IsFramed (sym e) λ bytes h. parse_ipv6_inv r (n ∷ b) bytes (ground arith)
      | no ne4 ↦ elim (ℕ_discrete t 3) [
        | yes e ↦ subst IsFramed (sym e) λ bytes h. parse_domain_inv r b n bytes (ground arith)
        | no ne3 ↦ λ bytes h. absurd (ground arith)
      ]
    ]
  ]

Framed-of_ok : (b : Bytes) {d : Datagram} → IsBytes b → parse_datagram b ≡ ok d → Framed b d
unfolding parse_datagram
Framed-of_ok (r ∷ t ∷ n ∷ b) {d} bytes h = IsFramed-of_type r n b d t bytes h
Framed-of_ok _ bytes h = cc

-- Whatever ParseDatagram accepts has a wire address, and (*Datagram).Bytes writes the same packet.
pub datagram_bytes-parse_datagram :
    (b : Bytes) (d : Datagram)
    → IsBytes b
    → parse_datagram b ≡ ok d
    → IsWire d.addr × (datagram_bytes d ≡ ok b)
datagram_bytes-parse_datagram b d bytes h =
    let (w, e) = Framed-of_ok b bytes h in (w, datagram_bytes_shape d w ∙ ap ok (sym e))
