-- ===== src/Through/RoundTrip.antt =====
-- pkg/through: what Bytes writes, the parsers read.
use jocasta.Prelude.{ℕ, ◌≡◌, refl, ap, ◌∙◌, some, ◌++◌, inl, inr, Option-cases}
use jocasta.Go.Result.{ok, err, panic, Result-cases}
use jocasta.Go.Io.{Bytes, ReadError, over}
use jocasta.Captain.Stream.{Request, request_bytes}
use jocasta.Captain.Stream.RoundTrip.{parse_request-request_bytes}
use jocasta.Through.{
  Codec, bad_message, of_captain, NegotiateRequest, HandshakeRequest, parse_message,
  parse_negotiate_request, parse_handshake_request, message_bytes, negotiate_request_bytes,
  handshake_request_bytes,
}

module _ {M : Type 0} (codec : Codec M)
    (undoes : (m : M) (b : Bytes) → codec.marshal m ≡ some b → codec.unmarshal b ≡ some m) where
  abbrev framed : ℕ → ℕ → Bytes → Request
  framed types v b = record { types = types; version = v; payload = b }

  message_bytes_inv :
      (types v : ℕ) (m : M) (bs : Bytes)
      → message_bytes codec types v m ≡ ok bs
      → (b : Bytes) × (codec.marshal m ≡ some b) × (request_bytes (framed types v b) ≡ ok bs)
  unfolding message_bytes
  message_bytes_inv types v m bs h = elim (Option-cases (codec.marshal m)) [
    | inl n ↦
        let no : message_bytes codec types v m ≡ err bad_message = rw (message_bytes, n) refl in cc
    | inr p ↦ elim (Result-cases (request_bytes (framed types v p.0))) [
      | inl q ↦
          let found : message_bytes codec types v m ≡ ok q.0 = rw (message_bytes, p.1, q.1) refl in
          let same : q.0 ≡ bs = cc in (p.0, p.1, q.1 ∙ ap ok same)
      | inr (inl q) ↦
          let no : message_bytes codec types v m ≡ err (of_captain q.0) =
            rw (message_bytes, p.1, q.1) refl in
          cc
      | inr (inr q) ↦
          let no : message_bytes codec types v m ≡ panic = rw (message_bytes, p.1, q) refl in cc
    ]
  ]

  parse_message-message_bytes :
      (types v : ℕ) (m : M) (bs ys : Bytes) (e : ReadError)
      → message_bytes codec types v m ≡ ok bs
      → (b : Bytes) × (parse_message codec (over (bs ++ ys) e)
          ≡ ok (framed types v b, m, over ys e))
  unfolding parse_message
  parse_message-message_bytes types v m bs ys e h =
      let (b, f, g) = message_bytes_inv types v m bs h in
      (
        b,
        rw (parse_message, parse_request-request_bytes (framed types v b) bs ys e g, undoes m b f)
            refl,
      )

  pub negotiate_request_back :
      (r : NegotiateRequest M) (bs ys : Bytes) (e : ReadError)
      → negotiate_request_bytes codec r ≡ ok bs
      → parse_negotiate_request codec (over (bs ++ ys) e) ≡ ok (r, over ys e)
  unfolding parse_negotiate_request negotiate_request_bytes
  negotiate_request_back r bs ys e h =
      rw
        (
          parse_negotiate_request,
          (parse_message-message_bytes r.types r.version r.nego bs ys e h).1,
        )
        refl

  pub handshake_request_back :
      (r : HandshakeRequest M) (bs ys : Bytes) (e : ReadError)
      → handshake_request_bytes codec r ≡ ok bs
      → parse_handshake_request codec (over (bs ++ ys) e) ≡ ok (r, over ys e)
  unfolding parse_handshake_request handshake_request_bytes
  handshake_request_back r bs ys e h =
      rw (parse_handshake_request, (parse_message-message_bytes 0 r.version r.hand bs ys e h).1)
        refl

  -- What a node writes as its negotiate request or its handshake request is read back, and what follows
  -- is left in the reader. Unmarshal is to undo Marshal.
  pub parse_negotiate_request-negotiate_request_bytes :
      (r : NegotiateRequest M) (s : HandshakeRequest M) (bs cs ys : Bytes) (e : ReadError)
      → negotiate_request_bytes codec r ≡ ok bs
      → handshake_request_bytes codec s ≡ ok cs
      → (parse_negotiate_request codec (over (bs ++ ys) e) ≡ ok (r, over ys e))
        × (parse_handshake_request codec (over (cs ++ ys) e) ≡ ok (s, over ys e))
  parse_negotiate_request-negotiate_request_bytes r s bs cs ys e h k =
      (negotiate_request_back r bs ys e h, handshake_request_back s cs ys e k)
