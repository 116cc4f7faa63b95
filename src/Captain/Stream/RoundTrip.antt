-- ===== src/Captain/Stream/RoundTrip.antt =====
-- Requests and replies, written and read back.
use jocasta.Prelude.{
  ℕ, ◌≤◌, ◌<◌, ◌≡◌, refl, [], ◌∷◌, ◌++◌, length, take, arith, append_assoc, ◌⊎◌, inl, inr,
  Bool-cases, ltb,
}
use jocasta.Prelude.Int.{pos}
use jocasta.Go.Result.{Result, ok, err, >>=_inv}
use jocasta.Go.Io.{Bytes, ReadError, over}
use jocasta.Captain.{invalid_data_length, read-append}
use jocasta.Captain.DataLen.{max_data_len, data_len}
use jocasta.Captain.DataLen.RoundTrip.{
  len_bytes, data_len_inv, data_len_refuses, data_len-len_bytes, parse_data_len-len_bytes,
}
use jocasta.Captain.Stream.{
  Request, parse_request, request_bytes, request_header, parse_reply, send_reply,
}

-- The frame of a request, on success.
request_bytes_shape :
    (req : Request) {bs : Bytes}
    → request_bytes req ≡ ok bs
    → (length req.payload ≤ max_data_len)
      × (bs ≡ req.types ∷ req.version ∷ (len_bytes (length req.payload) ++ req.payload))
unfolding request_bytes
request_bytes_shape req h =
    let (p, e, g) = >>=_inv (data_len (pos (length req.payload))) _ h in
    let (fits, groups) = data_len_inv (length req.payload) {ds = p.0} {k = p.1} e in
    (fits, ground (arith, groups, g))

parse_request_frame :
    (req : Request) (ys : Bytes) (e : ReadError)
    → length req.payload ≤ max_data_len
    → parse_request
        (over (req.types ∷ req.version ∷ (len_bytes (length req.payload) ++ (req.payload ++ ys))) e)
      ≡ ok (req, over ys e)
unfolding parse_request
parse_request_frame req ys e h = ground (
  arith,
  read-append 2 (req.types ∷ req.version ∷ [])
      (len_bytes (length req.payload) ++ (req.payload ++ ys)) e refl,
  parse_data_len-len_bytes (length req.payload) (req.payload ++ ys) e h,
  read-append (length req.payload) req.payload ys e refl,
)

-- What (Request).Bytes wrote, ParseRequest reads back, and it leaves what follows in the reader.
pub parse_request-request_bytes :
    (req : Request) (bs ys : Bytes) (e : ReadError)
    → request_bytes req ≡ ok bs
    → parse_request (over (bs ++ ys) e) ≡ ok (req, over ys e)
parse_request-request_bytes req bs ys e h =
    let (fits, shape) = request_bytes_shape req h in
    ground (
      arith,
      shape,
      append_assoc (len_bytes (length req.payload)) req.payload ys,
      parse_request_frame req ys e fits,
    )

-- (Request).Bytes is the header and the payload, and both fail just on a payload of more than
-- 2097151 bytes.
pub request_bytes_cases :
    (req : Request)
    → ((length req.payload ≤ max_data_len)
        × (head : Bytes) × (request_header req ≡ ok head)
        × (request_bytes req ≡ ok (head ++ req.payload)))
      ⊎ ((max_data_len < length req.payload)
          × (request_header req ≡ err invalid_data_length)
          × (request_bytes req ≡ err invalid_data_length))
unfolding request_header request_bytes
request_bytes_cases req = elim (Bool-cases (ltb max_data_len (length req.payload))) [
  | inl large ↦ inr (
    ground arith,
    ground (arith, data_len_refuses (length req.payload)),
    ground (arith, data_len_refuses (length req.payload)),
  )
  | inr fits ↦
      let (ds, k, e, t) = data_len-len_bytes (length req.payload) (ground arith) in
      inl (ground arith, req.types ∷ req.version ∷ take k ds, ground (arith, e), ground (arith, e))
]

-- When SendReply succeeds its writer took a frame that ParseReply reads as the same reply.
pub parse_reply-send_reply :
    {E : Type 0} (write : Bytes → Result E ℕ) (status version : ℕ) (ys : Bytes) (e : ReadError)
    → send_reply write status version ≡ ok tt
    → (bs : Bytes) × (n : ℕ) × (write bs ≡ ok n)
      × (parse_reply (over (bs ++ ys) e)
          ≡ ok (record { status = status; version = version }, over ys e))
unfolding send_reply parse_reply
parse_reply-send_reply write status version ys e h =
    let bs : Bytes = status ∷ version ∷ [] in
    let (n, w, _) = >>=_inv (write bs) _ h in (bs, n, w, ground (arith, read-append 2 bs ys e refl))
