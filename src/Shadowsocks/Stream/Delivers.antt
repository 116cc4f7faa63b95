-- ===== src/Shadowsocks/Stream/Delivers.antt =====
-- connection/shadowsocks/conn.go: what is read at one end of a connection is what was written at the other.
use jocasta.Prelude.{
  ℕ, suc, ◌+◌, ◌≤◌, ◌≡◌, refl, ap, ◌∙◌, true, false, Option, none, some, List, [], ◌∷◌, ◌++◌,
  length, arith, append-nil, take-append, drop-append, length-append, le→leb,
}
use jocasta.Go.Result.{ok}
use jocasta.Go.Io.{Bytes}
use jocasta.Go.Conn.{read_full, take_chunks}
use jocasta.Shadowsocks.Cipher.{
  Streams, StreamLaws, Cipher, CipherError, init_decrypt, keep_iv, read_fail,
}
use jocasta.Shadowsocks.Stream.{read_conn, start_reader}
use jocasta.Shadowsocks.Stream.Drain.{
  concat, chunks, size, Positive, drain, drain-cong, drain-Leaves,
}
use jocasta.Shadowsocks.Stream.Sends.{write_all, write_all_lem, encrypted, decrypted, room_for}

-- Reading as many bytes as stand in front of a chunk leaves the rest of the chunk, if there is one.
abbrev behind : Bytes → List Bytes → List Bytes
behind [] ps = ps
behind (y ∷ ys) ps = (y ∷ ys) ∷ ps

take_front :
    (iv ys : Bytes) (ps : List Bytes)
    → take_chunks (length iv) ((iv ++ ys) ∷ ps) ≡ (iv, behind ys ps)
unfolding take_chunks
take_front iv [] ps = rw append-nil (ground arith)
take_front iv (y ∷ ys) ps =
    ground (arith, length-append iv (y ∷ ys), take-append iv (y ∷ ys), drop-append iv (y ∷ ys))

read_full_front :
    (e : CipherError) (iv ys : Bytes) (ps w : List Bytes) (room k : ℕ)
    → k ≡ length iv
    → read_full e k (chunks ((iv ++ ys) ∷ ps) room w) ≡ (ok iv, chunks (behind ys ps) room w)
unfolding read_full
read_full_front e iv ys ps w room k h =
    rw (h, take_front iv ys ps, le→leb (length iv) (length iv) (omega arith)) refl

concat-behind : (ys : Bytes) (ps : List Bytes) → concat (behind ys ps) ≡ ys ++ concat ps
concat-behind [] ps = refl
concat-behind (y ∷ ys) ps = refl

size-behind : (ys : Bytes) (ps : List Bytes) → size (behind ys ps) ≤ suc (length ys + size ps)
size-behind [] ps = omega arith
size-behind (y ∷ ys) ps = omega arith

module _ (S : Streams) (n : ℕ) (c : Cipher S) (iv ys : Bytes) (ps : List Bytes) (room : ℕ)
    (w : List Bytes) (r : S.Stream) where
  -- The first read takes the iv off the connection, and goes on as one behind it.
  read_conn_first :
      c.reader ≡ none
      → c.iv_len ≡ length iv
      → S.new_stream c.method c.key iv false ≡ some r
      → read_conn S n c (chunks ((iv ++ ys) ∷ ps) room w)
        ≡ read_conn S n
            (record c { reader = some r; iv = keep_iv S c.iv iv })
            (chunks (behind ys ps) room w)
  unfolding read_conn start_reader init_decrypt
  read_conn_first h l s =
      rw
        (
          read_conn,
          start_reader,
          h,
          read_full_front read_fail iv ys ps w room c.iv_len l,
          init_decrypt,
          s,
        )
        refl

module _ (S : Streams) (L : StreamLaws S) (rand : ℕ → Option Bytes) where
  -- What one end writes, the other one reads, in this order and with any sizes of its buffers: what it has
  -- read until a read fails is a front of the messages, and all of them if the buffers are not empty and
  -- there are enough of them. The ends have ciphers of one method, key and length of the iv, on which
  -- nothing went yet, rand gives an iv of this length, the streams can be made, and the connection takes the
  -- writes.
  pub stream_delivers :
      (m : Bytes) (ms : List Bytes) (sizes : List ℕ) (n : ℕ) (out inp : Cipher S) (w : S.Stream)
      (iv : Bytes) (room : ℕ)
      → out.writer ≡ none
      → out.iv ≡ none
      → rand out.iv_len ≡ some iv
      → out.iv_len ≡ length iv
      → S.new_stream out.method out.key iv true ≡ some w
      → inp.reader ≡ none
      → inp.method ≡ out.method
      → inp.key ≡ out.key
      → inp.iv_len ≡ out.iv_len
      → (out' : Cipher S) × (sent : List Bytes) × (write_all S rand
            (m ∷ ms)
            out
            (chunks [] (room_for S rand (m ∷ ms) room) [])
          ≡ (ok out', chunks [] room sent))
        × (rest : Bytes) × ((drain S (n ∷ sizes) inp (chunks sent room [])).0 ++ rest
            ≡ concat (m ∷ ms))
        × (size sent ≤ length (n ∷ sizes) → Positive (n ∷ sizes) → rest ≡ [])
  stream_delivers m ms sizes n out inp w iv room a b d l e f g k q =
      let (r, rs, paired) = L.new_Paired out.method out.key iv w e in
      let (out', written) = write_all_lem S rand m ms out w iv [] room a b d e in
      let x = (S.xor_stream w m).0 in
      let more = encrypted S rand (S.xor_stream w m).1 ms in
      let first = read_conn_first S n inp iv x more room [] r f (q ∙ l) (rw (g, k) rs) in
      let (rest, read, all) =
        drain-Leaves S L (n ∷ sizes) (record inp { iv = keep_iv S inp.iv iv }) r (behind x more)
          room [] in
      (
        out',
        (iv ++ x) ∷ more,
        written,
        rest,
        rw
            (drain-cong S n sizes inp (record inp { reader = some r; iv = keep_iv S inp.iv iv }) _ _
              first)
            (read
              ∙ ap (λ (t : Bytes). (S.xor_stream r t).0) (concat-behind x more)
              ∙ decrypted S L rand (m ∷ ms) w r paired),
        λ h p. (all (omega (arith, size-behind x more, length-append iv x)) p).1,
      )
