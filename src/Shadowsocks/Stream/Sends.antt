-- ===== src/Shadowsocks/Stream/Sends.antt =====
-- connection/shadowsocks/conn.go: what the writes of a connection put on it.
use jocasta.Prelude.{
  ℕ, suc, ◌-◌, ◌≡◌, refl, Option, none, some, List, [], ◌∷◌, ◌++◌, length, true, append-nil,
  append_assoc,
}
use jocasta.Go.Result.{ok}
use jocasta.Go.Io.{Bytes}
use jocasta.Go.Conn.{Exec, ◌>>=◌, pure, write_ok}
use jocasta.Shadowsocks.Cipher.{Streams, StreamLaws, Cipher, CipherError, init_encrypt, write_fail}
use jocasta.Shadowsocks.Stream.{write_conn}
use jocasta.Shadowsocks.Stream.Drain.{concat, chunks, no_bytes}

module _ (S : Streams) (rand : ℕ → Option Bytes) where
  -- A write for each of the messages.
  unfoldable pub write_all : List Bytes → Cipher S → Exec CipherError (Cipher S)
  write_all [] c = pure c
  write_all (m ∷ ms) c = write_conn S rand m c >>= λ p. write_all ms p.1

  -- The messages, each encrypted where the one before stopped.
  abbrev pub encrypted : S.Stream → List Bytes → List Bytes
  encrypted w [] = []
  encrypted w (m ∷ ms) = (S.xor_stream w m).0 ∷ encrypted (S.xor_stream w m).1 ms

  -- Room for the writes of so many messages, and `k` more.
  abbrev pub room_for : List Bytes → ℕ → ℕ
  room_for [] k = k
  room_for (m ∷ ms) k = suc (room_for ms k)

  write_conn_behind :
      (c : Cipher S) (w : S.Stream) (m : Bytes) (ps wr : List Bytes) (room : ℕ)
      → write_conn S rand m (record c { writer = some w }) (chunks ps (suc room) wr) ≡ (
        ok (length (S.xor_stream w m).0 - 0, record c { writer = some (S.xor_stream w m).1 }),
        chunks ps room (wr ++ (S.xor_stream w m).0 ∷ []),
      )
  unfolding write_conn
  write_conn_behind c w m ps wr room = rw (write_ok write_fail ps wr room (S.xor_stream w m).0) refl

  write_conn_first :
      (c : Cipher S) (w : S.Stream) (m iv : Bytes) (ps wr : List Bytes) (room : ℕ)
      → c.writer ≡ none
      → c.iv ≡ none
      → rand c.iv_len ≡ some iv
      → S.new_stream c.method c.key iv true ≡ some w
      → write_conn S rand m c (chunks ps (suc room) wr) ≡ (
        ok (
          length (iv ++ (S.xor_stream w m).0) - length iv,
          record c { writer = some (S.xor_stream w m).1; iv = some iv },
        ),
        chunks ps room (wr ++ (iv ++ (S.xor_stream w m).0) ∷ []),
      )
  unfolding write_conn init_encrypt
  write_conn_first c w m iv ps wr room n i r s =
      rw (n, init_encrypt, i, r, s, write_ok write_fail ps wr room (iv ++ (S.xor_stream w m).0))
        refl

  write_all_behind :
      (ms : List Bytes) (c : Cipher S) (w : S.Stream) (ps wr : List Bytes) (room : ℕ)
      → (c' : Cipher S) × (write_all ms
            (record c { writer = some w })
            (chunks ps (room_for ms room) wr)
          ≡ (ok c', chunks ps room (wr ++ encrypted w ms)))
  unfolding write_all
  write_all_behind [] c w ps wr room = (record c { writer = some w }, rw append-nil refl)
  write_all_behind (m ∷ ms) c w ps wr room =
      let (c', e) =
        write_all_behind ms c (S.xor_stream w m).1 ps (wr ++ (S.xor_stream w m).0 ∷ []) room in
      (
        c',
        rw
            (
              write_conn_behind c w m ps wr (room_for ms room),
              e,
              append_assoc wr ((S.xor_stream w m).0 ∷ []) (encrypted (S.xor_stream w m).1 ms),
            )
            refl,
      )

  -- What the writes of a fresh cipher leave on the connection.
  pub write_all_lem :
      (m : Bytes) (ms : List Bytes) (c : Cipher S) (w : S.Stream) (iv : Bytes) (ps : List Bytes)
      (room : ℕ)
      → c.writer ≡ none
      → c.iv ≡ none
      → rand c.iv_len ≡ some iv
      → S.new_stream c.method c.key iv true ≡ some w
      → (c' : Cipher S) × (write_all (m ∷ ms) c (chunks ps (room_for (m ∷ ms) room) []) ≡ (
        ok c',
        chunks ps room ((iv ++ (S.xor_stream w m).0) ∷ encrypted (S.xor_stream w m).1 ms),
      ))
  unfolding write_all
  write_all_lem m ms c w iv ps room n i r s =
      let (c', e) =
        write_all_behind ms (record c { iv = some iv }) (S.xor_stream w m).1 ps
          ((iv ++ (S.xor_stream w m).0) ∷ []) room in
      (c', rw (write_conn_first c w m iv ps [] (room_for ms room) n i r s, e) refl)

module _ (S : Streams) (L : StreamLaws S) (rand : ℕ → Option Bytes) where
  -- The stream that undoes them reads the messages.
  pub decrypted :
      (ms : List Bytes) (w r : S.Stream)
      → L.Paired w r
      → (S.xor_stream r (concat (encrypted S rand w ms))).0 ≡ concat ms
  decrypted [] w r p = no_bytes S L r
  decrypted (m ∷ ms) w r p =
      rw
        (
          L.cuts r (S.xor_stream w m).0 (concat (encrypted S rand (S.xor_stream w m).1 ms)),
          L.undoes w r m p,
          decrypted ms (S.xor_stream w m).1 (S.xor_stream r (S.xor_stream w m).0).1
              (L.keeps_Paired w r m p),
        )
        refl
