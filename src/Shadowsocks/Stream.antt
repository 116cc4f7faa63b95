-- ===== src/Shadowsocks/Stream.antt =====
-- connection/shadowsocks/conn.go: an encrypted connection. A Read and a Write of the connection below
-- fail without moving bytes.
pub mod Drain
pub mod Sends
pub mod Delivers
mod Tests
use jocasta.Prelude.{ℕ, ◌+◌, ◌-◌, Option, none, some, List, [], ◌∷◌, ◌++◌, length}
use jocasta.Go.Result
use jocasta.Go.Result.{Result, ok, err, panic}
use jocasta.Go.Io.{Bytes}
use jocasta.Go.Conn.{Conn, Exec, ◌>>=◌, ◌>>◌, pure, fail, read, read_full, write}
use jocasta.Shadowsocks.Cipher.{
  Streams, Cipher, CipherError, init_encrypt, init_decrypt, read_fail, write_fail,
}

module _ (S : Streams) where
  -- Read, into `n` bytes: the first one takes the iv off the connection. The new cipher is returned with
  -- the bytes, and where a read fails behind the iv.
  unfoldable pub read_behind : ℕ → S.Stream → Cipher S → Exec CipherError (Bytes × Cipher S)
  read_behind n r c = do
    b ← read read_fail n
    pure ((S.xor_stream r b).0, record c { reader = some (S.xor_stream r b).1 })

  unfoldable pub start_reader : Option S.Stream → Cipher S → Exec CipherError (S.Stream × Cipher S)
  start_reader (some r) c = pure (r, c)
  start_reader none c = do iv ← read_full read_fail c.iv_len; λ conn. (init_decrypt S iv c, conn)

  unfoldable pub read_conn : ℕ → Cipher S → Exec CipherError (Bytes × Cipher S)
  unfolding start_reader read_behind
  read_conn n c = start_reader c.reader c >>= λ p. read_behind n p.0 p.1

  -- What a Write puts in front: a new iv, or nothing.
  unfoldable pub start_writer :
      (ℕ → Option Bytes)
      → Option S.Stream
      → Cipher S
      → Result CipherError (Bytes × S.Stream × Cipher S)
  start_writer rand (some w) c = ok ([], w, c)
  start_writer rand none c = init_encrypt S rand c

  -- Write: the iv and the encrypted bytes in a single write. The number that is returned is that of the
  -- bytes without the iv.
  unfoldable pub write_conn :
      (ℕ → Option Bytes) → Bytes → Cipher S → Exec CipherError (ℕ × Cipher S)
  unfolding start_writer
  write_conn rand b c = (λ conn. (start_writer rand c.writer c, conn)) >>= (λ p.
      write write_fail (p.0 ++ (S.xor_stream p.1 b).0)
      >> pure (
        length (p.0 ++ (S.xor_stream p.1 b).0) - length p.0,
        record (p.2) { writer = some (S.xor_stream p.1 b).1 },
      ))

  -- NewConnWithRawAddr: the address is the first thing that is written.
  unfoldable pub new_conn_with_raw_addr :
      (ℕ → Option Bytes) → Bytes → Cipher S → Exec CipherError (Cipher S)
  unfolding write_conn
  new_conn_with_raw_addr rand raw_addr c = write_conn rand raw_addr c >>= λ p. pure p.1
