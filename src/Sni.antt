-- ===== src/Sni.antt =====
-- connection/sni/sni.go: the server name of a TLS ClientHello.
pub mod Extensions
pub mod Name
pub mod Fuel
pub mod Hello
pub mod Found
pub mod Connection
pub mod Panics
mod Tests
use jocasta.Prelude.{
  ℕ, zero, suc, ◌+◌, ◌*◌, ◌&&◌, ◌||◌, Bool, true, false, not, [], length, take, drop, ltb, leb,
  ◌==◌, if◌then◌else◌, ◌++◌,
}
use jocasta.Go.Result.{Result, ok, err, panic, ◌>>=◌, ◌>>◌, ensure}
use jocasta.Go.Io.{Bytes, Reader, ReadError, over, eof}
use jocasta.Go.Slice.{index, slice, slice_from}

pub data SniError : Type 0 where
  read_error : ReadError → SniError
  -- bufio.ErrBufferFull
  buffer_full : SniError
  not_tls : SniError
  expected_version : SniError
  malformed : SniError
  not_client_hello : SniError
  no_extensions : SniError
  not_a_hostname : SniError
  no_hostname : SniError

-- The size of the buffer of bufio.NewReader.
abbrev pub buffer_size : ℕ
buffer_size = 4096

-- reader.Peek(n): more than the buffer holds is refused.
unfoldable pub peek : ℕ → Reader → Result SniError Bytes
peek n r =
    if ltb buffer_size n
    then err buffer_full
    else if leb n (length r.bytes)
    then ok (take n r.bytes)
    else err (read_error r.ending)

-- int(rest[i])<<8 + int(rest[i+1])
pub two_bytes : Bytes → ℕ → Result SniError ℕ
two_bytes rest i = index rest i >>= λ hi. index rest (i + 1) >>= λ lo. ok (hi * 256 + lo)

-- The body of the loop for the extension of type 0, behind its type and length: the name, and the
-- place behind its length, where the place of the loop then is.
pub read_name : Bytes → ℕ → Result SniError (Bytes × ℕ)
read_name rest current =
    ensure (leb (current + 2) (length rest)) malformed >> index rest (current + 2) >>= λ name_type.
    ensure (name_type == 0) not_a_hostname
    >> ensure (leb (current + 4) (length rest)) malformed
    >> two_bytes rest (current + 3)
    >>= λ name_len.
        ensure (leb (current + 5 + name_len) (length rest)) malformed
        >> slice rest (current + 5) (current + 5 + name_len)
        >>= λ hostname. ok (hostname, current + 5)

-- One turn of the loop over the extensions. `next` is what the name found so far and the next place
-- lead to.
pub extensions_turn :
    (Bytes × ℕ → Result SniError Bytes) → Bytes → ℕ → Bytes → Result SniError Bytes
extensions_turn next rest current hostname =
    elim (ltb (current + 4) (length rest) && (length hostname == 0)) [
      | false ↦ ok hostname
      | true ↦ two_bytes rest current >>= λ extension_type.
          two_bytes rest (current + 2) >>= λ extension_data_length. elim (extension_type == 0) [
            | true ↦ read_name rest (current + 4) >>= λ n. next (n.0, n.1 + extension_data_length)
            | false ↦ next (hostname, current + 4 + extension_data_length)
          ]
    ]

-- The loop over the extensions, on fuel: every turn goes on by four bytes at least.
pub extensions : ℕ → Bytes → ℕ → Bytes → Result SniError Bytes
unfolding extensions_turn
extensions zero rest current hostname = ok hostname
extensions (suc fuel) rest current hostname =
    extensions_turn (λ n. extensions fuel rest n.1 n.0) rest current hostname

-- From the end of the random bytes to the end: skips the session id, the cipher suites and the
-- compression methods.
pub after_random : Bytes → ℕ → Result SniError Bytes
after_random rest current = index rest current >>= λ session_id_length.
    let suites = current + 1 + session_id_length in
    ensure (leb (suites + 1) (length rest)) malformed
    >> two_bytes rest suites
    >>= λ cipher_suite_length.
        let methods = suites + 2 + cipher_suite_length in
        ensure (leb methods (length rest)) malformed
        >> index rest methods
        >>= λ compression_method_length.
            let lengths = methods + 1 + compression_method_length in
            ensure (leb lengths (length rest)) no_extensions
            >> extensions (length rest) rest (lengths + 2) []
            >>= λ hostname. ensure (not (length hostname == 0)) no_hostname >> ok hostname

-- The handshake message, which is the body of the record.
pub client_hello : Bytes → Result SniError Bytes
client_hello rest = ensure (not (length rest == 0)) malformed >> index rest 0 >>= λ handshake_type.
    ensure (handshake_type == 1) not_client_hello
    >> ensure (leb 38 (length rest)) malformed
    >> after_random rest 38

-- getServername: the name, and the bytes of the record.
unfoldable pub get_servername : Reader → Result SniError (Bytes × Bytes)
get_servername r = peek 5 r >>= λ b. index b 0 >>= λ content_type.
    ensure (content_type == 0x16) not_tls >> index b 1 >>= λ major. index b 2 >>= λ minor.
    ensure (not (ltb major 3 || (major == 3 && ltb minor 1))) expected_version
    >> two_bytes b 3
    >>= λ rest_length. peek (5 + rest_length) r >>= λ all.
        slice_from all 5 >>= λ rest. client_hello rest >>= λ hostname. ok (hostname, all)

-- ServerNameFromConn: the name, and a connection that delivers the bytes of the record and then what
-- is left of the first one. `taken` is how many bytes the reads into the buffer took off it, which is
-- as much as came in one piece.
pub server_name_from_conn : ℕ → Reader → Result SniError (Bytes × Reader)
server_name_from_conn taken r = get_servername r >>= λ s.
    ok (s.0, record { bytes = s.1 ++ drop taken r.bytes; ending = r.ending })

-- ServerNameFromBytes
unfoldable pub server_name_from_bytes : Bytes → Result SniError Bytes
server_name_from_bytes xs = get_servername (over xs eof) >>= λ s. ok s.0
