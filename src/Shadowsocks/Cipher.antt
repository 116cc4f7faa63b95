-- ===== src/Shadowsocks/Cipher.antt =====
-- connection/shadowsocks/encrypt.go: the cipher of a connection and of packets. The stream ciphers of
-- the third-party package are a parameter with what is documented of them.
use jocasta.Prelude.{
  ℕ, ◌≡◌, Bool, true, false, Option, none, some, [], ◌∷◌, ◌++◌, length, take, drop, ltb,
  if◌then◌else◌,
}
use jocasta.Go.Result.{Result, ok, err, ◌>>=◌}
use jocasta.Go.Io.{Bytes}

pub data CipherError : Type 0 where
  empty_password unsupported_method rand_fail stream_fail invalid_input : CipherError
  read_fail write_fail : CipherError

-- crypto/cipher.Stream and the constructors of encrypt: a stream has a state that XORKeyStream moves on.
pub record Streams : Type 1 where
  pub Stream : Type 0
  -- encrypt.NewStream(method, key, iv, encrypts)
  pub new_stream : Bytes → Bytes → Bytes → Bool → Option Stream
  -- stream.XORKeyStream(dst, src): the bytes of dst, and the state behind them.
  pub xor_stream : Stream → Bytes → Bytes × Stream
  -- encrypt.GetCipher(method): the lengths of the key and of the iv.
  pub get_cipher : Bytes → Option (ℕ × ℕ)
  -- encrypt.Evp2Key(password, keyLen)
  pub evp_key : Bytes → ℕ → Bytes

module _ (S : Streams) where
  pub record Cipher : Type 0 where
    pub writer : Option S.Stream
    pub reader : Option S.Stream
    pub method : Bytes
    pub iv_len : ℕ
    pub key : Bytes
    -- none is nil
    pub iv : Option Bytes

  -- NewCipher
  unfoldable pub new_cipher : Bytes → Bytes → Result CipherError Cipher
  new_cipher method [] = err empty_password
  new_cipher method (c ∷ password) = elim (S.get_cipher method) [
    | none ↦ err unsupported_method
    | some lens ↦ ok (record {
      writer = none;
      reader = none;
      method = method;
      iv_len = lens.1;
      key = S.evp_key (c ∷ password) lens.0;
      iv = none;
    })
  ]

  -- Clone: the streams are made anew, the iv is kept.
  unfoldable pub clone : Cipher → Cipher
  clone c = record c { writer = none; reader = none }

  -- The iv that is there, or a new one: `rand` is what rand.Reader gives for so many bytes.
  abbrev pub iv_or_random : Option Bytes → Option Bytes → Option Bytes
  iv_or_random (some iv) fresh = some iv
  iv_or_random none fresh = fresh

  abbrev pub started :
      Cipher → Bytes → Option S.Stream → Result CipherError (Bytes × S.Stream × Cipher)
  started c iv none = err stream_fail
  started c iv (some w) = ok (iv, w, record c { writer = some w; iv = some iv })

  -- initEncrypt, which returns the iv; here also the new writer.
  unfoldable pub init_encrypt :
      (ℕ → Option Bytes) → Cipher → Result CipherError (Bytes × S.Stream × Cipher)
  init_encrypt rand c = elim (iv_or_random c.iv (rand c.iv_len)) [
    | none ↦ err rand_fail
    | some iv ↦ started c iv (S.new_stream c.method c.key iv true)
  ]

  abbrev pub keep_iv : Option Bytes → Bytes → Option Bytes
  keep_iv none iv = some iv
  keep_iv (some []) iv = some iv
  keep_iv (some (x ∷ xs)) iv = some (x ∷ xs)

  -- initDecrypt; here it also returns the new reader.
  unfoldable pub init_decrypt : Bytes → Cipher → Result CipherError (S.Stream × Cipher)
  init_decrypt iv c = elim (S.new_stream c.method c.key iv false) [
    | none ↦ err stream_fail
    | some r ↦ ok (r, record c { reader = some r; iv = keep_iv c.iv iv })
  ]

  -- Encrypt: a packet is the iv and the encrypted bytes; the cipher itself stays as it is.
  unfoldable pub encrypt : (ℕ → Option Bytes) → Cipher → Bytes → Result CipherError Bytes
  unfolding init_encrypt clone
  encrypt rand c src = init_encrypt rand (clone c) >>= (λ p. ok (p.0 ++ (S.xor_stream p.1 src).0))

  -- Decrypt
  unfoldable pub decrypt : Cipher → Bytes → Result CipherError Bytes
  unfolding init_decrypt clone
  decrypt c input =
      let body =
        init_decrypt (take c.iv_len input) (clone c)
        >>= (λ p. ok (S.xor_stream p.0 (drop c.iv_len input)).0) in
      if ltb (length input) c.iv_len then err invalid_input else body

  -- What the streams are documented to do: a stream that decrypts undoes the one that encrypts with the
  -- same method, key and iv, a stream does not care how its bytes are cut, and keeps their number.
  pub record StreamLaws : Type 1 where
    pub Paired : S.Stream → S.Stream → Type 0
    pub new_Paired :
        (m k iv : Bytes) (w : S.Stream)
        → S.new_stream m k iv true ≡ some w
        → (r : S.Stream) × (S.new_stream m k iv false ≡ some r) × Paired w r
    pub undoes :
        (w r : S.Stream) (xs : Bytes) → Paired w r → (S.xor_stream r (S.xor_stream w xs).0).0 ≡ xs
    pub keeps_Paired :
        (w r : S.Stream) (xs : Bytes)
        → Paired w r
        → Paired (S.xor_stream w xs).1 (S.xor_stream r (S.xor_stream w xs).0).1
    pub cuts :
        (r : S.Stream) (xs ys : Bytes)
        → S.xor_stream r (xs ++ ys) ≡ (
          (S.xor_stream r xs).0 ++ (S.xor_stream (S.xor_stream r xs).1 ys).0,
          (S.xor_stream (S.xor_stream r xs).1 ys).1,
        )
    pub keeps_length : (r : S.Stream) (xs : Bytes) → length (S.xor_stream r xs).0 ≡ length xs
