-- ===== src/Shadowsocks/Packets.antt =====
-- connection/shadowsocks/encrypt.go: packets.
use jocasta.Prelude.{
  ℕ, ◌<◌, ◌≡◌, refl, ◌∙◌, true, false, Option, none, some, ◌++◌, length, arith, take-append,
  drop-append, length-append, le→ltb, lt→ltb,
}
use jocasta.Go.Result.{ok, err}
use jocasta.Go.Io.{Bytes}
use jocasta.Shadowsocks.Cipher.{
  Streams, StreamLaws, Cipher, encrypt, decrypt, init_encrypt, init_decrypt, clone, invalid_input,
}

module _ (S : Streams) (L : StreamLaws S) (rand : ℕ → Option Bytes) where
  encrypt_lem :
      (c : Cipher S) (src iv : Bytes) (w : S.Stream)
      → c.iv ≡ none
      → rand c.iv_len ≡ some iv
      → S.new_stream c.method c.key iv true ≡ some w
      → encrypt S rand c src ≡ ok (iv ++ (S.xor_stream w src).0)
  unfolding encrypt init_encrypt clone
  encrypt_lem c src iv w i r s = rw (encrypt, init_encrypt, i, r, s) refl

  decrypt_lem :
      (c : Cipher S) (xs iv : Bytes) (r : S.Stream)
      → length iv ≡ c.iv_len
      → S.new_stream c.method c.key iv false ≡ some r
      → decrypt S c (iv ++ xs) ≡ ok (S.xor_stream r xs).0
  unfolding decrypt init_decrypt clone
  decrypt_lem c xs iv r l s =
      rw
        (
          decrypt,
          init_decrypt,
          ← l,
          le→ltb (length (iv ++ xs)) (length iv) (omega (arith, length-append iv xs)),
          take-append iv xs,
          drop-append iv xs,
          s,
        )
        refl

  -- What Encrypt makes of some bytes with a cipher that has no iv yet, Decrypt reads back, with another
  -- cipher of the same method, key and length of the iv; rand gives an iv of this length and the streams can
  -- be made. Decrypt refuses what is shorter than an iv.
  pub decrypt-encrypt :
      (c d : Cipher S) (src iv short : Bytes) (w : S.Stream)
      → c.iv ≡ none
      → rand c.iv_len ≡ some iv
      → length iv ≡ d.iv_len
      → S.new_stream c.method c.key iv true ≡ some w
      → d.method ≡ c.method
      → d.key ≡ c.key
      → (packet : Bytes) × (encrypt S rand c src ≡ ok packet)
        × (decrypt S d packet ≡ ok src)
        × (length short < d.iv_len → decrypt S d short ≡ err invalid_input)
  unfolding decrypt
  decrypt-encrypt c d src iv short w i r l s m k =
      let (u, us, paired) = L.new_Paired c.method c.key iv w s in
      (
        iv ++ (S.xor_stream w src).0,
        encrypt_lem c src iv w i r s,
        decrypt_lem d (S.xor_stream w src).0 iv u l (rw (m, k) us)
            ∙ rw (L.undoes w u src paired) refl,
        λ h. rw (lt→ltb (length short) d.iv_len h) refl,
      )
