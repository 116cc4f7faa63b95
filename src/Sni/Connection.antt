-- ===== src/Sni/Connection.antt =====
-- The name and the bytes that are left of a connection that begins with a ClientHello.
use jocasta.Prelude.{
  ℕ, zero, suc, ◌+◌, ◌-◌, ◌*◌, ◌≤◌, ◌<◌, ◌≡◌, refl, ap, ◌∙◌, true, false, [], ◌∷◌, ◌++◌, length,
  take, drop, ltb, leb, arith, length-append, length-drop, take-append, drop-append,
}
use jocasta.Go.Result.{ok}
use jocasta.Go.Io.{Bytes, ReadError, over, eof}
use jocasta.Go.Slice.{index, slice_from, slice_from-append}
use jocasta.Sni.{
  SniError, peek, two_bytes, get_servername, server_name_from_conn, server_name_from_bytes,
}
use jocasta.Sni.Extensions.{two_bytes_at}
use jocasta.Sni.Hello.{Hello, IsHello, hello_bytes, name}
use jocasta.Sni.Found.{client_hello-Hello}

-- A TLS record of version 3.`minor` with a handshake message.
abbrev pub record_bytes : ℕ → ℕ → ℕ → Hello → Bytes
record_bytes minor high low h = 0x16 ∷ 3 ∷ minor ∷ high ∷ low ∷ hello_bytes h

-- The length says how long the message is, the version is 3.1 or later, and the record fits the
-- buffer.
pub record IsRecord (minor high low : ℕ) (h : Hello) : Type 0 where
  pub hello : IsHello h
  pub version : 1 ≤ minor
  pub length_fits : high * 256 + low ≡ length (hello_bytes h)
  pub buffered : 5 + length (hello_bytes h) ≤ 4096

drop-beyond : (xs ys : Bytes) (n : ℕ) → length xs ≤ n → drop n (xs ++ ys) ≡ drop (n - length xs) ys
drop-beyond [] ys n h = let e : n ≡ n - 0 = omega arith in ap (λ k. drop k ys) e
drop-beyond (x ∷ xs) ys zero h = absurd (omega arith)
drop-beyond (x ∷ xs) ys (suc n) h =
    let e : n - length xs ≡ suc n - suc (length xs) = omega arith in
    drop-beyond xs ys n (omega arith) ∙ ap (λ k. drop k ys) e

module _ (minor high low : ℕ) (h : Hello) (i : IsRecord minor high low h) (tail : Bytes)
    (e : ReadError) where
  abbrev all : Bytes
  all = record_bytes minor high low h

  peek_head : peek 5 (over (all ++ tail) e) ≡ ok (0x16 ∷ 3 ∷ minor ∷ high ∷ low ∷ [])
  unfolding peek
  peek_head = rw (peek, room) refl
    where
      room : leb 5 (length (all ++ tail)) ≡ true
      room = ground (arith, length-append all tail)

  peek-all : peek (5 + length (hello_bytes h)) (over (all ++ tail) e) ≡ ok all
  unfolding peek
  peek-all =
      rw (peek, small, room) (ap ok (ap (λ n. take n (all ++ tail)) size ∙ take-append all tail))
    where
      size : 5 + length (hello_bytes h) ≡ length all
      size = omega arith

      small : ltb 4096 (5 + length (hello_bytes h)) ≡ false
      small = ground (arith, i.buffered)

      room : leb (5 + length (hello_bytes h)) (length (all ++ tail)) ≡ true
      room = ground (arith, length-append all tail)

  get_servername-Hello : get_servername (over (all ++ tail) e) ≡ ok (name h, all)
  unfolding get_servername index
  get_servername-Hello =
      rw
        (
          get_servername,
          peek_head,
          index,
          supported,
          lengths,
          i.length_fits,
          peek-all,
          body,
          client_hello-Hello h i.hello (hello_bytes h) refl,
        )
        refl
    where
      supported : ltb minor 1 ≡ false
      supported = ground (arith, i.version)

      lengths : two_bytes (0x16 ∷ 3 ∷ minor ∷ high ∷ low ∷ []) 3 ≡ ok (high * 256 + low)
      lengths = two_bytes_at _ (0x16 ∷ 3 ∷ minor ∷ []) 3 refl high low [] refl

      body : slice_from {E = SniError} all 5 ≡ ok (hello_bytes h)
      body = slice_from-append (0x16 ∷ 3 ∷ minor ∷ high ∷ low ∷ []) (hello_bytes h) 5 refl

  -- From a connection that begins with a record of version 3.1 or later with a ClientHello that has a server
  -- name and at most 4091 bytes, so that the record fits the buffer, the name in it is returned, and a
  -- connection that delivers everything, if the reads took off no more than the record.
  pub server_name_from_conn-Hello :
      server_name_from_conn (length all) (over (all ++ tail) e) ≡ ok (name h, over (all ++ tail) e)
  unfolding server_name_from_conn
  server_name_from_conn-Hello =
      rw (server_name_from_conn, get_servername-Hello)
        (ap (λ t. ok (name h, over (all ++ t) e)) (drop-append all tail))

  -- Where the reads took more bytes off the connection than such a record has, the connection that is
  -- returned delivers the record and then exactly what comes behind the taken bytes: those in between, as
  -- many as were taken beyond the record, are lost.
  pub server_name_from_conn_loses :
      (taken : ℕ)
      → length all < taken
      → taken ≤ length (all ++ tail)
      → (server_name_from_conn taken (over (all ++ tail) e)
          ≡ ok (name h, over (all ++ drop (taken - length all) tail) e))
        × (length (drop (taken - length all) tail) + (taken - length all) ≡ length tail)
  unfolding server_name_from_conn
  server_name_from_conn_loses taken l k = (
    rw (server_name_from_conn, get_servername-Hello)
        (ap (λ t. ok (name h, over (all ++ t) e)) behind),
    omega (arith, length-drop (taken - length all) tail, length-append all tail),
  )
    where
      behind : drop taken (all ++ tail) ≡ drop (taken - length all) tail
      behind = drop-beyond all tail taken (omega arith)

-- From bytes that begin with a record of a ClientHello the name in it is returned.
pub server_name_from_bytes-Hello :
    (minor high low : ℕ) (h : Hello) (tail : Bytes)
    → IsRecord minor high low h
    → server_name_from_bytes (record_bytes minor high low h ++ tail) ≡ ok (name h)
unfolding server_name_from_bytes
server_name_from_bytes-Hello minor high low h tail i =
    rw (server_name_from_bytes, get_servername-Hello minor high low h i tail eof) refl
