-- ===== src/Captain.antt =====
-- core/captain: the frames that carry datagrams over streams and over UDP.
-- This file has what the parts share: the address record of addr.go, the errors, and the reading
-- functions as a parser monad over Go.Io.Reader.
pub mod DataLen
pub mod Addr
pub mod Stream
pub mod Datagram
pub mod StreamDatagram
use jocasta.Prelude.{ℕ, Bool, true, false, ◌≡◌, refl, ◌∷◌, [], ◌++◌, length, arith}
use jocasta.Prelude.Int.{ℤ}
use jocasta.Go.Result.{Result, ok, err, panic, map_err}
use jocasta.Go.Io.{Bytes, Reader, ReadError, over, read_full, read_full-append}
use jocasta.Go.HostPort.{AddrError}

pub data Error : Type 0 where
  io : ReadError → Error
  addr : AddrError → Error
  invalid_data_length unrecognized_addr_type too_short host_too_long : Error
  -- `invalid address type: %d`
  invalid_addr_type : ℕ → Error

abbrev pub atyp_ipv4 : ℕ
atyp_ipv4 = 0x01

abbrev pub atyp_domain : ℕ
atyp_domain = 0x03

abbrev pub atyp_ipv6 : ℕ
atyp_ipv6 = 0x04

-- AddrSpec. A nil IP and an empty one are both `[]`.
pub record AddrSpec : Type 0 where
  pub fqdn : Bytes
  pub ip : Bytes
  pub port : ℤ
  pub addr_type : ℕ

-- A function that reads from an io.Reader and may fail. After a failure the reader is not used.
abbrev pub Parser : Type 0 → Type 0
Parser A = Reader → Result Error (A × Reader)

infixl 5 ◌>>=◌
abbrev pub ◌>>=◌ : {A B : Type 0} → Parser A → (A → Parser B) → Parser B
◌>>=◌ m f r = elim (m r) [ ok (a, s) ↦ f a s | err e ↦ err e | panic ↦ panic ]

abbrev pub pure : {A : Type 0} → A → Parser A
pure a r = ok (a, r)

abbrev pub fail : {A : Type 0} → Error → Parser A
fail e r = err e

-- A bind whose first part succeeds.
pub >>=_ok :
    {A B : Type 0} (m : Parser A) (f : A → Parser B) (r : Reader) {a : A} {s : Reader}
    → m r ≡ ok (a, s)
    → (m >>= f) r ≡ f a s
>>=_ok m f r h = rw (h, ◌>>=◌)

-- io.ReadFull into a fresh buffer.
unfoldable pub read : ℕ → Parser Bytes
read n r = map_err io (read_full n r)

pub read-append :
    (n : ℕ) (xs ys : Bytes) (e : ReadError)
    → length xs ≡ n
    → read n (over (xs ++ ys) e) ≡ ok (xs, over ys e)
unfolding read
read-append n xs ys e h = rw (read_full-append n xs ys e h)
