-- ===== src/Go/Net.antt =====
-- net.IP, net.SplitHostPort, net.JoinHostPort and strconv on texts, which are lists of bytes.
use jocasta.Prelude.{ℕ, ◌+◌, ◌*◌, ◌≡◌, refl, Bool, true, false, ◌&&◌}
use jocasta.Prelude.{Option, none, some, [], ◌∷◌, ◌++◌, length, take, drop, get_or, arith}
use jocasta.Prelude.{◌==◌, if◌then◌else◌}
use jocasta.Go.Io.{Bytes}

abbrev pub ipv4_len : ℕ
ipv4_len = 4

abbrev pub ipv6_len : ℕ
ipv6_len = 16

-- The element at an index that is known to be in range.
abbrev pub at : Bytes → ℕ → ℕ
at xs i = get_or xs i 0

-- Equality of byte slices and of strings.
unfoldable pub bytes_eq : Bytes → Bytes → Bool
bytes_eq [] [] = true
bytes_eq [] (y ∷ ys) = false
bytes_eq (x ∷ xs) [] = false
bytes_eq (x ∷ xs) (y ∷ ys) = x == y && bytes_eq xs ys

pub bytes_eq_sound : (xs ys : Bytes) → bytes_eq xs ys ≡ true → xs ≡ ys
unfolding bytes_eq
bytes_eq_sound [] [] h = refl
bytes_eq_sound [] (y ∷ ys) h = ground arith
bytes_eq_sound (x ∷ xs) [] h = ground arith
bytes_eq_sound (x ∷ xs) (y ∷ ys) h = ground (arith, bytes_eq_sound xs ys)

pub bytes_eq_refl : (xs : Bytes) → bytes_eq xs xs ≡ true
unfolding bytes_eq
bytes_eq_refl [] = refl
bytes_eq_refl (x ∷ xs) = ground (arith, bytes_eq_refl xs)

-- Ten zeros and 0xff 0xff: what IPv4 addresses begin with in their 16-byte form.
abbrev pub v4_prefix : Bytes
v4_prefix = 0 ∷ 0 ∷ 0 ∷ 0 ∷ 0 ∷ 0 ∷ 0 ∷ 0 ∷ 0 ∷ 0 ∷ 255 ∷ 255 ∷ []

-- net.IPv4(a, b, c, d), given the four bytes.
abbrev pub ipv4 : Bytes → Bytes
ipv4 q = v4_prefix ++ q

-- ip.To4(); `none` is nil.
unfoldable pub to4 : Bytes → Option Bytes
unfolding bytes_eq
to4 ip =
    if length ip == ipv4_len
    then some ip
    else if length ip == ipv6_len && bytes_eq (take 12 ip) v4_prefix
    then some (drop 12 ip)
    else none

-- ip.To16(); `none` is nil.
unfoldable pub to16 : Bytes → Option Bytes
to16 ip =
    if length ip == ipv4_len
    then some (ipv4 ip)
    else if length ip == ipv6_len
    then some ip
    else none

-- A nil slice has no bytes to append.
abbrev pub or_empty : Option Bytes → Bytes
or_empty none = []
or_empty (some xs) = xs

-- binary.BigEndian.Uint16 of two bytes.
abbrev pub big_endian : Bytes → ℕ
big_endian b = at b 0 * 256 + at b 1

pub to4-ipv4 : (q : Bytes) → length q ≡ 4 → to4 (ipv4 q) ≡ some q
unfolding to4
to4-ipv4 q h = ground (arith, h)

-- net.ParseIP and (net.IP).String, whose address syntax is not written out.
pub record AddrText : Type 0 where
  pub parse_ip : Bytes → Option Bytes
  pub ip_string : Bytes → Bytes
