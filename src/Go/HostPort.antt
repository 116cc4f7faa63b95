-- ===== src/Go/HostPort.antt =====
-- net.SplitHostPort, net.JoinHostPort and strconv.Atoi on texts, which are lists of bytes.
use mathlib.Core.Option
use jocasta.Prelude.{ℕ, suc, ◌+◌, ◌-◌, ◌*◌, ◌^◌, Bool, false, ◌&&◌, ◌||◌, Option, none, some}
use jocasta.Prelude.{[], ◌∷◌, ◌++◌, length, take, drop, ltb, leb, ◌==◌, if◌then◌else◌}
use jocasta.Prelude.Int.{ℤ, pos, negsuc}
use jocasta.Go.Io.{Bytes}
use jocasta.Go.Net.{at}
use jocasta.Go.Result.{Result, ok, err}

-- The position of the first `c`.
unfoldable pub index_byte : ℕ → Bytes → Option ℕ
index_byte c [] = none
index_byte c (x ∷ xs) = if x == c then some 0 else Option.map suc (index_byte c xs)

-- The position of the last `c`.
unfoldable pub last_index : ℕ → Bytes → Option ℕ
last_index c [] = none
last_index c (x ∷ xs) = elim (last_index c xs) [
  | some i ↦ some (suc i)
  | none ↦ if x == c then some 0 else none
]

unfoldable pub has_byte : ℕ → Bytes → Bool
has_byte c [] = false
has_byte c (x ∷ xs) = x == c || has_byte c xs

-- What the two functions refuse.
pub data AddrError : Type 0 where
  missing_port too_many_colons missing_bracket unexpected_open unexpected_close : AddrError
  bad_number out_of_range : AddrError

finish : Bytes → ℕ → Bytes → ℕ → ℕ → Result AddrError (Bytes × Bytes)
unfolding has_byte
finish s i host j k =
    if has_byte b'[' (drop j s)
    then err unexpected_open
    else if has_byte b']' (drop k s)
    then err unexpected_close
    else ok (host, drop (i + 1) s)

plain : Bytes → ℕ → Result AddrError (Bytes × Bytes)
unfolding finish
plain s i = if has_byte b':' (take i s) then err too_many_colons else finish s i (take i s) 0 0

bracketed : Bytes → ℕ → Result AddrError (Bytes × Bytes)
unfolding finish index_byte
bracketed s i = elim (index_byte b']' s) [
  | none ↦ err missing_bracket
  | some end ↦
      if end + 1 == length s
      then err missing_port
      else if end + 1 == i
      then finish s i (drop 1 (take end s)) 1 (end + 1)
      else if at s (end + 1) == b':'
      then err too_many_colons
      else err missing_port
]

-- net.SplitHostPort: the host and the port.
unfoldable pub split_host_port : Bytes → Result AddrError (Bytes × Bytes)
unfolding last_index plain bracketed
split_host_port s = elim (last_index b':' s) [
  | none ↦ err missing_port
  | some i ↦ if at s 0 == b'[' then bracketed s i else plain s i
]

-- net.JoinHostPort.
unfoldable pub join_host_port : Bytes → Bytes → Bytes
unfolding has_byte
join_host_port host port =
    if has_byte b':' host then (b'[' ∷ host) ++ (b']' ∷ b':' ∷ port) else host ++ (b':' ∷ port)

-- The value of decimal digits behind those that make up `acc`.
pub digits : ℕ → Bytes → Option ℕ
digits acc [] = some acc
digits acc (c ∷ cs) =
    let rest = digits (acc * 10 + (c - b'0')) cs in if leb b'0' c && leb c b'9' then rest else none

magnitude : Bytes → Option ℕ
unfolding digits
magnitude [] = none
magnitude (c ∷ cs) = digits 0 (c ∷ cs)

positive : Option ℕ → Result AddrError ℤ
positive none = err bad_number
positive (some n) = if ltb n (2 ^ 63) then ok (pos n) else err out_of_range

negative : Option ℕ → Result AddrError ℤ
negative none = err bad_number
negative (some n) =
    if n == 0 then ok (pos 0) else if leb n (2 ^ 63) then ok (negsuc (n - 1)) else err out_of_range

-- strconv.Atoi on a 64-bit machine.
unfoldable pub atoi : Bytes → Result AddrError ℤ
unfolding magnitude positive negative
atoi [] = err bad_number
atoi (c ∷ cs) =
    if c == b'-'
    then negative (magnitude cs)
    else if c == b'+'
    then positive (magnitude cs)
    else positive (magnitude (c ∷ cs))
