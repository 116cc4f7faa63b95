-- ===== src/Socks5/Methods.antt =====
-- core/socks5/structs.go: MethodsRequest.
use jocasta.Prelude.{
  take-append_long, length-append, length-take, arith, refl, ap, ◌≤◌, ◌-◌, ◌≡◌, ℕ, zero, suc, ◌+◌,
  ◌++◌, Bool, true, false, [], ◌∷◌, length, take, leb, ◌==◌, if◌then◌else◌,
}
use jocasta.Go.Result.{Result, ok, ◌>>=◌, ◌>>◌, ensure}
use jocasta.Go.Io.{Bytes}
use jocasta.Go.Slice.{index, slice}
use jocasta.Socks5.{Error, version_not_supported, methods_length, version_v5}

pub record MethodsRequest : Type 0 where
  pub ver : ℕ
  pub methods_count : ℕ
  pub methods : Bytes
  pub bytes : Bytes

-- The buffer with what a read put into it.
abbrev pub zeros : ℕ → Bytes
zeros zero = []
zeros (suc n) = 0 ∷ zeros n

unfoldable pub padded : ℕ → Bytes → Bytes
padded k xs = take k (xs ++ zeros k)

-- What a read put there stands in front.
pub padded-append : (k : ℕ) (xs : Bytes) → length xs ≤ k → (ys : Bytes) × (padded k xs ≡ xs ++ ys)
unfolding padded
padded-append k xs h = (take (k - length xs) (zeros k), take-append_long k xs (zeros k) h)

length-zeros : (k : ℕ) → length (zeros k) ≡ k
length-zeros zero = refl
length-zeros (suc k) = ap suc (length-zeros k)

pub length-padded : (k : ℕ) (xs : Bytes) → length (padded k xs) ≡ k
unfolding padded
length-padded k xs =
    length-take k (xs ++ zeros k) (omega (arith, length-append xs (zeros k), length-zeros k))

-- NewMethodsRequest behind the read of `n` bytes.
unfoldable pub methods_request : Bytes → ℕ → Result Error MethodsRequest
methods_request buf n = do
  ver ← index buf 0
  ensure (ver == version_v5) version_not_supported
  count ← index buf 1
  ensure (n == count + 2) methods_length
  methods ← slice buf 2 n
  bytes ← slice buf 0 n
  ok (record { ver = ver; methods_count = count; methods = methods; bytes = bytes })

-- NewMethodsRequest with a header that was read before, or with what a read of the connection gives,
-- which is at most as long as the buffer.
unfoldable pub new_methods_request : Bytes → Bytes → Result Error MethodsRequest
unfolding methods_request
new_methods_request header read =
    if leb 2 (length header)
    then methods_request header (length header)
    else methods_request (padded 300 read) (length read)

-- (*MethodsRequest).Select
unfoldable pub select : ℕ → Bytes → Bool
select method [] = false
select method (m ∷ ms) = let rest = select method ms in if m == method then true else rest
