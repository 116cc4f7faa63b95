-- ===== src/Shadowsocks/Stream/Tests.antt =====
-- A stream that adds one to each byte, and one that takes it off again.
use jocasta.Prelude.{
  ℕ, zero, suc, ◌≤◌, ◌<◌, ◌≡◌, refl, Bool, true, false, Option, none, some, List, [], ◌∷◌, ◌++◌,
  length, ap,
}
use jocasta.Go.Result.{ok, err}
use jocasta.Go.Io.{Bytes}
use jocasta.Shadowsocks.Cipher.{Streams, StreamLaws, Cipher, encrypt, decrypt, invalid_input}
use jocasta.Shadowsocks.Packets.{decrypt-encrypt}
use jocasta.Shadowsocks.Stream.Drain.{chunks, size, Positive, drain}
use jocasta.Shadowsocks.Stream.Sends.{write_all}
use jocasta.Shadowsocks.Stream.Delivers.{stream_delivers}

abbrev up : Bytes → Bytes
up [] = []
up (x ∷ xs) = suc x ∷ up xs

abbrev pred : ℕ → ℕ
pred zero = zero
pred (suc n) = n

abbrev down : Bytes → Bytes
down [] = []
down (x ∷ xs) = pred x ∷ down xs

abbrev shift : Bool → Bytes → Bytes × Bool
shift true xs = (up xs, true)
shift false xs = (down xs, false)

abbrev shifts : Streams
shifts = record {
  Stream = Bool;
  new_stream = λ m k iv encrypts. some encrypts;
  xor_stream = shift;
  get_cipher = λ m. some (1, 1);
  evp_key = λ p n. p;
}

down-up : (xs : Bytes) → down (up xs) ≡ xs
down-up [] = refl
down-up (x ∷ xs) = ap (λ (t : Bytes). x ∷ t) (down-up xs)

up-append : (xs ys : Bytes) → up (xs ++ ys) ≡ up xs ++ up ys
up-append [] ys = refl
up-append (x ∷ xs) ys = ap (λ (t : Bytes). suc x ∷ t) (up-append xs ys)

down-append : (xs ys : Bytes) → down (xs ++ ys) ≡ down xs ++ down ys
down-append [] ys = refl
down-append (x ∷ xs) ys = ap (λ (t : Bytes). pred x ∷ t) (down-append xs ys)

length-shift : (b : Bool) (xs : Bytes) → length (shift b xs).0 ≡ length xs
length-shift true [] = refl
length-shift true (x ∷ xs) = ap suc (length-shift true xs)
length-shift false [] = refl
length-shift false (x ∷ xs) = ap suc (length-shift false xs)

undoes : (w r : Bool) (xs : Bytes) → (w ≡ true) × (r ≡ false) → (shift r (shift w xs).0).0 ≡ xs
undoes w r xs p = rw (p.0, p.1) (down-up xs)

keeps :
    (w r : Bool) (xs : Bytes)
    → (w ≡ true) × (r ≡ false)
    → ((shift w xs).1 ≡ true) × ((shift r (shift w xs).0).1 ≡ false)
keeps w r xs p = (rw p.0 refl, rw (p.0, p.1) refl)

cuts :
    (r : Bool) (xs ys : Bytes)
    → shift r (xs ++ ys)
      ≡ ((shift r xs).0 ++ (shift (shift r xs).1 ys).0, (shift (shift r xs).1 ys).1)
cuts true xs ys = rw (up-append xs ys) refl
cuts false xs ys = rw (down-append xs ys) refl

made : (w : Bool) → some true ≡ some w → (w ≡ true) × (false ≡ false)
made w e = (cc, refl)

abbrev laws : StreamLaws shifts
laws = record {
  Paired = λ w r. (w ≡ true) × (r ≡ false);
  new_Paired = λ m k iv w e. (false, refl, made w e);
  undoes = undoes;
  keeps_Paired = keeps;
  cuts = cuts;
  keeps_length = length-shift;
}

abbrev cipher : Cipher shifts
cipher = record { writer = none; reader = none; method = []; iv_len = 1; key = []; iv = none }

abbrev rand : ℕ → Option Bytes
rand n = some (9 ∷ [])

decrypt-encrypt_example :
    (packet : Bytes) × (encrypt shifts rand cipher (5 ∷ []) ≡ ok packet)
    × (decrypt shifts cipher packet ≡ ok (5 ∷ []))
    × (0 < 1 → decrypt shifts cipher [] ≡ err invalid_input)
decrypt-encrypt_example =
    decrypt-encrypt shifts laws rand cipher cipher (5 ∷ []) (9 ∷ []) [] true refl refl refl refl
      refl refl

stream_delivers_example :
    (out' : Cipher shifts) × (sent : List Bytes) × (write_all shifts rand
        ((1 ∷ 2 ∷ []) ∷ (3 ∷ []) ∷ [])
        cipher
        (chunks [] 2 [])
      ≡ (ok out', chunks [] 0 sent))
    × (rest : Bytes) × ((drain shifts (1 ∷ 1 ∷ []) cipher (chunks sent 0 [])).0 ++ rest
        ≡ 1 ∷ 2 ∷ 3 ∷ [])
    × (size sent ≤ 2 → Positive (1 ∷ 1 ∷ []) → rest ≡ [])
stream_delivers_example =
    stream_delivers shifts laws rand (1 ∷ 2 ∷ []) ((3 ∷ []) ∷ []) (1 ∷ []) 1 cipher cipher true
      (9 ∷ []) 0 refl refl refl refl refl refl refl refl refl
