-- ===== src/Sni/Panics.antt =====
-- Messages that are cut where a length is read.
use jocasta.Prelude.{
  ℕ, suc, ◌≡◌, refl, [], ◌∷◌, length, get_elem?, leb, ◌==◌, none, true, false, zero, arith, ◌≤◌,
}
use jocasta.Go.Result.{panic, ok}
use jocasta.Go.Io.{Bytes}
use jocasta.Go.Slice.{index}
use jocasta.Sni.{SniError, after_random, client_hello}

get_elem?_end : (xs : Bytes) (i : ℕ) → length xs ≤ i → get_elem? xs i ≡ none
get_elem?_end [] i h = refl
get_elem?_end (x ∷ xs) zero h = absurd (omega arith)
get_elem?_end (x ∷ xs) (suc i) h = get_elem?_end xs i (omega arith)

-- A ClientHello that ends behind its random bytes panics, where the length of the session id is read:
-- the test before it lets a message of exactly 38 bytes pass.
pub client_hello_panics : (start : Bytes) → length start ≡ 37 → client_hello (1 ∷ start) ≡ panic
unfolding client_hello
client_hello_panics start h = rw (client_hello, filled, kind, room, cut) refl
  where
    filled : (length (1 ∷ start) == 0) ≡ false
    filled = ground (arith)

    kind : index {E = SniError} (1 ∷ start) 0 ≡ ok 1
    kind = unfold index in refl

    room : leb 38 (length (1 ∷ start)) ≡ true
    room = ground (arith)

    end : index {E = SniError} (1 ∷ start) 38 ≡ panic
    end = unfold index in (rw (index, get_elem?_end (1 ∷ start) 38 (omega arith)) refl)

    cut : after_random (1 ∷ start) 38 ≡ panic
    cut = unfold after_random in (rw (after_random, end) refl)
