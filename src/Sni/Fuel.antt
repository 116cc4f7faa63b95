-- ===== src/Sni/Fuel.antt =====
-- The loop over the extensions ends by itself.
use jocasta.Prelude.{
  ℕ, zero, suc, ◌+◌, ◌≤◌, ◌≡◌, refl, sym, ◌∙◌, ◌&&◌, Bool, true, false, length, ltb, leb, ◌==◌,
  arith,
}
use jocasta.Go.Result.{Result, ok, ◌>>=◌, ◌>>◌, >>=_inv, >>=_agree, ensure}
use jocasta.Go.Io.{Bytes}
use jocasta.Go.Slice.{index, slice}
use jocasta.Sni.{
  SniError, two_bytes, malformed, not_a_hostname, two_bytes, read_name, extensions_turn, extensions,
}

read_name_end : (rest : Bytes) (i : ℕ) (n : Bytes × ℕ) → read_name rest i ≡ ok n → i ≤ n.1
unfolding read_name
read_name_end rest i n e =
    let (_, _, e1) =
      >>=_inv (ensure (leb (i + 2) (length rest)) malformed >> index rest (i + 2)) _ e in
    let (name_len, _, e2) =
      >>=_inv
        (ensure (_ == 0) not_a_hostname
          >> ensure (leb (i + 4) (length rest)) malformed
          >> two_bytes rest (i + 3))
        _ e1 in
    let (_, _, e3) =
      >>=_inv
        (ensure (leb (i + 5 + name_len) (length rest)) malformed
          >> slice rest (i + 5) (i + 5 + name_len))
        _ e2 in
    rw (sym (end_of e3)) (omega arith)
  where
    end_of :
        {hostname : Bytes} {end : ℕ}
        → ◌≡◌ {A = Result SniError (Bytes × ℕ)} (ok (hostname, end)) (ok n)
        → end ≡ n.1
    end_of e = cc

-- Two ways to go on after a turn agree if they agree further on in the message.
extensions_turn_agree :
    (f g : Bytes × ℕ → Result SniError Bytes) (rest : Bytes) (current : ℕ) (hostname : Bytes)
    → ((n : Bytes × ℕ) → current + 4 ≤ n.1 → f n ≡ g n)
    → extensions_turn f rest current hostname ≡ extensions_turn g rest current hostname
unfolding extensions_turn
extensions_turn_agree f g rest current hostname h =
    on_test (ltb (current + 4) (length rest) && (length hostname == 0))
  where
    on_type :
        (b : Bool) (d : ℕ)
        → (elim b [
          | true ↦ read_name rest (current + 4) >>= λ n. f (n.0, n.1 + d)
          | false ↦ f (hostname, current + 4 + d)
        ])
          ≡ (elim b [
            | true ↦ read_name rest (current + 4) >>= λ n. g (n.0, n.1 + d)
            | false ↦ g (hostname, current + 4 + d)
          ])
    on_type true d =
        >>=_agree (read_name rest (current + 4)) _ _
          (λ n e. h (n.0, n.1 + d) (omega (arith, read_name_end rest (current + 4) n e)))
    on_type false d = h (hostname, current + 4 + d) (omega arith)

    on_test :
        (b : Bool)
        → (elim b [
          | false ↦ ok hostname
          | true ↦ two_bytes rest current >>= λ t. two_bytes rest (current + 2) >>= λ d.
              elim (t == 0) [
                | true ↦ read_name rest (current + 4) >>= λ n. f (n.0, n.1 + d)
                | false ↦ f (hostname, current + 4 + d)
              ]
        ])
          ≡ (elim b [
            | false ↦ ok hostname
            | true ↦ two_bytes rest current >>= λ t. two_bytes rest (current + 2) >>= λ d.
                elim (t == 0) [
                  | true ↦ read_name rest (current + 4) >>= λ n. g (n.0, n.1 + d)
                  | false ↦ g (hostname, current + 4 + d)
                ]
          ])
    on_test false = refl
    on_test true =
        >>=_agree (two_bytes rest current) _ _
          (λ t _. >>=_agree (two_bytes rest (current + 2)) _ _ (λ d _. on_type (t == 0) d))

extensions-zero :
    (rest : Bytes) (current : ℕ) (hostname : Bytes)
    → extensions 0 rest current hostname ≡ ok hostname
unfolding extensions
extensions-zero rest current hostname = refl

extensions-suc :
    (fuel : ℕ) (rest : Bytes) (current : ℕ) (hostname : Bytes)
    → extensions (suc fuel) rest current hostname
      ≡ extensions_turn (λ n. extensions fuel rest n.1 n.0) rest current hostname
unfolding extensions
extensions-suc fuel rest current hostname = refl

-- The loop over the extensions ends by its own condition: with as much fuel as there are bytes from
-- its place on, more fuel makes no difference.
pub extensions_fuel :
    (fuel : ℕ) (rest : Bytes) (current : ℕ) (hostname : Bytes)
    → length rest ≤ current + fuel
    → extensions (suc fuel) rest current hostname ≡ extensions fuel rest current hostname
extensions_fuel zero rest current hostname h =
    extensions-suc zero rest current hostname ∙ last ∙ sym (extensions-zero rest current hostname)
  where
    stop : (ltb (current + 4) (length rest) && (length hostname == 0)) ≡ false
    stop = ground (arith)

    last : extensions_turn (λ n. extensions 0 rest n.1 n.0) rest current hostname ≡ ok hostname
    last = unfold extensions_turn in (rw (extensions_turn, stop) refl)
extensions_fuel (suc fuel) rest current hostname h =
    extensions-suc (suc fuel) rest current hostname
    ∙ extensions_turn_agree _ _ rest current hostname
        (λ n l. extensions_fuel fuel rest n.1 n.0 (omega arith))
    ∙ sym (extensions-suc fuel rest current hostname)
