-- ===== src/Sni/Name.antt =====
-- The loop over the extensions at the one of type 0.
use jocasta.Prelude.{
  ℕ, zero, suc, ◌+◌, ◌*◌, ◌≤◌, ◌<◌, ◌≡◌, refl, sym, ap, ◌∙◌, ◌&&◌, true, false, [], ◌∷◌, ◌++◌, List,
  All, length, ltb, leb, ◌==◌, arith, length-append, append_assoc,
}
use jocasta.Go.Result.{ok}
use jocasta.Go.Io.{Bytes}
use jocasta.Go.Slice.{index, slice, slice-append}
use jocasta.Sni.{SniError, two_bytes, read_name, extensions_turn, extensions}
use jocasta.Sni.Extensions.{
  index_at, two_bytes_at, Extension, extension_bytes, IsOther, extensions_other,
}

-- The server name extension of one name: its type, the length of its data, the length of the list,
-- the type of the name and the name behind its length.
abbrev pub name_bytes : (d1 d0 l1 l0 n1 n0 : ℕ) → Bytes → Bytes
name_bytes d1 d0 l1 l0 n1 n0 name = 0 ∷ 0 ∷ d1 ∷ d0 ∷ l1 ∷ l0 ∷ 0 ∷ n1 ∷ n0 ∷ name

module _ (rest pre : Bytes) (d1 d0 l1 l0 n1 n0 : ℕ) (name post : Bytes)
    (cut : rest ≡ pre ++ (name_bytes d1 d0 l1 l0 n1 n0 name ++ post))
    (fits : n1 * 256 + n0 ≡ length name) where
  room : length pre + 9 + length name ≤ length rest
  room = rw cut (
      omega (
        arith,
        length-append pre (name_bytes d1 d0 l1 l0 n1 n0 name ++ post),
        length-append name post,
      ))

  read_name_at : (i : ℕ) → i ≡ length pre + 4 → read_name rest i ≡ ok (name, i + 5)
  unfolding read_name
  read_name_at i at = rw (read_name, room2, kind, room4, lengths, fits, room5, taken) refl
    where
      room2 : leb (i + 2) (length rest) ≡ true
      room2 = ground (arith, room)

      room4 : leb (i + 4) (length rest) ≡ true
      room4 = ground (arith, room)

      room5 : leb (i + 5 + length name) (length rest) ≡ true
      room5 = ground (arith, room)

      kind : index {E = SniError} rest (i + 2) ≡ ok 0
      kind =
          index_at rest (pre ++ (0 ∷ 0 ∷ d1 ∷ d0 ∷ l1 ∷ l0 ∷ [])) (i + 2)
            (omega (arith, length-append pre (0 ∷ 0 ∷ d1 ∷ d0 ∷ l1 ∷ l0 ∷ []))) 0
            (n1 ∷ n0 ∷ (name ++ post))
            (cut ∙ sym (append_assoc pre (0 ∷ 0 ∷ d1 ∷ d0 ∷ l1 ∷ l0 ∷ []) _))

      lengths : two_bytes rest (i + 3) ≡ ok (n1 * 256 + n0)
      lengths =
          two_bytes_at rest (pre ++ (0 ∷ 0 ∷ d1 ∷ d0 ∷ l1 ∷ l0 ∷ 0 ∷ [])) (i + 3)
            (omega (arith, length-append pre (0 ∷ 0 ∷ d1 ∷ d0 ∷ l1 ∷ l0 ∷ 0 ∷ []))) n1 n0
            (name ++ post) (cut ∙ sym (append_assoc pre (0 ∷ 0 ∷ d1 ∷ d0 ∷ l1 ∷ l0 ∷ 0 ∷ []) _))

      front : length (pre ++ name_bytes d1 d0 l1 l0 n1 n0 []) ≡ i + 5
      front = omega (arith, length-append pre (name_bytes d1 d0 l1 l0 n1 n0 []))

      taken : slice {E = SniError} rest (i + 5) (i + 5 + length name) ≡ ok name
      taken =
          rw (cut, sym (append_assoc pre (name_bytes d1 d0 l1 l0 n1 n0 []) (name ++ post)))
            (slice-append (pre ++ name_bytes d1 d0 l1 l0 n1 n0 []) name post (i + 5)
              (i + 5 + length name) (sym front) (omega (arith, front)))

  -- The turn at the server name.
  extensions-name :
      (fuel : ℕ)
      → extensions (suc fuel) rest (length pre) []
        ≡ extensions fuel rest (length pre + 4 + 5 + (d1 * 256 + d0)) name
  unfolding extensions extensions_turn
  extensions-name fuel =
      rw (extensions, extensions_turn, long, types, lengths, read_name_at (length pre + 4) refl)
        refl
    where
      long : ltb (length pre + 4) (length rest) ≡ true
      long = ground (arith, room)

      types : two_bytes rest (length pre) ≡ ok (0 * 256 + 0)
      types = two_bytes_at rest pre (length pre) refl 0 0 _ cut

      lengths : two_bytes rest (length pre + 2) ≡ ok (d1 * 256 + d0)
      lengths =
          two_bytes_at rest (pre ++ (0 ∷ 0 ∷ [])) (length pre + 2)
            (omega (arith, length-append pre (0 ∷ 0 ∷ []))) d1 d0
            (l1 ∷ l0 ∷ 0 ∷ n1 ∷ n0 ∷ (name ++ post)) (cut ∙ sym (append_assoc pre (0 ∷ 0 ∷ []) _))

-- Once a name is found the loop ends.
extensions_found :
    (fuel : ℕ) (rest : Bytes) (current c : ℕ) (cs : Bytes)
    → extensions fuel rest current (c ∷ cs) ≡ ok (c ∷ cs)
unfolding extensions extensions_turn
extensions_found zero rest current c cs = refl
extensions_found (suc fuel) rest current c cs = rw (extensions, extensions_turn, stop) refl
  where
    stop : (ltb (current + 4) (length rest) && (length (c ∷ cs) == 0)) ≡ false
    stop = ground (arith)

abbrev pub others_bytes : List Extension → Bytes
others_bytes [] = []
others_bytes (e ∷ es) = extension_bytes e ++ others_bytes es

-- The loop comes over other extensions to the server name.
pub extensions_others :
    (es : List Extension) (fuel : ℕ) (rest pre : Bytes) (d1 d0 l1 l0 n1 n0 c : ℕ) (cs post : Bytes)
    → All IsOther es
    → length es < fuel
    → rest ≡ pre ++ (others_bytes es ++ (name_bytes d1 d0 l1 l0 n1 n0 (c ∷ cs) ++ post))
    → n1 * 256 + n0 ≡ length (c ∷ cs)
    → extensions fuel rest (length pre) [] ≡ ok (c ∷ cs)
extensions_others [] zero rest pre d1 d0 l1 l0 n1 n0 c cs post o f cut fits = absurd (omega arith)
extensions_others [] (suc fuel) rest pre d1 d0 l1 l0 n1 n0 c cs post o f cut fits =
    extensions-name rest pre d1 d0 l1 l0 n1 n0 (c ∷ cs) post cut fits fuel
    ∙ extensions_found fuel rest _ c cs
extensions_others (e ∷ es) zero rest pre d1 d0 l1 l0 n1 n0 c cs post o f cut fits =
    absurd (omega arith)
extensions_others (e ∷ es) (suc fuel) rest pre d1 d0 l1 l0 n1 n0 c cs post o f cut fits =
    extensions_other fuel rest pre _ e o.0
      (omega
        (arith, length-append (others_bytes es) (name_bytes d1 d0 l1 l0 n1 n0 (c ∷ cs) ++ post)))
      (cut ∙ ap (λ t. pre ++ t) (append_assoc (extension_bytes e) (others_bytes es) _))
    ∙ ap (λ i. extensions fuel rest i []) (omega (arith, length-append pre (extension_bytes e)))
    ∙ extensions_others es fuel rest (pre ++ extension_bytes e) d1 d0 l1 l0 n1 n0 c cs post o.1
        (omega arith)
        (cut
          ∙ ap (λ t. pre ++ t) (append_assoc (extension_bytes e) (others_bytes es) _)
          ∙ sym (append_assoc pre (extension_bytes e) _))
        fits
