-- ===== src/Sni/Extensions.antt =====
-- The loop over the extensions: its fuel is enough, and it comes to the server name.
use jocasta.Prelude.{
  ℕ, zero, suc, ◌+◌, ◌*◌, ◌<◌, ◌≡◌, refl, sym, ◌∙◌, true, false, [], ◌∷◌, ◌++◌, length, ltb, ◌==◌,
  arith, length-append, append_assoc,
}
use jocasta.Go.Result.{ok}
use jocasta.Go.Io.{Bytes}
use jocasta.Go.Slice.{index}
use jocasta.Sni.{SniError, two_bytes, extensions_turn, extensions}

-- A byte, and two, behind a front of known length.
index-append :
    (xs : Bytes) (y : ℕ) (ys : Bytes) (i : ℕ)
    → i ≡ length xs
    → index {E = SniError} (xs ++ (y ∷ ys)) i ≡ ok y
unfolding index
index-append [] y ys i h = rw h refl
index-append (x ∷ xs) y ys zero h = absurd (omega arith)
index-append (x ∷ xs) y ys (suc i) h = index-append xs y ys i (omega arith)

-- What stands at a place of the message, where the message is cut there.
module _ (rest xs : Bytes) (i : ℕ) (at : i ≡ length xs) where
  pub index_at : (y : ℕ) (ys : Bytes) → rest ≡ xs ++ (y ∷ ys) → index {E = SniError} rest i ≡ ok y
  index_at y ys cut = rw cut (index-append xs y ys i at)

  pub two_bytes_at :
      (hi lo : ℕ) (ys : Bytes) → rest ≡ xs ++ (hi ∷ lo ∷ ys) → two_bytes rest i ≡ ok (hi * 256 + lo)
  unfolding two_bytes
  two_bytes_at hi lo ys cut = rw (two_bytes, index_at hi (lo ∷ ys) cut, second) refl
    where
      second : index {E = SniError} rest (i + 1) ≡ ok lo
      second =
          rw (cut, sym (append_assoc xs (hi ∷ []) (lo ∷ ys)))
            (index-append (xs ++ (hi ∷ [])) lo ys (i + 1)
              (omega (arith, length-append xs (hi ∷ []))))

-- An extension other than a server name: its type, its length and its data.
pub record Extension : Type 0 where
  pub type_high : ℕ
  pub type_low : ℕ
  pub length_high : ℕ
  pub length_low : ℕ
  pub contents : Bytes

abbrev pub extension_bytes : Extension → Bytes
extension_bytes e = e.type_high ∷ e.type_low ∷ e.length_high ∷ e.length_low ∷ e.contents

pub record IsOther (e : Extension) : Type 0 where
  pub other : ((e.type_high * 256 + e.type_low) == 0) ≡ false
  pub fits : e.length_high * 256 + e.length_low ≡ length e.contents

-- One turn on another extension, which something follows.
pub extensions_other :
    (fuel : ℕ) (rest pre tail : Bytes) (e : Extension)
    → IsOther e
    → 0 < length tail
    → rest ≡ pre ++ (extension_bytes e ++ tail)
    → extensions (suc fuel) rest (length pre) []
      ≡ extensions fuel rest (length pre + 4 + length e.contents) []
unfolding extensions extensions_turn
extensions_other fuel rest pre tail e o more cut =
    rw (extensions, extensions_turn, long, types, o.other, lengths, o.fits) refl
  where
    long : ltb (length pre + 4) (length rest) ≡ true
    long = rw cut (
        ground
          (arith, length-append pre (extension_bytes e ++ tail), length-append e.contents tail))

    types : two_bytes rest (length pre) ≡ ok (e.type_high * 256 + e.type_low)
    types = two_bytes_at rest pre (length pre) refl e.type_high e.type_low _ cut

    lengths : two_bytes rest (length pre + 2) ≡ ok (e.length_high * 256 + e.length_low)
    lengths =
        two_bytes_at rest (pre ++ (e.type_high ∷ e.type_low ∷ [])) (length pre + 2)
          (omega (arith, length-append pre (e.type_high ∷ e.type_low ∷ []))) e.length_high
          e.length_low (e.contents ++ tail)
          (cut ∙ sym (append_assoc pre (e.type_high ∷ e.type_low ∷ []) _))
