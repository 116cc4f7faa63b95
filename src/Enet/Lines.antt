-- ===== src/Enet/Lines.antt =====
-- Texts that are cut into lines and put together again.
use jocasta.Prelude.{
  ◌≡◌, refl, ap, ◌∙◌, Bool, false, ◌&&◌, ◌||◌, List, [], ◌∷◌, ◌++◌, All, ◌==◌, arith,
}
use jocasta.Go.Io.{Bytes}
use jocasta.Go.Text.{split_lines, join_lines}

-- Whether two bytes of the text are an end of a line.
unfoldable pub has_end : Bytes → Bool
has_end [] = false
has_end (c ∷ []) = false
has_end (c ∷ d ∷ cs) = (c == 13 && d == 10) || has_end (d ∷ cs)

split_front :
    (l rest : Bytes)
    → has_end l ≡ false
    → split_lines (l ++ (13 ∷ 10 ∷ rest)) ≡ l ∷ split_lines rest
unfolding has_end split_lines
split_front [] rest h = refl
split_front (c ∷ []) rest h = ground arith
split_front (c ∷ d ∷ cs) rest h = ground (arith, split_front (d ∷ cs) rest)

split_last : (l : Bytes) → has_end l ≡ false → split_lines l ≡ l ∷ []
unfolding has_end split_lines
split_last [] h = refl
split_last (c ∷ []) h = refl
split_last (c ∷ d ∷ cs) h = ground (arith, split_last (d ∷ cs))

abbrev pub IsLine : Bytes → Type 0
IsLine l = has_end l ≡ false

-- Lines without an end of a line inside are found again.
pub split_lines-join_lines :
    (l : Bytes) (ls : List Bytes) → All IsLine (l ∷ ls) → split_lines (join_lines (l ∷ ls)) ≡ l ∷ ls
unfolding join_lines
split_lines-join_lines l [] h = split_last l h.0
split_lines-join_lines l (m ∷ ls) h =
    split_front l (join_lines (m ∷ ls)) h.0
    ∙ ap (λ (t : List Bytes). l ∷ t) (split_lines-join_lines m ls h.1)
