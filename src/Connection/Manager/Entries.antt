-- ===== src/Connection/Manager/Entries.antt =====
-- A list of entries with one for each key, which meets the laws of the shared map.
use mathlib.Core.Path.{subst}
use jocasta.Prelude.{
  ◌≡◌, refl, sym, ◌∙◌, Bool, true, false, Option, none, some, List, [], ◌∷◌, if◌then◌else◌, arith,
  Bool-cases, inl, inr,
}
use jocasta.Go.Io.{Bytes}
use jocasta.Go.Net.{bytes_eq, bytes_eq_sound, bytes_eq_refl}
use jocasta.Connection.Manager.{SharedMap, find, OneEach}

module _ (V : Type 0) where
  abbrev pub without : Bytes → List (Bytes × V) → List (Bytes × V)
  without k [] = []
  without k ((j, v) ∷ es) = if bytes_eq j k then without k es else (j, v) ∷ without k es

  -- Keys that differ from one another where a third equals one of them.
  apart : (i j k : Bytes) → bytes_eq i j ≡ false → bytes_eq i k ≡ true → bytes_eq j k ≡ false
  apart i j k e f = elim (Bool-cases (bytes_eq j k)) [
    | inr q ↦ q
    | inl q ↦
        let same : i ≡ j = bytes_eq_sound i k f ∙ sym (bytes_eq_sound j k q) in
        absurd (differ i j same e)
  ]
    where
      differ : (i j : Bytes) → i ≡ j → bytes_eq i j ≡ false → ⊥
      differ i j p e = cc (subst (λ (x : Bytes). bytes_eq i x ≡ true) p (bytes_eq_refl i))

  pub find-without :
      (k j : Bytes) (es : List (Bytes × V))
      → find k (without j es) ≡ (if bytes_eq j k then none else find k es)
  find-without k j [] = ground arith
  find-without k j ((i, v) ∷ es) = elim (Bool-cases (bytes_eq i j)) [
    | inl e ↦ let same = bytes_eq_sound i j e in rw (e, same, find-without k j es) (ground arith)
    | inr e ↦ elim (Bool-cases (bytes_eq i k)) [
      | inl f ↦ rw (e, f, apart i j k e f) refl
      | inr f ↦ rw (e, f) (find-without k j es)
    ]
  ]

  pub OneEach-without : (k : Bytes) (es : List (Bytes × V)) → OneEach es → OneEach (without k es)
  OneEach-without k [] h = tt
  OneEach-without k ((j, v) ∷ es) h = elim (Bool-cases (bytes_eq j k)) [
    | inl e ↦ rw e (OneEach-without k es h.1)
    | inr e ↦
        rw e (find-without j k es ∙ gone (bytes_eq k j) (find j es) h.0, OneEach-without k es h.1)
  ]
    where
      gone : (b : Bool) (o : Option V) → o ≡ none → (if b then none else o) ≡ none
      gone b o e = ground arith

  pub find_self : (k : Bytes) (es : List (Bytes × V)) → find k (without k es) ≡ none
  find_self k es = find-without k k es ∙ rw (bytes_eq_refl k) refl

  abbrev pub Entries : Type 0
  Entries = (es : List (Bytes × V)) × OneEach es

  abbrev pub put : Bytes → V → Entries → Entries
  put k v m = ((k, v) ∷ without k m.0, (find_self k m.0, OneEach-without k m.0 m.1))

  pub find-put :
      (k j : Bytes) (v : V) (m : Entries)
      → find k (put j v m).0 ≡ (if bytes_eq j k then some v else find k m.0)
  find-put k j v m = elim (Bool-cases (bytes_eq j k)) [
    | inl e ↦ rw e refl
    | inr e ↦ rw e (find-without k j m.0 ∙ rw e refl)
  ]

  abbrev pub entries : SharedMap V
  entries = record {
    carrier = Entries;
    empty = ([], tt);
    get = λ k m. find k m.0;
    set = put;
    remove = λ k m. (without k m.0, OneEach-without k m.0 m.1);
    items = λ m. m.0;
    get_empty = λ k. refl;
    get_set = find-put;
    get_remove = λ k j m. find-without k j m.0;
    find_items = λ k m. refl;
    items_OneEach = λ m. m.1;
  }
