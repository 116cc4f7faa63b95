-- ===== src/Enet/Kept.antt =====
-- pkg/enet/enet.go: the loop over the headers.
use mathlib.Core.Path.{subst}
use jocasta.Prelude.{
  ℕ, ◌≡◌, refl, ap, ◌∙◌, Bool, true, false, not, ◌&&◌, none, some, inl, inr, List, [], ◌∷◌, ◌++◌,
  All, arith, Bool-cases, Option-cases, All-imp,
}
use jocasta.Go.Io.{Bytes}
use jocasta.Go.Net.{bytes_eq, bytes_eq_sound, bytes_eq_refl}
use jocasta.Go.Text.{ascii, has_prefix, to_upper, cut}
use jocasta.Enet.{contains, passes, headers_loop}

-- The names of the headers among the lines.
unfoldable pub names : List Bytes → List Bytes
names [] = []
names (l ∷ ls) = elim (cut b':' l) [ none ↦ names ls | some p ↦ to_upper p.0 ∷ names ls ]

abbrev pub is_proxy_name : Bytes → Bool
is_proxy_name k = has_prefix k (ascii "PROXY-")

abbrev pub Distinct : List Bytes → Type 0
Distinct [] = Unit {0}
Distinct (k ∷ ks) = (contains k ks ≡ false) × Distinct ks

abbrev pub IsFull : Bytes → Type 0
IsFull l = bytes_eq l [] ≡ false

module _ (keys hs : List Bytes) (c : ℕ) (l : Bytes) where
  loop_none : cut b':' (c ∷ l) ≡ none → headers_loop keys ((c ∷ l) ∷ hs) ≡ headers_loop keys hs
  unfolding headers_loop
  loop_none e = rw (headers_loop, e) refl

  loop_keep :
      {p : Bytes × Bytes}
      → cut b':' (c ∷ l) ≡ some p
      → passes keys (to_upper p.0) ≡ true
      → headers_loop keys ((c ∷ l) ∷ hs) ≡ (c ∷ l) ∷ headers_loop (to_upper p.0 ∷ keys) hs
  unfolding headers_loop
  loop_keep e t = rw (headers_loop, e, t) refl

  loop_skip :
      {p : Bytes × Bytes}
      → cut b':' (c ∷ l) ≡ some p
      → passes keys (to_upper p.0) ≡ false
      → headers_loop keys ((c ∷ l) ∷ hs) ≡ headers_loop keys hs
  unfolding headers_loop
  loop_skip e t = rw (headers_loop, e, t) refl

names_passes_over : (l : Bytes) (ls : List Bytes) → cut b':' l ≡ none → names (l ∷ ls) ≡ names ls
unfolding names
names_passes_over l ls e = rw (names, e) refl

names_takes :
    (l : Bytes) (ls : List Bytes) {p : Bytes × Bytes}
    → cut b':' l ≡ some p
    → names (l ∷ ls) ≡ to_upper p.0 ∷ names ls
unfolding names
names_takes l ls e = rw (names, e) refl

-- Everything from an empty line on is kept.
pub headers_loop-body :
    (keys hs body : List Bytes)
    → All IsFull hs
    → headers_loop keys (hs ++ ([] ∷ body)) ≡ headers_loop keys hs ++ ([] ∷ body)
unfolding bytes_eq
headers_loop-body keys [] body h = unfold headers_loop in refl
headers_loop-body keys ([] ∷ hs) body h = cc
headers_loop-body keys ((c ∷ l) ∷ hs) body h = elim (Option-cases (cut b':' (c ∷ l))) [
  | inl e ↦
      rw (loop_none keys (hs ++ ([] ∷ body)) c l e, loop_none keys hs c l e)
        (headers_loop-body keys hs body h.1)
  | inr (p, e) ↦ elim (Bool-cases (passes keys (to_upper p.0))) [
    | inl t ↦
        rw (loop_keep keys (hs ++ ([] ∷ body)) c l e t, loop_keep keys hs c l e t)
          (ap (λ (t : List Bytes). (c ∷ l) ∷ t)
            (headers_loop-body (to_upper p.0 ∷ keys) hs body h.1))
    | inr f ↦
        rw (loop_skip keys (hs ++ ([] ∷ body)) c l e f, loop_skip keys hs c l e f)
          (headers_loop-body keys hs body h.1)
  ]
]

-- One more name so far.
passes_more :
    (j : Bytes) (keys : List Bytes) (k : Bytes)
    → bytes_eq j k ≡ false
    → passes (j ∷ keys) k ≡ passes keys k
unfolding passes contains
passes_more j keys k e = rw (contains, e) refl

passes_again : (j : Bytes) (keys : List Bytes) → passes (j ∷ keys) j ≡ false
unfolding passes contains
passes_again j keys = rw (bytes_eq_refl j) refl

contains_tail :
    (j k : Bytes) (ks : List Bytes) → bytes_eq j k ≡ false → contains k (j ∷ ks) ≡ contains k ks
unfolding contains
contains_tail j k ks e = rw e refl

contains_head : (k : Bytes) (ks : List Bytes) → contains k (k ∷ ks) ≡ true
unfolding contains
contains_head k ks = rw (bytes_eq_refl k) refl

and_false : (b : Bool) → (b && false) ≡ false
and_false b = ground arith

-- The names that are kept, when the name in front is kept and when it is not.
front_kept :
    (j k : Bytes) (keys ns kept : List Bytes)
    → passes keys j ≡ true
    → contains k kept ≡ (contains k ns && passes (j ∷ keys) k)
    → contains k (j ∷ kept) ≡ (contains k (j ∷ ns) && passes keys k)
front_kept j k keys ns kept p ih = elim (Bool-cases (bytes_eq j k)) [
  | inl e ↦
      subst (λ (x : Bytes). contains x (j ∷ kept) ≡ (contains x (j ∷ ns) && passes keys x))
        (bytes_eq_sound j k e) (rw (contains_head j kept, contains_head j ns, p) refl)
  | inr e ↦ rw (contains_tail j k kept e, contains_tail j k ns e, ih, passes_more j keys k e) refl
]

front_dropped :
    (j k : Bytes) (keys ns kept : List Bytes)
    → passes keys j ≡ false
    → contains k kept ≡ (contains k ns && passes keys k)
    → contains k kept ≡ (contains k (j ∷ ns) && passes keys k)
front_dropped j k keys ns kept p ih = elim (Bool-cases (bytes_eq j k)) [
  | inl e ↦
      let q : passes keys k ≡ false =
        subst (λ (x : Bytes). passes keys x ≡ false) (bytes_eq_sound j k e) p in
      ih ∙ rw (q, and_false (contains k ns), and_false (contains k (j ∷ ns))) refl
  | inr e ↦ rw (contains_tail j k ns e) ih
]

pub names_kept :
    (keys hs : List Bytes) (k : Bytes)
    → All IsFull hs
    → contains k (names (headers_loop keys hs)) ≡ (contains k (names hs) && passes keys k)
unfolding bytes_eq
names_kept keys [] k h = unfold headers_loop names contains in refl
names_kept keys ([] ∷ hs) k h = cc
names_kept keys ((c ∷ l) ∷ hs) k h = elim (Option-cases (cut b':' (c ∷ l))) [
  | inl e ↦ rw (loop_none keys hs c l e, names_passes_over (c ∷ l) hs e) (names_kept keys hs k h.1)
  | inr (p, e) ↦ elim (Bool-cases (passes keys (to_upper p.0))) [
    | inl t ↦
        rw
          (
            loop_keep keys hs c l e t,
            names_takes (c ∷ l) hs e,
            names_takes (c ∷ l) (headers_loop (to_upper p.0 ∷ keys) hs) e,
          )
          (front_kept (to_upper p.0) k keys (names hs)
            (names (headers_loop (to_upper p.0 ∷ keys) hs)) t
            (names_kept (to_upper p.0 ∷ keys) hs k h.1))
    | inr f ↦
        rw (loop_skip keys hs c l e f, names_takes (c ∷ l) hs e)
          (front_dropped (to_upper p.0) k keys (names hs) (names (headers_loop keys hs)) f
            (names_kept keys hs k h.1))
  ]
]

pub Distinct-kept : (keys hs : List Bytes) → All IsFull hs → Distinct (names (headers_loop keys hs))
unfolding bytes_eq
Distinct-kept keys [] h = unfold headers_loop names in tt
Distinct-kept keys ([] ∷ hs) h = cc
Distinct-kept keys ((c ∷ l) ∷ hs) h = elim (Option-cases (cut b':' (c ∷ l))) [
  | inl e ↦ rw (loop_none keys hs c l e) (Distinct-kept keys hs h.1)
  | inr (p, e) ↦ elim (Bool-cases (passes keys (to_upper p.0))) [
    | inl t ↦
        rw
          (loop_keep keys hs c l e t, names_takes (c ∷ l) (headers_loop (to_upper p.0 ∷ keys) hs) e)
          (
            names_kept (to_upper p.0 ∷ keys) hs (to_upper p.0) h.1
                ∙ rw (passes_again (to_upper p.0) keys)
                    (and_false (contains (to_upper p.0) (names hs))),
            Distinct-kept (to_upper p.0 ∷ keys) hs h.1,
          )
    | inr f ↦ rw (loop_skip keys hs c l e f) (Distinct-kept keys hs h.1)
  ]
]

abbrev pub Among : List Bytes → Bytes → Type 0
Among ls l = contains l ls ≡ true

Among-more : (x : Bytes) (ls : List Bytes) (l : Bytes) → Among ls l → Among (x ∷ ls) l
unfolding contains
Among-more x ls l h = ground arith

All-Among_more :
    (x : Bytes) (ls kept : List Bytes) → All (Among ls) kept → All (Among (x ∷ ls)) kept
All-Among_more x ls kept h = All-imp (Among ls) (Among (x ∷ ls)) kept (Among-more x ls) h

-- No line is made up.
pub kept-Among : (keys hs : List Bytes) → All IsFull hs → All (Among hs) (headers_loop keys hs)
unfolding bytes_eq
kept-Among keys [] h = unfold headers_loop in tt
kept-Among keys ([] ∷ hs) h = cc
kept-Among keys ((c ∷ l) ∷ hs) h = elim (Option-cases (cut b':' (c ∷ l))) [
  | inl e ↦
      rw (loop_none keys hs c l e)
        (All-Among_more (c ∷ l) hs (headers_loop keys hs) (kept-Among keys hs h.1))
  | inr (p, e) ↦ elim (Bool-cases (passes keys (to_upper p.0))) [
    | inl t ↦ rw (loop_keep keys hs c l e t) (
      contains_head (c ∷ l) hs,
      All-Among_more (c ∷ l) hs (headers_loop (to_upper p.0 ∷ keys) hs)
          (kept-Among (to_upper p.0 ∷ keys) hs h.1),
    )
    | inr f ↦
        rw (loop_skip keys hs c l e f)
          (All-Among_more (c ∷ l) hs (headers_loop keys hs) (kept-Among keys hs h.1))
  ]
]

pub passes_nothing : (k : Bytes) → passes [] k ≡ not (is_proxy_name k)
unfolding passes contains
passes_nothing k = ground arith
