-- ===== src/Filter/Labels.antt =====
-- Match: a domain is in a table if a suffix of its labels is.
use jocasta.Prelude.{
  ℕ, ◌≡◌, ◌↔◌, refl, ap, ◌∙◌, inl, inr, Bool, true, false, List, [], ◌∷◌, ◌++◌, length, leb, ◌==◌,
  arith, Bool-cases, if◌then◌else◌,
}
use jocasta.Go.Io.{Bytes}
use jocasta.Filter.{extend, split, join, match_loop, match, hostname}

split_cons : (s : Bytes) → (p : Bytes) × (ps : List Bytes) × (split s ≡ p ∷ ps)
unfolding split
split_cons [] = ([], [], refl)
split_cons (c ∷ cs) =
    let (p, ps, e) = split_cons cs in
    elim (Bool-cases (c == 46)) [
      | inl t ↦ ([], split cs, rw (split, t) refl)
      | inr f ↦ (c ∷ p, ps, rw (split, f, e) refl)
    ]

join-extend : (c : ℕ) (p : Bytes) (ps : List Bytes) → join ((c ∷ p) ∷ ps) ≡ c ∷ join (p ∷ ps)
unfolding join
join-extend c p [] = refl
join-extend c p (q ∷ qs) = refl

-- A dot in front of what is split, and another byte.
split_dot :
    (cs : Bytes) (p : Bytes) (ps : List Bytes)
    → split cs ≡ p ∷ ps
    → join ([] ∷ split cs) ≡ 46 ∷ join (split cs)
unfolding join
split_dot cs p ps e = rw e refl

split_other :
    (c : ℕ) (cs : Bytes) (p : Bytes) (ps : List Bytes)
    → split cs ≡ p ∷ ps
    → join (extend c (split cs)) ≡ c ∷ join (split cs)
split_other c cs p ps e = rw e (join-extend c p ps)

split_step :
    (c : ℕ) (cs : Bytes) → split (c ∷ cs) ≡ (if c == 46 then [] ∷ split cs else extend c (split cs))
unfolding split
split_step c cs = refl

-- Join puts together what Split took apart.
pub join-split : (s : Bytes) → join (split s) ≡ s
join-split [] = unfold split join in refl
join-split (c ∷ cs) =
    let (p, ps, e) = split_cons cs in
    elim (Bool-cases (c == 46)) [
      | inl t ↦
          rw (split_step c cs, t)
            (split_dot cs p ps e
              ∙ ap (λ s. 46 ∷ s) (join-split cs)
              ∙ ap (λ b. b ∷ cs) (ground (arith)))
      | inr f ↦ rw (split_step c cs, f) (split_other c cs p ps e ∙ ap (λ s. c ∷ s) (join-split cs))
    ]

-- A suffix of the labels that the table has.
abbrev pub IsListed : (Bytes → Bool) → List Bytes → Type 0
IsListed has ls =
    (pre : List Bytes) × (p : Bytes) × (ps : List Bytes) × (ls ≡ pre ++ (p ∷ ps))
    × (has (join (p ∷ ps)) ≡ true)

listed : (has : Bytes → Bool) (ls : List Bytes) → match_loop has ls ≡ true → IsListed has ls
unfolding match_loop
listed has [] h = absurd (cc)
listed has (p ∷ ps) h = elim (Bool-cases (match_loop has ps)) [
  | inl t ↦ let (pre, q, qs, e, k) = listed has ps t in (p ∷ pre, q, qs, ap (λ r. p ∷ r) e, k)
  | inr f ↦ ([], p, ps, refl, ground (arith))
]

matched :
    (has : Bytes → Bool) (pre : List Bytes) (p : Bytes) (ps : List Bytes)
    → has (join (p ∷ ps)) ≡ true
    → match_loop has (pre ++ (p ∷ ps)) ≡ true
unfolding match_loop
matched has [] p ps h = ground (arith)
matched has (q ∷ qs) p ps h = rw (matched has qs p ps h) refl

-- Match holds exactly of the domains with two labels or more of which a suffix is in the table.
pub match-IsListed :
    (has : Bytes → Bool) (domain : Bytes)
    → (match has domain ≡ true) ↔ (
        (leb (length (split (hostname domain))) 1 ≡ false) × IsListed has (split (hostname domain)))
unfolding match
match-IsListed has domain = (to, from)
  where
    to :
        match has domain ≡ true
        → (leb (length (split (hostname domain))) 1 ≡ false)
          × IsListed has (split (hostname domain))
    to h = (ground (arith), listed has (split (hostname domain)) (ground (arith)))

    from :
        (leb (length (split (hostname domain))) 1 ≡ false) × IsListed has (split (hostname domain))
        → match has domain ≡ true
    from (l, (pre, p, ps, e, h)) = rw (match, l, e) (matched has pre p ps h)
