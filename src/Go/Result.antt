-- ===== src/Go/Result.antt =====
-- A Go function's (value, error) pair, with run-time panics as a third outcome.
use jocasta.Prelude.{Bool, true, false, refl, ◌≡◌, ◌⊎◌, inl, inr, Option, none, some}

pub data Result {ℓ κ} (E : Type κ) (A : Type ℓ) : Type (ℓ ⊔ κ) where
  ok : A → Result E A
  err : E → Result E A
  -- An index or slice bound out of range, a division by zero, or a call of `panic`.
  panic : Result E A

module _ {ℓ κ μ} {E : Type κ} {A : Type ℓ} {B : Type μ} where
  infixl 5 ◌>>=◌ ◌>>◌
  -- `if err != nil { return err }` between two calls; a panic goes on up.
  abbrev pub ◌>>=◌ : Result E A → (A → Result E B) → Result E B
  ◌>>=◌ panic next = panic
  ◌>>=◌ (err e) next = err e
  ◌>>=◌ (ok a) next = next a

  abbrev pub ◌>>◌ : Result E A → Result E B → Result E B
  ◌>>◌ r next = ◌>>=◌ r (λ _. next)

  -- What a chain that succeeds went through.
  pub >>=_inv :
      (r : Result E A) (next : A → Result E B) {b : B}
      → (r >>= next) ≡ ok b
      → (a : A) × (r ≡ ok a) × (next a ≡ ok b)
  >>=_inv panic next q = cc
  >>=_inv (err e) next q = cc
  >>=_inv (ok a) next q = (a, refl, q)

  -- Two chains agree if they agree on what the first call can return.
  pub >>=_agree :
      (r : Result E A) (f g : A → Result E B)
      → ((a : A) → r ≡ ok a → f a ≡ g a)
      → (r >>= f) ≡ (r >>= g)
  >>=_agree panic f g h = refl
  >>=_agree (err e) f g h = refl
  >>=_agree (ok a) f g h = h a refl

pub Result-cases {ℓ κ} :
    {E : Type κ} {A : Type ℓ} (r : Result E A)
    → ((a : A) × (r ≡ ok a)) ⊎ (((e : E) × (r ≡ err e)) ⊎ (r ≡ panic))
Result-cases (ok a) = inl (a, refl)
Result-cases (err e) = inr (inl (e, refl))
Result-cases panic = inr (inr refl)

-- Goes on if the test holds, and fails with the error if not.
abbrev pub ensure {κ} : {E : Type κ} → Bool → E → Result E (Unit {0})
ensure true e = ok tt
ensure false e = err e

-- The value that is there, or what happens if it is not.
abbrev pub or_else {ℓ κ} : {E : Type κ} {A : Type ℓ} → Option A → Result E A → Result E A
or_else none r = r
or_else (some a) r = ok a

abbrev pub map_err {ℓ κ μ} :
    {E : Type κ} {F : Type μ} {A : Type ℓ} → (E → F) → Result E A → Result F A
map_err f (ok a) = ok a
map_err f (err e) = err (f e)
map_err f panic = panic
