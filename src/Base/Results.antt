-- ===== src/Base/Results.antt =====
-- Go's `(value, error)` pairs: a value, or the error's sentinel.
use mathlib.Core.Path.{◌≡◌, refl}
use mathlib.Core.Bool.{Bool, true, false}
use mathlib.Core.Logic.{◌⊎◌, inl, inr}

pub data Result {ℓ κ} (E : Type ℓ) (A : Type κ) : Type (ℓ ⊔ κ) where
  ok : A → Result E A
  err : E → Result E A

infixl 5 ◌>>=◌
abbrev pub ◌>>=◌ {ℓ κ μ} :
    {E : Type ℓ} {A : Type κ} {B : Type μ} → Result E A → (A → Result E B) → Result E B
ok value >>= next = next value
err why >>= next = err why

-- `if bad { return e }`
abbrev pub fail_if {ℓ} : {E : Type ℓ} → Bool → E → Result E (Unit {0})
fail_if true why = err why
fail_if false why = ok tt

module _ {ℓ κ} {E : Type ℓ} {A : Type κ} where
  pub Result-cases :
      (outcome : Result E A)
      → ((value : A) × (outcome ≡ ok value)) ⊎ ((why : E) × (outcome ≡ err why))
  Result-cases (ok value) = inl (value, refl)
  Result-cases (err why) = inr (why, refl)

  -- Two calls in a row succeed only if each does.
  pub >>=-eq-ok {μ} :
      {B : Type μ} (outcome : Result E A) (next : A → Result E B) {last : B}
      → (outcome >>= next) ≡ ok last
      → (value : A) × (outcome ≡ ok value) × (next value ≡ ok last)
  >>=-eq-ok (ok value) next both = (value, refl, both)
  >>=-eq-ok (err why) next both = cc
