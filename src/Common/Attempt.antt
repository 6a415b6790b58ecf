-- ===== src/Common/Attempt.antt =====
-- A computation that returns a value or fails with an error of a class of the source's.
use mathlib.Core.Bool.{Bool, true, false}
use mathlib.Core.Path.{◌≡◌, refl}
use mathlib.Core.Logic.{◌≢◌, ◌⊎◌, inl, inr}

pub data Attempt {ℓ κ} (E : Type κ) (A : Type ℓ) : Type (ℓ ⊔ κ) where
  returned : A → Attempt E A
  failed : E → Attempt E A

infixl 5 ◌>>=◌
abbrev pub ◌>>=◌ {ℓ ℓ' κ} :
    {E : Type κ} {S : Type ℓ} {R : Type ℓ'} → Attempt E S → (S → Attempt E R) → Attempt E R
failed error >>= next = failed error
returned value >>= next = next value

-- `if (test) throw error`, and what follows.
unfoldable pub fail_if {ℓ κ} : {E : Type κ} {A : Type ℓ} → Bool → E → Attempt E A → Attempt E A
fail_if true error next = failed error
fail_if false error next = next

module _ {ℓ κ} {E : Type κ} {A : Type ℓ} where
  pub fail_if-returned :
      (test : Bool) (error : E) (next : Attempt E A) {end : A}
      → fail_if test error next ≡ returned end
      → (test ≡ false) × (next ≡ returned end)
  unfolding fail_if
  fail_if-returned true error next h = cc
  fail_if-returned false error next h = (refl, h)

  pub failed-ne-returned : (error : E) (a : A) → failed error ≢ returned a
  failed-ne-returned error a h = cc

  pub returned-injective : {a b : A} → ◌≡◌ {A = Attempt E A} (returned a) (returned b) → a ≡ b
  returned-injective h = cc

-- A return comes from a return of the first part.
pub >>=-returned {ℓ ℓ' κ} :
    {E : Type κ} {S : Type ℓ} {R : Type ℓ'} (first : Attempt E S) (next : S → Attempt E R) {end : R}
    → (first >>= next) ≡ returned end
    → (value : S) × (first ≡ returned value) × (next value ≡ returned end)
>>=-returned (failed error) next h = cc
>>=-returned (returned value) next h = (value, refl, h)

-- The predicate holds of what is returned, if anything is.
abbrev pub Ensures {ℓ κ μ} :
    {E : Type κ} {A : Type ℓ} → (A → Type μ) → Attempt E A → Type (ℓ ⊔ κ ⊔ μ)
Ensures {A = A} P attempt = (a : A) → attempt ≡ returned a → P a

pub Attempt-cases {ℓ κ} :
    {E : Type κ} {A : Type ℓ} (attempt : Attempt E A)
    → ((a : A) × (attempt ≡ returned a)) ⊎ ((error : E) × (attempt ≡ failed error))
Attempt-cases (returned a) = inl (a, refl)
Attempt-cases (failed error) = inr (error, refl)
