-- ===== src/Common/Results.antt =====
-- A computation that may throw, and one that pushes messages onto a list as it goes.
use Prim.Native.String.{String}
use mathlib.Core.Path.{◌≡◌, refl}
use mathlib.Core.Logic.{◌⊎◌, inl, inr}
use mathlib.Core.Bool.{Bool, true, false}
use mathlib.Core.List.{List, [], ◌∷◌, ◌++◌}

-- A `throw` of an `Error` with this message.
pub data Result {ℓ} (A : Type ℓ) : Type ℓ where
  ok : A → Result A
  thrown : String → Result A

-- The value of a validator, with the messages that it pushed onto `errors`.
pub record Checked {ℓ} (A : Type ℓ) : Type ℓ where
  pub errors : List String
  pub value : A

infixl 5 ◌>>=◌ ◌>>◌
abbrev pub ◌>>=◌ {ℓ ℓ'} : {S : Type ℓ} {R : Type ℓ'} → Checked S → (S → Checked R) → Checked R
first >>= next =
    let rest = next first.value in
    record { errors = first.errors ++ rest.errors; value = rest.value }

abbrev pub ◌>>◌ {ℓ} : {R : Type ℓ} → Checked (Unit {0}) → Checked R → Checked R
first >> rest = record { errors = first.errors ++ rest.errors; value = rest.value }

abbrev pub give {ℓ} : {A : Type ℓ} → A → Checked A
give a = record { errors = []; value = a }

-- `if (test) errors.push(message)`
unfoldable pub push_if : Bool → String → List String
push_if true message = message ∷ []
push_if false message = []

abbrev pub report : Bool → String → Checked (Unit {0})
report test message = record { errors = push_if test message; value = tt }

-- No message on a list of two parts is no message on either.
pub split-append-nil {ℓ} : {A : Type ℓ} (xs ys : List A) → xs ++ ys ≡ [] → (xs ≡ []) × (ys ≡ [])
split-append-nil [] ys h = (refl, h)
split-append-nil (x ∷ xs) ys h = cc

pub report-eq-nil :
    (test : Bool) (message : String) {rest : List String}
    → push_if test message ++ rest ≡ []
    → (test ≡ false) × (rest ≡ [])
unfolding push_if
report-eq-nil true message h = cc
report-eq-nil false message h = (refl, h)

pub Result-cases {ℓ} :
    {A : Type ℓ} (r : Result A)
    → ((a : A) × (r ≡ ok a)) ⊎ ((message : String) × (r ≡ thrown message))
Result-cases (ok a) = inl (a, refl)
Result-cases (thrown message) = inr (message, refl)
