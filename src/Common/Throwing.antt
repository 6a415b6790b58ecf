-- ===== src/Common/Throwing.antt =====
-- Sequencing of computations that may throw.
use mathlib.Core.List.{List, [], ◌∷◌}
use mathlib.Core.Path.{◌≡◌, refl}
use ai_base.Common.Results.{Result, ok, thrown}

infixl 5 ◌>>=◌
abbrev pub ◌>>=◌ {ℓ ℓ'} : {S : Type ℓ} {R : Type ℓ'} → Result S → (S → Result R) → Result R
thrown message >>= next = thrown message
ok value >>= next = next value

-- `map` with a function that may throw.
unfoldable pub each {ℓ κ} : {A : Type ℓ} {B : Type κ} → (A → Result B) → List A → Result (List B)
each f [] = ok []
each f (x ∷ xs) = do y ← f x; ys ← each f xs; ok (y ∷ ys)

-- What is returned comes from what the first part returned.
pub >>=-returned {ℓ ℓ'} :
    {S : Type ℓ} {R : Type ℓ'} (first : Result S) (next : S → Result R) {end : R}
    → (first >>= next) ≡ ok end
    → (value : S) × (first ≡ ok value) × (next value ≡ ok end)
>>=-returned (thrown message) next h = cc
>>=-returned (ok value) next h = (value, refl, h)

pub ok-injective {ℓ} : {A : Type ℓ} {a b : A} → ok a ≡ ok b → a ≡ b
ok-injective h = cc
