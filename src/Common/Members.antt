-- ===== src/Common/Members.antt =====
-- Predicates on every entry of the lists that `map`, `filter`, `flat` and their like give.
use mathlib.Core.Path.{◌≡◌, refl}
use mathlib.Core.Logic.{inl, inr}
use mathlib.Core.Bool.{Bool, true}
use mathlib.Core.Option.{Option}
use mathlib.Core.List.{List, [], ◌∷◌, map, Memᴰ}
use ai_base.Common.Branches.{Bool-cases, Option-cases}
use ai_base.Common.Lists.{keep, present, concat, All, All-mono, All-append, IfSome}

-- Every entry of a list is in it.
pub All-Memᴰ {ℓ} : {A : Type ℓ} (xs : List A) → All (λ x. Memᴰ x xs) xs
All-Memᴰ [] = tt
All-Memᴰ (x ∷ xs) =
    (Memᴰ.head refl, All-mono (λ y. Memᴰ y xs) xs (λ y m. Memᴰ.tail m) (All-Memᴰ xs))

pub All-keep {ℓ κ} :
    {A : Type ℓ} (P : A → Type κ) (test : A → Bool) (xs : List A)
    → All P xs
    → All (λ x. P x × (test x ≡ true)) (keep test xs)
unfolding keep
All-keep P test [] all = tt
All-keep P test (x ∷ xs) (h, all) = elim (Bool-cases (test x)) [
  | inl pass ↦ rw pass ((h, pass), All-keep P test xs all)
  | inr fail ↦ rw fail (All-keep P test xs all)
]

pub All-map {ℓ ℓ' κ} :
    {A : Type ℓ} {B : Type ℓ'} (P : B → Type κ) (f : A → B) (xs : List A)
    → All (λ x. P (f x)) xs
    → All P (map f xs)
All-map P f [] all = tt
All-map P f (x ∷ xs) (h, all) = (h, All-map P f xs all)

pub All-concat {ℓ κ} :
    {A : Type ℓ} (P : A → Type κ) (xss : List (List A)) → All (All P) xss → All P (concat xss)
All-concat P [] all = tt
All-concat P (xs ∷ xss) (h, all) = All-append P xs (concat xss) h (All-concat P xss all)

-- What a function that gives a value or none leaves of a list.
pub All-present-map {ℓ ℓ' κ} :
    {A : Type ℓ} {B : Type ℓ'} (P : B → Type κ) (f : A → Option B) (xs : List A)
    → All (λ x. IfSome P (f x)) xs
    → All P (present (map f xs))
All-present-map P f [] all = tt
All-present-map P f (x ∷ xs) (h, all) = elim (Option-cases (f x)) [
  | inl n ↦ rw n (All-present-map P f xs all)
  | inr (y, e) ↦ rw e (rw e at h, All-present-map P f xs all)
]

pub All-total {ℓ κ} : {A : Type ℓ} (P : A → Type κ) → ((x : A) → P x) → (xs : List A) → All P xs
All-total P f [] = tt
All-total P f (x ∷ xs) = (f x, All-total P f xs)
