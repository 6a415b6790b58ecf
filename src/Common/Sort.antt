-- ===== src/Common/Sort.antt =====
-- A stable sort, as `ORDER BY` and `Array.prototype.sort` need it.
use mathlib.Core.Path.{◌≡◌, refl}
use mathlib.Core.Bool.{Bool, ◌||◌}
use mathlib.Core.List.{List, [], ◌∷◌}
use native.Mathlib.Omega.{arith}
use ai_base.Common.Branches.{if◌then◌else◌, Bool-cases}
use ai_base.Common.Lists.{any, All}
use mathlib.Core.Logic.{inl, inr}

-- `before x y` is false where `y` must come first.
unfoldable pub insert_by {ℓ} : {A : Type ℓ} → (A → A → Bool) → A → List A → List A
insert_by before x [] = x ∷ []
insert_by before x (y ∷ ys) =
    let rest = insert_by before x ys in if before x y then x ∷ y ∷ ys else y ∷ rest

unfoldable pub sort_by {ℓ} : {A : Type ℓ} → (A → A → Bool) → List A → List A
sort_by before [] = []
sort_by before (x ∷ xs) = insert_by before x (sort_by before xs)

module _ {ℓ} {A : Type ℓ} (before : A → A → Bool) where
  module _ (p : A → Bool) where
    any-insert_by : (x : A) (xs : List A) → any p (insert_by before x xs) ≡ (p x || any p xs)
    unfolding insert_by any
    any-insert_by x [] = refl
    any-insert_by x (y ∷ ys) = ground (arith, any-insert_by x ys)

    -- A sort keeps the entries.
    pub any-sort_by : (xs : List A) → any p (sort_by before xs) ≡ any p xs
    unfolding sort_by any
    any-sort_by [] = refl
    any-sort_by (x ∷ xs) = rw (any-insert_by x (sort_by before xs), any-sort_by xs) refl

  module _ {κ} (P : A → Type κ) where
    All-insert_by : (x : A) (xs : List A) → P x → All P xs → All P (insert_by before x xs)
    unfolding insert_by
    All-insert_by x [] h all = (h, tt)
    All-insert_by x (y ∷ ys) h (k, all) = elim (Bool-cases (before x y)) [
      | inl first ↦ rw (insert_by, first) (h, (k, all))
      | inr later ↦ rw (insert_by, later) (k, All-insert_by x ys h all)
    ]

    pub All-sort_by : (xs : List A) → All P xs → All P (sort_by before xs)
    unfolding sort_by
    All-sort_by [] all = tt
    All-sort_by (x ∷ xs) (h, all) = All-insert_by x (sort_by before xs) h (All-sort_by xs all)
