-- ===== src/Common/Pairs.antt =====
-- A test on every two entries of a list, as the keys of a table need it.
use mathlib.Core.Path.{◌≡◌, refl}
use mathlib.Core.Bool.{Bool, false, ◌||◌}
use mathlib.Core.List.{List, [], ◌∷◌, map}
use native.Mathlib.Omega.{arith}
use ai_base.Common.Lists.{any, keep, All}

-- Some two entries, the first before the second, pass the test.
unfoldable pub any_pair {ℓ} : {A : Type ℓ} → (A → A → Bool) → List A → Bool
any_pair p [] = false
any_pair p (x ∷ xs) = any (p x) xs || any_pair p xs

module _ {ℓ} {A : Type ℓ} (p : A → A → Bool) where
  module _ {κ} (f : A → A) (Q : A → Type κ) where
    any-map :
        (a : A) (xs : List A)
        → ((b : A) → Q b → p a b ≡ false → p (f a) (f b) ≡ false)
        → All Q xs
        → any (p a) xs ≡ false
        → any (p (f a)) (map f xs) ≡ false
    unfolding any
    any-map a [] step all h = refl
    any-map a (b ∷ xs) step (q, all) h =
        ground (arith, step b q (ground arith), any-map a xs step all (ground arith))

    -- A change of every entry brings no two that pass, if it brings none of two that do not.
    pub any_pair-map :
        (xs : List A)
        → ((a b : A) → Q a → Q b → p a b ≡ false → p (f a) (f b) ≡ false)
        → All Q xs
        → any_pair p xs ≡ false
        → any_pair p (map f xs) ≡ false
    unfolding any_pair
    any_pair-map [] step all h = refl
    any_pair-map (a ∷ xs) step (q, all) h = ground (
      arith,
      any-map a xs (λ b. step a b q) all (ground arith),
      any_pair-map xs step all (ground arith),
    )

  any-keep :
      (test : A → Bool) (a : A) (xs : List A)
      → any (p a) xs ≡ false
      → any (p a) (keep test xs) ≡ false
  unfolding any keep
  any-keep test a [] h = refl
  any-keep test a (b ∷ xs) h = ground (arith, any-keep test a xs (ground arith))

  pub any_pair-keep :
      (test : A → Bool) (xs : List A) → any_pair p xs ≡ false → any_pair p (keep test xs) ≡ false
  unfolding any_pair keep
  any_pair-keep test [] h = refl
  any_pair-keep test (a ∷ xs) h =
      ground (arith, any-keep test a xs (ground arith), any_pair-keep test xs (ground arith))
