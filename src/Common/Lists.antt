-- ===== src/Common/Lists.antt =====
-- Lists: length and membership tests over the native numbers, predicates on every entry, and
-- association lists that stand for `Map`.
use Prim.Native.Nat.{ℕ, zero, suc, ◌+◌, ◌≤◌}
use Prim.Native.String.{String}
use mathlib.Core.Path.{◌≡◌, refl, ap}
use mathlib.Core.Logic.{◌≢◌, ◌⊎◌, inl, inr}
use mathlib.Core.Bool.{Bool, false, ◌||◌}
use mathlib.Core.Option.{Option, none, some}
use mathlib.Core.List.{List, [], ◌∷◌, ◌++◌}
use native.Mathlib.Omega.{arith}
use text.Mathlib.TextEquality.{eq_iff}
use ai_base.Common.Branches.{◌===◌, if◌then◌else◌}

module _ {ℓ} {A : Type ℓ} where
  abbrev pub length : List A → ℕ
  length [] = 0
  length (x ∷ xs) = suc (length xs)

  -- `Array.prototype.some`
  unfoldable pub any : (A → Bool) → List A → Bool
  any p [] = false
  any p (x ∷ xs) = p x || any p xs

  -- `Array.prototype.filter`
  unfoldable pub keep : (A → Bool) → List A → List A
  keep p [] = []
  keep p (x ∷ xs) = if p x then x ∷ keep p xs else keep p xs

  -- `Array.prototype.find`
  unfoldable pub find : (A → Bool) → List A → Option A
  find p [] = none
  find p (x ∷ xs) = if p x then some x else find p xs

  -- `.filter(Boolean)` on a list of values or `undefined`
  abbrev pub present : List (Option A) → List A
  present [] = []
  present (none ∷ xs) = present xs
  present (some x ∷ xs) = x ∷ present xs

  -- The entry at an index, or a value for an index out of range.
  unfoldable pub get_or : List A → ℕ → A → A
  get_or [] i d = d
  get_or (x ∷ xs) zero d = x
  get_or (x ∷ xs) (suc i) d = get_or xs i d

  -- `Array.prototype.slice(0, n)`
  unfoldable pub take : ℕ → List A → List A
  take zero xs = []
  take (suc n) [] = []
  take (suc n) (x ∷ xs) = x ∷ take n xs

  pub length-take : (n : ℕ) (xs : List A) → length (take n xs) ≤ n
  unfolding take
  length-take zero xs = omega arith
  length-take (suc n) [] = omega arith
  length-take (suc n) (x ∷ xs) = omega (arith, length-take n xs)

  -- `slice(n)`
  unfoldable pub drop : ℕ → List A → List A
  drop zero xs = xs
  drop (suc n) [] = []
  drop (suc n) (x ∷ xs) = drop n xs

  pub take-append : (xs ys : List A) → take (length xs) (xs ++ ys) ≡ xs
  unfolding take
  take-append [] ys = refl
  take-append (x ∷ xs) ys = ap (λ zs. x ∷ zs) (take-append xs ys)

  pub drop-append : (xs ys : List A) → drop (length xs) (xs ++ ys) ≡ ys
  unfolding drop
  drop-append [] ys = refl
  drop-append (x ∷ xs) ys = drop-append xs ys

  abbrev pub concat : List (List A) → List A
  concat [] = []
  concat (xs ∷ xss) = xs ++ concat xss

abbrev pub All {ℓ κ} : {A : Type ℓ} → (A → Type κ) → List A → Type κ
All P [] = Unit
All P (x ∷ xs) = P x × All P xs

-- The predicate holds of the value, if there is one.
abbrev pub IfSome {ℓ κ} : {A : Type ℓ} → (A → Type κ) → Option A → Type κ
IfSome P none = Unit
IfSome P (some x) = P x

module _ {ℓ κ} {A : Type ℓ} (P : A → Type κ) where
  pub All-append : (xs ys : List A) → All P xs → All P ys → All P (xs ++ ys)
  All-append [] ys _ k = k
  All-append (x ∷ xs) ys (p, h) k = (p, All-append xs ys h k)

  pub All-get_or : (xs : List A) (i : ℕ) (d : A) → All P xs → P d → P (get_or xs i d)
  unfolding get_or
  All-get_or [] i d h p = p
  All-get_or (x ∷ xs) zero d (q, h) p = q
  All-get_or (x ∷ xs) (suc i) d (q, h) p = All-get_or xs i d h p

  pub All-present :
      (o : Option A) (xs : List A) → IfSome P o → All P xs → All P (present (o ∷ []) ++ xs)
  All-present none xs h k = k
  All-present (some x) xs h k = (h, k)

  pub All-mono {μ} : {Q : A → Type μ} (xs : List A) → ((x : A) → P x → Q x) → All P xs → All Q xs
  All-mono [] f _ = tt
  All-mono (x ∷ xs) f (p, h) = (f x p, All-mono xs f h)

-- `includes`, and `Set.prototype.has`
unfoldable pub includes : List String → String → Bool
includes [] x = false
includes (y ∷ ys) x = y === x || includes ys x

-- No two entries are the same.
abbrev pub AllDistinct : List String → Type 0
AllDistinct [] = Unit
AllDistinct (x ∷ xs) = All (λ y. y ≢ x) xs × AllDistinct xs

pub includes-false→All :
    (xs : List String) (x : String) → includes xs x ≡ false → All (λ y. y ≢ x) xs
unfolding includes
includes-false→All [] x h = tt
includes-false→All (y ∷ ys) x h =
    (λ e. ground (arith, eq_iff y x), includes-false→All ys x (ground arith))

pub All→includes-false :
    (xs : List String) (x : String) → All (λ y. y ≢ x) xs → includes xs x ≡ false
unfolding includes
All→includes-false [] x h = refl
All→includes-false (y ∷ ys) x (p, h) = ground (arith, eq_iff y x, All→includes-false ys x h)

pub length-append {ℓ} : {A : Type ℓ} (xs ys : List A) → length (xs ++ ys) ≡ length xs + length ys
length-append [] ys = omega arith
length-append (x ∷ xs) ys = omega (arith, length-append xs ys)

pub length-present {ℓ} :
    {A : Type ℓ} (o : Option A) (xs : List A) → length (present (o ∷ []) ++ xs) ≤ suc (length xs)
length-present none xs = omega arith
length-present (some x) xs = omega arith

-- Each text is new to a `Set` that starts with `seen` and gains the texts one by one.
abbrev pub AllFresh : List String → List String → Type 0
AllFresh seen [] = Unit
AllFresh seen (x ∷ xs) = (includes seen x ≡ false) × AllFresh (x ∷ seen) xs

-- The set after all the texts are added.
abbrev pub add_all : List String → List String → List String
add_all [] seen = seen
add_all (x ∷ xs) seen = add_all xs (x ∷ seen)

includes-cons_false :
    (y : String) (seen : List String) (x : String)
    → includes (y ∷ seen) x ≡ false
    → (x ≢ y) × (includes seen x ≡ false)
unfolding includes
includes-cons_false y seen x h = (λ e. ground (arith, eq_iff y x), ground arith)

AllFresh-unseen : (seen xs : List String) → AllFresh seen xs → All (λ x. includes seen x ≡ false) xs
AllFresh-unseen seen [] h = tt
AllFresh-unseen seen (x ∷ xs) (new, h) = (
  new,
  All-mono _ xs (λ y k. (includes-cons_false x seen y k).1) (AllFresh-unseen (x ∷ seen) xs h),
)

pub AllFresh-AllDistinct : (seen xs : List String) → AllFresh seen xs → AllDistinct xs
AllFresh-AllDistinct seen [] h = tt
AllFresh-AllDistinct seen (x ∷ xs) (new, h) = (
  All-mono _ xs (λ y k. (includes-cons_false x seen y k).0) (AllFresh-unseen (x ∷ seen) xs h),
  AllFresh-AllDistinct (x ∷ seen) xs h,
)

pub AllFresh-append :
    (seen xs ys : List String)
    → AllFresh seen xs
    → AllFresh (add_all xs seen) ys
    → AllFresh seen (xs ++ ys)
AllFresh-append seen [] ys h k = k
AllFresh-append seen (x ∷ xs) ys (new, h) k = (new, AllFresh-append (x ∷ seen) xs ys h k)

All-concat-ne :
    (xs : List String) (x y : String)
    → All (λ z. z ≢ y) xs
    → x ≢ y
    → All (λ z. z ≢ y) (xs ++ x ∷ [])
All-concat-ne [] x y h p = (p, tt)
All-concat-ne (z ∷ xs) x y (q, h) p = (q, All-concat-ne xs x y h p)

-- A text that is not yet among distinct ones may be pushed.
pub AllDistinct-push :
    (xs : List String) (x : String)
    → AllDistinct xs
    → includes xs x ≡ false
    → AllDistinct (xs ++ x ∷ [])
unfolding includes
AllDistinct-push [] x h new = (tt, tt)
AllDistinct-push (y ∷ xs) x (fresh, h) new = (
  All-concat-ne xs x y fresh (λ e. ground (arith, eq_iff y x)),
  AllDistinct-push xs x h (ground arith),
)

pub List-cases {ℓ} :
    {A : Type ℓ} (xs : List A) → (xs ≡ []) ⊎ ((x : A) × (rest : List A) × (xs ≡ x ∷ rest))
List-cases [] = inl refl
List-cases (x ∷ rest) = inr (x, rest, refl)
