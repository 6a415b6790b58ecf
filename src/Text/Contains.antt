-- ===== src/Text/Contains.antt =====
-- Laws of `includes` on texts.
use Prim.Native.String.{[], ◌∷◌}
use text.Mathlib.TextLemmas.{nil-append, cons-append}
use ai_base.Common.{String, ◌≡◌, refl, true, false, ◌<>◌, arith, inl, inr, Bool-cases}
use ai_base.Text.{starts_with, contains, is_empty}

pub is_empty-append : (s t : String) → is_empty s ≡ false → is_empty (s <> t) ≡ false
unfolding is_empty
is_empty-append [] t h = cc
is_empty-append (c ∷ s) t h = rw cons-append refl

starts_with-append : (s t p : String) → starts_with s p ≡ true → starts_with (s <> t) p ≡ true
unfolding starts_with
starts_with-append s t [] h = refl
starts_with-append [] t (d ∷ p) h = cc
starts_with-append (c ∷ s) t (d ∷ p) h = rw cons-append (ground (arith, starts_with-append s t p))

starts_with_self : (p t : String) → starts_with (p <> t) p ≡ true
unfolding starts_with
starts_with_self [] t = refl
starts_with_self (c ∷ p) t = rw cons-append (ground (arith, starts_with_self p t))

contains_of_starts_with : (s p : String) → starts_with s p ≡ true → contains s p ≡ true
unfolding contains
contains_of_starts_with [] p h = h
contains_of_starts_with (c ∷ s) p h = rw h

starts_with-nil : (p : String) → starts_with [] p ≡ true → p ≡ []
unfolding starts_with
starts_with-nil [] h = refl
starts_with-nil (d ∷ p) h = cc

starts_with_nil : (s : String) → starts_with s [] ≡ true
unfolding starts_with
starts_with_nil [] = refl
starts_with_nil (c ∷ s) = refl

pub contains-append_left : (s t p : String) → contains s p ≡ true → contains (s <> t) p ≡ true
unfolding contains
contains-append_left [] t p h =
    rw (starts_with-nil p h) (contains_of_starts_with _ [] (starts_with_nil _))
contains-append_left (c ∷ s) t p h = elim (Bool-cases (starts_with (c ∷ s) p)) [
  | inl here ↦ contains_of_starts_with _ p (starts_with-append (c ∷ s) t p here)
  | inr later ↦ rw cons-append (ground (arith, contains-append_left s t p (ground arith)))
]

pub contains-append_right : (s t p : String) → contains t p ≡ true → contains (s <> t) p ≡ true
unfolding contains
contains-append_right [] t p h = rw nil-append h
contains-append_right (c ∷ s) t p h = rw cons-append (ground (arith, contains-append_right s t p))

-- A text contains each of its parts.
pub contains-middle : (a p b : String) → contains (a <> (p <> b)) p ≡ true
contains-middle a p b =
    contains-append_right a (p <> b) p (contains_of_starts_with _ p (starts_with_self p b))
