-- ===== src/Text/Parts.antt =====
-- The parts of a text that was put together with a separator.
use Prim.Native.Char.{code}
use Prim.Native.String.{[], ◌∷◌}
use text.Mathlib.TextLemmas.{nil-append, cons-append}
use ai_base.Common.{ℕ, String, ◌≡◌, refl, [], ◌∷◌, true, false, not, ◌<>◌, ◌==◌, arith}
use ai_base.Text.{all_chars}
use ai_base.Text.Cut.{split_on}

-- The text has no separator.
abbrev pub HasNo : ℕ → String → Type 0
HasNo separator s = all_chars (λ c. not (c == separator)) s ≡ true

pub split_on_last : (separator : ℕ) (s : String) → HasNo separator s → split_on separator s ≡ s ∷ []
unfolding split_on all_chars
split_on_last separator [] h = refl
split_on_last separator (c ∷ s) h =
    let e : (code c == separator) ≡ false = ground arith in
    rw (split_on_last separator s (ground arith), e) refl

pub split_on-append :
    (s t : String) → HasNo b'.' s → split_on b'.' (s <> ("." <> t)) ≡ s ∷ split_on b'.' t
unfolding split_on all_chars
split_on-append [] t h = rw (nil-append, cons-append, nil-append) refl
split_on-append (c ∷ s) t h =
    let e : (code c == b'.') ≡ false = ground arith in
    rw (cons-append, split_on-append s t (ground arith), e) refl
