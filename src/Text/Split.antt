-- ===== src/Text/Split.antt =====
-- The parts of a text between its dots.
use Prim.Native.Char.{code}
use Prim.Native.String.{[], ◌∷◌}
use text.Mathlib.TextLemmas.{nil-append, cons-append}
use ai_base.Common.{String, ◌≡◌, refl, [], ◌∷◌, true, false, not, ◌<>◌, ◌==◌, arith}
use ai_base.Text.{all_chars, split_dots}

-- The text has no dot.
abbrev pub HasNoDot : String → Type 0
HasNoDot s = all_chars (λ c. not (c == b'.')) s ≡ true

pub split_dots_last : (s : String) → HasNoDot s → split_dots s ≡ s ∷ []
unfolding split_dots all_chars
split_dots_last [] h = refl
split_dots_last (c ∷ s) h =
    let e : (code c == b'.') ≡ false = ground arith in rw (split_dots_last s (ground arith), e) refl

pub split_dots-append :
    (s t : String) → HasNoDot s → split_dots (s <> ("." <> t)) ≡ s ∷ split_dots t
unfolding split_dots all_chars
split_dots-append [] t h = rw (nil-append, cons-append, nil-append) refl
split_dots-append (c ∷ s) t h =
    let e : (code c == b'.') ≡ false = ground arith in
    rw (cons-append, split_dots-append s t (ground arith), e) refl
