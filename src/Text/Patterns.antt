-- ===== src/Text/Patterns.antt =====
-- What a match of `/^[first][rest]{0,most}$/` says of a text.
use Prim.Native.Nat.{ℕ}
use Prim.Native.Char.{code}
use Prim.Native.String.{[], ◌∷◌}
use ai_base.Common.{ℕ, ◌≤◌, String, ◌≡◌, Bool, true, arith}
use ai_base.Text.{text_length, all_chars, matches}

-- Every character's code has the property.
abbrev pub AllCodes : (ℕ → Type 0) → String → Type 0
AllCodes P [] = Unit
AllCodes P (c ∷ s) = P (code c) × AllCodes P s

-- One character of the first class, then at most `most` code units of the second.
abbrev pub Matches : (ℕ → Bool) → (ℕ → Bool) → ℕ → String → Type 0
Matches first rest most [] = ⊥
Matches first rest most (c ∷ s) =
    (first (code c) ≡ true) × AllCodes (λ d. rest d ≡ true) s × (text_length s ≤ most)

pub all_chars_sound :
    (p : ℕ → Bool) (s : String) → all_chars p s ≡ true → AllCodes (λ c. p c ≡ true) s
unfolding all_chars
all_chars_sound p [] h = tt
all_chars_sound p (c ∷ s) h = (ground arith, all_chars_sound p s (ground arith))

pub matches_sound :
    (first rest : ℕ → Bool) (most : ℕ) (s : String)
    → matches first rest most s ≡ true
    → Matches first rest most s
unfolding matches
matches_sound first rest most [] h = absurd (cc)
matches_sound first rest most (c ∷ s) h =
    (ground arith, all_chars_sound rest s (ground arith), ground arith)

pub AllCodes-mono :
    {P Q : ℕ → Type 0} (s : String) → ((c : ℕ) → P c → Q c) → AllCodes P s → AllCodes Q s
AllCodes-mono [] f h = tt
AllCodes-mono (c ∷ s) f (p, h) = (f (code c) p, AllCodes-mono s f h)

-- A text that matches has only characters of the two classes.
pub Matches-AllCodes :
    {P : ℕ → Type 0} (first rest : ℕ → Bool) (most : ℕ) (s : String)
    → ((c : ℕ) → first c ≡ true → P c)
    → ((c : ℕ) → rest c ≡ true → P c)
    → Matches first rest most s
    → AllCodes P s
Matches-AllCodes first rest most [] f g h = absurd h
Matches-AllCodes first rest most (c ∷ s) f g (p, q, _) = (f (code c) p, AllCodes-mono s g q)
