-- ===== src/Text/Cut.antt =====
-- Splitting and cutting at one character, and fixed shapes.
use Prim.Native.Char.{Char, code}
use Prim.Native.String.{[], ◌∷◌}
use ai_base.Common.{
  ℕ, zero, suc, String, List, [], ◌∷◌, Bool, true, false, ◌&&◌, ◌||◌, Option, none, some, ◌==◌, leb,
  if◌then◌else◌,
}
use ai_base.Text.{is_digit, trim, is_empty}

abbrev push_first : Char → List String → List String
push_first c [] = (c ∷ []) ∷ []
push_first c (l ∷ ls) = (c ∷ l) ∷ ls

-- `s.split(separator)`, for a separator of one character.
unfoldable pub split_on : ℕ → String → List String
split_on separator [] = "" ∷ []
split_on separator (c ∷ s) =
    let rest = split_on separator s in if code c == separator then "" ∷ rest else push_first c rest

abbrev push_left : Char → Option (String × String) → Option (String × String)
push_left c none = none
push_left c (some parts) = some (c ∷ parts.0, parts.1)

-- The texts before and after the first such character, `none` where there is none.
unfoldable pub cut_at : ℕ → String → Option (String × String)
cut_at separator [] = none
cut_at separator (c ∷ s) =
    let rest = cut_at separator s in if code c == separator then some ("", s) else push_left c rest

-- `list.split(",").map((item) => item.trim()).filter(Boolean)`
unfoldable pub trimmed_parts : List String → List String
trimmed_parts [] = []
trimmed_parts (s ∷ ss) =
    let rest = trimmed_parts ss in if is_empty (trim s) then rest else trim s ∷ rest

-- `[0-9a-f]` under the flag `i`.
unfoldable pub is_hex : ℕ → Bool
is_hex c = is_digit c || (leb b'a' c && leb c b'f') || (leb b'A' c && leb c b'F')

-- A character of a shape: `h` is a hexadecimal digit, `v` one of `[1-8]`, `r` one of `[89ab]`, any other
-- character itself.
unfoldable pub fits_one : ℕ → ℕ → Bool
fits_one shape c =
    if shape == b'h'
    then is_hex c
    else if shape == b'v'
    then leb b'1' c && leb c b'8'
    else if shape == b'r'
    then c == b'8' || c == b'9' || c == b'a' || c == b'b' || c == b'A' || c == b'B'
    else c == shape

-- A text of a shape, character by character.
unfoldable pub fits : String → String → Bool
fits [] [] = true
fits (d ∷ shape) (c ∷ s) = fits_one (code d) (code c) && fits shape s
fits shape s = false

-- `s.slice(0, n)`, where the first `n` characters are one code unit each.
unfoldable pub take_chars : ℕ → String → String
take_chars zero s = []
take_chars (suc n) [] = []
take_chars (suc n) (c ∷ s) = c ∷ take_chars n s
