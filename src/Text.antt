-- ===== src/Text.antt =====
-- What the source uses of JavaScript's texts: `trim`, `length`, `includes`, the regular expressions
-- of one leading and one repeated class, the decimal print of an index, and `JSON.stringify` of a text.
pub mod Trim
pub mod Patterns
pub mod Quote
pub mod Contains
pub mod Split
pub mod Cut
pub mod Parts
use Prim.Native.Char.{Char, code}
use Prim.Native.String.{[], ◌∷◌}
use ai_base.Common.{
  ℕ, zero, suc, ◌+◌, ◌-◌, ◌/◌, ◌%◌, get_or, String, List, [], ◌∷◌, Bool, true, false, ◌&&◌, ◌||◌,
  ltb, leb, ◌==◌, ◌===◌, ◌<>◌, if◌then◌else◌,
}

-- ECMAScript's WhiteSpace and LineTerminator, which `trim` removes and `\s` matches.
unfoldable pub is_space : ℕ → Bool
is_space c =
    (leb 9 c && leb c 13)
    || c == 32
    || c == 160
    || c == 0x1680
    || (leb 0x2000 c && leb c 0x200a)
    || c == 0x2028
    || c == 0x2029
    || c == 0x202f
    || c == 0x205f
    || c == 0x3000
    || c == 0xfeff

unfoldable pub trim_start : String → String
trim_start [] = []
trim_start (c ∷ s) = if is_space (code c) then trim_start s else c ∷ s

-- A space goes only if nothing but spaces follows it.
abbrev keep_end : Char → String → String
keep_end c [] = if is_space (code c) then [] else c ∷ []
keep_end c (d ∷ s) = c ∷ d ∷ s

unfoldable pub trim_end : String → String
trim_end [] = []
trim_end (c ∷ s) = keep_end c (trim_end s)

unfoldable pub trim : String → String
unfolding trim_start trim_end is_space
trim s = trim_end (trim_start s)

-- `s.length`: UTF-16 code units, two for a character beyond the basic plane.
abbrev units : ℕ → ℕ
units c = if ltb c 0x10000 then 1 else 2

unfoldable pub text_length : String → ℕ
text_length [] = 0
text_length (c ∷ s) = units (code c) + text_length s

-- `/\s/.test(s)`
unfoldable pub has_space : String → Bool
unfolding is_space
has_space [] = false
has_space (c ∷ s) = is_space (code c) || has_space s

-- `!s`
unfoldable pub is_empty : String → Bool
is_empty [] = true
is_empty (c ∷ s) = false

unfoldable pub starts_with : String → String → Bool
starts_with s [] = true
starts_with [] (d ∷ p) = false
starts_with (c ∷ s) (d ∷ p) = code c == code d && starts_with s p

-- `s.includes(p)`
unfoldable pub contains : String → String → Bool
contains [] p = starts_with [] p
contains (c ∷ s) p = starts_with (c ∷ s) p || contains s p

unfoldable pub all_chars : (ℕ → Bool) → String → Bool
all_chars p [] = true
all_chars p (c ∷ s) = p (code c) && all_chars p s

-- `/^[first][rest]{0,most}$/`
unfoldable pub matches : (ℕ → Bool) → (ℕ → Bool) → ℕ → String → Bool
unfolding text_length all_chars
matches first rest most [] = false
matches first rest most (c ∷ s) = first (code c) && all_chars rest s && leb (text_length s) most

abbrev pub is_lower : ℕ → Bool
is_lower c = leb b'a' c && leb c b'z'

abbrev pub is_upper : ℕ → Bool
is_upper c = leb b'A' c && leb c b'Z'

abbrev pub is_digit : ℕ → Bool
is_digit c = leb b'0' c && leb c b'9'

-- `s.replace(/\/+$/, "")`
abbrev drop_slash : Char → String → String
drop_slash c [] = if code c == b'/' then [] else c ∷ []
drop_slash c (d ∷ s) = c ∷ d ∷ s

unfoldable pub strip_slashes : String → String
strip_slashes [] = []
strip_slashes (c ∷ s) = drop_slash c (strip_slashes s)

-- `s.replace(/\/$/, "")`
unfoldable pub strip_slash : String → String
strip_slash [] = []
strip_slash (c ∷ []) = if code c == b'/' then [] else c ∷ []
strip_slash (c ∷ d ∷ s) = c ∷ strip_slash (d ∷ s)

-- `a || b` on texts
abbrev pub or_else : String → String → String
or_else a b = if is_empty a then b else a

abbrev digits : List String
digits = "0" ∷ "1" ∷ "2" ∷ "3" ∷ "4" ∷ "5" ∷ "6" ∷ "7" ∷ "8" ∷ "9" ∷ []

digit : ℕ → String
unfolding get_or
digit n = get_or digits n ""

-- A number has at most as many digits as it has ones, so `suc n` is enough fuel.
decimal_from : ℕ → ℕ → String → String
decimal_from zero n printed = printed
decimal_from (suc fuel) n printed =
    let longer = digit (n % 10) <> printed in
    let rest = decimal_from fuel (n / 10) longer in if ltb n 10 then longer else rest

unfoldable pub decimal : ℕ → String
unfolding decimal_from digit
decimal n = decimal_from (suc n) n ""

-- The lines of a template literal, each with its line break.
unfoldable pub lines : List String → String
lines [] = ""
lines (l ∷ ls) = l <> ("\n" <> lines ls)

-- `texts.join(separator)`
unfoldable pub join : String → List String → String
join separator [] = ""
join separator (s ∷ []) = s
join separator (s ∷ t ∷ ts) = s <> (separator <> join separator (t ∷ ts))

-- `texts.join("")`
unfoldable pub concat_texts : List String → String
concat_texts [] = ""
concat_texts (s ∷ ss) = s <> concat_texts ss

-- `s.toLowerCase() === lowered`, for a text `lowered` of the letters `a` to `z`, none of them `k`: no
-- other character lowers to one of these.
unfoldable pub lowers_to : String → String → Bool
lowers_to [] [] = true
lowers_to [] (d ∷ t) = false
lowers_to (c ∷ s) [] = false
lowers_to (c ∷ s) (d ∷ t) =
    (if is_upper (code c) then code c + 32 else code c) == code d && lowers_to s t

-- `s.slice(n)`, where the first `n` characters are one code unit each.
unfoldable pub drop_chars : ℕ → String → String
drop_chars zero s = s
drop_chars (suc n) [] = []
drop_chars (suc n) (c ∷ s) = drop_chars n s

abbrev onto_first : Char → List String → List String
onto_first c [] = (c ∷ []) ∷ []
onto_first c (l ∷ ls) = (c ∷ l) ∷ ls

-- `s.split(/\r?\n/)`
unfoldable pub split_lines : String → List String
unfolding starts_with
split_lines [] = "" ∷ []
split_lines (c ∷ s) =
    let rest = split_lines s in
    if code c == 10
    then "" ∷ rest
    else if code c == 13 && starts_with s "\n"
    then rest
    else onto_first c rest

-- `s.split(".")`
unfoldable pub split_dots : String → List String
split_dots [] = "" ∷ []
split_dots (c ∷ s) =
    let rest = split_dots s in if code c == b'.' then "" ∷ rest else onto_first c rest

-- `s.replace(/=+$/, "")`
abbrev drop_equals : Char → String → String
drop_equals c [] = if code c == b'=' then [] else c ∷ []
drop_equals c (d ∷ s) = c ∷ d ∷ s

unfoldable pub strip_equals : String → String
strip_equals [] = []
strip_equals (c ∷ s) = drop_equals c (strip_equals s)
