-- ===== src/Text/Quote.antt =====
-- `JSON.stringify` of a text.
use Prim.Native.Char.{Char, code}
use Prim.Native.String.{[], ◌∷◌}
use ai_base.Common.{
  ℕ, ◌/◌, ◌%◌, String, ◌≡◌, refl, List, [], ◌∷◌, ltb, ◌==◌, ◌<>◌, if◌then◌else◌, get_or,
}

abbrev hex_digits : List String
hex_digits =
    "0" ∷ "1" ∷ "2" ∷ "3" ∷ "4" ∷ "5" ∷ "6" ∷ "7" ∷ "8" ∷ "9" ∷ "a" ∷ "b" ∷ "c" ∷ "d" ∷ "e" ∷ "f"
    ∷ []

hex : ℕ → String
unfolding get_or
hex n = get_or hex_digits n ""

-- The characters that have an escape of their own.
abbrev short_escapes : List (ℕ × String)
short_escapes =
    (b'"', "\\\"")
    ∷ (b'\\', "\\\\")
    ∷ (8, "\\b")
    ∷ (9, "\\t")
    ∷ (10, "\\n")
    ∷ (12, "\\f")
    ∷ (13, "\\r")
    ∷ []

escape_by : List (ℕ × String) → Char → String
unfolding hex
escape_by [] c =
    if ltb (code c) 32 then "\\u00" <> hex (code c / 16) <> hex (code c % 16) else c ∷ ""
escape_by ((n, printed) ∷ rest) c = if code c == n then printed else escape_by rest c

escapes : String → String
unfolding escape_by
escapes [] = ""
escapes (c ∷ s) = escape_by short_escapes c <> escapes s

unfoldable pub json_quote : String → String
unfolding escapes
json_quote s = "\"" <> escapes s <> "\""

json_quote_test : json_quote "a\"b\n\\" ≡ "\"a\\\"b\\n\\\\\""
unfolding json_quote
json_quote_test = refl
