-- ===== src/Integrations/Uuid.antt =====
-- A UUID as the database keeps it.
use Prim.Native.Char.{Char, code}
use Prim.Native.String.{[], ◌∷◌}
use ai_base.Common.{String, ◌==◌, ◌<>◌, if◌then◌else◌}

-- A digit `A` to `F` in lower case.
abbrev lower_digit : Char → String
lower_digit c =
    if code c == b'A'
    then "a"
    else if code c == b'B'
    then "b"
    else if code c == b'C'
    then "c"
    else if code c == b'D'
    then "d"
    else if code c == b'E'
    then "e"
    else if code c == b'F'
    then "f"
    else c ∷ []

-- The hexadecimal digits in lower case.
unfoldable pub canonical_uuid : String → String
canonical_uuid [] = []
canonical_uuid (c ∷ s) = lower_digit c <> canonical_uuid s
