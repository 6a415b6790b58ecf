-- ===== src/Console/Claims.antt =====
-- The readers of the claims of an assertion.
use ai_base.Common.{String, List, [], ◌∷◌, Bool, Option, none, some, ◌<>◌, includes, if◌then◌else◌}
use ai_base.Common.Integers.{ℤ, pos, negsuc}
use ai_base.Text.{trim, is_empty, strip_slash}
use ai_base.Text.Cut.{split_on, trimmed_parts}
use ai_base.Json.{Json, Fields, int, negative, fraction, str, arr, end, items, object?}
use ai_base.Access.Texts.{texts_of}
use ai_base.Console.{Outside, Env, text_or}

-- `stringClaim` of a text or `null`.
unfoldable pub text_claim : Option String → Option String
text_claim none = none
text_claim (some s) = if is_empty (trim s) then none else some (trim s)

unfoldable pub string_claim : Option Json → Option String
string_claim (some (str s)) = text_claim (some s)
string_claim value = none

unfoldable pub string_array_claim : Option Json → List String
string_array_claim (some (arr vs)) = texts_of (items vs)
string_array_claim (some (str s)) = trimmed_parts (split_on b',' s)
string_array_claim value = []

-- `numericClaim`, by the least integer that is not below the number: all tests are against integers.
unfoldable pub numeric_claim : Outside → Option Json → Option ℤ
numeric_claim outside (some (int n)) = some (pos n)
numeric_claim outside (some (negative n)) = some (negsuc n)
numeric_claim outside (some (fraction text)) = outside.ceiling text
numeric_claim outside value = none

unfoldable pub texts_in : List Json → List String
texts_in [] = []
texts_in (str s ∷ vs) = s ∷ texts_in vs
texts_in (v ∷ vs) = texts_in vs

unfoldable pub audience_claim : Option Json → List String
audience_claim (some (str s)) = s ∷ []
audience_claim (some (arr vs)) = texts_in (items vs)
audience_claim value = []

-- `parts[1]`
unfoldable pub second : List String → String
second (first ∷ payload ∷ rest) = payload
second parts = ""

-- `JSON.parse` of a part that is an object.
unfoldable pub decode_part : Outside → String → Fields
decode_part outside part = elim (outside.platform.parse (outside.platform.decode_text part)) [
  | none ↦ end
  | some value ↦ elim (object? value) [ none ↦ end | some fields ↦ fields ]
]

unfoldable pub decode_pomerium_assertion : Outside → Option String → Fields
decode_pomerium_assertion outside none = end
decode_pomerium_assertion outside (some assertion) =
    let payload = second (split_on b'.' assertion) in
    if is_empty payload then end else decode_part outside payload

unfoldable pub broker_subject : Outside → String → String → String
broker_subject outside login_issuer upstream_subject =
    "usr_"
    <> outside.platform.encode
        (outside.platform.sha256 ((strip_slash login_issuer <> ("\0" <> upstream_subject)) ∷ []))

-- `list.map((item) => item.trim().toLowerCase()).filter(Boolean)`
unfoldable pub lowered_parts : (String → String) → List String → List String
lowered_parts lower [] = []
lowered_parts lower (s ∷ ss) =
    let rest = lowered_parts lower ss in
    if is_empty (lower (trim s)) then rest else lower (trim s) ∷ rest

unfoldable pub configured_admin_emails : Outside → Env → List String
configured_admin_emails outside env =
    lowered_parts outside.platform.lower
      (split_on b',' (text_or env.admin_emails "admin@example.com"))

unfoldable pub is_console_admin_email : Outside → Env → String → Bool
is_console_admin_email outside env email =
    includes (configured_admin_emails outside env) (outside.platform.lower (trim email))
