-- ===== src/Console/Tests.antt =====
-- Requests to a small console, and the theorems about them there.
use ai_base.Common.{
  String, ◌≡◌, ◌↔◌, refl, [], ◌∷◌, some, none, arith, any, includes, ◌===◌, if◌then◌else◌,
}
use ai_base.Common.Attempt.{returned, fail_if}
use ai_base.Common.Integers.{exceeds, at_most}
use ai_base.Text.{is_space, trim_start, trim_end, trim, is_empty}
use ai_base.Text.Cut.{split_on, trimmed_parts}
use ai_base.Json.{Json, get_field, int, str, obj, end, field}
use ai_base.Console.{Outside, Env, Headers, text_or}
use ai_base.Console.Claims.{
  text_claim, string_claim, numeric_claim, audience_claim, second, decode_part,
  decode_pomerium_assertion, lowered_parts, configured_admin_emails, is_console_admin_email,
}
use ai_base.Console.Assertion.{
  is_es256, is_signed, is_zero, is_past, is_early, is_stale, misses_audience, same_issuer,
  misses_issuer, verify_assertion_parts, verify_pomerium_assertion,
}
use ai_base.Console.Identity.{
  ConsoleIdentity, is_dev, trimmed_text, claimed_email, claimed_subject, claimed_identity,
  console_identity_from_headers, expected_audience, asserted_identity, assertion_of,
  get_console_identity, require_console_admin,
}
use ai_base.Console.Proxy.{proxy, next}
use ai_base.Console.Verified.{IsAsserted, verify_pomerium_assertion-IsAsserted}
use ai_base.Console.Authentic.{
  IsAuthenticated, IsAdmin, get_console_identity-IsAuthentic, require_console_admin-IsAdmin,
}
use ai_base.Console.Admitted.{IsAdmitted, proxy-IsAdmitted}

abbrev header : Json
header = obj (field "alg" (str "ES256") end)

abbrev claims : Json
claims = obj (
    field "sub" (str "42") (
      field "email" (str "ann@example.com")
        (field "name" (str "Ann") (field "aud" (str "console") (field "exp" (int 2000) end)))))

-- Texts are in lower case, there is one header and one payload, and no link.
abbrev outside : Outside
outside = record {
  platform = record {
    sha256 = λ texts. 1 ∷ [];
    hmac = λ key text. 2 ∷ [];
    decode = λ text. 2 ∷ [];
    encode = λ bytes. "subject";
    decode_text = λ text. text;
    encode_text = λ text. text;
    stringify = λ value. "payload";
    parse = λ text. if text === "header" then some header else some claims;
    lower = λ text. text;
    decode_uri = λ text. some text;
  };
  verifies = λ key text signature. key === "key";
  ceiling = λ text. none;
  read_file = λ path. some "key";
  linked = λ issuer subject link. returned none;
}

abbrev env : Env
env = record {
  admin_emails = some "ann@example.com, bob@example.com";
  dev_identity_enabled = none;
  dev_email = none;
  dev_subject = none;
  dev_name = none;
  login_issuer = none;
  mcp_issuer = none;
  public_key_path = some "/keys/pomerium.pem";
  jwt_audience = some "console";
  jwt_issuer = none;
  session_secret = none;
}

abbrev assertion : String
assertion = "header.payload.signature"

abbrev input : Headers
input name = if name === "x-pomerium-jwt-assertion" then some assertion else none

verify_pomerium_assertion-IsAsserted_example :
    IsAsserted outside "key"
      (some ("console" ∷ []))
      none
      1000
      assertion
      (decode_pomerium_assertion outside (some assertion))
unfolding verify_pomerium_assertion verify_assertion_parts is_signed is_es256 is_stale is_zero
    is_past is_early misses_audience misses_issuer audience_claim numeric_claim
    decode_pomerium_assertion decode_part second split_on is_empty get_field fail_if at_most exceeds
    any includes
verify_pomerium_assertion-IsAsserted_example =
    verify_pomerium_assertion-IsAsserted outside "key" (some ("console" ∷ [])) none 1000 assertion
      (decode_pomerium_assertion outside (some assertion)) refl

proxy-IsAdmitted_example :
    (proxy outside env "/connectors" input 1000 ≡ next)
    ↔ IsAdmitted outside env "/connectors" input 1000
proxy-IsAdmitted_example = proxy-IsAdmitted outside env "/connectors" input 1000

abbrev identity_now : ConsoleIdentity
identity_now =
    claimed_identity outside env (decode_pomerium_assertion outside (some assertion)) input
      "ann@example.com" "42"

get_console_identity-IsAuthentic_example : IsAuthenticated outside env input none 1000 identity_now
unfolding verify_pomerium_assertion verify_assertion_parts is_signed is_es256 is_stale is_zero
    is_past is_early misses_audience misses_issuer same_issuer audience_claim numeric_claim
    decode_pomerium_assertion decode_part second split_on is_empty get_field fail_if at_most exceeds
    any includes is_dev trimmed_text claimed_email claimed_subject text_or string_claim text_claim
    trim trim_start trim_end is_space console_identity_from_headers expected_audience trimmed_parts
    asserted_identity assertion_of get_console_identity
get_console_identity-IsAuthentic_example =
    get_console_identity-IsAuthentic outside env input none 1000 identity_now refl refl
      (omega arith) refl

require_console_admin-IsAdmin_example : IsAdmin outside env input 1000 identity_now
unfolding verify_pomerium_assertion verify_assertion_parts is_signed is_es256 is_stale is_zero
    is_past is_early misses_audience misses_issuer same_issuer audience_claim numeric_claim
    decode_pomerium_assertion decode_part second split_on is_empty get_field fail_if at_most exceeds
    any includes is_dev trimmed_text claimed_email claimed_subject text_or string_claim text_claim
    trim trim_start trim_end is_space console_identity_from_headers expected_audience trimmed_parts
    asserted_identity assertion_of get_console_identity require_console_admin claimed_identity
    is_console_admin_email configured_admin_emails lowered_parts
require_console_admin-IsAdmin_example =
    require_console_admin-IsAdmin outside env input 1000 identity_now refl refl (omega arith) refl
