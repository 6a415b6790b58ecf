-- ===== src/Session/Tests.antt =====
-- A session token of a small platform, and the theorems about it there.
use ai_base.Common.{String, ◌≡◌, refl, [], ◌∷◌, Option, some, ◌≤◌, arith, any, includes}
use ai_base.Common.Results.{ok}
use ai_base.Common.Integers.{exceeds, at_most, differ_by}
use ai_base.Text.{is_space, trim_start, trim_end, trim, text_length, is_empty, all_chars}
use ai_base.Text.Cut.{split_on, fits, fits_one, is_hex}
use ai_base.Json.{Json, get_field, keys, int, str, obj, end, field}
use ai_base.Session.{Platform}
use ai_base.Session.Token.{
  SessionIdentity, session_key, session_payload, session_signature, issue_we_com_console_session,
  parse_payload, read_claims, claims_of, integer?, required_string, link_of, is_link_id, is_session,
  read_payload, verify_signed, verify_parts, check_times, is_expired, same_bytes,
  verify_we_com_console_session, session_max_length,
}
use ai_base.Session.Verified.{IsSigned, IsFresh, verify_we_com_console_session-IsSigned}
use ai_base.Session.RoundTrip.{
  issued_claims, verify_we_com_console_session-issue_we_com_console_session,
}

abbrev identity : SessionIdentity
identity = record {
  principal_issuer = "https://mcp.example.com/oauth";
  principal_subject = "usr_1";
  email = "ann@example.com";
  name = "Ann";
}

abbrev link : String
link = "01234567-89ab-4def-8123-456789abcdef"

abbrev secret : Option String
secret = some "0123456789abcdef0123456789abcdef"

abbrev payload : Json
payload = obj (
    field "v" (int 1) (
      field "iss" (str "ai-base-wecom-link") (
        field "principal_issuer" (str "https://mcp.example.com/oauth") (
          field "principal_subject" (str "usr_1") (
            field "email" (str "ann@example.com") (
              field "name" (str "Ann") (
                field "wecom_link_id" (str link)
                  (field "iat" (int 1000) (field "exp" (int 44200) end)))))))))

-- There is one text and one signature.
abbrev platform : Platform
platform = record {
  sha256 = λ texts. 1 ∷ [];
  hmac = λ key text. 2 ∷ [];
  decode = λ text. 2 ∷ [];
  encode = λ bytes. "signature";
  decode_text = λ text. text;
  encode_text = λ text. text;
  stringify = λ value. "payload";
  parse = λ text. some payload;
  lower = λ text. text;
  decode_uri = λ text. some text;
}

abbrev token : String
token = "v1.payload.signature"

verify_we_com_console_session-issue_we_com_console_session_example :
    verify_we_com_console_session platform secret token 2000
    ≡ ok (issued_claims platform secret identity link 1000)
unfolding session_key session_payload session_signature issue_we_com_console_session parse_payload
    read_claims claims_of integer? required_string link_of is_link_id is_session is_space trim_start
    trim_end trim text_length is_empty all_chars fits fits_one is_hex get_field keys any includes
verify_we_com_console_session-issue_we_com_console_session_example =
    verify_we_com_console_session-issue_we_com_console_session platform secret (1 ∷ []) identity
      link 1000 2000 token refl
      (record {
        text_back = refl;
        parses = refl;
        payload_plain = refl;
        payload_given = refl;
        signature_back = refl;
        signature_plain = refl;
        signature_given = refl;
      })
      refl (omega arith) (omega arith) (omega arith)

verify_we_com_console_session-IsSigned_example :
    IsSigned platform secret token (issued_claims platform secret identity link 1000)
    × IsFresh 2000 (issued_claims platform secret identity link 1000)
    × (text_length token ≤ session_max_length)
unfolding session_key session_payload session_signature parse_payload read_payload verify_signed
    verify_parts check_times is_expired same_bytes exceeds at_most differ_by split_on read_claims
    claims_of integer? required_string link_of is_link_id is_session is_space trim_start trim_end
    trim text_length is_empty all_chars fits fits_one is_hex get_field keys any includes
    verify_we_com_console_session
verify_we_com_console_session-IsSigned_example =
    verify_we_com_console_session-IsSigned platform secret token 2000
      (issued_claims platform secret identity link 1000) (omega arith) refl
