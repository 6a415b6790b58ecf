-- ===== src/Session/Token.antt =====
-- Issuing and verifying a session token.
use ai_base.Common.{
  ℕ, ◌+◌, String, List, [], ◌∷◌, Bool, true, false, not, ◌&&◌, ◌||◌, Option, none, some, ◌===◌,
  ◌==◌, ◌<>◌, ltb, leb, any, includes, if◌then◌else◌,
}
use ai_base.Common.Results.{Result, ok, thrown}
use ai_base.Common.Throwing.{◌>>=◌}
use ai_base.Common.Integers.{ℤ, pos, negsuc, exceeds, at_most, differ_by}
use ai_base.Text.{trim, text_length, is_empty}
use ai_base.Text.Cut.{split_on, fits}
use ai_base.Json.{Json, Fields, int, negative, str, obj, end, field, get_field, object?, keys}
use ai_base.Session.{Platform}

abbrev pub session_lifetime_seconds : ℕ
session_lifetime_seconds = 43200

abbrev pub session_max_length : ℕ
session_max_length = 4096

abbrev pub session_clock_skew_seconds : ℕ
session_clock_skew_seconds = 30

-- `new WeComConsoleSessionError()`
unfoldable pub invalid_session : {A : Type 0} → Result A
invalid_session = thrown "企业微信自动登录会话无效"

-- `LINK_ID_PATTERN`
unfoldable pub is_link_id : String → Bool
is_link_id s = fits "hhhhhhhh-hhhh-hhhh-hhhh-hhhhhhhhhhhh" s

pub record WeComConsoleSessionClaims : Type 0 where
  pub link_id : String
  pub principal_issuer : String
  pub principal_subject : String
  pub email : String
  pub name : String
  pub issued_at : ℤ
  pub expires_at : ℤ

-- `Number.isInteger(value)`, with the integer.
unfoldable pub integer? : Option Json → Option ℤ
integer? (some (int n)) = some (pos n)
integer? (some (negative n)) = some (negsuc n)
integer? value = none

-- `requiredString(value, maxLength)` where it gives a text, with the untrimmed value.
unfoldable pub required_string : Option Json → ℕ → Option String
required_string (some (str s)) max_length =
    if not (is_empty (trim s)) && leb (text_length s) max_length then some s else none
required_string value max_length = none

abbrev pub allowed_keys : List String
allowed_keys =
    "v" ∷ "iss" ∷ "principal_issuer" ∷ "principal_subject" ∷ "email" ∷ "name" ∷ "wecom_link_id"
    ∷ "iat" ∷ "exp" ∷ []

-- `record.v !== 1 || record.iss !== SESSION_ISSUER`, negated.
unfoldable pub is_session : Option Json → Option Json → Bool
is_session (some (int v)) (some (str iss)) = v == 1 && iss === "ai-base-wecom-link"
is_session v iss = false

unfoldable pub link_of : Option Json → Option String
link_of (some (str s)) = if is_link_id s then some s else none
link_of value = none

-- The claims of the fields that the tests read, `none` where one fails.
unfoldable pub claims_of :
    Option String
    → Option String
    → Option String
    → Option String
    → Option String
    → Option ℤ
    → Option ℤ
    → Option WeComConsoleSessionClaims
claims_of (some issuer) (some subject) (some email) (some name) (some link) (some iat) (some exp) =
    some (record {
      link_id = link;
      principal_issuer = issuer;
      principal_subject = subject;
      email = email;
      name = name;
      issued_at = iat;
      expires_at = exp;
    })
claims_of issuer subject email name link iat exp = none

unfoldable pub read_claims : Fields → Option WeComConsoleSessionClaims
read_claims fields =
    if any (λ key. not (includes allowed_keys key)) (keys fields)
      || not (is_session (get_field fields "v") (get_field fields "iss"))
    then none
    else claims_of (required_string (get_field fields "principal_issuer") 1024)
        (required_string (get_field fields "principal_subject") 1024)
        (required_string (get_field fields "email") 320)
        (required_string (get_field fields "name") 512) (link_of (get_field fields "wecom_link_id"))
        (integer? (get_field fields "iat")) (integer? (get_field fields "exp"))

unfoldable pub parse_payload : Json → Result WeComConsoleSessionClaims
parse_payload value = elim (object? value) [
  | none ↦ invalid_session
  | some fields ↦ elim (read_claims fields) [ none ↦ invalid_session | some claims ↦ ok claims ]
]

-- `timingSafeEqual`, and the comparison of the lengths.
unfoldable pub same_bytes : List ℕ → List ℕ → Bool
same_bytes [] [] = true
same_bytes (x ∷ xs) (y ∷ ys) = x == y && same_bytes xs ys
same_bytes xs ys = false

-- The times of a session, against `now`.
unfoldable pub is_expired : WeComConsoleSessionClaims → ℕ → Bool
is_expired claims now =
    exceeds claims.issued_at (now + session_clock_skew_seconds)
    || at_most claims.expires_at now session_clock_skew_seconds
    || not (differ_by claims.issued_at claims.expires_at session_lifetime_seconds)

-- The check of the times.
unfoldable pub check_times : ℕ → WeComConsoleSessionClaims → Result WeComConsoleSessionClaims
check_times now claims = if is_expired claims now then thrown "企业微信自动登录会话已过期" else ok claims

-- Who a session is issued for.
pub record SessionIdentity : Type 0 where
  pub principal_issuer : String
  pub principal_subject : String
  pub email : String
  pub name : String

module _ (p : Platform) where
  -- `secret` is `AI_CONSOLE_SECRET_ENCRYPTION_KEY`.
  unfoldable pub session_key : Option String → Result (List ℕ)
  session_key none = thrown "企业微信自动登录会话密钥未配置"
  session_key (some secret) =
      if ltb (text_length (trim secret)) 32
      then thrown "企业微信自动登录会话密钥未配置"
      else ok (p.sha256 ("ai-base-wecom-console-session\0" ∷ trim secret ∷ []))

  unfoldable pub session_signature : Option String → String → Result (List ℕ)
  session_signature secret payload = do key ← session_key secret; ok (p.hmac key ("v1." <> payload))

  unfoldable pub session_payload : SessionIdentity → String → ℕ → Json
  session_payload identity link_id now = obj (
      field "v" (int 1) (
        field "iss" (str "ai-base-wecom-link") (
          field "principal_issuer" (str (trim identity.principal_issuer)) (
            field "principal_subject" (str (trim identity.principal_subject)) (
              field "email" (str (p.lower (trim identity.email))) (
                field "name" (str (trim identity.name)) (
                  field "wecom_link_id" (str (trim link_id)) (
                    field "iat" (int now)
                      (field "exp" (int (now + session_lifetime_seconds)) end)))))))))

  unfoldable pub issue_we_com_console_session :
      Option String → SessionIdentity → String → ℕ → Result String
  issue_we_com_console_session secret identity link_id now = do
    checked ← parse_payload (session_payload identity link_id now)
    let encoded = p.encode_text (p.stringify (session_payload identity link_id now))
    signature ← session_signature secret encoded
    ok ("v1" <> ("." <> (encoded <> ("." <> p.encode signature))))

  -- The payload of a token whose signature is right.
  unfoldable pub read_payload : String → Result WeComConsoleSessionClaims
  read_payload encoded = elim (p.parse (p.decode_text encoded)) [
    | none ↦ invalid_session
    | some value ↦ parse_payload value
  ]

  -- From the signature on.
  unfoldable pub verify_signed :
      Option String → String → String → ℕ → Result WeComConsoleSessionClaims
  verify_signed secret encoded signature now = session_signature secret encoded >>= λ expected.
      if same_bytes (p.decode signature) expected
      then (read_payload encoded >>= check_times now)
      else invalid_session

  -- From the split on.
  unfoldable pub verify_parts : Option String → List String → ℕ → Result WeComConsoleSessionClaims
  verify_parts secret (version ∷ encoded ∷ signature ∷ []) now =
      if not (version === "v1") || is_empty encoded || is_empty signature
      then invalid_session
      else verify_signed secret encoded signature now
  verify_parts secret parts now = invalid_session

  unfoldable pub verify_we_com_console_session :
      Option String → String → ℕ → Result WeComConsoleSessionClaims
  verify_we_com_console_session secret token now =
      if is_empty token || ltb session_max_length (text_length token)
      then invalid_session
      else verify_parts secret (split_on b'.' token) now
