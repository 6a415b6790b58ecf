-- ===== src/Console/Proxy.antt =====
-- ai-console/src/proxy.ts: which requests the console lets through.
use ai_base.Common.{
  ℕ, String, Bool, not, ◌&&◌, ◌||◌, Option, none, some, ◌===◌, includes, if◌then◌else◌,
}
use ai_base.Common.Results.{ok, thrown}
use ai_base.Text.{trim, is_empty, starts_with}
use ai_base.Text.Cut.{split_on}
use ai_base.Json.{Json, str, get_field}
use ai_base.Session.Token.{verify_we_com_console_session}
use ai_base.Console.{Outside, Env, Headers, text_or}
use ai_base.Console.Claims.{second, decode_part, lowered_parts}
use ai_base.Console.Identity.{is_dev, session_token}

-- A response: `NextResponse.next()`, a JSON error with its status, a redirect to a path of the console, and
-- a response that also clears the session cookie.
pub data Decision : Type 0 where
  next : Decision
  json_error : String → ℕ → Decision
  redirect : String → Decision
  clear_cookie : Decision → Decision

-- The first two tests of `proxy`.
unfoldable pub is_public_path : String → Bool
is_public_path path =
    path === "/api/services"
    || starts_with path "/api/internal/"
    || starts_with path "/_next/"
    || path === "/favicon.ico"
    || starts_with path "/auth/wework/launch/"
    || path === "/auth/wework/status"

unfoldable pub is_self_service_path : String → Bool
is_self_service_path path =
    path === "/account"
    || path === "/client-setup"
    || path === "/auth/wework/link"
    || starts_with path "/api/account/"

-- `parts[1]` of a text that may be missing, "" where there is none.
unfoldable pub payload_part : Option String → String
payload_part none = ""
payload_part (some assertion) = second (split_on b'.' assertion)

module _ (outside : Outside) (env : Env) where
  unfoldable pub lowered_text : Option Json → String
  lowered_text (some (str s)) = outside.platform.lower (trim s)
  lowered_text value = ""

  -- `headers.get("x-pomerium-claim-email")?.trim().toLowerCase()`, "" where it is missing.
  unfoldable pub direct_email : Option String → String
  direct_email none = ""
  direct_email (some s) = outside.platform.lower (trim s)

  -- The email of the assertion's payload.
  unfoldable pub payload_email : Headers → String
  payload_email input =
      let payload = payload_part (input "x-pomerium-jwt-assertion") in
      if is_empty payload
      then ""
      else lowered_text (get_field (decode_part outside payload) "email")

  unfoldable pub assertion_email : Headers → String
  assertion_email input =
      let direct = direct_email (input "x-pomerium-claim-email") in
      if is_empty direct then payload_email input else direct

  unfoldable pub is_admin_email : String → Bool
  is_admin_email email =
      includes
        (lowered_parts outside.platform.lower
          (split_on b',' (text_or env.admin_emails "admin@example.com")))
        email

  -- The email of the session, "" without a token, `none` where the token does not verify.
  unfoldable pub session_email : Headers → ℕ → Option String
  session_email input now = elim (session_token outside env input) [
    | none ↦ some ""
    | some token ↦
        elim (verify_we_com_console_session outside.platform env.session_secret token now) [
          | thrown message ↦ none
          | ok claims ↦ some claims.email
        ]
  ]

  -- The response to a session that is not valid.
  unfoldable pub invalid_response : String → Decision
  invalid_response path =
      clear_cookie
        (if starts_with path "/api/" then json_error "企业微信自动登录会话无效" 401 else redirect path)

  -- From the test of the role on.
  unfoldable pub proxy_role : String → String → Decision
  proxy_role path email =
      if not (is_dev env) && not (is_admin_email email)
      then (if starts_with path "/api/" then json_error "仅管理员可以访问该功能" 403 else redirect "/account")
      else next

  -- From the email on.
  unfoldable pub proxy_email : String → String → Decision
  proxy_email path email =
      if is_empty email && not (is_dev env)
      then json_error "未认证" 401
      else if is_self_service_path path
      then next
      else proxy_role path email

  -- From the session on.
  unfoldable pub proxy_session : String → Headers → Option String → Decision
  proxy_session path input none = invalid_response path
  proxy_session path input (some session) =
      let asserted = assertion_email input in
      proxy_email path (if is_empty asserted then session else asserted)

  unfoldable pub proxy : String → Headers → ℕ → Decision
  proxy path input now =
      if is_public_path path then next else proxy_session path input (session_email input now)
