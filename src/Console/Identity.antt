-- ===== src/Console/Identity.antt =====
-- `consoleIdentityFromHeaders`, `getConsoleIdentity` and `requireConsoleAdmin`.
use ai_base.Common.{
  ℕ, String, List, [], ◌∷◌, Bool, true, false, not, Option, none, some, ◌===◌, if◌then◌else◌,
}
use ai_base.Common.Attempt.{Attempt, returned, failed, fail_if, ◌>>=◌}
use ai_base.Common.Results.{Result, ok, thrown}
use ai_base.Text.{trim, is_empty, strip_slash}
use ai_base.Text.Cut.{split_on, trimmed_parts}
use ai_base.Json.{Fields, get_field}
use ai_base.Session.Token.{WeComConsoleSessionClaims, verify_we_com_console_session}
use ai_base.Session.Cookie.{read_we_com_console_session_cookie}
use ai_base.Console.{AuthError, auth_error, LinkedIdentity, Outside, Env, Headers, text_or}
use ai_base.Console.Claims.{
  text_claim, string_claim, string_array_claim, decode_pomerium_assertion, broker_subject,
  is_console_admin_email,
}
use ai_base.Console.Assertion.{verify_pomerium_assertion}

pub record ConsoleIdentity : Type 0 where
  pub upstream_issuer : String
  pub upstream_subject : String
  pub principal_issuer : String
  pub principal_subject : String
  pub email : String
  pub name : String
  pub groups : List String
  pub preferred_username : Option String
  pub is_admin : Bool

-- `a || b` on texts that may be missing and are not empty.
abbrev pub or_claim : Option String → Option String → Option String
or_claim none b = b
or_claim (some s) b = some s

-- `texts[0]`
unfoldable pub first_of : List String → String
first_of [] = ""
first_of (s ∷ ss) = s

unfoldable pub trimmed_text : Option String → String
trimmed_text none = ""
trimmed_text (some s) = trim s

unfoldable pub is_dev : Env → Bool
is_dev env = elim env.dev_identity_enabled [ none ↦ false | some s ↦ s === "true" ]

module _ (outside : Outside) (env : Env) where
  unfoldable pub login_issuer : String
  login_issuer = strip_slash (text_or env.login_issuer "http://dex.localtest.me:5556/dex")

  unfoldable pub principal_issuer : String
  principal_issuer = strip_slash (text_or env.mcp_issuer "http://127.0.0.1:8080/oauth")

  unfoldable pub claimed_email : Fields → Headers → String
  claimed_email claims input = outside.platform.lower (
      text_or
        (or_claim (string_claim (get_field claims "email"))
          (text_claim (input "x-pomerium-claim-email")))
        "")

  unfoldable pub claimed_subject : Fields → Headers → Option String
  claimed_subject claims input = or_claim (string_claim (get_field claims "sub")) (
      or_claim (text_claim (input "x-pomerium-claim-sub"))
        (text_claim (input "x-pomerium-claim-user")))

  unfoldable pub claimed_name : Fields → Headers → String → String
  claimed_name claims input email =
      text_or
        (or_claim (string_claim (get_field claims "name"))
          (text_claim (input "x-pomerium-claim-name")))
        (text_or (some (first_of (split_on b'@' email))) "企业员工")

  unfoldable pub dev_identity : ConsoleIdentity
  dev_identity =
      let subject = text_or (some (trimmed_text env.dev_subject)) "local-development-admin" in
      record {
        upstream_issuer = login_issuer;
        upstream_subject = subject;
        principal_issuer = principal_issuer;
        principal_subject = broker_subject outside login_issuer subject;
        email =
            text_or (some (outside.platform.lower (trimmed_text env.dev_email)))
              "admin@example.com";
        name = text_or (some (trimmed_text env.dev_name)) "本地管理员";
        groups = "local-development" ∷ [];
        preferred_username = none;
        is_admin = true;
      }

  unfoldable pub claimed_identity : Fields → Headers → String → String → ConsoleIdentity
  claimed_identity claims input email subject = record {
    upstream_issuer = login_issuer;
    upstream_subject = subject;
    principal_issuer = principal_issuer;
    principal_subject = broker_subject outside login_issuer subject;
    email = email;
    name = claimed_name claims input email;
    groups = string_array_claim (get_field claims "groups");
    preferred_username = string_claim (get_field claims "preferred_username");
    is_admin = is_console_admin_email outside env email;
  }

  -- The identity where the email or the subject is missing.
  unfoldable pub incomplete : Attempt AuthError ConsoleIdentity
  incomplete =
      if is_dev env then returned dev_identity else failed (auth_error "未从 Pomerium 获取到完整登录身份" 401)

  unfoldable pub console_identity_from_headers : Headers → Attempt AuthError ConsoleIdentity
  console_identity_from_headers input =
      let claims = decode_pomerium_assertion outside (input "x-pomerium-jwt-assertion") in
      let email = claimed_email claims input in
      elim (claimed_subject claims input) [
        | none ↦ incomplete
        | some subject ↦
            if is_empty email
            then incomplete
            else returned (claimed_identity claims input email subject)
      ]

  -- `options.audience || (configuredAudiences.length ? configuredAudiences : undefined)`, where an
  -- audience that is given is not the empty text.
  unfoldable pub expected_audience : Option (List String) → Option (List String)
  expected_audience (some given) = some given
  expected_audience none = elim (trimmed_parts (split_on b',' (text_or env.jwt_audience ""))) [
    | [] ↦ none
    | a ∷ as' ↦ some (a ∷ as')
  ]

  -- The branch with an assertion.
  unfoldable pub asserted_identity :
      Headers → Option (List String) → ℕ → String → Attempt AuthError ConsoleIdentity
  asserted_identity input audience now assertion =
      let path = trimmed_text env.public_key_path in
      fail_if (is_empty path) (auth_error "Pomerium JWT 公钥未配置" 503) (elim (outside.read_file path) [
        | none ↦ failed (auth_error "无法读取 Pomerium JWT 公钥" 503)
        | some key ↦
            verify_pomerium_assertion outside key (expected_audience audience)
              (some (trimmed_text env.jwt_issuer)) now assertion
            >>= λ claims. console_identity_from_headers input
      ])

  unfoldable pub linked_identity : LinkedIdentity → ConsoleIdentity
  linked_identity linked = record {
    upstream_issuer = linked.principal_issuer;
    upstream_subject = linked.principal_subject;
    principal_issuer = linked.principal_issuer;
    principal_subject = linked.principal_subject;
    email = outside.platform.lower linked.email;
    name = linked.name;
    groups = [];
    preferred_username = none;
    is_admin = is_console_admin_email outside env linked.email;
  }

  -- A `WeComConsoleSessionError` becomes a `ConsoleAuthError` with its message.
  unfoldable pub session_claims :
      Result WeComConsoleSessionClaims → Attempt AuthError WeComConsoleSessionClaims
  session_claims (ok claims) = returned claims
  session_claims (thrown message) = failed (auth_error message 401)

  unfoldable pub found_link : Option LinkedIdentity → Attempt AuthError ConsoleIdentity
  found_link none = failed (auth_error "企业微信身份绑定已解除" 401)
  found_link (some linked) = returned (linked_identity linked)

  -- The branch with a session token.
  unfoldable pub session_identity : ℕ → String → Attempt AuthError ConsoleIdentity
  session_identity now token =
      session_claims (verify_we_com_console_session outside.platform env.session_secret token now)
      >>= λ claims.
          outside.linked claims.principal_issuer claims.principal_subject claims.link_id
          >>= found_link

  -- The session cookie, if it is not empty.
  unfoldable pub session_token : Headers → Option String
  session_token input =
      elim (read_we_com_console_session_cookie outside.platform (input "cookie")) [
        | none ↦ none
        | some token ↦ if is_empty token then none else some token
      ]

  -- The assertion, if it is not empty.
  unfoldable pub assertion_of : Headers → Option String
  assertion_of input = elim (input "x-pomerium-jwt-assertion") [
    | none ↦ none
    | some assertion ↦ if is_empty assertion then none else some assertion
  ]

  -- Without an assertion.
  unfoldable pub unasserted_identity : Headers → ℕ → Attempt AuthError ConsoleIdentity
  unasserted_identity input now = elim (session_token input) [
    | none ↦ failed (auth_error "未收到平台或企业微信自动登录会话" 401)
    | some token ↦ session_identity now token
  ]

  unfoldable pub get_console_identity :
      Headers → Option (List String) → ℕ → Attempt AuthError ConsoleIdentity
  get_console_identity input audience now =
      if is_dev env then console_identity_from_headers input else elim (assertion_of input) [
        | some assertion ↦ asserted_identity input audience now assertion
        | none ↦ unasserted_identity input now
      ]

  unfoldable pub require_console_admin : Headers → ℕ → Attempt AuthError ConsoleIdentity
  require_console_admin input now = get_console_identity input none now >>= λ identity.
      fail_if (not identity.is_admin) (auth_error "仅管理员可以访问该功能" 403) (returned identity)
