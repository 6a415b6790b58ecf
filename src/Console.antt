-- ===== src/Console.antt =====
-- ai-console/src/lib/server/console-identity.ts and ai-console/src/proxy.ts: who makes a request, and
-- which requests the console lets through.
pub mod Claims
pub mod Assertion
pub mod Identity
pub mod Proxy
pub mod Verified
pub mod Claimed
pub mod Authentic
pub mod Admitted
mod Tests
use ai_base.Common.{String, List, Bool, Option, none, some, if◌then◌else◌}
use ai_base.Common.Attempt.{Attempt}
use ai_base.Common.Integers.{ℤ}
use ai_base.Common.{ℕ}
use ai_base.Text.{is_empty}
use ai_base.Session

-- A `ConsoleAuthError` with its HTTP status, or another error.
pub data AuthError : Type 0 where
  auth_error : String → ℕ → AuthError
  other_error : AuthError

-- What `getWeComLinkedPlatformIdentity` gives of a link.
pub record LinkedIdentity : Type 0 where
  pub principal_issuer : String
  pub principal_subject : String
  pub email : String
  pub name : String

-- The platform, the database and the file system.
pub record Outside : Type 0 where
  pub platform : Session.Platform
  -- Whether an ES256 signature of the text verifies under the public key, `false` where it throws.
  pub verifies : String → String → List ℕ → Bool
  -- The least integer that is not below a number that is not an integer, `none` if it is not finite.
  pub ceiling : String → Option ℤ
  -- `readFile`, `none` where it fails.
  pub read_file : String → Option String
  -- `getWeComLinkedPlatformIdentity`: issuer, subject and link.
  pub linked : String → String → String → Attempt AuthError (Option LinkedIdentity)

-- The environment.
pub record Env : Type 0 where
  pub admin_emails : Option String
  pub dev_identity_enabled : Option String
  pub dev_email : Option String
  pub dev_subject : Option String
  pub dev_name : Option String
  pub login_issuer : Option String
  pub mcp_issuer : Option String
  pub public_key_path : Option String
  pub jwt_audience : Option String
  pub jwt_issuer : Option String
  pub session_secret : Option String

-- `headers.get(name)`
abbrev pub Headers : Type 0
Headers = String → Option String

-- `value || fallback` on a text that may be missing.
unfoldable pub text_or : Option String → String → String
text_or none fallback = fallback
text_or (some s) fallback = if is_empty s then fallback else s
