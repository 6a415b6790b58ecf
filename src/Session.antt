-- ===== src/Session.antt =====
-- ai-console/src/lib/server/wecom-console-session.ts: the session token of an automatic WeCom login, and
-- its cookie. SHA-256, HMAC, base64url, `JSON`, lower-casing and `decodeURIComponent` are the platform's.
pub mod Token
pub mod Cookie
pub mod Verified
pub mod RoundTrip
mod Tests
use ai_base.Common.{ℕ, String, List, Option}
use ai_base.Json.{Json}

pub record Platform : Type 0 where
  -- SHA-256 of the texts, one after the other.
  pub sha256 : List String → List ℕ
  pub hmac : List ℕ → String → List ℕ
  -- `Buffer.from(text, "base64url")` and `toString("base64url")`
  pub decode : String → List ℕ
  pub encode : List ℕ → String
  -- The same over the UTF-8 bytes of a text.
  pub decode_text : String → String
  pub encode_text : String → String
  pub stringify : Json → String
  pub parse : String → Option Json
  pub lower : String → String
  -- `decodeURIComponent`, `none` where it throws.
  pub decode_uri : String → Option String
