-- ===== src/Url.antt =====
-- The platform's `URL` class, which the source only calls: a parameter of the modules that use it.
use ai_base.Common.{String, Bool, not, ◌||◌, Option, none, some, ◌===◌, if◌then◌else◌}
use ai_base.Text.{is_empty, strip_slashes, strip_slash, or_else}

-- What the source reads of a `URL` object.
pub record Url : Type 0 where
  pub protocol : String
  pub username : String
  pub password : String
  pub hostname : String
  pub port : String
  pub pathname : String
  pub search : String
  pub hash : String
  pub origin : String

-- `new URL(text)` and `new URL(text, base)`, `none` where they throw; the setter of `pathname`;
-- `toString()`; and `isIP` of node:net.
pub record UrlApi : Type 0 where
  pub parse : String → Option Url
  pub parse_from : String → String → Option Url
  pub with_pathname : Url → String → Url
  pub print : Url → String
  pub is_ip : String → Bool

unfoldable pub is_http : String → Bool
is_http protocol = protocol === "http:" || protocol === "https:"

-- `parsed.username || parsed.password || parsed.search || parsed.hash`
unfoldable pub has_extras : Url → Bool
has_extras u =
    not (is_empty u.username)
    || not (is_empty u.password)
    || not (is_empty u.search)
    || not (is_empty u.hash)

-- The `try` block that both validators share: the normalised text, `none` where it throws.
unfoldable pub endpoint : UrlApi → String → Option String
endpoint api value = elim (api.parse value) [
  | none ↦ none
  | some parsed ↦
      if not (is_http parsed.protocol) || has_extras parsed
      then none
      else some (
          strip_slash
            (api.print (api.with_pathname parsed (or_else (strip_slashes parsed.pathname) "/"))))
]
