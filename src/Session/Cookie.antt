-- ===== src/Session/Cookie.antt =====
-- `readWeComConsoleSessionCookie`.
use ai_base.Common.{String, List, [], ◌∷◌, Option, none, some, ◌===◌, if◌then◌else◌}
use ai_base.Text.{trim, is_empty}
use ai_base.Text.Cut.{split_on, cut_at}
use ai_base.Session.{Platform}

abbrev pub session_cookie : String
session_cookie = "ai_base_wecom_session"

-- The value of the first part with the cookie's name, trimmed.
unfoldable pub find_cookie : List String → Option String
find_cookie [] = none
find_cookie (part ∷ parts) =
    let rest = find_cookie parts in
    elim (cut_at b'=' part) [
      | none ↦ rest
      | some pair ↦ if trim pair.0 === session_cookie then some (trim pair.1) else rest
    ]

unfoldable pub read_we_com_console_session_cookie : Platform → Option String → Option String
read_we_com_console_session_cookie p none = none
read_we_com_console_session_cookie p (some header) = elim (find_cookie (split_on b';' header)) [
  | none ↦ none
  | some value ↦ if is_empty value then none else p.decode_uri value
]
