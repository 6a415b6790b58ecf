-- ===== src/Gateway/Probe.antt =====
-- What the connection tests of gateway-config.ts share: the platform's `fetch`, `JSON.parse` and
-- `Headers`, and the keys that a test uses.
pub mod Models
pub mod Tools
pub mod Mcp
pub mod Paging
pub mod Found
pub mod Reports
use ai_base.Common.{
  ℕ, String, List, [], ◌∷◌, ◌++◌, Bool, true, false, ◌&&◌, Option, none, some, leb, ◌===◌,
  if◌then◌else◌,
}
use ai_base.Text.{trim, is_empty}
use ai_base.Json.{Json, trimmed?}
use ai_base.Gateway.Types.{GatewayChannelDraft, GatewayMcpServerDraft}
use ai_base.Gateway.Servers.{open_connector_mcp_id, rag_mcp_id}
use ai_base.Gateway.Store.{Store, Secrets, secret}
use ai_base.Gateway.Managed.{Env, open_connector_runtime_token, light_rag_api_key}
use ai_base.Gateway.Keys.{given_key}

-- A name and a value for each call of `headers.set`, in order.
abbrev pub Headers : Type 0
Headers = List (String × String)

pub record Response : Type 0 where
  pub status : ℕ
  pub content_type : Option String
  pub session_id : Option String
  pub text : String

-- A `fetch` and the read of its body: a response, or a rejection, with whether it is a timeout. A body
-- that `testGatewayChannel` fails to read counts as a text that does not parse.
pub data Fetched : Type 0 where
  answered : Response → Fetched
  failed : Bool → Fetched

-- The remote service and the platform. No two requests of a test are the same, so what a service
-- answers is a function of the request.
pub record Remote : Type 0 where
  pub get : String → Headers → Fetched
  pub post : String → Headers → Json → Fetched
  -- `JSON.parse`, `none` where it throws.
  pub parse_json : String → Option Json
  -- Whether `headers.set` takes this name and value, or throws.
  pub accepts : String → String → Bool

-- `response.ok`
unfoldable pub is_success : ℕ → Bool
is_success status = leb 200 status && leb status 299

-- `typeof value === "string" && value.trim() ? value.trim() : undefined`
unfoldable pub text? : Option Json → Option String
text? value = elim (trimmed? value) [ none ↦ none | some s ↦ if is_empty s then none else some s ]

-- The text of the key file, trimmed.
abbrev stored_key : Secrets → String → Option String
stored_key secrets id = elim (secret secrets id) [ none ↦ none | some text ↦ some (trim text) ]

unfoldable pub resolve_test_key : Store → GatewayChannelDraft → Option String
resolve_test_key s draft = elim (given_key draft.api_key) [
  | some key ↦ some key
  | none ↦ if draft.remove_api_key then none else stored_key s.secrets draft.id
]

unfoldable pub resolve_mcp_test_key : Env → Store → GatewayMcpServerDraft → Option String
resolve_mcp_test_key env s draft =
    if draft.id === open_connector_mcp_id
    then open_connector_runtime_token env
    else if draft.id === rag_mcp_id
    then light_rag_api_key env
    else elim (given_key draft.api_key) [
      | some key ↦ some key
      | none ↦ if draft.remove_api_key then none else stored_key s.mcp_secrets draft.id
    ]

-- `if (key)`: a key that is not empty.
abbrev pub usable_key : Option String → Option String
usable_key none = none
usable_key (some key) = if is_empty key then none else some key
