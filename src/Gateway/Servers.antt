-- ===== src/Gateway/Servers.antt =====
-- `validateGatewayMcpServersInput` of gateway-config.ts.
pub mod Drafts
pub mod Sound
use ai_base.Common.{
  ℕ, suc, ◌+◌, String, ◌≡◌, List, [], ◌∷◌, ◌++◌, Bool, true, false, not, ◌&&◌, ◌||◌, Option, none,
  some, ltb, ◌==◌, ◌===◌, ◌<>◌, if◌then◌else◌, length, present, includes,
}
use ai_base.Common.Results.{Checked, ◌>>=◌, ◌>>◌, give, report, push_if}
use ai_base.Text.{
  matches, all_chars, is_lower, is_upper, is_digit, text_length, is_empty, decimal, starts_with,
  trim,
}
use ai_base.Json.{Json, str, obj, Fields, get_field, array?, trimmed_or, trimmed?, bool?, is_true}
use ai_base.Url.{UrlApi}
use ai_base.Gateway.Types.{
  GatewayMcpServerDraft, Validation, valid, invalid, max_mcp_servers, max_mcp_tool_filters,
}
use ai_base.Gateway.Channels.{
  id_first, id_rest, is_channel_id, read_endpoint, none?, is_long_key, is_bad_name, verdict,
  entries_of,
}

abbrev pub open_connector_mcp_id : String
open_connector_mcp_id = "mcp-open-connector"

abbrev pub open_connector_mcp_namespace : String
open_connector_mcp_namespace = "open-connector"

abbrev pub rag_mcp_id : String
rag_mcp_id = "mcp-rag"

abbrev pub rag_mcp_namespace : String
rag_mcp_namespace = "rag"

unfoldable pub is_system_managed_mcp_server_id : String → Bool
is_system_managed_mcp_server_id id = id === open_connector_mcp_id || id === rag_mcp_id

-- HTTP_HEADER_PATTERN, /^[!#$%&'*+.^_`|~0-9A-Za-z-]+$/
abbrev pub header_char : ℕ → Bool
header_char c =
    is_lower c
    || is_upper c
    || is_digit c
    || c == b'!'
    || c == b'#'
    || c == b'$'
    || c == b'%'
    || c == b'&'
    || c == 39
    || c == b'*'
    || c == b'+'
    || c == b'.'
    || c == b'^'
    || c == b'_'
    || c == b'`'
    || c == b'|'
    || c == b'~'
    || c == b'-'

-- `!authHeader || authHeader.length > 100 || !HTTP_HEADER_PATTERN.test(authHeader)`
unfoldable pub is_bad_header : String → Bool
is_bad_header s = is_empty s || ltb 100 (text_length s) || not (all_chars header_char s)

-- `!normalized || normalized.length > 200`
unfoldable pub is_bad_tool : String → Bool
is_bad_tool s = is_empty s || ltb 200 (text_length s)

-- `if (!values.includes(normalized)) values.push(normalized)`
unfoldable pub push_new : List String → String → List String
push_new values tool = if includes values tool then values else values ++ tool ∷ []

-- The loop `value.forEach` of `readStringList`; `values` is what is collected so far.
unfoldable pub read_tools : String → ℕ → List String → List Json → Checked (List String)
read_tools at i values [] = give values
read_tools at i values (v ∷ vs) =
    let tool = trimmed_or "" (some v) in
    do
      report (is_bad_tool tool) (at <> "[" <> decimal i <> "] must be between 1 and 200 characters")
      read_tools at (suc i) (if is_bad_tool tool then values else push_new values tool) vs

abbrev refuse_list : String → Checked (List String)
refuse_list at = record {
  errors = (at <> " must be an array with at most 32 entries") ∷ [];
  value = [];
}

unfoldable pub read_string_list : String → Option (List Json) → Checked (List String)
read_string_list at none = refuse_list at
read_string_list at (some vs) =
    if ltb max_mcp_tool_filters (length vs) then refuse_list at else read_tools at 0 [] vs

-- The object that `readMcpServerDraft` returns, `undefined` where a part of it is missing.
unfoldable pub server_draft :
    String
    → String
    → String
    → String
    → Option Bool
    → String
    → List String
    → List String
    → Option String
    → Bool
    → Option GatewayMcpServerDraft
server_draft id name namespace url none auth_header includes excludes api_key remove = none
server_draft id name namespace url (some enabled) auth_header includes excludes api_key remove =
    if is_empty id || is_empty name || is_empty namespace || is_empty url || is_empty auth_header
    then none
    else some (record {
      id = id;
      name = name;
      namespace = namespace;
      url = url;
      enabled = enabled;
      auth_header = auth_header;
      tool_includes = includes;
      tool_excludes = excludes;
      api_key = api_key;
      remove_api_key = remove;
    })

module _ (api : UrlApi) where
  unfoldable pub read_server_fields : String → Fields → Checked (Option GatewayMcpServerDraft)
  read_server_fields at fields =
      let id = trimmed_or "" (get_field fields "id") in
      let name = trimmed_or "" (get_field fields "name") in
      let namespace = trimmed_or "" (get_field fields "namespace") in
      let enabled = bool? (get_field fields "enabled") in
      let auth_header = trimmed_or "Authorization" (get_field fields "authHeader") in
      let api_key = trimmed? (get_field fields "apiKey") in
      do
        report (not (is_channel_id id)) (at <> ".id is invalid")
        report (is_bad_name name) (at <> ".name must be between 1 and 100 characters")
        report (not (is_channel_id namespace)) (at <> ".namespace is invalid")
        report (none? enabled) (at <> ".enabled must be a boolean")
        report (is_bad_header auth_header) (at <> ".authHeader must be a valid HTTP header name")
        report (is_long_key api_key) (at <> ".apiKey is too long")
        url ← read_endpoint api at "url" (trimmed_or "" (get_field fields "url"))
        includes ←
            read_string_list (at <> ".toolIncludes") (array? (get_field fields "toolIncludes"))
        excludes ←
            read_string_list (at <> ".toolExcludes") (array? (get_field fields "toolExcludes"))
        give (
            server_draft id name namespace url enabled auth_header includes excludes api_key
              (is_true (get_field fields "removeApiKey")))

  unfoldable pub read_mcp_server_draft : ℕ → Json → Checked (Option GatewayMcpServerDraft)
  read_mcp_server_draft index (obj fields) =
      read_server_fields ("servers[" <> decimal index <> "]") fields
  read_mcp_server_draft index _ = record {
    errors = ("servers[" <> decimal index <> "] must be an object") ∷ [];
    value = none;
  }

  -- `input.servers.map(readMcpServerDraft).filter(Boolean)`
  unfoldable pub read_mcp_server_drafts : ℕ → List Json → Checked (List GatewayMcpServerDraft)
  read_mcp_server_drafts i [] = give []
  read_mcp_server_drafts i (v ∷ vs) = do
    draft ← read_mcp_server_draft i v
    rest ← read_mcp_server_drafts (suc i) vs
    give (present (draft ∷ []) ++ rest)

-- `[OPEN_CONNECTOR_MCP_NAMESPACE, RAG_MCP_NAMESPACE].includes(namespace)`
unfoldable pub is_managed_namespace : String → Bool
is_managed_namespace namespace =
    namespace === open_connector_mcp_namespace || namespace === rag_mcp_namespace

-- `PUBLIC_MCP_TOOL_NAMESPACES.has(namespace) || namespace.startsWith("mcp-")`
unfoldable pub is_public_namespace : String → Bool
is_public_namespace namespace =
    namespace === "connector" || namespace === "kb" || starts_with namespace "mcp-"

-- The loop over `servers.entries()`.
unfoldable pub check_servers :
    ℕ → List String → List String → List GatewayMcpServerDraft → List String
check_servers i ids namespaces [] = []
check_servers i ids namespaces (s ∷ ss) =
    let at = "servers[" <> decimal i <> "]" in
    push_if (is_system_managed_mcp_server_id s.id)
      (at <> ".id is reserved for a system-managed MCP service")
    ++ (push_if (is_managed_namespace s.namespace)
          (at <> ".namespace is reserved for a system-managed MCP service")
        ++ (push_if (is_public_namespace s.namespace)
              (at <> ".namespace is reserved for the public MCP tool proxy")
            ++ (push_if (includes ids s.id) (at <> ".id is duplicated")
                ++ (push_if (includes namespaces s.namespace) (at <> ".namespace is duplicated")
                    ++ check_servers (suc i) (s.id ∷ ids) (s.namespace ∷ namespaces) ss))))

-- From the test on the number of entries to the end.
unfoldable pub accept_servers : UrlApi → List Json → Validation (List GatewayMcpServerDraft)
accept_servers api servers =
    if ltb max_mcp_servers (length servers)
    then invalid ("servers must contain at most 40 entries" ∷ [])
    else let drafts = read_mcp_server_drafts api 0 servers in
      verdict (drafts.errors ++ check_servers 0 [] [] drafts.value) drafts.value

unfoldable pub validate_gateway_mcp_servers_input :
    UrlApi → Json → Validation (List GatewayMcpServerDraft)
validate_gateway_mcp_servers_input api input = elim (entries_of "servers" input) [
  | none ↦ invalid ("request body must contain a servers array" ∷ [])
  | some servers ↦ accept_servers api servers
]
