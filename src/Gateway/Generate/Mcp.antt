-- ===== src/Gateway/Generate/Mcp.antt =====
-- The parts of `generateGatewayConfig` for the MCP servers.
use ai_base.Common.{
  String, List, [], ◌∷◌, map, ◌&&◌, Option, none, some, ◌≡◌, ◌===◌, ◌<>◌, if◌then◌else◌,
}
use ai_base.Common.Results.{Result, ok, thrown}
use ai_base.Text.{lines, join}
use ai_base.Text.Quote.{json_quote}
use ai_base.Url.{Url, UrlApi}
use ai_base.Gateway.Types.{GatewayMcpServer}
use ai_base.Gateway.Generate.Models.{url_port, endpoint_block, tls_policy, backend_head}

unfoldable pub mcp_backend_name : String → String
mcp_backend_name namespace = "mcp-" <> namespace

unfoldable pub backend_path : GatewayMcpServer → Url → String
backend_path s url =
    if s.managed then url.pathname else "/internal/v1/mcp-backends/" <> s.stored.namespace

abbrev tool_lines : List String → String
tool_lines tools = join "\n" (map (λ tool. "          - " <> json_quote tool) tools)

unfoldable pub tool_includes : GatewayMcpServer → String
tool_includes s = elim (s.stored.tool_includes) [
  | [] ↦ ""
  | tool ∷ tools ↦ "\n      toolSelector:\n        include:\n" <> tool_lines (tool ∷ tools)
]

unfoldable pub tool_excludes : GatewayMcpServer → String
tool_excludes s = elim (s.stored.tool_excludes) [
  | [] ↦ ""
  | tool ∷ tools ↦
      (elim (s.stored.tool_includes) [ [] ↦ "\n      toolSelector:" | _ ∷ _ ↦ "" ])
      <> ("\n        exclude:\n" <> tool_lines (tool ∷ tools))
]

unfoldable pub security_policy : GatewayMcpServer → String → String
security_policy s name =
    if s.managed && s.key_configured
    then "\n      securityPolicy:\n        apiKey:\n          secretRef:\n            name: "
      <> name
      <> "-key\n          header: "
      <> json_quote s.stored.auth_header
    else ""

-- `new URL(server.url)` throws, or what is made of the URL.
unfoldable pub with_url : Option Url → (Url → String) → Result String
with_url none f = thrown "Invalid URL"
with_url (some url) f = ok (f url)

pub with_url-ok :
    (o : Option Url) (f : Url → String) {text : String}
    → with_url o f ≡ ok text
    → (url : Url) × (f url ≡ text)
unfolding with_url
with_url-ok none f h = cc
with_url-ok (some url) f h = (url, cc)

module _ (api : UrlApi) where
  unfoldable pub backend_ref : GatewayMcpServer → Url → String
  backend_ref s url =
      let name = mcp_backend_name s.stored.namespace in
      lines (
        ("    - name: " <> name)
        ∷ "      kind: Backend"
        ∷ "      group: gateway.envoyproxy.io"
        ∷ [])
      <> ("      path: "
          <> json_quote (backend_path s url)
          <> tool_includes s
          <> tool_excludes s
          <> security_policy s name)

  -- One round of the `map` that gives `mcpBackendRefs`, with no line break at its end.
  unfoldable pub mcp_backend_ref : GatewayMcpServer → Result String
  mcp_backend_ref s = with_url (api.parse s.stored.url) (backend_ref s)

  unfoldable pub mcp_secret : GatewayMcpServer → String → String
  mcp_secret s name =
      if s.key_configured
      then lines (
          "apiVersion: v1"
          ∷ "kind: Secret"
          ∷ "metadata:"
          ∷ ("  name: " <> name <> "-key")
          ∷ "  namespace: default"
          ∷ "  annotations:"
          ∷ ("    substitution.aigw.run/file/apiKey: "
              <> json_quote ("/control/llm-gateway-mcp-secrets/" <> s.stored.id <> ".key"))
          ∷ "type: Opaque"
          ∷ "stringData:"
          ∷ "  apiKey: replaced-at-runtime"
          ∷ "---"
          ∷ [])
      else ""

  -- The host and port of the service itself, or of the adapter before a server of the user's.
  unfoldable pub mcp_hostname : GatewayMcpServer → Url → String
  mcp_hostname s url = if s.managed then url.hostname else "mcp-backend-adapter"

  unfoldable pub mcp_port : GatewayMcpServer → Url → String
  mcp_port s url = if s.managed then url_port url else "8090"

  unfoldable pub backend : GatewayMcpServer → Url → String
  backend s url =
      let name = mcp_backend_name s.stored.namespace in
      let hostname = mcp_hostname s url in
      backend_head name (endpoint_block api hostname) (mcp_port s url)
      <> ((if s.managed && url.protocol === "https:" then tls_policy name hostname else "")
          <> mcp_secret s name)

  -- One round of the `map` that gives `mcpBackends`.
  unfoldable pub mcp_backend : GatewayMcpServer → Result String
  mcp_backend s = with_url (api.parse s.stored.url) (backend s)

unfoldable pub mcp_route : String → String
mcp_route refs = lines (
    "apiVersion: aigateway.envoyproxy.io/v1beta1" ∷ "kind: MCPRoute" ∷ "metadata:"
    ∷ "  name: ai-base-mcp" ∷ "  namespace: default" ∷ "spec:" ∷ "  parentRefs:"
    ∷ "    - name: ai-base-llm" ∷ "      kind: Gateway" ∷ "      group: gateway.networking.k8s.io"
    ∷ "  path: \"/mcp\"" ∷ "  backendRefs:" ∷ refs ∷ "---" ∷ [])
