-- ===== src/Gateway/Generate/Models.antt =====
-- The parts of `generateGatewayConfig` for the model channels.
use ai_base.Common.{
  String, List, [], ◌∷◌, ◌++◌, map, Bool, Option, none, some, ◌||◌, ◌===◌, ◌<>◌, if◌then◌else◌,
}
use ai_base.Common.Results.{Result, ok, thrown}
use ai_base.Text.{lines, is_empty, or_else, strip_slash}
use ai_base.Text.Quote.{json_quote}
use ai_base.Url.{Url, UrlApi}
use ai_base.Gateway.Types.{
  GatewayProvider, openai, anthropic, openai_compatible, GatewayModelRoute, GatewayChannel,
}

unfoldable pub backend_name : String → String
backend_name id = "llm-" <> id

pub record Endpoint : Type 0 where
  pub hostname : String
  pub port : String
  pub tls : Bool
  pub path_prefix : Option String

-- The port is a decimal text, as `URL` gives it; the source turns it into a number and prints that.
unfoldable pub url_port : Url → String
url_port url = or_else url.port (if url.protocol === "https:" then "443" else "80")

unfoldable pub endpoint_parts : UrlApi → String → Result Endpoint
endpoint_parts api base_url = elim (api.parse base_url) [
  | none ↦ thrown "Invalid URL"
  | some url ↦ ok (record {
    hostname = url.hostname;
    port = url_port url;
    tls = url.protocol === "https:";
    path_prefix =
        if url.pathname === "/" || url.pathname === "/v1"
        then none
        else some (strip_slash url.pathname);
  })
]

unfoldable pub model_override : GatewayModelRoute → String
model_override m =
    if m.upstream_name === m.public_name
    then ""
    else "\n          modelNameOverride: " <> json_quote m.upstream_name

-- One rule of the route, with no line break at its end.
unfoldable pub model_rule : String → GatewayModelRoute → String
model_rule id m =
    lines (
      "    - matches:"
      ∷ "        - headers:"
      ∷ "            - type: Exact"
      ∷ "              name: x-ai-eg-model"
      ∷ ("              value: " <> json_quote m.public_name)
      ∷ "      backendRefs:"
      ∷ ("        - name: " <> backend_name id)
      ∷ ("          namespace: default" <> model_override m)
      ∷ "      timeouts:"
      ∷ [])
    <> "        request: 120s"

unfoldable pub channel_rules : List GatewayChannel → List String
channel_rules [] = []
channel_rules (c ∷ cs) = map (model_rule c.stored.id) c.stored.models ++ channel_rules cs

unfoldable pub model_route : String → String
model_route rules = lines (
    "apiVersion: aigateway.envoyproxy.io/v1beta1" ∷ "kind: AIGatewayRoute" ∷ "metadata:"
    ∷ "  name: ai-base-llm" ∷ "  namespace: default" ∷ "spec:" ∷ "  parentRefs:"
    ∷ "    - name: ai-base-llm" ∷ "      kind: Gateway" ∷ "      group: gateway.networking.k8s.io"
    ∷ "  rules:" ∷ rules ∷ "  llmRequestCosts:" ∷ "    - metadataKey: llm_input_token"
    ∷ "      type: InputToken" ∷ "    - metadataKey: llm_output_token" ∷ "      type: OutputToken"
    ∷ "---" ∷ [])

unfoldable pub endpoint_block : UrlApi → String → String
endpoint_block api hostname =
    if api.is_ip hostname
    then "ip:\n        address: " <> json_quote hostname
    else "fqdn:\n        hostname: " <> json_quote hostname

abbrev pub path_block : Option String → String
path_block none = ""
path_block (some path) = if is_empty path then "" else "\n    prefix: " <> json_quote path

abbrev pub schema_name : GatewayProvider → String
schema_name anthropic = "Anthropic"
schema_name openai = "OpenAI"
schema_name openai_compatible = "OpenAI"

abbrev pub secret_policy : GatewayProvider → String → String
secret_policy anthropic name =
    "  type: AnthropicAPIKey\n  anthropicAPIKey:\n    secretRef:\n      name: " <> name <> "-key"
secret_policy openai name =
    "  type: APIKey\n  apiKey:\n    secretRef:\n      name: " <> name <> "-key"
secret_policy openai_compatible name =
    "  type: APIKey\n  apiKey:\n    secretRef:\n      name: " <> name <> "-key"

unfoldable pub tls_policy : String → String → String
tls_policy name hostname = lines (
    "apiVersion: gateway.networking.k8s.io/v1alpha3"
    ∷ "kind: BackendTLSPolicy"
    ∷ "metadata:"
    ∷ ("  name: " <> name <> "-tls")
    ∷ "  namespace: default"
    ∷ "spec:"
    ∷ "  targetRefs:"
    ∷ "    - group: gateway.envoyproxy.io"
    ∷ "      kind: Backend"
    ∷ ("      name: " <> name)
    ∷ "  validation:"
    ∷ "    wellKnownCACertificates: System"
    ∷ ("    hostname: " <> json_quote hostname)
    ∷ "---"
    ∷ [])

unfoldable pub backend_head : String → String → String → String
backend_head name address port = lines (
    "apiVersion: gateway.envoyproxy.io/v1alpha1"
    ∷ "kind: Backend"
    ∷ "metadata:"
    ∷ ("  name: " <> name)
    ∷ "  namespace: default"
    ∷ "spec:"
    ∷ "  endpoints:"
    ∷ ("    - " <> address)
    ∷ ("        port: " <> port)
    ∷ "---"
    ∷ [])

unfoldable pub channel_tail : GatewayChannel → String → String → String → String → String
channel_tail c name schema prefix policy = lines (
    "apiVersion: aigateway.envoyproxy.io/v1beta1"
    ∷ "kind: AIServiceBackend"
    ∷ "metadata:"
    ∷ ("  name: " <> name)
    ∷ "  namespace: default"
    ∷ "spec:"
    ∷ "  timeouts:"
    ∷ "    request: 3m"
    ∷ "  schema:"
    ∷ ("    name: " <> schema <> prefix)
    ∷ "  backendRef:"
    ∷ ("    name: " <> name)
    ∷ "    kind: Backend"
    ∷ "    group: gateway.envoyproxy.io"
    ∷ "    namespace: default"
    ∷ "---"
    ∷ "apiVersion: v1"
    ∷ "kind: Secret"
    ∷ "metadata:"
    ∷ ("  name: " <> name <> "-key")
    ∷ "  namespace: default"
    ∷ "  annotations:"
    ∷ ("    substitution.aigw.run/file/apiKey: "
        <> json_quote ("/control/llm-gateway-secrets/" <> c.stored.id <> ".key"))
    ∷ "type: Opaque"
    ∷ "stringData:"
    ∷ "  apiKey: replaced-at-runtime"
    ∷ "---"
    ∷ "apiVersion: aigateway.envoyproxy.io/v1beta1"
    ∷ "kind: BackendSecurityPolicy"
    ∷ "metadata:"
    ∷ ("  name: " <> name <> "-key")
    ∷ "  namespace: default"
    ∷ "spec:"
    ∷ "  targetRefs:"
    ∷ "    - group: aigateway.envoyproxy.io"
    ∷ "      kind: AIServiceBackend"
    ∷ ("      name: " <> name)
    ∷ policy
    ∷ "---"
    ∷ [])

module _ (api : UrlApi) where
  -- One round of the `map` that gives `backends`.
  unfoldable pub channel_backend : GatewayChannel → Result String
  channel_backend c = elim (endpoint_parts api c.stored.base_url) [
    | thrown message ↦ thrown message
    | ok endpoint ↦
        let name = backend_name c.stored.id in
        ok (
          backend_head name (endpoint_block api endpoint.hostname) endpoint.port
          <> ((if endpoint.tls then tls_policy name endpoint.hostname else "")
              <> channel_tail c name (schema_name c.stored.provider)
                  (path_block endpoint.path_prefix) (secret_policy c.stored.provider name)))
  ]
