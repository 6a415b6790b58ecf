-- ===== src/Gateway/Generate.antt =====
-- `generateGatewayConfig` of gateway-config.ts: the text of the gateway's configuration.
pub mod Models
pub mod Mcp
pub mod Names
use ai_base.Common.{String, List, [], ◌∷◌, Bool, true, false, if◌then◌else◌, ◌&&◌, keep, ◌<>◌}
use ai_base.Common.Results.{Result, ok}
use ai_base.Common.Throwing.{◌>>=◌, each}
use ai_base.Text.{lines, join, concat_texts}
use ai_base.Url.{UrlApi}
use ai_base.Gateway.Types.{GatewayChannel, GatewayMcpServer}
use Models.{channel_rules, model_route, channel_backend}
use Mcp.{mcp_backend_ref, mcp_backend, mcp_route}

unfoldable pub gateway_config_version_marker : String
gateway_config_version_marker = "# ai-base-gateway-config-version: 2"

unfoldable pub base_gateway_config : String
base_gateway_config = lines (
    "# Generated by AI Console. Do not edit by hand." ∷ gateway_config_version_marker
    ∷ "apiVersion: gateway.networking.k8s.io/v1" ∷ "kind: GatewayClass" ∷ "metadata:"
    ∷ "  name: ai-base-llm" ∷ "spec:"
    ∷ "  controllerName: gateway.envoyproxy.io/gatewayclass-controller" ∷ "---"
    ∷ "apiVersion: gateway.networking.k8s.io/v1" ∷ "kind: Gateway" ∷ "metadata:"
    ∷ "  name: ai-base-llm" ∷ "  namespace: default" ∷ "spec:" ∷ "  gatewayClassName: ai-base-llm"
    ∷ "  listeners:" ∷ "    - name: http" ∷ "      protocol: HTTP" ∷ "      port: 1975"
    ∷ "  infrastructure:" ∷ "    parametersRef:" ∷ "      group: gateway.envoyproxy.io"
    ∷ "      kind: EnvoyProxy" ∷ "      name: ai-base-llm" ∷ "---"
    ∷ "apiVersion: gateway.envoyproxy.io/v1alpha1" ∷ "kind: EnvoyProxy" ∷ "metadata:"
    ∷ "  name: ai-base-llm" ∷ "  namespace: default" ∷ "spec:" ∷ "  logging:" ∷ "    level:"
    ∷ "      default: error" ∷ "---" ∷ [])

unfoldable pub traffic_policy : String
traffic_policy = lines (
    "apiVersion: gateway.envoyproxy.io/v1alpha1" ∷ "kind: ClientTrafficPolicy" ∷ "metadata:"
    ∷ "  name: ai-base-llm-buffer" ∷ "  namespace: default" ∷ "spec:" ∷ "  targetRefs:"
    ∷ "    - group: gateway.networking.k8s.io" ∷ "      kind: Gateway" ∷ "      name: ai-base-llm"
    ∷ "  connection:" ∷ "    bufferLimit: 50Mi" ∷ [])

abbrev pub is_nil {ℓ} : {A : Type ℓ} → List A → Bool
is_nil [] = true
is_nil (x ∷ xs) = false

-- `channels.filter((channel) => channel.enabled && channel.keyConfigured)`
unfoldable pub enabled_channels : List GatewayChannel → List GatewayChannel
enabled_channels = keep (λ c. c.stored.enabled && c.key_configured)

unfoldable pub enabled_servers : List GatewayMcpServer → List GatewayMcpServer
enabled_servers = keep (λ s. s.stored.enabled)

module _ (api : UrlApi) where
  -- The text for lists that are not both empty.
  unfoldable pub config_text : List GatewayChannel → List GatewayMcpServer → Result String
  config_text channels servers = do
    backends ← each (channel_backend api) channels
    refs ← each (mcp_backend_ref api) servers
    mcp_backends ← each (mcp_backend api) servers
    ok (
        base_gateway_config
        <> ((if is_nil channels then "" else model_route (join "\n" (channel_rules channels)))
            <> (concat_texts backends
                <> ((if is_nil servers then "" else mcp_route (join "\n" refs))
                    <> (concat_texts mcp_backends <> traffic_policy)))))

  unfoldable pub generate_gateway_config :
      List GatewayChannel → List GatewayMcpServer → Result String
  generate_gateway_config channels servers =
      let chosen_channels = enabled_channels channels in
      let chosen_servers = enabled_servers servers in
      if is_nil chosen_channels && is_nil chosen_servers
      then ok ""
      else config_text chosen_channels chosen_servers
