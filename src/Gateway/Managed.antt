-- ===== src/Gateway/Managed.antt =====
-- The two MCP services that the console registers itself, from the environment of its process.
use ai_base.Common.{
  String, List, [], ◌∷◌, Bool, true, false, not, ◌||◌, Option, none, some, ◌===◌, ◌<>◌,
  if◌then◌else◌, find,
}
use ai_base.Common.Results.{Result, ok, thrown}
use ai_base.Text.{trim, is_empty, strip_slash, or_else}
use ai_base.Url.{UrlApi}
use ai_base.Gateway.Types.{GatewayMcpServer}
use ai_base.Gateway.Servers.{
  open_connector_mcp_id, open_connector_mcp_namespace, rag_mcp_id, rag_mcp_namespace,
}
use ai_base.Gateway.Store.{Write, write_mcp_secret, unlink_mcp_secret, Secrets, secret}

-- The variables of `process.env` that gateway-config.ts reads.
pub record Env : Type 0 where
  pub open_connector_url : Option String
  pub open_connector_runtime_token : Option String
  pub rag_mcp_url : Option String
  pub lightrag_api_key : Option String

-- `process.env.X || fallback`
abbrev pub env_or : Option String → String → String
env_or none fallback = fallback
env_or (some s) fallback = or_else s fallback

-- `process.env.X?.trim() || undefined`
abbrev pub env_trimmed : Option String → Option String
env_trimmed none = none
env_trimmed (some s) = if is_empty (trim s) then none else some (trim s)

unfoldable pub open_connector_runtime_token : Env → Option String
open_connector_runtime_token env = env_trimmed env.open_connector_runtime_token

unfoldable pub light_rag_api_key : Env → Option String
light_rag_api_key env = env_trimmed env.lightrag_api_key

unfoldable pub rag_mcp_url : Env → String
rag_mcp_url env = elim (env_trimmed env.rag_mcp_url) [
  | none ↦ "http://rag-mcp:8080/mcp"
  | some url ↦ url
]

unfoldable pub open_connector_mcp_url : UrlApi → Env → String
open_connector_mcp_url api env =
    let base = env_or env.open_connector_url "http://localhost:8080/connector" in
    elim (api.parse_from "mcp" (strip_slash base <> "/")) [
      | none ↦ "http://localhost:8080/connector/mcp"
      | some url ↦ api.print url
    ]

abbrev pub is_some {ℓ} : {A : Type ℓ} → Option A → Bool
is_some none = false
is_some (some a) = true

abbrev pub epoch : String
epoch = "1970-01-01T00:00:00.000Z"

module _ (api : UrlApi) (env : Env) where
  unfoldable pub open_connector_server : GatewayMcpServer
  open_connector_server = record {
    stored = record {
      id = open_connector_mcp_id;
      name = "Open Connector";
      namespace = open_connector_mcp_namespace;
      url = open_connector_mcp_url api env;
      enabled = true;
      auth_header = "Authorization";
      tool_includes = [];
      tool_excludes = [];
      created_at = epoch;
      updated_at = epoch;
    };
    managed = true;
    key_configured = is_some (open_connector_runtime_token env);
  }

  unfoldable pub rag_server : GatewayMcpServer
  rag_server = record {
    stored = record {
      id = rag_mcp_id;
      name = "企业知识库 RAG";
      namespace = rag_mcp_namespace;
      url = rag_mcp_url env;
      enabled = true;
      auth_header = "X-API-Key";
      tool_includes = [];
      tool_excludes = [];
      created_at = epoch;
      updated_at = epoch;
    };
    managed = true;
    key_configured = is_some (light_rag_api_key env);
  }

  abbrev pub get_system_managed_mcp_servers : List GatewayMcpServer
  get_system_managed_mcp_servers = open_connector_server ∷ rag_server ∷ []

  unfoldable pub get_system_managed_mcp_server : String → Result GatewayMcpServer
  get_system_managed_mcp_server id =
      elim (find (λ (s : GatewayMcpServer). s.stored.id === id) get_system_managed_mcp_servers) [
        | none ↦ thrown "unknown system-managed MCP service"
        | some server ↦ ok server
      ]

-- The list `secrets` of both functions below.
abbrev pub managed_secrets : Env → List (String × Option String)
managed_secrets env =
    (open_connector_mcp_id, open_connector_runtime_token env)
    ∷ (rag_mcp_id, light_rag_api_key env)
    ∷ []

-- One round of the loop of `syncSystemManagedMcpSecrets`.
abbrev pub sync_secret : String → Option String → Write
sync_secret id none = unlink_mcp_secret id
sync_secret id (some value) = write_mcp_secret id value

unfoldable pub sync_all : List (String × Option String) → List Write
sync_all [] = []
sync_all ((id, value) ∷ rest) = sync_secret id value ∷ sync_all rest

unfoldable pub sync_system_managed_mcp_secrets : Env → List Write
sync_system_managed_mcp_secrets env = sync_all (managed_secrets env)

-- One round of the loop of `systemManagedMcpSecretsNeedSync`: what is stored against what is meant.
unfoldable pub secret_needs_sync : Option String → Option String → Bool
secret_needs_sync none none = false
secret_needs_sync none (some value) = true
secret_needs_sync (some stored) none = true
secret_needs_sync (some stored) (some value) = not (trim stored === value)

unfoldable pub any_needs_sync : Secrets → List (String × Option String) → Bool
any_needs_sync secrets [] = false
any_needs_sync secrets ((id, value) ∷ rest) =
    secret_needs_sync (secret secrets id) value || any_needs_sync secrets rest

unfoldable pub system_managed_mcp_secrets_need_sync : Env → Secrets → Bool
system_managed_mcp_secrets_need_sync env secrets = any_needs_sync secrets (managed_secrets env)
