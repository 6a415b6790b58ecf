-- ===== src/Gateway/Types.antt =====
-- The records of ai-console/src/lib/control-plane/gateway.ts and mcp.ts, and the bounds of
-- gateway-config.ts. The stored form of a record is the record without its key flag.
use ai_base.Common.{ℕ, String, List, Bool, Option}

pub data GatewayProvider : Type 0 where
  openai anthropic openai_compatible : GatewayProvider

pub record GatewayModelRoute : Type 0 where
  pub public_name : String
  pub upstream_name : String

-- `StoredGatewayChannel`
pub record StoredGatewayChannel : Type 0 where
  pub id : String
  pub name : String
  pub provider : GatewayProvider
  pub base_url : String
  pub enabled : Bool
  pub models : List GatewayModelRoute
  pub created_at : String
  pub updated_at : String

pub record GatewayChannel : Type 0 where
  pub stored : StoredGatewayChannel
  pub open stored use *
  pub key_configured : Bool

pub record GatewayChannelDraft : Type 0 where
  pub id : String
  pub name : String
  pub provider : GatewayProvider
  pub base_url : String
  pub enabled : Bool
  pub models : List GatewayModelRoute
  pub api_key : Option String
  pub remove_api_key : Bool

-- `StoredGatewayMcpServer`
pub record StoredGatewayMcpServer : Type 0 where
  pub id : String
  pub name : String
  pub namespace : String
  pub url : String
  pub enabled : Bool
  pub auth_header : String
  pub tool_includes : List String
  pub tool_excludes : List String
  pub created_at : String
  pub updated_at : String

pub record GatewayMcpServer : Type 0 where
  pub stored : StoredGatewayMcpServer
  pub open stored use *
  pub managed : Bool
  pub key_configured : Bool

pub record GatewayMcpServerDraft : Type 0 where
  pub id : String
  pub name : String
  pub namespace : String
  pub url : String
  pub enabled : Bool
  pub auth_header : String
  pub tool_includes : List String
  pub tool_excludes : List String
  pub api_key : Option String
  pub remove_api_key : Bool

-- `{ channels, updatedAt, revision }` and `{ servers, updatedAt, revision }`
pub record Snapshot (A : Type 0) : Type 0 where
  pub entries : List A
  pub updated_at : String
  pub revision : String

-- `{ ok: true, value }` or `{ ok: false, errors }`
pub data Validation (A : Type 0) : Type 0 where
  valid : A → Validation A
  invalid : List String → Validation A

abbrev pub max_channels : ℕ
max_channels = 20

abbrev pub max_models : ℕ
max_models = 100

abbrev pub max_mcp_servers : ℕ
max_mcp_servers = 40

abbrev pub max_mcp_tool_filters : ℕ
max_mcp_tool_filters = 32

abbrev pub max_mcp_tool_pages : ℕ
max_mcp_tool_pages = 100
