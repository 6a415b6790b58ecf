-- ===== src/Integrations.antt =====
-- ai-console/src/lib/server/integrations.ts: the applications of the enterprise platforms, the accounts that
-- employees bind to them, and which connection an employee's call may use.
pub mod Secrets
pub mod Catalog
pub mod Uuid
pub mod Tables
pub mod Applications
pub mod Bindings
pub mod Accounts
pub mod Consistent
pub mod Synced
pub mod Keyed
pub mod Switched
pub mod Created
pub mod Sealed
pub mod Checked
mod Tests
use ai_base.Common.{ℕ, String, List, Bool, Option}
use ai_base.Common.Attempt.{Attempt}
use ai_base.Json.{Json}

-- An `IntegrationStoreError` with its message and HTTP status, one that has a code and names connections
-- as well, or another error.
pub data StoreError : Type 0 where
  store_error : String → ℕ → StoreError
  coded_error : String → ℕ → String → List String → StoreError
  other_error : String → StoreError

-- An action as `getConnectorProvider` gives it.
pub record ConnectorAction : Type 0 where
  pub id : String
  pub name : String
  pub description : String
  pub provider_permissions : List String
  pub catalog_only : Bool

pub record ConnectorProvider : Type 0 where
  pub actions : List ConnectorAction
  -- The scopes of its first OAuth2 authentication, if it has one.
  pub oauth_scopes : Option (List String)

-- A connection as `listConnectorConnections` gives it.
pub record ConnectorConnection : Type 0 where
  pub service : String
  pub connection_name : String
  pub configured : Bool
  pub virtual_connection : Bool
  pub auth_type : String
  pub display_name : String
  pub account_id : String

pub record OauthConfig : Type 0 where
  pub client_id : String
  pub client_secret : String

-- The platform and the connector service.
pub record Outside : Type 0 where
  -- SHA-256 of a text, and its hexadecimal print.
  pub sha256 : String → List ℕ
  pub hex : List ℕ → String
  -- AES-256-GCM: key, nonce and text to ciphertext and tag; key, nonce, ciphertext and tag to the text,
  -- `none` where it throws.
  pub encrypt : List ℕ → List ℕ → String → List ℕ × List ℕ
  pub decrypt : List ℕ → List ℕ → List ℕ → List ℕ → Option String
  -- `Buffer.from(text, "base64url")` and `toString("base64url")`
  pub decode : String → List ℕ
  pub encode : List ℕ → String
  -- `toISOString()` of a time in milliseconds.
  pub iso : ℕ → String
  pub lower : String → String
  -- `a.localeCompare(b, "zh-CN") <= 0`
  pub sorts_before : String → String → Bool
  pub get_connector_provider : String → Attempt StoreError ConnectorProvider
  pub list_connector_connections : Attempt StoreError (List ConnectorConnection)
  pub save_connector_oauth_config : String → OauthConfig → Option StoreError
  pub start_connector_oauth_authorization : String → String → List String → Attempt StoreError Json
  pub delete_connector_connection : String → String → Option StoreError
