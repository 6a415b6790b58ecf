-- ===== src/Resolve.antt =====
-- `resolveEmployeeConnectorBindings` of ai-console/src/lib/server/integrations.ts: which connection a call of
-- an employee may use.
pub mod Visibility
pub mod Input
pub mod Rows
pub mod Select
pub mod Listed
pub mod Named
pub mod Authorized
pub mod Allowed
pub mod Resolved
pub mod Selected
pub mod Only
mod Tests
use ai_base.Common.{ℕ, String, List, Bool, Option}
use ai_base.Json.{Json}
use ai_base.Access.Save.{Tables as SharedTables}
use ai_base.Integrations.{Outside}
use ai_base.Integrations.Tables.{Tables}

-- A row of `wecom_identity_links`.
pub record WeComIdentityLinkRow : Type 0 where
  pub organization_id : String
  pub principal_issuer : String
  pub principal_subject : String
  pub wecom_corp_id_hash : String
  pub wecom_user_id_hash : String

-- A row of `wecom_authentication_organizations`.
pub record OrganizationRow : Type 0 where
  pub id : String
  pub corp_id : String
  pub active : Bool
  pub relay_callback_url : Option String

-- The tables that a resolution reads.
pub record Directory : Type 0 where
  pub links : List WeComIdentityLinkRow
  pub organizations : List OrganizationRow
  pub accounts : Tables
  pub shared : SharedTables

-- The platform, the connector service and the clock of the database.
pub record World : Type 0 where
  pub outside : Outside
  -- The order of the database's texts, and that of `sort()`.
  pub collates : String → String → Bool
  pub unit_before : String → String → Bool
  -- `runConnectorAction`, `none` where it throws.
  pub run_connector_action : String → String → Option Json
  -- `starts_at <= NOW()` and `expires_at > NOW()`
  pub has_started : String → Bool
  pub has_expired : String → Bool

-- An employee's identity in an organization, without the group that nothing reads.
pub record WeComIdentity : Type 0 where
  pub organization_id : String
  pub user_id_hash : String

pub data AccessMode : Type 0 where
  account_bound controlled_shared no_auth : AccessMode

-- A connection that the employee may use.
pub record ResolvedConnection : Type 0 where
  pub service : String
  pub connection_name : String
  pub display_name : String
  pub access_mode : AccessMode
  pub action_restricted : Bool
  pub allowed_action_ids : List String
  pub policy_ids : List String
  pub wecom_organization_id : Option String
