-- ===== src/Integrations/Accounts.antt =====
-- `reconcileEmployeeBindings`, `startEmployeeIntegrationAuthorization` and
-- `disconnectEmployeeIntegration`.
use ai_base.Common.{
  sort_by, ltb, ℕ, String, List, [], ◌∷◌, Bool, false, not, ◌&&◌, ◌||◌, Option, none, some, ◌===◌,
  ◌<>◌, any, keep, map, find, if◌then◌else◌,
}
use ai_base.Common.Attempt.{Attempt, returned, failed, fail_if, ◌>>=◌}
use ai_base.Text.{is_empty}
use ai_base.Text.Cut.{take_chars}
use ai_base.Json.{Json}
use ai_base.Console.Identity.{ConsoleIdentity}
use ai_base.Integrations.{StoreError, store_error, other_error, Outside}
use ai_base.Integrations.Catalog.{
  oauth2, unsupported, PlatformDefinition, platform_definition, required_uuid,
  normalize_integration_action_ids,
}
use ai_base.Integrations.Uuid.{canonical_uuid}
use ai_base.Integrations.Tables.{
  IntegrationApplicationRow, pending, EmployeeConnectorBindingRow, Tables, or_fail, refers_to,
}
use ai_base.Integrations.Bindings.{
  EmployeeConnectorBinding, given_or_none, is_revoked, owned_bindings, upsert_binding,
  is_binding_violated, message_of, fail_binding, revoke_binding, set_bindings, reconcile_rows,
}
use ai_base.Integrations.Applications.{application_with_secret, sync_application_oauth_client}

-- An outcome, and the tables after it.
abbrev pub Ran : Type 0 → Type 0
Ran A = Attempt StoreError A × Tables

-- Nothing is written before an error.
unfoldable pub unless_failed :
    {A : Type 0} {B : Type 0} → Tables → Attempt StoreError A → (A → Ran B) → Ran B
unless_failed tables (failed error) next = (failed error, tables)
unless_failed tables (returned value) next = next value

-- The loop over the rows of an email: a second row of a service is a conflict, unless it is a bot's.
unfoldable pub has_conflict : List String → List EmployeeConnectorBindingRow → Bool
has_conflict services [] = false
has_conflict services (row ∷ rows) =
    (any (λ service. service === row.service) services && not (row.platform === "wecom_bot"))
    || has_conflict (row.service ∷ services) rows

unfoldable pub service_of : PlatformDefinition → Option String
service_of definition = elim definition.binding_mode [
  | unsupported ↦ none
  | oauth2 ↦ elim definition.service [
    | none ↦ none
    | some service ↦ if is_empty service then none else some service
  ]
]

module _ (outside : Outside) (secret_key : Option String) where
  unfoldable pub serialize_binding : EmployeeConnectorBindingRow → EmployeeConnectorBinding
  serialize_binding row = record {
    id = row.id;
    application_id = given_or_none row.application_id;
    platform = row.platform;
    service = row.service;
    connection_name = row.connection_name;
    status = row.status;
    display_name = given_or_none row.display_name;
    account_id = given_or_none row.account_id;
    error_message = given_or_none row.error_message;
    connected_at = elim row.connected_at [ none ↦ none | some time ↦ some (outside.iso time) ];
    updated_at = outside.iso row.updated_at;
  }

  -- The text that is hashed.
  unfoldable pub connection_material : ConsoleIdentity → String → String → String
  connection_material identity service discriminator =
      let common =
        identity.principal_issuer <> ("\0" <> (identity.principal_subject <> ("\0" <> service))) in
      if is_empty discriminator then common else common <> ("\0" <> discriminator)

  unfoldable pub employee_connection_name : ConsoleIdentity → String → String → String
  employee_connection_name identity service discriminator =
      "usr_"
      <> take_chars 40
          (outside.hex (outside.sha256 (connection_material identity service discriminator)))

  -- A row of the identity's email.
  unfoldable pub has_email : ConsoleIdentity → EmployeeConnectorBindingRow → Bool
  has_email identity binding =
      binding.principal_issuer === identity.principal_issuer
      && outside.lower binding.principal_email === identity.email
      && not (is_revoked binding.status)

  unfoldable pub adopt_binding :
      ConsoleIdentity → ℕ → EmployeeConnectorBindingRow → EmployeeConnectorBindingRow
  adopt_binding identity now binding =
      if has_email identity binding
      then record binding {
        principal_subject = identity.principal_subject;
        principal_email = identity.email;
        principal_name = identity.name;
        updated_at = now;
      }
      else binding

  -- `ORDER BY service, updated_at DESC`, in an order of texts that keeps equal services together.
  unfoldable pub legacy_before : EmployeeConnectorBindingRow → EmployeeConnectorBindingRow → Bool
  legacy_before a b =
      if a.service === b.service
      then ltb b.updated_at a.updated_at
      else outside.sorts_before a.service b.service

  -- The rows of the email become the identity's.
  unfoldable pub adopt_bindings : ConsoleIdentity → ℕ → Tables → Attempt StoreError Tables
  adopt_bindings identity now tables =
      let adopted = map (adopt_binding identity now) tables.bindings in
      fail_if (has_conflict [] (sort_by legacy_before (keep (has_email identity) tables.bindings)))
        (store_error "当前邮箱存在冲突的历史 Connector 绑定" 409)
        (fail_if (is_binding_violated adopted) (other_error "duplicate key")
          (returned (set_bindings tables adopted)))

  -- With the rows of the identity.
  unfoldable pub reconcile_owned :
      ConsoleIdentity → ℕ → Tables → Ran (List EmployeeConnectorBindingRow)
  reconcile_owned identity now tables =
      let owned = owned_bindings identity.principal_issuer identity.principal_subject in
      elim (owned tables.bindings) [
        | [] ↦ (returned [], tables)
        | row ∷ rows ↦ unless_failed tables outside.list_connector_connections (λ connections.
            let bindings = reconcile_rows connections now (owned tables.bindings) tables.bindings in
            (returned (owned bindings), set_bindings tables bindings))
      ]

  unfoldable pub reconcile_employee_bindings :
      ConsoleIdentity → ℕ → Tables → Ran (List EmployeeConnectorBindingRow)
  reconcile_employee_bindings identity now tables =
      elim (owned_bindings identity.principal_issuer identity.principal_subject tables.bindings) [
        | [] ↦
            unless_failed tables (adopt_bindings identity now tables) (reconcile_owned identity now)
        | row ∷ rows ↦ reconcile_owned identity now tables
      ]

  -- The binding that a start of an authorization writes; its id is random.
  unfoldable pub pending_binding :
      ConsoleIdentity
      → IntegrationApplicationRow
      → PlatformDefinition
      → String
      → String
      → ℕ
      → EmployeeConnectorBindingRow
  pending_binding identity row definition service id now = record {
    id = id;
    application_id = some row.id;
    principal_issuer = identity.principal_issuer;
    principal_subject = identity.principal_subject;
    principal_email = identity.email;
    principal_name = identity.name;
    platform = definition.platform;
    service = service;
    connection_name = employee_connection_name identity service "";
    status = pending;
    display_name = none;
    account_id = none;
    error_message = none;
    own_action_ids = none;
    connected_at = none;
    updated_at = now;
  }

  -- The checks, with what is written next.
  unfoldable pub prepare_authorization :
      ConsoleIdentity
      → String
      → String
      → ℕ
      → Tables
      → Attempt StoreError (IntegrationApplicationRow × String × List String × Tables)
  prepare_authorization identity application_id id now tables = do
    row ← application_with_secret outside secret_key tables application_id
    definition ← platform_definition row.platform
    service ← or_fail (service_of definition) (store_error "当前集成类型暂不支持员工账号绑定" 409)
    action_ids ← fail_if (not row.active) (store_error "管理员尚未启用该应用配置" 409) (
        normalize_integration_action_ids outside row.platform (some row.action_ids)
          definition.default_action_ids)
    let bindings =
        upsert_binding (pending_binding identity row definition service id now) tables.bindings
    fail_if (is_binding_violated bindings) (other_error "duplicate key")
        (returned (row, service, action_ids, set_bindings tables bindings))

  -- The end of a start: its error is kept in the binding.
  unfoldable pub finish_authorization :
      ConsoleIdentity → String → ℕ → Tables → Attempt StoreError Json → Ran Json
  finish_authorization identity service now tables (returned started) = (returned started, tables)
  finish_authorization identity service now tables (failed error) = (
    failed error,
    set_bindings tables
        (map (fail_binding identity service (message_of error) now) tables.bindings),
  )

  -- The OAuth client and the start.
  unfoldable pub start_authorization :
      ConsoleIdentity → ℕ → IntegrationApplicationRow × String × List String × Tables → Ran Json
  start_authorization identity now prepared =
      let (row, service, action_ids, tables) = prepared in
      let name = employee_connection_name identity service "" in
      elim (sync_application_oauth_client outside secret_key tables row) [
        | failed error ↦ finish_authorization identity service now tables (failed error)
        | returned synced ↦
            finish_authorization identity service now synced
              (outside.start_connector_oauth_authorization service name action_ids)
      ]

  unfoldable pub start_employee_integration_authorization :
      ConsoleIdentity → String → String → ℕ → Tables → Ran Json
  start_employee_integration_authorization identity application_id id now tables =
      unless_failed tables (prepare_authorization identity application_id id now tables)
        (start_authorization identity now)

  -- The identity's binding of an application.
  unfoldable pub find_binding :
      ConsoleIdentity → String → Tables → Option EmployeeConnectorBindingRow
  find_binding identity application_id tables =
      find (refers_to application_id)
        (owned_bindings identity.principal_issuer identity.principal_subject tables.bindings)

  unfoldable pub revoke_found : Tables → ℕ → EmployeeConnectorBindingRow → Attempt StoreError Tables
  revoke_found tables now binding =
      elim (outside.delete_connector_connection binding.service binding.connection_name) [
        | some error ↦ failed error
        | none ↦
            returned
              (set_bindings tables (map (revoke_binding binding.id none now) tables.bindings))
      ]

  unfoldable pub disconnect_employee_integration :
      ConsoleIdentity → String → ℕ → Tables → Attempt StoreError Tables
  disconnect_employee_integration identity application_id now tables = do
    given ← required_uuid application_id
    binding ←
        or_fail (find_binding identity (canonical_uuid given) tables) (store_error "个人账号尚未绑定" 404)
    revoke_found tables now binding
