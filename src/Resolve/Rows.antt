-- ===== src/Resolve/Rows.antt =====
-- The rows of the queries, and the connections that they allow.
use ai_base.Common.{
  String, List, [], ◌∷◌, ◌++◌, Bool, true, false, not, ◌&&◌, Option, none, some, ◌===◌, any, keep,
  map, concat, sort_by, includes, if◌then◌else◌,
}
use ai_base.Common.Attempt.{Attempt, returned, fail_if}
use ai_base.Text.Cut.{trimmed_parts}
use ai_base.Text.{is_empty}
use ai_base.Access.Texts.{add_unique}
use ai_base.Access.Grants.{PrincipalType, user, group, SharedConnectorGrant}
use ai_base.Access.Save.{is_manual, SharedConnectorResource}
use ai_base.Integrations.{StoreError, store_error, ConnectorConnection}
use ai_base.Integrations.Catalog.{stored_action_ids}
use ai_base.Integrations.Tables.{IntegrationApplicationRow, EmployeeConnectorBindingRow, find_row}
use ai_base.Integrations.Bindings.{is_revoked, is_connected, is_owned, configured_connection}
use ai_base.Integrations.Accounts.{has_conflict}
use ai_base.Resolve.{
  OrganizationRow, Directory, World, account_bound, controlled_shared, no_auth, ResolvedConnection,
}
use ai_base.Resolve.Input.{Query}

-- `$3::TEXT IS NULL OR service = $3`
unfoldable pub is_asked : Option String → String → Bool
is_asked none service = true
is_asked (some asked) service = service === asked

-- `a || b`
unfoldable pub name_or : Option String → String → String
name_or none fallback = fallback
name_or (some name) fallback = if is_empty name then fallback else name

-- The action ids of a binding: its own without an application, the application's with one.
unfoldable pub binding_actions :
    List IntegrationApplicationRow → EmployeeConnectorBindingRow → List String
binding_actions applications binding = elim binding.application_id [
  | none ↦ elim binding.own_action_ids [ none ↦ [] | some ids ↦ stored_action_ids ids ]
  | some id ↦ elim (find_row id applications) [
    | none ↦ []
    | some row ↦ stored_action_ids row.action_ids
  ]
]

-- `personal_binding`
unfoldable pub is_personal : List EmployeeConnectorBindingRow → SharedConnectorResource → Bool
is_personal bindings resource =
    any
      (λ binding.
        binding.service === resource.service
        && binding.connection_name === resource.connection_name
        && not (is_revoked binding.status))
      bindings

unfoldable pub same_text : Option String → String → Bool
same_text none text = false
same_text (some s) text = s === text

-- The organization can be used.
unfoldable pub is_configured : OrganizationRow → Bool
is_configured organization =
    organization.active
    && not (is_empty organization.corp_id)
    && elim organization.relay_callback_url [ none ↦ false | some url ↦ true ]

module _ (world : World) where
  -- `ORDER BY service, connection_name`
  unfoldable pub comes_before : String → String → String → String → Bool
  comes_before service name service' name' =
      if service === service' then world.collates name name' else world.collates service service'

  unfoldable pub binding_before : EmployeeConnectorBindingRow → EmployeeConnectorBindingRow → Bool
  binding_before a b = comes_before a.service a.connection_name b.service b.connection_name

  unfoldable pub is_bound : Query → EmployeeConnectorBindingRow → Bool
  is_bound query binding =
      is_owned query.issuer query.subject binding
      && is_connected binding.status
      && is_asked query.service binding.service

  unfoldable pub is_bound_by_email : Query → String → EmployeeConnectorBindingRow → Bool
  is_bound_by_email query email binding =
      binding.principal_issuer === query.issuer
      && world.outside.lower binding.principal_email === email
      && is_connected binding.status
      && is_asked query.service binding.service

  -- The bindings of the email: ambiguity fails.
  unfoldable pub bindings_by_email :
      Directory → Query → String → Attempt StoreError (List EmployeeConnectorBindingRow)
  bindings_by_email directory query email =
      let rows =
        sort_by binding_before (keep (is_bound_by_email query email) directory.accounts.bindings) in
      fail_if (has_conflict [] rows) (store_error "员工账号存在冲突的 Connector 绑定" 409) (returned rows)

  -- The bindings of the subject, or of the email if there is none.
  unfoldable pub bound_rows :
      Directory → Query → Attempt StoreError (List EmployeeConnectorBindingRow)
  bound_rows directory query =
      elim (sort_by binding_before (keep (is_bound query) directory.accounts.bindings)) [
        | row ∷ rows ↦ returned (row ∷ rows)
        | [] ↦ elim query.email [
          | none ↦ returned []
          | some email ↦ bindings_by_email directory query email
        ]
      ]

  unfoldable pub names_user : Query → SharedConnectorGrant → Bool
  names_user query grant = elim grant.principal_subject [
    | some subject ↦ subject === query.subject
    | none ↦ elim query.email [
      | none ↦ false
      | some email ↦ elim grant.principal_email [
        | none ↦ false
        | some given ↦ world.outside.lower given === email
      ]
    ]
  ]

  unfoldable pub names_group : Query → SharedConnectorGrant → Bool
  names_group query grant = elim grant.group_name [
    | none ↦ false
    | some name ↦ includes query.groups (world.outside.lower name)
  ]

  unfoldable pub names_principal : Query → SharedConnectorGrant → PrincipalType → Bool
  names_principal query grant user = names_user query grant
  names_principal query grant group = names_group query grant

  -- `starts_at IS NULL OR starts_at <= NOW()`, and `expires_at IS NULL OR expires_at > NOW()`
  unfoldable pub is_current : SharedConnectorGrant → Bool
  is_current grant =
      elim grant.starts_at [ none ↦ true | some time ↦ world.has_started time ]
      && elim grant.expires_at [ none ↦ true | some time ↦ not (world.has_expired time) ]

  -- A grant that lets the employee use the resource now.
  unfoldable pub is_granted :
      Directory → Query → SharedConnectorResource → String × SharedConnectorGrant → Bool
  is_granted directory query resource entry =
      entry.0 === resource.id
      && resource.enabled
      && is_manual resource.authorization_mode
      && (entry.1).enabled
      && not (is_personal directory.accounts.bindings resource)
      && is_current entry.1
      && (entry.1).principal_issuer === query.issuer
      && is_asked query.service resource.service
      && names_principal query entry.1 (entry.1).principal_type

  unfoldable pub resource_before : SharedConnectorResource → SharedConnectorResource → Bool
  resource_before a b = comes_before a.service a.connection_name b.service b.connection_name

  -- The grants of a resource, in the order of the table.
  unfoldable pub granted_rows :
      Directory
      → Query
      → SharedConnectorResource
      → List (SharedConnectorResource × SharedConnectorGrant)
  granted_rows directory query resource =
      map (λ entry. (resource, entry.1))
        (keep (is_granted directory query resource) directory.shared.grants)

  unfoldable pub shared_rows :
      Directory → Query → List (SharedConnectorResource × SharedConnectorGrant)
  shared_rows directory query =
      concat
        (map (granted_rows directory query) (sort_by resource_before directory.shared.resources))

  -- The connection of a binding, if the service has it.
  unfoldable pub bound_connection :
      List IntegrationApplicationRow
      → List ConnectorConnection
      → EmployeeConnectorBindingRow
      → Option ResolvedConnection
  bound_connection applications connections row =
      elim (configured_connection row.service row.connection_name connections) [
        | none ↦ none
        | some current ↦ some (record {
          service = row.service;
          connection_name = row.connection_name;
          display_name = name_or row.display_name current.display_name;
          access_mode = account_bound;
          action_restricted = true;
          allowed_action_ids = binding_actions applications row;
          policy_ids = [];
          wecom_organization_id = none;
        })
      ]

  -- The connection of a grant.
  unfoldable pub granted_connection :
      SharedConnectorResource → SharedConnectorGrant → ConnectorConnection → ResolvedConnection
  granted_connection resource grant current = record {
    service = resource.service;
    connection_name = resource.connection_name;
    display_name = name_or (some resource.display_name) current.display_name;
    access_mode = controlled_shared;
    action_restricted = true;
    allowed_action_ids = add_unique [] (trimmed_parts grant.action_ids);
    policy_ids = grant.id ∷ [];
    wecom_organization_id = none;
  }

  -- The loop over the grants: one of a connection that is there adds its actions and its id.
  unfoldable pub add_granted :
      SharedConnectorResource
      → SharedConnectorGrant
      → ConnectorConnection
      → List ResolvedConnection
      → List ResolvedConnection
  add_granted resource grant current [] = granted_connection resource grant current ∷ []
  add_granted resource grant current (connection ∷ connections) =
      let rest = add_granted resource grant current connections in
      if connection.service === resource.service
        && connection.connection_name === resource.connection_name
      then record connection {
        allowed_action_ids =
            add_unique connection.allowed_action_ids (trimmed_parts grant.action_ids);
        policy_ids = connection.policy_ids ++ grant.id ∷ [];
      }
        ∷ connections
      else connection ∷ rest

  unfoldable pub merge_granted :
      List ConnectorConnection
      → List (SharedConnectorResource × SharedConnectorGrant)
      → List ResolvedConnection
      → List ResolvedConnection
  merge_granted connections [] merged = merged
  merge_granted connections (row ∷ rows) merged =
      elim (configured_connection (row.0).service (row.0).connection_name connections) [
        | none ↦ merge_granted connections rows merged
        | some current ↦ merge_granted connections rows (add_granted row.0 row.1 current merged)
      ]

  unfoldable pub sort_allowed : ResolvedConnection → ResolvedConnection
  sort_allowed connection = record connection {
    allowed_action_ids = sort_by world.unit_before connection.allowed_action_ids;
  }

  unfoldable pub granted_connections :
      Directory → Query → List ConnectorConnection → List ResolvedConnection
  granted_connections directory query connections =
      map sort_allowed (merge_granted connections (shared_rows directory query) [])

  unfoldable pub is_public : List ResolvedConnection → ConnectorConnection → Bool
  is_public resolved connection =
      connection.configured
      && connection.virtual_connection
      && connection.auth_type === "no_auth"
      && not (any (λ bound. bound.service === connection.service) resolved)

  unfoldable pub public_connection : ConnectorConnection → ResolvedConnection
  public_connection connection = record {
    service = connection.service;
    connection_name = "default";
    display_name = connection.display_name;
    access_mode = no_auth;
    action_restricted = false;
    allowed_action_ids = [];
    policy_ids = [];
    wecom_organization_id = none;
  }
