-- ===== src/Resolve/Select.antt =====
-- The bots that the employee sees, and the selection.
use ai_base.Common.{
  ℕ, String, List, [], ◌∷◌, ◌++◌, Bool, true, false, not, ◌&&◌, ◌||◌, Option, none, some, ◌===◌,
  ◌<>◌, any, keep, map, present, sort_by, includes, ltb, length, if◌then◌else◌,
}
use ai_base.Common.Attempt.{Attempt, returned, failed, fail_if, ◌>>=◌}
use ai_base.Text.Cut.{trimmed_parts}
use ai_base.Access.Save.{is_manual, SharedConnectorResource}
use ai_base.Access.Texts.{add_unique}
use ai_base.Integrations.{StoreError, store_error, coded_error, ConnectorConnection}
use ai_base.Integrations.Bindings.{configured_connection}
use ai_base.Resolve.{Directory, World, WeComIdentity, controlled_shared, ResolvedConnection}
use ai_base.Resolve.Visibility.{CacheEntry, is_user_id_hash, read_we_com_visible_user_id_hashes}
use ai_base.Resolve.Input.{ResolutionInput, Query, read_query, we_com_identities}
use ai_base.Resolve.Rows.{
  is_asked, name_or, same_text, is_configured, is_personal, bound_rows, bound_connection,
  granted_connections, is_public, public_connection,
}

-- `WECOM_BOT_SYSTEM_ONLY_ACTION_IDS`
abbrev pub system_only_action_ids : List String
system_only_action_ids =
    "wecom_bot.send_text_message" ∷ "wecom_bot.send_markdown_message"
    ∷ "wecom_bot.send_markdown_v2_message" ∷ "wecom_bot.send_image_message"
    ∷ "wecom_bot.send_news_message" ∷ "wecom_bot.call_tool" ∷ []

-- `new Map(identities.map(…)).get(organization)`: the last one.
unfoldable pub user_hash_in : List WeComIdentity → String → Option String
user_hash_in [] organization = none
user_hash_in (identity ∷ identities) organization = elim (user_hash_in identities organization) [
  | some hash ↦ some hash
  | none ↦ if identity.organization_id === organization then some identity.user_id_hash else none
]

-- The employee's hash in the organization of a resource.
unfoldable pub resource_hash : List WeComIdentity → SharedConnectorResource → Option String
resource_hash identities resource = elim resource.wecom_organization_id [
  | none ↦ none
  | some organization ↦ user_hash_in identities organization
]

module _ (world : World) where
  -- A bot of an organization that the employee is in, and that can be used.
  unfoldable pub is_visibility_resource :
      Directory → Option String → List WeComIdentity → SharedConnectorResource → Bool
  is_visibility_resource directory service identities resource =
      resource.enabled
      && any
          (λ organization.
            is_configured organization && same_text resource.wecom_organization_id organization.id)
          directory.organizations
      && resource.service === "wecom_bot"
      && not (is_manual resource.authorization_mode)
      && any (λ identity. same_text resource.wecom_organization_id identity.organization_id)
          identities
      && is_asked service resource.service
      && not (is_personal directory.accounts.bindings resource)

  -- The list of the bot has the hash.
  unfoldable pub sees : Option String → Option (List String) → Bool
  sees none hashes = false
  sees (some hash) none = false
  sees (some hash) (some hashes) = includes hashes hash

  -- The resources whose bot lists the employee.
  unfoldable pub visible_resources :
      ℕ
      → List WeComIdentity
      → List SharedConnectorResource
      → List CacheEntry
      → List SharedConnectorResource × List CacheEntry
  visible_resources now identities [] cache = ([], cache)
  visible_resources now identities (resource ∷ resources) cache =
      let (hashes, kept) =
        read_we_com_visible_user_id_hashes world now cache resource.connection_name in
      let (rest, after) = visible_resources now identities resources kept in
      (if sees (resource_hash identities resource) hashes then resource ∷ rest else rest, after)

  -- Another service has no bots.
  unfoldable pub asks_bots : Option String → Bool
  asks_bots none = true
  asks_bots (some service) = service === "wecom_bot"

  unfoldable pub resolve_we_com_visibility_resources :
      Directory
      → Option String
      → List WeComIdentity
      → ℕ
      → List CacheEntry
      → Attempt StoreError (List SharedConnectorResource × List CacheEntry)
  resolve_we_com_visibility_resources directory service identities now cache =
      if not (asks_bots service) || not (ltb 0 (length identities))
      then returned ([], cache)
      else fail_if (any (λ identity. not (is_user_id_hash identity.user_id_hash)) identities)
          (coded_error "企微用户身份摘要格式无效" 400 "invalid_wecom_identity" [])
          (returned (
            visible_resources now identities
              (sort_by (λ a b. world.collates a.connection_name b.connection_name)
                (keep (is_visibility_resource directory service identities)
                  directory.shared.resources))
              cache))

  unfoldable pub visible_actions : SharedConnectorResource → List String
  visible_actions resource = sort_by world.unit_before (
      keep (λ id. not (includes system_only_action_ids id))
        (add_unique [] (trimmed_parts resource.action_ids)))

  -- The connection of a bot, if the service has it.
  unfoldable pub visible_connection :
      List ConnectorConnection → SharedConnectorResource → Option ResolvedConnection
  visible_connection connections resource =
      elim (configured_connection resource.service resource.connection_name connections) [
        | none ↦ none
        | some current ↦ some (record {
          service = resource.service;
          connection_name = resource.connection_name;
          display_name = name_or (some resource.display_name) current.display_name;
          access_mode = controlled_shared;
          action_restricted = true;
          allowed_action_ids = visible_actions resource;
          policy_ids = ("wecom-visibility:" <> resource.id) ∷ [];
          wecom_organization_id = resource.wecom_organization_id;
        })
      ]

  -- All connections that the employee may use, and the cache.
  unfoldable pub resolved_connections :
      Directory
      → Query
      → List WeComIdentity
      → ℕ
      → List CacheEntry
      → Attempt StoreError (List ResolvedConnection × List CacheEntry)
  resolved_connections directory query identities now cache = do
    rows ← bound_rows world directory query
    connections ← world.outside.list_connector_connections
    visible ← resolve_we_com_visibility_resources directory query.service identities now cache
    let bound =
        present (map (bound_connection world directory.accounts.applications connections) rows)
    let shared =
        granted_connections world directory query connections
        ++ present (map (visible_connection connections) visible.0)
    let free = map (public_connection world) (keep (is_public world (bound ++ shared)) connections)
    returned (bound ++ shared ++ free, visible.1)

  unfoldable pub allows : String → ResolvedConnection → Bool
  allows action_id connection =
      not connection.action_restricted || includes connection.allowed_action_ids action_id

  -- The candidates that a test leaves, or an error if there are none.
  unfoldable pub narrow :
      Option String
      → (String → ResolvedConnection → Bool)
      → StoreError
      → List ResolvedConnection
      → Attempt StoreError (List ResolvedConnection)
  narrow none test missing candidates = returned candidates
  narrow (some value) test missing candidates =
      let left = keep (test value) candidates in
      fail_if (not (ltb 0 (length left))) missing (returned left)

  -- The only candidate.
  unfoldable pub only : List ResolvedConnection → Attempt StoreError ResolvedConnection
  only [] = failed (store_error "当前员工没有获授权的 Connector" 404)
  only (candidate ∷ []) = returned candidate
  only (candidate ∷ other ∷ candidates) = failed (
      coded_error "当前服务存在多个可用 Connector，请明确指定连接名称" 409 "connector_selection_required"
        (map (λ connection. connection.connection_name) (candidate ∷ other ∷ candidates)))

  -- The selection for a service.
  unfoldable pub select_connection :
      Query → String → List ResolvedConnection → Attempt StoreError ResolvedConnection
  select_connection query service connections = do
    of_service ←
        narrow (some service) (λ name connection. connection.service === name)
          (coded_error "当前员工没有获授权的 Connector" 404 "connector_not_authorized" []) connections
    named ←
        narrow query.requested_connection_name
          (λ name connection. connection.connection_name === name)
          (coded_error "当前员工无权使用请求的 Connector" 403 "connector_not_authorized" []) of_service
    allowed ←
        narrow query.action_id allows
          (coded_error "当前员工无权执行请求的 Action" 403 "action_not_authorized" []) named
    only allowed

  -- One connection for a service, all of them without one.
  pub data Resolution : Type 0 where
    selected : ResolvedConnection → Resolution
    every : List ResolvedConnection → Resolution

  unfoldable pub conclude : Query → List ResolvedConnection → Attempt StoreError Resolution
  conclude query connections = elim query.service [
    | none ↦ returned (every connections)
    | some service ↦
        select_connection query service connections >>= λ connection. returned (selected connection)
  ]

  -- With the cache after it.
  unfoldable pub resolve_employee_connector_bindings :
      Directory
      → ResolutionInput
      → ℕ
      → List CacheEntry
      → Attempt StoreError (Resolution × List CacheEntry)
  resolve_employee_connector_bindings directory input now cache = do
    query ← read_query world.outside input
    identities ← we_com_identities world.outside directory query input.wecom_user_id_hash
    found ← resolved_connections directory query identities now cache
    resolution ← conclude query found.0
    returned (resolution, found.1)
