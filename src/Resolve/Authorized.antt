-- ===== src/Resolve/Authorized.antt =====
-- What an employee may use comes from the tables.
use mathlib.Core.List.{Memᴰ}
use ai_base.Common.{
  String, ◌≡◌, refl, sym, ◌∙◌, List, [], ◌∷◌, ◌++◌, true, false, ◌&&◌, some, ◌===◌, All-sort_by,
  All, All-mono, All-append, All-Memᴰ, All-keep, All-map, All-concat, includes, arith, inl, inr,
  Bool-cases, Option-cases, ===→≡,
}
use ai_base.Text.Cut.{trimmed_parts}
use ai_base.Access.Texts.{add_unique}
use ai_base.Access.Grants.{SharedConnectorGrant}
use ai_base.Access.Save.{is_manual, SharedConnectorResource}
use ai_base.Resolve.Named.{IsNamed, IsLive, names_principal-IsNamed, is_current-IsLive}
use ai_base.Integrations.{ConnectorConnection}
use ai_base.Integrations.Bindings.{configured_connection}
use ai_base.Resolve.{Directory, World, ResolvedConnection}
use ai_base.Resolve.Input.{Query}
use ai_base.Resolve.Rows.{
  is_personal, is_granted, resource_before, granted_rows, shared_rows, granted_connection,
  add_granted, merge_granted, sort_allowed, granted_connections,
}

pub All-add_unique {κ} :
    (P : String → Type κ) (seen texts : List String)
    → All P seen
    → All P texts
    → All P (add_unique seen texts)
unfolding add_unique
All-add_unique P seen [] old new = old
All-add_unique P seen (s ∷ ss) old (h, new) = elim (Bool-cases (includes seen s)) [
  | inl known ↦ rw known (All-add_unique P seen ss old new)
  | inr fresh ↦
      rw fresh (All-add_unique P (seen ++ s ∷ []) ss (All-append P seen (s ∷ []) old (h, tt)) new)
]

module _ (world : World) (directory : Directory) (query : Query) where
  -- A grant of the tables lets the employee use the resource now.
  pub record IsGrantedBy (resource : SharedConnectorResource) (grant : SharedConnectorGrant)
      : Type 0 where
    pub kept : Memᴰ resource directory.shared.resources
    pub entry : String × SharedConnectorGrant
    pub stored : Memᴰ entry directory.shared.grants
    pub same : grant ≡ entry.1
    pub own : entry.0 ≡ resource.id
    pub usable : resource.enabled ≡ true
    pub enabled : grant.enabled ≡ true
    pub live : IsLive world grant
    pub issuer : grant.principal_issuer ≡ query.issuer
    pub manual : is_manual resource.authorization_mode ≡ true
    pub shared : is_personal directory.accounts.bindings resource ≡ false
    pub principal : IsNamed world query grant

  abbrev GrantedRow : SharedConnectorResource × SharedConnectorGrant → Type 0
  GrantedRow row = IsGrantedBy row.0 row.1

  granted-IsGrantedBy :
      (resource : SharedConnectorResource)
      → Memᴰ resource directory.shared.resources
      → (entry : String × SharedConnectorGrant) → Memᴰ entry directory.shared.grants
      → is_granted world directory query resource entry ≡ true
      → IsGrantedBy resource entry.1
  unfolding is_granted
  granted-IsGrantedBy resource kept entry stored h = record {
    kept = kept;
    entry = entry;
    stored = stored;
    same = refl;
    own = ===→≡ _ _ (ground arith);
    usable = ground arith;
    enabled = ground arith;
    live = is_current-IsLive world entry.1 (ground arith);
    issuer = ===→≡ _ _ (ground arith);
    manual = ground arith;
    shared = ground arith;
    principal = names_principal-IsNamed world query entry.1 (ground arith);
  }

  granted_rows-all :
      (resource : SharedConnectorResource)
      → Memᴰ resource directory.shared.resources
      → All GrantedRow (granted_rows world directory query resource)
  unfolding granted_rows
  granted_rows-all resource kept =
      All-map GrantedRow (λ entry. (resource, entry.1)) _
        (All-mono
          (λ entry.
            Memᴰ entry directory.shared.grants
            × (is_granted world directory query resource entry ≡ true))
          _ (λ entry h. granted-IsGrantedBy resource kept entry h.0 h.1)
          (All-keep (λ entry. Memᴰ entry directory.shared.grants)
            (is_granted world directory query resource) _ (All-Memᴰ directory.shared.grants)))

  shared_rows-all : All GrantedRow (shared_rows world directory query)
  unfolding shared_rows
  shared_rows-all = All-concat GrantedRow _ (
      All-map (All GrantedRow) (granted_rows world directory query) _ (
        All-sort_by (resource_before world) _ directory.shared.resources (
          All-mono (λ resource. Memᴰ resource directory.shared.resources) _ granted_rows-all
            (All-Memᴰ directory.shared.resources))))

  module _ (connections : List ConnectorConnection) where
    -- An action of a shared connection that a grant lets the employee use now.
    pub record IsGrantedAction (connection : ResolvedConnection) (id : String) : Type 0 where
      pub resource : SharedConnectorResource
      pub grant : SharedConnectorGrant
      pub granted : IsGrantedBy resource grant
      pub same_service : resource.service ≡ connection.service
      pub same_name : resource.connection_name ≡ connection.connection_name
      pub listed : Memᴰ id (trimmed_parts grant.action_ids)

    -- The connector service has the connection, and a grant lets the employee use each of its actions.
    pub record IsShared (connection : ResolvedConnection) : Type 0 where
      pub configured :
          (current : ConnectorConnection) × (configured_connection connection.service
              connection.connection_name connections
            ≡ some current)
      pub actions : All (IsGrantedAction connection) connection.allowed_action_ids
      pub restricted : connection.action_restricted ≡ true

    granted-actions :
        (connection : ResolvedConnection) (resource : SharedConnectorResource)
        (grant : SharedConnectorGrant)
        → IsGrantedBy resource grant
        → resource.service ≡ connection.service
        → resource.connection_name ≡ connection.connection_name
        → All (IsGrantedAction connection) (trimmed_parts grant.action_ids)
    granted-actions connection resource grant granted same named =
        All-mono (λ id. Memᴰ id (trimmed_parts grant.action_ids)) (trimmed_parts grant.action_ids)
          (λ id m. record {
            resource = resource;
            grant = grant;
            granted = granted;
            same_service = same;
            same_name = named;
            listed = m;
          })
          (All-Memᴰ (trimmed_parts grant.action_ids))

    -- The actions of a connection that differs in other fields.
    moved-actions :
        (connection other : ResolvedConnection) (ids : List String)
        → other.service ≡ connection.service
        → other.connection_name ≡ connection.connection_name
        → All (IsGrantedAction connection) ids
        → All (IsGrantedAction other) ids
    moved-actions connection other ids same named =
        All-mono (IsGrantedAction connection) ids (λ id h. record {
          resource = h.resource;
          grant = h.grant;
          granted = h.granted;
          same_service = h.same_service ∙ sym same;
          same_name = h.same_name ∙ sym named;
          listed = h.listed;
        })

    add_granted-all :
        (resource : SharedConnectorResource) (grant : SharedConnectorGrant)
        (current : ConnectorConnection) (merged : List ResolvedConnection)
        → IsGrantedBy resource grant
        → configured_connection resource.service resource.connection_name connections ≡ some current
        → All IsShared merged
        → All IsShared (add_granted world resource grant current merged)
    unfolding add_granted granted_connection
    add_granted-all resource grant current [] granted e all = (
      record {
        configured = (current, e);
        actions = All-add_unique _ [] (trimmed_parts grant.action_ids) tt (
            granted-actions (granted_connection world resource grant current) resource grant granted
              refl refl);
        restricted = refl;
      },
      tt,
    )
    add_granted-all resource grant current (connection ∷ merged) granted e (h, all) =
        elim (Bool-cases (
          connection.service === resource.service
          && connection.connection_name === resource.connection_name)) [
            | inr other ↦
                rw (add_granted, other)
                  (h, add_granted-all resource grant current merged granted e all)
            | inl same ↦
                let service : connection.service ≡ resource.service = ===→≡ _ _ (ground arith) in
                let name : connection.connection_name ≡ resource.connection_name =
                  ===→≡ _ _ (ground arith) in
                let next = record connection {
                  allowed_action_ids =
                      add_unique connection.allowed_action_ids (trimmed_parts grant.action_ids);
                  policy_ids = connection.policy_ids ++ grant.id ∷ [];
                } in
                rw (add_granted, same)
                  (
                    record {
                      configured = h.configured;
                      actions =
                          All-add_unique _ connection.allowed_action_ids
                            (trimmed_parts grant.action_ids)
                            (moved-actions connection next _ refl refl h.actions)
                            (granted-actions next resource grant granted (sym service) (sym name));
                      restricted = h.restricted;
                    },
                    all,
                  )
          ]

    merge_granted-all :
        (rows : List (SharedConnectorResource × SharedConnectorGrant))
        (merged : List ResolvedConnection)
        → All GrantedRow rows
        → All IsShared merged
        → All IsShared (merge_granted world connections rows merged)
    unfolding merge_granted
    merge_granted-all [] merged rows all = all
    merge_granted-all (row ∷ rows) merged (h, rest) all =
        elim (Option-cases
          (configured_connection (row.0).service (row.0).connection_name connections)) [
            | inl n ↦ rw (merge_granted, n) (merge_granted-all rows merged rest all)
            | inr (current, e) ↦
                rw (merge_granted, e)
                  (merge_granted-all rows _ rest
                    (add_granted-all row.0 row.1 current merged h e all))
          ]

    sort_allowed-IsShared :
        (connection : ResolvedConnection)
        → IsShared connection
        → IsShared (sort_allowed world connection)
    unfolding sort_allowed
    sort_allowed-IsShared connection h = record {
      configured = h.configured;
      actions =
          All-sort_by world.unit_before _ connection.allowed_action_ids
            (moved-actions connection (sort_allowed world connection) _ refl refl h.actions);
      restricted = h.restricted;
    }

    pub granted_connections-IsShared :
        All IsShared (granted_connections world directory query connections)
    unfolding granted_connections
    granted_connections-IsShared = All-map IsShared (sort_allowed world) _ (
        All-mono IsShared _ sort_allowed-IsShared
          (merge_granted-all (shared_rows world directory query) [] shared_rows-all tt))
