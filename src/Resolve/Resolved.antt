-- ===== src/Resolve/Resolved.antt =====
-- All connections that are resolved for an employee are authorized.
use mathlib.Core.List.{Memᴰ}
use ai_base.Common.{
  any, keep, ===-false→≢, sym, ℕ, String, ◌≡◌, refl, ap, subst, List, [], ◌∷◌, ◌++◌, Bool, true,
  false, not, ◌||◌, ◌===◌, map, present, All-sort_by, All, All-mono, All-append, All-Memᴰ, All-keep,
  All-map, All-total, All-present-map, IfSome, includes, length, ltb, arith, inl, inr, Bool-cases,
  Option-cases, ===→≡,
}
use ai_base.Common.Attempt.{returned, fail_if-returned, returned-injective, >>=-returned}
use ai_base.Access.Save.{SharedConnectorResource}
use ai_base.Integrations.{ConnectorConnection}
use ai_base.Integrations.Bindings.{configured_connection}
use ai_base.Resolve.{Directory, World, WeComIdentity, no_auth, ResolvedConnection}
use ai_base.Resolve.Visibility.{CacheEntry}
use ai_base.Resolve.Input.{Query}
use ai_base.Resolve.Rows.{
  bound_rows, bound_connection, granted_connections, is_public, public_connection,
}
use ai_base.Resolve.Select.{
  system_only_action_ids, is_visibility_resource, resolve_we_com_visibility_resources, asks_bots,
  visible_actions, visible_connection, resolved_connections,
}
use ai_base.Text.Cut.{trimmed_parts}
use ai_base.Resolve.Listed.{cache-IsLater}
use ai_base.Resolve.Authorized.{All-add_unique, IsShared, granted_connections-IsShared}
use ai_base.Resolve.Allowed.{
  bound_rows-all, IsBound, IsVisibleResource, IsVisible, IsFree, bound_connection-all,
  visible_resources-all,
}

not-true : (b : Bool) → not b ≡ true → b ≡ false
not-true b h = ground arith

apart-All :
    (service : String) (others : List ResolvedConnection)
    → any (λ c. c.service === service) others ≡ false
    → All (λ c. c.service ≡ service → c.access_mode ≡ no_auth) others
unfolding any
apart-All service [] h = tt
apart-All service (c ∷ others) h = (
  λ e. absurd (===-false→≢ c.service service (ground arith) e),
  apart-All service others (ground arith),
)

module _ (world : World) (directory : Directory) where
  module _ (query : Query) (connections : List ConnectorConnection)
      (identities : List WeComIdentity) (now : ℕ) (cache : List CacheEntry)
      (every_one : List ResolvedConnection) where
    visibility-all :
        (found : List SharedConnectorResource × List CacheEntry)
        → resolve_we_com_visibility_resources world directory query.service identities now cache
          ≡ returned found
        → All
            (IsVisibleResource world directory query connections identities now cache every_one)
            found.0
    unfolding resolve_we_com_visibility_resources
    visibility-all found h =
        elim (Bool-cases (not (asks_bots world query.service) || not (ltb 0 (length identities)))) [
          | inl skip ↦
              subst
                (λ f.
                  All
                    (IsVisibleResource world directory query connections identities now cache
                      every_one)
                    f.0)
                (returned-injective (rw (resolve_we_com_visibility_resources, skip) at h)) tt
          | inr asks ↦
              let (valid, h₁) =
                fail_if-returned _ _ _ (rw (resolve_we_com_visibility_resources, asks) at h) in
              let test = is_visibility_resource world directory query.service identities in
              subst
                (λ f.
                  All
                    (IsVisibleResource world directory query connections identities now cache
                      every_one)
                    f.0)
                (returned-injective h₁)
                (visible_resources-all world directory query connections identities now cache
                  every_one _ cache (cache-IsLater world now cache)
                  (All-sort_by _ _ _ (
                    All-keep (λ r. Memᴰ r directory.shared.resources) test _
                      (All-Memᴰ directory.shared.resources))))
        ]

    visible_actions-all :
        (resource : SharedConnectorResource)
        → All
            (λ id.
              Memᴰ id (trimmed_parts resource.action_ids)
              × (includes system_only_action_ids id ≡ false))
            (visible_actions world resource)
    unfolding visible_actions
    visible_actions-all resource = All-sort_by world.unit_before _ _ (
        All-mono
          (λ id.
            Memᴰ id (trimmed_parts resource.action_ids)
            × (not (includes system_only_action_ids id) ≡ true))
          _ (λ id h. (h.0, not-true _ h.1))
          (All-keep (λ id. Memᴰ id (trimmed_parts resource.action_ids))
            (λ id. not (includes system_only_action_ids id)) _
            (All-add_unique (λ id. Memᴰ id (trimmed_parts resource.action_ids)) []
              (trimmed_parts resource.action_ids) tt
              (All-Memᴰ (trimmed_parts resource.action_ids)))))

    visible_connection-all :
        (resources : List SharedConnectorResource)
        → All
            (IsVisibleResource world directory query connections identities now cache every_one)
            resources
        → All
            (λ r.
              IfSome
                (IsVisible world directory query connections identities now cache every_one)
                (visible_connection world connections r))
            resources
    unfolding visible_connection
    visible_connection-all resources all =
        All-mono
          (IsVisibleResource world directory query connections identities now cache every_one)
          resources
          (λ r h.
            elim (Option-cases (configured_connection r.service r.connection_name connections)) [
              | inl n ↦ rw (visible_connection, n) tt
              | inr (current, e) ↦
                  rw (visible_connection, e)
                    (record {
                      resource = r;
                      visible = h;
                      configured = (current, e);
                      same_service = refl;
                      same_name = refl;
                      actions = visible_actions-all r;
                      restricted = refl;
                    })
            ])
          all

    -- The four ways to a connection.
    pub data IsAuthorized (connection : ResolvedConnection) : Type 0 where
      by_binding :
          IsBound world directory query connections identities now cache every_one connection
          → IsAuthorized connection
      by_grant : IsShared world directory query connections connection → IsAuthorized connection
      by_visibility :
          IsVisible world directory query connections identities now cache every_one connection
          → IsAuthorized connection
      by_default :
          IsFree world directory query connections identities now cache every_one connection
          → IsAuthorized connection

    -- The default connection of a service is the only kind of its connections.
    public-IsFree :
        (others : List ResolvedConnection) (frees : List ConnectorConnection)
        (source : ConnectorConnection)
        → every_one ≡ others ++ map (public_connection world) frees
        → Memᴰ source connections
        → is_public world others source ≡ true
        → IsFree world directory query connections identities now cache every_one
            (public_connection world source)
    unfolding is_public public_connection
    public-IsFree others frees source same listed free = record {
      source = source;
      listed = listed;
      configured = ground arith;
      virtual = ground arith;
      open_auth = ===→≡ _ _ (ground arith);
      alone = rw same (
          All-append (λ c. c.service ≡ source.service → c.access_mode ≡ no_auth) others _
            (apart-All source.service others (ground arith))
            (All-map (λ c. c.service ≡ source.service → c.access_mode ≡ no_auth)
              (public_connection world) frees (All-total _ (λ c e. refl) frees)));
      same = refl;
    }

  -- All connections are authorized.
  pub resolved_connections-IsAuthorized :
      (query : Query) (identities : List WeComIdentity) (now : ℕ) (cache : List CacheEntry)
      (found : List ResolvedConnection × List CacheEntry)
      → resolved_connections world directory query identities now cache ≡ returned found
      → (connections : List ConnectorConnection) × (world.outside.list_connector_connections
          ≡ returned connections)
        × All (IsAuthorized query connections identities now cache found.0) found.0
  unfolding resolved_connections
  resolved_connections-IsAuthorized query identities now cache found h =
      let (rows, bound, h₁) = >>=-returned (bound_rows world directory query) _ h in
      let (connections, listed, h₂) = >>=-returned world.outside.list_connector_connections _ h₁ in
      let (visible, seen, h₃) =
        >>=-returned
          (resolve_we_com_visibility_resources world directory query.service identities now cache) _
          h₂ in
      let P = IsAuthorized query connections identities now cache found.0 in
      let bounds =
        All-mono (IsBound world directory query connections identities now cache found.0) _
          (λ c. by_binding)
          (All-present-map _ (bound_connection world directory.accounts.applications connections)
            rows
            (bound_connection-all world directory query connections identities now cache found.0
              rows (bound_rows-all world directory query rows bound))) in
      let grants =
        All-mono (IsShared world directory query connections) _ (λ c. by_grant)
          (granted_connections-IsShared world directory query connections) in
      let bots =
        All-mono (IsVisible world directory query connections identities now cache found.0) _
          (λ c. by_visibility)
          (All-present-map _ (visible_connection world connections) visible.0 (
            visible_connection-all query connections identities now cache found.0 visible.0
              (visibility-all query connections identities now cache found.0 visible seen))) in
      let by_rows =
        present (map (bound_connection world directory.accounts.applications connections) rows) in
      let granted = granted_connections world directory query connections in
      let shared = granted ++ present (map (visible_connection world connections) visible.0) in
      let others = by_rows ++ shared in
      let frees = keep (is_public world others) connections in
      let defaults = All-map P (public_connection world) _ (
        All-mono (λ s. Memᴰ s connections × (is_public world others s ≡ true)) _
          (λ s k. by_default (
            public-IsFree query connections identities now cache found.0 others frees s
              (ap (λ f. f.0) (sym (returned-injective h₃))) k.0 k.1))
          (All-keep (λ s. Memᴰ s connections) (is_public world others) _ (All-Memᴰ connections))) in
      (
        connections,
        listed,
        subst (λ f. All P f.0) (returned-injective h₃)
            (All-append P others _
              (All-append P by_rows shared bounds (All-append P granted _ grants bots)) defaults),
      )
