-- ===== src/Resolve/Allowed.antt =====
-- Every connection that is resolved is one that the employee is authorized for, and so is the selected one.
use mathlib.Core.List.{Memᴰ}
use ai_base.Common.{
  any, ◌&&◌, ===→≡, Option, false, ℕ, String, ◌≡◌, refl, subst, ◌⊎◌, List, [], ◌∷◌, true, false,
  some, keep, sort_by, All-sort_by, All, All-mono, All-Memᴰ, All-keep, IfSome, includes, arith, inl,
  inr, Bool-cases, Option-cases, List-cases,
}
use ai_base.Common.Attempt.{returned, fail_if-returned, returned-injective}
use ai_base.Text.Cut.{trimmed_parts}
use ai_base.Access.Save.{is_manual, SharedConnectorResource}
use ai_base.Resolve.Listed.{IsListing, IsListed, IsLater, read_we_com_visible_user_id_hashes-IsRead}
use ai_base.Integrations.{ConnectorConnection}
use ai_base.Integrations.Tables.{EmployeeConnectorBindingRow}
use ai_base.Integrations.Bindings.{is_connected, is_owned, configured_connection}
use ai_base.Resolve.{Directory, World, WeComIdentity, no_auth, ResolvedConnection}
use ai_base.Resolve.Visibility.{CacheEntry, read_we_com_visible_user_id_hashes}
use ai_base.Resolve.Input.{Query}
use ai_base.Resolve.Rows.{
  is_asked, is_personal, is_configured, same_text, binding_actions, is_bound, is_bound_by_email,
  binding_before, bindings_by_email, bound_rows, bound_connection, public_connection,
}
use ai_base.Resolve.Select.{
  system_only_action_ids, resource_hash, is_visibility_resource, sees, visible_resources,
}

module _ (world : World) (directory : Directory) (query : Query) where
  -- A connected binding of the subject, or of the email.
  pub IsBoundRow : EmployeeConnectorBindingRow → Type 0
  IsBoundRow row =
      Memᴰ row directory.accounts.bindings
      × (is_connected row.status ≡ true)
      × (row.principal_issuer ≡ query.issuer)
      × ((row.principal_subject ≡ query.subject)
          ⊎ ((email : String) × (query.email ≡ some email)
              × (world.outside.lower row.principal_email ≡ email)))

  bound-IsBoundRow :
      (row : EmployeeConnectorBindingRow)
      → Memᴰ row directory.accounts.bindings
      → is_bound world query row ≡ true
      → IsBoundRow row
  unfolding is_bound is_owned IsBoundRow
  bound-IsBoundRow row kept h =
      (kept, ground arith, ===→≡ _ _ (ground arith), inl (===→≡ _ _ (ground arith)))

  bound_by_email-IsBoundRow :
      (email : String) (row : EmployeeConnectorBindingRow)
      → query.email ≡ some email
      → Memᴰ row directory.accounts.bindings
      → is_bound_by_email world query email row ≡ true
      → IsBoundRow row
  unfolding is_bound_by_email IsBoundRow
  bound_by_email-IsBoundRow email row given kept h =
      (kept, ground arith, ===→≡ _ _ (ground arith), inr (email, given, ===→≡ _ _ (ground arith)))

  bindings_by_email-all :
      (email : String) (rows : List EmployeeConnectorBindingRow)
      → query.email ≡ some email
      → bindings_by_email world directory query email ≡ returned rows
      → All IsBoundRow rows
  unfolding bindings_by_email IsBoundRow
  bindings_by_email-all email rows given h =
      let (agreed, h₁) = fail_if-returned _ _ _ h in
      let test = is_bound_by_email world query email in
      subst (All IsBoundRow) (returned-injective h₁) (
        All-sort_by (binding_before world) IsBoundRow _ (
          All-mono (λ row. Memᴰ row directory.accounts.bindings × (test row ≡ true))
            (keep test directory.accounts.bindings)
            (λ row k. bound_by_email-IsBoundRow email row given k.0 k.1)
            (All-keep _ test _ (All-Memᴰ directory.accounts.bindings))))

  pub bound_rows-all :
      (rows : List EmployeeConnectorBindingRow)
      → bound_rows world directory query ≡ returned rows
      → All IsBoundRow rows
  unfolding bound_rows IsBoundRow
  bound_rows-all rows h =
      let test = is_bound world query in
      let own = sort_by (binding_before world) (keep test directory.accounts.bindings) in
      let all : All IsBoundRow own = All-sort_by (binding_before world) IsBoundRow _ (
        All-mono (λ row. Memᴰ row directory.accounts.bindings × (test row ≡ true))
          (keep test directory.accounts.bindings) (λ row k. bound-IsBoundRow row k.0 k.1)
          (All-keep _ test _ (All-Memᴰ directory.accounts.bindings))) in
      elim (List-cases own) [
        | inr (row, rest, e) ↦
            subst (All IsBoundRow) (returned-injective (rw (bound_rows, e) at h)) (rw e at all)
        | inl n ↦ elim (Option-cases query.email) [
          | inl none_given ↦
              subst (All IsBoundRow) (returned-injective (rw (bound_rows, n, none_given) at h)) tt
          | inr (email, e) ↦ bindings_by_email-all email rows e (rw (bound_rows, n, e) at h)
        ]
      ]

  module _ (connections : List ConnectorConnection) (identities : List WeComIdentity) (now : ℕ)
      (cache : List CacheEntry) (every : List ResolvedConnection) where
    -- The connection of a binding.
    pub record IsBound (connection : ResolvedConnection) : Type 0 where
      pub row : EmployeeConnectorBindingRow
      pub bound : IsBoundRow row
      pub configured :
          (current : ConnectorConnection) × (configured_connection connection.service
              connection.connection_name connections
            ≡ some current)
      pub same_service : connection.service ≡ row.service
      pub same_name : connection.connection_name ≡ row.connection_name
      pub actions :
          connection.allowed_action_ids ≡ binding_actions directory.accounts.applications row
      pub restricted : connection.action_restricted ≡ true

    -- An enabled bot of a usable organization of the employee, that no employee has as a personal one,
    -- whose list has the employee's hash in the organization.
    pub record IsVisibleResource (resource : SharedConnectorResource) : Type 0 where
      pub kept : Memᴰ resource directory.shared.resources
      pub usable : resource.enabled ≡ true
      pub bot : resource.service ≡ "wecom_bot"
      pub by_visibility : is_manual resource.authorization_mode ≡ false
      pub asked : is_asked query.service resource.service ≡ true
      pub shared : is_personal directory.accounts.bindings resource ≡ false
      pub configured :
          any
            (λ organization.
              is_configured organization
              && same_text resource.wecom_organization_id organization.id)
            directory.organizations
          ≡ true
      pub hash : String
      pub own : resource_hash identities resource ≡ some hash
      pub listed : IsListed world now cache resource.connection_name hash

    -- The connection of such a bot, without the actions that are the system's.
    pub record IsVisible (connection : ResolvedConnection) : Type 0 where
      pub resource : SharedConnectorResource
      pub visible : IsVisibleResource resource
      pub configured :
          (current : ConnectorConnection) × (configured_connection connection.service
              connection.connection_name connections
            ≡ some current)
      pub same_service : connection.service ≡ resource.service
      pub same_name : connection.connection_name ≡ resource.connection_name
      pub actions :
          All
            (λ id.
              Memᴰ id (trimmed_parts resource.action_ids)
              × (includes system_only_action_ids id ≡ false))
            connection.allowed_action_ids
      pub restricted : connection.action_restricted ≡ true

    -- The default connection of a service that needs no authentication, where all connections of the service
    -- are such.
    pub record IsFree (connection : ResolvedConnection) : Type 0 where
      pub source : ConnectorConnection
      pub listed : Memᴰ source connections
      pub configured : source.configured ≡ true
      pub virtual : source.virtual_connection ≡ true
      pub open_auth : source.auth_type ≡ "no_auth"
      pub alone : All (λ c. c.service ≡ source.service → c.access_mode ≡ no_auth) every
      pub same : connection ≡ public_connection world source

    pub bound_connection-all :
        (rows : List EmployeeConnectorBindingRow)
        → All IsBoundRow rows
        → All
            (λ row.
              IfSome IsBound
                (bound_connection world directory.accounts.applications connections row))
            rows
    unfolding bound_connection
    bound_connection-all rows all =
        All-mono IsBoundRow rows
          (λ row h.
            elim (Option-cases
              (configured_connection row.service row.connection_name connections)) [
                | inl n ↦ rw (bound_connection, n) tt
                | inr (current, e) ↦
                    rw (bound_connection, e)
                      (record {
                        row = row;
                        bound = h;
                        configured = (current, e);
                        same_service = refl;
                        same_name = refl;
                        actions = refl;
                        restricted = refl;
                      })
              ])
          all

    seen-IsVisibleResource :
        (resource : SharedConnectorResource) (hashes : Option (List String))
        → Memᴰ resource directory.shared.resources
        → is_visibility_resource world directory query.service identities resource ≡ true
        → ((found : List String)
            → hashes ≡ some found
            → IsListing world now cache resource.connection_name found)
        → sees world (resource_hash identities resource) hashes ≡ true
        → IsVisibleResource resource
    unfolding is_visibility_resource sees
    seen-IsVisibleResource resource hashes kept fit read seen =
        elim (Option-cases (resource_hash identities resource)) [
          | inl n ↦ let wrong : false ≡ true = rw (n, sees) at seen in cc
          | inr (hash, own) ↦ elim (Option-cases hashes) [
            | inl n ↦ let wrong : false ≡ true = rw (own, n, sees) at seen in cc
            | inr (found, e) ↦ record {
              kept = kept;
              usable = ground arith;
              bot = ===→≡ _ _ (ground arith);
              by_visibility = ground arith;
              asked = ground arith;
              shared = ground arith;
              configured = ground arith;
              hash = hash;
              own = own;
              listed = (found, read found e, rw (own, e, sees) at seen);
            }
          ]
        ]

    pub visible_resources-all :
        (resources : List SharedConnectorResource) (later : List CacheEntry)
        → IsLater world now cache later
        → All
            (λ r.
              Memᴰ r directory.shared.resources
              × (is_visibility_resource world directory query.service identities r ≡ true))
            resources
        → All IsVisibleResource (visible_resources world now identities resources later).0
    unfolding visible_resources
    visible_resources-all [] later from_cache all = tt
    visible_resources-all (resource ∷ resources) later from_cache ((kept, fit), all) =
        let read = read_we_com_visible_user_id_hashes world now later resource.connection_name in
        let (listing, after) =
          read_we_com_visible_user_id_hashes-IsRead world now cache later resource.connection_name
            from_cache in
        let rest = visible_resources-all resources read.1 after all in
        elim (Bool-cases (sees world (resource_hash identities resource) read.0)) [
          | inl seen ↦ rw seen (seen-IsVisibleResource resource read.0 kept fit listing seen, rest)
          | inr unseen ↦ rw unseen rest
        ]
