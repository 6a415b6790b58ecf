-- ===== src/Resolve/Selected.antt =====
-- The selected connection is authorized, and answers the request.
use ai_base.Common.{
  ℕ, String, ◌≡◌, ap, subst, ◌∙◌, List, [], ◌∷◌, Bool, true, Option, none, some, ◌===◌, All,
  All-mono, All-keep, IfSome, inl, inr, Option-cases, ===→≡,
}
use ai_base.Common.Attempt.{returned, fail_if-returned, returned-injective, >>=-returned}
use ai_base.Integrations.{StoreError, ConnectorConnection}
use ai_base.Resolve.{Directory, World, WeComIdentity, ResolvedConnection}
use ai_base.Resolve.Visibility.{CacheEntry}
use ai_base.Resolve.Input.{Query, ResolutionInput, read_query, we_com_identities}
use ai_base.Resolve.Select.{
  resolved_connections, allows, narrow, only, select_connection, conclude, Resolution, selected,
  every, resolve_employee_connector_bindings,
}
use ai_base.Resolve.Resolved.{IsAuthorized, resolved_connections-IsAuthorized}

module _ (world : World) (directory : Directory) where
  -- What a test leaves passes it.
  narrow-all :
      (P : ResolvedConnection → Type 0) (value : Option String)
      (test : String → ResolvedConnection → Bool) (missing : StoreError)
      (candidates left : List ResolvedConnection)
      → narrow world value test missing candidates ≡ returned left
      → All P candidates
      → All (λ c. P c × IfSome (λ v. test v c ≡ true) value) left
  unfolding narrow
  narrow-all P none test missing candidates left h all =
      subst (All (λ c. P c × Unit {0})) (returned-injective h)
        (All-mono P candidates (λ c p. (p, tt)) all)
  narrow-all P (some v) test missing candidates left h all =
      let (found, h₁) = fail_if-returned _ _ _ h in
      subst (All (λ c. P c × (test v c ≡ true))) (returned-injective h₁)
        (All-keep P (test v) candidates all)

  only-all :
      (P : ResolvedConnection → Type 0) (candidates : List ResolvedConnection)
      (c : ResolvedConnection)
      → only world candidates ≡ returned c
      → All P candidates
      → P c
  unfolding only
  only-all P [] c h all = cc
  only-all P (candidate ∷ []) c h (p, all) = subst P (returned-injective h) p
  only-all P (candidate ∷ other ∷ candidates) c h all = cc

  same-name :
      (c : ResolvedConnection) (value : Option String)
      → IfSome (λ name. (c.connection_name === name) ≡ true) value
      → IfSome (λ name. c.connection_name ≡ name) value
  same-name c none h = tt
  same-name c (some name) h = ===→≡ _ _ h

  every-ne-selected :
      (all : List ResolvedConnection) (c : ResolvedConnection)
      → ◌≡◌ {A = Resolution world} (every all) (selected c)
      → ⊥
  every-ne-selected all c h = cc

  selected-injective :
      {c c' : ResolvedConnection} → ◌≡◌ {A = Resolution world} (selected c) (selected c') → c ≡ c'
  selected-injective h = cc

  -- The connection is of the service, has the requested name and allows the action, where they are given.
  pub Answers : Query → String → ResolvedConnection → Type 0
  Answers query service connection =
      (connection.service ≡ service)
      × IfSome (λ name. connection.connection_name ≡ name) query.requested_connection_name
      × IfSome (λ id. allows world id connection ≡ true) query.action_id

  select-Answers :
      (P : ResolvedConnection → Type 0) (query : Query) (service : String)
      (candidates : List ResolvedConnection) (c : ResolvedConnection)
      → select_connection world query service candidates ≡ returned c
      → All P candidates
      → P c × Answers query service c
  unfolding select_connection Answers
  select-Answers P query service candidates c h all =
      let (of_service, e₁, h₁) = >>=-returned (narrow world (some service) _ _ candidates) _ h in
      let (named, e₂, h₂) =
        >>=-returned (narrow world query.requested_connection_name _ _ of_service) _ h₁ in
      let (allowed, e₃, h₃) =
        >>=-returned (narrow world query.action_id (allows world) _ named) _ h₂ in
      let (((p, s), n), a) = only-all _ allowed c h₃ (
        narrow-all _ _ _ _ named allowed e₃ (
          narrow-all _ _ _ _ of_service named e₂
            (narrow-all P (some service) _ _ candidates of_service e₁ all))) in
      (p, (===→≡ _ _ s, same-name c query.requested_connection_name n, a))

  conclude-Answers :
      (P : ResolvedConnection → Type 0) (query : Query) (candidates : List ResolvedConnection)
      (c : ResolvedConnection)
      → conclude world query candidates ≡ returned (selected c)
      → All P candidates
      → (service : String) × (query.service ≡ some service) × P c × Answers query service c
  unfolding conclude
  conclude-Answers P query candidates c h all = elim (Option-cases query.service) [
    | inl n ↦ absurd (every-ne-selected _ c (returned-injective (rw (conclude, n) at h)))
    | inr (service, e) ↦
        let (picked, e₁, h₁) =
          >>=-returned (select_connection world query service candidates) _
            (rw (conclude, e) at h) in
        let same : picked ≡ c = selected-injective (returned-injective h₁) in
        let (p, answers) = select-Answers P query service candidates picked e₁ all in
        (service, e, rw same at p, rw same at answers)
  ]

  -- A selection that returns gives a connection of the asked service, of the requested name, if there is one,
  -- that allows the asked action, if there is one, and that the tables authorize the employee for: by a
  -- connected binding of the subject or the email that the connector service has, by live grants for each
  -- of its actions, by a bot of the employee's organization whose list, read now or in a cache entry that
  -- has not expired, has the employee's hash, or as the default connection of a service without
  -- authentication, if no connection to the service that is resolved for the employee is of another kind.
  pub resolve_employee_connector_bindings-IsAuthorized :
      (input : ResolutionInput) (now : ℕ) (cache after : List CacheEntry)
      (connection : ResolvedConnection)
      → resolve_employee_connector_bindings world directory input now cache
        ≡ returned (selected connection, after)
      → (query : Query) × (identities : List WeComIdentity) × (connections : List
          ConnectorConnection)
        × (service : String) × (read_query world.outside input ≡ returned query)
        × (we_com_identities world.outside directory query input.wecom_user_id_hash
            ≡ returned identities)
        × (world.outside.list_connector_connections ≡ returned connections)
        × (query.service ≡ some service)
        × ((found : List ResolvedConnection × List CacheEntry) × (resolved_connections world
                directory query identities now cache
              ≡ returned found)
            × IsAuthorized world directory query connections identities now cache found.0
                connection)
        × Answers query service connection
  unfolding resolve_employee_connector_bindings
  resolve_employee_connector_bindings-IsAuthorized input now cache after connection h =
      let (query, asked, h₁) = >>=-returned (read_query world.outside input) _ h in
      let (identities, known, h₂) =
        >>=-returned (we_com_identities world.outside directory query input.wecom_user_id_hash) _
          h₁ in
      let (found, resolved, h₃) =
        >>=-returned (resolved_connections world directory query identities now cache) _ h₂ in
      let (resolution, chosen, h₄) = >>=-returned (conclude world query found.0) _ h₃ in
      let (connections, listed, all) =
        resolved_connections-IsAuthorized world directory query identities now cache found
          resolved in
      let eq : resolution ≡ selected connection = ap (λ p. p.0) (returned-injective h₄) in
      let (service, e, allowed, answers) =
        conclude-Answers
          (IsAuthorized world directory query connections identities now cache found.0) query
          found.0 connection (chosen ∙ ap (λ r. returned r) eq) all in
      (
        query,
        identities,
        connections,
        service,
        asked,
        known,
        listed,
        e,
        (found, resolved, allowed),
        answers,
      )
