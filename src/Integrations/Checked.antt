-- ===== src/Integrations/Checked.antt =====
-- The actions that an application may have.
use ai_base.Common.{
  String, ◌≡◌, ◌≤◌, refl, sym, ap, subst, ◌∙◌, List, [], ◌∷◌, Bool, true, false, not, Option, some,
  ◌===◌, any, any-sort_by, keep, map, length, ltb, All, All-mono, arith, inl, inr, Option-cases,
  Bool-cases,
}
use ai_base.Common.Attempt.{
  returned, fail_if-returned, failed-ne-returned, returned-injective, >>=-returned,
}
use ai_base.Json.{Json}
use ai_base.Integrations.{ConnectorAction, ConnectorProvider, Outside}
use ai_base.Integrations.Catalog.{
  PlatformDefinition, platform_definition, IntegrationActionOption, IntegrationActionCatalog,
  action_option, sort_actions, provider_catalog, integration_action_catalog, requested_ids,
  check_catalog, normalize_integration_action_ids, action_ids_max_count,
}

-- A provider has the action, and not only in its catalog.
abbrev pub offers : ConnectorProvider → String → Bool
offers provider id =
    any (λ action. action.id === id) (keep (λ action. not action.catalog_only) provider.actions)

module _ (outside : Outside) (secret_key : Option String) where
  -- The actions are of the platform's service, if it has one, and none are without one.
  pub IsOffered : String → String → Type 0
  IsOffered platform id =
      (definition : PlatformDefinition) × (service : String) × (provider : ConnectorProvider)
      × (platform_definition platform ≡ returned definition)
      × (definition.service ≡ some service)
      × (outside.get_connector_provider service ≡ returned provider)
      × (offers provider id ≡ true)

  sort-any :
      (id : String) (actions : List IntegrationActionOption)
      → any (λ a. a.id === id) (sort_actions outside actions) ≡ any (λ a. a.id === id) actions
  unfolding sort_actions
  sort-any id actions = any-sort_by _ (λ a. a.id === id) actions

  option-any :
      (id : String) (actions : List ConnectorAction)
      → any (λ a. a.id === id) (map action_option actions) ≡ any (λ a. a.id === id) actions
  unfolding any action_option
  option-any id [] = refl
  option-any id (action ∷ rest) = rw (option-any id rest) refl

  catalog-IsOffered :
      (platform id : String) (catalog : IntegrationActionCatalog)
      → integration_action_catalog outside platform ≡ returned catalog
      → any (λ a. a.id === id) catalog.actions ≡ true
      → IsOffered platform id
  unfolding integration_action_catalog provider_catalog any IsOffered
  catalog-IsOffered platform id catalog h k =
      let (definition, known, h₁) = >>=-returned (platform_definition platform) _ h in
      elim (Option-cases definition.service) [
        | inl n ↦
            let e : [] ≡ catalog.actions = ap (λ c. c.actions) (returned-injective (rw n at h₁)) in
            absurd (ground (arith, rw (← e) at k))
        | inr (service, e) ↦
            let (provider, given, h₂) =
              >>=-returned (outside.get_connector_provider service) _ (rw e at h₁) in
            let same : (provider_catalog outside definition provider).actions ≡ catalog.actions =
              ap (λ c. c.actions) (returned-injective h₂) in
            let offered = keep (λ action. not action.catalog_only) provider.actions in
            (
              definition,
              service,
              provider,
              known,
              e,
              given,
              sym (sort-any id (map action_option offered) ∙ option-any id offered) ∙ rw same k,
            )
      ]

  known-ids :
      (ids : List String) (actions : List IntegrationActionOption)
      → ltb 0 (length (keep (λ id. not (any (λ a. a.id === id) actions)) ids)) ≡ false
      → All (λ id. any (λ a. a.id === id) actions ≡ true) ids
  unfolding keep
  known-ids [] actions h = tt
  known-ids (id ∷ ids) actions h = elim (Bool-cases (any (λ a. a.id === id) actions)) [
    | inl known ↦ (known, known-ids ids actions (rw known at h))
    | inr unknown ↦ absurd (ground (arith, rw unknown at h))
  ]

  -- Actions that are accepted for an application are at most 1,000, and each is one that the service of its
  -- platform offers, not only in its catalog.
  pub normalize_integration_action_ids-IsOffered :
      (platform : String) (value : Option Json) (fallback ids : List String)
      → normalize_integration_action_ids outside platform value fallback ≡ returned ids
      → (length ids ≤ action_ids_max_count) × All (IsOffered platform) ids
  unfolding normalize_integration_action_ids check_catalog
  normalize_integration_action_ids-IsOffered platform value fallback ids h =
      elim (Option-cases (requested_ids outside value fallback)) [
        | inl n ↦ absurd (failed-ne-returned _ _ (rw (normalize_integration_action_ids, n) at h))
        | inr (given, e) ↦
            let (short, h₁) =
              fail_if-returned _ _ _ (rw (normalize_integration_action_ids, e) at h) in
            let (catalog, listed, h₂) =
              >>=-returned (integration_action_catalog outside platform) _ h₁ in
            let (full, h₃) = fail_if-returned _ _ _ h₂ in
            let (known, h₄) = fail_if-returned _ _ _ h₃ in
            subst (λ ids. (length ids ≤ action_ids_max_count) × All (IsOffered platform) ids)
              (returned-injective h₄)
              (
                ground arith,
                All-mono (λ id. any (λ a. a.id === id) catalog.actions ≡ true) given
                    (λ id. catalog-IsOffered platform id catalog listed)
                    (known-ids given catalog.actions known),
              )
      ]
