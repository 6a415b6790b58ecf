-- ===== src/Integrations/Synced.antt =====
-- What the OAuth client and the query of an application leave as it is.
use ai_base.Common.{
  String, ◌≡◌, refl, sym, ap, subst, ◌∙◌, Option, none, some, inl, inr, Option-cases,
}
use ai_base.Common.Attempt.{
  returned, fail_if-returned, failed-ne-returned, returned-injective, >>=-returned,
}
use ai_base.Integrations.{StoreError, OauthConfig, Outside}
use ai_base.Integrations.Secrets.{decrypt_integration_secret}
use ai_base.Integrations.Catalog.{BindingMode, oauth2, unsupported, find_platform, required_uuid}
use ai_base.Integrations.Uuid.{canonical_uuid}
use ai_base.Integrations.Tables.{IntegrationApplicationRow, Tables, find_row, or_fail, not_found}
use ai_base.Integrations.Applications.{
  with_secret, application_with_secret, save_oauth_client, sync_service_client,
  sync_application_oauth_client,
}
use ai_base.Integrations.Consistent.{find_row-id}

pub or_fail-returned {ℓ} :
    {A : Type ℓ} (o : Option A) (error : StoreError) (a : A)
    → or_fail o error ≡ returned a
    → o ≡ some a
unfolding or_fail
or_fail-returned none error a h = cc
or_fail-returned (some b) error a h = ap (λ x. some x) (returned-injective h)

module _ (outside : Outside) (secret_key : Option String) where
  -- An OAuth client changes neither table.
  abbrev pub SameRows : Tables → Tables → Type 0
  SameRows before after =
      (after.applications ≡ before.applications) × (after.bindings ≡ before.bindings)

  save_oauth_client-SameRows :
      (tables after : Tables) (service : String) (config : OauthConfig)
      → save_oauth_client outside secret_key tables service config ≡ returned after
      → SameRows tables after
  unfolding save_oauth_client
  save_oauth_client-SameRows tables after service config h =
      elim (Option-cases (outside.save_connector_oauth_config service config)) [
        | inl n ↦
            let e = returned-injective (rw (save_oauth_client, n) at h) in
            (rw (← e) refl, rw (← e) refl)
        | inr (error, e) ↦ absurd (failed-ne-returned _ _ (rw (save_oauth_client, e) at h))
      ]

  sync_service_client-SameRows :
      (tables after : Tables) (row : IntegrationApplicationRow) (mode : BindingMode)
      (service : Option String)
      → sync_service_client outside secret_key tables row mode service ≡ returned after
      → SameRows tables after
  unfolding sync_service_client
  sync_service_client-SameRows tables after row oauth2 (some service) h =
      let (secret, read, h₁) =
        >>=-returned (decrypt_integration_secret outside secret_key row.app_secret_ciphertext) _
          h in
      save_oauth_client-SameRows tables after service _ h₁
  sync_service_client-SameRows tables after row oauth2 none h =
      let e = returned-injective h in (rw (← e) refl, rw (← e) refl)
  sync_service_client-SameRows tables after row unsupported service h =
      let e = returned-injective h in (rw (← e) refl, rw (← e) refl)

  pub sync_application_oauth_client-SameRows :
      (tables after : Tables) (row : IntegrationApplicationRow)
      → sync_application_oauth_client outside secret_key tables row ≡ returned after
      → SameRows tables after
  unfolding sync_application_oauth_client
  sync_application_oauth_client-SameRows tables after row h =
      elim (Option-cases (find_platform row.platform)) [
        | inl n ↦
            let e = returned-injective (rw (sync_application_oauth_client, n) at h) in
            (rw (← e) refl, rw (← e) refl)
        | inr (definition, e) ↦
            sync_service_client-SameRows tables after row _ _
              (rw (sync_application_oauth_client, e) at h)
      ]

  pub application_with_secret-found :
      (tables : Tables) (id : String) (row : IntegrationApplicationRow)
      → application_with_secret outside secret_key tables id ≡ returned row
      → find_row row.id tables.applications ≡ some row
  unfolding application_with_secret with_secret
  application_with_secret-found tables id row h =
      let (given, valid, h₁) = >>=-returned (required_uuid id) _ h in
      let found = find_row (canonical_uuid given) tables.applications in
      let (read, present, h₂) = >>=-returned (or_fail found not_found) _ h₁ in
      let (full, h₃) = fail_if-returned _ _ _ h₂ in
      let eq =
        or_fail-returned found not_found read present ∙ ap (λ r. some r) (returned-injective h₃) in
      subst (λ i. find_row i tables.applications ≡ some row) (sym (find_row-id _ _ row eq)) eq
