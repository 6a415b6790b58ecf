-- ===== src/Integrations/Applications.antt =====
-- The table of applications: create, update, delete and activate, and the credential in use.
use ai_base.Common.{
  ℕ, String, List, ◌∷◌, not, ◌&&◌, Option, none, some, ◌===◌, ◌<>◌, any, keep, map, find,
}
use ai_base.Common.Attempt.{Attempt, returned, failed, fail_if, ◌>>=◌}
use ai_base.Text.{is_empty}
use ai_base.Json.{str}
use ai_base.Integrations.{StoreError, store_error, other_error, OauthConfig, Outside}
use ai_base.Integrations.Secrets.{encrypt_integration_secret, decrypt_integration_secret}
use ai_base.Integrations.Catalog.{
  BindingMode, oauth2, find_platform, platform_definition, normalize_platform, required_value,
  required_secret, optional_value, optional_secret, stored_action_ids, required_uuid,
  normalize_integration_action_ids, app_id_max_length, app_name_max_length, app_note_max_length,
}
use ai_base.Integrations.Uuid.{canonical_uuid}
use ai_base.Integrations.Tables.{
  IntegrationApplicationRow, Tables, IntegrationApplication, ApplicationInput,
  ActiveIntegrationCredential, ApplicationUpdate, is_violated, has_active, json_ids, is_live,
  refers_to, deactivate, activate, update_row, find_row, or_fail, not_found, same_app_id,
}

module _ (outside : Outside) (secret_key : Option String) where
  unfoldable pub serialize_application : IntegrationApplicationRow → IntegrationApplication
  serialize_application row = record {
    id = row.id;
    platform = row.platform;
    name = row.app_name;
    app_id = row.app_id;
    note = row.note;
    action_ids = stored_action_ids row.action_ids;
    active = row.active;
    created_at = outside.iso row.created_at;
    updated_at = outside.iso row.updated_at;
  }

  -- A statement on the applications, with the error of a key that it would break.
  unfoldable pub write_applications :
      Tables → List IntegrationApplicationRow → StoreError → Attempt StoreError Tables
  write_applications tables rows error =
      fail_if (is_violated rows) error (returned (record tables { applications = rows }))

  unfoldable pub insert_application :
      Tables → IntegrationApplicationRow → Attempt StoreError (IntegrationApplication × Tables)
  insert_application tables row =
      write_applications tables (row ∷ tables.applications) same_app_id >>= λ written.
      returned (serialize_application row, written)

  -- The row of a new application; `id` and `nonce` are random.
  unfoldable pub new_application :
      Tables → ApplicationInput → String → List ℕ → ℕ → Attempt StoreError IntegrationApplicationRow
  new_application tables input id nonce now = do
    platform ← normalize_platform input.platform
    name ← required_value input.name "应用名称" app_name_max_length
    app_id ← required_value input.app_id "App ID" app_id_max_length
    note ← optional_value input.note "备注" app_note_max_length
    app_secret ← required_secret input.app_secret
    definition ← platform_definition platform
    action_ids ←
        normalize_integration_action_ids outside platform input.action_ids
          definition.default_action_ids
    ciphertext ← encrypt_integration_secret outside secret_key nonce app_secret
    returned (record {
      id = id;
      platform = platform;
      app_name = name;
      app_id = app_id;
      note = note;
      action_ids = json_ids action_ids;
      active = not (has_active platform tables.applications);
      app_secret_ciphertext = ciphertext;
      created_at = now;
      updated_at = now;
    })

  unfoldable pub create_integration_application :
      Tables
      → ApplicationInput
      → String
      → List ℕ
      → ℕ
      → Attempt StoreError (IntegrationApplication × Tables)
  create_integration_application tables input id nonce now =
      new_application tables input id nonce now >>= insert_application tables

  -- The ciphertext of a new secret, if there is one.
  unfoldable pub encrypt_optional : List ℕ → Option String → Attempt StoreError (Option String)
  encrypt_optional nonce none = returned none
  encrypt_optional nonce (some secret) =
      encrypt_integration_secret outside secret_key nonce secret >>= λ text. returned (some text)

  unfoldable pub apply_update :
      Tables → String → ApplicationUpdate → ℕ → Attempt StoreError (IntegrationApplication × Tables)
  apply_update tables id update now = do
    written ←
        write_applications tables (map (update_row id update now) tables.applications) same_app_id
    row ← or_fail (find_row id written.applications) not_found
    returned (serialize_application row, written)

  -- The id and the columns of an update.
  unfoldable pub prepare_update :
      Tables → String → ApplicationInput → List ℕ → Attempt StoreError (String × ApplicationUpdate)
  prepare_update tables id input nonce = do
    given ← required_uuid id
    let safe_id = canonical_uuid given
    current ← or_fail (find_row safe_id tables.applications) not_found
    name ← required_value input.name "应用名称" app_name_max_length
    app_id ← required_value input.app_id "App ID" app_id_max_length
    note ← optional_value input.note "备注" app_note_max_length
    app_secret ← optional_secret input.app_secret
    action_ids ←
        normalize_integration_action_ids outside current.platform input.action_ids
          (stored_action_ids current.action_ids)
    ciphertext ← encrypt_optional nonce app_secret
    returned (
      safe_id,
      record {
        name = name;
        app_id = app_id;
        note = note;
        action_ids = action_ids;
        ciphertext = ciphertext;
      },
    )

  unfoldable pub update_integration_application :
      Tables
      → String
      → ApplicationInput
      → List ℕ
      → ℕ
      → Attempt StoreError (IntegrationApplication × Tables)
  update_integration_application tables id input nonce now =
      prepare_update tables id input nonce >>= λ update. apply_update tables update.0 update.1 now

  -- `DELETE … WHERE id = $1`: the foreign key of the bindings, of a revoked one too, refuses it for a row
  -- that is there, with the error 23503 that becomes this one.
  unfoldable pub delete_integration_application : Tables → String → Attempt StoreError Tables
  delete_integration_application tables id = do
    given ← required_uuid id
    let safe_id = canonical_uuid given
    fail_if
        (any (λ row. row.id === safe_id) tables.applications
          && any (refers_to safe_id) tables.bindings)
        (store_error "该应用仍有员工账号绑定，不能删除" 409)
        (fail_if (not (any (λ row. row.id === safe_id) tables.applications)) not_found (
          returned (record tables {
            applications = keep (λ row. not (row.id === safe_id)) tables.applications;
          })))

  -- The row of a query, if it has a ciphertext.
  unfoldable pub with_secret :
      Option IntegrationApplicationRow → StoreError → Attempt StoreError IntegrationApplicationRow
  with_secret found missing = do
    row ← or_fail found missing
    fail_if (is_empty row.app_secret_ciphertext) missing (returned row)

  unfoldable pub application_with_secret :
      Tables → String → Attempt StoreError IntegrationApplicationRow
  application_with_secret tables id = do
    given ← required_uuid id
    with_secret (find_row (canonical_uuid given) tables.applications) not_found

  unfoldable pub get_active_integration_credential :
      Tables → String → Attempt StoreError ActiveIntegrationCredential
  get_active_integration_credential tables platform = do
    safe_platform ← normalize_platform (some (str platform))
    definition ← platform_definition safe_platform
    row ←
        with_secret (find (λ row. row.platform === safe_platform && row.active) tables.applications)
          (store_error (definition.display_name <> "尚未启用应用配置") 404)
    app_secret ← decrypt_integration_secret outside secret_key row.app_secret_ciphertext
    returned (record {
      id = row.id;
      platform = row.platform;
      name = row.app_name;
      app_id = row.app_id;
      app_secret = app_secret;
      updated_at = outside.iso row.updated_at;
    })

  -- The save of the OAuth client of a service.
  unfoldable pub save_oauth_client : Tables → String → OauthConfig → Attempt StoreError Tables
  save_oauth_client tables service config =
      elim (outside.save_connector_oauth_config service config) [
        | none ↦
            returned (record tables { oauth_clients = (service, config) ∷ tables.oauth_clients })
        | some error ↦ failed error
      ]

  unfoldable pub sync_service_client :
      Tables → IntegrationApplicationRow → BindingMode → Option String → Attempt StoreError Tables
  sync_service_client tables row oauth2 (some service) =
      decrypt_integration_secret outside secret_key row.app_secret_ciphertext >>= λ secret.
      save_oauth_client tables service (record { client_id = row.app_id; client_secret = secret })
  sync_service_client tables row mode service = returned tables

  unfoldable pub sync_application_oauth_client :
      Tables → IntegrationApplicationRow → Attempt StoreError Tables
  sync_application_oauth_client tables row = elim (find_platform row.platform) [
    | none ↦ returned tables
    | some definition ↦ sync_service_client tables row definition.binding_mode definition.service
  ]

  -- The transaction.
  unfoldable pub switch_active :
      Tables → IntegrationApplicationRow → ℕ → Attempt StoreError (IntegrationApplication × Tables)
  switch_active tables row now = do
    cleared ←
        write_applications tables (map (deactivate row.platform row.id now) tables.applications)
          (other_error "duplicate key")
    set ←
        write_applications cleared (map (activate row.id now) cleared.applications)
          (other_error "duplicate key")
    found ← or_fail (find_row row.id set.applications) (other_error "no row")
    returned (serialize_application found, set)

  -- After an error the tables are as before, but for an OAuth client that was saved.
  unfoldable pub activate_integration_application :
      Tables → String → ℕ → Attempt StoreError (IntegrationApplication × Tables)
  activate_integration_application tables id now = do
    row ← application_with_secret tables id
    synced ←
        fail_if
          (not row.active
            && any (λ binding. binding.platform === row.platform && is_live binding.status)
                tables.bindings)
          (store_error "该平台已有员工账号绑定，不能切换启用应用" 409) (sync_application_oauth_client tables row)
    switch_active synced row now
