-- ===== src/Integrations/Tests.antt =====
-- Two applications and a binding, and the theorems about them there.
use ai_base.Common.{
  String, ◌≡◌, ◌≤◌, refl, List, [], ◌∷◌, Bool, true, false, Option, some, none, any, any_pair, find,
  keep, includes, length, All, if◌then◌else◌, sort_by, insert_by,
}
use ai_base.Common.Attempt.{returned, fail_if}
use ai_base.Text.{is_space, trim_start, trim_end, trim, text_length, is_empty, all_chars, join}
use ai_base.Text.Cut.{split_on, fits, fits_one, is_hex}
use ai_base.Json.{str, arr, cons, nil}
use ai_base.Access.Texts.{texts_of, string_array, add_unique, unique_texts}
use ai_base.Integrations.{Outside}
use ai_base.Integrations.Secrets.{
  encryption_key, sealed_text, encrypt_integration_secret, decrypted, decrypt_parts,
  decrypt_integration_secret,
}
use ai_base.Integrations.Catalog.{
  platform_definitions, find_platform, platform_definition, is_uuid, required_uuid, action_option,
  sort_actions, base_scopes, provider_catalog, integration_action_catalog, requested_ids,
  check_catalog, normalize_integration_action_ids, action_ids_max_count,
}
use ai_base.Integrations.Uuid.{canonical_uuid}
use ai_base.Integrations.Tables.{
  IntegrationApplicationRow, IntegrationApplication, EmployeeConnectorBindingRow, Tables, revoked,
  clash, is_violated, is_live, find_row, or_fail,
}
use ai_base.Integrations.Applications.{
  with_secret, application_with_secret, save_oauth_client, sync_service_client,
  sync_application_oauth_client, activate_integration_application,
}
use ai_base.Integrations.Tables.{ApplicationInput}
use ai_base.Integrations.Switched.{IsSwitched, activate_integration_application-IsSwitched}
use ai_base.Integrations.Sealed.{decrypt_integration_secret-encrypt_integration_secret}
use ai_base.Integrations.Checked.{IsOffered, normalize_integration_action_ids-IsOffered}

-- Every secret is "secret", and the connector service takes everything.
abbrev outside : Outside
outside = record {
  sha256 = λ text. 1 ∷ [];
  hex = λ bytes. "01";
  encrypt = λ key nonce text. (2 ∷ [], 2 ∷ []);
  decrypt = λ key nonce body tag. some "secret";
  decode = λ text. if is_empty text then [] else 2 ∷ [];
  encode = λ bytes. "bytes";
  iso = λ time. "2026-01-01T00:00:00.000Z";
  lower = λ text. text;
  sorts_before = λ a b. true;
  get_connector_provider = λ service. returned (record {
    actions =
        record {
          id = "feishu.get_document";
          name = "Get";
          description = "";
          provider_permissions = [];
          catalog_only = false;
        }
        ∷ [];
    oauth_scopes = none;
  });
  list_connector_connections = returned [];
  save_connector_oauth_config = λ service config. none;
  start_connector_oauth_authorization = λ service name ids. returned (str "started");
  delete_connector_connection = λ service name. none;
}

abbrev secret_key : Option String
secret_key = some "0123456789abcdef0123456789abcdef"

abbrev id₁ : String
id₁ = "01234567-89ab-4def-8123-456789abcdef"

abbrev id₂ : String
id₂ = "11234567-89ab-4def-8123-456789abcdef"

abbrev row_of : String → String → Bool → IntegrationApplicationRow
row_of id app_id active = record {
  id = id;
  platform = "feishu";
  app_name = "App";
  app_id = app_id;
  note = "";
  action_ids = arr nil;
  active = active;
  app_secret_ciphertext = "v1.bytes.bytes.bytes";
  created_at = 0;
  updated_at = 0;
}

abbrev binding : EmployeeConnectorBindingRow
binding = record {
  id = "b";
  application_id = some id₁;
  principal_issuer = "https://issuer";
  principal_subject = "usr_1";
  principal_email = "ann@example.com";
  principal_name = "Ann";
  platform = "feishu";
  service = "feishu";
  connection_name = "usr_01";
  status = revoked;
  display_name = none;
  account_id = none;
  error_message = none;
  own_action_ids = none;
  connected_at = none;
  updated_at = 0;
}

abbrev tables : Tables
tables = record {
  applications = row_of id₁ "cli_1" true ∷ row_of id₂ "cli_2" false ∷ [];
  bindings = binding ∷ [];
  oauth_clients = [];
}

abbrev synced : Tables
synced = record tables {
  oauth_clients = ("feishu", record { client_id = "cli_2"; client_secret = "secret" }) ∷ [];
}

activate_integration_application-IsSwitched_example :
    (app : IntegrationApplication) × (after : Tables) × (activate_integration_application outside
        secret_key tables id₂ 5
      ≡ returned (app, after))
    × IsSwitched outside secret_key tables (row_of id₂ "cli_2" false) after
unfolding any any_pair find clash is_violated is_live find_row or_fail with_secret
    application_with_secret save_oauth_client sync_service_client sync_application_oauth_client
    find_platform platform_definitions required_uuid is_uuid fits fits_one is_hex canonical_uuid
    is_empty fail_if decrypt_integration_secret decrypt_parts decrypted encryption_key split_on trim
    trim_start trim_end is_space text_length
activate_integration_application-IsSwitched_example =
    activate_integration_application-IsSwitched outside secret_key tables synced id₂
      (row_of id₂ "cli_2" false) 5 refl refl refl refl

decrypt_integration_secret-encrypt_integration_secret_example :
    decrypt_integration_secret outside secret_key "v1.bytes.bytes.bytes" ≡ returned "secret"
unfolding encrypt_integration_secret sealed_text encryption_key trim trim_start trim_end is_space
    text_length is_empty all_chars join
decrypt_integration_secret-encrypt_integration_secret_example =
    decrypt_integration_secret-encrypt_integration_secret outside secret_key (1 ∷ []) (2 ∷ [])
      "secret" "v1.bytes.bytes.bytes" refl (record { back = refl; plain = refl; given = refl })
      (record { back = refl; plain = refl; given = refl })
      (record { back = refl; plain = refl; given = refl }) refl refl

abbrev given_ids : List String
given_ids = "feishu.get_document" ∷ []

normalize_integration_action_ids-IsOffered_example :
    (length given_ids ≤ action_ids_max_count)
    × All (IsOffered outside secret_key "feishu") given_ids
unfolding normalize_integration_action_ids requested_ids integration_action_catalog
    platform_definition platform_definitions find_platform find provider_catalog sort_actions
    sort_by insert_by action_option base_scopes check_catalog keep any fail_if unique_texts
    string_array texts_of add_unique includes trim trim_start trim_end is_space is_empty
normalize_integration_action_ids-IsOffered_example =
    normalize_integration_action_ids-IsOffered outside secret_key "feishu"
      (some (arr (cons (str " feishu.get_document ") nil))) [] given_ids refl

abbrev new_input : ApplicationInput
new_input = record {
  platform = some (str "feishu");
  name = some (str " New ");
  app_id = some (str "cli_3");
  note = none;
  app_secret = some (str "secret");
  action_ids = some (arr (cons (str "feishu.get_document") nil));
}

abbrev new_row : IntegrationApplicationRow
new_row = record {
  id = "21234567-89ab-4def-8123-456789abcdef";
  platform = "feishu";
  app_name = "New";
  app_id = "cli_3";
  note = "";
  action_ids = arr (cons (str "feishu.get_document") nil);
  active = false;
  app_secret_ciphertext = "v1.bytes.bytes.bytes";
  created_at = 9;
  updated_at = 9;
}
