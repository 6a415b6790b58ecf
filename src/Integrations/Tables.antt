-- ===== src/Integrations/Tables.antt =====
-- The rows of the applications and of the bindings, and what the statements do to a row.
use ai_base.Common.{
  ℕ, String, List, Bool, true, false, not, ◌&&◌, ◌||◌, Option, none, some, ◌===◌, any, any_pair,
  map, find, if◌then◌else◌,
}
use ai_base.Common.Attempt.{Attempt, returned, failed}
use ai_base.Json.{Json, str, arr, array}
use ai_base.Integrations.{StoreError, store_error, OauthConfig}

pub record IntegrationApplicationRow : Type 0 where
  pub id : String
  pub platform : String
  pub app_name : String
  pub app_id : String
  pub note : String
  pub action_ids : Json
  pub active : Bool
  pub app_secret_ciphertext : String
  pub created_at : ℕ
  pub updated_at : ℕ

pub data BindingStatus : Type 0 where
  pending : BindingStatus
  connected : BindingStatus
  errored : BindingStatus
  revoked : BindingStatus

pub record EmployeeConnectorBindingRow : Type 0 where
  pub id : String
  pub application_id : Option String
  pub principal_issuer : String
  pub principal_subject : String
  pub principal_email : String
  pub principal_name : String
  pub platform : String
  pub service : String
  pub connection_name : String
  pub status : BindingStatus
  pub display_name : Option String
  pub account_id : Option String
  pub error_message : Option String
  pub own_action_ids : Option Json
  pub connected_at : Option ℕ
  pub updated_at : ℕ

-- The two tables, and the OAuth clients that the connector service was given, the latest first.
pub record Tables : Type 0 where
  pub applications : List IntegrationApplicationRow
  pub bindings : List EmployeeConnectorBindingRow
  pub oauth_clients : List (String × OauthConfig)

pub record IntegrationApplication : Type 0 where
  pub id : String
  pub platform : String
  pub name : String
  pub app_id : String
  pub note : String
  pub action_ids : List String
  pub active : Bool
  pub created_at : String
  pub updated_at : String

pub record ApplicationInput : Type 0 where
  pub platform : Option Json
  pub name : Option Json
  pub app_id : Option Json
  pub note : Option Json
  pub app_secret : Option Json
  pub action_ids : Option Json

pub record ActiveIntegrationCredential : Type 0 where
  pub id : String
  pub platform : String
  pub name : String
  pub app_id : String
  pub app_secret : String
  pub updated_at : String

-- Two rows that the keys of the table do not allow together: one id, one App ID of a platform, or two
-- active applications of a platform.
unfoldable pub clash : IntegrationApplicationRow → IntegrationApplicationRow → Bool
clash a b =
    a.id === b.id
    || (a.platform === b.platform && (a.app_id === b.app_id || (a.active && b.active)))

-- A statement that would leave such rows is refused.
unfoldable pub is_violated : List IntegrationApplicationRow → Bool
is_violated rows = any_pair clash rows

unfoldable pub has_active : String → List IntegrationApplicationRow → Bool
has_active platform rows = any (λ row. row.platform === platform && row.active) rows

unfoldable pub json_ids : List String → Json
json_ids ids = arr (array (map str ids))

unfoldable pub is_live : BindingStatus → Bool
is_live pending = true
is_live connected = true
is_live errored = false
is_live revoked = false

unfoldable pub refers_to : String → EmployeeConnectorBindingRow → Bool
refers_to id binding = elim binding.application_id [ none ↦ false | some a ↦ a === id ]

-- `SET active = FALSE … WHERE platform = $1 AND id <> $2`
unfoldable pub deactivate :
    String → String → ℕ → IntegrationApplicationRow → IntegrationApplicationRow
deactivate platform id now row =
    if row.platform === platform && not (row.id === id)
    then record row { active = false; updated_at = now }
    else row

-- `SET active = TRUE … WHERE id = $1`
unfoldable pub activate : String → ℕ → IntegrationApplicationRow → IntegrationApplicationRow
activate id now row = if row.id === id then record row { active = true; updated_at = now } else row

-- The columns of an update.
pub record ApplicationUpdate : Type 0 where
  pub name : String
  pub app_id : String
  pub note : String
  pub action_ids : List String
  pub ciphertext : Option String

unfoldable pub new_ciphertext : Option String → String → String
new_ciphertext none old = old
new_ciphertext (some text) old = text

-- `UPDATE integration_applications SET … WHERE id = $1`
unfoldable pub update_row :
    String → ApplicationUpdate → ℕ → IntegrationApplicationRow → IntegrationApplicationRow
update_row id update now row =
    if row.id === id
    then record row {
      app_name = update.name;
      app_id = update.app_id;
      note = update.note;
      action_ids = json_ids update.action_ids;
      app_secret_ciphertext = new_ciphertext update.ciphertext row.app_secret_ciphertext;
      updated_at = now;
    }
    else row

unfoldable pub find_row : String → List IntegrationApplicationRow → Option IntegrationApplicationRow
find_row id rows = find (λ row. row.id === id) rows

-- `rows[0]`, or what is thrown without one.
unfoldable pub or_fail {ℓ} : {A : Type ℓ} → Option A → StoreError → Attempt StoreError A
or_fail none missing = failed missing
or_fail (some a) error = returned a

abbrev pub not_found : StoreError
not_found = store_error "应用配置不存在" 404

abbrev pub same_app_id : StoreError
same_app_id = store_error "该平台下已存在相同 App ID" 409
