-- ===== src/Integrations/Created.antt =====
-- What creating an application does.
use ai_base.Common.{Option, ℕ, String, ◌≡◌, List, ◌∷◌, Bool, true, false, not, ◌&&◌, ◌===◌, any}
use ai_base.Common.Attempt.{returned}
use ai_base.Integrations.{Outside}
use ai_base.Integrations.Secrets.{encrypt_integration_secret}
use ai_base.Integrations.Catalog.{
  normalize_platform, required_value, required_secret, app_id_max_length, app_name_max_length,
}
use ai_base.Integrations.Tables.{
  IntegrationApplicationRow, Tables, ApplicationInput, is_violated, has_active,
}

-- An application of the platform has the App ID.
abbrev pub has_app_id : String → String → List IntegrationApplicationRow → Bool
has_app_id platform app_id rows =
    any (λ row. row.platform === platform && row.app_id === app_id) rows

module _ (outside : Outside) (secret_key : Option String) where
  -- A new row has the values of the input and the given id, the sealed secret, and is active exactly if
  -- none of its platform is.
  pub record IsNew (tables : Tables) (input : ApplicationInput) (id : String) (nonce : List ℕ)
      (row : IntegrationApplicationRow) : Type 0 where
    pub same_id : row.id ≡ id
    pub platform : normalize_platform input.platform ≡ returned row.platform
    pub name : required_value input.name "应用名称" app_name_max_length ≡ returned row.app_name
    pub app_id : required_value input.app_id "App ID" app_id_max_length ≡ returned row.app_id
    pub secret :
        (secret : String) × (required_secret input.app_secret ≡ returned secret)
        × (encrypt_integration_secret outside secret_key nonce secret
            ≡ returned row.app_secret_ciphertext)
    pub role : row.active ≡ not (has_active row.platform tables.applications)

  -- The row comes first, the keys hold, and an application of its platform is active.
  pub record IsCreated (tables : Tables) (row : IntegrationApplicationRow) (after : Tables)
      : Type 0 where
    pub rows : after.applications ≡ row ∷ tables.applications
    pub tidy : is_violated after.applications ≡ false
    pub served : has_active row.platform after.applications ≡ true
    pub bindings : after.bindings ≡ tables.bindings
