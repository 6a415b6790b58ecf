-- ===== src/Integrations/Catalog.antt =====
-- The platforms, their actions, and the readers of the values of a request.

use ai_base.Common.{
  ℕ, String, List, [], ◌∷◌, Bool, not, ◌&&◌, Option, none, some, ◌===◌, ◌==◌, ◌<>◌, ltb, any, keep,
  take, map, sort_by, find, includes, length, if◌then◌else◌,
}
use ai_base.Common.Attempt.{Attempt, returned, failed, fail_if, ◌>>=◌}
use ai_base.Text.{trim, text_length, is_empty, decimal, join}
use ai_base.Text.Cut.{fits}
use ai_base.Json.{Json, null, str, arr, trimmed_or}
use ai_base.Access.Texts.{unique_texts}
use ai_base.Integrations.{StoreError, store_error, ConnectorAction, ConnectorProvider, Outside}

abbrev pub app_id_max_length : ℕ
app_id_max_length = 255

abbrev pub app_name_max_length : ℕ
app_name_max_length = 120

abbrev pub app_note_max_length : ℕ
app_note_max_length = 500

abbrev pub app_secret_max_length : ℕ
app_secret_max_length = 4096

abbrev pub action_ids_max_count : ℕ
action_ids_max_count = 1000

abbrev pub feishu_default_action_ids : List String
feishu_default_action_ids =
    "feishu.get_current_user" ∷ "feishu.get_document" ∷ "feishu.get_document_content"
    ∷ "feishu.list_document_blocks" ∷ "feishu.list_bitable_tables" ∷ "feishu.list_bitable_fields"
    ∷ "feishu.search_bitable_records" ∷ []

pub data BindingMode : Type 0 where
  oauth2 : BindingMode
  unsupported : BindingMode

-- No platform excludes actions.
pub record PlatformDefinition : Type 0 where
  pub platform : String
  pub display_name : String
  pub description : String
  pub service : Option String
  pub binding_mode : BindingMode
  pub default_action_ids : List String

unfoldable pub platform_definitions : List PlatformDefinition
platform_definitions =
    record {
      platform = "feishu";
      display_name = "飞书";
      description = "管理飞书开放平台应用凭据。";
      service = some "feishu";
      binding_mode = oauth2;
      default_action_ids = feishu_default_action_ids;
    }
    ∷ record {
      platform = "dingtalk";
      display_name = "钉钉";
      description = "管理钉钉开放平台应用凭据。";
      service = none;
      binding_mode = unsupported;
      default_action_ids = [];
    }
    ∷ []

unfoldable pub find_platform : String → Option PlatformDefinition
find_platform platform = find (λ definition. definition.platform === platform) platform_definitions

unfoldable pub platform_definition : String → Attempt StoreError PlatformDefinition
platform_definition platform = elim (find_platform platform) [
  | none ↦ failed (store_error "不支持的集成平台" 400)
  | some definition ↦ returned definition
]

unfoldable pub allowed_platform : String → Attempt StoreError String
allowed_platform platform =
    if any (λ definition. definition.platform === platform) platform_definitions
    then returned platform
    else failed (store_error "仅支持飞书和钉钉应用；企业微信认证组织请在对应二级页面维护，企微机器人请在连接器管理中维护" 400)

unfoldable pub normalize_platform : Option Json → Attempt StoreError String
normalize_platform (some (str s)) = allowed_platform s
normalize_platform value = allowed_platform ""

unfoldable pub required_value : Option Json → String → ℕ → Attempt StoreError String
required_value value label max_length =
    let normalized = trimmed_or "" value in
    fail_if (is_empty normalized) (store_error (label <> " 不能为空") 400) (
      fail_if (ltb max_length (text_length normalized))
        (store_error (label <> (" 长度不能超过 " <> (decimal max_length <> " 个字符"))) 400)
        (returned normalized))

unfoldable pub required_secret : Option Json → Attempt StoreError String
required_secret (some (str s)) = fail_if (is_empty (trim s)) (store_error "App Secret 不能为空" 400) (
    fail_if (ltb app_secret_max_length (text_length s))
      (store_error ("App Secret 长度不能超过 " <> (decimal app_secret_max_length <> " 个字符")) 400)
      (returned s))
required_secret value = failed (store_error "App Secret 不能为空" 400)

unfoldable pub optional_value : Option Json → String → ℕ → Attempt StoreError String
optional_value value label max_length =
    let normalized = trimmed_or "" value in
    fail_if (ltb max_length (text_length normalized))
      (store_error (label <> ("长度不能超过 " <> (decimal max_length <> " 个字符"))) 400)
      (returned normalized)

-- A secret that is given.
unfoldable pub given_secret : Option Json → Attempt StoreError (Option String)
given_secret value = required_secret value >>= λ secret. returned (some secret)

unfoldable pub optional_secret : Option Json → Attempt StoreError (Option String)
optional_secret none = returned none
optional_secret (some null) = returned none
optional_secret (some (str s)) =
    if is_empty (trim s) then returned none else given_secret (some (str s))
optional_secret (some value) = given_secret (some value)

unfoldable pub stored_action_ids : Json → List String
stored_action_ids value = unique_texts (some value)

-- `requiredUuid`.
unfoldable pub is_uuid : String → Bool
is_uuid s = fits "hhhhhhhh-hhhh-vhhh-rhhh-hhhhhhhhhhhh" s

unfoldable pub required_uuid : String → Attempt StoreError String
required_uuid value =
    if is_uuid value then returned value else failed (store_error "无效的应用配置 ID" 400)

-- An action of a catalog.
pub record IntegrationActionOption : Type 0 where
  pub id : String
  pub name : String
  pub description : String
  pub provider_permissions : List String

pub record IntegrationActionCatalog : Type 0 where
  pub actions : List IntegrationActionOption
  pub default_action_ids : List String
  pub oauth_base_scopes : List String

unfoldable pub action_option : ConnectorAction → IntegrationActionOption
action_option action = record {
  id = action.id;
  name = action.name;
  description = action.description;
  provider_permissions = action.provider_permissions;
}

module _ (outside : Outside) where
  -- The sort by name.
  unfoldable pub sort_actions : List IntegrationActionOption → List IntegrationActionOption
  sort_actions actions =
      sort_by (λ action other. outside.sorts_before action.name other.name) actions

  unfoldable pub base_scopes : List IntegrationActionOption → Option (List String) → List String
  base_scopes actions none = []
  base_scopes actions (some scopes) =
      keep (λ scope. not (any (λ action. includes action.provider_permissions scope) actions))
        scopes

  -- The catalog of a provider.
  unfoldable pub provider_catalog :
      PlatformDefinition → ConnectorProvider → IntegrationActionCatalog
  provider_catalog definition provider =
      let actions =
        sort_actions
          (map action_option (keep (λ action. not action.catalog_only) provider.actions)) in
      record {
        actions = actions;
        default_action_ids =
            keep (λ id. any (λ action. action.id === id) actions) definition.default_action_ids;
        oauth_base_scopes = base_scopes actions provider.oauth_scopes;
      }

  unfoldable pub integration_action_catalog : String → Attempt StoreError IntegrationActionCatalog
  integration_action_catalog platform = platform_definition platform >>= λ definition.
      elim definition.service [
        | none ↦ returned (record { actions = []; default_action_ids = []; oauth_base_scopes = [] })
        | some service ↦ outside.get_connector_provider service >>= λ provider.
            returned (provider_catalog definition provider)
      ]

  -- The ids that a request gives, `none` where they are not a list.
  unfoldable pub requested_ids : Option Json → List String → Option (List String)
  requested_ids none fallback = some fallback
  requested_ids (some (arr vs)) fallback = some (unique_texts (some (arr vs)))
  requested_ids (some value) fallback = none

  -- The checks against the catalog.
  unfoldable pub check_catalog :
      List String → IntegrationActionCatalog → Attempt StoreError (List String)
  check_catalog ids catalog =
      let unknown = keep (λ id. not (any (λ action. action.id === id) catalog.actions)) ids in
      fail_if (ltb 0 (length catalog.actions) && length ids == 0) (store_error "至少选择一个 Action" 400)
        (fail_if (ltb 0 (length unknown))
          (store_error ("包含不可用的 Action：" <> join "、" (take 3 unknown)) 400) (returned ids))

  unfoldable pub normalize_integration_action_ids :
      String → Option Json → List String → Attempt StoreError (List String)
  normalize_integration_action_ids platform value fallback = elim (requested_ids value fallback) [
    | none ↦ failed (store_error "Action 配置必须是字符串数组" 400)
    | some ids ↦
        fail_if (ltb action_ids_max_count (length ids))
          (store_error ("最多选择 " <> (decimal action_ids_max_count <> " 个 Action")) 400)
          (integration_action_catalog platform >>= check_catalog ids)
  ]
