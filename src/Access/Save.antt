-- ===== src/Access/Save.antt =====
-- `saveSharedConnectorResource` over the two tables of shared connections, up to its read back.
use ai_base.Common.{
  ℕ, String, List, [], ◌∷◌, ◌++◌, map, keep, find, Bool, true, false, not, ◌&&◌, ◌||◌, Option, none,
  some, ◌===◌, if◌then◌else◌,
}
use ai_base.Text.{matches}
use ai_base.Json.{Json, str, arr, Fields, get_field, items}
use ai_base.Access.{Accessed, returned, store_error, refuse_if, Connection, Outside, ◌>>=◌}
use ai_base.Access.Texts.{required_text}
use ai_base.Access.Actions.{
  service_first, service_rest, name_first, name_rest, validate_shared_connector_action_ids,
}
use ai_base.Access.Grants.{SharedConnectorGrant, is_given, is_enabled, normalize_grants}

pub data AuthorizationMode : Type 0 where
  manual wecom_visibility : AuthorizationMode

pub record SharedConnectorResource : Type 0 where
  pub id : String
  pub service : String
  pub connection_name : String
  pub display_name : String
  pub security_domain : String
  pub authorization_mode : AuthorizationMode
  pub wecom_organization_id : Option String
  pub action_ids : List String
  pub enabled : Bool

-- The tables, a grant with the id of its resource.
pub record Tables : Type 0 where
  pub resources : List SharedConnectorResource
  pub grants : List (String × SharedConnectorGrant)

-- `SERVICE_PATTERN` and `CONNECTION_PATTERN`
unfoldable pub is_service : String → Bool
is_service s = matches service_first service_rest 127 s

unfoldable pub is_connection : String → Bool
is_connection s = matches name_first name_rest 127 s

unfoldable pub is_usable : String → String → Connection → Bool
is_usable service name c =
    c.service === service
    && c.connection_name === name
    && c.configured
    && not (c.auth_type === "no_auth")

unfoldable pub validate_connection : Outside → String → String → Accessed Connection
validate_connection outside service name =
    refuse_if (not (is_service service)) "Connector Service ID 无效" 400 (
      refuse_if (not (is_connection name) || outside.lower name === "default")
        "受控共享必须引用非 default 的具名连接" 400
        (outside.connections >>= λ connections. elim (find (is_usable service name) connections) [
          | none ↦ store_error "OpenConnector 中不存在可用的具名连接" 409
          | some connection ↦
              refuse_if (outside.has_binding service name) "员工个人连接不能转换为受控共享连接" 409
                (returned connection)
        ]))

-- A text that is given, or a default.
unfoldable pub text_or : Option Json → String → ℕ → String → Accessed String
text_or value label max_length default =
    if is_given value then required_text value label max_length else returned default

unfoldable pub lower_or : Outside → Option Json → String → ℕ → String → Accessed String
lower_or outside value label max_length default =
    if is_given value
    then (required_text value label max_length >>= λ s. returned (outside.lower s))
    else returned default

unfoldable pub mode_of : Option Json → AuthorizationMode
mode_of (some (str s)) = if s === "wecom_visibility" then wecom_visibility else manual
mode_of value = manual

unfoldable pub is_manual : AuthorizationMode → Bool
is_manual manual = true
is_manual wecom_visibility = false

unfoldable pub read_organization :
    Outside → AuthorizationMode → Option Json → Accessed (Option String)
read_organization outside manual value = returned none
read_organization outside wecom_visibility value = required_text value "企业微信组织" 64 >>= λ id.
    refuse_if (not (outside.has_organization id)) "企业微信认证组织不存在、未完成配置或已停用" 409 (returned (some id))

unfoldable pub read_actions :
    Outside → AuthorizationMode → String → Option Json → Accessed (List String)
read_actions outside manual service value = returned []
read_actions outside wecom_visibility service value =
    validate_shared_connector_action_ids outside service value

-- `normalizeGrants(identity, service, input.grants || [])`
unfoldable pub normalize_given :
    Outside → String → String → (ℕ → String) → Option Json → Accessed (List SharedConnectorGrant)
normalize_given outside issuer service uuid (some (arr vs)) =
    normalize_grants outside issuer service uuid (items vs)
normalize_given outside issuer service uuid value =
    if is_given value
    then store_error "授权规则不能超过 500 条" 400
    else normalize_grants outside issuer service uuid []

unfoldable pub read_grants :
    Outside
    → AuthorizationMode
    → String
    → String
    → (ℕ → String)
    → Option Json
    → Accessed (List SharedConnectorGrant)
read_grants outside manual issuer service uuid value =
    normalize_given outside issuer service uuid value
read_grants outside wecom_visibility issuer service uuid value = returned []

-- The check of the mode against the service.
unfoldable pub check_mode {ℓ} : {A : Type ℓ} → String → AuthorizationMode → Accessed A → Accessed A
check_mode service mode next =
    refuse_if (service === "wecom_bot" && is_manual mode) "企微机器人必须使用企业身份可见范围筛选" 409 (
      refuse_if (not (service === "wecom_bot") && not (is_manual mode)) "当前 Connector 不支持企微可见范围筛选"
        409 next)

-- The part before the transaction: the row, with the id that a new one gets, and the grants.
unfoldable pub prepare_resource :
    Outside
    → String
    → String
    → (ℕ → String)
    → Fields
    → Accessed (SharedConnectorResource × List SharedConnectorGrant)
prepare_resource outside issuer id uuid input =
    required_text (get_field input "service") "Connector Service ID" 128 >>= λ service.
    required_text (get_field input "connectionName") "连接名称" 128 >>= λ name.
    validate_connection outside service name >>= λ connection.
    text_or (get_field input "displayName") "显示名称" 120 connection.display_name >>= λ display_name.
    lower_or outside (get_field input "securityDomain") "安全域" 64 "general" >>= λ domain.
    let mode = mode_of (get_field input "authorizationMode") in
    check_mode service mode (
      read_organization outside mode (get_field input "wecomOrganizationId") >>= λ organization.
      read_actions outside mode service (get_field input "actionIds") >>= λ actions.
      read_grants outside mode issuer service uuid (get_field input "grants") >>= λ grants.
      returned (
        record {
          id = id;
          service = service;
          connection_name = name;
          display_name = display_name;
          security_domain = domain;
          authorization_mode = mode;
          wecom_organization_id = organization;
          action_ids = actions;
          enabled = is_enabled (get_field input "enabled");
        },
        grants,
      ))

-- `INSERT … ON CONFLICT (service, connection_name) DO UPDATE`: a row keeps its id.
unfoldable pub upsert :
    List SharedConnectorResource → SharedConnectorResource → List SharedConnectorResource × String
upsert [] row = (row ∷ [], row.id)
upsert (r ∷ rs) row =
    let rest = upsert rs row in
    if r.service === row.service && r.connection_name === row.connection_name
    then (record row { id = r.id } ∷ rs, r.id)
    else (r ∷ rest.0, rest.1)

unfoldable pub replace_grants :
    List (String × SharedConnectorGrant)
    → String
    → List SharedConnectorGrant
    → List (String × SharedConnectorGrant)
replace_grants old id grants = keep (λ g. not (g.0 === id)) old ++ map (λ g. (id, g)) grants

-- The tables after the transaction, and the id of the row. An error leaves the tables as they were.
unfoldable pub save_shared_connector_resource :
    Outside → Tables → String → String → (ℕ → String) → Fields → Accessed (Tables × String)
save_shared_connector_resource outside tables issuer id uuid input =
    prepare_resource outside issuer id uuid input >>= λ ready.
    let saved = upsert tables.resources ready.0 in
    returned (
      record { resources = saved.0; grants = replace_grants tables.grants saved.1 ready.1 },
      saved.1,
    )
