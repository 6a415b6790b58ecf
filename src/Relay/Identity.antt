-- ===== src/Relay/Identity.antt =====
-- `identityResponse` and `consumeWeComRelayIdentity`.
use ai_base.Common.{
  ℕ, String, List, [], ◌∷◌, Bool, not, ◌&&◌, ◌||◌, Option, none, some, ◌===◌, ◌==◌, ltb, leb,
  if◌then◌else◌,
}
use ai_base.Text.{trim, text_length, is_empty}
use ai_base.Json.{Json, Fields, str, obj, end, field, get_field, object?, string?}
use ai_base.Relay.{
  Relayed, returned, relay_error, platform_error, access_denied, identity_exchange_failed,
  relay_unavailable, Platform, Exchange, unreachable, exchanged, ◌>>=◌,
}
use ai_base.Relay.Tickets.{
  invalid, has_foreign_key, relay_endpoints, read_we_com_relay_result_handoff,
  create_we_com_relay_result_consumer_proof,
}

abbrev pub user_id_max_length : ℕ
user_id_max_length = 256

pub record RelayIdentityResponse : Type 0 where
  pub corp_id : String
  pub user_id : String
  pub error : String

pub record WeComRelayIdentityResult : Type 0 where
  pub corp_id : String
  pub user_id : String
  pub relay_issuer : String

-- The three texts of a response.
unfoldable pub identity_of :
    Option String → Option String → Option String → Option RelayIdentityResponse
identity_of (some corp_id) (some user_id) (some error) =
    some (record { corp_id = corp_id; user_id = user_id; error = error })
identity_of _ _ _ = none

abbrev pub identity_keys : List String
identity_keys = "corp_id" ∷ "user_id" ∷ "error" ∷ []

unfoldable pub read_identity : Fields → Relayed RelayIdentityResponse
read_identity fields =
    if has_foreign_key identity_keys fields
    then invalid "企业微信中继身份响应格式无效"
    else elim (identity_of (string? (get_field fields "corp_id"))
        (string? (get_field fields "user_id")) (string? (get_field fields "error"))) [
          | none ↦ invalid "企业微信中继身份响应格式无效"
          | some identity ↦ returned identity
        ]

unfoldable pub identity_response : Option Json → Relayed RelayIdentityResponse
identity_response none = invalid "企业微信中继身份响应无效"
identity_response (some value) = elim (object? value) [
  | none ↦ invalid "企业微信中继身份响应无效"
  | some fields ↦ read_identity fields
]

-- The error that a response names.
unfoldable pub refusal : {A : Type 0} → String → Relayed A
refusal error =
    if error === "access_denied"
    then relay_error "用户取消了企业微信认证" access_denied
    else if error === "identity_exchange_failed"
    then relay_error "企业微信中继未能获取员工身份" identity_exchange_failed
    else invalid "企业微信中继返回了未知错误"

unfoldable pub is_blank_identity : RelayIdentityResponse → Bool
is_blank_identity identity =
    is_empty (trim identity.corp_id)
    || ltb 255 (text_length identity.corp_id)
    || is_empty (trim identity.user_id)
    || ltb user_id_max_length (text_length identity.user_id)

-- What follows `identityResponse`.
unfoldable pub accept_identity : String → RelayIdentityResponse → Relayed WeComRelayIdentityResult
accept_identity issuer identity =
    if not (is_empty identity.error)
    then refusal identity.error
    else if is_blank_identity identity
    then invalid "企业微信中继未返回有效员工身份"
    else returned
        (record { corp_id = identity.corp_id; user_id = identity.user_id; relay_issuer = issuer })

unfoldable pub respond : String → Option Json → Relayed WeComRelayIdentityResult
respond issuer body = do identity ← identity_response body; accept_identity issuer identity

-- What follows the `fetch`.
unfoldable pub conclude : String → Exchange → Relayed WeComRelayIdentityResult
conclude issuer unreachable = relay_error "企业微信认证中继当前不可用" relay_unavailable
conclude issuer (exchanged status body) =
    if leb 200 status && leb status 299
    then respond issuer body
    else if status == 400 || status == 410
    then invalid "企业微信中继结果已失效或已被消费"
    else relay_error "企业微信认证中继当前不可用" relay_unavailable

-- The proof is made inside the `try` block of the `fetch`: where it throws, so does the `fetch`.
unfoldable pub exchange : (String → Json → Exchange) → String → Relayed String → Exchange
exchange fetch ticket (returned proof) = fetch proof (obj (field "ticket" (str ticket) end))
exchange fetch ticket (relay_error message code) = unreachable
exchange fetch ticket platform_error = unreachable

module _ (p : Platform) where
  -- With the default handoff, read from the ticket at `now`.
  unfoldable pub consume_we_com_relay_identity :
      Option String → String → ℕ → Relayed WeComRelayIdentityResult
  consume_we_com_relay_identity env ticket now = do
    callback ← read_we_com_relay_result_handoff p env ticket now
    endpoints ← relay_endpoints p callback
    conclude endpoints.issuer (
        exchange (p.fetch endpoints.result) ticket
          (create_we_com_relay_result_consumer_proof p env ticket))
