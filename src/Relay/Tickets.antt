-- ===== src/Relay/Tickets.antt =====
-- The shared key, sealing and opening of a payload, and the handoff that a ticket carries.
use ai_base.Common.{
  ℕ, suc, ◌+◌, ◌-◌, String, List, [], ◌∷◌, ◌++◌, Bool, false, not, ◌&&◌, ◌||◌, Option, none, some,
  ◌===◌, ◌==◌, ◌<>◌, ltb, leb, length, take, drop, any, includes, if◌then◌else◌,
}
use ai_base.Text.{
  trim, text_length, is_empty, is_digit, is_lower, is_upper, all_chars, split_dots, strip_equals,
}
use ai_base.Json.{Json, Fields, int, negative, get_field, object?, string?, keys}
use ai_base.Url.{Url}
use ai_base.Relay.{
  Bytes, Relayed, returned, relay_error, platform_error, invalid_relay_result, relay_unavailable,
  Platform, ◌>>=◌,
}

abbrev pub ticket_max_length : ℕ
ticket_max_length = 16384

abbrev pub result_lifetime_seconds : ℕ
result_lifetime_seconds = 300

-- `/^[A-Za-z0-9_-]{43}$/`
abbrev pub secret_char : ℕ → Bool
secret_char c = is_upper c || is_lower c || is_digit c || c == b'_' || c == b'-'

unfoldable pub is_secret : String → Bool
is_secret s = all_chars secret_char s && text_length s == 43

unfoldable pub invalid : {A : Type 0} → String → Relayed A
invalid message = relay_error message invalid_relay_result

-- `process.env.WECOM_RELAY_SHARED_KEY?.trim() || ""`
abbrev pub raw_key : Option String → String
raw_key none = ""
raw_key (some s) = trim s

-- What `relayEndpoints` returns.
pub record Endpoints : Type 0 where
  pub callback : String
  pub result : String
  pub issuer : String

-- The test of `relayEndpoints`.
unfoldable pub is_callback : Url → Bool
is_callback u =
    u.protocol === "https:"
    && is_empty u.username
    && is_empty u.password
    && u.pathname === "/callbacks/wecom"
    && is_empty u.search
    && is_empty u.hash

-- `Number(issued_at) <= now + 30`, `expires_at > now` and the difference, on integers.
unfoldable pub is_current : ℕ → Option Json → Option Json → Bool
is_current now (some (int issued)) (some (int expires)) =
    leb issued (now + 30) && ltb now expires && expires == issued + result_lifetime_seconds
is_current now (some (negative before)) (some (int expires)) =
    ltb now expires && expires + suc before == result_lifetime_seconds
is_current now _ _ = false

unfoldable pub is_version : Option Json → Bool
is_version (some (int n)) = n == 1
is_version _ = false

abbrev pub handoff_keys : List String
handoff_keys = "v" ∷ "result_id" ∷ "relay_callback_url" ∷ "issued_at" ∷ "expires_at" ∷ []

unfoldable pub has_foreign_key : List String → Fields → Bool
has_foreign_key allowed fields = any (λ k. not (includes allowed k)) (keys fields)

-- The texts that the payload must have.
unfoldable pub has_secret : Option String → Bool
has_secret none = false
has_secret (some s) = is_secret s

-- The condition of `readWeComRelayResultHandoff`, negated, but for the callback's type.
unfoldable pub is_handoff : ℕ → Fields → Bool
is_handoff now payload =
    not (has_foreign_key handoff_keys payload)
    && is_version (get_field payload "v")
    && has_secret (string? (get_field payload "result_id"))
    && is_current now (get_field payload "issued_at") (get_field payload "expires_at")

-- The callback of a payload that passes every test.
unfoldable pub handoff_callback : ℕ → Fields → Option String
handoff_callback now payload =
    if is_handoff now payload then string? (get_field payload "relay_callback_url") else none

module _ (p : Platform) where
  unfoldable pub relay_shared_key : Option String → Relayed Bytes
  relay_shared_key env =
      let raw = raw_key env in
      let key = p.decode raw in
      if is_empty raw || not (length key == 32) || not (p.encode key === strip_equals raw)
      then relay_error "企业微信中继共享密钥未正确配置" relay_unavailable
      else returned key

  -- The text of a ticket, of a nonce and the sealed bytes.
  abbrev pub ticket_of : Bytes → Bytes × Bytes → String
  ticket_of nonce sealed =
      "v1" <> ("." <> (p.encode nonce <> ("." <> p.encode (sealed.0 ++ sealed.1))))

  unfoldable pub seal_we_com_relay_payload : Option String → Json → Bytes → Relayed String
  seal_we_com_relay_payload env value nonce = do
    key ← relay_shared_key env
    returned (ticket_of nonce (p.encrypt key nonce (p.stringify value)))

  -- The `try` block: `none` where it throws.
  unfoldable pub unseal : Option String → Bytes → Bytes → Option Json
  unseal env nonce sealed =
      if not (length nonce == 12) || leb (length sealed) 16
      then none
      else elim (relay_shared_key env) [
        | relay_error message code ↦ none
        | platform_error ↦ none
        | returned key ↦
            elim (p.decrypt key nonce (take (length sealed - 16) sealed)
              (drop (length sealed - 16) sealed)) [ none ↦ none | some text ↦ p.parse text ]
      ]

  -- From the split on.
  unfoldable pub open_parts : Option String → List String → Relayed Json
  open_parts env (version ∷ nonce ∷ sealed ∷ []) =
      if version === "v1"
      then elim (unseal env (p.decode nonce) (p.decode sealed)) [
        | none ↦ invalid "企业微信中继结果签名无效"
        | some value ↦ returned value
      ]
      else invalid "企业微信中继结果格式无效"
  open_parts env _ = invalid "企业微信中继结果格式无效"

  unfoldable pub open_we_com_relay_payload : Option String → String → Relayed Json
  open_we_com_relay_payload env value =
      if is_empty value || ltb ticket_max_length (text_length value)
      then invalid "企业微信中继结果格式无效"
      else open_parts env (split_dots value)

  -- `new URL` throws an error of the platform.
  unfoldable pub relay_endpoints : String → Relayed Endpoints
  relay_endpoints relay_callback_url = elim (p.url.parse relay_callback_url) [
    | none ↦ platform_error
    | some callback ↦
        if is_callback callback
        then elim (p.url.parse_from "/api/wecom/results" callback.origin) [
          | none ↦ platform_error
          | some result ↦ returned (record {
            callback = p.url.print callback;
            result = p.url.print result;
            issuer = callback.origin <> "/wecom";
          })
        ]
        else invalid "企业微信中继地址无效"
  ]

  -- What follows the opening of the ticket.
  unfoldable pub handoff_of : ℕ → Json → Relayed String
  handoff_of now value = elim (object? value) [
    | none ↦ invalid "企业微信中继结果票据内容无效"
    | some payload ↦ elim (handoff_callback now payload) [
      | none ↦ invalid "企业微信中继结果票据已过期或格式无效"
      | some relay_callback_url ↦ do
        endpoints ← relay_endpoints relay_callback_url
        returned endpoints.callback
    ]
  ]

  -- The handoff's only field. `now` is in seconds.
  unfoldable pub read_we_com_relay_result_handoff : Option String → String → ℕ → Relayed String
  read_we_com_relay_result_handoff env ticket now = do
    value ← open_we_com_relay_payload env ticket
    handoff_of now value

  unfoldable pub create_we_com_relay_result_consumer_proof : Option String → String → Relayed String
  create_we_com_relay_result_consumer_proof env ticket = do
    key ← relay_shared_key env
    let proof_key = p.hmac key ("ai-base-wecom-relay:result-consumer-key:v1" ∷ [])
    returned (p.encode (p.hmac proof_key ("POST\n/api/wecom/results\n" ∷ ticket ∷ [])))
