-- ===== src/Gateway/Probe/Models.antt =====
-- `testGatewayChannel`: one request for the models of a channel.
use ai_base.Common.{
  ℕ, zero, suc, String, List, [], ◌∷◌, Bool, true, false, Option, none, some, ◌<>◌, length, take,
  if◌then◌else◌,
}
use ai_base.Common.Results.{Result, ok, thrown}
use ai_base.Text.{is_empty, strip_slash, decimal}
use ai_base.Json.{Json, null, bool, int, negative, fraction, str, arr, obj, items, get_field}
use ai_base.Url.{UrlApi}
use ai_base.Gateway.Types.{
  anthropic, openai, openai_compatible, GatewayProvider, GatewayChannelDraft, max_models,
}
use ai_base.Gateway.Store.{Store}
use ai_base.Gateway.Probe.{
  Headers, Fetched, answered, failed, Remote, is_success, resolve_test_key, usable_key,
}

-- `discoveredModels` holds what `filter(Boolean)` leaves, texts or not.
pub record GatewayChannelTestResult : Type 0 where
  pub ok : Bool
  pub status : Option ℕ
  pub latency_ms : ℕ
  pub message : String
  pub discovered_models : List Json

-- `Boolean(value)`
unfoldable pub is_truthy : Json → Bool
is_truthy null = false
is_truthy (bool b) = b
is_truthy (int zero) = false
is_truthy (int (suc n)) = true
is_truthy (negative n) = true
is_truthy (fraction text) = true
is_truthy (str s) = if is_empty s then false else true
is_truthy (arr vs) = true
is_truthy (obj fields) = true

-- `value.key`: `none` where it throws, `some none` for `undefined`.
unfoldable pub property : Json → String → Option (Option Json)
property null key = none
property (obj fields) key = some (get_field fields key)
property _ key = some none

-- `entries.map((item) => item.key).filter(Boolean)`, `none` where it throws.
unfoldable pub pluck : String → List Json → Option (List Json)
pluck key [] = some []
pluck key (v ∷ vs) = elim (property v key) [
  | none ↦ none
  | some found ↦ elim (pluck key vs) [
    | none ↦ none
    | some rest ↦
        some
          (elim found [ none ↦ rest | some value ↦ if is_truthy value then value ∷ rest else rest ])
  ]
]

-- `(value || []).map(…).filter(Boolean)`: only an array has `map`.
unfoldable pub pluck_all : String → Option Json → Option (List Json)
pluck_all key none = some []
pluck_all key (some (arr vs)) = pluck key (items vs)
pluck_all key (some value) = if is_truthy value then none else some []

-- The inner `try` block: what `discoveredModels` holds after it.
unfoldable pub discovered_in : Option Json → List Json
discovered_in none = []
discovered_in (some payload) = elim (property payload "data") [
  | none ↦ []
  | some entries ↦ elim (pluck_all "id" entries) [
    | none ↦ []
    | some (v ∷ vs) ↦ v ∷ vs
    | some [] ↦ elim (property payload "models") [
      | none ↦ []
      | some models ↦ elim (pluck_all "name" models) [ none ↦ [] | some found ↦ found ]
    ]
  ]
]

unfoldable pub key_headers : GatewayProvider → String → Headers
key_headers anthropic key = ("x-api-key", key) ∷ ("anthropic-version", "2023-06-01") ∷ []
key_headers openai key = ("Authorization", "Bearer " <> key) ∷ []
key_headers openai_compatible key = ("Authorization", "Bearer " <> key) ∷ []

-- What follows the `fetch`. `elapsed` is `Date.now() - startedAt`.
unfoldable pub channel_verdict : Remote → ℕ → Fetched → GatewayChannelTestResult
channel_verdict remote elapsed (failed timed_out) = record {
  ok = false;
  status = none;
  latency_ms = elapsed;
  message = if timed_out then "连接测试超时（8 秒）" else "无法连接渠道端点";
  discovered_models = [];
}
channel_verdict remote elapsed (answered response) =
    let found = discovered_in (remote.parse_json response.text) in
    record {
      ok = is_success response.status;
      status = some response.status;
      latency_ms = elapsed;
      message =
          if is_success response.status
          then "连接成功，发现 " <> decimal (length found) <> " 个模型"
          else "渠道返回 HTTP " <> decimal response.status;
      discovered_models = take max_models found;
    }

module _ (api : UrlApi) (remote : Remote) where
  -- `new URL` stands before the `try` block.
  unfoldable pub test_gateway_channel :
      Store → GatewayChannelDraft → ℕ → Result GatewayChannelTestResult
  test_gateway_channel s draft elapsed = elim (usable_key (resolve_test_key s draft)) [
    | none ↦ ok (record {
      ok = false;
      status = none;
      latency_ms = 0;
      message = "请先输入 API Key";
      discovered_models = [];
    })
    | some key ↦ elim (api.parse draft.base_url) [
      | none ↦ thrown "Invalid URL"
      | some url ↦ ok (
          channel_verdict remote elapsed (
            remote.get (api.print (api.with_pathname url (strip_slash url.pathname <> "/models")))
              (key_headers draft.provider key)))
    ]
  ]
