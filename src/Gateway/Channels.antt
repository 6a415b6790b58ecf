-- ===== src/Gateway/Channels.antt =====
-- `validateGatewayChannelsInput` of gateway-config.ts: reading the drafts out of a request body.
pub mod Drafts
pub mod Sound
use ai_base.Common.{
  ℕ, suc, ◌+◌, String, List, [], ◌∷◌, ◌++◌, Bool, true, false, not, ◌&&◌, ◌||◌, Option, none, some,
  ◌≡◌, refl, arith, ltb, ◌==◌, ◌===◌, ◌<>◌, if◌then◌else◌, length, present, includes,
}
use ai_base.Common.Results.{Checked, ◌>>=◌, ◌>>◌, give, report, push_if}
use ai_base.Text.{matches, is_lower, is_digit, text_length, has_space, is_empty, decimal}
use ai_base.Json.{
  Json, str, obj, Fields, get_field, object?, array?, trimmed_or, trimmed?, bool?, is_true,
}
use ai_base.Url.{UrlApi, endpoint}
use ai_base.Gateway.Types.{
  GatewayProvider, openai, anthropic, openai_compatible, GatewayModelRoute, GatewayChannelDraft,
  Validation, valid, invalid, max_channels, max_models,
}

-- CHANNEL_ID_PATTERN and MCP_NAMESPACE_PATTERN, /^[a-z0-9][a-z0-9-]{0,47}$/
abbrev pub id_first : ℕ → Bool
id_first c = is_lower c || is_digit c

abbrev pub id_rest : ℕ → Bool
id_rest c = is_lower c || is_digit c || c == b'-'

unfoldable pub is_channel_id : String → Bool
is_channel_id = matches id_first id_rest 47

abbrev pub provider? : Option Json → Option GatewayProvider
provider? (some (str s)) =
    if s === "openai"
    then some openai
    else if s === "anthropic"
    then some anthropic
    else if s === "openai-compatible"
    then some openai_compatible
    else none
provider? _ = none

-- `!name || name.length > 200 || /\s/.test(name)`
unfoldable pub is_bad_model_name : String → Bool
is_bad_model_name name = is_empty name || ltb 200 (text_length name) || has_space name

unfoldable pub read_route_fields : String → Fields → Checked (Option GatewayModelRoute)
read_route_fields at fields =
    let public_name = trimmed_or "" (get_field fields "publicName") in
    let upstream_name = trimmed_or "" (get_field fields "upstreamName") in
    do
      report (is_bad_model_name public_name)
          (at <> ".publicName must be a non-empty model name without spaces")
      report (is_bad_model_name upstream_name)
          (at <> ".upstreamName must be a non-empty model name without spaces")
      give (
          if not (is_empty public_name) && not (is_empty upstream_name)
          then some (record { public_name = public_name; upstream_name = upstream_name })
          else none)

unfoldable pub read_model_route : String → Json → Checked (Option GatewayModelRoute)
read_model_route at (obj fields) = read_route_fields at fields
read_model_route at _ = record { errors = (at <> " must be an object") ∷ []; value = none }

-- The loop `value.models.forEach`.
unfoldable pub read_model_routes : String → ℕ → List Json → Checked (List GatewayModelRoute)
read_model_routes at i [] = give []
read_model_routes at i (v ∷ vs) = do
  parsed ← read_model_route (at <> ".models[" <> decimal i <> "]") v
  rest ← read_model_routes at (suc i) vs
  give (present (parsed ∷ []) ++ rest)

abbrev refuse_models : String → Checked (List GatewayModelRoute)
refuse_models at = record {
  errors = (at <> ".models must be an array with at most 100 entries") ∷ [];
  value = [];
}

unfoldable pub read_models : String → Option (List Json) → Checked (List GatewayModelRoute)
read_models at none = refuse_models at
read_models at (some models) =
    if ltb max_models (length models) then refuse_models at else read_model_routes at 0 models

-- The `try` block, which leaves the text as it was given where the URL is refused.
unfoldable pub read_endpoint : UrlApi → String → String → String → Checked String
read_endpoint api at name value = elim (endpoint api value) [
  | none ↦ record {
    errors =
        (at <> "." <> name <> " must be an HTTP(S) URL without credentials, query, or fragment")
        ∷ [];
    value = value;
  }
  | some url ↦ give url
]

abbrev pub none? {ℓ} : {A : Type ℓ} → Option A → Bool
none? none = true
none? (some a) = false

-- `apiKey !== undefined && apiKey.length > 10_000`
unfoldable pub is_long_key : Option String → Bool
is_long_key none = false
is_long_key (some key) = ltb 10000 (text_length key)

-- `!name || name.length > 100`
unfoldable pub is_bad_name : String → Bool
is_bad_name name = is_empty name || ltb 100 (text_length name)

-- The object that `readChannelDraft` returns, `undefined` where a part of it is missing.
unfoldable pub channel_draft :
    String
    → String
    → Option GatewayProvider
    → String
    → Option Bool
    → List GatewayModelRoute
    → Option String
    → Bool
    → Option GatewayChannelDraft
channel_draft id name none base_url enabled models api_key remove = none
channel_draft id name (some provider) base_url none models api_key remove = none
channel_draft id name (some provider) base_url (some enabled) models api_key remove =
    if is_empty id || is_empty name || is_empty base_url
    then none
    else some (record {
      id = id;
      name = name;
      provider = provider;
      base_url = base_url;
      enabled = enabled;
      models = models;
      api_key = api_key;
      remove_api_key = remove;
    })

-- `enabled === true`
abbrev pub on : Option Bool → Bool
on (some true) = true
on _ = false

module _ (api : UrlApi) where
  unfoldable pub read_channel_fields : String → Fields → Checked (Option GatewayChannelDraft)
  read_channel_fields at fields =
      let id = trimmed_or "" (get_field fields "id") in
      let name = trimmed_or "" (get_field fields "name") in
      let provider = provider? (get_field fields "provider") in
      let enabled = bool? (get_field fields "enabled") in
      let api_key = trimmed? (get_field fields "apiKey") in
      do
        report (not (is_channel_id id)) (at <> ".id is invalid")
        report (is_bad_name name) (at <> ".name must be between 1 and 100 characters")
        report (none? provider) (at <> ".provider is unsupported")
        report (none? enabled) (at <> ".enabled must be a boolean")
        report (is_long_key api_key) (at <> ".apiKey is too long")
        base_url ← read_endpoint api at "baseUrl" (trimmed_or "" (get_field fields "baseUrl"))
        models ← read_models at (array? (get_field fields "models"))
        report (on enabled && length models == 0)
            (at <> ".models needs at least one model when enabled")
        give (
            channel_draft id name provider base_url enabled models api_key
              (is_true (get_field fields "removeApiKey")))

  unfoldable pub read_channel_draft : ℕ → Json → Checked (Option GatewayChannelDraft)
  read_channel_draft index (obj fields) =
      read_channel_fields ("channels[" <> decimal index <> "]") fields
  read_channel_draft index _ = record {
    errors = ("channels[" <> decimal index <> "] must be an object") ∷ [];
    value = none;
  }

  -- `input.channels.map(readChannelDraft).filter(Boolean)`
  unfoldable pub read_channel_drafts : ℕ → List Json → Checked (List GatewayChannelDraft)
  read_channel_drafts i [] = give []
  read_channel_drafts i (v ∷ vs) = do
    draft ← read_channel_draft i v
    rest ← read_channel_drafts (suc i) vs
    give (present (draft ∷ []) ++ rest)

-- The loop over `channel.models`: the messages, and `publishedModels` after it.
unfoldable pub publish : List String → List GatewayModelRoute → Checked (List String)
publish published [] = give published
publish published (m ∷ ms) = do
  report (includes published m.public_name)
      ("published model " <> m.public_name <> " is configured by more than one enabled channel")
  publish (m.public_name ∷ published) ms

unfoldable pub publish_channel : List String → GatewayChannelDraft → Checked (List String)
publish_channel published c = if c.enabled then publish published c.models else give published

-- The loop over `channels.entries()`.
unfoldable pub check_channels :
    ℕ → List String → List String → List GatewayChannelDraft → List String
check_channels i ids published [] = []
check_channels i ids published (c ∷ cs) =
    let models = publish_channel published c in
    push_if (includes ids c.id) ("channels[" <> decimal i <> "].id is duplicated")
    ++ (models.errors ++ check_channels (suc i) (c.id ∷ ids) models.value cs)

unfoldable pub verdict : {A : Type 0} → List String → A → Validation A
verdict [] value = valid value
verdict (e ∷ es) value = invalid (e ∷ es)

pub verdict-valid :
    {A : Type 0} (errors : List String) (value : A) {accepted : A}
    → verdict errors value ≡ valid accepted
    → (errors ≡ []) × (value ≡ accepted)
unfolding verdict
verdict-valid [] value h = (refl, ground arith)
verdict-valid (e ∷ es) value h = cc

-- `input.channels`, `none` where `input` is no object or the field no array.
unfoldable pub entries_of : String → Json → Option (List Json)
entries_of key (obj fields) = array? (get_field fields key)
entries_of key _ = none

-- From the test on the number of entries to the end.
unfoldable pub accept_channels : UrlApi → List Json → Validation (List GatewayChannelDraft)
accept_channels api channels =
    if ltb max_channels (length channels)
    then invalid ("channels must contain at most 20 entries" ∷ [])
    else let drafts = read_channel_drafts api 0 channels in
      verdict (drafts.errors ++ check_channels 0 [] [] drafts.value) drafts.value

unfoldable pub validate_gateway_channels_input :
    UrlApi → Json → Validation (List GatewayChannelDraft)
validate_gateway_channels_input api input = elim (entries_of "channels" input) [
  | none ↦ invalid ("request body must contain a channels array" ∷ [])
  | some channels ↦ accept_channels api channels
]
