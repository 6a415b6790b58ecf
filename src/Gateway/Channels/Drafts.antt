-- ===== src/Gateway/Channels/Drafts.antt =====
-- What one accepted channel draft satisfies.
use ai_base.Common.{
  ℕ, suc, ◌≤◌, String, ◌≡◌, ◌≢◌, Bool, true, false, not, ◌||◌, Option, none, some, List, [], ◌∷◌,
  arith, inl, inr, Bool-cases, ◌&&◌, ◌==◌, ltb-false→le, length, length-present, All, All-present,
  IfSome, ltb,
}
use ai_base.Common.Results.{report-eq-nil, split-append-nil}
use ai_base.Text.{text_length, is_empty, has_space}
use ai_base.Text.Patterns.{Matches, matches_sound}
use ai_base.Json.{Json, obj, Fields}
use ai_base.Url.{UrlApi, endpoint}
use ai_base.Gateway.Types.{GatewayProvider, GatewayModelRoute, GatewayChannelDraft, max_models}
use ai_base.Gateway.Channels.{
  id_first, id_rest, is_channel_id, is_bad_model_name, read_route_fields, read_model_route,
  read_model_routes, read_models, read_endpoint, is_long_key, is_bad_name, channel_draft, on,
  read_channel_fields, read_channel_draft, read_channel_drafts,
}

-- Given, at most `most` code units.
pub record IsShort (most : ℕ) (s : String) : Type 0 where
  pub given : is_empty s ≡ false
  pub within : text_length s ≤ most

pub record IsModelName (s : String) : Type 0 where
  pub short : IsShort 200 s
  pub solid : has_space s ≡ false

pub record IsValidRoute (m : GatewayModelRoute) : Type 0 where
  pub public_name : IsModelName m.public_name
  pub upstream_name : IsModelName m.upstream_name

abbrev pub KeyFits : Option String → Type 0
KeyFits none = Unit
KeyFits (some key) = text_length key ≤ 10000

-- What holds of one accepted draft.
pub record IsValidDraft (api : UrlApi) (d : GatewayChannelDraft) : Type 0 where
  pub id : Matches id_first id_rest 47 d.id
  pub name : IsShort 100 d.name
  pub base_url : (given : String) × (endpoint api given ≡ some d.base_url)
  pub routes : All IsValidRoute d.models
  pub few : length d.models ≤ max_models
  pub usable : d.enabled ≡ true → d.models ≢ []
  pub key : KeyFits d.api_key

name-IsModelName : (s : String) → is_bad_model_name s ≡ false → IsModelName s
unfolding is_bad_model_name
name-IsModelName s h = record {
  short = record { given = ground arith; within = ground arith };
  solid = ground arith;
}

pub name-IsShort : (s : String) → is_bad_name s ≡ false → IsShort 100 s
unfolding is_bad_name
name-IsShort s h = record { given = ground arith; within = ground arith }

pub key-KeyFits : (key : Option String) → is_long_key key ≡ false → KeyFits key
unfolding is_long_key
key-KeyFits none h = tt
key-KeyFits (some key) h = ltb-false→le _ _ h

route-IsValidRoute :
    (at : String) (v : Json)
    → (read_model_route at v).errors ≡ []
    → IfSome IsValidRoute (read_model_route at v).value
unfolding read_model_route read_route_fields
route-IsValidRoute at (obj fields) h =
    let (public_ok, h₁) = report-eq-nil _ _ h in
    let (upstream_ok, _) = report-eq-nil _ _ h₁ in
    let p = name-IsModelName _ public_ok in
    let u = name-IsModelName _ upstream_ok in
    rw (p.short.given, u.short.given) (record { public_name = p; upstream_name = u })
route-IsValidRoute at _ h = cc

routes-IsValidRoute :
    (at : String) (i : ℕ) (vs : List Json)
    → (read_model_routes at i vs).errors ≡ []
    → All IsValidRoute (read_model_routes at i vs).value
      × (length (read_model_routes at i vs).value ≤ length vs)
unfolding read_model_routes
routes-IsValidRoute at i [] h = (tt, omega arith)
routes-IsValidRoute at i (v ∷ vs) h =
    let (here, h₁) = split-append-nil _ _ h in
    let (later, _) = split-append-nil _ _ h₁ in
    let (valid_rest, short_rest) = routes-IsValidRoute at (suc i) vs later in
    (
      All-present IsValidRoute _ _ (route-IsValidRoute _ v here) valid_rest,
      omega (arith, length-present {0}, short_rest),
    )

models-IsValidRoute :
    (at : String) (models : Option (List Json))
    → (read_models at models).errors ≡ []
    → All IsValidRoute (read_models at models).value
      × (length (read_models at models).value ≤ max_models)
unfolding read_models
models-IsValidRoute at none h = cc
models-IsValidRoute at (some models) h = elim (Bool-cases (ltb max_models (length models))) [
  | inl many ↦ absurd (cc (rw (many, read_models) at h))
  | inr fits ↦
      let (routes, few) = routes-IsValidRoute at 0 models (rw (fits, read_models) at h) in
      rw fits (routes, omega (arith, ltb-false→le _ _ fits))
]

pub id-Matches : (s : String) → not (is_channel_id s) ≡ false → Matches id_first id_rest 47 s
unfolding is_channel_id
id-Matches s h = matches_sound id_first id_rest 47 s (ground arith)

pub endpoint-given :
    (api : UrlApi) (at name value : String)
    → (read_endpoint api at name value).errors ≡ []
    → endpoint api value ≡ some (read_endpoint api at name value).value
unfolding read_endpoint
endpoint-given api at name value h = ground arith

usable-ne-nil :
    (enabled : Bool) (models : List GatewayModelRoute)
    → (on (some enabled) && length models == 0) ≡ false
    → enabled ≡ true
    → models ≢ []
usable-ne-nil true [] u e = cc
usable-ne-nil true (m ∷ ms) u e = cc
usable-ne-nil false models u e = cc

draft-IsValidDraft :
    (api : UrlApi) (id name : String) (provider : Option GatewayProvider) (given base_url : String)
    (enabled : Option Bool) (models : List GatewayModelRoute) (key : Option String) (remove : Bool)
    → Matches id_first id_rest 47 id
    → IsShort 100 name
    → endpoint api given ≡ some base_url
    → All IsValidRoute models
    → length models ≤ max_models
    → (on enabled && length models == 0) ≡ false
    → KeyFits key
    → IfSome (IsValidDraft api) (channel_draft id name provider base_url enabled models key remove)
unfolding channel_draft
draft-IsValidDraft api id name none given base_url enabled models key remove i n b r f u k = tt
draft-IsValidDraft api id name (some p) given base_url none models key remove i n b r f u k = tt
draft-IsValidDraft api id name (some p) given base_url (some e) models key remove i n b r f u k =
    elim (Bool-cases (is_empty id || is_empty name || is_empty base_url)) [
      | inl missing ↦ rw missing tt
      | inr complete ↦ rw complete (record {
        id = i;
        name = n;
        base_url = (given, b);
        routes = r;
        few = f;
        usable = usable-ne-nil e models u;
        key = k;
      })
    ]

module _ (api : UrlApi) where
  fields-IsValidDraft :
      (at : String) (fields : Fields)
      → (read_channel_fields api at fields).errors ≡ []
      → IfSome (IsValidDraft api) (read_channel_fields api at fields).value
  unfolding read_channel_fields
  fields-IsValidDraft at fields h =
      let (id_ok, h₁) = report-eq-nil _ _ h in
      let (name_ok, h₂) = report-eq-nil _ _ h₁ in
      let (provider_ok, h₃) = report-eq-nil _ _ h₂ in
      let (enabled_ok, h₄) = report-eq-nil _ _ h₃ in
      let (key_ok, h₅) = report-eq-nil _ _ h₄ in
      let (url_ok, h₆) = split-append-nil _ _ h₅ in
      let (models_ok, h₇) = split-append-nil _ _ h₆ in
      let (usable, _) = report-eq-nil _ _ h₇ in
      let (routes, few) = models-IsValidRoute _ _ models_ok in
      draft-IsValidDraft api _ _ _ _ _ _ _ _ _ (id-Matches _ id_ok) (name-IsShort _ name_ok)
        (endpoint-given api _ _ _ url_ok) routes few usable (key-KeyFits _ key_ok)

  draft_of-IsValidDraft :
      (i : ℕ) (v : Json)
      → (read_channel_draft api i v).errors ≡ []
      → IfSome (IsValidDraft api) (read_channel_draft api i v).value
  unfolding read_channel_draft
  draft_of-IsValidDraft i (obj fields) h = fields-IsValidDraft _ fields h
  draft_of-IsValidDraft i _ h = cc

  pub drafts-IsValidDraft :
      (i : ℕ) (vs : List Json)
      → (read_channel_drafts api i vs).errors ≡ []
      → All (IsValidDraft api) (read_channel_drafts api i vs).value
        × (length (read_channel_drafts api i vs).value ≤ length vs)
  unfolding read_channel_drafts
  drafts-IsValidDraft i [] h = (tt, omega arith)
  drafts-IsValidDraft i (v ∷ vs) h =
      let (here, h₁) = split-append-nil _ _ h in
      let (later, _) = split-append-nil _ _ h₁ in
      let (valid_rest, short_rest) = drafts-IsValidDraft (suc i) vs later in
      (
        All-present (IsValidDraft api) _ _ (draft_of-IsValidDraft i v here) valid_rest,
        omega (arith, length-present {0}, short_rest),
      )
