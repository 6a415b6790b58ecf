-- ===== src/Gateway/Channels/Sound.antt =====
-- What an accepted list of channel drafts satisfies.
use ai_base.Common.{
  ℕ, suc, ◌≤◌, String, ◌≡◌, refl, List, [], ◌∷◌, ◌++◌, map, arith, inl, inr, Bool-cases,
  Option-cases, ltb-false→le, length, All, AllDistinct, AllFresh, add_all, AllFresh-AllDistinct,
  AllFresh-append, if◌then◌else◌, ltb,
}
use ai_base.Common.Results.{report-eq-nil, split-append-nil}
use ai_base.Json.{Json}
use ai_base.Url.{UrlApi}
use ai_base.Gateway.Types.{GatewayModelRoute, GatewayChannelDraft, valid, max_channels}
use ai_base.Gateway.Channels.{
  publish, publish_channel, check_channels, verdict-valid, accept_channels, entries_of,
  validate_gateway_channels_input,
}
use ai_base.Gateway.Channels.Drafts.{IsValidDraft, drafts-IsValidDraft}

abbrev public_names : List GatewayModelRoute → List String
public_names = map (λ m. m.public_name)

-- The public names of the models of the enabled channels.
abbrev pub published_names : List GatewayChannelDraft → List String
published_names [] = []
published_names (c ∷ cs) = (if c.enabled then public_names c.models else []) ++ published_names cs

publish-AllFresh :
    (published : List String) (models : List GatewayModelRoute)
    → (publish published models).errors ≡ []
    → AllFresh published (public_names models)
      × ((publish published models).value ≡ add_all (public_names models) published)
unfolding publish
publish-AllFresh published [] h = (tt, refl)
publish-AllFresh published (m ∷ ms) h =
    let (new, later) = report-eq-nil _ _ h in
    let (fresh, same) = publish-AllFresh _ ms later in ((new, fresh), same)

publish_channel-AllFresh :
    (published : List String) (c : GatewayChannelDraft) (later : List String)
    → (publish_channel published c).errors ≡ []
    → AllFresh (publish_channel published c).value later
    → AllFresh published ((if c.enabled then public_names c.models else []) ++ later)
unfolding publish_channel
publish_channel-AllFresh published c later h k = elim (Bool-cases c.enabled) [
  | inl e ↦
      let (fresh, same) = publish-AllFresh published c.models (rw (e, publish_channel) at h) in
      rw e (
        AllFresh-append published (public_names c.models) later fresh
          (rw same at (rw (e, publish_channel) at k)))
  | inr e ↦ rw e (rw (e, publish_channel) at k)
]

channels-AllFresh :
    (i : ℕ) (ids published : List String) (cs : List GatewayChannelDraft)
    → check_channels i ids published cs ≡ []
    → AllFresh ids (map (λ c. c.id) cs) × AllFresh published (published_names cs)
unfolding check_channels
channels-AllFresh i ids published [] h = (tt, tt)
channels-AllFresh i ids published (c ∷ cs) h =
    let (new_id, h₁) = report-eq-nil _ _ h in
    let (new_models, later) = split-append-nil _ _ h₁ in
    let (ids_fresh, names_fresh) = channels-AllFresh (suc i) _ _ cs later in
    ((new_id, ids_fresh), publish_channel-AllFresh published c _ new_models names_fresh)

-- What holds of an accepted list of drafts.
pub record IsAccepted (api : UrlApi) (ds : List GatewayChannelDraft) : Type 0 where
  pub drafts : All (IsValidDraft api) ds
  pub few : length ds ≤ max_channels
  pub ids : AllDistinct (map (λ d. d.id) ds)
  pub published : AllDistinct (published_names ds)

drafts-IsAccepted :
    (api : UrlApi) (channels : List Json) (ds : List GatewayChannelDraft)
    → accept_channels api channels ≡ valid ds
    → IsAccepted api ds
unfolding accept_channels
drafts-IsAccepted api channels ds h = elim (Bool-cases (ltb max_channels (length channels))) [
  | inl many ↦ absurd (cc (rw (many, accept_channels) at h))
  | inr fits ↦
      let (no_errors, same) = verdict-valid _ _ (rw (fits, accept_channels) at h) in
      let (reading, checking) = split-append-nil _ _ no_errors in
      let (drafts, short) = drafts-IsValidDraft api 0 channels reading in
      let (ids, names) = channels-AllFresh 0 [] [] _ checking in
      rw (← same) (record {
        drafts = drafts;
        few = omega (arith, ltb-false→le _ _ fits);
        ids = AllFresh-AllDistinct [] _ ids;
        published = AllFresh-AllDistinct [] _ names;
      })
]

-- Whatever the request body: if it is accepted, there are at most 20 drafts with distinct ids; each has
-- a well-formed id, a name of 1 to 100 code units, a base URL that is the normal form of an HTTP(S) URL
-- without credentials, query or fragment, at most 100 well-formed model routes, at least one if
-- enabled, and a key of at most 10,000 code units; and no model is published twice among the enabled
-- channels.
pub validate_gateway_channels_input-IsAccepted :
    (api : UrlApi) (input : Json) (ds : List GatewayChannelDraft)
    → validate_gateway_channels_input api input ≡ valid ds
    → IsAccepted api ds
unfolding validate_gateway_channels_input
validate_gateway_channels_input-IsAccepted api input ds h =
    elim (Option-cases (entries_of "channels" input)) [
      | inl absent ↦ absurd (cc (rw (absent, validate_gateway_channels_input) at h))
      | inr (channels, given) ↦
          drafts-IsAccepted api channels ds (rw (given, validate_gateway_channels_input) at h)
    ]
