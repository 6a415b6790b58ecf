-- ===== src/LightRag/Published.antt =====
-- What a configuration that was applied names.
use mathlib.Core.List.{Memᴰ}
use ai_base.Common.{
  ℕ, ◌<◌, String, ◌≡◌, ◌≢◌, refl, ap, ◌∙◌, subst, List, [], ◌∷◌, keep, map, All, All-mono, All-Memᴰ,
  All-keep, All-map, All-concat, All-sort_by, includes, length, Bool, true, false, not, ◌||◌, ◌==◌,
  ◌===◌, ltb, arith, inl, inr, Bool-cases, ===→≡, Option, if◌then◌else◌,
}
use ai_base.Common.Results.{Result, ok, thrown}
use ai_base.Common.Throwing.{>>=-returned, ok-injective}
use ai_base.Gateway.Types.{GatewayModelRoute, GatewayChannel}
use ai_base.LightRag.{LightRagConfigDraft}
use ai_base.LightRag.Apply.{
  LightRagGatewayModel, LightRagConfig, Applied, Answer, Outside, channel_model, control_request,
  dimension_or, missing_models, LightRagApplyResult, read_light_rag_gateway_models,
  accept_dimension, probe_embedding_dimension, apply_published, apply_light_rag_config,
}

named :
    (P : LightRagGatewayModel → Type 0) (models : List LightRagGatewayModel) (name : String)
    → All P models
    → includes (map (λ m. m.name) models) name ≡ true
    → (model : LightRagGatewayModel) × P model × (model.name ≡ name)
unfolding includes
named P [] name all h = cc
named P (m ∷ models) name (p, all) h = elim (Bool-cases (m.name === name)) [
  | inl e ↦ (m, p, ===→≡ _ _ e)
  | inr e ↦ named P models name all (ground arith)
]

-- An enabled channel publishes a model of the name.
pub record IsPublished (channels : List GatewayChannel) (name : String) : Type 0 where
  pub channel : GatewayChannel
  pub listed : Memᴰ channel channels
  pub enabled : channel.enabled ≡ true
  pub route : GatewayModelRoute
  pub offered : Memᴰ route channel.models
  pub same : route.public_name ≡ name

unless-thrown :
    {A : Type 0} (test : Bool) (message : String) (rest : Result A) {a : A}
    → (if test then thrown message else rest) ≡ ok a
    → (test ≡ false) × (rest ≡ ok a)
unless-thrown true message rest h = cc
unless-thrown false message rest h = (refl, h)

when-ok :
    {A : Type 0} (test : Bool) (message : String) (rest : Result A) {a : A}
    → (if test then rest else thrown message) ≡ ok a
    → (test ≡ true) × (rest ≡ ok a)
when-ok true message rest h = (refl, h)
when-ok false message rest h = cc

is-positive : (n : ℕ) → (n == 0) ≡ false → 0 < n
is-positive n h = ground arith

not-empty : (a : String) (rest : List String) → ltb 0 (length (a ∷ rest)) ≢ false
not-empty a rest h = ground arith

both-known :
    (names : List String) (a b : String)
    → ltb 0 (length (keep (λ model. not (includes names model)) (a ∷ b ∷ []))) ≡ false
    → (includes names a ≡ true) × (includes names b ≡ true)
unfolding keep
both-known names a b h = elim (Bool-cases (includes names a)) [
  | inr e ↦ absurd (not-empty a (keep (λ model. not (includes names model)) (b ∷ [])) (rw e at h))
  | inl e ↦ elim (Bool-cases (includes names b)) [
    | inr k ↦ absurd (not-empty b [] (rw (e, k) at h))
    | inl k ↦ (e, k)
  ]
]

unchanged-parts :
    (a b : String) (m n : ℕ) → (not (a === b) || not (m == n)) ≡ false → (a ≡ b) × (m ≡ n)
unchanged-parts a b m n h = (===→≡ _ _ (ground arith), ground arith)

module _ (outside : Outside) where
  models-all :
      (channels : List GatewayChannel)
      → All (λ m. IsPublished channels m.name) (read_light_rag_gateway_models outside channels)
  unfolding read_light_rag_gateway_models channel_model
  models-all channels = All-sort_by _ _ _ (
      All-concat _ _ (
        All-map _ (λ channel. map (channel_model channel) channel.models) _
          (All-mono _ _
            (λ channel k. All-map _ (channel_model channel) channel.models (
              All-mono _ _
                (λ route m. record {
                  channel = channel;
                  listed = k.0;
                  enabled = k.1;
                  route = route;
                  offered = m;
                  same = refl;
                })
                (All-Memᴰ channel.models)))
            (All-keep _ (λ channel. channel.enabled) channels (All-Memᴰ channels)))))

  published :
      (channels : List GatewayChannel) (name : String)
      → includes (map (λ m. m.name) (read_light_rag_gateway_models outside channels)) name ≡ true
      → IsPublished channels name
  published channels name h =
      let (model, p, same) = named _ _ name (models-all channels) h in
      subst (IsPublished channels) same p

  accept_dimension-positive :
      (model : String) (answer : Answer (Option ℕ)) (dimension : ℕ)
      → accept_dimension outside model answer ≡ ok dimension
      → (answer.is_ok ≡ true) × (dimension_or answer.payload ≡ dimension) × (0 < dimension)
  unfolding accept_dimension
  accept_dimension-positive model answer dimension h =
      let (answered, h₁) = unless-thrown _ _ _ h in
      let (some_dimension, h₂) = unless-thrown _ _ _ h₁ in
      let same = ok-injective h₂ in
      (ground arith, same, subst (λ d. 0 < d) same (is-positive _ some_dimension))

  control_request-ok :
      {A : Type 0} (token : String) (response : Result (Answer A)) (payload : A)
      → control_request token response ≡ ok payload
      → (answer : Answer A) × (response ≡ ok answer)
        × (answer.is_ok ≡ true)
        × (answer.payload ≡ payload)
  unfolding control_request
  control_request-ok token response payload h =
      let (configured, h₁) = unless-thrown _ _ _ h in
      let (answer, given, h₂) = >>=-returned response _ h₁ in
      let (answered, h₃) = when-ok answer.is_ok _ _ h₂ in (answer, given, answered, ok-injective h₃)

  -- The configuration that was applied.
  pub record IsApplied (channels : List GatewayChannel) (draft : LightRagConfigDraft)
      (result : LightRagApplyResult) : Type 0 where
    pub current : LightRagConfig
    pub read :
        (before : Answer LightRagConfig) × (outside.get_config ≡ ok before)
        × (before.payload ≡ current)
    pub llm : IsPublished channels draft.llm_model
    pub embedding : IsPublished channels draft.embedding_model
    pub dimension : ℕ
    pub probed :
        (probe : Answer (Option ℕ)) × (outside.embed draft.embedding_model ≡ ok probe)
        × (dimension_or probe.payload ≡ dimension)
    pub positive : 0 < dimension
    pub put :
        (answer : Answer Applied) × (outside.put_config draft dimension ≡ ok answer)
        × (answer.is_ok ≡ true)
        × (answer.payload ≡ result.applied)
    pub kept :
        result.embedding_changed ≡ false
        → ((current.draft).embedding_model ≡ draft.embedding_model)
          × (current.embedding_dimension ≡ dimension)

  none-missing :
      (channels : List GatewayChannel) (draft : LightRagConfigDraft)
      → ltb 0 (length (missing_models (read_light_rag_gateway_models outside channels) draft))
        ≡ false
      → IsPublished channels draft.llm_model × IsPublished channels draft.embedding_model
  unfolding missing_models
  none-missing channels draft h =
      let (llm, embedding) = both-known _ draft.llm_model draft.embedding_model h in
      (published channels _ llm, published channels _ embedding)

  -- A configuration whose application returns names models that enabled channels publish; the dimension
  -- that is put with it is the one, above 0, of the embedding that the gateway gave for its embedding
  -- model, the control plane's answer is returned, and if the embedding is not reported as changed then
  -- the configuration before had this embedding model and this dimension.
  pub apply_light_rag_config-IsApplied :
      (channels : List GatewayChannel) (draft : LightRagConfigDraft) (result : LightRagApplyResult)
      → apply_light_rag_config outside (ok channels) draft ≡ ok result
      → IsApplied channels draft result
  unfolding apply_light_rag_config apply_published probe_embedding_dimension
  apply_light_rag_config-IsApplied channels draft result h =
      let (current, c, h₁) = >>=-returned (control_request outside.token outside.get_config) _ h in
      let (before, read, is_read, was) = control_request-ok outside.token _ current c in
      let (none_left, h₂) = unless-thrown _ _ _ h₁ in
      let (llm, embedding) = none-missing channels draft none_left in
      let (dimension, p, h₃) =
        >>=-returned (probe_embedding_dimension outside draft.embedding_model) _ h₂ in
      let (probe, probed, p₁) = >>=-returned (outside.embed draft.embedding_model) _ p in
      let (probe_ok, measured, positive) =
        accept_dimension-positive draft.embedding_model probe dimension p₁ in
      let (applied, a, h₄) =
        >>=-returned (control_request outside.token (outside.put_config draft dimension)) _ h₃ in
      let (answer, put, answered, same) = control_request-ok outside.token _ applied a in
      let end = ok-injective h₄ in
      record {
        current = current;
        read = (before, read, was);
        llm = llm;
        embedding = embedding;
        dimension = dimension;
        probed = (probe, probed, measured);
        positive = positive;
        put = (answer, put, answered, same ∙ ap (λ r. r.applied) end);
        kept = λ unchanged. unchanged-parts _ _ _ _ (ap (λ r. r.embedding_changed) end ∙ unchanged);
      }
