-- ===== src/LightRag/Apply.antt =====
-- `readLightRagGatewayModels`, `probeEmbeddingDimension` and `applyLightRagConfig`. What `fetch` gives is a
-- parameter, with its body in the type that the source reads it in.
use ai_base.Common.{
  ℕ, String, List, [], ◌∷◌, keep, map, concat, sort_by, includes, length, Bool, not, ◌||◌, Option,
  none, some, ltb, ◌==◌, ◌===◌, ◌<>◌, if◌then◌else◌,
}
use ai_base.Common.Results.{Result, ok, thrown}
use ai_base.Common.Throwing.{◌>>=◌}
use ai_base.Text.{trim, is_empty, decimal, join, or_else}
use ai_base.Gateway.Types.{GatewayProvider, GatewayModelRoute, GatewayChannel}
use ai_base.LightRag.{LightRagConfigDraft}

pub record LightRagGatewayModel : Type 0 where
  pub name : String
  pub channel_id : String
  pub channel_name : String
  pub provider : GatewayProvider

pub record LightRagConfig : Type 0 where
  pub draft : LightRagConfigDraft
  pub embedding_dimension : ℕ
  pub revision : String
  pub updated_at : String

pub record Applied : Type 0 where
  pub ready : Bool
  pub pid : Option ℕ
  pub config : LightRagConfig
  pub message : String

-- A response: `response.ok`, its status, `payload.error`, "" where there is none, and the body.
pub record Answer (A : Type 0) : Type 0 where
  pub is_ok : Bool
  pub status : ℕ
  pub error : String
  pub payload : A

-- The control plane with its token, the gateway, and the order of `localeCompare`.
pub record Outside : Type 0 where
  pub collates : String → String → Bool
  -- `process.env.LIGHTRAG_ADMIN_TOKEN`, "" where it is missing.
  pub token : String
  pub get_config : Result (Answer LightRagConfig)
  pub put_config : LightRagConfigDraft → ℕ → Result (Answer Applied)
  -- The lengths of `data[0].embedding`, `none` where there is no such array.
  pub embed : String → Result (Answer (Option ℕ))

unfoldable pub channel_model : GatewayChannel → GatewayModelRoute → LightRagGatewayModel
channel_model channel model = record {
  name = model.public_name;
  channel_id = channel.id;
  channel_name = channel.name;
  provider = channel.provider;
}

unfoldable pub control_request : {A : Type 0} → String → Result (Answer A) → Result A
control_request token response =
    if is_empty (trim token)
    then thrown "LightRAG 内部管理令牌未配置"
    else response >>= λ answer.
        if answer.is_ok
        then ok answer.payload
        else thrown (or_else answer.error ("LightRAG 控制面返回 HTTP " <> decimal answer.status))

-- The dimension, 0 where there is none.
abbrev pub dimension_or : Option ℕ → ℕ
dimension_or none = 0
dimension_or (some dimension) = dimension

-- The models of the draft that no channel publishes.
unfoldable pub missing_models : List LightRagGatewayModel → LightRagConfigDraft → List String
missing_models models draft =
    keep (λ model. not (includes (map (λ m. m.name) models) model))
      (draft.llm_model ∷ draft.embedding_model ∷ [])

pub record LightRagApplyResult : Type 0 where
  pub applied : Applied
  pub available_models : List LightRagGatewayModel
  pub embedding_changed : Bool

module _ (outside : Outside) where
  unfoldable pub read_light_rag_gateway_models : List GatewayChannel → List LightRagGatewayModel
  read_light_rag_gateway_models channels =
      sort_by (λ left right. outside.collates left.name right.name)
        (concat (
          map (λ channel. map (channel_model channel) channel.models)
            (keep (λ channel. channel.enabled) channels)))

  unfoldable pub accept_dimension : String → Answer (Option ℕ) → Result ℕ
  accept_dimension model answer =
      if not answer.is_ok
      then thrown (
          "模型 "
          <> (model
              <> (" 不能用于 Embedding"
                  <> (if is_empty answer.error then "" else "：" <> answer.error))))
      else if dimension_or answer.payload == 0
      then thrown ("模型 " <> (model <> " 未返回有效 Embedding 向量"))
      else ok (dimension_or answer.payload)

  unfoldable pub probe_embedding_dimension : String → Result ℕ
  probe_embedding_dimension model = outside.embed model >>= accept_dimension model

  -- From the test of the models on.
  unfoldable pub apply_published :
      LightRagConfig → List LightRagGatewayModel → LightRagConfigDraft → Result LightRagApplyResult
  apply_published current models draft =
      probe_embedding_dimension draft.embedding_model >>= λ dimension.
      control_request outside.token (outside.put_config draft dimension) >>= λ applied. ok (record {
        applied = applied;
        available_models = models;
        embedding_changed =
            not ((current.draft).embedding_model === draft.embedding_model)
            || not (current.embedding_dimension == dimension);
      })

  -- The channels are those of the snapshot that `readGatewayChannels` gives.
  unfoldable pub apply_light_rag_config :
      Result (List GatewayChannel) → LightRagConfigDraft → Result LightRagApplyResult
  apply_light_rag_config snapshot draft =
      control_request outside.token outside.get_config >>= λ current. snapshot >>= λ channels.
      let models = read_light_rag_gateway_models channels in
      let missing = missing_models models draft in
      if ltb 0 (length missing)
      then thrown ("所选模型未由启用的大模型渠道发布：" <> join "、" missing)
      else apply_published current models draft
