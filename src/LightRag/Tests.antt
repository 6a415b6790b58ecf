-- ===== src/LightRag/Tests.antt =====
-- A configuration that is accepted, and its application.
use ai_base.Common.{◌≡◌, refl, keep, includes}
use ai_base.Common.{true, false, none, some, sort_by, insert_by, [], ◌∷◌}
use ai_base.Common.Results.{ok, push_if}
use ai_base.LightRag.Apply.{
  LightRagConfig, Applied, Answer, Outside, channel_model, control_request, missing_models,
  LightRagApplyResult, read_light_rag_gateway_models, accept_dimension, probe_embedding_dimension,
  apply_published, apply_light_rag_config,
}
use ai_base.LightRag.Published.{IsApplied, apply_light_rag_config-IsApplied}
use ai_base.Text.{is_space, trim_start, trim_end, trim, text_length, has_space, is_empty}
use ai_base.Json.{int, str, obj, Fields, end, field, get_field, keys}
use ai_base.Gateway.Types.{openai, GatewayChannel, valid}
use ai_base.Gateway.Channels.{verdict}
use ai_base.LightRag.{
  english, LightRagConfigDraft, read_integer, is_bad_model, read_model, read_language,
  unsupported_fields, read_config, validate_light_rag_config_input,
}
use ai_base.LightRag.Accepted.{IsAcceptedConfig, validate_light_rag_config_input-IsAcceptedConfig}

abbrev body : Fields
body = field "llmModel" (str " qwen ") (
    field "embeddingModel" (str "bge") (
      field "embeddingTokenLimit" (int 8192) (
        field "summaryLanguage" (str "English") (
          field "maxAsync" (int 4) (
            field "maxParallelInsert" (int 2)
              (field "chunkSize" (int 256) (field "chunkOverlapSize" (int 255) end)))))))

abbrev config : LightRagConfigDraft
config = record {
  llm_model = "qwen";
  embedding_model = "bge";
  embedding_token_limit = 8192;
  summary_language = english;
  max_async = 4;
  max_parallel_insert = 2;
  chunk_size = 256;
  chunk_overlap_size = 255;
}

accepts : validate_light_rag_config_input (obj body) ≡ valid config
unfolding validate_light_rag_config_input verdict unsupported_fields read_config read_integer
    read_model is_bad_model read_language get_field keys keep includes text_length has_space
    is_empty is_space trim_start trim_end trim push_if
accepts = refl

validate_light_rag_config_input-IsAcceptedConfig_example : IsAcceptedConfig body config
validate_light_rag_config_input-IsAcceptedConfig_example =
    validate_light_rag_config_input-IsAcceptedConfig body config accepts

abbrev channel : GatewayChannel
channel = record {
  stored = record {
    id = "main";
    name = "Main";
    provider = openai;
    base_url = "https://api.example.com";
    enabled = true;
    models =
        record { public_name = "qwen"; upstream_name = "q" }
        ∷ record { public_name = "bge"; upstream_name = "b" }
        ∷ [];
    created_at = "";
    updated_at = "";
  };
  key_configured = false;
}

abbrev current : LightRagConfig
current = record { draft = config; embedding_dimension = 3; revision = "r1"; updated_at = "" }

abbrev applied : Applied
applied = record { ready = true; pid = none; config = current; message = "done" }

abbrev answer : {A : Type 0} → A → Answer A
answer payload = record { is_ok = true; status = 200; error = ""; payload = payload }

abbrev outside : Outside
outside = record {
  collates = λ a b. false;
  token = "t";
  get_config = ok (answer current);
  put_config = λ draft dimension. ok (answer applied);
  embed = λ model. ok (answer (some 3));
}

abbrev result : LightRagApplyResult
result = record {
  applied = applied;
  available_models = read_light_rag_gateway_models outside (channel ∷ []);
  embedding_changed = false;
}

applies : apply_light_rag_config outside (ok (channel ∷ [])) config ≡ ok result
unfolding apply_light_rag_config apply_published probe_embedding_dimension accept_dimension
    control_request missing_models read_light_rag_gateway_models channel_model sort_by insert_by
    keep includes is_empty is_space trim_start trim_end trim
applies = refl

apply_light_rag_config-IsApplied_example : IsApplied outside (channel ∷ []) config result
apply_light_rag_config-IsApplied_example =
    apply_light_rag_config-IsApplied outside (channel ∷ []) config result applies
