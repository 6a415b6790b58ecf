-- ===== src/LightRag.antt =====
-- ai-console/src/lib/server/lightrag-config.ts: the settings of the knowledge service, from the request body
-- to the request that applies them.
pub mod Accepted
pub mod Apply
pub mod Published
mod Tests
use ai_base.Common.{
  ℕ, ◌-◌, String, List, [], ◌∷◌, ◌++◌, keep, map, includes, Bool, not, ◌||◌, Option, none, some,
  ltb, ◌===◌, ◌<>◌, if◌then◌else◌,
}
use ai_base.Common.Results.{Checked, ◌>>=◌, ◌>>◌, give, report}
use ai_base.Text.{trim, text_length, has_space, is_empty, decimal}
use ai_base.Json.{Json, int, str, obj, Fields, get_field, keys, trimmed_or}
use ai_base.Gateway.Types.{Validation, invalid}
use ai_base.Gateway.Channels.{verdict}

pub data SummaryLanguage : Type 0 where
  chinese english : SummaryLanguage

pub record LightRagConfigDraft : Type 0 where
  pub llm_model : String
  pub embedding_model : String
  pub embedding_token_limit : ℕ
  pub summary_language : SummaryLanguage
  pub max_async : ℕ
  pub max_parallel_insert : ℕ
  pub chunk_size : ℕ
  pub chunk_overlap_size : ℕ

-- `allowed`
abbrev pub allowed_fields : List String
allowed_fields =
    "llmModel" ∷ "embeddingModel" ∷ "embeddingTokenLimit" ∷ "summaryLanguage" ∷ "maxAsync"
    ∷ "maxParallelInsert" ∷ "chunkSize" ∷ "chunkOverlapSize" ∷ []

-- `Math.min(a, b)`
abbrev pub smaller : ℕ → ℕ → ℕ
smaller a b = if ltb b a then b else a

abbrev out_of_range : String → ℕ → ℕ → Checked ℕ
out_of_range name minimum maximum = record {
  errors = (name <> " must be between " <> decimal minimum <> " and " <> decimal maximum) ∷ [];
  value = minimum;
}

unfoldable pub read_integer : Option Json → String → ℕ → ℕ → Checked ℕ
read_integer (some (int n)) name minimum maximum =
    if ltb n minimum || ltb maximum n then out_of_range name minimum maximum else give n
read_integer value name minimum maximum = out_of_range name minimum maximum

unfoldable pub is_bad_model : String → Bool
is_bad_model model = is_empty model || ltb 200 (text_length model) || has_space model

unfoldable pub read_model : Option Json → String → Checked String
read_model value name =
    let model = trimmed_or "" value in
    do
      report (is_bad_model model) (name <> " must be a configured gateway model without spaces")
      give model

unfoldable pub read_language : Option Json → Checked SummaryLanguage
read_language (some (str s)) =
    if s === "Chinese"
    then give chinese
    else if s === "English"
    then give english
    else record { errors = "summaryLanguage must be Chinese or English" ∷ []; value = chinese }
read_language value = record {
  errors = "summaryLanguage must be Chinese or English" ∷ [];
  value = chinese;
}

unfoldable pub unsupported_fields : Fields → List String
unsupported_fields fields =
    map (λ key. "unsupported field: " <> key)
      (keep (λ key. not (includes allowed_fields key)) (keys fields))

unfoldable pub read_config : Fields → Checked LightRagConfigDraft
read_config fields = do
  chunk_size ← read_integer (get_field fields "chunkSize") "chunkSize" 256 8000
  overlap ←
      read_integer (get_field fields "chunkOverlapSize") "chunkOverlapSize" 0
        (smaller 2000 (chunk_size - 1))
  language ← read_language (get_field fields "summaryLanguage")
  llm ← read_model (get_field fields "llmModel") "llmModel"
  embedding ← read_model (get_field fields "embeddingModel") "embeddingModel"
  limit ← read_integer (get_field fields "embeddingTokenLimit") "embeddingTokenLimit" 256 131072
  max_async ← read_integer (get_field fields "maxAsync") "maxAsync" 1 32
  max_insert ← read_integer (get_field fields "maxParallelInsert") "maxParallelInsert" 1 16
  give (record {
    llm_model = llm;
    embedding_model = embedding;
    embedding_token_limit = limit;
    summary_language = language;
    max_async = max_async;
    max_parallel_insert = max_insert;
    chunk_size = chunk_size;
    chunk_overlap_size = overlap;
  })

unfoldable pub validate_light_rag_config_input : Json → Validation LightRagConfigDraft
validate_light_rag_config_input (obj fields) =
    let checked = read_config fields in
    verdict (unsupported_fields fields ++ checked.errors) checked.value
validate_light_rag_config_input value = invalid ("request body must be an object" ∷ [])
