-- ===== src/LightRag/Accepted.antt =====
-- The bounds of an accepted configuration.
use ai_base.Common.{
  ℕ, ◌-◌, ◌≤◌, ◌<◌, String, ◌≡◌, refl, subst, [], false, ◌||◌, Option, none, some, ltb, arith, inl,
  inr, Bool-cases, ltb-false→le,
}
use ai_base.Common.Results.{report-eq-nil, split-append-nil}
use ai_base.Json.{Json, null, bool, int, negative, fraction, str, arr, obj, Fields, get_field}
use ai_base.Gateway.Types.{valid}
use ai_base.Gateway.Channels.{verdict-valid}
use ai_base.LightRag.{
  smaller, LightRagConfigDraft, read_integer, is_bad_model, read_model, unsupported_fields,
  read_config, validate_light_rag_config_input,
}

-- A number that is read without an error is the given one and within its bounds.
read_integer-bounds :
    (value : Option Json) (name : String) (minimum maximum : ℕ)
    → (read_integer value name minimum maximum).errors ≡ []
    → (value ≡ some (int (read_integer value name minimum maximum).value))
      × (minimum ≤ (read_integer value name minimum maximum).value)
      × ((read_integer value name minimum maximum).value ≤ maximum)
unfolding read_integer
read_integer-bounds none name minimum maximum h = cc
read_integer-bounds (some null) name minimum maximum h = cc
read_integer-bounds (some (bool b)) name minimum maximum h = cc
read_integer-bounds (some (negative n)) name minimum maximum h = cc
read_integer-bounds (some (fraction s)) name minimum maximum h = cc
read_integer-bounds (some (str s)) name minimum maximum h = cc
read_integer-bounds (some (arr vs)) name minimum maximum h = cc
read_integer-bounds (some (obj fields)) name minimum maximum h = cc
read_integer-bounds (some (int n)) name minimum maximum h =
    elim (Bool-cases (ltb n minimum || ltb maximum n)) [
      | inl out ↦ let wrong = rw (out, read_integer) at h in cc
      | inr fits ↦
          rw (fits, read_integer)
            (refl, ltb-false→le _ _ (ground arith), ltb-false→le _ _ (ground arith))
    ]

read_model-fits :
    (value : Option Json) (name : String)
    → (read_model value name).errors ≡ []
    → is_bad_model (read_model value name).value ≡ false
unfolding read_model
read_model-fits value name h = (report-eq-nil _ _ h).0

smaller-le : (a b : ℕ) → (smaller a b ≤ a) × (smaller a b ≤ b)
smaller-le a b = elim (Bool-cases (ltb b a)) [
  | inl e ↦ rw e (ground arith, ground arith)
  | inr e ↦ rw e (ground arith, ltb-false→le _ _ e)
]

-- A configuration whose numbers are the given ones and within their bounds, whose overlap is less than a
-- chunk, and whose models are texts of at most 200 characters that are not empty and have no spaces.
pub record IsAcceptedConfig (fields : Fields) (config : LightRagConfigDraft) : Type 0 where
  pub known : unsupported_fields fields ≡ []
  pub size :
      (get_field fields "chunkSize" ≡ some (int config.chunk_size))
      × (256 ≤ config.chunk_size)
      × (config.chunk_size ≤ 8000)
  pub overlap :
      (get_field fields "chunkOverlapSize" ≡ some (int config.chunk_overlap_size))
      × (config.chunk_overlap_size < config.chunk_size)
      × (config.chunk_overlap_size ≤ 2000)
  pub llm : is_bad_model config.llm_model ≡ false
  pub embedding : is_bad_model config.embedding_model ≡ false
  pub limit :
      (get_field fields "embeddingTokenLimit" ≡ some (int config.embedding_token_limit))
      × (256 ≤ config.embedding_token_limit)
      × (config.embedding_token_limit ≤ 131072)
  pub max_async :
      (get_field fields "maxAsync" ≡ some (int config.max_async))
      × (1 ≤ config.max_async)
      × (config.max_async ≤ 32)
  pub max_insert :
      (get_field fields "maxParallelInsert" ≡ some (int config.max_parallel_insert))
      × (1 ≤ config.max_parallel_insert)
      × (config.max_parallel_insert ≤ 16)

le_trans : {a b c : ℕ} → a ≤ b → b ≤ c → a ≤ c
le_trans h k = omega arith

below-size : (overlap size : ℕ) → overlap ≤ size - 1 → 256 ≤ size → overlap < size
below-size overlap size h k = omega arith

read_config-bounds :
    (fields : Fields)
    → unsupported_fields fields ≡ []
    → (read_config fields).errors ≡ []
    → IsAcceptedConfig fields (read_config fields).value
unfolding read_config
read_config-bounds fields known h =
    let (e₁, h₁) = split-append-nil _ _ h in
    let (e₂, h₂) = split-append-nil _ _ h₁ in
    let (e₃, h₃) = split-append-nil _ _ h₂ in
    let (e₄, h₄) = split-append-nil _ _ h₃ in
    let (e₅, h₅) = split-append-nil _ _ h₄ in
    let (e₆, h₆) = split-append-nil _ _ h₅ in
    let (e₇, h₇) = split-append-nil _ _ h₆ in
    let (e₈, h₈) = split-append-nil _ _ h₇ in
    let size = read_integer-bounds (get_field fields "chunkSize") _ _ _ e₁ in
    let overlap = read_integer-bounds (get_field fields "chunkOverlapSize") _ _ _ e₂ in
    let (most, less) = smaller-le 2000 _ in
    record {
      known = known;
      size = size;
      overlap =
          (overlap.0, below-size _ _ (le_trans overlap.2 less) size.1, le_trans overlap.2 most);
      llm = read_model-fits (get_field fields "llmModel") _ e₄;
      embedding = read_model-fits (get_field fields "embeddingModel") _ e₅;
      limit = read_integer-bounds (get_field fields "embeddingTokenLimit") _ _ _ e₆;
      max_async = read_integer-bounds (get_field fields "maxAsync") _ _ _ e₇;
      max_insert = read_integer-bounds (get_field fields "maxParallelInsert") _ _ _ e₈;
    }

-- A body that is accepted is an object without unknown fields, and of the configuration the numbers are
-- the given ones and within their bounds, the overlap is less than the chunk size, and the models are
-- texts of at most 200 characters that are not empty and have no spaces.
pub validate_light_rag_config_input-IsAcceptedConfig :
    (fields : Fields) (config : LightRagConfigDraft)
    → validate_light_rag_config_input (obj fields) ≡ valid config
    → IsAcceptedConfig fields config
unfolding validate_light_rag_config_input
validate_light_rag_config_input-IsAcceptedConfig fields config h =
    let (no_errors, same) = verdict-valid _ _ h in
    let (known, rest) = split-append-nil _ _ no_errors in
    subst (IsAcceptedConfig fields) same (read_config-bounds fields known rest)
