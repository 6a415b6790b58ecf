-- ===== src/Integrations/Secrets.antt =====
-- `encryptIntegrationSecret` and `decryptIntegrationSecret`.
use ai_base.Common.{
  ℕ, String, List, [], ◌∷◌, not, ◌||◌, Option, none, some, ◌===◌, ltb, if◌then◌else◌,
}
use ai_base.Common.Attempt.{Attempt, returned, failed, ◌>>=◌}
use ai_base.Text.{trim, text_length, is_empty, join}
use ai_base.Text.Cut.{split_on}
use ai_base.Integrations.{StoreError, store_error, Outside}

module _ (outside : Outside) (secret_key : Option String) where
  -- `secret_key` is `AI_CONSOLE_SECRET_ENCRYPTION_KEY`.
  unfoldable pub encryption_key : Attempt StoreError (List ℕ)
  encryption_key = elim secret_key [
    | none ↦ failed (store_error "AI Console 集成密钥未配置或长度不足 32 个字符" 503)
    | some secret ↦
        if ltb (text_length (trim secret)) 32
        then failed (store_error "AI Console 集成密钥未配置或长度不足 32 个字符" 503)
        else returned (outside.sha256 (trim secret))
  ]

  -- The parts with their separators.
  unfoldable pub sealed_text : List ℕ → List ℕ × List ℕ → String
  sealed_text nonce sealed =
      join "."
        ("v1" ∷ outside.encode nonce ∷ outside.encode sealed.1 ∷ outside.encode sealed.0 ∷ [])

  -- `nonce` is the random one of 12 bytes.
  unfoldable pub encrypt_integration_secret : List ℕ → String → Attempt StoreError String
  encrypt_integration_secret nonce secret =
      encryption_key >>= λ key. returned (sealed_text nonce (outside.encrypt key nonce secret))

  -- The `try` block: any failure, of the key as well, is that of the decryption.
  unfoldable pub decrypted : String → String → String → Option String
  decrypted nonce tag body = elim encryption_key [
    | failed error ↦ none
    | returned key ↦
        outside.decrypt key (outside.decode nonce) (outside.decode body) (outside.decode tag)
  ]

  unfoldable pub decrypt_parts : List String → Attempt StoreError String
  decrypt_parts (version ∷ nonce ∷ tag ∷ body ∷ []) =
      if not (version === "v1") || is_empty nonce || is_empty tag || is_empty body
      then failed (store_error "集成应用密钥格式无效" 500)
      else elim (decrypted nonce tag body) [
        | none ↦ failed (store_error "无法解密集成应用密钥" 500)
        | some secret ↦ returned secret
      ]
  decrypt_parts parts = failed (store_error "集成应用密钥格式无效" 500)

  unfoldable pub decrypt_integration_secret : String → Attempt StoreError String
  decrypt_integration_secret payload = decrypt_parts (split_on b'.' payload)
