-- ===== src/Integrations/Sealed.antt =====
-- A secret that was encrypted decrypts.
use ai_base.Common.{ℕ, String, ◌≡◌, refl, subst, List, [], ◌∷◌, false, Option, some}
use ai_base.Common.Attempt.{returned, returned-injective}
use ai_base.Text.{is_empty, join, all_chars}
use ai_base.Text.Cut.{split_on}
use ai_base.Text.Parts.{HasNo, split_on_last, split_on-append}
use ai_base.Integrations.{Outside}
use ai_base.Integrations.Secrets.{
  encryption_key, sealed_text, encrypt_integration_secret, decrypted, decrypt_parts,
  decrypt_integration_secret,
}

-- What base64url promises of bytes: it reads back what it wrote, writes no dot, and writes something.
pub record Writes (outside : Outside) (bytes : List ℕ) : Type 0 where
  pub back : outside.decode (outside.encode bytes) ≡ bytes
  pub plain : HasNo b'.' (outside.encode bytes)
  pub given : is_empty (outside.encode bytes) ≡ false

module _ (outside : Outside) (secret_key : Option String) where
  module _ (nonce body tag : List ℕ) (w₁ : Writes outside nonce) (w₂ : Writes outside tag)
      (w₃ : Writes outside body) where
    sealed-split :
        split_on b'.' (sealed_text outside secret_key nonce (body, tag))
        ≡ "v1" ∷ outside.encode nonce ∷ outside.encode tag ∷ outside.encode body ∷ []
    unfolding sealed_text join all_chars
    sealed-split =
        rw
          (
            split_on-append "v1" _ refl,
            split_on-append (outside.encode nonce) _ w₁.plain,
            split_on-append (outside.encode tag) _ w₂.plain,
            split_on_last b'.' _ w₃.plain,
          )
          refl

    sealed-decrypts :
        (key : List ℕ) (secret : String)
        → encryption_key outside secret_key ≡ returned key
        → outside.decrypt key nonce body tag ≡ some secret
        → decrypt_integration_secret outside secret_key
            (sealed_text outside secret_key nonce (body, tag))
          ≡ returned secret
    unfolding decrypt_integration_secret decrypt_parts decrypted
    sealed-decrypts key secret keyed opens =
        rw
          (
            decrypt_integration_secret, sealed-split, decrypt_parts, w₁.given, w₂.given, w₃.given,
            decrypted, keyed, w₁.back, w₂.back, w₃.back, opens,
          )
          refl

  -- With a configured key, decrypting what encrypting a secret gives returns the secret, if base64url reads
  -- back the nonce, the ciphertext and the tag, writes them without a dot and not as the empty text, and the
  -- cipher opens what it sealed.
  pub decrypt_integration_secret-encrypt_integration_secret :
      (key nonce : List ℕ) (secret text : String)
      → encryption_key outside secret_key ≡ returned key
      → Writes outside nonce
      → Writes outside (outside.encrypt key nonce secret).0
      → Writes outside (outside.encrypt key nonce secret).1
      → outside.decrypt key nonce
          (outside.encrypt key nonce secret).0
          (outside.encrypt key nonce secret).1
        ≡ some secret
      → encrypt_integration_secret outside secret_key nonce secret ≡ returned text
      → decrypt_integration_secret outside secret_key text ≡ returned secret
  unfolding encrypt_integration_secret
  decrypt_integration_secret-encrypt_integration_secret key nonce secret text keyed w₁ w₂ w₃ opens
        h =
      let same = returned-injective (rw (encrypt_integration_secret, keyed) at h) in
      subst (λ t. decrypt_integration_secret outside secret_key t ≡ returned secret) same
        (sealed-decrypts nonce _ _ w₁ w₃ w₂ key secret keyed opens)
