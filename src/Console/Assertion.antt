-- ===== src/Console/Assertion.antt =====
-- `verifyPomeriumAssertion`.
use ai_base.Common.{
  ℕ, zero, ◌+◌, String, List, [], ◌∷◌, Bool, true, false, not, ◌&&◌, ◌||◌, Option, none, some,
  ◌===◌, ◌<>◌, any, includes,
}
use ai_base.Common.Attempt.{Attempt, returned, failed, fail_if}
use ai_base.Common.Integers.{ℤ, exceeds, at_most}
use ai_base.Text.{is_empty, strip_slash}
use ai_base.Text.Cut.{split_on}
use ai_base.Json.{Json, Fields, int, str, get_field}
use ai_base.Console.{AuthError, auth_error, Outside}
use ai_base.Console.Claims.{
  string_claim, numeric_claim, audience_claim, decode_part, decode_pomerium_assertion,
}

-- `header.alg === "ES256"`
unfoldable pub is_es256 : Option Json → Bool
is_es256 (some (str alg)) = alg === "ES256"
is_es256 value = false

-- The `try` block.
unfoldable pub is_signed : Outside → String → String → String → String → Bool
is_signed outside public_key header payload signature =
    is_es256 (get_field (decode_part outside header) "alg")
    && outside.verifies public_key (header <> ("." <> payload)) (outside.platform.decode signature)

-- `0` is no expiry.
unfoldable pub is_zero : Option Json → Bool
is_zero (some (int zero)) = true
is_zero value = false

unfoldable pub is_past : Option ℤ → ℕ → Bool
is_past none now = true
is_past (some expires) now = at_most expires now 30

unfoldable pub is_early : Option ℤ → ℕ → Bool
is_early none now = false
is_early (some not_before) now = exceeds not_before (now + 30)

unfoldable pub is_stale : Outside → Fields → ℕ → Bool
is_stale outside claims now =
    is_zero (get_field claims "exp")
    || is_past (numeric_claim outside (get_field claims "exp")) now
    || is_early (numeric_claim outside (get_field claims "nbf")) now

-- The test of the audience, where one is expected.
unfoldable pub misses_audience : Option (List String) → Fields → Bool
misses_audience none claims = false
misses_audience (some expected) claims =
    not (any (λ audience. includes (audience_claim (get_field claims "aud")) audience) expected)

unfoldable pub same_issuer : Option String → String → Bool
same_issuer none expected = false
same_issuer (some issuer) expected = strip_slash issuer === strip_slash expected

unfoldable pub misses_issuer : Option String → Fields → Bool
misses_issuer none claims = false
misses_issuer (some expected) claims =
    not (is_empty expected) && not (same_issuer (string_claim (get_field claims "iss")) expected)

module _ (outside : Outside) (public_key : String) (audience : Option (List String))
    (issuer : Option String) (now : ℕ) where
  -- From the split on.
  unfoldable pub verify_assertion_parts : String → List String → Attempt AuthError Fields
  verify_assertion_parts assertion (header ∷ payload ∷ signature ∷ []) =
      let claims = decode_pomerium_assertion outside (some assertion) in
      fail_if (is_empty header || is_empty payload || is_empty signature)
        (auth_error "Pomerium 身份断言格式无效" 401)
        (fail_if (not (is_signed outside public_key header payload signature))
          (auth_error "Pomerium 身份断言签名无效" 401)
          (fail_if (is_stale outside claims now) (auth_error "Pomerium 身份断言已过期或尚未生效" 401) (
            fail_if (misses_audience audience claims) (auth_error "Pomerium 身份断言 Audience 不匹配" 401)
              (fail_if (misses_issuer issuer claims) (auth_error "Pomerium 身份断言 Issuer 不匹配" 401)
                (returned claims)))))
  verify_assertion_parts assertion parts = failed (auth_error "Pomerium 身份断言格式无效" 401)

  unfoldable pub verify_pomerium_assertion : String → Attempt AuthError Fields
  verify_pomerium_assertion assertion = verify_assertion_parts assertion (split_on b'.' assertion)
