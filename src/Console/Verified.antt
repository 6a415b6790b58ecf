-- ===== src/Console/Verified.antt =====
-- What holds of an assertion that verifies.
use ai_base.Common.{
  ℕ, String, ◌≡◌, refl, subst, List, [], ◌∷◌, true, false, Option, none, some, ◌<>◌, arith,
}
use ai_base.Common.Attempt.{returned, fail_if-returned, returned-injective}
use ai_base.Common.Integers.{ℤ, at_most}
use ai_base.Text.Cut.{split_on}
use ai_base.Json.{Fields, get_field}
use ai_base.Console.{Outside}
use ai_base.Console.Claims.{numeric_claim, decode_part, decode_pomerium_assertion}
use ai_base.Console.Assertion.{
  is_es256, is_signed, is_past, is_early, is_stale, misses_audience, misses_issuer,
  verify_assertion_parts, verify_pomerium_assertion,
}

module _ (outside : Outside) (public_key : String) (audience : Option (List String))
    (issuer : Option String) (now : ℕ) where
  -- The assertion has three parts that are not empty, is signed under ES256 with the public key, and its
  -- claims are those of its payload, not expired but for 30 seconds, and of an expected audience and issuer.
  pub record IsAsserted (assertion : String) (claims : Fields) : Type 0 where
    pub header : String
    pub payload : String
    pub signature : String
    pub parts : split_on b'.' assertion ≡ header ∷ payload ∷ signature ∷ []
    pub signed_by : is_es256 (get_field (decode_part outside header) "alg") ≡ true
    pub signed :
        outside.verifies public_key (header <> ("." <> payload)) (outside.platform.decode signature)
        ≡ true
    pub read : claims ≡ decode_pomerium_assertion outside (some assertion)
    pub expires : ℤ
    pub dated : numeric_claim outside (get_field claims "exp") ≡ some expires
    pub live : at_most expires now 30 ≡ false
    pub begun : is_early (numeric_claim outside (get_field claims "nbf")) now ≡ false
    pub heard : misses_audience audience claims ≡ false
    pub issued : misses_issuer issuer claims ≡ false

  not_past :
      (expiry : Option ℤ)
      → is_past expiry now ≡ false
      → (e : ℤ) × (expiry ≡ some e) × (at_most e now 30 ≡ false)
  unfolding is_past
  not_past none h = cc
  not_past (some e) h = (e, refl, h)

  not_stale :
      (claims : Fields)
      → is_stale outside claims now ≡ false
      → (e : ℤ) × (numeric_claim outside (get_field claims "exp") ≡ some e)
        × (at_most e now 30 ≡ false)
        × (is_early (numeric_claim outside (get_field claims "nbf")) now ≡ false)
  unfolding is_stale
  not_stale claims h =
      let (e, dated, live) =
        not_past (numeric_claim outside (get_field claims "exp")) (ground arith) in
      (e, dated, live, ground arith)

  parts-IsAsserted :
      (assertion : String) (parts : List String) (claims : Fields)
      → split_on b'.' assertion ≡ parts
      → verify_assertion_parts outside public_key audience issuer now assertion parts
        ≡ returned claims
      → IsAsserted assertion claims
  unfolding verify_assertion_parts is_signed
  parts-IsAsserted assertion [] claims split h = cc
  parts-IsAsserted assertion (header ∷ []) claims split h = cc
  parts-IsAsserted assertion (header ∷ payload ∷ []) claims split h = cc
  parts-IsAsserted assertion (header ∷ payload ∷ signature ∷ more ∷ rest) claims split h = cc
  parts-IsAsserted assertion (header ∷ payload ∷ signature ∷ []) claims split h =
      let (given, h₁) = fail_if-returned _ _ _ h in
      let (signed, h₂) = fail_if-returned _ _ _ h₁ in
      let (fresh, h₃) = fail_if-returned _ _ _ h₂ in
      let (heard, h₄) = fail_if-returned _ _ _ h₃ in
      let (issued, h₅) = fail_if-returned _ _ _ h₄ in
      let (expires, dated, live, begun) = not_stale _ fresh in
      subst (IsAsserted assertion) (returned-injective h₅) (record {
        header = header;
        payload = payload;
        signature = signature;
        parts = split;
        signed_by = ground arith;
        signed = ground arith;
        read = refl;
        expires = expires;
        dated = dated;
        live = live;
        begun = begun;
        heard = heard;
        issued = issued;
      })

  -- An assertion that verifies has three parts, carries an ES256 signature that verifies under the public
  -- key, and the claims are those of its payload: they carry an expiry that is later than 30 seconds ago,
  -- do not begin more than 30 seconds from now, and have an audience and the issuer that are expected, if any are.
  pub verify_pomerium_assertion-IsAsserted :
      (assertion : String) (claims : Fields)
      → verify_pomerium_assertion outside public_key audience issuer now assertion ≡ returned claims
      → IsAsserted assertion claims
  unfolding verify_pomerium_assertion
  verify_pomerium_assertion-IsAsserted assertion claims h =
      parts-IsAsserted assertion (split_on b'.' assertion) claims refl h
