-- ===== src/Session/Verified.antt =====
-- What holds of a session token that verifies.
use ai_base.Common.{
  ℕ, ◌+◌, ◌≤◌, ◌<◌, String, ◌≡◌, ◌≢◌, refl, sym, subst, ◌∙◌, ap, List, [], ◌∷◌, true, false, not,
  ◌||◌, Option, some, ◌===◌, arith, inl, inr, Bool-cases, Option-cases, ===→≡, ◌<>◌, ltb,
}
use ai_base.Common.Results.{ok, thrown}
use ai_base.Common.Throwing.{>>=-returned, ok-injective}
use ai_base.Common.Integers.{ℤ, pos, negsuc, exceeds, at_most, differ_by}
use ai_base.Text.{is_empty, text_length}
use ai_base.Text.Cut.{split_on}
use ai_base.Json.{Json, Fields, obj, object?}
use ai_base.Session.{Platform}
use ai_base.Session.Token.{
  WeComConsoleSessionClaims, session_lifetime_seconds, session_max_length,
  session_clock_skew_seconds, invalid_session, read_claims, parse_payload, same_bytes, is_expired,
  session_key, session_signature, read_payload, check_times, verify_signed, verify_parts,
  verify_we_com_console_session,
}

pub thrown-ne-ok : {A : Type 0} {message : String} (a : A) → thrown message ≢ ok a
thrown-ne-ok a h = cc

pub object-eq : (value : Json) (fields : Fields) → object? value ≡ some fields → value ≡ obj fields
object-eq (obj fields) others h = cc
object-eq value others h = cc

same_bytes_sound : (xs ys : List ℕ) → same_bytes xs ys ≡ true → xs ≡ ys
unfolding same_bytes
same_bytes_sound [] [] h = refl
same_bytes_sound [] (y ∷ ys) h = cc
same_bytes_sound (x ∷ xs) [] h = cc
same_bytes_sound (x ∷ xs) (y ∷ ys) h = ground (arith, same_bytes_sound xs ys (ground arith))

-- The claims expire after `now`, but for the clock's skew, and were issued 12 hours before that.
pub record IsFresh (now : ℕ) (claims : WeComConsoleSessionClaims) : Type 0 where
  pub expiry : ℕ
  pub expires : claims.expires_at ≡ pos expiry
  pub live : now < expiry + session_clock_skew_seconds
  pub soon : expiry ≤ now + session_clock_skew_seconds + session_lifetime_seconds
  pub span : differ_by claims.issued_at claims.expires_at session_lifetime_seconds ≡ true

unexpired-times :
    (now : ℕ) (issued expires : ℤ)
    → session_clock_skew_seconds ≤ now
    → exceeds issued (now + session_clock_skew_seconds) ≡ false
    → at_most expires now session_clock_skew_seconds ≡ false
    → differ_by issued expires session_lifetime_seconds ≡ true
    → (e : ℕ) × (expires ≡ pos e)
      × (now < e + session_clock_skew_seconds)
      × (e ≤ now + session_clock_skew_seconds + session_lifetime_seconds)
unfolding exceeds at_most differ_by
unexpired-times now (pos i) (pos e) k h₁ h₂ h₃ = (e, refl, ground arith, ground arith)
unexpired-times now (negsuc i) (pos e) k h₁ h₂ h₃ = (e, refl, ground arith, ground arith)
unexpired-times now issued (negsuc e) k h₁ h₂ h₃ = absurd (ground arith)

unexpired :
    (now : ℕ) (claims : WeComConsoleSessionClaims)
    → session_clock_skew_seconds ≤ now
    → is_expired claims now ≡ false
    → IsFresh now claims
unfolding is_expired
unexpired now claims k h =
    let (e, same, live, soon) =
      unexpired-times now claims.issued_at claims.expires_at k (ground arith) (ground arith)
        (ground arith) in
    record { expiry = e; expires = same; live = live; soon = soon; span = ground arith }

pub parse-claimed :
    (value : Json) (claims : WeComConsoleSessionClaims)
    → parse_payload value ≡ ok claims
    → (fields : Fields) × (value ≡ obj fields) × (read_claims fields ≡ some claims)
unfolding parse_payload invalid_session
parse-claimed value claims h = elim (Option-cases (object? value)) [
  | inl n ↦ absurd (thrown-ne-ok claims (rw (parse_payload, n) at h))
  | inr (fields, e) ↦ elim (Option-cases (read_claims fields)) [
    | inl n ↦ absurd (thrown-ne-ok claims (rw (parse_payload, e, n) at h))
    | inr (read, k) ↦
        let same : read ≡ claims = ok-injective (rw (parse_payload, e, k) at h) in
        (fields, object-eq value fields e, k ∙ ap (λ c. some c) same)
  ]
]

module _ (p : Platform) (secret : Option String) where
  -- The token is `v1.<encoded>.<signature>`, signed with the key of the secret, and its payload reads as
  -- the claims.
  pub record IsSigned (token : String) (claims : WeComConsoleSessionClaims) : Type 0 where
    pub encoded : String
    pub signature : String
    pub parts : split_on b'.' token ≡ "v1" ∷ encoded ∷ signature ∷ []
    pub key : List ℕ
    pub keyed : session_key p secret ≡ ok key
    pub signed : p.decode signature ≡ p.hmac key ("v1." <> encoded)
    pub fields : Fields
    pub payload : p.parse (p.decode_text encoded) ≡ some (obj fields)
    pub claimed : read_claims fields ≡ some claims

  payload-claimed :
      (encoded : String) (claims : WeComConsoleSessionClaims)
      → read_payload p encoded ≡ ok claims
      → (fields : Fields) × (p.parse (p.decode_text encoded) ≡ some (obj fields))
        × (read_claims fields ≡ some claims)
  unfolding read_payload invalid_session
  payload-claimed encoded claims h = elim (Option-cases (p.parse (p.decode_text encoded))) [
    | inl n ↦ absurd (thrown-ne-ok claims (rw (read_payload, n) at h))
    | inr (value, e) ↦
        let (fields, same, read) = parse-claimed value claims (rw (read_payload, e) at h) in
        (fields, e ∙ ap (λ v. some v) same, read)
  ]

  verify_signed-IsSigned :
      (token encoded signature : String) (now : ℕ) (claims : WeComConsoleSessionClaims)
      → session_clock_skew_seconds ≤ now
      → split_on b'.' token ≡ "v1" ∷ encoded ∷ signature ∷ []
      → verify_signed p secret encoded signature now ≡ ok claims
      → IsSigned token claims × IsFresh now claims
  unfolding verify_signed session_signature check_times invalid_session
  verify_signed-IsSigned token encoded signature now claims k split h =
      let (expected, keyed, h₁) = >>=-returned (session_signature p secret encoded) _ h in
      let (key, given, same) = >>=-returned (session_key p secret) _ keyed in
      elim (Bool-cases (same_bytes (p.decode signature) expected)) [
        | inr bad ↦ absurd (thrown-ne-ok claims (rw bad at h₁))
        | inl good ↦
            let (read, payload, h₂) =
              >>=-returned (read_payload p encoded) (check_times now) (rw good at h₁) in
            elim (Bool-cases (is_expired read now)) [
              | inl late ↦ absurd (thrown-ne-ok claims (rw (check_times, late) at h₂))
              | inr live ↦
                  let eq : read ≡ claims = ok-injective (rw (check_times, live) at h₂) in
                  let (fields, parsed, claimed) =
                    payload-claimed encoded claims (payload ∙ ap (λ c. ok c) eq) in
                  (
                    record {
                      encoded = encoded;
                      signature = signature;
                      parts = split;
                      key = key;
                      keyed = given;
                      signed = same_bytes_sound _ _ good ∙ sym (ok-injective same);
                      fields = fields;
                      payload = parsed;
                      claimed = claimed;
                    },
                    subst (IsFresh now) eq (unexpired now read k live),
                  )
            ]
      ]

  verify_parts-IsSigned :
      (token : String) (parts : List String) (now : ℕ) (claims : WeComConsoleSessionClaims)
      → session_clock_skew_seconds ≤ now
      → split_on b'.' token ≡ parts
      → verify_parts p secret parts now ≡ ok claims
      → IsSigned token claims × IsFresh now claims
  unfolding verify_parts invalid_session
  verify_parts-IsSigned token [] now claims k split h = cc
  verify_parts-IsSigned token (version ∷ []) now claims k split h = cc
  verify_parts-IsSigned token (version ∷ encoded ∷ []) now claims k split h = cc
  verify_parts-IsSigned token (version ∷ encoded ∷ signature ∷ more ∷ rest) now claims k split h =
      cc
  verify_parts-IsSigned token (version ∷ encoded ∷ signature ∷ []) now claims k split h =
      elim (Bool-cases (not (version === "v1") || is_empty encoded || is_empty signature)) [
        | inl bad ↦ absurd (thrown-ne-ok claims (rw bad at h))
        | inr good ↦
            let same : version ≡ "v1" = ===→≡ _ _ (ground arith) in
            verify_signed-IsSigned token encoded signature now claims k
              (split ∙ ap (λ v. v ∷ encoded ∷ signature ∷ []) same) (rw good at h)
      ]

  -- A token that verifies, 30 seconds or more after the epoch, is at most 4,096 code units long, carries
  -- the signature of its payload under the key of the secret, and its claims are those of the payload; they
  -- expire less than 30 seconds before `now`, or later, and at most 12 hours and 30 seconds after it, 12 hours after they
  -- were issued.
  pub verify_we_com_console_session-IsSigned :
      (token : String) (now : ℕ) (claims : WeComConsoleSessionClaims)
      → session_clock_skew_seconds ≤ now
      → verify_we_com_console_session p secret token now ≡ ok claims
      → IsSigned token claims × IsFresh now claims × (text_length token ≤ session_max_length)
  unfolding verify_we_com_console_session invalid_session
  verify_we_com_console_session-IsSigned token now claims k h =
      elim (Bool-cases (is_empty token || ltb session_max_length (text_length token))) [
        | inl bad ↦ absurd (thrown-ne-ok claims (rw (verify_we_com_console_session, bad) at h))
        | inr good ↦
            let (signed, fresh) =
              verify_parts-IsSigned token (split_on b'.' token) now claims k refl
                (rw (verify_we_com_console_session, good) at h) in
            (signed, fresh, ground arith)
      ]
