-- ===== src/Console/Authentic.antt =====
-- What holds of an identity that `getConsoleIdentity` gives.
use ai_base.Common.{
  includes, subst, ℕ, ◌≤◌, String, ◌≡◌, refl, sym, ◌∙◌, List, true, false, Option, none, some, inl,
  inr, Bool-cases, Option-cases, arith, ap,
}
use ai_base.Common.Attempt.{
  returned, >>=-returned, fail_if-returned, failed-ne-returned, returned-injective,
}
use ai_base.Common.Results.{Result, ok, thrown}
use ai_base.Text.{is_empty, trim}
use ai_base.Json.{Fields}
use ai_base.Session.Token.{WeComConsoleSessionClaims}
use ai_base.Session.Verified.{IsSigned, IsFresh, verify_we_com_console_session-IsSigned}
use ai_base.Console.{LinkedIdentity, Outside, Env, Headers}
use ai_base.Console.Claims.{
  decode_pomerium_assertion, configured_admin_emails, is_console_admin_email,
}
use ai_base.Console.Claimed.{
  IsClaimed, IsLinked, claimed_identity-IsClaimed, linked_identity-IsLinked,
}
use ai_base.Console.Assertion.{verify_pomerium_assertion}
use ai_base.Console.Verified.{IsAsserted, verify_pomerium_assertion-IsAsserted}
use ai_base.Console.Identity.{
  ConsoleIdentity, trimmed_text, is_dev, claimed_email, claimed_subject, claimed_identity,
  incomplete, console_identity_from_headers, expected_audience, asserted_identity, linked_identity,
  session_claims, found_link, session_identity, session_token, assertion_of, unasserted_identity,
  get_console_identity, require_console_admin,
}

module _ (outside : Outside) (env : Env) where
  -- The identity of the claims of an assertion that verifies, or of the link of a session that verifies,
  -- with the email that decides on the role.
  pub data IsAuthentic (input : Headers) (audience : Option (List String)) (now : ℕ)
      (email : String) (identity : ConsoleIdentity) : Type 0 where
    by_assertion :
        (assertion key : String) (claims : Fields)
        → input "x-pomerium-jwt-assertion" ≡ some assertion
        → outside.read_file (trimmed_text env.public_key_path) ≡ some key
        → IsAsserted outside key
            (expected_audience outside env audience)
            (some (trimmed_text env.jwt_issuer))
            now
            assertion
            claims
        → IsClaimed outside env claims input email identity
        → IsAuthentic input audience now email identity
    by_session :
        (token : String) (claims : WeComConsoleSessionClaims) (linked : LinkedIdentity)
        → session_token outside env input ≡ some token
        → IsSigned outside.platform env.session_secret token claims
        → IsFresh now claims
        → outside.linked claims.principal_issuer claims.principal_subject claims.link_id
          ≡ returned (some linked)
        → IsLinked outside env linked identity
        → email ≡ linked.email
        → IsAuthentic input audience now email identity

  -- For some email, which decides on the role.
  pub IsAuthenticated : Headers → Option (List String) → ℕ → ConsoleIdentity → Type 0
  IsAuthenticated input audience now identity =
      (email : String) × IsAuthentic input audience now email identity

  assertion_of-some :
      (input : Headers) (assertion : String)
      → assertion_of outside env input ≡ some assertion
      → input "x-pomerium-jwt-assertion" ≡ some assertion
  unfolding assertion_of
  assertion_of-some input assertion h = ground arith

  session_claims-returned :
      (result : Result WeComConsoleSessionClaims) (claims : WeComConsoleSessionClaims)
      → session_claims outside env result ≡ returned claims
      → result ≡ ok claims
  unfolding session_claims
  session_claims-returned (ok read) claims h = ap (λ c. ok c) (returned-injective h)
  session_claims-returned (thrown message) claims h = cc

  found_link-returned :
      (link : Option LinkedIdentity) (identity : ConsoleIdentity)
      → found_link outside env link ≡ returned identity
      → (linked : LinkedIdentity) × (link ≡ some linked)
        × (identity ≡ linked_identity outside env linked)
  unfolding found_link
  found_link-returned none identity h = cc
  found_link-returned (some linked) identity h = (linked, refl, sym (returned-injective h))

  incomplete-ne :
      (identity : ConsoleIdentity)
      → is_dev env ≡ false
      → incomplete outside env ≡ returned identity
      → {P : Type 0} → P
  unfolding incomplete
  incomplete-ne identity d h = absurd (failed-ne-returned _ _ (rw (incomplete, d) at h))

  headers-claimed :
      (input : Headers) (identity : ConsoleIdentity)
      → is_dev env ≡ false
      → console_identity_from_headers outside env input ≡ returned identity
      → let claims = decode_pomerium_assertion outside (input "x-pomerium-jwt-assertion") in
        (subject : String) × (claimed_subject outside env claims input ≡ some subject)
        × (is_empty (claimed_email outside env claims input) ≡ false)
        × (identity
            ≡ claimed_identity outside env claims input
                (claimed_email outside env claims input)
                subject)
  unfolding console_identity_from_headers
  headers-claimed input identity d h =
      let claims = decode_pomerium_assertion outside (input "x-pomerium-jwt-assertion") in
      elim (Option-cases (claimed_subject outside env claims input)) [
        | inl n ↦ incomplete-ne identity d (rw (console_identity_from_headers, n) at h)
        | inr (subject, e) ↦ elim (Bool-cases (is_empty (claimed_email outside env claims input))) [
          | inl missing ↦
              incomplete-ne identity d (rw (console_identity_from_headers, e, missing) at h)
          | inr full ↦ (
            subject,
            e,
            full,
            sym (returned-injective (rw (console_identity_from_headers, e, full) at h)),
          )
        ]
      ]

  asserted-IsAuthentic :
      (input : Headers) (audience : Option (List String)) (now : ℕ) (assertion : String)
      (identity : ConsoleIdentity)
      → outside.platform.lower "" ≡ ""
      → is_dev env ≡ false
      → assertion_of outside env input ≡ some assertion
      → asserted_identity outside env input audience now assertion ≡ returned identity
      → IsAuthenticated input audience now identity
  unfolding asserted_identity IsAuthenticated
  asserted-IsAuthentic input audience now assertion identity lower_empty d given h =
      let (configured, h₁) = fail_if-returned _ _ _ h in
      elim (Option-cases (outside.read_file (trimmed_text env.public_key_path))) [
        | inl n ↦ absurd (failed-ne-returned _ _ (rw n at h₁))
        | inr (key, e) ↦
            let (claims, verified, h₂) =
              >>=-returned
                (verify_pomerium_assertion outside key (expected_audience outside env audience)
                  (some (trimmed_text env.jwt_issuer)) now assertion)
                _ (rw e at h₁) in
            let sound =
              verify_pomerium_assertion-IsAsserted outside key _ _ now assertion claims verified in
            let present = assertion_of-some input assertion given in
            let (subject, named, full, same) = headers-claimed input identity d h₂ in
            let read : decode_pomerium_assertion outside (input "x-pomerium-jwt-assertion")
                ≡ claims =
              rw (present, sound.read) refl in
            let claimed =
              claimed_identity-IsClaimed outside env claims input subject lower_empty
                (rw read at full) (rw read at named) in
            let made : identity
                ≡ claimed_identity outside env claims input (claimed_email outside env claims input)
                    subject =
              rw read at same in
            (
              claimed_email outside env claims input,
              by_assertion assertion key claims present e sound (
                  subst
                    (IsClaimed outside env claims input (claimed_email outside env claims input))
                    (sym made) claimed),
            )
      ]

  session-IsAuthentic :
      (input : Headers) (audience : Option (List String)) (now : ℕ) (token : String)
      (identity : ConsoleIdentity)
      → 30 ≤ now
      → session_token outside env input ≡ some token
      → session_identity outside env now token ≡ returned identity
      → IsAuthenticated input audience now identity
  unfolding session_identity IsAuthenticated
  session-IsAuthentic input audience now token identity k given h =
      let (claims, verified, h₁) = >>=-returned _ _ h in
      let (link, h₂, found) = >>=-returned _ _ h₁ in
      let (linked, same, eq) = found_link-returned link identity found in
      let (signed, fresh, short) =
        verify_we_com_console_session-IsSigned outside.platform env.session_secret token now claims
          k (session_claims-returned _ claims verified) in
      (
        linked.email,
        by_session token claims linked given signed fresh (h₂ ∙ ap (λ l. returned l) same)
            (subst (IsLinked outside env linked) (sym eq)
              (linked_identity-IsLinked outside env linked))
            refl,
      )

  unasserted-IsAuthentic :
      (input : Headers) (audience : Option (List String)) (now : ℕ) (identity : ConsoleIdentity)
      → 30 ≤ now
      → unasserted_identity outside env input now ≡ returned identity
      → IsAuthenticated input audience now identity
  unfolding unasserted_identity
  unasserted-IsAuthentic input audience now identity k h =
      elim (Option-cases (session_token outside env input)) [
        | inl n ↦ absurd (failed-ne-returned _ _ (rw (unasserted_identity, n) at h))
        | inr (token, e) ↦
            session-IsAuthentic input audience now token identity k e
              (rw (unasserted_identity, e) at h)
      ]

  -- Where the development identity is not enabled, an identity that a request gets, 30 seconds or more
  -- after the epoch, has the email and the subject of an assertion that verifies under the configured
  -- public key for the audience and the issuer, or those of the headers beside it where the assertion has
  -- none; or it is that of the link of a session that is signed and not expired. If the lower case of the
  -- empty text is empty.
  pub get_console_identity-IsAuthentic :
      (input : Headers) (audience : Option (List String)) (now : ℕ) (identity : ConsoleIdentity)
      → outside.platform.lower "" ≡ ""
      → is_dev env ≡ false
      → 30 ≤ now
      → get_console_identity outside env input audience now ≡ returned identity
      → IsAuthenticated input audience now identity
  unfolding get_console_identity
  get_console_identity-IsAuthentic input audience now identity lower_empty d k h =
      let h₁ = rw (get_console_identity, d) at h in
      elim (Option-cases (assertion_of outside env input)) [
        | inl n ↦ unasserted-IsAuthentic input audience now identity k (rw n at h₁)
        | inr (assertion, e) ↦
            asserted-IsAuthentic input audience now assertion identity lower_empty d e (rw e at h₁)
      ]

  -- The email that decides on the role is in the list of administrators.
  pub IsAdmin : Headers → ℕ → ConsoleIdentity → Type 0
  IsAdmin input now identity =
      (email : String) × IsAuthentic input none now email identity
      × (includes (configured_admin_emails outside env) (outside.platform.lower (trim email))
          ≡ true)

  authentic-role :
      (input : Headers) (now : ℕ) (email : String) (identity : ConsoleIdentity)
      → IsAuthentic input none now email identity
      → identity.is_admin ≡ true
      → includes (configured_admin_emails outside env) (outside.platform.lower (trim email)) ≡ true
  unfolding is_console_admin_email
  authentic-role input now email identity (by_assertion _ _ claims _ _ _ claimed) h =
      sym claimed.role ∙ h
  authentic-role input now email identity (by_session token claims linked _ _ _ _ is same) h =
      rw same (sym is.role ∙ h)

  -- Where the development identity is not enabled, what `requireConsoleAdmin` returns, 30 seconds or more
  -- after the epoch, is an identity whose deciding email is in the list of administrators: the email of an
  -- assertion that verifies, or of the header beside it where the assertion has none, or of the link of a
  -- session that verifies. If the lower case of the empty text is empty.
  pub require_console_admin-IsAdmin :
      (input : Headers) (now : ℕ) (identity : ConsoleIdentity)
      → outside.platform.lower "" ≡ ""
      → is_dev env ≡ false
      → 30 ≤ now
      → require_console_admin outside env input now ≡ returned identity
      → IsAdmin input now identity
  unfolding require_console_admin IsAdmin IsAuthenticated
  require_console_admin-IsAdmin input now identity lower_empty d k h =
      let (found, given, h₁) = >>=-returned (get_console_identity outside env input none now) _ h in
      let (allowed, h₂) = fail_if-returned _ _ _ h₁ in
      let (email, authentic) =
        get_console_identity-IsAuthentic input none now found lower_empty d k given in
      rw (← returned-injective h₂)
        (email, authentic, authentic-role input now email found authentic (ground arith))
