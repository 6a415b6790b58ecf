-- ===== src/Console/Claimed.antt =====
-- Where the fields of an identity come from: a claim, or the header that stands for it where the claim is
-- missing.
use Prim.Native.String.{[], ◌∷◌}
use ai_base.Common.{String, ◌≡◌, refl, ap, ◌⊎◌, false, Option, none, some, inl, inr, Option-cases}
use ai_base.Text.{is_empty}
use ai_base.Json.{Fields, get_field}
use ai_base.Console.{LinkedIdentity, Outside, Env, Headers, text_or}
use ai_base.Console.Claims.{
  text_claim, string_claim, string_array_claim, broker_subject, is_console_admin_email,
}
use ai_base.Console.Identity.{
  ConsoleIdentity, or_claim, login_issuer, principal_issuer, claimed_email, claimed_subject,
  claimed_identity, linked_identity,
}

-- The claim's text, or the header's where the claim is missing.
pub IsFrom : Option String → Option String → String → Type 0
IsFrom claim header s = (claim ≡ some s) ⊎ ((claim ≡ none) × (header ≡ some s))

or_claim-IsFrom :
    (claim header : Option String) (s : String)
    → or_claim claim header ≡ some s
    → IsFrom claim header s
unfolding IsFrom
or_claim-IsFrom none header s h = inr (refl, h)
or_claim-IsFrom (some t) header s h = inl h

text_or-some : (s : String) → text_or (some s) "" ≡ s
unfolding text_or is_empty
text_or-some [] = refl
text_or-some (c ∷ s) = refl

module _ (outside : Outside) (env : Env) where
  -- The identity of the claims: the email and the subject are theirs, or those of the headers where the
  -- claims have none, and the email decides on the role.
  pub record IsClaimed (claims : Fields) (input : Headers) (email : String)
      (identity : ConsoleIdentity) : Type 0 where
    pub given_email :
        (s : String) × IsFrom
          (string_claim (get_field claims "email"))
          (text_claim (input "x-pomerium-claim-email"))
          s
        × (email ≡ outside.platform.lower s)
    pub full : is_empty email ≡ false
    pub same_email : identity.email ≡ email
    pub given_subject :
        IsFrom
          (string_claim (get_field claims "sub"))
          (or_claim
            (text_claim (input "x-pomerium-claim-sub"))
            (text_claim (input "x-pomerium-claim-user")))
          identity.upstream_subject
    pub subject :
        identity.principal_subject
        ≡ broker_subject outside (login_issuer outside env) identity.upstream_subject
    pub issuer : identity.principal_issuer ≡ principal_issuer outside env
    pub groups : identity.groups ≡ string_array_claim (get_field claims "groups")
    pub role : identity.is_admin ≡ is_console_admin_email outside env email

  claimed_email-IsFrom :
      (claims : Fields) (input : Headers)
      → outside.platform.lower "" ≡ ""
      → is_empty (claimed_email outside env claims input) ≡ false
      → (s : String) × IsFrom
          (string_claim (get_field claims "email"))
          (text_claim (input "x-pomerium-claim-email"))
          s
        × (claimed_email outside env claims input ≡ outside.platform.lower s)
  unfolding claimed_email text_or is_empty
  claimed_email-IsFrom claims input lower_empty full =
      let claim = string_claim (get_field claims "email") in
      let header = text_claim (input "x-pomerium-claim-email") in
      elim (Option-cases (or_claim claim header)) [
        | inl n ↦
            let none_given : claimed_email outside env claims input ≡ "" =
              rw (claimed_email, n) lower_empty in
            let wrong : is_empty "" ≡ false = rw none_given at full in cc
        | inr (s, e) ↦ (
          s,
          or_claim-IsFrom claim header s e,
          rw (claimed_email, e) (ap outside.platform.lower (text_or-some s)),
        )
      ]

  pub claimed_identity-IsClaimed :
      (claims : Fields) (input : Headers) (subject : String)
      → outside.platform.lower "" ≡ ""
      → is_empty (claimed_email outside env claims input) ≡ false
      → claimed_subject outside env claims input ≡ some subject
      → IsClaimed claims input (claimed_email outside env claims input) (
          claimed_identity outside env claims input
            (claimed_email outside env claims input)
            subject)
  unfolding claimed_subject claimed_identity
  claimed_identity-IsClaimed claims input subject lower_empty full named = record {
    given_email = claimed_email-IsFrom claims input lower_empty full;
    full = full;
    same_email = refl;
    given_subject = or_claim-IsFrom _ _ subject named;
    subject = refl;
    issuer = refl;
    groups = refl;
    role = refl;
  }

  -- The identity of a link, whose email decides on the role.
  pub record IsLinked (linked : LinkedIdentity) (identity : ConsoleIdentity) : Type 0 where
    pub email : identity.email ≡ outside.platform.lower linked.email
    pub issuer : identity.principal_issuer ≡ linked.principal_issuer
    pub subject : identity.principal_subject ≡ linked.principal_subject
    pub role : identity.is_admin ≡ is_console_admin_email outside env linked.email

  pub linked_identity-IsLinked :
      (linked : LinkedIdentity) → IsLinked linked (linked_identity outside env linked)
  unfolding linked_identity
  linked_identity-IsLinked linked = record {
    email = refl;
    issuer = refl;
    subject = refl;
    role = refl;
  }
