-- ===== src/Session/RoundTrip.antt =====
-- A session token that was issued verifies while it lives.
use text.Mathlib.TextLemmas.{cons-append}
use ai_base.Common.{
  ℕ, ◌+◌, ◌≤◌, ◌<◌, String, ◌≡◌, refl, sym, subst, ap, ◌∙◌, List, [], ◌∷◌, true, false, Option,
  some, arith, ◌<>◌, ltb, any, includes,
}
use ai_base.Common.Results.{ok}
use ai_base.Common.Throwing.{>>=-returned, ok-injective}
use ai_base.Common.Integers.{ℤ, pos, exceeds, at_most, differ_by}
use ai_base.Text.{trim, is_empty, text_length, all_chars}
use ai_base.Text.Cut.{split_on}
use ai_base.Text.Parts.{HasNo, split_on_last, split_on-append}
use ai_base.Json.{Json, Fields, str, obj, get_field, keys}
use ai_base.Session.{Platform}
use ai_base.Session.Token.{
  WeComConsoleSessionClaims, SessionIdentity, session_lifetime_seconds, session_max_length,
  session_clock_skew_seconds, integer?, required_string, is_session, link_of, claims_of,
  read_claims, parse_payload, same_bytes, is_expired, session_key, session_signature,
  session_payload, issue_we_com_console_session, read_payload, check_times, verify_signed,
  verify_parts, verify_we_com_console_session,
}
use ai_base.Session.Verified.{parse-claimed}

pub same_bytes_refl : (xs : List ℕ) → same_bytes xs xs ≡ true
unfolding same_bytes
same_bytes_refl [] = refl
same_bytes_refl (x ∷ xs) = ground (arith, same_bytes_refl xs)

required_string-some : (s a : String) (n : ℕ) → required_string (some (str s)) n ≡ some a → a ≡ s
unfolding required_string
required_string-some s a n h = ground arith

link_of-some : (s a : String) → link_of (some (str s)) ≡ some a → a ≡ s
unfolding link_of
link_of-some s a h = ground arith

-- Claims come from texts that were given.
claims_of-some :
    (issuer subject email name link : Option String) (iat exp : ℤ)
    (claims : WeComConsoleSessionClaims)
    → claims_of issuer subject email name link (some iat) (some exp) ≡ some claims
    → (issuer ≡ some claims.principal_issuer)
      × (subject ≡ some claims.principal_subject)
      × (email ≡ some claims.email)
      × (name ≡ some claims.name)
      × (link ≡ some claims.link_id)
      × (claims.issued_at ≡ iat)
      × (claims.expires_at ≡ exp)
unfolding claims_of
claims_of-some issuer subject email name link iat exp claims h = ground arith

fields-eq : {x y : Fields} → obj x ≡ obj y → x ≡ y
fields-eq h = cc

claims-eq :
    (x y : WeComConsoleSessionClaims)
    → x.principal_issuer ≡ y.principal_issuer
    → x.principal_subject ≡ y.principal_subject
    → x.email ≡ y.email
    → x.name ≡ y.name
    → x.link_id ≡ y.link_id
    → x.issued_at ≡ y.issued_at
    → x.expires_at ≡ y.expires_at
    → x ≡ y
claims-eq x y a b c d e f g = cc

module _ (p : Platform) (secret : Option String) (identity : SessionIdentity)
    (link_id : String) where
  -- What a token that was issued at `now` says.
  abbrev pub issued_claims : ℕ → WeComConsoleSessionClaims
  issued_claims now = record {
    link_id = trim link_id;
    principal_issuer = trim identity.principal_issuer;
    principal_subject = trim identity.principal_subject;
    email = p.lower (trim identity.email);
    name = trim identity.name;
    issued_at = pos now;
    expires_at = pos (now + session_lifetime_seconds);
  }

  payload-claims :
      (now : ℕ) (claims : WeComConsoleSessionClaims)
      → parse_payload (session_payload p identity link_id now) ≡ ok claims
      → claims ≡ issued_claims now
  unfolding session_payload read_claims keys any includes is_session get_field integer?
  payload-claims now claims h =
      let (fields, same, read) = parse-claimed (session_payload p identity link_id now) claims h in
      let (issuer, subject, email, name, link, iat, exp) =
        claims_of-some _ _ _ _ _ (pos now) (pos (now + session_lifetime_seconds)) claims
          (ap read_claims (fields-eq same) ∙ read) in
      claims-eq claims (issued_claims now) (required_string-some _ _ _ issuer)
        (required_string-some _ _ _ subject) (required_string-some _ _ _ email)
        (required_string-some _ _ _ name) (link_of-some _ _ link) iat exp

-- What the platform promises of one payload: base64url and `JSON` read back what they wrote, base64url
-- writes no dot, and writes something for what is not empty.
pub record Promises (p : Platform) (key : List ℕ) (payload : Json) : Type 0 where
  pub text_back : p.decode_text (p.encode_text (p.stringify payload)) ≡ p.stringify payload
  pub parses : p.parse (p.stringify payload) ≡ some payload
  pub payload_plain : HasNo b'.' (p.encode_text (p.stringify payload))
  pub payload_given : is_empty (p.encode_text (p.stringify payload)) ≡ false
  pub signature_back :
      p.decode (p.encode (p.hmac key ("v1." <> p.encode_text (p.stringify payload))))
      ≡ p.hmac key ("v1." <> p.encode_text (p.stringify payload))
  pub signature_plain :
      HasNo b'.' (p.encode (p.hmac key ("v1." <> p.encode_text (p.stringify payload))))
  pub signature_given :
      is_empty (p.encode (p.hmac key ("v1." <> p.encode_text (p.stringify payload)))) ≡ false

module _ (p : Platform) (secret : Option String) (key : List ℕ) where
  abbrev token_of : Json → String
  token_of payload =
      let encoded = p.encode_text (p.stringify payload) in
      "v1" <> ("." <> (encoded <> ("." <> p.encode (p.hmac key ("v1." <> encoded)))))

  token-given : (payload : Json) → is_empty (token_of payload) ≡ false
  unfolding is_empty
  token-given payload = rw cons-append refl

  token-split :
      (payload : Json)
      → Promises p key payload
      → split_on b'.' (token_of payload)
        ≡ "v1"
          ∷ p.encode_text (p.stringify payload)
          ∷ p.encode (p.hmac key ("v1." <> p.encode_text (p.stringify payload)))
          ∷ []
  unfolding all_chars
  token-split payload promises =
      let encoded = p.encode_text (p.stringify payload) in
      rw
        (
          split_on-append "v1" _ refl,
          split_on-append encoded _ promises.payload_plain,
          split_on_last b'.' _ promises.signature_plain,
        )
        refl

  live-eq :
      (identity : SessionIdentity) (link_id : String) (now later : ℕ)
      → now ≤ later + session_clock_skew_seconds
      → later < now + session_lifetime_seconds + session_clock_skew_seconds
      → is_expired (issued_claims p secret identity link_id now) later ≡ false
  unfolding is_expired exceeds at_most differ_by
  live-eq identity link_id now later h k = ground arith

  token-verifies :
      (payload : Json) (claims : WeComConsoleSessionClaims) (later : ℕ)
      → session_key p secret ≡ ok key
      → Promises p key payload
      → parse_payload payload ≡ ok claims
      → is_expired claims later ≡ false
      → text_length (token_of payload) ≤ session_max_length
      → verify_we_com_console_session p secret (token_of payload) later ≡ ok claims
  unfolding verify_we_com_console_session verify_parts verify_signed session_signature read_payload
      check_times
  token-verifies payload claims later keyed promises parsed live short =
      let fits : ltb session_max_length (text_length (token_of payload)) ≡ false = ground arith in
      rw
        (
          verify_we_com_console_session,
          token-given payload,
          fits,
          token-split payload promises,
          verify_parts,
          promises.payload_given,
          promises.signature_given,
          verify_signed,
          session_signature,
          keyed,
          promises.signature_back,
          same_bytes_refl,
          read_payload,
          promises.text_back,
          promises.parses,
          parsed,
          check_times,
          live,
        )
        refl

  -- A token that is issued at `now`, with a key that is configured, verifies at every later time before it
  -- expires, give or take the clock's skew of 30 seconds, and gives the identity that it was issued for, its
  -- texts trimmed and the email in lower case, if it is at most 4,096 code units long and the platform keeps
  -- its promises.
  pub verify_we_com_console_session-issue_we_com_console_session :
      (identity : SessionIdentity) (link_id : String) (now later : ℕ) (token : String)
      → session_key p secret ≡ ok key
      → Promises p key (session_payload p identity link_id now)
      → issue_we_com_console_session p secret identity link_id now ≡ ok token
      → text_length token ≤ session_max_length
      → now ≤ later + session_clock_skew_seconds
      → later < now + session_lifetime_seconds + session_clock_skew_seconds
      → verify_we_com_console_session p secret token later
        ≡ ok (issued_claims p secret identity link_id now)
  unfolding issue_we_com_console_session session_signature
  verify_we_com_console_session-issue_we_com_console_session identity link_id now later token keyed
        promises issued short early late =
      let payload = session_payload p identity link_id now in
      let (claims, parsed, h₁) = >>=-returned (parse_payload payload) _ issued in
      let (signature, signed, h₂) =
        >>=-returned (session_signature p secret (p.encode_text (p.stringify payload))) _ h₁ in
      let (key', given, h₃) = >>=-returned (session_key p secret) _ signed in
      let same_key : key' ≡ key = ok-injective (sym given ∙ keyed) in
      let same : token_of payload ≡ token =
        rw same_key at (rw (← ok-injective h₃) at (ok-injective h₂)) in
      let eq = payload-claims p secret identity link_id now claims parsed in
      subst
        (λ t.
          verify_we_com_console_session p secret t later
          ≡ ok (issued_claims p secret identity link_id now))
        same
        (token-verifies payload (issued_claims p secret identity link_id now) later keyed promises
          (parsed ∙ ap (λ c. ok c) eq) (live-eq identity link_id now later early late)
          (subst (λ t. text_length t ≤ session_max_length) (sym same) short))
