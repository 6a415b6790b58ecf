-- ===== src/Relay/Consumed.antt =====
-- What holds of an identity that `consumeWeComRelayIdentity` returns.
use Prim.Native.String.{[], ◌∷◌}
use ai_base.Common.{
  ℕ, ◌≤◌, String, ◌≡◌, ◌≢◌, refl, sym, ap, subst, ◌∙◌, zero, ◌&&◌, ◌||◌, ◌==◌, ◌===◌, true, false,
  Option, none, some, arith, inl, inr, Bool-cases, Option-cases, leb,
}
use ai_base.Text.{is_empty, trim, text_length}
use ai_base.Json.{Json, Fields, obj, str, get_field, object?, string?}
use ai_base.Relay.{returned, Platform, Exchange, unreachable, exchanged, >>=-returned}
use ai_base.Relay.Tickets.{
  create_we_com_relay_result_consumer_proof, invalid, Endpoints, relay_endpoints,
  read_we_com_relay_result_handoff, has_foreign_key,
}
use ai_base.Relay.Identity.{
  RelayIdentityResponse, WeComRelayIdentityResult, refusal, is_blank_identity, accept_identity,
  respond, identity_keys, identity_of, read_identity, identity_response, conclude, exchange,
  consume_we_com_relay_identity, user_id_max_length,
}
use ai_base.Relay.Accepted.{
  AreEndpoints, error-returned, returned-injective, object-eq, endpoints-AreEndpoints,
}

-- An identity: both ids are given, and within their bounds.
pub record IsIdentity (r : WeComRelayIdentityResult) : Type 0 where
  pub corp_given : is_empty (trim r.corp_id) ≡ false
  pub corp_within : text_length r.corp_id ≤ 255
  pub user_given : is_empty (trim r.user_id) ≡ false
  pub user_within : text_length r.user_id ≤ user_id_max_length

refusal-ne-returned : {A : Type 0} (error : String) (a : A) → refusal error ≢ returned a
unfolding refusal invalid
refusal-ne-returned error a h = elim (Bool-cases (error === "access_denied")) [
  | inl e ↦ error-returned a (rw (refusal, e) at h)
  | inr e ↦ elim (Bool-cases (error === "identity_exchange_failed")) [
    | inl k ↦ error-returned a (rw (refusal, e, k) at h)
    | inr k ↦ error-returned a (rw (refusal, e, k) at h)
  ]
]

accepted-IsIdentity :
    (identity : RelayIdentityResponse) (issuer : String)
    → is_blank_identity identity ≡ false
    → IsIdentity
        (record { corp_id = identity.corp_id; user_id = identity.user_id; relay_issuer = issuer })
unfolding is_blank_identity
accepted-IsIdentity identity issuer h = record {
  corp_given = ground arith;
  corp_within = ground arith;
  user_given = ground arith;
  user_within = ground arith;
}

empty-eq : (s : String) → is_empty s ≡ true → s ≡ ""
unfolding is_empty
empty-eq [] h = refl
empty-eq (c ∷ s) h = cc

accept-IsIdentity :
    (issuer : String) (identity : RelayIdentityResponse) (r : WeComRelayIdentityResult)
    → accept_identity issuer identity ≡ returned r
    → IsIdentity r
      × (r.relay_issuer ≡ issuer)
      × (r.corp_id ≡ identity.corp_id)
      × (r.user_id ≡ identity.user_id)
      × (identity.error ≡ "")
unfolding accept_identity invalid
accept-IsIdentity issuer identity r h = elim (Bool-cases (is_empty identity.error)) [
  | inr named ↦ absurd (refusal-ne-returned identity.error r (rw (accept_identity, named) at h))
  | inl unnamed ↦ elim (Bool-cases (is_blank_identity identity)) [
    | inl blank ↦ absurd (error-returned r (rw (accept_identity, unnamed, blank) at h))
    | inr given ↦
        let same = returned-injective (rw (accept_identity, unnamed, given) at h) in
        (
          subst IsIdentity same (accepted-IsIdentity identity issuer given),
          ap (λ x. x.relay_issuer) (sym same),
          ap (λ x. x.corp_id) (sym same),
          ap (λ x. x.user_id) (sym same),
          empty-eq identity.error unnamed,
        )
  ]
]

-- An object whose texts are the ids of the identity, and no error.
pub record Names (fields : Fields) (r : WeComRelayIdentityResult) : Type 0 where
  pub known : has_foreign_key identity_keys fields ≡ false
  pub corp : get_field fields "corp_id" ≡ some (str r.corp_id)
  pub user : get_field fields "user_id" ≡ some (str r.user_id)
  pub no_error : get_field fields "error" ≡ some (str "")

-- The service answered with success, and the body names the identity.
abbrev pub Answered : WeComRelayIdentityResult → Exchange → Type 0
Answered r unreachable = zero ≡ 1
Answered r (exchanged status body) =
    (200 ≤ status)
    × (status ≤ 299)
    × ((fields : Fields) × (body ≡ some (obj fields)) × Names fields r)

string-eq : (v : Option Json) (s : String) → string? v ≡ some s → v ≡ some (str s)
string-eq (some (str t)) s h = cc
string-eq v s h = cc

-- The three texts of a body that is read.
read-parts :
    (fields : Fields) (identity : RelayIdentityResponse)
    → read_identity fields ≡ returned identity
    → (has_foreign_key identity_keys fields ≡ false)
      × (get_field fields "corp_id" ≡ some (str identity.corp_id))
      × (get_field fields "user_id" ≡ some (str identity.user_id))
      × (get_field fields "error" ≡ some (str identity.error))
unfolding read_identity identity_of invalid
read-parts fields identity h = elim (Bool-cases (has_foreign_key identity_keys fields)) [
  | inl foreign ↦ absurd (error-returned identity (rw (read_identity, foreign) at h))
  | inr known ↦ elim (Option-cases (string? (get_field fields "corp_id"))) [
    | inl n ↦ absurd (error-returned identity (rw (read_identity, known, n) at h))
    | inr (corp, c) ↦ elim (Option-cases (string? (get_field fields "user_id"))) [
      | inl n ↦ absurd (error-returned identity (rw (read_identity, known, c, n) at h))
      | inr (user, u) ↦ elim (Option-cases (string? (get_field fields "error"))) [
        | inl n ↦ absurd (error-returned identity (rw (read_identity, known, c, u, n) at h))
        | inr (error, e) ↦
            let same = returned-injective (rw (read_identity, known, c, u, e) at h) in
            (
              known,
              string-eq _ corp c ∙ ap (λ i. some (str i.corp_id)) same,
              string-eq _ user u ∙ ap (λ i. some (str i.user_id)) same,
              string-eq _ error e ∙ ap (λ i. some (str i.error)) same,
            )
      ]
    ]
  ]
]

body-parts :
    (body : Option Json) (identity : RelayIdentityResponse)
    → identity_response body ≡ returned identity
    → (fields : Fields) × (body ≡ some (obj fields)) × (read_identity fields ≡ returned identity)
unfolding identity_response invalid
body-parts none identity h = absurd (error-returned identity h)
body-parts (some value) identity h = elim (Option-cases (object? value)) [
  | inl n ↦ absurd (error-returned identity (rw (identity_response, n) at h))
  | inr (fields, e) ↦
      (fields, ap (λ v. some v) (object-eq value fields e), rw (identity_response, e) at h)
]

conclude-IsIdentity :
    (issuer : String) (e : Exchange) (r : WeComRelayIdentityResult)
    → conclude issuer e ≡ returned r
    → Answered r e × IsIdentity r × (r.relay_issuer ≡ issuer)
unfolding conclude respond invalid
conclude-IsIdentity issuer unreachable r h = absurd (error-returned r h)
conclude-IsIdentity issuer (exchanged status body) r h =
    elim (Bool-cases (leb 200 status && leb status 299)) [
      | inl fine ↦
          let (identity, read, accepted) =
            >>=-returned (identity_response body) (accept_identity issuer)
              (rw (conclude, fine, respond) at h) in
          let (given, same, corp_same, user_same, error_none) =
            accept-IsIdentity issuer identity r accepted in
          let (fields, object, parts) = body-parts body identity read in
          let (known, corp, user, error) = read-parts fields identity parts in
          (
            (
              ground arith,
              ground arith,
              (
                fields,
                object,
                record {
                  known = known;
                  corp = corp ∙ ap (λ s. some (str s)) (sym corp_same);
                  user = user ∙ ap (λ s. some (str s)) (sym user_same);
                  no_error = error ∙ ap (λ s. some (str s)) error_none;
                },
              ),
            ),
            given,
            same,
          )
      | inr bad ↦ elim (Bool-cases (status == 400 || status == 410)) [
        | inl gone ↦ absurd (error-returned r (rw (conclude, bad, gone) at h))
        | inr down ↦ absurd (error-returned r (rw (conclude, bad, down) at h))
      ]
    ]

-- An identity that is returned has a corporation id of at most 255 and a user id of at most 256 code
-- units, neither of them blank; the ticket's handoff is returned, and the issuer is that of its callback, an
-- HTTPS URL of the relay; and the exchange of the ticket at the results endpoint of the callback's origin was
-- answered with a status of success and an object with these two ids and an empty error.
pub consume_we_com_relay_identity-IsIdentity :
    (p : Platform) (env : Option String) (ticket : String) (now : ℕ) (r : WeComRelayIdentityResult)
    → consume_we_com_relay_identity p env ticket now ≡ returned r
    → IsIdentity r
      × ((callback : String) × (e : Endpoints) × (read_we_com_relay_result_handoff p env ticket now
            ≡ returned callback)
          × AreEndpoints p callback e
          × (r.relay_issuer ≡ e.issuer)
          × Answered r (
              exchange
                (p.fetch e.result)
                ticket
                (create_we_com_relay_result_consumer_proof p env ticket)))
unfolding consume_we_com_relay_identity
consume_we_com_relay_identity-IsIdentity p env ticket now r h =
    let (callback, read, h₁) =
      >>=-returned (read_we_com_relay_result_handoff p env ticket now) _ h in
    let (e, made, h₂) = >>=-returned (relay_endpoints p callback) _ h₁ in
    let (answered, identity, issuer) = conclude-IsIdentity e.issuer _ r h₂ in
    (identity, (callback, e, read, endpoints-AreEndpoints p callback e made, issuer, answered))
