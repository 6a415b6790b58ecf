-- ===== src/Access/Sound.antt =====
-- What holds of the actions and the grants that pass.
use ai_base.Common.{
  ℕ, suc, ◌≤◌, String, ◌≡◌, ◌≢◌, refl, ap, subst, List, [], ◌∷◌, ◌++◌, true, false, ◌==◌, Option,
  arith, inl, inr, Bool-cases, Option-cases, All, AllDistinct, AllDistinct-push, includes, length,
  ltb-false→le,
}
use ai_base.Json.{Json, Fields, get_field}
use ai_base.Access.{Accessed, returned, store_error, refuse_if-returned, Outside, >>=-returned}
use ai_base.Access.Texts.{add_unique, string_array, unique_texts, optional_timestamp}
use ai_base.Access.Actions.{
  max_actions, hard_denied_connector_action_ids, is_action_id, check_actions, check_count,
  validate_shared_connector_action_ids,
}
use ai_base.Access.Grants.{
  max_grants, PrincipalType, SharedConnectorGrant, is_reversed, is_anonymous, grant_fields,
  principal_type_of, read_principal, finish_grant, read_grant, normalize_grant, normalize_each,
  normalize_grants,
}

error-returned :
    {A : Type 0} (a : A) {message : String} {status : ℕ} → store_error message status ≢ returned a
error-returned a h = cc

returned-injective : {A : Type 0} {a b : A} → returned a ≡ returned b → a ≡ b
returned-injective h = cc

add_unique-AllDistinct :
    (seen texts : List String) → AllDistinct seen → AllDistinct (add_unique seen texts)
unfolding add_unique
add_unique-AllDistinct seen [] d = d
add_unique-AllDistinct seen (s ∷ ss) d = elim (Bool-cases (includes seen s)) [
  | inl old ↦ rw old (add_unique-AllDistinct seen ss d)
  | inr new ↦ rw new (add_unique-AllDistinct (seen ++ s ∷ []) ss (AllDistinct-push seen s d new))
]

-- An action that may be granted: known to the connector, well formed, and not denied by the system.
pub record IsPermitted (known : List String) (id : String) : Type 0 where
  pub formed : is_action_id id ≡ true
  pub known_action : includes known id ≡ true
  pub not_denied : includes hard_denied_connector_action_ids id ≡ false

-- A list of actions that passes: 1 to 1000 different ones, each permitted.
pub record ArePermitted (known ids : List String) : Type 0 where
  pub permitted : All (IsPermitted known) ids
  pub distinct : AllDistinct ids
  pub given : ids ≢ []
  pub few : length ids ≤ max_actions

check_actions-IsPermitted :
    {A : Type 0} (known ids : List String) (next : Accessed A) {end : A}
    → check_actions known ids next ≡ returned end
    → All (IsPermitted known) ids × (next ≡ returned end)
unfolding check_actions
check_actions-IsPermitted known [] next h = (tt, h)
check_actions-IsPermitted known (id ∷ ids) next h =
    let (usable, h₁) = refuse_if-returned _ _ _ _ h in
    let (allowed, h₂) = refuse_if-returned _ _ _ _ h₁ in
    let (rest, same) = check_actions-IsPermitted known ids next h₂ in
    (
      (record { formed = ground arith; known_action = ground arith; not_denied = allowed }, rest),
      same,
    )

count-ne-nil : (ids : List String) → (length ids == 0) ≡ false → ids ≢ []
count-ne-nil [] h e = cc
count-ne-nil (id ∷ ids) h e = cc

check_count-bounds :
    {A : Type 0} (nothing : String) (ids : List String) (next : Accessed A) {end : A}
    → check_count nothing ids next ≡ returned end
    → (ids ≢ []) × (length ids ≤ max_actions) × (next ≡ returned end)
unfolding check_count
check_count-bounds nothing ids next h =
    let (some_id, h₁) = refuse_if-returned _ _ _ _ h in
    let (few, h₂) = refuse_if-returned _ _ _ _ h₁ in
    (count-ne-nil ids some_id, ltb-false→le _ _ few, h₂)

unique-distinct : (value : Option Json) → AllDistinct (unique_texts value)
unfolding unique_texts
unique-distinct value = add_unique-AllDistinct [] (string_array value) tt

-- Actions of a shared bot that are returned: 1 to 1,000 different ones, each well formed, known to the
-- connector and not denied by the system.
pub validate_shared_connector_action_ids-ArePermitted :
    (outside : Outside) (service : String) (value : Option Json) (ids : List String)
    → validate_shared_connector_action_ids outside service value ≡ returned ids
    → (known : List String) × (outside.provider service ≡ returned known) × ArePermitted known ids
unfolding validate_shared_connector_action_ids
validate_shared_connector_action_ids-ArePermitted outside service value ids h =
    let (given, few, h₁) = check_count-bounds _ (unique_texts value) _ h in
    let (known, provided, h₂) =
      >>=-returned (outside.provider service)
        (λ known. check_actions known (unique_texts value) (returned (unique_texts value))) h₁ in
    let (permitted, same) = check_actions-IsPermitted known (unique_texts value) _ h₂ in
    (
      known,
      provided,
      subst (ArePermitted known) (returned-injective same) (record {
        permitted = permitted;
        distinct = unique-distinct value;
        given = given;
        few = few;
      }),
    )

-- A grant that passes: permitted actions, a period that is not reversed, and, for an employee, a subject
-- or an email.
pub record IsGrant (outside : Outside) (issuer : String) (known : List String)
    (g : SharedConnectorGrant) : Type 0 where
  pub actions : ArePermitted known g.action_ids
  pub period : is_reversed outside g.starts_at g.expires_at ≡ false
  pub principal : is_anonymous g.principal_type g.principal_subject g.principal_email ≡ false
  pub from_issuer : g.principal_issuer ≡ issuer

module _ (outside : Outside) (issuer : String) (known : List String) where
  finish-IsGrant :
      (id : String) (principal : PrincipalType) (fields : Fields) (actions : List String)
      (starts expires : Option String) (g : SharedConnectorGrant)
      → ArePermitted known actions
      → finish_grant outside issuer known id principal fields actions starts expires ≡ returned g
      → IsGrant outside issuer known g
  unfolding finish_grant
  finish-IsGrant id principal fields actions starts expires g permitted h =
      let (ordered, h₁) = refuse_if-returned _ _ _ _ h in
      let (who, read, h₂) = >>=-returned (read_principal outside principal fields) _ h₁ in
      let (named, h₃) = refuse_if-returned _ _ _ _ h₂ in
      subst (IsGrant outside issuer known) (returned-injective h₃)
        (record { actions = permitted; period = ordered; principal = named; from_issuer = refl })

  read-IsGrant :
      (index : ℕ) (id : String) (principal : PrincipalType) (fields : Fields)
      (g : SharedConnectorGrant)
      → read_grant outside issuer known index id principal fields ≡ returned g
      → IsGrant outside issuer known g
  unfolding read_grant
  read-IsGrant index id principal fields g h =
      let actions = unique_texts (get_field fields "actionIds") in
      let (given, few, h₁) = check_count-bounds _ actions _ h in
      let (permitted, h₂) = check_actions-IsPermitted known actions _ h₁ in
      let (starts, _, h₃) =
        >>=-returned (optional_timestamp outside (get_field fields "startsAt") "授权开始时间") _ h₂ in
      let (expires, _, h₄) =
        >>=-returned (optional_timestamp outside (get_field fields "expiresAt") "授权结束时间") _ h₃ in
      finish-IsGrant id principal fields actions starts expires g
        (record { permitted = permitted; distinct = unique-distinct _; given = given; few = few })
        h₄

  normalized-IsGrant :
      (index : ℕ) (id : String) (v : Json) (g : SharedConnectorGrant)
      → normalize_grant outside issuer known index id v ≡ returned g
      → IsGrant outside issuer known g
  unfolding normalize_grant
  normalized-IsGrant index id v g h = elim (Option-cases (grant_fields v)) [
    | inl n ↦ absurd (error-returned g (rw (normalize_grant, n) at h))
    | inr (fields, e) ↦ elim (Option-cases (principal_type_of (get_field fields "principalType"))) [
      | inl n ↦ absurd (error-returned g (rw (normalize_grant, e, n) at h))
      | inr (principal, k) ↦
          read-IsGrant index id principal fields g (rw (normalize_grant, e, k) at h)
    ]
  ]

  each-IsGrant :
      (index : ℕ) (uuid : ℕ → String) (vs : List Json) (gs : List SharedConnectorGrant)
      → normalize_each outside issuer known index uuid vs ≡ returned gs
      → All (IsGrant outside issuer known) gs × (length gs ≡ length vs)
  unfolding normalize_each
  each-IsGrant index uuid [] gs h =
      subst (λ xs. All (IsGrant outside issuer known) xs × (length xs ≡ 0)) (returned-injective h)
        (tt, refl)
  each-IsGrant index uuid (v ∷ vs) gs h =
      let (g, first, h₁) =
        >>=-returned (normalize_grant outside issuer known index (uuid index) v) _ h in
      let (rest, more, h₂) =
        >>=-returned (normalize_each outside issuer known (suc index) uuid vs) _ h₁ in
      let (fine, count) = each-IsGrant (suc index) uuid vs rest more in
      subst (λ xs. All (IsGrant outside issuer known) xs × (length xs ≡ suc (length vs)))
        (returned-injective h₂)
        ((normalized-IsGrant index (uuid index) v g first, fine), ap suc count)

-- Grants that are returned: at most 500, one for each that was given, each with 1 to 1,000 different
-- actions that are well formed, known to the connector and not denied by the system, with a period that is
-- not reversed, with the issuer of the identity, and, for an employee, with a subject or an email.
pub normalize_grants-IsGrant :
    (outside : Outside) (issuer service : String) (uuid : ℕ → String) (vs : List Json)
    (gs : List SharedConnectorGrant)
    → normalize_grants outside issuer service uuid vs ≡ returned gs
    → (known : List String) × (outside.provider service ≡ returned known)
      × All (IsGrant outside issuer known) gs
      × (length gs ≡ length vs)
      × (length gs ≤ max_grants)
unfolding normalize_grants
normalize_grants-IsGrant outside issuer service uuid vs gs h =
    let (few, h₁) = refuse_if-returned _ _ _ _ h in
    let (known, provided, h₂) =
      >>=-returned (outside.provider service)
        (λ known. normalize_each outside issuer known 0 uuid vs) h₁ in
    let (fine, count) = each-IsGrant outside issuer known 0 uuid vs gs h₂ in
    (known, provided, fine, count, rw count (ltb-false→le _ _ few))
