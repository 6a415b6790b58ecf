-- ===== src/Access/Sane.antt =====
-- The keys of the two tables of shared connections, after saves and deletes in any order.
use ai_base.Common.{
  any_pair, any_pair-keep, ℕ, String, ◌≡◌, refl, sym, ap, subst, List, [], ◌∷◌, keep, any, All,
  All-mono, All-append, All-keep, All-map, All-total, Bool, true, false, not, ◌&&◌, ◌||◌, ◌===◌,
  arith, inl, inr, Bool-cases, ===→≡, eq_refl,
}
use ai_base.Json.{Fields, get_field}
use ai_base.Access.{returned, Outside, >>=-returned, refuse_if-returned, returned-injective}
use ai_base.Access.Texts.{required_text}
use ai_base.Access.Grants.{SharedConnectorGrant}
use ai_base.Access.Save.{
  SharedConnectorResource, Tables, validate_connection, text_or, lower_or, mode_of, check_mode,
  read_organization, read_actions, read_grants, prepare_resource, upsert, replace_grants,
  save_shared_connector_resource,
}
use ai_base.Access.Removed.{has_id, remove_where}

-- `PRIMARY KEY` and `UNIQUE (service, connection_name)`: an entry clashes with a row of these columns.
unfoldable pub clashes : String → String → String → SharedConnectorResource → Bool
clashes id service name row =
    id === row.id || (service === row.service && name === row.connection_name)

abbrev pub row_clash : SharedConnectorResource → SharedConnectorResource → Bool
row_clash a = clashes a.id a.service a.connection_name

-- No two resources row_clash, and every grant is of a resource.
pub record IsSane (tables : Tables) : Type 0 where
  pub keyed : any_pair row_clash tables.resources ≡ false
  pub referenced : All (λ g. has_id g.0 tables.resources ≡ true) tables.grants

any-upsert :
    (a : SharedConnectorResource) (rows : List SharedConnectorResource)
    (row : SharedConnectorResource)
    → row_clash a row ≡ false
    → any (row_clash a) rows ≡ false
    → any (row_clash a) (upsert rows row).0 ≡ false
unfolding any upsert clashes
any-upsert a [] row away h = ground arith
any-upsert a (r ∷ rows) row away h =
    elim (Bool-cases (r.service === row.service && r.connection_name === row.connection_name)) [
      | inl same ↦ rw same (ground arith)
      | inr other ↦ rw other (ground (arith, any-upsert a rows row away (ground arith)))
    ]

upsert-keyed :
    (rows : List SharedConnectorResource) (row : SharedConnectorResource)
    → has_id row.id rows ≡ false
    → any_pair row_clash rows ≡ false
    → any_pair row_clash (upsert rows row).0 ≡ false
unfolding any any_pair upsert has_id clashes
upsert-keyed [] row fresh h = refl
upsert-keyed (r ∷ rows) row fresh h =
    elim (Bool-cases (r.service === row.service && r.connection_name === row.connection_name)) [
      | inl same ↦
          let service : r.service ≡ row.service = ===→≡ _ _ (ground arith) in
          let name : r.connection_name ≡ row.connection_name = ===→≡ _ _ (ground arith) in
          rw same (
            subst
              (λ s.
                (any (clashes r.id s row.connection_name) rows || any_pair row_clash rows) ≡ false)
              service
              (subst (λ n. (any (clashes r.id r.service n) rows || any_pair row_clash rows) ≡ false)
                name h))
      | inr other ↦ rw other (
          ground (
            arith,
            any-upsert r rows row (ground arith) (ground arith),
            upsert-keyed rows row (ground arith) (ground arith),
          ))
    ]

upsert-has_id :
    (rows : List SharedConnectorResource) (row : SharedConnectorResource)
    → has_id (upsert rows row).1 (upsert rows row).0 ≡ true
unfolding any upsert has_id
upsert-has_id [] row = rw (eq_refl row.id) refl
upsert-has_id (r ∷ rows) row =
    elim (Bool-cases (r.service === row.service && r.connection_name === row.connection_name)) [
      | inl same ↦ rw (same, eq_refl r.id) refl
      | inr other ↦ rw other (ground (arith, upsert-has_id rows row))
    ]

upsert-keeps_id :
    (id : String) (rows : List SharedConnectorResource) (row : SharedConnectorResource)
    → has_id id rows ≡ true
    → has_id id (upsert rows row).0 ≡ true
unfolding any upsert has_id
upsert-keeps_id id [] row h = cc
upsert-keeps_id id (r ∷ rows) row h =
    elim (Bool-cases (r.service === row.service && r.connection_name === row.connection_name)) [
      | inl same ↦ rw same h
      | inr other ↦ rw other (elim (Bool-cases (r.id === id)) [
        | inl e ↦ rw e refl
        | inr e ↦ rw e (upsert-keeps_id id rows row (rw e at h))
      ])
    ]

-- A resource that is not removed is left.
left-has_id :
    (test : SharedConnectorResource → Bool) (id : String) (rows : List SharedConnectorResource)
    → has_id id rows ≡ true
    → has_id id (keep test rows) ≡ false
    → has_id id (keep (λ r. not (test r)) rows) ≡ true
unfolding any keep has_id
left-has_id test id [] h gone = cc
left-has_id test id (r ∷ rows) h gone = elim (Bool-cases (r.id === id)) [
  | inl e ↦ elim (Bool-cases (test r)) [
    | inl t ↦ let wrong : true ≡ false = rw (t, e) at gone in cc
    | inr t ↦ rw (t, e) refl
  ]
  | inr e ↦ elim (Bool-cases (test r)) [
    | inl t ↦ rw t (left-has_id test id rows (rw e at h) (rw (t, e) at gone))
    | inr t ↦ rw (t, e) (left-has_id test id rows (rw e at h) (rw t at gone))
  ]
]

not-true : (b : Bool) → not b ≡ true → b ≡ false
not-true b h = ground arith

-- A delete of the resources that pass a test.
pub remove_where-IsSane :
    (test : SharedConnectorResource → Bool) (tables : Tables)
    → IsSane tables
    → IsSane (remove_where test tables)
unfolding remove_where
remove_where-IsSane test tables sane = record {
  keyed = any_pair-keep row_clash _ tables.resources sane.keyed;
  referenced =
      All-mono _ _ (λ g h. left-has_id test g.0 tables.resources h.0 (not-true _ h.1))
        (All-keep _ (λ g. not (has_id g.0 (keep test tables.resources))) tables.grants
          sane.referenced);
}

module _ (outside : Outside) where
  -- The row that is prepared has the new id.
  prepared-id :
      (issuer id : String) (uuid : ℕ → String) (input : Fields) (row : SharedConnectorResource)
      (grants : List SharedConnectorGrant)
      → prepare_resource outside issuer id uuid input ≡ returned (row, grants)
      → row.id ≡ id
  unfolding prepare_resource check_mode
  prepared-id issuer id uuid input row grants h =
      let (service, e₁, h₁) = >>=-returned (required_text (get_field input "service") _ _) _ h in
      let (name, e₂, h₂) =
        >>=-returned (required_text (get_field input "connectionName") _ _) _ h₁ in
      let (connection, e₃, h₃) = >>=-returned (validate_connection outside service name) _ h₂ in
      let (display_name, e₄, h₄) =
        >>=-returned (text_or (get_field input "displayName") _ _ _) _ h₃ in
      let (domain, e₅, h₅) =
        >>=-returned (lower_or outside (get_field input "securityDomain") _ _ _) _ h₄ in
      let (a, h₆) = refuse_if-returned _ _ _ _ h₅ in
      let (b, h₇) = refuse_if-returned _ _ _ _ h₆ in
      let mode = mode_of (get_field input "authorizationMode") in
      let (organization, e₈, h₈) =
        >>=-returned (read_organization outside mode (get_field input "wecomOrganizationId")) _
          h₇ in
      let (actions, e₉, h₉) =
        >>=-returned (read_actions outside mode service (get_field input "actionIds")) _ h₈ in
      let (given, e₀, h₀) =
        >>=-returned (read_grants outside mode issuer service uuid (get_field input "grants")) _
          h₉ in
      let same = returned-injective h₀ in sym (ap (λ r. (r.0).id) same)

  pub save_shared_connector_resource-IsSane :
      (tables after : Tables) (issuer new_id id : String) (uuid : ℕ → String) (input : Fields)
      → has_id new_id tables.resources ≡ false
      → save_shared_connector_resource outside tables issuer new_id uuid input
        ≡ returned (after, id)
      → IsSane tables
      → IsSane after
  unfolding save_shared_connector_resource replace_grants
  save_shared_connector_resource-IsSane tables after issuer new_id id uuid input fresh h sane =
      let (ready, prepared, h₁) =
        >>=-returned (prepare_resource outside issuer new_id uuid input) _ h in
      let saved = upsert tables.resources ready.0 in
      let own : (ready.0).id ≡ new_id =
        prepared-id issuer new_id uuid input ready.0 ready.1 prepared in
      subst (λ end. IsSane end.0) (returned-injective h₁)
        (record {
          keyed = upsert-keyed tables.resources ready.0 (rw own fresh) sane.keyed;
          referenced =
              All-append _ (keep (λ g. not (g.0 === saved.1)) tables.grants) _
                (All-mono _ _ (λ g k. upsert-keeps_id g.0 tables.resources ready.0 k.0)
                  (All-keep _ (λ g. not (g.0 === saved.1)) tables.grants sane.referenced))
                (All-map _ (λ g. (saved.1, g)) ready.1
                  (All-total _ (λ g. upsert-has_id tables.resources ready.0) ready.1));
        })
