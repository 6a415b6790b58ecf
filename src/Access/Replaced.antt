-- ===== src/Access/Replaced.antt =====
-- What a save of a shared connection does to the two tables.
use ai_base.Common.{
  ℕ, String, ◌≡◌, ◌≢◌, refl, sym, ap, subst, ◌∙◌, List, [], ◌∷◌, ◌++◌, map, keep, find, false, not,
  ◌===◌, ◌&&◌, Option, some, none, inl, inr, Bool-cases, ===→≡, ≢→===-false, eq_refl,
}
use ai_base.Json.{Fields}
use ai_base.Access.{returned, Outside, >>=-returned, returned-injective}
use ai_base.Access.Grants.{SharedConnectorGrant}
use ai_base.Access.Save.{
  SharedConnectorResource, Tables, prepare_resource, upsert, replace_grants,
  save_shared_connector_resource,
}

abbrev Rows : Type 0
Rows = List (String × SharedConnectorGrant)

abbrev Resources : Type 0
Resources = List SharedConnectorResource

-- The grants of a resource.
abbrev pub grants_of : String → Rows → Rows
grants_of id = keep (λ g. g.0 === id)

abbrev others_of : String → Rows → Rows
others_of id = keep (λ g. not (g.0 === id))

grants_of-append :
    (id : String) (xs ys : Rows) → grants_of id (xs ++ ys) ≡ grants_of id xs ++ grants_of id ys
unfolding keep
grants_of-append id [] ys = refl
grants_of-append id (x ∷ xs) ys = elim (Bool-cases (x.0 === id)) [
  | inl e ↦ rw e (ap (λ zs. x ∷ zs) (grants_of-append id xs ys))
  | inr e ↦ rw e (grants_of-append id xs ys)
]

grants_of-others_self : (id : String) (xs : Rows) → grants_of id (others_of id xs) ≡ []
unfolding keep
grants_of-others_self id [] = refl
grants_of-others_self id (x ∷ xs) = elim (Bool-cases (x.0 === id)) [
  | inl e ↦ rw e (grants_of-others_self id xs)
  | inr e ↦ rw (e, e) (grants_of-others_self id xs)
]

grants_of-others_ne :
    (other id : String) (xs : Rows)
    → other ≢ id
    → grants_of other (others_of id xs) ≡ grants_of other xs
unfolding keep
grants_of-others_ne other id [] h = refl
grants_of-others_ne other id (x ∷ xs) h = elim (Bool-cases (x.0 === id)) [
  | inl e ↦
      let away : (x.0 === other) ≡ false = ≢→===-false _ _ (λ same. h (sym same ∙ ===→≡ _ _ e)) in
      rw (e, away) (grants_of-others_ne other id xs h)
  | inr e ↦ elim (Bool-cases (x.0 === other)) [
    | inl k ↦ rw (e, k) (ap (λ zs. x ∷ zs) (grants_of-others_ne other id xs h))
    | inr k ↦ rw (e, k) (grants_of-others_ne other id xs h)
  ]
]

grants_of-new_self :
    (id : String) (gs : List SharedConnectorGrant)
    → grants_of id (map (λ g. (id, g)) gs) ≡ map (λ g. (id, g)) gs
unfolding keep
grants_of-new_self id [] = refl
grants_of-new_self id (g ∷ gs) =
    rw (eq_refl id) (ap (λ zs. (id, g) ∷ zs) (grants_of-new_self id gs))

grants_of-new_ne :
    (other id : String) (gs : List SharedConnectorGrant)
    → other ≢ id
    → grants_of other (map (λ g. (id, g)) gs) ≡ []
unfolding keep
grants_of-new_ne other id [] h = refl
grants_of-new_ne other id (g ∷ gs) h =
    rw (≢→===-false id other (λ e. h (sym e))) (grants_of-new_ne other id gs h)

append-nil : (xs : Rows) → xs ++ [] ≡ xs
append-nil [] = refl
append-nil (x ∷ xs) = ap (λ zs. x ∷ zs) (append-nil xs)

-- The row of a service and a connection name, if there is one.
abbrev pub connection_row : String → String → Resources → Option SharedConnectorResource
connection_row service name = find (λ r. r.service === service && r.connection_name === name)

abbrev pub other_rows : String → String → Resources → Resources
other_rows service name = keep (λ r. not (r.service === service && r.connection_name === name))

-- The id of the row that was there, or the new one.
abbrev pub id_or : Option SharedConnectorResource → String → String
id_or none id = id
id_or (some r) id = r.id

upsert-row :
    (rows : Resources) (row : SharedConnectorResource)
    → connection_row row.service row.connection_name (upsert rows row).0
      ≡ some (record row { id = (upsert rows row).1 })
unfolding upsert find
upsert-row [] row = rw (eq_refl row.service, eq_refl row.connection_name) refl
upsert-row (r ∷ rows) row =
    elim (Bool-cases (r.service === row.service && r.connection_name === row.connection_name)) [
      | inl same ↦ rw (same, eq_refl row.service, eq_refl row.connection_name) refl
      | inr other ↦ rw (other, other) (upsert-row rows row)
    ]

upsert-id :
    (rows : Resources) (row : SharedConnectorResource)
    → (upsert rows row).1 ≡ id_or (connection_row row.service row.connection_name rows) row.id
unfolding upsert find
upsert-id [] row = refl
upsert-id (r ∷ rows) row =
    elim (Bool-cases (r.service === row.service && r.connection_name === row.connection_name)) [
      | inl same ↦ rw same refl
      | inr other ↦ rw other (upsert-id rows row)
    ]

upsert-others :
    (rows : Resources) (row : SharedConnectorResource)
    → other_rows row.service row.connection_name (upsert rows row).0
      ≡ other_rows row.service row.connection_name rows
unfolding upsert keep
upsert-others [] row = rw (eq_refl row.service, eq_refl row.connection_name) refl
upsert-others (r ∷ rows) row =
    elim (Bool-cases (r.service === row.service && r.connection_name === row.connection_name)) [
      | inl same ↦ rw (same, eq_refl row.service, eq_refl row.connection_name) refl
      | inr other ↦ rw (other, other) (ap (λ rs. r ∷ rs) (upsert-others rows row))
    ]

-- The tables after a save, for the row and the grants that were prepared.
pub record IsReplaced (before after : Tables) (id : String) (row : SharedConnectorResource)
    (grants : List SharedConnectorGrant) : Type 0 where
  pub kept_id : id ≡ id_or (connection_row row.service row.connection_name before.resources) row.id
  pub stored :
      connection_row row.service row.connection_name after.resources ≡ some (record row { id = id })
  pub others :
      other_rows row.service row.connection_name after.resources
      ≡ other_rows row.service row.connection_name before.resources
  pub own : grants_of id after.grants ≡ map (λ g. (id, g)) grants
  pub rest :
      (other : String) → other ≢ id → grants_of other after.grants ≡ grants_of other before.grants

-- A save that returns had prepared a row and grants. The returned id is that of the row of the same service
-- and connection name, if there was one, and the new id otherwise; with this id the prepared row is
-- stored for its service and connection name, the rows of other connections are as before, and the id
-- has exactly the prepared grants, while every other id has the grants that it had before.
pub save_shared_connector_resource-IsReplaced :
    (outside : Outside) (tables : Tables) (issuer new_id : String) (uuid : ℕ → String)
    (input : Fields) (after : Tables) (id : String)
    → save_shared_connector_resource outside tables issuer new_id uuid input ≡ returned (after, id)
    → (ready : SharedConnectorResource × List SharedConnectorGrant) × (prepare_resource outside
          issuer new_id uuid input
        ≡ returned ready)
      × IsReplaced tables after id ready.0 ready.1
unfolding save_shared_connector_resource replace_grants
save_shared_connector_resource-IsReplaced outside tables issuer new_id uuid input after id h =
    let (ready, prepared, h₁) =
      >>=-returned (prepare_resource outside issuer new_id uuid input) _ h in
    let same = returned-injective h₁ in
    (
      ready,
      prepared,
      subst (λ end. IsReplaced tables end.0 end.1 ready.0 ready.1) same
          (record {
            kept_id = upsert-id tables.resources ready.0;
            stored = upsert-row tables.resources ready.0;
            others = upsert-others tables.resources ready.0;
            own =
                grants_of-append _ (others_of (upsert tables.resources ready.0).1 tables.grants) _
                ∙ rw (grants_of-others_self (upsert tables.resources ready.0).1 tables.grants)
                    (grants_of-new_self _ ready.1);
            rest = λ other ne.
                grants_of-append other (others_of (upsert tables.resources ready.0).1 tables.grants)
                  _
                ∙ rw (grants_of-new_ne other (upsert tables.resources ready.0).1 ready.1 ne)
                    (append-nil _ ∙ grants_of-others_ne other _ tables.grants ne);
          }),
    )
