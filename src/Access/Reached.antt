-- ===== src/Access/Reached.antt =====
-- Saves and deletes of shared connections in any order, and what a delete leaves.
use ai_base.Common.{
  ℕ, String, ◌≡◌, ◌≢◌, refl, sym, ap, subst, ◌∙◌, List, [], ◌∷◌, keep, any, any_pair, Bool, true,
  false, not, ◌===◌, arith, inl, inr, Bool-cases, ===→≡, ≢→===-false, some,
}
use ai_base.Json.{Fields, str, get_field}
use ai_base.Access.{returned, Outside, >>=-returned, refuse_if-returned, returned-injective}
use ai_base.Access.Texts.{required_text}
use ai_base.Access.Grants.{SharedConnectorGrant}
use ai_base.Access.Save.{SharedConnectorResource, Tables, save_shared_connector_resource}
use ai_base.Access.Removed.{
  has_id, remove_where, is_connection_of, delete_shared_connector_resource,
  delete_shared_connector_resource_by_connection, save_with_cache,
}
use ai_base.Access.Replaced.{grants_of}
use ai_base.Access.Sane.{IsSane, remove_where-IsSane, save_shared_connector_resource-IsSane}

-- The resource with an id.
abbrev pub resource_of : String → List SharedConnectorResource → List SharedConnectorResource
resource_of id = keep (λ r. r.id === id)

removed-gone :
    (id : String) (rows : List SharedConnectorResource)
    → has_id id (keep (λ r. not (r.id === id)) rows) ≡ false
unfolding any keep has_id
removed-gone id [] = refl
removed-gone id (r ∷ rows) = elim (Bool-cases (r.id === id)) [
  | inl e ↦ rw e (removed-gone id rows)
  | inr e ↦ rw (e, e) (removed-gone id rows)
]

removed-others :
    (id other : String) (rows : List SharedConnectorResource)
    → other ≢ id
    → resource_of other (keep (λ r. not (r.id === id)) rows) ≡ resource_of other rows
unfolding keep
removed-others id other [] ne = refl
removed-others id other (r ∷ rows) ne = elim (Bool-cases (r.id === id)) [
  | inl e ↦
      let away : (r.id === other) ≡ false = ≢→===-false _ _ (λ same. ne (sym same ∙ ===→≡ _ _ e)) in
      rw (e, away) (removed-others id other rows ne)
  | inr e ↦ elim (Bool-cases (r.id === other)) [
    | inl k ↦ rw (e, k) (ap (λ rs. r ∷ rs) (removed-others id other rows ne))
    | inr k ↦ rw (e, k) (removed-others id other rows ne)
  ]
]

-- Only the id itself is among the rows of the id.
kept-id :
    (id other : String) (rows : List SharedConnectorResource)
    → other ≢ id
    → has_id other (resource_of id rows) ≡ false
unfolding any keep has_id
kept-id id other [] ne = refl
kept-id id other (r ∷ rows) ne = elim (Bool-cases (r.id === id)) [
  | inl e ↦
      let away : (r.id === other) ≡ false = ≢→===-false _ _ (λ same. ne (sym same ∙ ===→≡ _ _ e)) in
      rw (e, away) (kept-id id other rows ne)
  | inr e ↦ rw e (kept-id id other rows ne)
]

found-id :
    (id : String) (rows : List SharedConnectorResource)
    → has_id id rows ≡ true
    → has_id id (resource_of id rows) ≡ true
unfolding any keep has_id
found-id id [] h = cc
found-id id (r ∷ rows) h = elim (Bool-cases (r.id === id)) [
  | inl e ↦ rw (e, e) refl
  | inr e ↦ rw e (found-id id rows (rw e at h))
]

abbrev Rows : Type 0
Rows = List (String × SharedConnectorGrant)

-- A test that only reads the id of the resource.
kept-grants :
    (id : String) (test : String → Bool) (grants : Rows)
    → test id ≡ true
    → grants_of id (keep (λ g. test g.0) grants) ≡ grants_of id grants
unfolding keep
kept-grants id test [] pass = refl
kept-grants id test (g ∷ grants) pass = elim (Bool-cases (g.0 === id)) [
  | inl e ↦
      let h : test g.0 ≡ true = ap test (===→≡ _ _ e) ∙ pass in
      rw (h, e) (ap (λ gs. g ∷ gs) (kept-grants id test grants pass))
  | inr e ↦ elim (Bool-cases (test g.0)) [
    | inl t ↦ rw (t, e) (kept-grants id test grants pass)
    | inr t ↦ rw (t, e) (kept-grants id test grants pass)
  ]
]

dropped-grants :
    (id : String) (test : String → Bool) (grants : Rows)
    → test id ≡ false
    → grants_of id (keep (λ g. test g.0) grants) ≡ []
unfolding keep
dropped-grants id test [] fail = refl
dropped-grants id test (g ∷ grants) fail = elim (Bool-cases (g.0 === id)) [
  | inl e ↦
      let h : test g.0 ≡ false = ap test (===→≡ _ _ e) ∙ fail in
      rw h (dropped-grants id test grants fail)
  | inr e ↦ elim (Bool-cases (test g.0)) [
    | inl t ↦ rw (t, e) (dropped-grants id test grants fail)
    | inr t ↦ rw t (dropped-grants id test grants fail)
  ]
]

-- The tables after a delete of a resource.
pub record IsRemoved (before after : Tables) (id : String) : Type 0 where
  pub known : has_id id before.resources ≡ true
  pub gone : has_id id after.resources ≡ false
  pub revoked : grants_of id after.grants ≡ []
  pub others :
      (other : String)
      → other ≢ id
      → (resource_of other after.resources ≡ resource_of other before.resources)
        × (grants_of other after.grants ≡ grants_of other before.grants)

module _ {C : Type 0} where
  -- A delete that returns was given the id of a resource: the resource and all of its grants are gone
  -- afterwards, every other resource and its grants are as before, and the cache is empty.
  pub delete_shared_connector_resource-IsRemoved :
      (tables after : Tables) (cache left : List C) (id : String)
      → delete_shared_connector_resource tables cache id ≡ returned (after, left)
      → (key : String) × (required_text (some (str id)) "共享连接 ID" 64 ≡ returned key)
        × IsRemoved tables after key
        × (left ≡ [])
  unfolding delete_shared_connector_resource remove_where
  delete_shared_connector_resource-IsRemoved tables after cache left id h =
      let (key, given, h₁) = >>=-returned (required_text (some (str id)) "共享连接 ID" 64) _ h in
      let (known, h₂) = refuse_if-returned _ _ _ _ h₁ in
      let same = returned-injective h₂ in
      let found : has_id key tables.resources ≡ true = ground arith in
      let stays : String → Bool = λ other. not (has_id other (resource_of key tables.resources)) in
      (
        key,
        given,
        subst (λ end. IsRemoved tables end key) (ap (λ end. end.0) same)
            (record {
              known = found;
              gone = removed-gone key tables.resources;
              revoked =
                  dropped-grants key stays tables.grants
                    (ap not (found-id key tables.resources found));
              others = λ other ne. (
                removed-others key other tables.resources ne,
                kept-grants other stays tables.grants
                    (ap not (kept-id key other tables.resources ne)),
              );
            }),
        sym (ap (λ end. end.1) same),
      )

module _ (C : Type 0) (outside : Outside) where
  -- The tables after saves and deletes in any order, from empty tables, with any cache at each step. The
  -- id of a save is not in use.
  pub data Reachable : Tables → Type 0 where
    start : Reachable (record { resources = []; grants = [] })
    saves :
        (tables after : Tables) (cache left : List C) (issuer id : String) (uuid : ℕ → String)
        (input : Fields)
        → Reachable tables
        → has_id id tables.resources ≡ false
        → save_with_cache outside tables cache issuer id uuid input ≡ returned (after, left)
        → Reachable after
    deletes :
        (tables after : Tables) (cache left : List C) (id : String)
        → Reachable tables
        → delete_shared_connector_resource tables cache id ≡ returned (after, left)
        → Reachable after
    deletes_by_connection :
        (tables : Tables) (cache : List C) (service name : String)
        → Reachable tables
        → Reachable (delete_shared_connector_resource_by_connection tables cache service name).0

  -- No two resources have one id, or one service and connection name, and every grant is of a resource
  -- that is there, after saves and deletes in any order, if a save's id is not in use.
  pub Reachable-IsSane : (tables : Tables) → Reachable tables → IsSane tables
  unfolding save_with_cache delete_shared_connector_resource
      delete_shared_connector_resource_by_connection any_pair
  Reachable-IsSane tables start = record { keyed = refl; referenced = tt }
  Reachable-IsSane tables (saves before after cache left issuer id uuid input reached fresh h) =
      let (service, e, h₁) =
        >>=-returned (required_text (get_field input "service") "Connector Service ID" 128) _ h in
      let (saved, e₁, h₂) =
        >>=-returned (save_shared_connector_resource outside before issuer id uuid input) _ h₁ in
      subst IsSane (ap (λ end. end.0) (returned-injective h₂)) (
        save_shared_connector_resource-IsSane outside before saved.0 issuer id saved.1 uuid input
          fresh e₁ (Reachable-IsSane before reached))
  Reachable-IsSane tables (deletes before after cache left id reached h) =
      let (key, e, h₁) = >>=-returned (required_text (some (str id)) "共享连接 ID" 64) _ h in
      let (known, h₂) = refuse_if-returned _ _ _ _ h₁ in
      subst IsSane (ap (λ end. end.0) (returned-injective h₂))
        (remove_where-IsSane _ before (Reachable-IsSane before reached))
  Reachable-IsSane tables (deletes_by_connection before cache service name reached) =
      remove_where-IsSane (is_connection_of service name) before (Reachable-IsSane before reached)
