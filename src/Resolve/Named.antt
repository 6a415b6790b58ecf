-- ===== src/Resolve/Named.antt =====
-- Whom a grant names, and when it counts.
use ai_base.Common.{
  String, ◌≡◌, refl, ◌⊎◌, true, false, none, some, IfSome, includes, arith, inl, inr, Option-cases,
  ===→≡,
}
use ai_base.Access.Grants.{PrincipalType, user, group, SharedConnectorGrant}
use ai_base.Resolve.{World}
use ai_base.Resolve.Input.{Query}
use ai_base.Resolve.Rows.{names_user, names_group, names_principal, is_current}

module _ (world : World) where
  -- The grant's subject is the employee's, or without one its email is.
  pub IsUser : Query → SharedConnectorGrant → Type 0
  IsUser query grant =
      (grant.principal_subject ≡ some query.subject)
      ⊎ ((grant.principal_subject ≡ none)
          × ((email : String) × (given : String) × (query.email ≡ some email)
              × (grant.principal_email ≡ some given)
              × (world.outside.lower given ≡ email)))

  -- The grant's group is one of the employee's.
  pub IsGroup : Query → SharedConnectorGrant → Type 0
  IsGroup query grant =
      (name : String) × (grant.group_name ≡ some name)
      × (includes query.groups (world.outside.lower name) ≡ true)

  pub IsNamed : Query → SharedConnectorGrant → Type 0
  IsNamed query grant =
      ((grant.principal_type ≡ user) × IsUser query grant)
      ⊎ ((grant.principal_type ≡ group) × IsGroup query grant)

  -- The grant has started, and has not expired.
  pub IsLive : SharedConnectorGrant → Type 0
  IsLive grant =
      IfSome (λ time. world.has_started time ≡ true) grant.starts_at
      × IfSome (λ time. world.has_expired time ≡ false) grant.expires_at

  names_user-IsUser :
      (query : Query) (grant : SharedConnectorGrant)
      → names_user world query grant ≡ true
      → IsUser query grant
  unfolding names_user IsUser
  names_user-IsUser query grant h = elim (Option-cases grant.principal_subject) [
    | inr (subject, e) ↦
        let same : subject ≡ query.subject = ===→≡ _ _ (rw (names_user, e) at h) in
        inl (rw same at e)
    | inl n ↦ elim (Option-cases query.email) [
      | inl none_given ↦ let wrong : false ≡ true = rw (names_user, n, none_given) at h in cc
      | inr (email, m) ↦ elim (Option-cases grant.principal_email) [
        | inl none_named ↦ let wrong : false ≡ true = rw (names_user, n, m, none_named) at h in cc
        | inr (given, g) ↦ inr (n, (email, given, m, g, ===→≡ _ _ (rw (names_user, n, m, g) at h)))
      ]
    ]
  ]

  names_group-IsGroup :
      (query : Query) (grant : SharedConnectorGrant)
      → names_group world query grant ≡ true
      → IsGroup query grant
  unfolding names_group IsGroup
  names_group-IsGroup query grant h = elim (Option-cases grant.group_name) [
    | inl n ↦ let wrong : false ≡ true = rw (names_group, n) at h in cc
    | inr (name, e) ↦ (name, e, rw (names_group, e) at h)
  ]

  principal-cases :
      (query : Query) (grant : SharedConnectorGrant) (type : PrincipalType)
      → grant.principal_type ≡ type
      → names_principal world query grant type ≡ true
      → IsNamed query grant
  unfolding names_principal IsNamed
  principal-cases query grant user e h = inl (e, names_user-IsUser query grant h)
  principal-cases query grant group e h = inr (e, names_group-IsGroup query grant h)

  pub names_principal-IsNamed :
      (query : Query) (grant : SharedConnectorGrant)
      → names_principal world query grant grant.principal_type ≡ true
      → IsNamed query grant
  names_principal-IsNamed query grant h = principal-cases query grant grant.principal_type refl h

  pub is_current-IsLive :
      (grant : SharedConnectorGrant) → is_current world grant ≡ true → IsLive grant
  unfolding is_current IsLive
  is_current-IsLive grant h = elim (Option-cases grant.starts_at) [
    | inl n ↦ elim (Option-cases grant.expires_at) [
      | inl m ↦ rw (n, m) (tt, tt)
      | inr (to, m) ↦ let k = rw (is_current, n, m) at h in rw (n, m) (tt, ground arith)
    ]
    | inr (from_time, n) ↦ elim (Option-cases grant.expires_at) [
      | inl m ↦ let k = rw (is_current, n, m) at h in rw (n, m) (ground arith, tt)
      | inr (to, m) ↦ let k = rw (is_current, n, m) at h in rw (n, m) (ground arith, ground arith)
    ]
  ]
