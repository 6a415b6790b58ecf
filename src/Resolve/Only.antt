-- ===== src/Resolve/Only.antt =====
-- The selection is the only connection that passes all tests.
use ai_base.Common.{
  String, ◌≡◌, ◌↔◌, refl, sym, ap, ◌∙◌, List, [], ◌∷◌, Bool, true, ◌&&◌, Option, none, some, ◌===◌,
  keep, length, ltb, arith,
}
use ai_base.Common.Attempt.{returned, fail_if, fail_if-returned, returned-injective, >>=-returned}
use ai_base.Integrations.{StoreError}
use ai_base.Resolve.{World, ResolvedConnection}
use ai_base.Resolve.Input.{Query}
use ai_base.Resolve.Select.{allows, narrow, only, select_connection}

-- A test that is made if there is a value.
pub passes : Option String → (String → ResolvedConnection → Bool) → ResolvedConnection → Bool
passes none test connection = true
passes (some value) test connection = test value connection

keep-keep :
    (p q : ResolvedConnection → Bool) (xs : List ResolvedConnection)
    → keep p (keep q xs) ≡ keep (λ x. q x && p x) xs
unfolding keep
keep-keep p q [] = refl
keep-keep p q (x ∷ xs) = ground (arith, keep-keep p q xs)

keep-all : (xs : List ResolvedConnection) → keep (λ x. true) xs ≡ xs
unfolding keep
keep-all [] = refl
keep-all (x ∷ xs) = ap (λ ys. x ∷ ys) (keep-all xs)

module _ (world : World) where
  -- Of the service, of the requested name and with the asked action, where they are given.
  pub is_match : Query → String → ResolvedConnection → Bool
  is_match query service connection =
      connection.service === service
      && (passes query.requested_connection_name (λ name c. c.connection_name === name) connection
          && passes query.action_id (allows world) connection)

  narrow-keep :
      (value : Option String) (test : String → ResolvedConnection → Bool) (missing : StoreError)
      (xs left : List ResolvedConnection)
      → narrow world value test missing xs ≡ returned left
      → keep (passes value test) xs ≡ left
  unfolding narrow passes
  narrow-keep none test missing xs left h = keep-all xs ∙ returned-injective h
  narrow-keep (some value) test missing xs left h =
      let (found, h₁) = fail_if-returned _ _ _ h in returned-injective h₁

  narrow-returns :
      (value : Option String) (test : String → ResolvedConnection → Bool) (missing : StoreError)
      (xs : List ResolvedConnection) (y : ResolvedConnection) (ys : List ResolvedConnection)
      → keep (passes value test) xs ≡ y ∷ ys
      → narrow world value test missing xs ≡ returned (y ∷ ys)
  unfolding narrow passes fail_if
  narrow-returns none test missing xs y ys h = ap (λ l. returned l) (sym (keep-all xs) ∙ h)
  narrow-returns (some value) test missing xs y ys h =
      let full : ltb 0 (length (y ∷ ys)) ≡ true = ground arith in rw (narrow, h, full) refl

  only-singleton :
      (xs : List ResolvedConnection) (c : ResolvedConnection)
      → only world xs ≡ returned c
      → xs ≡ c ∷ []
  unfolding only
  only-singleton [] c h = cc
  only-singleton (x ∷ []) c h = ap (λ y. y ∷ []) (returned-injective h)
  only-singleton (x ∷ y ∷ xs) c h = cc

  -- What is kept comes from a list that is not empty.
  keep-cons :
      (p : ResolvedConnection → Bool) (xs : List ResolvedConnection) (c : ResolvedConnection)
      (cs : List ResolvedConnection)
      → keep p xs ≡ c ∷ cs
      → (y : ResolvedConnection) × (ys : List ResolvedConnection) × (xs ≡ y ∷ ys)
  unfolding keep
  keep-cons p [] c cs h = cc
  keep-cons p (y ∷ ys) c cs h = (y, ys, refl)

  module _ (query : Query) (service : String) (connections : List ResolvedConnection) where
    abbrev by_service : List ResolvedConnection
    by_service = keep (passes (some service) (λ name c. c.service === name)) connections

    abbrev by_name : List ResolvedConnection
    by_name =
        keep (passes query.requested_connection_name (λ name c. c.connection_name === name))
          by_service

    keep-is_match :
        keep (passes query.action_id (allows world)) by_name
        ≡ keep (is_match query service) connections
    unfolding is_match passes
    keep-is_match =
        keep-keep (passes query.action_id (allows world)) _ by_service ∙ keep-keep _ _ connections

    selected-keep :
        (c : ResolvedConnection)
        → select_connection world query service connections ≡ returned c
        → keep (passes query.action_id (allows world)) by_name ≡ c ∷ []
    unfolding select_connection
    selected-keep c h =
        let (l₁, e₁, h₁) = >>=-returned (narrow world (some service) _ _ connections) _ h in
        let (l₂, e₂, h₂) =
          >>=-returned (narrow world query.requested_connection_name _ _ l₁) _ h₁ in
        let (l₃, e₃, h₃) = >>=-returned (narrow world query.action_id (allows world) _ l₂) _ h₂ in
        let k₁ = narrow-keep (some service) _ _ connections l₁ e₁ in
        let k₂ = narrow-keep query.requested_connection_name _ _ l₁ l₂ e₂ in
        let k₃ = narrow-keep query.action_id (allows world) _ l₂ l₃ e₃ in
        rw (k₁, k₂, k₃) (only-singleton l₃ c h₃)

    keep-selected :
        (c : ResolvedConnection)
        → keep (passes query.action_id (allows world)) by_name ≡ c ∷ []
        → select_connection world query service connections ≡ returned c
    unfolding select_connection only
    keep-selected c h =
        let (y₂, ys₂, e₂) = keep-cons _ by_name c [] h in
        let (y₁, ys₁, e₁) = keep-cons _ by_service y₂ ys₂ e₂ in
        rw
          (
            select_connection,
            narrow-returns (some service) _ _ connections y₁ ys₁ e₁,
            narrow-returns query.requested_connection_name _ _ (y₁ ∷ ys₁) y₂ ys₂ (rw e₁ at e₂),
            narrow-returns query.action_id (allows world) _ (y₂ ∷ ys₂) c [] (rw e₂ at h),
          )
          refl

    -- The selection gives a connection exactly where it is the only one of the service, of the requested
    -- name and with the asked action, where these are given: without a match, and with several, it fails.
    pub select_connection-only :
        (c : ResolvedConnection)
        → (select_connection world query service connections ≡ returned c)
          ↔ (keep (is_match query service) connections ≡ c ∷ [])
    select_connection-only c =
        (λ h. sym keep-is_match ∙ selected-keep c h, λ h. keep-selected c (keep-is_match ∙ h))
