-- ===== src/Integrations/Switched.antt =====
-- What activating an application does.
use ai_base.Common.{
  ℕ, String, ◌≡◌, refl, sym, ap, ◌∙◌, List, Bool, true, false, not, ◌&&◌, Option, some, inl, inr,
  ◌===◌, any, map, All, All-map, All-mono, All-total, any_pair-map, arith, Bool-cases,
}
use ai_base.Common.Attempt.{returned, fail_if, fail_if-returned, returned-injective, >>=-returned}
use ai_base.Integrations.{Outside}
use ai_base.Integrations.Tables.{
  IntegrationApplicationRow, Tables, IntegrationApplication, clash, is_violated, is_live,
  deactivate, activate, find_row, or_fail,
}
use ai_base.Integrations.Applications.{
  application_with_secret, write_applications, serialize_application, sync_application_oauth_client,
  switch_active, activate_integration_application,
}
use ai_base.Integrations.Synced.{
  SameRows, sync_application_oauth_client-SameRows, application_with_secret-found,
}
use ai_base.Integrations.Keyed.{has_id, has_id-map}
use ai_base.Integrations.Consistent.{
  deactivate-clash, IsCleared, activate-clash, find_row-platform, find_row-map,
  deactivate-IsCleared,
}

-- Of the platform, the row with the id is active and no other.
pub IsOnlyActive : String → String → IntegrationApplicationRow → Type 0
IsOnlyActive platform id row = row.platform ≡ platform → row.active ≡ (row.id === id)

activated-IsOnlyActive :
    (platform id : String) (now : ℕ) (row : IntegrationApplicationRow)
    → IsCleared platform id row
    → IsOnlyActive platform id (activate id now row)
unfolding activate IsOnlyActive
activated-IsOnlyActive platform id now row (off, on) = elim (Bool-cases (row.id === id)) [
  | inl same ↦ λ e. ground (arith, same)
  | inr other ↦ λ e. ground (arith, off (rw other at e) other, other)
]

deactivate-id :
    (platform id : String) (now : ℕ) (row : IntegrationApplicationRow)
    → (deactivate platform id now row).id ≡ row.id
unfolding deactivate
deactivate-id platform id now row = ground arith

activate-id :
    (id : String) (now : ℕ) (row : IntegrationApplicationRow) → (activate id now row).id ≡ row.id
unfolding activate
activate-id id now row = ground arith

module _ (outside : Outside) (secret_key : Option String) where
  -- The applications after a switch.
  abbrev switched : Tables → IntegrationApplicationRow → ℕ → List IntegrationApplicationRow
  switched tables row now =
      map (activate row.id now) (map (deactivate row.platform row.id now) tables.applications)

  module _ (tables : Tables) (row : IntegrationApplicationRow) (now : ℕ)
      (tidy : is_violated tables.applications ≡ false)
      (found : find_row row.id tables.applications ≡ some row) where
    cleared-tidy :
        is_violated (map (deactivate row.platform row.id now) tables.applications) ≡ false
    unfolding is_violated
    cleared-tidy =
        any_pair-map clash (deactivate row.platform row.id now) (λ r. Unit {0}) tables.applications
          (λ a b p q. deactivate-clash row.platform row.id now a b)
          (All-total (λ r. Unit {0}) (λ r. tt) tables.applications) tidy

    cleared :
        All
          (IsCleared row.platform row.id)
          (map (deactivate row.platform row.id now) tables.applications)
    cleared =
        deactivate-IsCleared row.platform row.id now tables.applications
          (find_row-platform row.id tables.applications row tidy found)

    switched-tidy : is_violated (switched tables row now) ≡ false
    unfolding is_violated
    switched-tidy =
        any_pair-map clash (activate row.id now) (IsCleared row.platform row.id)
          (map (deactivate row.platform row.id now) tables.applications)
          (activate-clash row.platform row.id now) cleared cleared-tidy

    switched-IsOnlyActive : All (IsOnlyActive row.platform row.id) (switched tables row now)
    switched-IsOnlyActive = All-map (IsOnlyActive row.platform row.id) (activate row.id now) _ (
        All-mono (IsCleared row.platform row.id) _ (activated-IsOnlyActive row.platform row.id now)
          cleared)

    switched-found :
        find_row row.id (switched tables row now)
        ≡ some (activate row.id now (deactivate row.platform row.id now row))
    switched-found = find_row-map (activate row.id now) row.id _ _ (activate-id row.id now) (
        find_row-map (deactivate row.platform row.id now) row.id _ row
          (deactivate-id row.platform row.id now) found)

    switch_active-returns :
        switch_active outside secret_key tables row now
        ≡ returned (
          serialize_application outside secret_key
              (activate row.id now (deactivate row.platform row.id now row)),
          record tables { applications = switched tables row now },
        )
    unfolding switch_active write_applications or_fail fail_if
    switch_active-returns = rw (cleared-tidy, switched-tidy, switched-found) refl

  -- The tables are consistent, with the same bindings, and of the platform the application and no other is
  -- active.
  pub record IsSwitched (tables : Tables) (row : IntegrationApplicationRow) (after : Tables)
      : Type 0 where
    pub tidy : is_violated after.applications ≡ false
    pub only : All (IsOnlyActive row.platform row.id) after.applications
    pub bindings : after.bindings ≡ tables.bindings
    pub ids :
        (id : String) → has_id id tables.applications ≡ true → has_id id after.applications ≡ true
    pub present :
        (found : IntegrationApplicationRow) × (find_row row.id after.applications ≡ some found)

  -- No employee's binding keeps the application from being activated.
  abbrev pub is_blocked : Tables → IntegrationApplicationRow → Bool
  is_blocked tables row =
      not row.active
      && any (λ binding. binding.platform === row.platform && is_live binding.status)
          tables.bindings

  switched-ids :
      (tables synced : Tables) (row : IntegrationApplicationRow) (now : ℕ)
      → synced.applications ≡ tables.applications
      → (id : String) → has_id id tables.applications ≡ true
      → has_id id (switched synced row now) ≡ true
  switched-ids tables synced row now same id h =
      has_id-map (activate row.id now) _ (activate-id row.id now) id (
        has_id-map (deactivate row.platform row.id now) _ (deactivate-id row.platform row.id now) id
          (rw same h))

  synced-IsSwitched :
      (tables synced : Tables) (row : IntegrationApplicationRow) (now : ℕ)
      → is_violated tables.applications ≡ false
      → find_row row.id tables.applications ≡ some row
      → SameRows outside secret_key tables synced
      → (app : IntegrationApplication) × (after : Tables) × (switch_active outside secret_key synced
            row now
          ≡ returned (app, after))
        × IsSwitched tables row after
  synced-IsSwitched tables synced row now tidy found (same, bound) =
      let tidy' : is_violated synced.applications ≡ false = rw same tidy in
      let found' : find_row row.id synced.applications ≡ some row = rw same found in
      (
        _,
        _,
        switch_active-returns synced row now tidy' found',
        record {
          tidy = switched-tidy synced row now tidy' found';
          only = switched-IsOnlyActive synced row now tidy' found';
          bindings = bound;
          ids = switched-ids tables synced row now same;
          present = (_, switched-found synced row now tidy' found');
        },
      )

  -- In consistent tables, an application that is found, is not blocked by bindings and whose OAuth client is
  -- saved is activated: the transaction breaks no key, and afterwards of its platform it and no other
  -- is active, the tables are consistent and the bindings are the same.
  pub activate_integration_application-IsSwitched :
      (tables synced : Tables) (id : String) (row : IntegrationApplicationRow) (now : ℕ)
      → is_violated tables.applications ≡ false
      → application_with_secret outside secret_key tables id ≡ returned row
      → is_blocked tables row ≡ false
      → sync_application_oauth_client outside secret_key tables row ≡ returned synced
      → (app : IntegrationApplication) × (after : Tables) × (activate_integration_application
            outside secret_key tables id now
          ≡ returned (app, after))
        × IsSwitched tables row after
  unfolding activate_integration_application fail_if
  activate_integration_application-IsSwitched tables synced id row now tidy given free saved =
      let same =
        sync_application_oauth_client-SameRows outside secret_key tables synced row saved in
      let found = application_with_secret-found outside secret_key tables id row given in
      let (app, after, h, switched) = synced-IsSwitched tables synced row now tidy found same in
      (app, after, rw (activate_integration_application, given, free, saved) h, switched)

  -- An activation that returns is one of an application that was found.
  pub activated-IsSwitched :
      (tables after : Tables) (id : String) (app : IntegrationApplication) (now : ℕ)
      → is_violated tables.applications ≡ false
      → activate_integration_application outside secret_key tables id now ≡ returned (app, after)
      → (row : IntegrationApplicationRow) × IsSwitched tables row after
  unfolding activate_integration_application
  activated-IsSwitched tables after id app now tidy h =
      let (row, given, h₁) =
        >>=-returned (application_with_secret outside secret_key tables id) _ h in
      let (synced, saved, h₂) =
        >>=-returned
          (fail_if (is_blocked tables row) _
            (sync_application_oauth_client outside secret_key tables row))
          _ h₁ in
      let (free, h₃) = fail_if-returned _ _ _ saved in
      let same = sync_application_oauth_client-SameRows outside secret_key tables synced row h₃ in
      let found = application_with_secret-found outside secret_key tables id row given in
      let (app', after', h₄, switched) = synced-IsSwitched tables synced row now tidy found same in
      let eq : after' ≡ after = ap (λ p. p.1) (returned-injective (sym h₄ ∙ h₂)) in
      (row, rw (← eq) switched)
