-- ===== src/Gateway/Register/Sync.antt =====
-- What the writes of a registration leave behind: the keys in step with the environment.
use mathlib.Core.List.{append-nil}
use mathlib.Core.Path.{ap₂}
use ai_base.Common.{
  String, ◌≡◌, refl, ◌∙◌, ap, List, [], ◌∷◌, ◌++◌, false, Option, none, some, ◌<>◌, eq_refl, inl,
  inr, Bool-cases, Option-cases,
}
use ai_base.Text.{trim, is_empty}
use ai_base.Text.Trim.{trim_idempotent}
use ai_base.Gateway.Servers.{open_connector_mcp_id, rag_mcp_id}
use ai_base.Gateway.Store.{secret, Store, Write, write_revision, apply, apply_all}
use ai_base.Gateway.Store.Changes.{
  mcp_changes, changes_of, changes_of-append, after_changes, apply_all-append, mcp_secret-apply_all,
}
use ai_base.Gateway.Managed.{
  Env, env_trimmed, open_connector_runtime_token, light_rag_api_key, managed_secrets, sync_secret,
  sync_all, sync_system_managed_mcp_secrets, secret_needs_sync, any_needs_sync,
  system_managed_mcp_secrets_need_sync,
}
use ai_base.Gateway.Keys.{config_write}

-- A value read from the environment is trimmed already.
env_trimmed-trim : (o : Option String) (v : String) → env_trimmed o ≡ some v → trim v ≡ v
env_trimmed-trim none v h = cc
env_trimmed-trim (some s) v h = elim (Bool-cases (is_empty (trim s))) [
  | inl blank ↦ absurd (cc (rw blank at h))
  | inr given ↦ let same : trim s ≡ v = cc (rw given at h) in rw (← same) (trim_idempotent s)
]

in_sync : (o : Option String) → secret_needs_sync (env_trimmed o) (env_trimmed o) ≡ false
unfolding secret_needs_sync
in_sync o = elim (Option-cases (env_trimmed o)) [
  | inl absent ↦ rw absent
  | inr (v, given) ↦ rw given (rw (env_trimmed-trim o v given) (rw eq_refl))
]

sync_secret-changes :
    (id : String) (value : Option String) → mcp_changes (sync_secret id value) ≡ (id, value) ∷ []
sync_secret-changes id none = refl
sync_secret-changes id (some value) = refl

sync-changes :
    (env : Env) → changes_of mcp_changes (sync_system_managed_mcp_secrets env) ≡ managed_secrets env
unfolding sync_system_managed_mcp_secrets sync_all changes_of
sync-changes env = rw sync_secret-changes (rw sync_secret-changes)

config-changes : (text : String) → changes_of mcp_changes (config_write text) ≡ []
unfolding config_write changes_of
config-changes text = elim (Bool-cases (is_empty text)) [ inl e ↦ rw e | inr e ↦ rw e ]

-- The writes of a registration.
unfoldable pub registration_writes : Env → String → String → List Write
registration_writes env generated revision =
    sync_system_managed_mcp_secrets env
    ++ (config_write generated ++ write_revision (revision <> "\n") ∷ [])

registration-changes :
    (env : Env) (generated revision : String)
    → changes_of mcp_changes (registration_writes env generated revision) ≡ managed_secrets env
unfolding registration_writes
registration-changes env generated revision =
    changes_of-append mcp_changes (sync_system_managed_mcp_secrets env) _
    ∙ ap₂ ◌++◌ (sync-changes env) (
        changes_of-append mcp_changes (config_write generated) _
        ∙ ap₂ ◌++◌ (config-changes generated) (last_change revision))
    ∙ append-nil _
  where
    last_change : (r : String) → changes_of mcp_changes (write_revision (r <> "\n") ∷ []) ≡ []
    last_change r = unfold changes_of in refl

module _ (env : Env) (s : Store) (generated revision : String) where
  abbrev pub left : Store
  left = apply_all s (registration_writes env generated revision)

  left-secrets :
      (id : String)
      → secret left.mcp_secrets id
        ≡ after_changes (managed_secrets env) id (secret s.mcp_secrets id)
  left-secrets id =
      mcp_secret-apply_all s _ id
      ∙ ap (λ cs. after_changes cs id (secret s.mcp_secrets id))
          (registration-changes env generated revision)

  pub left-synced : system_managed_mcp_secrets_need_sync env left.mcp_secrets ≡ false
  unfolding system_managed_mcp_secrets_need_sync any_needs_sync after_changes
      open_connector_runtime_token light_rag_api_key
  left-synced = rw (left-secrets open_connector_mcp_id) (
      rw (left-secrets rag_mcp_id)
        (rw (in_sync env.open_connector_runtime_token) (rw (in_sync env.lightrag_api_key))))

  pub left-config : is_empty generated ≡ false → left.config ≡ some generated
  unfolding registration_writes config_write
  left-config given = rw given (
      ap (λ t. t.config) (apply_all-append s (sync_system_managed_mcp_secrets env) _)
      ∙ (unfold apply_all apply in refl))
