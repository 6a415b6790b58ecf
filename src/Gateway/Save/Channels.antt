-- ===== src/Gateway/Save/Channels.antt =====
-- What the writes of `saveGatewayChannels` do to the keys, and what it returns.
use mathlib.Core.List.{append-nil}
use mathlib.Core.Path.{ap₂}
use ai_base.Common.{
  String, ◌≡◌, refl, sym, ◌∙◌, ap, List, [], ◌∷◌, ◌++◌, map, Option, none, some, inl, inr,
  Bool-cases, Option-cases, includes,
}
use ai_base.Url.{UrlApi}
use ai_base.Text.{is_empty}
use ai_base.Gateway.Types.{GatewayChannel, GatewayChannelDraft}
use ai_base.Gateway.Store.Changes.{changes, changes_of, changes_of-append}
use ai_base.Gateway.Managed.{Env, sync_system_managed_mcp_secrets, sync_secret, sync_all}
use ai_base.Gateway.Keys.{given_key, key_write, key_writes, drop_keys, config_write}
use ai_base.Gateway.Keys.Plan.{
  KeyDraft, draft_change, draft_changes, drop_changes, draft_ids, save_changes,
}
use ai_base.Gateway.Save.{channel_key_writes}

abbrev pub plan_of : GatewayChannelDraft → KeyDraft
plan_of d = (d.id, d.remove_api_key, d.api_key)

pub plan-ids :
    (drafts : List GatewayChannelDraft) → draft_ids (map plan_of drafts) ≡ map (λ d. d.id) drafts
plan-ids [] = refl
plan-ids (d ∷ ds) = ap (λ l. d.id ∷ l) (plan-ids ds)

key_write-changes :
    (d : GatewayChannelDraft) → changes_of changes (key_write d) ≡ draft_change (plan_of d)
unfolding key_write changes_of
key_write-changes d = elim (Bool-cases d.remove_api_key) [
  | inl removed ↦ rw removed
  | inr kept ↦ rw kept (elim (Option-cases (given_key d.api_key)) [
    | inl absent ↦ rw absent
    | inr (key, given) ↦ rw given
  ])
]

key_writes-changes :
    (ds : List GatewayChannelDraft)
    → changes_of changes (key_writes ds) ≡ draft_changes (map plan_of ds)
unfolding key_writes
key_writes-changes [] = unfold changes_of in refl
key_writes-changes (d ∷ ds) =
    changes_of-append changes (key_write d) (key_writes ds)
    ∙ cc (key_write-changes d, key_writes-changes ds)

drop_keys-changes :
    (retained : List String) (cs : List GatewayChannel)
    → changes_of changes (drop_keys retained cs) ≡ drop_changes retained (map (λ c. c.stored.id) cs)
unfolding drop_keys changes_of
drop_keys-changes retained [] = refl
drop_keys-changes retained (c ∷ cs) = elim (Bool-cases (includes retained c.stored.id)) [
  | inl kept ↦ rw kept (drop_keys-changes retained cs)
  | inr gone ↦ rw gone (ap (λ l. (c.stored.id, none) ∷ l) (drop_keys-changes retained cs))
]

sync_secret-changes : (id : String) (value : Option String) → changes (sync_secret id value) ≡ []
sync_secret-changes id none = refl
sync_secret-changes id (some value) = refl

sync_all-changes :
    (secrets : List (String × Option String)) → changes_of changes (sync_all secrets) ≡ []
unfolding sync_all changes_of
sync_all-changes [] = refl
sync_all-changes ((id, value) ∷ rest) = rw sync_secret-changes (sync_all-changes rest)

pub config-changes : (text : String) → changes_of changes (config_write text) ≡ []
unfolding config_write changes_of
config-changes text = elim (Bool-cases (is_empty text)) [ inl e ↦ rw e | inr e ↦ rw e ]

module _ (api : UrlApi) (env : Env) where
  -- The writes before the configuration carry out the plan for the keys, and no later write touches one.
  pub channel_key_writes-changes :
      (previous : List GatewayChannel) (drafts : List GatewayChannelDraft)
      → changes_of changes (channel_key_writes api env previous drafts)
        ≡ save_changes (map plan_of drafts) (map (λ c. c.stored.id) previous)
  unfolding channel_key_writes sync_system_managed_mcp_secrets
  channel_key_writes-changes previous drafts =
      changes_of-append changes (key_writes drafts) _
      ∙ ap₂ ◌++◌ (key_writes-changes drafts) (
          changes_of-append changes (drop_keys (map (λ d. d.id) drafts) previous) _
          ∙ ap₂ ◌++◌
              (drop_keys-changes (map (λ d. d.id) drafts) previous
                ∙ ap (λ r. drop_changes r (map (λ c. c.stored.id) previous))
                    (sym (plan-ids drafts)))
              (sync_all-changes _)
          ∙ append-nil _)
