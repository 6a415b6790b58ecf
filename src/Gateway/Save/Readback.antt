-- ===== src/Gateway/Save/Readback.antt =====
-- Reading back what `saveGatewayChannels` saved.
use mathlib.Core.List.{append-nil}
use mathlib.Core.Path.{ap₂}
use ai_base.Common.{
  String, ◌≡◌, refl, sym, ◌∙◌, ap, List, [], ◌∷◌, ◌++◌, map, inl, inr, All, AllDistinct, subst,
}
use ai_base.Common.Results.{ok}
use ai_base.Url.{UrlApi}
use ai_base.Gateway.Types.{Snapshot, GatewayChannel, GatewayChannelDraft, StoredGatewayChannel}
use ai_base.Gateway.Store.{
  Secrets, secret, Store, Write, write_channels, write_revision, apply, apply_all, holding, left_by,
}
use ai_base.Gateway.Store.Changes.{
  Change, changes, changes_of, changes_of-append, after_changes, apply_all-append, secret-apply_all,
}
use ai_base.Gateway.Managed.{Env, is_some}
use ai_base.Gateway.Keys.{
  read_file, with_key, with_keys, channels_in, read_gateway_channels, key_after, config_write,
}
use ai_base.Gateway.Keys.Plan.{
  SetsKey, key_of, is_some-key_of, draft_ids, save_changes, save_changes_self, save_changes_other,
}
use ai_base.Gateway.Keys.Previous.{
  entries_in, stored_ids, IsTidy, read-entries, with_key-ids, had_key-tidy,
}
use ai_base.Gateway.Save.{
  stored_channel, saved_channel, key_flag, channel_key_writes, save_gateway_channels,
}
use ai_base.Gateway.Save.Channels.{plan_of, plan-ids, channel_key_writes-changes, config-changes}
use ai_base.Gateway.Save.Outcome.{stored_of, channel_writes, Completed, save_outcome}

list_writes-changes :
    (stored : Snapshot StoredGatewayChannel) (revision : String)
    → changes_of changes (write_channels stored ∷ write_revision revision ∷ []) ≡ []
unfolding changes_of
list_writes-changes stored revision = refl

module _ (api : UrlApi) (env : Env) where
  channel_writes-changes :
      (previous : List GatewayChannel) (drafts : List GatewayChannelDraft)
      (generated timestamp revision : String)
      → changes_of changes (channel_writes api env previous drafts generated timestamp revision)
        ≡ save_changes (map plan_of drafts) (map (λ c. c.stored.id) previous)
  channel_writes-changes previous drafts generated timestamp revision =
      changes_of-append changes (channel_key_writes api env previous drafts) _
      ∙ ap (λ l. changes_of changes (channel_key_writes api env previous drafts) ++ l)
          (changes_of-append changes (config_write generated) _
            ∙ ap₂ ◌++◌ (config-changes generated) (list_writes-changes _ _))
      ∙ append-nil _
      ∙ channel_key_writes-changes api env previous drafts

  last-two-channels :
      (s : Store) (ws : List Write) (stored : Snapshot StoredGatewayChannel) (revision : String)
      → (apply_all s (ws ++ (write_channels stored ∷ write_revision revision ∷ []))).channels
        ≡ holding stored
  last-two-channels s ws stored revision =
      ap (λ t. t.channels) (apply_all-append s ws _) ∙ (unfold apply_all apply in refl)

  channel_writes-channels :
      (s : Store) (previous : List GatewayChannel) (drafts : List GatewayChannelDraft)
      (generated timestamp revision : String)
      → (apply_all s (channel_writes api env previous drafts generated timestamp revision)).channels
        ≡ holding (stored_of api env previous drafts timestamp revision)
  channel_writes-channels s previous drafts generated timestamp revision =
      ap (λ t. t.channels) (apply_all-append s (channel_key_writes api env previous drafts) _)
      ∙ last-two-channels _ (config_write generated) _ _

with_key-All :
    (secrets : Secrets) (previous : List GatewayChannel) (timestamp : String)
    (drafts : List GatewayChannelDraft)
    → All (λ d. is_some (secret secrets d.id) ≡ key_flag previous d) drafts
    → map (with_key secrets) (map (stored_channel previous timestamp) drafts)
      ≡ map (saved_channel previous timestamp) drafts
unfolding with_key stored_channel saved_channel
with_key-All secrets previous timestamp [] h = refl
with_key-All secrets previous timestamp (d ∷ ds) (p, h) =
    cc (p, with_key-All secrets previous timestamp ds h)

module _ (s : Store) (previous : Snapshot GatewayChannel) (tidy : IsTidy s)
    (read : read_gateway_channels s ≡ ok previous) where
  -- The key that a draft means is the flag that the save returns for it.
  draft_flag :
      (d : GatewayChannelDraft)
      → is_some (key_of (plan_of d) (secret s.secrets d.id)) ≡ key_flag previous.entries d
  unfolding key_flag
  draft_flag d =
      is_some-key_of (plan_of d) (secret s.secrets d.id)
      ∙ ap (key_after d.remove_api_key d.api_key) (sym (had_key-tidy s previous d.id tidy read))

  draft_flags :
      (left : Store) (cs : List Change) (ds : List GatewayChannelDraft)
      → ((id : String) → secret left.secrets id ≡ after_changes cs id (secret s.secrets id))
      → All (SetsKey cs) (map plan_of ds)
      → All (λ d. is_some (secret left.secrets d.id) ≡ key_flag previous.entries d) ds
  draft_flags left cs [] e h = tt
  draft_flags left cs (d ∷ ds) e (p, h) =
      (ap is_some (e d.id ∙ p (secret s.secrets d.id)) ∙ draft_flag d, draft_flags left cs ds e h)

module _ (api : UrlApi) (env : Env) (s : Store) (drafts : List GatewayChannelDraft)
    (timestamp revision : String) (snapshot : Snapshot GatewayChannel) (tidy : IsTidy s)
    (distinct : AllDistinct (map (λ d. d.id) drafts))
    (done : Completed api env s drafts timestamp revision snapshot) where
  abbrev left : Store
  left =
      apply_all s
        (channel_writes api env done.previous.entries drafts done.generated timestamp revision)

  left-secrets :
      (id : String)
      → secret left.secrets id
        ≡ after_changes
            (save_changes (map plan_of drafts) (map (λ c. c.stored.id) done.previous.entries))
            id
            (secret s.secrets id)
  left-secrets id =
      secret-apply_all s _ id
      ∙ ap (λ cs. after_changes cs id (secret s.secrets id))
          (channel_writes-changes api env done.previous.entries drafts done.generated timestamp
            revision)

  plan_distinct : AllDistinct (draft_ids (map plan_of drafts))
  plan_distinct = rw (plan-ids drafts) distinct

  left-read : read_gateway_channels left ≡ ok snapshot
  unfolding read_gateway_channels channels_in read_file with_keys
  left-read =
      rw
        (channel_writes-channels api env s done.previous.entries drafts done.generated timestamp
          revision)
        (ap
            (λ entries.
              ok (record { entries = entries; updated_at = timestamp; revision = revision }))
            (with_key-All left.secrets done.previous.entries timestamp drafts (
              draft_flags s done.previous tidy done.read left _ drafts left-secrets
                (save_changes_self (map plan_of drafts) _ plan_distinct)))
          ∙ ap ok done.returned)

  previous_ids : map (λ (c : GatewayChannel). c.stored.id) done.previous.entries ≡ stored_ids s
  previous_ids =
      ap (map (λ c. c.stored.id)) (read-entries s done.previous done.read)
      ∙ with_key-ids s.secrets (entries_in s.channels)

  stored_channel-ids :
      (ds : List GatewayChannelDraft)
      → map (λ c. c.id) (map (stored_channel done.previous.entries timestamp) ds)
        ≡ map (λ d. d.id) ds
  unfolding stored_channel
  stored_channel-ids [] = refl
  stored_channel-ids (d ∷ ds) = ap (λ l. d.id ∷ l) (stored_channel-ids ds)

  left_ids : stored_ids left ≡ draft_ids (map plan_of drafts)
  left_ids =
      ap (λ file. map (λ c. c.id) (entries_in file))
        (channel_writes-channels api env s done.previous.entries drafts done.generated timestamp
          revision)
      ∙ stored_channel-ids drafts
      ∙ sym (plan-ids drafts)

  left-IsTidy : IsTidy left
  left-IsTidy = record {
    no_orphan = λ id new.
        left-secrets id
        ∙ save_changes_other (map plan_of drafts) _ id (secret s.secrets id) (rw left_ids at new)
            (λ unknown. tidy.no_orphan id (rw previous_ids at unknown));
  }

module _ (api : UrlApi) (env : Env) (s : Store) (drafts : List GatewayChannelDraft)
    (timestamp revision : String) (snapshot : Snapshot GatewayChannel) where
  completed :
      (save_gateway_channels api env s drafts timestamp revision).result ≡ ok snapshot
      → Completed api env s drafts timestamp revision snapshot
  completed h = elim (save_outcome api env s drafts timestamp revision) [
    | inl (other, returned, done) ↦
        subst (Completed api env s drafts timestamp revision) (cc (returned, h)) done
    | inr (message, threw, refused) ↦ absurd (cc (threw, h))
  ]

  -- A save of drafts with distinct ids, over a store with no key but those of its channels: when it
  -- returns, a read of the files that it leaves behind gives exactly the snapshot that it returned, the
  -- flag of every channel's key included.
  pub read_gateway_channels-save_gateway_channels :
      IsTidy s
      → AllDistinct (map (λ d. d.id) drafts)
      → (save_gateway_channels api env s drafts timestamp revision).result ≡ ok snapshot
      → read_gateway_channels
          (left_by s (save_gateway_channels api env s drafts timestamp revision))
        ≡ ok snapshot
  read_gateway_channels-save_gateway_channels tidy distinct h =
      let done = completed h in
      ap (λ ws. read_gateway_channels (apply_all s ws)) done.written
      ∙ left-read api env s drafts timestamp revision snapshot tidy distinct done

  -- The same save leaves no key behind but those of the channels that it stored.
  pub save_gateway_channels-IsTidy :
      IsTidy s
      → AllDistinct (map (λ d. d.id) drafts)
      → (save_gateway_channels api env s drafts timestamp revision).result ≡ ok snapshot
      → IsTidy (left_by s (save_gateway_channels api env s drafts timestamp revision))
  save_gateway_channels-IsTidy tidy distinct h =
      let done = completed h in
      rw done.written (left-IsTidy api env s drafts timestamp revision snapshot tidy distinct done)
