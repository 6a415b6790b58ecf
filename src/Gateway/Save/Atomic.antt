-- ===== src/Gateway/Save/Atomic.antt =====
-- What a save leaves behind when it throws, or when it is cut short between two writes.
use ai_base.Common.{
  String, ◌≡◌, refl, sym, ◌∙◌, ap, subst, List, [], ◌∷◌, ◌++◌, map, Option, none, some, ◌<>◌, inl,
  inr, Bool-cases, Option-cases, All, All-append, All-mono, includes, append_assoc,
}
use ai_base.Common.Results.{thrown}
use ai_base.Url.{UrlApi}
use ai_base.Text.{is_empty}
use ai_base.Gateway.Types.{GatewayChannel, GatewayChannelDraft}
use ai_base.Gateway.Store.{
  Store, Write, write_secret, unlink_secret, write_mcp_secret, unlink_mcp_secret, write_channels,
  write_revision, apply, apply_all, left_by,
}
use ai_base.Gateway.Managed.{Env, sync_secret, sync_all, sync_system_managed_mcp_secrets}
use ai_base.Gateway.Keys.{given_key, key_write, key_writes, drop_keys, config_write}
use ai_base.Gateway.Save.{channel_key_writes, save_gateway_channels}
use ai_base.Gateway.Save.Outcome.{stored_of, channel_writes, save_outcome}

-- A write of a key.
abbrev IsKeyWrite : Write → Type 0
IsKeyWrite (write_secret id key) = Unit
IsKeyWrite (unlink_secret id) = Unit
IsKeyWrite (write_mcp_secret id key) = Unit
IsKeyWrite (unlink_mcp_secret id) = Unit
IsKeyWrite _ = ⊥

-- A write of anything but the revision.
abbrev IsQuiet : Write → Type 0
IsQuiet (write_revision revision) = ⊥
IsQuiet _ = Unit

IsKeyWrite-IsQuiet : (w : Write) → IsKeyWrite w → IsQuiet w
IsKeyWrite-IsQuiet (write_revision revision) h = h
IsKeyWrite-IsQuiet (write_secret id key) h = tt
IsKeyWrite-IsQuiet _ h = tt

key_write-IsKeyWrite : (d : GatewayChannelDraft) → All IsKeyWrite (key_write d)
unfolding key_write
key_write-IsKeyWrite d = elim (Bool-cases d.remove_api_key) [
  | inl removed ↦ rw removed (tt, tt)
  | inr kept ↦ rw kept (elim (Option-cases (given_key d.api_key)) [
    | inl absent ↦ rw absent tt
    | inr (key, given) ↦ rw given (tt, tt)
  ])
]

key_writes-IsKeyWrite : (ds : List GatewayChannelDraft) → All IsKeyWrite (key_writes ds)
unfolding key_writes
key_writes-IsKeyWrite [] = tt
key_writes-IsKeyWrite (d ∷ ds) =
    All-append IsKeyWrite (key_write d) (key_writes ds) (key_write-IsKeyWrite d)
      (key_writes-IsKeyWrite ds)

drop_keys-IsKeyWrite :
    (retained : List String) (cs : List GatewayChannel) → All IsKeyWrite (drop_keys retained cs)
unfolding drop_keys
drop_keys-IsKeyWrite retained [] = tt
drop_keys-IsKeyWrite retained (c ∷ cs) = elim (Bool-cases (includes retained c.stored.id)) [
  | inl kept ↦ rw kept (drop_keys-IsKeyWrite retained cs)
  | inr gone ↦ rw gone (tt, drop_keys-IsKeyWrite retained cs)
]

sync_secret-IsKeyWrite : (id : String) (value : Option String) → IsKeyWrite (sync_secret id value)
sync_secret-IsKeyWrite id none = tt
sync_secret-IsKeyWrite id (some value) = tt

sync_all-IsKeyWrite : (secrets : List (String × Option String)) → All IsKeyWrite (sync_all secrets)
unfolding sync_all
sync_all-IsKeyWrite [] = tt
sync_all-IsKeyWrite ((id, value) ∷ rest) =
    (sync_secret-IsKeyWrite id value, sync_all-IsKeyWrite rest)

config_write-IsQuiet : (text : String) → All IsQuiet (config_write text)
unfolding config_write
config_write-IsQuiet text = elim (Bool-cases (is_empty text)) [
  | inl e ↦ rw e (tt, tt)
  | inr e ↦ rw e (tt, tt)
]

-- The lists and the configuration of a store, with its revision.
pub record SameFiles (s t : Store) : Type 0 where
  pub channels : t.channels ≡ s.channels
  pub mcp_servers : t.mcp_servers ≡ s.mcp_servers
  pub config : t.config ≡ s.config
  pub revision : t.revision ≡ s.revision

apply-SameFiles : (s : Store) (w : Write) → IsKeyWrite w → SameFiles s (apply s w)
unfolding apply
apply-SameFiles s (write_secret id key) h = record {
  channels = refl;
  mcp_servers = refl;
  config = refl;
  revision = refl;
}
apply-SameFiles s (unlink_secret id) h = record {
  channels = refl;
  mcp_servers = refl;
  config = refl;
  revision = refl;
}
apply-SameFiles s (write_mcp_secret id key) h = record {
  channels = refl;
  mcp_servers = refl;
  config = refl;
  revision = refl;
}
apply-SameFiles s (unlink_mcp_secret id) h = record {
  channels = refl;
  mcp_servers = refl;
  config = refl;
  revision = refl;
}
apply-SameFiles s _ h = absurd h

apply_all-SameFiles :
    (s : Store) (ws : List Write) → All IsKeyWrite ws → SameFiles s (apply_all s ws)
unfolding apply_all
apply_all-SameFiles s [] h = record {
  channels = refl;
  mcp_servers = refl;
  config = refl;
  revision = refl;
}
apply_all-SameFiles s (w ∷ ws) (p, h) =
    let here = apply-SameFiles s w p in
    let later = apply_all-SameFiles (apply s w) ws h in
    record {
      channels = later.channels ∙ here.channels;
      mcp_servers = later.mcp_servers ∙ here.mcp_servers;
      config = later.config ∙ here.config;
      revision = later.revision ∙ here.revision;
    }

apply-revision : (s : Store) (w : Write) → IsQuiet w → (apply s w).revision ≡ s.revision
unfolding apply
apply-revision s (write_revision r) h = absurd h
apply-revision s (write_secret id key) h = refl
apply-revision s _ h = refl

apply_all-revision :
    (s : Store) (ws : List Write) → All IsQuiet ws → (apply_all s ws).revision ≡ s.revision
unfolding apply_all
apply_all-revision s [] h = refl
apply_all-revision s (w ∷ ws) (p, h) = apply_all-revision (apply s w) ws h ∙ apply-revision s w p

-- A proper part from the front of quiet writes and one more has quiet writes alone.
front-IsQuiet :
    (ws front back : List Write) (last w : Write)
    → All IsQuiet ws
    → ws ++ last ∷ [] ≡ front ++ w ∷ back
    → All IsQuiet front
front-IsQuiet ws [] back last w h e = tt
front-IsQuiet [] (v ∷ []) back last w h e = absurd (cc e)
front-IsQuiet [] (v ∷ u ∷ front) back last w h e = absurd (cc e)
front-IsQuiet (q ∷ ws) (v ∷ front) back last w (p, h) e =
    let same : q ≡ v = cc e in
    let rest : ws ++ last ∷ [] ≡ front ++ w ∷ back = cc e in
    (subst IsQuiet same p, front-IsQuiet ws front back last w h rest)

front-IsQuiet_of_All :
    (ws front back : List Write) → All IsQuiet ws → ws ≡ front ++ back → All IsQuiet front
front-IsQuiet_of_All ws [] back h e = tt
front-IsQuiet_of_All [] (v ∷ front) back h e = absurd (cc e)
front-IsQuiet_of_All (q ∷ ws) (v ∷ front) back (p, h) e =
    let same : q ≡ v = cc e in
    let rest : ws ≡ front ++ back = cc e in
    (subst IsQuiet same p, front-IsQuiet_of_All ws front back h rest)

module _ (api : UrlApi) (env : Env) where
  channel_key_writes-IsKeyWrite :
      (previous : List GatewayChannel) (drafts : List GatewayChannelDraft)
      → All IsKeyWrite (channel_key_writes api env previous drafts)
  unfolding channel_key_writes sync_system_managed_mcp_secrets
  channel_key_writes-IsKeyWrite previous drafts =
      All-append IsKeyWrite (key_writes drafts) _ (key_writes-IsKeyWrite drafts) (
        All-append IsKeyWrite (drop_keys (map (λ d. d.id) drafts) previous) _
          (drop_keys-IsKeyWrite (map (λ d. d.id) drafts) previous) (sync_all-IsKeyWrite _))

  quiet_writes :
      List GatewayChannel → List GatewayChannelDraft → String → String → String → List Write
  quiet_writes previous drafts generated timestamp revision =
      channel_key_writes api env previous drafts
      ++ (config_write generated
          ++ write_channels (stored_of api env previous drafts timestamp revision) ∷ [])

  quiet_writes-IsQuiet :
      (previous : List GatewayChannel) (drafts : List GatewayChannelDraft)
      (generated timestamp revision : String)
      → All IsQuiet (quiet_writes previous drafts generated timestamp revision)
  unfolding quiet_writes
  quiet_writes-IsQuiet previous drafts generated timestamp revision =
      All-append IsQuiet (channel_key_writes api env previous drafts) _
        (All-mono IsKeyWrite (channel_key_writes api env previous drafts) IsKeyWrite-IsQuiet
          (channel_key_writes-IsKeyWrite previous drafts))
        (All-append IsQuiet (config_write generated) _ (config_write-IsQuiet generated) (tt, tt))

  -- The revision is the last of the writes.
  channel_writes-last :
      (previous : List GatewayChannel) (drafts : List GatewayChannelDraft)
      (generated timestamp revision : String)
      → channel_writes api env previous drafts generated timestamp revision
        ≡ quiet_writes previous drafts generated timestamp revision
          ++ write_revision (revision <> "\n") ∷ []
  unfolding quiet_writes
  channel_writes-last previous drafts generated timestamp revision =
      ap (λ l. channel_key_writes api env previous drafts ++ l)
        (sym (append_assoc (config_write generated) _ _))
      ∙ sym (append_assoc (channel_key_writes api env previous drafts) _ _)

  module _ (s : Store) (drafts : List GatewayChannelDraft) (timestamp revision : String) where
    -- A save that throws leaves the lists, the configuration and the revision as they were: at most the
    -- keys have changed.
    pub save_gateway_channels-SameFiles :
        (message : String)
        → (save_gateway_channels api env s drafts timestamp revision).result ≡ thrown message
        → SameFiles s (left_by s (save_gateway_channels api env s drafts timestamp revision))
    save_gateway_channels-SameFiles message h =
        elim (save_outcome api env s drafts timestamp revision) [
          | inl (snapshot, returned, done) ↦ absurd (cc (returned, h))
          | inr (threw, same, inl nothing) ↦ rw nothing (apply_all-SameFiles s [] tt)
          | inr (threw, same, inr (previous, keys)) ↦ rw keys (
              apply_all-SameFiles s (channel_key_writes api env previous drafts)
                (channel_key_writes-IsKeyWrite previous drafts))
        ]

    -- A save that is cut short before its last write, returning or throwing, leaves the revision as it
    -- was: whoever waits for a new revision never sees half of a save.
    pub save_gateway_channels-revision :
        (front back : List Write) (next : Write)
        → (save_gateway_channels api env s drafts timestamp revision).writes ≡ front ++ next ∷ back
        → (apply_all s front).revision ≡ s.revision
    save_gateway_channels-revision front back next h =
        elim (save_outcome api env s drafts timestamp revision) [
          | inl (snapshot, returned, done) ↦ apply_all-revision s front (
              front-IsQuiet
                (quiet_writes done.previous.entries drafts done.generated timestamp revision) front
                back (write_revision (revision <> "\n")) next
                (quiet_writes-IsQuiet done.previous.entries drafts done.generated timestamp
                  revision)
                (sym (
                    channel_writes-last done.previous.entries drafts done.generated timestamp
                      revision)
                  ∙ sym done.written
                  ∙ h))
          | inr (message, threw, inl nothing) ↦
              apply_all-revision s front
                (front-IsQuiet_of_All [] front (next ∷ back) tt (sym nothing ∙ h))
          | inr (message, threw, inr (previous, keys)) ↦ apply_all-revision s front (
              front-IsQuiet_of_All (channel_key_writes api env previous drafts) front (next ∷ back)
                (All-mono IsKeyWrite (channel_key_writes api env previous drafts) IsKeyWrite-IsQuiet
                  (channel_key_writes-IsKeyWrite previous drafts))
                (sym keys ∙ h))
        ]
