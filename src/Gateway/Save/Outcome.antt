-- ===== src/Gateway/Save/Outcome.antt =====
-- The branches of `saveGatewayChannels`: each has its writes, in their order, and its result.
use mathlib.Core.List.{append-nil}
use ai_base.Common.{
  String, ◌≡◌, refl, ◌∙◌, ap, List, [], ◌∷◌, ◌++◌, map, ◌<>◌, ◌⊎◌, inl, inr, List-cases,
}
use ai_base.Common.Results.{ok, thrown, Result-cases}
use ai_base.Url.{UrlApi}
use ai_base.Text.{join}
use ai_base.Gateway.Types.{
  Snapshot, GatewayChannel, GatewayChannelDraft, GatewayMcpServer, StoredGatewayChannel,
}
use ai_base.Gateway.Store.{
  Store, Write, write_channels, write_revision, Run, pure, write, lift, raise, ◌>>=◌, ◌>>◌,
}
use ai_base.Gateway.Managed.{Env}
use ai_base.Gateway.Keys.{read_gateway_channels, config_write}
use ai_base.Gateway.Generate.{generate_gateway_config}
use ai_base.Gateway.Save.{
  stored_channel, saved_channel, key_errors, channel_key_writes, store_channels,
  read_gateway_mcp_servers_snapshot, save_gateway_channels,
}

module _ (api : UrlApi) (env : Env) where
  -- The list that is stored, and the snapshot that is returned.
  abbrev pub stored_of :
      List GatewayChannel
      → List GatewayChannelDraft
      → String
      → String
      → Snapshot StoredGatewayChannel
  stored_of previous drafts timestamp revision = record {
    entries = map (stored_channel previous timestamp) drafts;
    updated_at = timestamp;
    revision = revision;
  }

  abbrev pub saved_of :
      List GatewayChannel → List GatewayChannelDraft → String → String → Snapshot GatewayChannel
  saved_of previous drafts timestamp revision = record {
    entries = map (saved_channel previous timestamp) drafts;
    updated_at = timestamp;
    revision = revision;
  }

  -- All the writes of a save that generates this configuration.
  abbrev pub channel_writes :
      List GatewayChannel → List GatewayChannelDraft → String → String → String → List Write
  channel_writes previous drafts generated timestamp revision =
      channel_key_writes api env previous drafts
      ++ (config_write generated
          ++ (write_channels (stored_of previous drafts timestamp revision)
              ∷ write_revision (revision <> "\n")
              ∷ []))

  store_channels-ok :
      (previous : List GatewayChannel) (servers : List GatewayMcpServer)
      (drafts : List GatewayChannelDraft) (timestamp revision generated : String)
      → generate_gateway_config api (map (saved_channel previous timestamp) drafts) servers
        ≡ ok generated
      → store_channels api env previous servers drafts timestamp revision ≡ record {
        writes = channel_writes previous drafts generated timestamp revision;
        result = ok (saved_of previous drafts timestamp revision);
      }
  unfolding store_channels ◌>>=◌ ◌>>◌ write lift pure
  store_channels-ok previous servers drafts timestamp revision generated e = rw e (
      ap
        (λ ws. record {
          writes = channel_key_writes api env previous drafts ++ ws;
          result = ok (saved_of previous drafts timestamp revision);
        })
        (append-nil _))

  store_channels-thrown :
      (previous : List GatewayChannel) (servers : List GatewayMcpServer)
      (drafts : List GatewayChannelDraft) (timestamp revision message : String)
      → generate_gateway_config api (map (saved_channel previous timestamp) drafts) servers
        ≡ thrown message
      → store_channels api env previous servers drafts timestamp revision
        ≡ record { writes = channel_key_writes api env previous drafts; result = thrown message }
  unfolding store_channels ◌>>=◌ ◌>>◌ write lift pure
  store_channels-thrown previous servers drafts timestamp revision message e =
      rw e (ap (λ ws. record { writes = ws; result = thrown message }) (append-nil _))

  -- A save that returns: what it read, what it generated, and what it wrote and returned.
  pub record Completed (s : Store) (drafts : List GatewayChannelDraft) (timestamp revision : String)
      (snapshot : Snapshot GatewayChannel) : Type 0 where
    pub previous : Snapshot GatewayChannel
    pub servers : Snapshot GatewayMcpServer
    pub generated : String
    pub read : read_gateway_channels s ≡ ok previous
    pub keyed : key_errors previous.entries drafts ≡ []
    pub generates :
        generate_gateway_config api
          (map (saved_channel previous.entries timestamp) drafts)
          servers.entries
        ≡ ok generated
    pub returned : saved_of previous.entries drafts timestamp revision ≡ snapshot
    pub written :
        (save_gateway_channels api env s drafts timestamp revision).writes
        ≡ channel_writes previous.entries drafts generated timestamp revision

  -- A save that throws has written nothing, or the keys alone.
  abbrev pub Refused : Store → List GatewayChannelDraft → String → String → Type 0
  Refused s drafts timestamp revision =
      ((save_gateway_channels api env s drafts timestamp revision).writes ≡ [])
      ⊎ ((previous : List GatewayChannel) × ((save_gateway_channels api env s drafts timestamp
              revision).writes
            ≡ channel_key_writes api env previous drafts))

  module _ (s : Store) (drafts : List GatewayChannelDraft) (timestamp revision : String) where
    abbrev Stops : String → Run (Snapshot GatewayChannel) → Type 0
    Stops message m = m ≡ record { writes = []; result = thrown message }

    no_channels :
        (message : String)
        → read_gateway_channels s ≡ thrown message
        → Stops message (save_gateway_channels api env s drafts timestamp revision)
    unfolding save_gateway_channels ◌>>=◌ lift
    no_channels message e = rw e

    no_servers :
        (previous : Snapshot GatewayChannel) (message : String)
        → read_gateway_channels s ≡ ok previous
        → read_gateway_mcp_servers_snapshot api env s ≡ thrown message
        → Stops message (save_gateway_channels api env s drafts timestamp revision)
    unfolding save_gateway_channels ◌>>=◌ lift
    no_servers previous message e f = rw e (rw f)

    no_keys :
        (previous : Snapshot GatewayChannel) (servers : Snapshot GatewayMcpServer) (error : String)
        (errors : List String)
        → read_gateway_channels s ≡ ok previous
        → read_gateway_mcp_servers_snapshot api env s ≡ ok servers
        → key_errors previous.entries drafts ≡ error ∷ errors
        → Stops
            (join "；" (error ∷ errors))
            (save_gateway_channels api env s drafts timestamp revision)
    unfolding save_gateway_channels ◌>>=◌ lift raise
    no_keys previous servers error errors e f g = rw e (rw f (rw g))

    stores :
        (previous : Snapshot GatewayChannel) (servers : Snapshot GatewayMcpServer)
        → read_gateway_channels s ≡ ok previous
        → read_gateway_mcp_servers_snapshot api env s ≡ ok servers
        → key_errors previous.entries drafts ≡ []
        → save_gateway_channels api env s drafts timestamp revision
          ≡ store_channels api env previous.entries servers.entries drafts timestamp revision
    unfolding save_gateway_channels ◌>>=◌ lift
    stores previous servers e f g = rw e (rw f (rw g))

    -- Every save returns as described, or throws as described.
    pub save_outcome :
        ((snapshot : Snapshot GatewayChannel) × ((save_gateway_channels api env s drafts timestamp
              revision).result
            ≡ ok snapshot)
          × Completed s drafts timestamp revision snapshot)
        ⊎ ((message : String) × ((save_gateway_channels api env s drafts timestamp revision).result
              ≡ thrown message)
            × Refused s drafts timestamp revision)
    save_outcome = elim (Result-cases (read_gateway_channels s)) [
      | inr (message, e) ↦
          let stopped = no_channels message e in
          inr (message, ap (λ m. m.result) stopped, inl (ap (λ m. m.writes) stopped))
      | inl (previous, e) ↦ elim (Result-cases (read_gateway_mcp_servers_snapshot api env s)) [
        | inr (message, f) ↦
            let stopped = no_servers previous message e f in
            inr (message, ap (λ m. m.result) stopped, inl (ap (λ m. m.writes) stopped))
        | inl (servers, f) ↦ elim (List-cases (key_errors previous.entries drafts)) [
          | inr (error, errors, g) ↦
              let stopped = no_keys previous servers error errors e f g in
              inr (_, ap (λ m. m.result) stopped, inl (ap (λ m. m.writes) stopped))
          | inl g ↦
              elim (Result-cases (
                generate_gateway_config api (map (saved_channel previous.entries timestamp) drafts)
                  servers.entries)) [
                    | inr (message, h) ↦
                        let stopped =
                          stores previous servers e f g
                          ∙ store_channels-thrown previous.entries servers.entries drafts timestamp
                              revision message h in
                        inr (
                          message,
                          ap (λ m. m.result) stopped,
                          inr (previous.entries, ap (λ m. m.writes) stopped),
                        )
                    | inl (generated, h) ↦
                        let done =
                          stores previous servers e f g
                          ∙ store_channels-ok previous.entries servers.entries drafts timestamp
                              revision generated h in
                        inl (
                          saved_of previous.entries drafts timestamp revision,
                          ap (λ m. m.result) done,
                          record {
                            previous = previous;
                            servers = servers;
                            generated = generated;
                            read = e;
                            keyed = g;
                            generates = h;
                            returned = refl;
                            written = ap (λ m. m.writes) done;
                          },
                        )
                  ]
        ]
      ]
    ]
