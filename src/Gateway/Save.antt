-- ===== src/Gateway/Save.antt =====
-- `saveGatewayChannels` and `saveGatewayMcpServers` of gateway-config.ts.
pub mod Channels
pub mod Outcome
pub mod Readback
pub mod Atomic
use ai_base.Common.{
  String, List, [], ◌∷◌, ◌++◌, map, Bool, false, not, ◌&&◌, ◌<>◌, if◌then◌else◌, keep,
}
use ai_base.Common.Results.{Result, ok, thrown}
use ai_base.Text.{join}
use ai_base.Url.{UrlApi}
use ai_base.Gateway.Types.{
  Snapshot, StoredGatewayChannel, GatewayChannel, GatewayChannelDraft, StoredGatewayMcpServer,
  GatewayMcpServer, GatewayMcpServerDraft,
}
use ai_base.Gateway.Store.{
  Store, Write, write_channels, write_mcp_servers, write_revision, Run, pure, raise, write, lift,
  ◌>>=◌, ◌>>◌,
}
use ai_base.Gateway.Managed.{Env, get_system_managed_mcp_servers, sync_system_managed_mcp_secrets}
use ai_base.Gateway.Generate.{generate_gateway_config}
use ai_base.Gateway.Keys.{
  read_file, read_gateway_channels, is_own, with_mcp_key, last_channel, last_server, had_key,
  created, had_mcp_key, mcp_created, key_after, key_writes, mcp_key_writes, drop_keys,
  drop_mcp_keys, config_write,
}

unfoldable pub stored_channel :
    List GatewayChannel → String → GatewayChannelDraft → StoredGatewayChannel
stored_channel previous timestamp d = record {
  id = d.id;
  name = d.name;
  provider = d.provider;
  base_url = d.base_url;
  enabled = d.enabled;
  models = d.models;
  created_at = created (last_channel previous d.id) timestamp;
  updated_at = timestamp;
}

-- The entry of `keyConfigured` for a draft.
unfoldable pub key_flag : List GatewayChannel → GatewayChannelDraft → Bool
key_flag previous d = key_after d.remove_api_key d.api_key (had_key (last_channel previous d.id))

unfoldable pub saved_channel : List GatewayChannel → String → GatewayChannelDraft → GatewayChannel
saved_channel previous timestamp d = record {
  stored = stored_channel previous timestamp d;
  key_configured = key_flag previous d;
}

-- The messages for drafts that are enabled and have no key.
unfoldable pub key_errors : List GatewayChannel → List GatewayChannelDraft → List String
key_errors previous [] = []
key_errors previous (d ∷ ds) =
    (if d.enabled && not (key_flag previous d) then (d.name <> " 启用前必须配置 API Key") ∷ [] else [])
    ++ key_errors previous ds

unfoldable pub stored_server :
    List GatewayMcpServer → String → GatewayMcpServerDraft → StoredGatewayMcpServer
stored_server previous timestamp d = record {
  id = d.id;
  name = d.name;
  namespace = d.namespace;
  url = d.url;
  enabled = d.enabled;
  auth_header = d.auth_header;
  tool_includes = d.tool_includes;
  tool_excludes = d.tool_excludes;
  created_at = mcp_created (last_server previous d.id) timestamp;
  updated_at = timestamp;
}

unfoldable pub mcp_key_flag : List GatewayMcpServer → GatewayMcpServerDraft → Bool
mcp_key_flag previous d =
    key_after d.remove_api_key d.api_key (had_mcp_key (last_server previous d.id))

unfoldable pub saved_server :
    List GatewayMcpServer → String → GatewayMcpServerDraft → GatewayMcpServer
saved_server previous timestamp d = record {
  stored = stored_server previous timestamp d;
  managed = false;
  key_configured = mcp_key_flag previous d;
}

module _ (api : UrlApi) (env : Env) where
  unfoldable pub read_gateway_mcp_servers_snapshot : Store → Result (Snapshot GatewayMcpServer)
  read_gateway_mcp_servers_snapshot s = elim (read_file s.mcp_servers) [
    | thrown message ↦ thrown message
    | ok stored ↦ ok (record {
      entries =
          get_system_managed_mcp_servers api env
          ++ map (with_mcp_key s.mcp_secrets) (keep is_own stored.entries);
      updated_at = stored.updated_at;
      revision = stored.revision;
    })
  ]

  -- The writes of `saveGatewayChannels` before it generates the configuration.
  unfoldable pub channel_key_writes : List GatewayChannel → List GatewayChannelDraft → List Write
  channel_key_writes previous drafts =
      key_writes drafts
      ++ (drop_keys (map (λ d. d.id) drafts) previous ++ sync_system_managed_mcp_secrets env)

  -- `saveGatewayChannels` from its writes on.
  unfoldable pub store_channels :
      List GatewayChannel
      → List GatewayMcpServer
      → List GatewayChannelDraft
      → String
      → String
      → Run (Snapshot GatewayChannel)
  store_channels previous servers drafts timestamp revision =
      let channels = map (saved_channel previous timestamp) drafts in
      let stored : Snapshot StoredGatewayChannel = record {
        entries = map (stored_channel previous timestamp) drafts;
        updated_at = timestamp;
        revision = revision;
      } in
      let saved : Snapshot GatewayChannel = record {
        entries = channels;
        updated_at = timestamp;
        revision = revision;
      } in
      do
        write (channel_key_writes previous drafts)
        generated ← lift (generate_gateway_config api channels servers)
        write (
            config_write generated
            ++ (write_channels stored ∷ write_revision (revision <> "\n") ∷ []))
        pure saved

  -- `now.toISOString()` and `randomUUID()` are arguments.
  unfoldable pub save_gateway_channels :
      Store → List GatewayChannelDraft → String → String → Run (Snapshot GatewayChannel)
  save_gateway_channels s drafts timestamp revision = do
    previous ← lift (read_gateway_channels s)
    servers ← lift (read_gateway_mcp_servers_snapshot s)
    elim (key_errors previous.entries drafts) [
      | [] ↦ store_channels previous.entries servers.entries drafts timestamp revision
      | e ∷ es ↦ raise (join "；" (e ∷ es))
    ]

  unfoldable pub server_key_writes : List GatewayMcpServer → List GatewayMcpServerDraft → List Write
  server_key_writes previous drafts =
      mcp_key_writes drafts
      ++ (drop_mcp_keys (map (λ d. d.id) drafts) previous ++ sync_system_managed_mcp_secrets env)

  -- `saveGatewayMcpServers` from its writes on; `previous` are the user's servers.
  unfoldable pub store_servers :
      List GatewayMcpServer
      → List GatewayChannel
      → List GatewayMcpServerDraft
      → String
      → String
      → Run (Snapshot GatewayMcpServer)
  store_servers previous channels drafts timestamp revision =
      let all_servers =
        get_system_managed_mcp_servers api env ++ map (saved_server previous timestamp) drafts in
      let stored : Snapshot StoredGatewayMcpServer = record {
        entries = map (stored_server previous timestamp) drafts;
        updated_at = timestamp;
        revision = revision;
      } in
      let saved : Snapshot GatewayMcpServer = record {
        entries = all_servers;
        updated_at = timestamp;
        revision = revision;
      } in
      do
        write (server_key_writes previous drafts)
        generated ← lift (generate_gateway_config api channels all_servers)
        write (
            config_write generated
            ++ (write_mcp_servers stored ∷ write_revision (revision <> "\n") ∷ []))
        pure saved

  -- `previous.servers.filter((server) => !server.managed)`
  abbrev pub user_servers : List GatewayMcpServer → List GatewayMcpServer
  user_servers = keep (λ s. not s.managed)

  unfoldable pub save_gateway_mcp_servers :
      Store → List GatewayMcpServerDraft → String → String → Run (Snapshot GatewayMcpServer)
  save_gateway_mcp_servers s drafts timestamp revision = do
    previous ← lift (read_gateway_mcp_servers_snapshot s)
    channels ← lift (read_gateway_channels s)
    store_servers (user_servers previous.entries) channels.entries drafts timestamp revision
