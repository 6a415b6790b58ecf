-- ===== src/Gateway/Register.antt =====
-- `ensureSystemManagedMcpRegistration` and `readGatewayMcpServers` of gateway-config.ts.
pub mod Sync
pub mod Stable
use ai_base.Common.{
  String, List, [], ◌∷◌, ◌++◌, Bool, not, ◌&&◌, ◌||◌, none, some, ◌<>◌, if◌then◌else◌, any,
}
use ai_base.Text.{is_empty, contains}
use ai_base.Url.{UrlApi}
use ai_base.Gateway.Types.{Snapshot, GatewayMcpServer}
use ai_base.Gateway.Store.{Store, write_revision, Run, pure, write, lift, ◌>>=◌, ◌>>◌}
use ai_base.Gateway.Managed.{
  Env, get_system_managed_mcp_servers, sync_system_managed_mcp_secrets,
  system_managed_mcp_secrets_need_sync,
}
use ai_base.Gateway.Generate.{gateway_config_version_marker, generate_gateway_config}
use ai_base.Gateway.Generate.Mcp.{mcp_backend_name}
use ai_base.Gateway.Keys.{read_gateway_channels, config_write}
use ai_base.Gateway.Save.{read_gateway_mcp_servers_snapshot}

module _ (api : UrlApi) (env : Env) where
  -- `missingManagedBackend`
  unfoldable pub misses_managed_backend : String → Bool
  misses_managed_backend config =
      any
        (λ (server : GatewayMcpServer).
          server.stored.enabled
          && not (contains config ("name: " <> mcp_backend_name server.stored.namespace <> "\n")))
        (get_system_managed_mcp_servers api env)

  -- The guard of `ensureSystemManagedMcpRegistration`, on the text of the configuration.
  unfoldable pub needs_registration : Store → Bool
  needs_registration s =
      let config : String = elim s.config [ none ↦ "" | some text ↦ text ] in
      misses_managed_backend config
      || (not (is_empty config) && not (contains config gateway_config_version_marker))
      || system_managed_mcp_secrets_need_sync env s.mcp_secrets

  unfoldable pub register_managed : Store → List GatewayMcpServer → String → Run (Unit {0})
  register_managed s servers revision = do
    channels ← lift (read_gateway_channels s)
    write (sync_system_managed_mcp_secrets env)
    generated ← lift (generate_gateway_config api channels.entries servers)
    write (config_write generated ++ (write_revision (revision <> "\n") ∷ []))

  unfoldable pub ensure_system_managed_mcp_registration :
      Store → List GatewayMcpServer → String → Run (Unit {0})
  ensure_system_managed_mcp_registration s servers revision =
      if needs_registration s then register_managed s servers revision else pure tt

  unfoldable pub read_gateway_mcp_servers : Store → String → Run (Snapshot GatewayMcpServer)
  read_gateway_mcp_servers s revision = do
    snapshot ← lift (read_gateway_mcp_servers_snapshot api env s)
    ensure_system_managed_mcp_registration s snapshot.entries revision
    pure snapshot
