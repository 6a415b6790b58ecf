-- ===== src/Gateway/Tests/Saving.antt =====
-- Saving and registering over small stores, and the theorems about them at those stores.
use ai_base.Common.{List, String, ◌≡◌, refl, ap, [], ◌∷◌, false, none, some, ◌⊎◌, any, keep}
use ai_base.Common.Results.{Result, ok, thrown}
use ai_base.Common.Throwing.{each}
use ai_base.Text.{is_space, trim_start, trim, is_empty, starts_with, contains, strip_slash}
use ai_base.Gateway.Types.{Snapshot, GatewayChannel, GatewayMcpServer}
use ai_base.Gateway.Store.{
  secret, missing, Store, apply_all, Run, pure, raise, write, lift, ◌>>=◌, ◌>>◌, left_by,
  write_secret, write_mcp_secret, unlink_mcp_secret,
}
use ai_base.Gateway.Managed.{
  Env, open_connector_runtime_token, light_rag_api_key, rag_mcp_url, open_connector_mcp_url,
  open_connector_server, rag_server, sync_all, sync_system_managed_mcp_secrets,
  get_system_managed_mcp_servers,
}
use ai_base.Gateway.Generate.{
  enabled_channels, enabled_servers, config_text, generate_gateway_config,
}
use ai_base.Gateway.Generate.Models.{endpoint_parts, channel_backend}
use ai_base.Gateway.Generate.Mcp.{mcp_backend_name, with_url, mcp_backend_ref, mcp_backend}
use ai_base.Gateway.Generate.Names.{IsComplete, generate_gateway_config-IsComplete}
use ai_base.Gateway.Keys.{
  read_file, with_keys, channels_in, read_gateway_channels, last_channel, had_key, key_after,
  key_write, key_writes, drop_keys,
}
use ai_base.Gateway.Keys.Previous.{IsTidy}
use ai_base.Gateway.Save.{
  stored_channel, key_flag, saved_channel, key_errors, read_gateway_mcp_servers_snapshot,
  channel_key_writes, store_channels, save_gateway_channels,
}
use ai_base.Gateway.Save.Outcome.{saved_of}
use ai_base.Gateway.Save.Readback.{
  read_gateway_channels-save_gateway_channels, save_gateway_channels-IsTidy,
}
use ai_base.Gateway.Save.Atomic.{
  SameFiles, save_gateway_channels-SameFiles, save_gateway_channels-revision,
}
use ai_base.Gateway.Register.{
  needs_registration, register_managed, ensure_system_managed_mcp_registration,
  misses_managed_backend, read_gateway_mcp_servers,
}
use ai_base.Gateway.Register.Stable.{read_gateway_mcp_servers-settled}
use ai_base.Gateway.Tests.{test_api, main_draft}

abbrev pub no_env : Env
no_env = record {
  open_connector_url = none;
  open_connector_runtime_token = some " token ";
  rag_mcp_url = none;
  lightrag_api_key = none;
}

abbrev pub fresh : Store
fresh = record {
  channels = missing;
  mcp_servers = missing;
  config = none;
  revision = none;
  secrets = [];
  mcp_secrets = [];
}

fresh-IsTidy : IsTidy fresh
unfolding secret
fresh-IsTidy = record { no_orphan = λ id h. refl }

abbrev saved : Snapshot GatewayChannel
saved = saved_of test_api no_env [] (main_draft ∷ []) "2026-01-01T00:00:00.000Z" "r1"

saves :
    (save_gateway_channels test_api no_env fresh
      (main_draft ∷ [])
      "2026-01-01T00:00:00.000Z"
      "r1").result
    ≡ ok saved
unfolding save_gateway_channels store_channels read_gateway_channels channels_in read_file with_keys
    read_gateway_mcp_servers_snapshot key_errors key_flag last_channel had_key key_after
    generate_gateway_config config_text enabled_channels enabled_servers each channel_backend
    endpoint_parts mcp_backend_ref mcp_backend with_url open_connector_server rag_server
    open_connector_mcp_url rag_mcp_url strip_slash starts_with is_empty trim trim_start is_space
    keep saved_channel stored_channel pure write lift raise ◌>>=◌ ◌>>◌
saves = refl

read_gateway_channels-save_gateway_channels_example :
    read_gateway_channels (
      left_by fresh (
        save_gateway_channels test_api no_env fresh
          (main_draft ∷ [])
          "2026-01-01T00:00:00.000Z"
          "r1"))
    ≡ ok saved
read_gateway_channels-save_gateway_channels_example =
    read_gateway_channels-save_gateway_channels test_api no_env fresh (main_draft ∷ [])
      "2026-01-01T00:00:00.000Z" "r1" saved fresh-IsTidy (tt, tt) saves

save_gateway_channels-IsTidy_example : IsTidy (
    left_by fresh (
      save_gateway_channels test_api no_env fresh
        (main_draft ∷ [])
        "2026-01-01T00:00:00.000Z"
        "r1"))
save_gateway_channels-IsTidy_example =
    save_gateway_channels-IsTidy test_api no_env fresh (main_draft ∷ []) "2026-01-01T00:00:00.000Z"
      "r1" saved fresh-IsTidy (tt, tt) saves

-- An address of the knowledge base that is no URL.
abbrev bad_env : Env
bad_env = record no_env { rag_mcp_url = some "rag" }

abbrev half_save : Run (Snapshot GatewayChannel)
half_save = record {
  writes =
      write_secret "main" "sk-1"
      ∷ write_mcp_secret "mcp-open-connector" "token"
      ∷ unlink_mcp_secret "mcp-rag"
      ∷ [];
  result = thrown "Invalid URL";
}

-- The key of the new channel is written, and the save throws.
saves_half :
    save_gateway_channels test_api bad_env fresh (main_draft ∷ []) "2026-01-01T00:00:00.000Z" "r1"
    ≡ half_save
unfolding save_gateway_channels store_channels read_gateway_channels channels_in read_file with_keys
    read_gateway_mcp_servers_snapshot key_errors key_flag last_channel had_key key_after
    generate_gateway_config config_text enabled_channels enabled_servers each channel_backend
    endpoint_parts mcp_backend_ref mcp_backend with_url open_connector_server rag_server
    open_connector_mcp_url rag_mcp_url strip_slash starts_with is_empty trim trim_start is_space
    keep saved_channel stored_channel pure write lift raise ◌>>=◌ ◌>>◌ channel_key_writes key_writes
    key_write drop_keys sync_all sync_system_managed_mcp_secrets open_connector_runtime_token
    light_rag_api_key
saves_half = refl

save_gateway_channels-SameFiles_example : SameFiles fresh (
    left_by fresh (
      save_gateway_channels test_api bad_env fresh
        (main_draft ∷ [])
        "2026-01-01T00:00:00.000Z"
        "r1"))
save_gateway_channels-SameFiles_example =
    save_gateway_channels-SameFiles test_api bad_env fresh (main_draft ∷ [])
      "2026-01-01T00:00:00.000Z" "r1" "Invalid URL"
      (ap (λ (m : Run (Snapshot GatewayChannel)). m.result) saves_half)

save_gateway_channels-revision_example :
    (apply_all fresh
      (write_secret "main" "sk-1" ∷ write_mcp_secret "mcp-open-connector" "token" ∷ [])).revision
    ≡ none
save_gateway_channels-revision_example =
    save_gateway_channels-revision test_api bad_env fresh (main_draft ∷ [])
      "2026-01-01T00:00:00.000Z" "r1"
      (write_secret "main" "sk-1" ∷ write_mcp_secret "mcp-open-connector" "token" ∷ []) []
      (unlink_mcp_secret "mcp-rag")
      (ap (λ (m : Run (Snapshot GatewayChannel)). m.writes) saves_half)

abbrev managed_snapshot : Snapshot GatewayMcpServer
managed_snapshot = record {
  entries = get_system_managed_mcp_servers test_api no_env;
  updated_at = "1970-01-01T00:00:00.000Z";
  revision = "bootstrap";
}

reads_fresh : (read_gateway_mcp_servers test_api no_env fresh "r1").result ≡ ok managed_snapshot
unfolding read_gateway_mcp_servers ensure_system_managed_mcp_registration register_managed
    needs_registration misses_managed_backend any contains starts_with mcp_backend_name
    read_gateway_channels channels_in read_file with_keys read_gateway_mcp_servers_snapshot
    generate_gateway_config config_text enabled_channels enabled_servers each mcp_backend_ref
    mcp_backend with_url open_connector_server rag_server open_connector_mcp_url rag_mcp_url
    strip_slash is_empty trim trim_start is_space keep pure write lift ◌>>=◌ ◌>>◌
reads_fresh = refl

read_gateway_mcp_servers-settled_example :
    (needs_registration test_api no_env
        (left_by fresh (read_gateway_mcp_servers test_api no_env fresh "r1"))
      ≡ false)
    × ((read_gateway_mcp_servers test_api no_env
          (left_by fresh (read_gateway_mcp_servers test_api no_env fresh "r1"))
          "r2").writes
        ≡ [])
read_gateway_mcp_servers-settled_example =
    read_gateway_mcp_servers-settled test_api no_env fresh "r1" "r2" managed_snapshot reads_fresh

abbrev text_of : Result String → String
text_of (ok text) = text
text_of (thrown message) = ""

abbrev managed_servers : List GatewayMcpServer
managed_servers = get_system_managed_mcp_servers test_api no_env

-- The configuration of the two system-managed servers.
generates_managed :
    generate_gateway_config test_api [] managed_servers
    ≡ ok (text_of (generate_gateway_config test_api [] managed_servers))
unfolding generate_gateway_config config_text enabled_channels enabled_servers each channel_backend
    endpoint_parts mcp_backend_ref mcp_backend with_url open_connector_server rag_server
    open_connector_mcp_url rag_mcp_url strip_slash starts_with is_empty trim trim_start is_space
    keep
generates_managed = refl

generate_gateway_config-IsComplete_example :
    ((text_of (generate_gateway_config test_api [] managed_servers) ≡ "")
      × (enabled_channels [] ≡ [])
      × (enabled_servers managed_servers ≡ []))
    ⊎ IsComplete
        (text_of (generate_gateway_config test_api [] managed_servers))
        (enabled_servers managed_servers)
generate_gateway_config-IsComplete_example =
    generate_gateway_config-IsComplete test_api [] managed_servers
      (text_of (generate_gateway_config test_api [] managed_servers)) generates_managed
