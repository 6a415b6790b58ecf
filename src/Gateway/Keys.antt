-- ===== src/Gateway/Keys.antt =====
-- Reading the stored lists, and the rules for the keys: which drafts have one, and the files to write and
-- unlink for it (gateway-config.ts).
pub mod Plan
pub mod Previous
use ai_base.Common.{
  String, List, [], ◌∷◌, ◌++◌, map, Bool, false, not, ◌&&◌, ◌||◌, Option, none, some, ◌===◌,
  if◌then◌else◌, includes,
}
use ai_base.Common.Results.{Result, ok, thrown}
use ai_base.Text.{is_empty, or_else}
use ai_base.Gateway.Types.{
  Snapshot, StoredGatewayChannel, GatewayChannel, GatewayChannelDraft, StoredGatewayMcpServer,
  GatewayMcpServer, GatewayMcpServerDraft,
}
use ai_base.Gateway.Servers.{is_system_managed_mcp_server_id}
use ai_base.Gateway.Store.{
  Secrets, secret, FileOf, missing, broken, holding, Store, Write, write_secret, unlink_secret,
  write_mcp_secret, unlink_mcp_secret, write_config, unlink_config,
}
use ai_base.Gateway.Managed.{is_some, epoch}

abbrev bootstrap : {A : Type 0} → Snapshot A
bootstrap = record { entries = []; updated_at = epoch; revision = "bootstrap" }

-- `JSON.parse(await readFile(…))`, and the snapshot for a file that is not there.
unfoldable pub read_file : {A : Type 0} → FileOf (Snapshot A) → Result (Snapshot A)
read_file missing = ok bootstrap
read_file broken = thrown "Unexpected token in JSON"
read_file (holding snapshot) = ok snapshot

unfoldable pub with_key : Secrets → StoredGatewayChannel → GatewayChannel
with_key secrets c = record { stored = c; key_configured = is_some (secret secrets c.id) }

unfoldable pub with_keys : Secrets → Snapshot StoredGatewayChannel → Snapshot GatewayChannel
with_keys secrets stored = record {
  entries = map (with_key secrets) stored.entries;
  updated_at = stored.updated_at;
  revision = stored.revision;
}

unfoldable pub channels_in :
    FileOf (Snapshot StoredGatewayChannel) → Secrets → Result (Snapshot GatewayChannel)
channels_in file secrets = elim (read_file file) [
  | thrown message ↦ thrown message
  | ok stored ↦ ok (with_keys secrets stored)
]

unfoldable pub read_gateway_channels : Store → Result (Snapshot GatewayChannel)
read_gateway_channels s = channels_in s.channels s.secrets

unfoldable pub is_own : StoredGatewayMcpServer → Bool
is_own server = not (is_system_managed_mcp_server_id server.id)

unfoldable pub with_mcp_key : Secrets → StoredGatewayMcpServer → GatewayMcpServer
with_mcp_key secrets server = record {
  stored = server;
  managed = false;
  key_configured = is_some (secret secrets server.id);
}

-- `api_key` counts if it is given and not empty.
abbrev pub given_key : Option String → Option String
given_key none = none
given_key (some key) = if is_empty key then none else some key

-- `previousById.get(id)`: the last entry with the id.
unfoldable pub last_channel : List GatewayChannel → String → Option GatewayChannel
last_channel [] id = none
last_channel (c ∷ cs) id = elim (last_channel cs id) [
  | some found ↦ some found
  | none ↦ if c.stored.id === id then some c else none
]

unfoldable pub last_server : List GatewayMcpServer → String → Option GatewayMcpServer
last_server [] id = none
last_server (c ∷ cs) id = elim (last_server cs id) [
  | some found ↦ some found
  | none ↦ if c.stored.id === id then some c else none
]

-- `previousById.get(id)?.keyConfigured === true` and `previousById.get(id)?.createdAt || timestamp`
unfoldable pub had_key : Option GatewayChannel → Bool
had_key none = false
had_key (some c) = c.key_configured

unfoldable pub created : Option GatewayChannel → String → String
created none timestamp = timestamp
created (some c) timestamp = or_else c.stored.created_at timestamp

unfoldable pub had_mcp_key : Option GatewayMcpServer → Bool
had_mcp_key none = false
had_mcp_key (some s) = s.key_configured

unfoldable pub mcp_created : Option GatewayMcpServer → String → String
mcp_created none timestamp = timestamp
mcp_created (some s) timestamp = or_else s.stored.created_at timestamp

-- `!removeApiKey && (Boolean(apiKey) || hasExisting)`
unfoldable pub key_after : Bool → Option String → Bool → Bool
key_after remove api_key has_existing = not remove && (is_some (given_key api_key) || has_existing)

-- The loops over the drafts that write and unlink keys.
unfoldable pub key_write : GatewayChannelDraft → List Write
key_write d =
    if d.remove_api_key
    then unlink_secret d.id ∷ []
    else elim (given_key d.api_key) [ none ↦ [] | some key ↦ write_secret d.id key ∷ [] ]

unfoldable pub key_writes : List GatewayChannelDraft → List Write
key_writes [] = []
key_writes (d ∷ ds) = key_write d ++ key_writes ds

unfoldable pub mcp_key_write : GatewayMcpServerDraft → List Write
mcp_key_write d =
    if d.remove_api_key
    then unlink_mcp_secret d.id ∷ []
    else elim (given_key d.api_key) [ none ↦ [] | some key ↦ write_mcp_secret d.id key ∷ [] ]

unfoldable pub mcp_key_writes : List GatewayMcpServerDraft → List Write
mcp_key_writes [] = []
mcp_key_writes (d ∷ ds) = mcp_key_write d ++ mcp_key_writes ds

-- The loops that unlink the keys of entries that are gone.
unfoldable pub drop_keys : List String → List GatewayChannel → List Write
drop_keys retained [] = []
drop_keys retained (c ∷ cs) =
    (if includes retained c.stored.id then [] else unlink_secret c.stored.id ∷ [])
    ++ drop_keys retained cs

unfoldable pub drop_mcp_keys : List String → List GatewayMcpServer → List Write
drop_mcp_keys retained [] = []
drop_mcp_keys retained (c ∷ cs) =
    (if includes retained c.stored.id then [] else unlink_mcp_secret c.stored.id ∷ [])
    ++ drop_mcp_keys retained cs

-- `if (generated) await atomicWrite(…) else await unlink(…)`
unfoldable pub config_write : String → List Write
config_write generated =
    if is_empty generated then unlink_config ∷ [] else write_config generated ∷ []
