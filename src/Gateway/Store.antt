-- ===== src/Gateway/Store.antt =====
-- The files below the console's data directory (`getGatewayConfigPaths`), and a run of a function of
-- gateway-config.ts over them. A file of JSON is held as the value that `JSON.parse` gives back, or as
-- `broken` where it throws; the directory of secrets is a map from the `<id>` of `<id>.key` to its text.
-- Every such function reads first and writes afterwards, so a run gives the writes in their order, and
-- what it returns or throws.
pub mod Changes
use ai_base.Common.{String, List, [], ◌∷◌, ◌++◌, Option, none, some, ◌===◌, if◌then◌else◌}
use ai_base.Common.Results.{Result, ok, thrown}
use ai_base.Gateway.Types.{Snapshot, StoredGatewayChannel, StoredGatewayMcpServer}

abbrev pub Secrets : Type 0
Secrets = List (String × String)

unfoldable pub secret : Secrets → String → Option String
secret [] id = none
secret ((k, v) ∷ rest) id = if k === id then some v else secret rest id

unfoldable pub remove_secret : Secrets → String → Secrets
remove_secret [] id = []
remove_secret ((k, v) ∷ rest) id =
    let others = remove_secret rest id in if k === id then others else (k, v) ∷ others

abbrev pub put_secret : Secrets → String → String → Secrets
put_secret secrets id key = (id, key) ∷ remove_secret secrets id

-- A JSON file that is read.
pub data FileOf (A : Type 0) : Type 0 where
  missing : FileOf A
  broken : FileOf A
  holding : A → FileOf A

pub record Store : Type 0 where
  pub channels : FileOf (Snapshot StoredGatewayChannel)
  pub mcp_servers : FileOf (Snapshot StoredGatewayMcpServer)
  pub config : Option String
  pub revision : Option String
  pub secrets : Secrets
  pub mcp_secrets : Secrets

-- `atomicWrite` and `unlink(…).catch(() => undefined)` on one of the files.
pub data Write : Type 0 where
  write_secret : String → String → Write
  unlink_secret : String → Write
  write_mcp_secret : String → String → Write
  unlink_mcp_secret : String → Write
  write_config : String → Write
  unlink_config : Write
  write_channels : Snapshot StoredGatewayChannel → Write
  write_mcp_servers : Snapshot StoredGatewayMcpServer → Write
  write_revision : String → Write

unfoldable pub apply : Store → Write → Store
apply s (write_secret id key) = record s { secrets = put_secret s.secrets id key }
apply s (unlink_secret id) = record s { secrets = remove_secret s.secrets id }
apply s (write_mcp_secret id key) = record s { mcp_secrets = put_secret s.mcp_secrets id key }
apply s (unlink_mcp_secret id) = record s { mcp_secrets = remove_secret s.mcp_secrets id }
apply s (write_config text) = record s { config = some text }
apply s unlink_config = record s { config = none }
apply s (write_channels snapshot) = record s { channels = holding snapshot }
apply s (write_mcp_servers snapshot) = record s { mcp_servers = holding snapshot }
apply s (write_revision revision) = record s { revision = some revision }

unfoldable pub apply_all : Store → List Write → Store
apply_all s [] = s
apply_all s (w ∷ ws) = apply_all (apply s w) ws

-- The writes of a call, and its result. What was written before a `throw` stays written.
pub record Run (A : Type 0) : Type 0 where
  pub writes : List Write
  pub result : Result A

unfoldable pub pure : {A : Type 0} → A → Run A
pure a = record { writes = []; result = ok a }

unfoldable pub raise : {A : Type 0} → String → Run A
raise message = record { writes = []; result = thrown message }

unfoldable pub write : List Write → Run (Unit {0})
write ws = record { writes = ws; result = ok tt }

unfoldable pub lift : {A : Type 0} → Result A → Run A
lift r = record { writes = []; result = r }

after : {A B : Type 0} → List Write → Result A → (A → Run B) → Run B
after ws (ok a) f = let next = f a in record { writes = ws ++ next.writes; result = next.result }
after ws (thrown message) f = record { writes = ws; result = thrown message }

infixl 5 ◌>>=◌ ◌>>◌
unfoldable pub ◌>>=◌ : {A B : Type 0} → Run A → (A → Run B) → Run B
unfolding after
m >>= f = after m.writes m.result f

unfoldable pub ◌>>◌ : {B : Type 0} → Run (Unit {0}) → Run B → Run B
unfolding ◌>>=◌
m >> k = m >>= λ _. k

-- The store that a call leaves behind.
abbrev pub left_by : {A : Type 0} → Store → Run A → Store
left_by s m = apply_all s m.writes
