-- ===== src/Lib.antt =====
-- A model of the console of ai-base (ai-console) and its theorems.
--
-- The console keeps the configuration of an LLM and MCP gateway in files of a data directory. A request
-- to change the channels or the MCP servers is first validated (`validateGatewayChannelsInput`,
-- `validateGatewayMcpServersInput`) and then saved (`saveGatewayChannels`, `saveGatewayMcpServers`): the
-- save compares the drafts with what is stored, writes and unlinks key files, generates the gateway's
-- whole configuration text, and writes the list and at last a new revision, for which the gateway waits.
-- Two MCP servers belong to the system and are never stored: reads add them, and
-- `ensureSystemManagedMcpRegistration` regenerates the configuration where it lacks them.
--
-- Unless another path is named, the code is ai-console/src/lib/server/gateway-config.ts:
--   Common            Boolean tests and lists over the native numbers; Common.Results has the writer of
--                     error messages (`errors.push`) and the result of code that throws
--   Text              what the source uses of JavaScript's texts; Text.Quote has `yamlString`
--   Json, Url         JSON values, and the platform's URL class as a parameter
--   Gateway.Types     the records of ai-console/src/lib/control-plane/gateway.ts and mcp.ts
--   Gateway.Channels  `validateGatewayChannelsInput` and its readers
--   Gateway.Servers   `validateGatewayMcpServersInput` and its readers
--   Gateway.Store     the files (`getGatewayConfigPaths`), and a run of a function over them
--   Gateway.Managed   the environment, the system-managed servers and their secrets
--   Gateway.Generate  `generateGatewayConfig`, the text written out as in the source
--   Gateway.Keys      the reads of the channels and the key files of a save
--   Gateway.Save      the two saves
--   Gateway.Register  `ensureSystemManagedMcpRegistration` and `readGatewayMcpServers`
--   Gateway.Probe     the connection tests `testGatewayChannel` (Gateway.Probe.Models) and
--                     `testGatewayMcpServer` (Gateway.Probe.Tools, Gateway.Probe.Mcp)
--   Relay             ai-console/src/lib/server/wecom-relay.ts: Relay.Tickets has the tickets and the
--                     handoff, Relay.Identity the exchange of a ticket for an identity
--   Access            ai-console/src/lib/server/connector-access.ts: the checks of actions and of
--                     grants, the save of a shared connection (Access.Save), the deletes (Access.Removed)
--   Session           ai-console/src/lib/server/wecom-console-session.ts: Session.Token has the token,
--                     Session.Cookie the cookie
--   Console           ai-console/src/lib/server/console-identity.ts (Console.Claims, Console.Assertion,
--                     Console.Identity) and ai-console/src/proxy.ts (Console.Proxy)
--   Integrations      ai-console/src/lib/server/integrations.ts: Integrations.Secrets the sealed secrets,
--                     Integrations.Catalog the platforms and their actions, Integrations.Applications and
--                     Integrations.Accounts the operations on the rows of Integrations.Tables and
--                     Integrations.Bindings
--   Resolve           resolveEmployeeConnectorBindings of the same file: Resolve.Input the request,
--                     Resolve.Visibility the bots' lists, Resolve.Rows and Resolve.Select the connections
--   LightRag          ai-console/src/lib/server/lightrag-config.ts: LightRag the validation of a request,
--                     LightRag.Apply the published models, the probe of the dimension and the application
-- A file <Part>/<Name>.antt below such a part holds what is proved of it. Tests and examples are in
-- the modules that are named Tests, and below them.
--
-- The state is `Store`: each JSON file is missing, broken, or holds a parsed value; a directory of keys
-- is a list of pairs of an id and a text. A function that changes files reads first and writes
-- afterwards, so it is a `Run`: its writes in their order, and what it returns or throws. Where it throws,
-- the writes before are still made. The environment, the time stamp and the random revision are
-- arguments. Errors are the texts of the source.
--
-- `UrlApi` stands for the URL class and `isIP` of node:net; a port stays the decimal text that the class
-- gives. `Remote` stands for `fetch`, `JSON.parse` and the check of a header's value. The loop over the
-- pages of a tool list takes fuel, and 100, its bound in the source, is proved to be enough. The other fuel
-- is that of the decimal print of n, which gets n + 1 steps, more than n has digits. `Relay.Platform` stands
-- for base64url, the ciphers, `JSON` and `fetch`, and `Access.Outside` for dates, lower-casing, the connector
-- service and the tables that a save only reads. `Session.Platform` and
-- `Console.Outside` stand for hashes, signatures, base64url, `JSON`, the key file and the table of links; a
-- claim that is not an integer is compared by the least integer that is not below it. `Integrations.Outside`
-- and `Resolve.World` stand for the ciphers, the connector service, the orders of texts and the database's
-- clock, and `LightRag.Apply.Outside` for the answers of the LightRAG control plane and of the gateway; a
-- statement that would break a key of a table fails, and an unordered query reads in table order.
-- Lengths of texts count UTF-16 code units, as JavaScript does.
--
-- Not modelled: file permissions and failing file system calls that the source does not guard,
-- saves that run at the same time, the reads back of connector-access.ts, and the parts of the console
-- outside the paths named above.
pub mod Common
pub mod Text
pub mod Json
pub mod Url
pub mod Gateway
pub mod Relay
pub mod Access
pub mod Session
pub mod Console
pub mod Integrations
pub mod Resolve
pub mod LightRag
