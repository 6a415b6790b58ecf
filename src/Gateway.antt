-- ===== src/Gateway.antt =====
-- ai-console/src/lib/server/gateway-config.ts: the model channels and the MCP servers of the LLM
-- gateway, their validation, the files that hold them, the generated gateway configuration.
pub mod Types
mod Tests
pub mod Channels
pub mod Servers
pub mod Store
pub mod Managed
pub mod Generate
pub mod Keys
pub mod Save
pub mod Register
pub mod Probe
