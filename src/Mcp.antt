-- ===== src/Mcp.antt =====
-- python/lore_eden/mcp: serving tools over JSON-RPC, and the record of other servers.
pub mod Tools
pub mod Protocol
pub mod Batch
pub mod Catalogue
pub mod Responses
pub mod Servers
mod Examples
