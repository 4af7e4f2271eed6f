-- ===== src/Agents.antt =====
-- Running CLI coding agents (python/lore_eden/agents).
pub mod Invocation
pub mod Outcome
pub mod Protocol
pub mod Policy
pub mod Process
pub mod Bridge
mod Examples
