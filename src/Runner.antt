-- ===== src/Runner.antt =====
-- Running a stage (python/lore_eden/runner): which agent, what it said, and what the gates say.
pub mod Registry
pub mod Report
pub mod Setup
pub mod Stage
mod Examples
