-- ===== src/Workflow.antt =====
-- The workflow engine (python/lore_eden/workflow): stages, where the cursor goes next, and moving
-- an item through its stages.
pub mod Models
pub mod Templates
pub mod Terminal
pub mod Order
pub mod Transitions
pub mod Routing
pub mod Dispatch
mod Examples
pub mod Approvals
pub mod GateService
pub mod Gates
