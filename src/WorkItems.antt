-- ===== src/WorkItems.antt =====
-- python/lore_eden/work_items.py: the work-item engine.
pub mod Dependencies
pub mod Hierarchy
