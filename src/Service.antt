-- ===== src/Service.antt =====
-- The HTTP service helpers (python/lore_eden/service).
pub mod Pagination
