-- ===== src/Store.antt =====
-- The harness's stores (python/lore_eden/store).
pub mod Cursors
