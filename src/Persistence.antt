-- ===== src/Persistence.antt =====
-- The file store under the registry: src/persistence/.
pub mod JsonStore
