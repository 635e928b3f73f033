-- ===== src/Catalog.antt =====
-- The catalog that a user of a node sees, and the stores of what narrows it: src/catalog/.
pub mod Types
pub mod Resolution
