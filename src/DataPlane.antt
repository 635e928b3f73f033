-- ===== src/DataPlane.antt =====
-- Runtime units: src/data-plane/.
pub mod Types
pub mod Units
pub mod Service
