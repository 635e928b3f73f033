-- ===== src/SystemsApi.antt =====
-- The tool registry of src/systems-api/: its records, its operations and the routing table.
pub mod Types
pub mod Catalog
pub mod Records
pub mod Paths
pub mod Registry
pub mod Store
