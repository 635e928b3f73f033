-- ===== src/Storage.antt =====
-- Shared storage pools and volumes: src/storage/index.ts.
pub mod Types
pub mod Pools
pub mod Volumes
pub mod Capacity
pub mod Upkeep
pub mod Overcommit
