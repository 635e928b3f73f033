-- ===== src/Tests.antt =====
-- The theorems at concrete inputs.
mod Data
mod Platform
mod Network
mod Published
mod Catalog
mod Stores
mod Records
