-- ===== src/Guardian.antt =====
-- The guardian, src/guardian/index.ts: the admission policy and the ledger of its decisions.
pub mod Policy
pub mod Decisions
