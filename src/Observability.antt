-- ===== src/Observability.antt =====
-- The event list and the health checks: src/observability/, with the audit log's append of
-- src/audit/index.ts.
pub mod Types
pub mod Service
