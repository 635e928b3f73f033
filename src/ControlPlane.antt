-- ===== src/ControlPlane.antt =====
-- The control plane, src/control-plane/: quotas and policy, placement of replicas, node
-- registration and trust, and the service that puts them together over the platform state.
pub mod Types
pub mod Admission
pub mod Scheduler
pub mod Trust
pub mod Service
