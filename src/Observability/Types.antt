-- ===== src/Observability/Types.antt =====
-- Events and health checks: src/observability/index.ts.
use nexus_cloud.Base.{Stamp, String, Option, List}

pub data SignalKind : Type 0 where
  metrics logs traces audit : SignalKind

pub data Level : Type 0 where
  info warn error : Level

pub record ObservabilityEvent : Type 0 where
  pub kind : SignalKind
  pub subject_id : String
  pub message : String
  pub timestamp : Stamp
  pub level : Option Level
  pub source : Option String
  pub metadata : List (String × String)

pub data HealthStatus : Type 0 where
  healthy degraded offline : HealthStatus

pub record HealthCheck : Type 0 where
  pub id : String
  pub subject : String
  pub component : String
  pub status : HealthStatus
  pub summary : String
  pub checked_at : Stamp
  pub details : List (String × String)
