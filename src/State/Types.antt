-- ===== src/State/Types.antt =====
-- The platform state: the types of src/state.ts.
use nexus_cloud.Base.{Stamp, String, Option, List}
use nexus_cloud.ControlPlane.Types.{NodeSpec, WorkloadSpec}
use nexus_cloud.DataPlane.Types.{DataPlaneUnit}
use nexus_cloud.Federation.Types.{FederationPeer}
use nexus_cloud.Observability.Types.{ObservabilityEvent, HealthCheck}
use nexus_cloud.Storage.Types.{StorageVolume, SharedStoragePool}

pub data GuardianStatus : Type 0 where
  approved denied suspended quarantined revoked : GuardianStatus

pub data GuardianScope : Type 0 where
  exposure domain runtime : GuardianScope

pub data Actor : Type 0 where
  system operator : Actor

pub record GuardianDecision : Type 0 where
  pub id : String
  pub tool_id : String
  pub scope : GuardianScope
  pub subject_id : String
  pub status : GuardianStatus
  pub reason : String
  pub actor : Actor
  pub created_at : Stamp
  pub updated_at : Stamp
  pub metadata : Option (List (String × String))

pub record MaintenanceRecord : Type 0 where
  pub subject_id : String
  pub part : String
  pub reason : Option String
  pub started_at : Stamp
  pub expected_end_at : Option Stamp
  pub set_by : String

pub record PlatformState : Type 0 where
  pub nodes : List NodeSpec
  pub workloads : List WorkloadSpec
  pub peers : List FederationPeer
  pub events : List ObservabilityEvent
  pub volumes : List StorageVolume
  pub shared_storage_pools : List SharedStoragePool
  pub units : List DataPlaneUnit
  pub health_checks : List HealthCheck
  pub guardian_decisions : List GuardianDecision
  pub maintenance : List MaintenanceRecord

abbrev pub empty_state : PlatformState
empty_state = record {
  nodes = List.[];
  workloads = List.[];
  peers = List.[];
  events = List.[];
  volumes = List.[];
  shared_storage_pools = List.[];
  units = List.[];
  health_checks = List.[];
  guardian_decisions = List.[];
  maintenance = List.[];
}
