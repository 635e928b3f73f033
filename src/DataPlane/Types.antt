-- ===== src/DataPlane/Types.antt =====
-- Runtime units: src/data-plane/index.ts.
use nexus_cloud.Base.{Stamp, ℕ, String, Bool, Option, List}
use nexus_cloud.ControlPlane.Types.{WorkloadRuntime}

pub data UnitState : Type 0 where
  pending running stopped failed : UnitState

pub data Provider : Type 0 where
  docker podman : Provider

pub record StorageMount : Type 0 where
  pub volume_id : String
  pub mount_path : String
  pub read_only : Bool

pub record DataPlaneUnit : Type 0 where
  pub id : String
  pub kind : WorkloadRuntime
  pub state : UnitState
  pub node_id : String
  pub image : Option String
  pub workload_id : Option String
  pub runtime_id : Option String
  pub provider : Option Provider
  pub mounts : Option (List StorageMount)
  pub ports : Option (List ℕ)
  pub env : Option (List (String × String))
  pub last_error : Option String
  pub created_at : Option Stamp
  pub updated_at : Option Stamp
