-- ===== src/DataPlane/Units.antt =====
-- The units of workloads and the commands that start them: src/data-plane/service.ts.
use mathlib.Core.Option
use nexus_cloud.Base.{
  if◌then◌else◌, or_else, template, upsert, take_chars, Env, now, Action, pure, ◌>>◌, ok, ℕ, suc,
  ◌+◌, String, Bool, false, Option, none, some, List, [], ◌∷◌, ◌==◌,
}
use nexus_cloud.Base.Json.{decimal}
use nexus_cloud.ControlPlane.Types.{WorkloadSpec, WorkloadRuntime}
use nexus_cloud.DataPlane.Types.{UnitState, Provider, StorageMount, DataPlaneUnit}
use nexus_cloud.Observability.Types.{HealthStatus, HealthCheck}
use nexus_cloud.Observability.Service.{Platform, on_store, upsert_health_check}
use nexus_cloud.State.Types.{PlatformState}
use nexus_cloud.State.{mutate_state}

-- What `spawnSync` answers to a container's start: whether the status is 0, and the two outputs.
pub record CommandResult : Type 0 where
  pub succeeded : Bool
  pub stdout : String
  pub stderr : String

-- Whether `provider --version` succeeds, and the answer to `provider args`.
pub record Runner : Type 0 where
  pub has_version : Provider → Bool
  pub start : Provider → List String → CommandResult

pub record RuntimeExecutionResult : Type 0 where
  pub succeeded : Bool
  pub unit : DataPlaneUnit
  pub provider : Option Provider
  pub error : Option String

abbrev pub provider_text : Provider → String
provider_text Provider.docker = "docker"
provider_text Provider.podman = "podman"

abbrev pub state_text : UnitState → String
state_text UnitState.pending = "pending"
state_text UnitState.running = "running"
state_text UnitState.stopped = "stopped"
state_text UnitState.failed = "failed"

abbrev pub runtime_text : WorkloadRuntime → String
runtime_text WorkloadRuntime.container = "container"
runtime_text WorkloadRuntime.vm = "vm"
runtime_text WorkloadRuntime.function = "function"

unfoldable pub find_available_container_provider : Runner → Option Provider
find_available_container_provider runner =
    if runner.has_version Provider.docker
    then some Provider.docker
    else if runner.has_version Provider.podman
    then some Provider.podman
    else none

unfoldable pub build_container_name : String → String → String
build_container_name uuid workload_id =
    template ("nexus-cloud-" ∷ workload_id ∷ "-" ∷ take_chars 8 uuid ∷ [])

unfoldable pub build_env_args : List (String × String) → List String
build_env_args [] = []
build_env_args ((key, value) ∷ rest) =
    "-e" ∷ template (key ∷ "=" ∷ value ∷ []) ∷ build_env_args rest

unfoldable pub build_port_args : List ℕ → List String
unfolding decimal
build_port_args [] = []
build_port_args (port ∷ rest) =
    "-p" ∷ template (decimal port ∷ ":" ∷ decimal port ∷ []) ∷ build_port_args rest

-- The mounts of the volumes from an index on.
unfoldable pub mounts_from : ℕ → List String → List StorageMount
unfolding decimal
mounts_from index [] = []
mounts_from index (volume_id ∷ rest) =
    record {
      volume_id = volume_id;
      mount_path = template ("/mnt/nexus/" ∷ decimal (index + 1) ∷ []);
      read_only = false;
    }
    ∷ mounts_from (suc index) rest

unfoldable pub build_mounts : WorkloadSpec → List StorageMount
unfolding mounts_from
build_mounts workload = mounts_from 0 workload.storage

unfoldable pub build_mount_args : List StorageMount → List String
build_mount_args [] = []
build_mount_args (m ∷ rest) =
    "-v"
    ∷ template (m.volume_id ∷ ":" ∷ m.mount_path ∷ (if m.read_only then ":ro" else "") ∷ [])
    ∷ build_mount_args rest

-- `createUnit` without its `partial`, which the callers put on the record.
unfoldable pub create_unit : Env → WorkloadSpec → String → UnitState → DataPlaneUnit
unfolding build_mounts
create_unit env workload node_id state = record {
  id = template ("unit_" ∷ env.uuid 1 ∷ []);
  kind = workload.runtime;
  state = state;
  node_id = node_id;
  image = some workload.image;
  workload_id = some workload.id;
  runtime_id = none;
  provider = none;
  mounts = some (build_mounts workload);
  ports = some workload.ports;
  env = some workload.env;
  last_error = none;
  created_at = some (now env 0);
  updated_at = some (now env 1);
}

abbrev pub unit_health : UnitState → HealthStatus
unit_health UnitState.running = HealthStatus.healthy
unit_health UnitState.failed = HealthStatus.offline
unit_health _ = HealthStatus.degraded

unfoldable pub unit_check : Env → DataPlaneUnit → HealthCheck
unit_check env unit = record {
  id = template ("runtime:" ∷ unit.id ∷ []);
  subject = or_else unit.workload_id unit.id;
  component = "data-plane";
  status = unit_health unit.state;
  summary = template ("Runtime unit " ∷ state_text unit.state ∷ []);
  checked_at = or_else unit.updated_at (now env 2);
  details =
      ("nodeId", unit.node_id)
      ∷ ("runtime", runtime_text unit.kind)
      ∷ ("provider", or_else (Option.map provider_text unit.provider) "none")
      ∷ [];
}

abbrev pub unit_draft : DataPlaneUnit → Action PlatformState (Unit {0})
unit_draft unit s = (ok tt, record s { units = upsert (λ item. item.id == unit.id) unit s.units })

-- `saveUnit`: the unit is stored, then its health check.
unfoldable pub save_unit : Env → DataPlaneUnit → Action Platform DataPlaneUnit
save_unit env unit = do
  on_store (mutate_state (env.write 0) (unit_draft unit))
  upsert_health_check (env.write 1) (unit_check env unit)
  pure unit
