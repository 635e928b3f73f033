-- ===== src/DataPlane/Service.antt =====
-- Running and stopping workloads in containers: src/data-plane/service.ts. What the commands of the
-- container runtime answer is a parameter, the `Runner`.
pub mod Stopping
pub mod Returning
use nexus_cloud.DataPlane.Units.{
  CommandResult, Runner, RuntimeExecutionResult, provider_text, runtime_text,
  find_available_container_provider, build_container_name, build_env_args, build_port_args,
  build_mounts, build_mount_args, create_unit, save_unit,
}
use Prim.Native.String
use mathlib.Core.Option
use nexus_cloud.Base.{
  if◌then◌else◌, opt_is, template, length, filter, find, trim, Stamp, Env, later, now, Action, pure,
  gets, ◌>>=◌, ◌>>◌, error, ◌*◌, String, Bool, true, false, ◌&&◌, Option, none, some, List, [], ◌∷◌,
  ◌++◌, ◌==◌,
}
use nexus_cloud.ControlPlane.Types.{NodeSpec, WorkloadSpec, WorkloadRuntime, is_ready}
use nexus_cloud.DataPlane.Types.{UnitState, Provider, DataPlaneUnit}
use nexus_cloud.Observability.Types.{SignalKind, Level, ObservabilityEvent}
use nexus_cloud.Observability.Service.{Platform, record_event}

abbrev pub runtime_event :
    Level → String → String → Stamp → List (String × String) → ObservabilityEvent
runtime_event level workload_id message timestamp metadata = record {
  kind = SignalKind.audit;
  subject_id = workload_id;
  message = message;
  timestamp = timestamp;
  level = some level;
  source = some "data-plane";
  metadata = metadata;
}

abbrev pub failure_of : Option Provider → DataPlaneUnit → RuntimeExecutionResult
failure_of provider unit = record {
  succeeded = false;
  unit = unit;
  provider = provider;
  error = unit.last_error;
}

-- A unit is saved, the event of its outcome recorded, and the result returned.
unfoldable pub conclude :
    Env
    → DataPlaneUnit
    → ObservabilityEvent
    → RuntimeExecutionResult
    → Action Platform RuntimeExecutionResult
conclude env unit event result = do
  save_unit env unit
  record_event (later 2 env) event
  pure result

-- `a || b || c`
abbrev pub or_text : String → String → String
or_text a b = if a == "" then b else a

unfoldable pub run_args : WorkloadSpec → String → List String
unfolding build_port_args build_env_args build_mount_args build_mounts
run_args workload name =
    ("run"
      ∷ "-d"
      ∷ "--name"
      ∷ name
      ∷ "--label"
      ∷ template ("nexus.cloud.workload=" ∷ workload.id ∷ [])
      ∷ [])
    ++ build_port_args workload.ports
    ++ build_env_args workload.env
    ++ build_mount_args (build_mounts workload)
    ++ workload.image ∷ []

-- The unit of a start, by what the runtime answered.
unfoldable pub started_unit :
    Env → WorkloadSpec → String → Provider → String → CommandResult → DataPlaneUnit
unfolding create_unit
started_unit env workload node_id provider name result =
    if result.succeeded
    then record (create_unit env workload node_id UnitState.running) {
      provider = some provider;
      runtime_id = some (or_text (trim result.stdout) name);
    }
    else record (create_unit env workload node_id UnitState.failed) {
      provider = some provider;
      runtime_id = some name;
      last_error =
          some (trim (or_text result.stderr (or_text result.stdout "Container runtime failed")));
    }

unfoldable pub run_with :
    Env → Runner → WorkloadSpec → String → Option Provider → Action Platform RuntimeExecutionResult
run_with env runner workload node_id none =
    let unit = record (create_unit env workload node_id UnitState.failed) {
      last_error = some "No container runtime available";
    } in
    conclude env unit
      (runtime_event Level.error workload.id
        (template
          ("Failed to start workload " ∷ workload.id ∷ ": no container runtime available" ∷ []))
        (now env 1) [])
      (failure_of none unit)
run_with env runner workload node_id (some provider) =
    let name = build_container_name (env.uuid 0) workload.id in
    let result = runner.start provider (run_args workload name) in
    let unit = started_unit env workload node_id provider name result in
    let metadata = ("provider", provider_text provider) ∷ [] in
    if result.succeeded
    then conclude env unit
        (runtime_event Level.info workload.id
          (template ("Started workload " ∷ workload.id ∷ " with " ∷ provider_text provider ∷ []))
          (now env 1) metadata)
        (record { succeeded = true; unit = unit; provider = some provider; error = none })
    else conclude env unit
        (runtime_event Level.error workload.id
          (template ("Container start failed for " ∷ workload.id ∷ [])) (now env 1) metadata)
        (failure_of (some provider) unit)

unfoldable pub run_container_workload :
    Env → Runner → WorkloadSpec → String → Action Platform RuntimeExecutionResult
unfolding find_available_container_provider run_with
run_container_workload env runner workload node_id =
    run_with env runner workload node_id (find_available_container_provider runner)

abbrev pub is_container : WorkloadRuntime → Bool
is_container WorkloadRuntime.container = true
is_container _ = false

-- A unit of a runtime that is not supported is saved as failed.
unfoldable pub run_unsupported :
    Env → WorkloadSpec → String → Action Platform (Option RuntimeExecutionResult)
run_unsupported env workload node_id =
    let unit = record (create_unit env workload node_id UnitState.failed) {
      last_error = some (template ("Unsupported runtime " ∷ runtime_text workload.runtime ∷ []));
    } in
    save_unit env unit >>= λ _. pure (some (failure_of none unit))

unfoldable pub run_found :
    Env
    → Runner
    → Option WorkloadSpec
    → Option NodeSpec
    → Action Platform (Option RuntimeExecutionResult)
run_found env runner (some workload) (some node) =
    if is_container workload.runtime
    then (run_container_workload env runner workload node.id >>= λ result. pure (some result))
    else run_unsupported env workload node.id
run_found env runner workload target = pure none

unfoldable pub run_workload :
    Env → Runner → String → Action Platform (Option RuntimeExecutionResult)
unfolding run_found
run_workload env runner workload_id p =
    run_found env runner (find (λ item. item.id == workload_id) p.store.live.workloads)
      (find (λ item. is_ready item.status) p.store.live.nodes) p

abbrev pub is_running : UnitState → Bool
is_running UnitState.running = true
is_running _ = false

abbrev pub runs_for : String → DataPlaneUnit → Bool
runs_for workload_id item = opt_is item.workload_id workload_id && is_running item.state

abbrev pub stopped_unit : Env → DataPlaneUnit → DataPlaneUnit
stopped_unit env unit = record unit { state = UnitState.stopped; updated_at = some (now env 0) }

-- The loop over the running units: each is stopped and saved. The stop command's answer is not read.
unfoldable pub stop_units : Env → List DataPlaneUnit → Action Platform (List DataPlaneUnit)
stop_units env [] = pure []
stop_units env (unit ∷ units) = do
  first ← save_unit env (stopped_unit env unit)
  rest ← stop_units (later 2 env) units
  pure (first ∷ rest)

abbrev pub stopped_event : Env → String → ObservabilityEvent
stopped_event env workload_id =
    runtime_event Level.info workload_id (template ("Stopped workload " ∷ workload_id ∷ []))
      (now env 0) []

unfoldable pub report_stopped :
    Env → String → List DataPlaneUnit → Action Platform (List DataPlaneUnit)
report_stopped env workload_id [] = pure []
report_stopped env workload_id (unit ∷ units) = do
  record_event env (stopped_event env workload_id)
  pure (unit ∷ units)

unfoldable pub stop_workload : Env → String → Action Platform (List DataPlaneUnit)
stop_workload env workload_id = do
  units ← gets (λ p. filter (runs_for workload_id) p.store.live.units)
  stopped ← stop_units env units
  report_stopped (later (2 * length units) env) workload_id stopped
