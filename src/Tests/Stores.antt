-- ===== src/Tests/Stores.antt =====
-- The theorems on storage, the data plane and the files of the stores, at concrete inputs.
use nexus_cloud.Base.{
  All, trim, saved, lost, at, ok, ℕ, ◌+◌, String, ◌≡◌, refl, ◌⊎◌, true, false, Option, none, some,
  List, [], ◌∷◌, arith, Preserves,
}
use nexus_cloud.Base.Int.{pos, ◌≤ℤ◌}
use nexus_cloud.Federation.Types.{PoolStatus}
use nexus_cloud.ControlPlane.Types.{WorkloadRuntime}
use nexus_cloud.State.Types.{PlatformState}
use nexus_cloud.State.{Store}
use nexus_cloud.Storage.Types.{SharedStoragePool, StorageVolume, Backend, VolumeStatus}
use nexus_cloud.Storage.Pools.{
  StorageSettings, SharedStoragePoolRequest, get_pool, list_pools, select_pool_for_volume,
  register_pool, update_pool_heartbeat, drain_pool, remove_pool,
}
use nexus_cloud.Storage.Volumes.{
  StorageVolumeRequest, sanitize_class_name, sanitize_size_gb, create_volume_record, chosen_pool,
  place, settle, less, create_volume, delete_volume, attach_volume,
}
use nexus_cloud.Storage.Capacity.{PoolsAreSound, create_volume-PoolsAreSound}
use nexus_cloud.Storage.Upkeep.{pool_upkeep-PoolsAreSound}
use nexus_cloud.Storage.Overcommit.{
  preferred_pool_is_not_checked, overlapping_creations_overdraw, ProvisionedOn,
}
use nexus_cloud.Persistence.JsonStore.{Disk, Source, winner, load_json_store_with_recovery}
use nexus_cloud.Persistence.JsonStore.Recovery.{failed_repair_loses_temp}
use nexus_cloud.Persistence.JsonStore.Crash.{crash_keeps_a_value}
use nexus_cloud.Persistence.JsonStore.Writing.{
  Phase, Machine, Reach, here, next, copy, sync_backup, write, sync_temp, rename, safe, unsafe,
  seen, is_durable, past_rename,
}
use nexus_cloud.DataPlane.Types.{DataPlaneUnit, UnitState, Provider}
use nexus_cloud.DataPlane.Service.{runs_for, stop_workload}
use nexus_cloud.DataPlane.Service.Returning.{stop_workload_returns}
use nexus_cloud.Observability.Service.{Platform}
use nexus_cloud.Tests.Data.{env, state}

abbrev storage_settings : StorageSettings
storage_settings = record {
  s3_config = record {
    endpoint = "http://localhost:9000";
    access_key = "key";
    secret_key = "secret";
    region = "eu";
  };
  bucket_prefix = "nexus";
}

abbrev pool : PoolStatus → SharedStoragePool
pool status = record {
  id = "disk";
  name = "disk";
  owner_node_id = "n1";
  owner_node_did = "did:n1";
  endpoint = "http://n1:9000";
  region = "eu";
  total_capacity_gb = 10;
  available_capacity_gb = pos 10;
  status = status;
  tags = [];
  replication_factor = 1;
  created_at = at 1;
  updated_at = at 1;
  last_heartbeat_at = none;
}

abbrev with_pool : PoolStatus → Store PlatformState
with_pool status =
    let s = record state { shared_storage_pools = pool status ∷ [] } in
    record { live = s; file = s }

abbrev request : ℕ → Option String → StorageVolumeRequest
request size_gb pool_id = record {
  name = "files";
  class_name = some "shared";
  size_gb = some size_gb;
  pool_id = pool_id;
}

with_pool-PoolsAreSound : PoolsAreSound (with_pool PoolStatus.active)
with_pool-PoolsAreSound = record { distinct = (tt, tt); within = ((omega arith, omega arith), tt) }

create_volume-PoolsAreSound_example :
    PoolsAreSound
      (create_volume env storage_settings true (request 8 none) (with_pool PoolStatus.active)).1
create_volume-PoolsAreSound_example =
    create_volume-PoolsAreSound env storage_settings true (request 8 none)
      (with_pool PoolStatus.active) refl with_pool-PoolsAreSound

abbrev pool_request : SharedStoragePoolRequest
pool_request = record {
  name = "Disk";
  total_capacity_gb = 20;
  tags = none;
  replication_factor = none;
}

pool_upkeep-PoolsAreSound_example :
    Preserves PoolsAreSound (register_pool env storage_settings pool_request "n1" "did:n1")
    × Preserves PoolsAreSound (update_pool_heartbeat env "disk")
    × Preserves PoolsAreSound (drain_pool env "disk")
    × Preserves PoolsAreSound (remove_pool env "disk")
    × Preserves PoolsAreSound (delete_volume env "files")
    × Preserves PoolsAreSound (attach_volume env "files" "n1")
pool_upkeep-PoolsAreSound_example =
    pool_upkeep-PoolsAreSound env storage_settings pool_request "n1" "did:n1" "disk" "files" "n1"

shared_backend :
    (size_gb : ℕ) (pool_id : Option String)
    → (create_volume_record env storage_settings (request size_gb pool_id)).backend ≡ Backend.shared
unfolding create_volume_record sanitize_class_name trim
shared_backend size_gb pool_id = refl

pool_found : (status : PoolStatus) → get_pool "disk" (with_pool status).live ≡ some (pool status)
unfolding get_pool list_pools
pool_found status = refl

preferred_pool_is_not_checked_example :
    let input = request 12 (some "disk") in
    let size_gb = (create_volume_record env storage_settings input).size_gb in
    let r = create_volume env storage_settings true input (with_pool PoolStatus.draining) in
    ((v : StorageVolume) × (r.0 ≡ ok v)
      × (v.status ≡ VolumeStatus.provisioned)
      × (v.pool_id ≡ some "disk"))
    × (get_pool "disk" r.1.live ≡ some (less size_gb (pool PoolStatus.draining)))
    × (¬ (pos size_gb ≤ℤ pos 10)
        → ¬ (pos 0 ≤ℤ (less size_gb (pool PoolStatus.draining)).available_capacity_gb))
preferred_pool_is_not_checked_example =
    preferred_pool_is_not_checked env storage_settings (request 12 (some "disk"))
      (pool PoolStatus.draining) (with_pool PoolStatus.draining) refl refl
      (shared_backend 12 (some "disk")) refl (pool_found PoolStatus.draining)

pool_chosen :
    (place env storage_settings (request 8 none) (with_pool PoolStatus.active).live).1
    ≡ some (pool PoolStatus.active)
unfolding place create_volume_record chosen_pool select_pool_for_volume list_pools sanitize_size_gb
pool_chosen = refl

overlapping_creations_overdraw_example :
    let s = with_pool PoolStatus.active in
    let p = pool PoolStatus.active in
    let input = request 8 none in
    let size_gb = (create_volume_record env storage_settings input).size_gb in
    let first = settle env true (place env storage_settings input s.live) s in
    let second = settle env true (place env storage_settings input s.live) first.1 in
    ProvisionedOn "disk" first
    × ProvisionedOn "disk" second
    × (get_pool "disk" second.1.live ≡ some (less size_gb (less size_gb p)))
    × (¬ (pos (size_gb + size_gb) ≤ℤ pos 10)
        → ¬ (pos 0 ≤ℤ (less size_gb (less size_gb p)).available_capacity_gb))
overlapping_creations_overdraw_example =
    overlapping_creations_overdraw env env storage_settings (request 8 none) (request 8 none)
      (pool PoolStatus.active) (with_pool PoolStatus.active) refl refl refl refl
      (shared_backend 8 none) (shared_backend 8 none) pool_chosen pool_chosen
      (pool_found PoolStatus.active)

-- Files that hold a number, or a text that cannot be read.
abbrev read : Option ℕ → Option ℕ
read c = c

abbrev machine : Machine (Option ℕ)
machine = record {
  primary = some (safe (some 1));
  temp = none;
  backup = none;
  stable = some (safe (some 1));
}

-- The write of 2 with a backup, up to the rename.
abbrev replaced_machine : Machine (Option ℕ)
replaced_machine = record machine {
  primary = some (safe (some 2));
  temp = none;
  backup = some (safe (some 1));
}

replacing : Reach (some 2) machine Phase.renamed replaced_machine
replacing =
    let backed = record machine { backup = some (safe (some 1)) } in
    next
      (next
        (next
          (next (next here (copy machine (safe (some 1)) none refl))
            (sync_backup (record machine { backup = some (unsafe none) }) (safe (some 1)) refl))
          (write backed))
        (sync_temp (record backed { temp = some (unsafe (some 2)) }) (unsafe (some 2)) refl))
      (rename (record backed { temp = some (safe (some 2)) }) (safe (some 2)) refl)

-- The crash comes before the directory is synced, and undoes the rename.
abbrev crashed : Disk (Option ℕ)
crashed = record { primary = some (some 1); temp = some none; backup = none }

crash_keeps_a_value_example :
    (winner read (seen replaced_machine) ≡ some (Source.primary, 2))
    × (((winner read crashed ≡ some (Source.primary, 1)) × (is_durable Phase.renamed ≡ false))
        ⊎ ((winner read crashed ≡ some (Source.primary, 2)) × (past_rename Phase.renamed ≡ true)))
crash_keeps_a_value_example =
    crash_keeps_a_value read (some 2) 2 machine (some 1) 1 Phase.renamed replaced_machine crashed
      refl refl refl refl replacing (λ e. refl)

-- The primary file is torn, and the temporary one is whole.
abbrev torn_disk : Disk (Option ℕ)
torn_disk = record { primary = some none; temp = some (some 2); backup = none }

failed_repair_loses_temp_example :
    let first = load_json_store_with_recovery some 0 read lost none torn_disk in
    (first.0 ≡ 2) × ((load_json_store_with_recovery some 0 read saved none first.2).0 ≡ 0)
failed_repair_loses_temp_example =
    failed_repair_loses_temp read some 0 (λ v. refl) torn_disk 2 refl refl refl saved none

-- A platform with one running unit of the workload `w`.
abbrev unit : DataPlaneUnit
unit = record {
  id = "u1";
  kind = WorkloadRuntime.container;
  state = UnitState.running;
  node_id = "n1";
  image = none;
  workload_id = some "w";
  runtime_id = some "c1";
  provider = some Provider.docker;
  mounts = none;
  ports = none;
  env = none;
  last_error = none;
  created_at = none;
  updated_at = none;
}

abbrev running : Platform
running =
    let s = record state { units = unit ∷ [] } in
    record { store = record { live = s; file = s }; audit_log = [] }

stop_workload_returns_example :
    (stopped : List DataPlaneUnit) × (p' : Platform) × (stop_workload env "w" running
      ≡ (ok stopped, p'))
    × All (λ u. runs_for "w" u ≡ false) p'.store.live.units
stop_workload_returns_example = stop_workload_returns env "w" running (λ i. refl) (tt, tt)

-- The unit was running before.
unit_ran : runs_for "w" unit ≡ true
unit_ran = refl
