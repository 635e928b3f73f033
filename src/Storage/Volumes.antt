-- ===== src/Storage/Volumes.antt =====
-- The volumes of src/storage/index.ts. Creating one waits for the object store between the choice of a
-- pool and the reservation on it, so it is two steps, `place` and `settle`; whether `makeBucket`
-- succeeds is an argument of the second.
use mathlib.Core.Option
use nexus_cloud.Base.{
  ltb, if◌then◌else◌, or_else, template, length, filter, find, update_first, upsert, trim, lower,
  WriteOutcome, Env, now, Result, Action, ok, thrown, ℕ, max, min, String, Bool, true, false, not,
  Option, none, some, List, [], ◌∷◌, ◌==◌,
}
use nexus_cloud.Base.Int.{pos, ◌-ℤ◌}
use nexus_cloud.State.Types.{PlatformState}
use nexus_cloud.State.{Store, mutate_state}
use nexus_cloud.Storage.Types.{SharedStoragePool, StorageVolume, StorageKind, Backend, VolumeStatus}
use nexus_cloud.Storage.Pools.{
  StorageSettings, id_of_name, has_pool_id, list_pools, edit_pools, select_pool_for_volume,
}

-- The classes of `storage.classes`.
pub data ClassName : Type 0 where
  standard block snapshot shared : ClassName

abbrev pub class_text : ClassName → String
class_text ClassName.standard = "standard"
class_text ClassName.block = "block"
class_text ClassName.snapshot = "snapshot"
class_text ClassName.shared = "shared"

abbrev pub class_kind : ClassName → StorageKind
class_kind ClassName.block = StorageKind.block
class_kind ClassName.snapshot = StorageKind.snapshot
class_kind _ = StorageKind.object

-- A request; a size is a whole number.
pub record StorageVolumeRequest : Type 0 where
  pub name : String
  pub class_name : Option String
  pub size_gb : Option ℕ
  pub pool_id : Option String

abbrev pub storage_classes : List ClassName
storage_classes = ClassName.standard ∷ ClassName.block ∷ ClassName.snapshot ∷ ClassName.shared ∷ []

-- `sanitizeClassName`
unfoldable pub sanitize_class_name : Option String → ClassName
sanitize_class_name class_name =
    let normalized = trim (or_else class_name "") in
    or_else (find (λ c. class_text c == normalized) storage_classes) ClassName.standard

unfoldable pub sanitize_size_gb : Option ℕ → ℕ
sanitize_size_gb requested = max 1 (min 1024 (or_else requested 10))

-- `cls.name === "standard" ? "minio" : cls.name === "shared" ? "shared" : "none"`
abbrev pub class_backend : ClassName → Backend
class_backend ClassName.standard = Backend.minio
class_backend ClassName.shared = Backend.shared
class_backend _ = Backend.unbacked

-- `text ? text : undefined`
abbrev pub non_blank : Option String → Option String
non_blank none = none
non_blank (some s) = if s == "" then none else some s

unfoldable pub create_volume_record : Env → StorageSettings → StorageVolumeRequest → StorageVolume
unfolding id_of_name sanitize_class_name sanitize_size_gb
create_volume_record env settings input =
    let cls = sanitize_class_name input.class_name in
    let id = id_of_name "volume" (env.uuid 0) input.name in
    record {
      id = id;
      name = (let name = trim input.name in if name == "" then id else name);
      class_name = class_text cls;
      kind = class_kind cls;
      size_gb = sanitize_size_gb input.size_gb;
      backend = class_backend cls;
      bucket = lower (template (settings.bucket_prefix ∷ "-" ∷ id ∷ []));
      endpoint = settings.s3_config.endpoint;
      status = VolumeStatus.provisioning;
      attached_to_node_id = none;
      pool_id = non_blank input.pool_id;
      pool_owner_did = none;
      created_at = now env 0;
      updated_at = now env 1;
    }

-- `input.poolId ? pools.find(...) : selectPoolForVolume(...)`
unfoldable pub chosen_pool : Option String → ℕ → List SharedStoragePool → Option SharedStoragePool
chosen_pool none size_gb pools = select_pool_for_volume pools size_gb
chosen_pool (some pool_id) size_gb pools = find (has_pool_id pool_id) pools

-- What is known before the wait: the record, and the pool for a shared volume.
unfoldable pub place :
    Env
    → StorageSettings
    → StorageVolumeRequest
    → PlatformState
    → StorageVolume × Option SharedStoragePool
unfolding create_volume_record list_pools chosen_pool
place env settings input s =
    let volume = create_volume_record env settings input in
    (volume, chosen_pool (non_blank input.pool_id) volume.size_gb (list_pools s))

abbrev pub with_status : VolumeStatus → StorageVolume → StorageVolume
with_status status volume = record volume { status = status }

abbrev pub put_volume : StorageVolume → Action PlatformState StorageVolume
put_volume volume s =
    (ok volume, record s { volumes = upsert (λ item. item.id == volume.id) volume s.volumes })

unfoldable pub store_volume :
    WriteOutcome → StorageVolume → Action (Store PlatformState) StorageVolume
unfolding mutate_state
store_volume o volume = mutate_state o (put_volume volume)

-- `pool.availableCapacityGb -= record.sizeGb`
abbrev pub less : ℕ → SharedStoragePool → SharedStoragePool
less size_gb pool = record pool {
  available_capacity_gb = pool.available_capacity_gb -ℤ pos size_gb;
}

unfoldable pub reserve : WriteOutcome → String → ℕ → Action (Store PlatformState) (Unit {0})
unfolding mutate_state
reserve o pool_id size_gb = mutate_state o (λ s. (ok tt, edit_pools pool_id (less size_gb) s))

abbrev pub on_pool : SharedStoragePool → StorageVolume → StorageVolume
on_pool pool volume = record volume {
  endpoint = pool.endpoint;
  pool_id = some pool.id;
  pool_owner_did = some pool.owner_node_did;
}

-- After the reservation: provisioned, or failed where it threw.
abbrev pub settle_reserved :
    WriteOutcome
    → StorageVolume
    → Result (Unit {0}) × Store PlatformState
    → Result StorageVolume × Store PlatformState
settle_reserved o volume (ok _, s) = store_volume o (with_status VolumeStatus.provisioned volume) s
settle_reserved o volume (thrown e, s) = store_volume o (with_status VolumeStatus.failed volume) s

unfoldable pub settle_shared :
    Env
    → Bool
    → StorageVolume
    → Option SharedStoragePool
    → Action (Store PlatformState) StorageVolume
settle_shared env made volume none s =
    store_volume (env.write 1)
      (record volume { status = VolumeStatus.failed; endpoint = ""; bucket = "" }) s
settle_shared env false volume (some pool) s =
    store_volume (env.write 1) (with_status VolumeStatus.failed volume) s
settle_shared env true volume (some pool) s =
    settle_reserved (env.write 1) (on_pool pool volume)
      (reserve (env.write 0) pool.id volume.size_gb s)

-- What follows the wait, for each backend.
abbrev pub settle_by :
    Env
    → Bool
    → Backend
    → StorageVolume
    → Option SharedStoragePool
    → Action (Store PlatformState) StorageVolume
settle_by env made Backend.shared volume pool = settle_shared env made volume pool
settle_by env made Backend.minio volume pool =
    store_volume (env.write 1)
      (with_status (if made then VolumeStatus.provisioned else VolumeStatus.failed) volume)
settle_by env made Backend.unbacked volume pool =
    store_volume (env.write 1) (with_status VolumeStatus.provisioned volume)

unfoldable pub settle :
    Env
    → Bool
    → StorageVolume × Option SharedStoragePool
    → Action (Store PlatformState) StorageVolume
unfolding settle_shared store_volume
settle env made (volume, pool) = settle_by env made volume.backend volume pool

-- `createVolume`, where nothing else runs during the wait
unfoldable pub create_volume :
    Env → StorageSettings → Bool → StorageVolumeRequest → Action (Store PlatformState) StorageVolume
unfolding place
create_volume env settings made input s = settle env made (place env settings input s.live) s

unfoldable pub get_volume : String → PlatformState → Option StorageVolume
get_volume volume_id s = find (λ item. item.id == volume_id) s.volumes

abbrev pub without_volume : String → Action PlatformState Bool
without_volume volume_id s =
    let kept = filter (λ item. not (item.id == volume_id)) s.volumes in
    (ok (ltb (length kept) (length s.volumes)), record s { volumes = kept })

unfoldable pub delete_volume : Env → String → Action (Store PlatformState) Bool
unfolding mutate_state
delete_volume env volume_id = mutate_state (env.write 0) (without_volume volume_id)

abbrev pub attached : Env → String → StorageVolume → StorageVolume
attached env node_id volume = record volume {
  attached_to_node_id = some node_id;
  updated_at = now env 0;
}

abbrev pub attach_draft : Env → String → String → Action PlatformState (Option StorageVolume)
attach_draft env volume_id node_id s = (
  ok (Option.map (attached env node_id) (find (λ item. item.id == volume_id) s.volumes)),
  record s {
    volumes = update_first (λ item. item.id == volume_id) (attached env node_id) s.volumes;
  },
)

abbrev pub is_provisioned : Option StorageVolume → Bool
is_provisioned none = false
is_provisioned (some v) = elim v.status [ VolumeStatus.provisioned ↦ true | _ ↦ false ]

unfoldable pub attach_volume :
    Env → String → String → Action (Store PlatformState) (Option StorageVolume)
unfolding mutate_state get_volume
attach_volume env volume_id node_id s =
    if is_provisioned (get_volume volume_id s.live)
    then mutate_state (env.write 0) (attach_draft env volume_id node_id) s
    else (ok none, s)
