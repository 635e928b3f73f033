-- ===== src/Storage/Overcommit.antt =====
-- Where a shared pool is given more volumes than it has room for: src/storage/index.ts.
use nexus_cloud.Base.{
  str-eq_self, upsert, find-update_first, find-upsert_self, Env, Result, saved, ok, ℕ, ◌+◌, String,
  ◌≡◌, refl, ap, ◌∙◌, true, some, arith, ◌==◌,
}
use nexus_cloud.Base.Int.{pos, ◌-ℤ◌, ◌≤ℤ◌, -ℤ_parts}
use nexus_cloud.State.Types.{PlatformState}
use nexus_cloud.State.{Store, mutate_state, save_state}
use nexus_cloud.Storage.Types.{SharedStoragePool, StorageVolume, Backend, VolumeStatus}
use nexus_cloud.Storage.Pools.{StorageSettings, has_pool_id, list_pools, get_pool, edit_pools}
use nexus_cloud.Storage.Volumes.{
  StorageVolumeRequest, non_blank, chosen_pool, create_volume_record, place, settle, settle_shared,
  store_volume, reserve, less, on_pool, with_status, create_volume, get_volume,
}

-- The platform state with a reservation and the volume that it is for.
abbrev taken : SharedStoragePool → StorageVolume → PlatformState → PlatformState
taken pool volume s =
    let stored = with_status VolumeStatus.provisioned (on_pool pool volume) in
    let reserved = edit_pools pool.id (less volume.size_gb) s in
    record reserved { volumes = upsert (λ item. item.id == stored.id) stored reserved.volumes }

-- A shared volume with a pool is provisioned on it, where the bucket is made and the writes are saved.
settle-taken :
    (env : Env) (volume : StorageVolume) (pool : SharedStoragePool) (s : Store PlatformState)
    → env.write 0 ≡ saved
    → env.write 1 ≡ saved
    → volume.backend ≡ Backend.shared
    → settle env true (volume, some pool) s ≡ (
      ok (with_status VolumeStatus.provisioned (on_pool pool volume)),
      record { live = taken pool volume s.live; file = taken pool volume s.live },
    )
unfolding settle settle_shared reserve store_volume mutate_state save_state
settle-taken env volume pool s w0 w1 b = rw (b, w0, w1)

get_pool-taken :
    (volume : StorageVolume) (chosen pool : SharedStoragePool) (s : PlatformState)
    → chosen.id ≡ pool.id
    → get_pool pool.id s ≡ some pool
    → get_pool pool.id (taken chosen volume s) ≡ some (less volume.size_gb pool)
unfolding get_pool list_pools
get_pool-taken volume chosen pool s same found = rw same (
    find-update_first (has_pool_id pool.id) (less volume.size_gb) s.shared_storage_pools pool found
      (str-eq_self pool.id))

place-preferred :
    (env : Env) (settings : StorageSettings) (input : StorageVolumeRequest)
    (pool : SharedStoragePool) (s : PlatformState)
    → non_blank input.pool_id ≡ some pool.id
    → get_pool pool.id s ≡ some pool
    → place env settings input s ≡ (create_volume_record env settings input, some pool)
unfolding place get_pool
place-preferred env settings input pool s preferred found =
    ap (λ c. (create_volume_record env settings input, c))
      (ap (λ id. chosen_pool id (create_volume_record env settings input).size_gb (list_pools s))
          preferred
        ∙ found)

create_volume-settle :
    (env : Env) (settings : StorageSettings) (input : StorageVolumeRequest)
    (s : Store PlatformState)
    → create_volume env settings true input s ≡ settle env true (place env settings input s.live) s
unfolding create_volume
create_volume-settle env settings input s = refl

place-chosen :
    (env : Env) (settings : StorageSettings) (input : StorageVolumeRequest)
    (pool : SharedStoragePool) (s : PlatformState)
    → (place env settings input s).1 ≡ some pool
    → place env settings input s ≡ (create_volume_record env settings input, some pool)
unfolding place
place-chosen env settings input pool s h = ap (λ c. (create_volume_record env settings input, c)) h

overdrawn_twice :
    (n m : ℕ) (pool : SharedStoragePool)
    → ¬ (pos (n + m) ≤ℤ pool.available_capacity_gb)
    → ¬ (pos 0 ≤ℤ (less m (less n pool)).available_capacity_gb)
overdrawn_twice n m pool short held =
    let once = -ℤ_parts pool.available_capacity_gb (pos n) in
    let twice = -ℤ_parts (pool.available_capacity_gb -ℤ pos n) (pos m) in
    short (omega (arith, once, twice))

overdrawn :
    (size_gb : ℕ) (pool : SharedStoragePool)
    → ¬ (pos size_gb ≤ℤ pool.available_capacity_gb)
    → ¬ (pos 0 ≤ℤ (less size_gb pool).available_capacity_gb)
overdrawn size_gb pool short held =
    short (omega (arith, -ℤ_parts pool.available_capacity_gb (pos size_gb)))

-- A preferred pool is used whatever its status and its room: a shared volume that names a registered
-- pool is provisioned on it, where the bucket is made and the writes are saved, and its size is
-- taken from what the pool has available, which becomes negative where it was less.
pub preferred_pool_is_not_checked :
    (env : Env) (settings : StorageSettings) (input : StorageVolumeRequest)
    (pool : SharedStoragePool) (s : Store PlatformState)
    → env.write 0 ≡ saved
    → env.write 1 ≡ saved
    → (create_volume_record env settings input).backend ≡ Backend.shared
    → non_blank input.pool_id ≡ some pool.id
    → get_pool pool.id s.live ≡ some pool
    → let size_gb = (create_volume_record env settings input).size_gb in
      let r = create_volume env settings true input s in
      ((v : StorageVolume) × (r.0 ≡ ok v)
        × (v.status ≡ VolumeStatus.provisioned)
        × (v.pool_id ≡ some pool.id))
      × (get_pool pool.id r.1.live ≡ some (less size_gb pool))
      × (¬ (pos size_gb ≤ℤ pool.available_capacity_gb)
          → ¬ (pos 0 ≤ℤ (less size_gb pool).available_capacity_gb))
preferred_pool_is_not_checked env settings input pool s w0 w1 b preferred found =
    let volume = create_volume_record env settings input in
    let whole =
      create_volume-settle env settings input s
      ∙ ap (λ c. settle env true c s)
          (place-preferred env settings input pool s.live preferred found)
      ∙ settle-taken env volume pool s w0 w1 b in
    rw whole (
      (with_status VolumeStatus.provisioned (on_pool pool volume), refl, refl, refl),
      get_pool-taken volume pool pool s.live refl found,
      overdrawn volume.size_gb pool,
    )

-- A creation that returned a volume, provisioned on the pool, and stored it in memory and in the file.
abbrev pub ProvisionedOn : String → Result StorageVolume × Store PlatformState → Type 0
ProvisionedOn pool_id r =
    (v : StorageVolume) × (r.0 ≡ ok v)
    × (v.status ≡ VolumeStatus.provisioned)
    × (v.pool_id ≡ some pool_id)
    × (get_volume v.id r.1.live ≡ some v)
    × (r.1.file ≡ r.1.live)

provisioned_taken :
    (volume : StorageVolume) (pool : SharedStoragePool) (s : PlatformState)
    → ProvisionedOn pool.id (
      ok (with_status VolumeStatus.provisioned (on_pool pool volume)),
      record { live = taken pool volume s; file = taken pool volume s },
    )
unfolding get_volume
provisioned_taken volume pool s = (
  with_status VolumeStatus.provisioned (on_pool pool volume),
  refl,
  refl,
  refl,
  find-upsert_self (λ item. item.id == volume.id)
      (with_status VolumeStatus.provisioned (on_pool pool volume))
      (edit_pools pool.id (less volume.size_gb) s).volumes (str-eq_self volume.id),
  refl,
)

-- Two creations that overlap: both choose the same pool before either has reserved its size. Where the
-- buckets are made and the writes are saved, each creation returns a volume that is provisioned on
-- that pool and stores it, in memory and in the file, and both sizes are taken, so that the pool is
-- overdrawn where it has room for each of them but not for both.
pub overlapping_creations_overdraw :
    (env env' : Env) (settings : StorageSettings) (input input' : StorageVolumeRequest)
    (pool : SharedStoragePool) (s : Store PlatformState)
    → env.write 0 ≡ saved
    → env.write 1 ≡ saved
    → env'.write 0 ≡ saved
    → env'.write 1 ≡ saved
    → (create_volume_record env settings input).backend ≡ Backend.shared
    → (create_volume_record env' settings input').backend ≡ Backend.shared
    → (place env settings input s.live).1 ≡ some pool
    → (place env' settings input' s.live).1 ≡ some pool
    → get_pool pool.id s.live ≡ some pool
    → let size_gb = (create_volume_record env settings input).size_gb in
      let size_gb' = (create_volume_record env' settings input').size_gb in
      let first = settle env true (place env settings input s.live) s in
      let second = settle env' true (place env' settings input' s.live) first.1 in
      ProvisionedOn pool.id first
      × ProvisionedOn pool.id second
      × (get_pool pool.id second.1.live ≡ some (less size_gb' (less size_gb pool)))
      × (¬ (pos (size_gb + size_gb') ≤ℤ pool.available_capacity_gb)
          → ¬ (pos 0 ≤ℤ (less size_gb' (less size_gb pool)).available_capacity_gb))
overlapping_creations_overdraw env env' settings input input' pool s w0 w1 w0' w1' b b' chosen
      chosen' found =
    let volume = create_volume_record env settings input in
    let volume' = create_volume_record env' settings input' in
    let run =
      ap (λ c. settle env true c s) (place-chosen env settings input pool s.live chosen)
      ∙ settle-taken env volume pool s w0 w1 b in
    let s1 : Store PlatformState = record {
      live = taken pool volume s.live;
      file = taken pool volume s.live;
    } in
    let run' =
      ap (λ c. settle env' true c s1) (place-chosen env' settings input' pool s.live chosen')
      ∙ settle-taken env' volume' pool s1 w0' w1' b' in
    let once = get_pool-taken volume pool pool s.live refl found in
    let twice = get_pool-taken volume' pool (less volume.size_gb pool) s1.live refl once in
    (
      rw run (provisioned_taken volume pool s.live),
      rw run (rw run' (provisioned_taken volume' pool s1.live)),
      rw run (rw run' twice),
      overdrawn_twice volume.size_gb volume'.size_gb pool,
    )
