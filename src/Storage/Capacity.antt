-- ===== src/Storage/Capacity.antt =====
-- The capacity of shared pools: what keeps it within its bounds, and what does not.
use nexus_cloud.Base.{
  Bool-cases, &&-eq-true, filter, find, update_first, All, All-filter, filter-passes, All-and,
  All-update_found, Distinct, Distinct-update_first, find-key_self, WriteOutcome, Env, Result,
  Action, saved, lost, replaced, ok, thrown, ℕ, String, ◌≡◌, refl, inl, inr, Bool, true, false,
  Option, none, some, List, [], ◌∷◌, arith,
}
use nexus_cloud.Base.Int.{pos, ◌≤ℤ◌, leb_ℤ→le, -ℤ_parts}
use nexus_cloud.Base.Sorting.{sort_by, All-sort_by}
use nexus_cloud.State.Types.{PlatformState}
use nexus_cloud.State.{Store, mutate_state, save_state, save_result}
use nexus_cloud.Storage.Types.{SharedStoragePool, StorageVolume, Backend}
use nexus_cloud.Storage.Pools.{
  StorageSettings, has_pool_id, list_pools, edit_pools, first, has_room, has_less, is_active_pool,
  select_pool_for_volume,
}
use nexus_cloud.Storage.Volumes.{
  StorageVolumeRequest, non_blank, chosen_pool, create_volume_record, place, settle, settle_by,
  settle_shared, settle_reserved, store_volume, put_volume, reserve, less, on_pool, create_volume,
}

-- What is available is not negative and not more than there is.
abbrev pub IsWithin : SharedStoragePool → Type 0
IsWithin p =
    (pos 0 ≤ℤ p.available_capacity_gb) × (p.available_capacity_gb ≤ℤ pos p.total_capacity_gb)

-- No two pools share an id, and each is within its capacity.
pub record PoolsAreSound (s : Store PlatformState) : Type 0 where
  pub distinct : Distinct (λ p. p.id) s.live.shared_storage_pools
  pub within : All IsWithin s.live.shared_storage_pools

abbrev pub SoundPools : List SharedStoragePool → Type 0
SoundPools pools = Distinct (λ p. p.id) pools × All IsWithin pools

abbrev sound : (s : Store PlatformState) → SoundPools s.live.shared_storage_pools → PoolsAreSound s
sound s h = record { distinct = h.0; within = h.1 }

-- A change that is saved, or rolled back.
save_result-sound :
    {A : Type 0} (o : WriteOutcome) (q : Result A × PlatformState) (s : Store PlatformState)
    → PoolsAreSound s
    → SoundPools q.1.shared_storage_pools
    → PoolsAreSound (save_result o q s).1
unfolding save_state
save_result-sound saved (ok a, next) s h k = sound _ k
save_result-sound lost (ok a, next) s h k = h
save_result-sound replaced (ok a, next) s h k = sound _ (h.distinct, h.within)
save_result-sound o (thrown e, next) s h k = h

pub mutate_state-sound :
    {A : Type 0} (o : WriteOutcome) (m : Action PlatformState A) (s : Store PlatformState)
    → PoolsAreSound s
    → SoundPools (m s.live).1.shared_storage_pools
    → PoolsAreSound (mutate_state o m s).1
unfolding mutate_state
mutate_state-sound o m s h k = save_result-sound o (m s.live) s h k

-- A pool that the selection answers is active, has the room, and is the first of its id.
select_pool-has_room :
    (pools : List SharedStoragePool) (size_gb : ℕ) (pool : SharedStoragePool)
    → Distinct (λ p. p.id) pools
    → select_pool_for_volume pools size_gb ≡ some pool
    → (has_room size_gb pool ≡ true) × (find (has_pool_id pool.id) pools ≡ some pool)
unfolding select_pool_for_volume
select_pool-has_room pools size_gb pool d h =
    first_of (sort_by has_less (filter (has_room size_gb) pools)) h (
      All-sort_by has_less P _ (
        All-and Q R _ (filter-passes (has_room size_gb) pools)
          (All-filter R (has_room size_gb) pools (find-key_self (λ p. p.id) pools d))))
  where
    Q : SharedStoragePool → Type 0
    Q p = has_room size_gb p ≡ true

    R : SharedStoragePool → Type 0
    R p = find (has_pool_id p.id) pools ≡ some p

    P : SharedStoragePool → Type 0
    P p = Q p × R p

    first_of : (ps : List SharedStoragePool) → first ps ≡ some pool → All P ps → P pool
    first_of [] h k = cc
    first_of (p ∷ ps) h k = let same : p ≡ pool = ground arith in rw (← same) k.0

less-IsWithin :
    (size_gb : ℕ) (p : SharedStoragePool)
    → has_room size_gb p ≡ true
    → IsWithin p
    → IsWithin (less size_gb p)
less-IsWithin size_gb p room h =
    let (_, enough) = &&-eq-true (is_active_pool p.status) _ room in
    let fits = leb_ℤ→le (pos size_gb) p.available_capacity_gb enough in
    omega (arith, -ℤ_parts p.available_capacity_gb (pos size_gb))

store_volume-sound :
    (o : WriteOutcome) (volume : StorageVolume) (s : Store PlatformState)
    → PoolsAreSound s
    → PoolsAreSound (store_volume o volume s).1
unfolding store_volume
store_volume-sound o volume s h =
    mutate_state-sound o (put_volume volume) s h (h.distinct, h.within)

-- The ids stay as they are.
pub edit-Distinct :
    (pool_id : String) (f : SharedStoragePool → SharedStoragePool) (pools : List SharedStoragePool)
    → ((p : SharedStoragePool) → (f p).id ≡ p.id)
    → Distinct (λ p. p.id) pools
    → Distinct (λ p. p.id) (update_first (has_pool_id pool_id) f pools)
edit-Distinct pool_id f pools k d =
    Distinct-update_first (λ p. p.id) (has_pool_id pool_id) f pools k d

reserve-sound :
    (o : WriteOutcome) (size_gb : ℕ) (pool : SharedStoragePool) (s : Store PlatformState)
    → PoolsAreSound s
    → find (has_pool_id pool.id) s.live.shared_storage_pools ≡ some pool
    → IsWithin (less size_gb pool)
    → PoolsAreSound (reserve o pool.id size_gb s).1
unfolding reserve
reserve-sound o size_gb pool s h found k =
    mutate_state-sound o (λ t. (ok tt, edit_pools pool.id (less size_gb) t)) s h
      (
        edit-Distinct pool.id (less size_gb) s.live.shared_storage_pools (λ p. refl) h.distinct,
        All-update_found IsWithin (has_pool_id pool.id) (less size_gb) _ pool found k h.within,
      )

settle_reserved-sound :
    (o : WriteOutcome) (volume : StorageVolume) (r : Result (Unit {0}) × Store PlatformState)
    → PoolsAreSound r.1
    → PoolsAreSound (settle_reserved o volume r).1
settle_reserved-sound o volume (ok _, s) h = store_volume-sound o _ s h
settle_reserved-sound o volume (thrown e, s) h = store_volume-sound o _ s h

-- What the first pool of an id was within, it is within.
found-IsWithin :
    (p : SharedStoragePool → Bool) (pools : List SharedStoragePool) (pool : SharedStoragePool)
    → find p pools ≡ some pool
    → All IsWithin pools
    → IsWithin pool
found-IsWithin p [] pool h k = cc
found-IsWithin p (q ∷ qs) pool h k = elim (Bool-cases (p q)) [
  | inl e ↦
      let same : some q ≡ some pool = rw e at h in
      let here : q ≡ pool = ground arith in rw (← here) k.0
  | inr e ↦ found-IsWithin p qs pool (rw e at h) k.1
]

settle_shared-sound :
    (env : Env) (made : Bool) (volume : StorageVolume) (choice : Option SharedStoragePool)
    (s : Store PlatformState)
    → PoolsAreSound s
    → select_pool_for_volume s.live.shared_storage_pools volume.size_gb ≡ choice
    → PoolsAreSound (settle_shared env made volume choice s).1
unfolding settle_shared
settle_shared-sound env made volume none s h e = store_volume-sound (env.write 1) _ s h
settle_shared-sound env false volume (some pool) s h e = store_volume-sound (env.write 1) _ s h
settle_shared-sound env true volume (some pool) s h e =
    let pools = s.live.shared_storage_pools in
    let (room, found) = select_pool-has_room pools volume.size_gb pool h.distinct e in
    let kept = found-IsWithin (has_pool_id pool.id) pools pool found h.within in
    settle_reserved-sound (env.write 1) (on_pool pool volume) _ (
      reserve-sound (env.write 0) volume.size_gb pool s h found
        (less-IsWithin volume.size_gb pool room kept))

settle_by-sound :
    (env : Env) (made : Bool) (b : Backend) (volume : StorageVolume)
    (choice : Option SharedStoragePool) (s : Store PlatformState)
    → PoolsAreSound s
    → select_pool_for_volume s.live.shared_storage_pools volume.size_gb ≡ choice
    → PoolsAreSound (settle_by env made b volume choice s).1
settle_by-sound env made Backend.shared volume choice s h e =
    settle_shared-sound env made volume choice s h e
settle_by-sound env made Backend.minio volume choice s h e = store_volume-sound (env.write 1) _ s h
settle_by-sound env made Backend.unbacked volume choice s h e =
    store_volume-sound (env.write 1) _ s h

-- Creating a volume without a preferred pool, where nothing else runs while it waits for the object
-- store, keeps the pools sound, whatever becomes of the bucket and of the writes: no pool shares the
-- id of another, and none has a negative available capacity or one above its total.
pub create_volume-PoolsAreSound :
    (env : Env) (settings : StorageSettings) (made : Bool) (input : StorageVolumeRequest)
    (s : Store PlatformState)
    → non_blank input.pool_id ≡ none
    → PoolsAreSound s
    → PoolsAreSound (create_volume env settings made input s).1
unfolding create_volume settle place chosen_pool list_pools
create_volume-PoolsAreSound env settings made input s free h =
    let volume = create_volume_record env settings input in
    settle_by-sound env made volume.backend volume _ s h (rw free)
