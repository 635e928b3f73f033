-- ===== src/Storage/Upkeep.antt =====
-- The operations on pools and volumes that reserve nothing keep the pools sound.
use nexus_cloud.Base.{
  Bool-cases, filter, All-filter, All-update_first, All-upsert, Distinct, Distinct-upsert,
  WriteOutcome, Env, ok, String, ◌≡◌, refl, ◌≢◌, inl, inr, Bool, not, List, [], ◌∷◌, arith, ◌==◌,
  Preserves,
}
use nexus_cloud.State.Types.{PlatformState}
use nexus_cloud.State.{Store, mutate_state}
use nexus_cloud.Storage.Types.{SharedStoragePool}
use nexus_cloud.Storage.Pools.{
  StorageSettings, SharedStoragePoolRequest, has_pool_id, edit_pools, put_pool, register_pool,
  update_pool_heartbeat, drain_pool, remove_pool, new_pool, beaten, drained, without_pool,
  pool_draft,
}
use nexus_cloud.Storage.Volumes.{
  delete_volume, attach_volume, get_volume, is_provisioned, without_volume, attach_draft,
}
use nexus_cloud.Storage.Capacity.{
  PoolsAreSound, SoundPools, IsWithin, mutate_state-sound, edit-Distinct,
}

Distinct-filter :
    (p : SharedStoragePool → Bool) (pools : List SharedStoragePool)
    → Distinct (λ q. q.id) pools
    → Distinct (λ q. q.id) (filter p pools)
Distinct-filter p [] d = tt
Distinct-filter p (x ∷ xs) d = elim (Bool-cases (p x)) [
  | inl e ↦ rw e (All-filter (λ y. y.id ≢ x.id) p xs d.0, Distinct-filter p xs d.1)
  | inr e ↦ rw e (Distinct-filter p xs d.1)
]

edited-SoundPools :
    (pool_id : String) (f : SharedStoragePool → SharedStoragePool) (s : Store PlatformState)
    → ((p : SharedStoragePool) → (f p).id ≡ p.id)
    → ((p : SharedStoragePool) → IsWithin p → IsWithin (f p))
    → PoolsAreSound s
    → SoundPools (edit_pools pool_id f s.live).shared_storage_pools
edited-SoundPools pool_id f s same kept h = (
  edit-Distinct pool_id f s.live.shared_storage_pools same h.distinct,
  All-update_first IsWithin (has_pool_id pool_id) f _ kept h.within,
)

register_pool-PoolsAreSound :
    (env : Env) (settings : StorageSettings) (input : SharedStoragePoolRequest) (owner did : String)
    → Preserves PoolsAreSound (register_pool env settings input owner did)
unfolding register_pool new_pool
register_pool-PoolsAreSound env settings input owner did = record {
  afterwards = λ s h.
      let pool = new_pool env settings input owner did in
      mutate_state-sound (env.write 0) (λ t. (ok pool, put_pool pool t)) s h
        (
          Distinct-upsert (λ p. p.id) pool s.live.shared_storage_pools h.distinct,
          All-upsert IsWithin (λ p. p.id == pool.id) pool s.live.shared_storage_pools
              (omega arith, omega arith) h.within,
        );
}

pool_draft-PoolsAreSound :
    (o : WriteOutcome) (pool_id : String) (f : SharedStoragePool → SharedStoragePool)
    → ((p : SharedStoragePool) → (f p).id ≡ p.id)
    → ((p : SharedStoragePool) → IsWithin p → IsWithin (f p))
    → Preserves PoolsAreSound (mutate_state o (pool_draft pool_id f))
unfolding pool_draft
pool_draft-PoolsAreSound o pool_id f same kept = record {
  afterwards = λ s h.
      mutate_state-sound o (pool_draft pool_id f) s h (edited-SoundPools pool_id f s same kept h);
}

-- Registering a pool (anew, or again under the id of another), its heartbeat, its draining and its
-- removal, and deleting and attaching volumes keep the pools sound, whatever becomes of the write: the
-- ids stay distinct and every pool within its capacity.
pub pool_upkeep-PoolsAreSound :
    (env : Env) (settings : StorageSettings) (input : SharedStoragePoolRequest)
    (owner did pool_id volume_id node_id : String)
    → Preserves PoolsAreSound (register_pool env settings input owner did)
      × Preserves PoolsAreSound (update_pool_heartbeat env pool_id)
      × Preserves PoolsAreSound (drain_pool env pool_id)
      × Preserves PoolsAreSound (remove_pool env pool_id)
      × Preserves PoolsAreSound (delete_volume env volume_id)
      × Preserves PoolsAreSound (attach_volume env volume_id node_id)
unfolding update_pool_heartbeat drain_pool remove_pool delete_volume attach_volume
pool_upkeep-PoolsAreSound env settings input owner did pool_id volume_id node_id = (
  register_pool-PoolsAreSound env settings input owner did,
  pool_draft-PoolsAreSound (env.write 0) pool_id (beaten env) (λ p. refl) (λ p k. k),
  pool_draft-PoolsAreSound (env.write 0) pool_id (drained env) (λ p. refl) (λ p k. k),
  record {
    afterwards = λ s h. mutate_state-sound (env.write 0) (without_pool pool_id) s h (
      Distinct-filter (λ p. not (has_pool_id pool_id p)) s.live.shared_storage_pools h.distinct,
      All-filter IsWithin (λ p. not (has_pool_id pool_id p)) s.live.shared_storage_pools h.within,
    );
  },
  record {
    afterwards = λ s h.
        mutate_state-sound (env.write 0) (without_volume volume_id) s h (h.distinct, h.within);
  },
  record {
    afterwards = λ s h. elim (Bool-cases (is_provisioned (get_volume volume_id s.live))) [
      | inl e ↦ rw e (
          mutate_state-sound (env.write 0) (attach_draft env volume_id node_id) s h
            (h.distinct, h.within))
      | inr e ↦ rw e h
    ];
  },
)
