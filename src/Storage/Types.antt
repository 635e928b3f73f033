-- ===== src/Storage/Types.antt =====
-- Volumes and shared storage pools: src/storage/index.ts. The deprecated credential fields of a
-- pool, which every snapshot drops, are left out.
use nexus_cloud.Base.Int.{ℤ}
use nexus_cloud.Base.{Stamp, ℕ, String, Option, List}
use nexus_cloud.Federation.Types.{PoolStatus}

pub data StorageKind : Type 0 where
  object block snapshot : StorageKind

pub data Backend : Type 0 where
  minio unbacked shared : Backend

pub data VolumeStatus : Type 0 where
  provisioning provisioned failed : VolumeStatus

pub record SharedStoragePool : Type 0 where
  pub id : String
  pub name : String
  pub owner_node_id : String
  pub owner_node_did : String
  pub endpoint : String
  pub region : String
  pub total_capacity_gb : ℕ
  pub available_capacity_gb : ℤ
  pub status : PoolStatus
  pub tags : List String
  pub replication_factor : ℕ
  pub created_at : Stamp
  pub updated_at : Stamp
  pub last_heartbeat_at : Option Stamp

pub record StorageVolume : Type 0 where
  pub id : String
  pub name : String
  pub class_name : String
  pub kind : StorageKind
  pub size_gb : ℕ
  pub backend : Backend
  pub bucket : String
  pub endpoint : String
  pub status : VolumeStatus
  pub attached_to_node_id : Option String
  pub pool_id : Option String
  pub pool_owner_did : Option String
  pub created_at : Stamp
  pub updated_at : Stamp
