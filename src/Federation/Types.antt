-- ===== src/Federation/Types.antt =====
-- Federation peers and the pools they share: src/federation/index.ts, and FederationTrust of
-- src/architecture.ts.
use nexus_cloud.Base.Int.{ℤ}
use nexus_cloud.Base.{Stamp, ℕ, String, Bool, true, false, Option, List}

pub data PeerStatus : Type 0 where
  unknown healthy degraded blocked : PeerStatus

pub data PeerTrustState : Type 0 where
  pending verified trusted quarantined revoked expired : PeerTrustState

pub record FederationTrust : Type 0 where
  pub identity : String
  pub issuer : String
  pub audience : String
  pub public_key_hint : String
  pub signature_scheme : String
  pub expires_at : Stamp

pub data PoolStatus : Type 0 where
  active draining offline : PoolStatus

pub record SharedStoragePoolSummary : Type 0 where
  pub id : String
  pub name : String
  pub endpoint : String
  pub region : String
  pub total_capacity_gb : ℕ
  pub available_capacity_gb : ℤ
  pub status : PoolStatus
  pub replication_factor : ℕ
  pub tags : List String
  pub owner_node_id : String
  pub owner_node_did : String
  pub last_heartbeat_at : Option Stamp

pub record FederationPeer : Type 0 where
  pub domain : String
  pub did : Option String
  pub trust : FederationTrust
  pub trust_state : PeerTrustState
  pub trust_updated_at : Option Stamp
  pub trust_expires_at : Option Stamp
  pub status : PeerStatus
  pub last_seen_at : Option Stamp
  pub version : Option String
  pub storage_pools : Option (List SharedStoragePoolSummary)

-- `trustState === "trusted"`
abbrev pub is_trusted : PeerTrustState → Bool
is_trusted PeerTrustState.trusted = true
is_trusted _ = false
