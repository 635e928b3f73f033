-- ===== src/ControlPlane/Types.antt =====
-- Nodes, workloads and placement plans: src/control-plane/types.ts. Optional fields are options,
-- text dictionaries association lists; resource numbers are whole and not negative.
use nexus_cloud.Base.{Stamp, ℕ, String, Bool, true, false, Option, List}

pub data NodeStatus : Type 0 where
  pending ready draining offline : NodeStatus

pub data NodeTrustState : Type 0 where
  pending verified trusted quarantined revoked expired : NodeTrustState

pub record NodeCapacity : Type 0 where
  pub cpu : ℕ
  pub memory_mb : ℕ
  pub storage_gb : ℕ
  pub public_ipv4 : Option String

pub record NodeSpec : Type 0 where
  pub id : String
  pub name : String
  pub region : String
  pub zone : String
  pub labels : List (String × String)
  pub capacity : NodeCapacity
  pub status : NodeStatus
  pub trust_state : NodeTrustState
  pub trust_expires_at : Option Stamp
  pub trust_updated_at : Option Stamp
  pub last_seen_at : Option Stamp

pub record NodeRegistrationRequest : Type 0 where
  pub name : String
  pub region : String
  pub zone : String
  pub labels : Option (List (String × String))
  pub capacity : NodeCapacity

pub data WorkloadRuntime : Type 0 where
  container vm function : WorkloadRuntime

pub record WorkloadSpec : Type 0 where
  pub id : String
  pub name : String
  pub image : String
  pub replicas : ℕ
  pub cpu_millicores : ℕ
  pub memory_mb : ℕ
  pub env : List (String × String)
  pub ports : List ℕ
  pub runtime : WorkloadRuntime
  pub storage : List String

pub record PlacementDecision : Type 0 where
  pub node_id : String
  pub replicas : ℕ

pub record PlacementPlan : Type 0 where
  pub workload_id : String
  pub decisions : List PlacementDecision

-- `state !== "quarantined" && state !== "revoked" && state !== "expired"`
abbrev pub trust_eligible : NodeTrustState → Bool
trust_eligible NodeTrustState.quarantined = false
trust_eligible NodeTrustState.revoked = false
trust_eligible NodeTrustState.expired = false
trust_eligible _ = true

-- `status === "ready"`
abbrev pub is_ready : NodeStatus → Bool
is_ready NodeStatus.ready = true
is_ready _ = false
