-- ===== src/ControlPlane/Scheduler.antt =====
-- Placement of a workload's replicas over the ready nodes: src/control-plane/scheduler.ts. The
-- text of a decision's reason is left out.
pub mod Shares
use nexus_cloud.Base.{
  ltb, if◌then◌else◌, length, filter, ℕ, suc, ◌+◌, ◌/◌, ◌%◌, Bool, ◌&&◌, List, [], ◌∷◌,
}
use nexus_cloud.ControlPlane.Types.{
  NodeSpec, WorkloadSpec, PlacementDecision, PlacementPlan, trust_eligible, is_ready,
}

-- The test of the `filter` at the head of `planWorkload`.
abbrev pub schedulable : NodeSpec → Bool
schedulable node = is_ready node.status && trust_eligible node.trust_state

-- `base + (index < remainder ? 1 : 0)`
unfoldable pub share : (replicas count index : ℕ) → ℕ
share replicas count index = replicas / count + (if ltb index (replicas % count) then 1 else 0)

-- `readyNodes.map((node, index) => …)`, from an index on.
unfoldable pub decisions_from : (replicas count index : ℕ) → List NodeSpec → List PlacementDecision
unfolding share
decisions_from replicas count index [] = []
decisions_from replicas count index (node ∷ nodes) =
    record { node_id = node.id; replicas = share replicas count index }
    ∷ decisions_from replicas count (suc index) nodes

-- The plan over `readyNodes`.
unfoldable pub plan_ready : WorkloadSpec → List NodeSpec → PlacementPlan
unfolding decisions_from
plan_ready workload [] = record { workload_id = workload.id; decisions = [] }
plan_ready workload (node ∷ nodes) =
    let ready = node ∷ nodes in
    record {
      workload_id = workload.id;
      decisions =
          filter (λ d. ltb 0 d.replicas) (decisions_from workload.replicas (length ready) 0 ready);
    }

unfoldable pub plan_workload : List NodeSpec → WorkloadSpec → PlacementPlan
unfolding plan_ready
plan_workload nodes workload = plan_ready workload (filter schedulable nodes)
