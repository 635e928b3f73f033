-- ===== src/ControlPlane/Admission.antt =====
-- The checks before a placement: src/control-plane/quota.ts and policy.ts.
use nexus_cloud.Base.{
  ltb, eqb, if◌then◌else◌, length, filter, String, Bool, true, false, ◌||◌, List,
}
use nexus_cloud.ControlPlane.Types.{WorkloadSpec, NodeSpec, trust_eligible}

pub data QuotaReasonCode : Type 0 where
  quota_invalid_resources quota_ok : QuotaReasonCode

pub record QuotaDecision : Type 0 where
  pub allowed : Bool
  pub reason_code : QuotaReasonCode
  pub reason : String

-- On whole numbers that are not negative, `<= 0` is `=== 0`.
unfoldable pub evaluate_quota : WorkloadSpec → QuotaDecision
evaluate_quota workload =
    if eqb workload.cpu_millicores 0 || eqb workload.memory_mb 0
    then record {
      allowed = false;
      reason_code = quota_invalid_resources;
      reason = "Workload must request positive CPU and memory";
    }
    else record { allowed = true; reason_code = quota_ok; reason = "Quota check passed" }

pub data PolicyReasonCode : Type 0 where
  policy_invalid_replicas policy_no_registered_nodes : PolicyReasonCode
  policy_only_untrusted_nodes policy_ok : PolicyReasonCode

pub record PolicyDecision : Type 0 where
  pub allowed : Bool
  pub reason_code : PolicyReasonCode
  pub reason : String

abbrev pub denied : PolicyReasonCode → String → PolicyDecision
denied code why = record { allowed = false; reason_code = code; reason = why }

unfoldable pub evaluate_placement_policy : WorkloadSpec → List NodeSpec → PolicyDecision
evaluate_placement_policy workload nodes =
    if ltb workload.replicas 1
    then denied policy_invalid_replicas "Workload must request at least one replica"
    else if eqb (length nodes) 0
    then denied policy_no_registered_nodes "No nodes are registered"
    else if eqb (length (filter (λ n. trust_eligible n.trust_state) nodes)) 0
    then denied policy_only_untrusted_nodes
        "No trust-eligible nodes available (all nodes are quarantined, revoked, or expired)"
    else record { allowed = true; reason_code = policy_ok; reason = "Placement policy passed" }
