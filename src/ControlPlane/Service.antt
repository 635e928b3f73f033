-- ===== src/ControlPlane/Service.antt =====
-- The planning operation of src/control-plane/service.ts, with upsertWorkload of placement.ts.
pub mod Planning
use nexus_cloud.Base.{
  eqb, if◌then◌else◌, length, upsert, WriteOutcome, Action, pure, gets, ◌>>=◌, ok, ℕ, String, not,
  Option, none, some, ◌==◌,
}
use nexus_cloud.ControlPlane.Types.{WorkloadSpec, PlacementPlan}
use nexus_cloud.ControlPlane.Admission.{
  PolicyDecision, QuotaDecision, evaluate_quota, evaluate_placement_policy,
}
use nexus_cloud.ControlPlane.Scheduler.{plan_workload}
use nexus_cloud.State.Types.{PlatformState}
use nexus_cloud.State.{Store, mutate_state}

-- The success carries status 200 or 503 and its warning, the failure status 409 or 422.
pub data PlanningResult : Type 0 where
  success :
      (status : ℕ)
      → WorkloadSpec
      → PlacementPlan
      → PolicyDecision
      → QuotaDecision
      → Option String
      → PlanningResult
  failure : (status : ℕ) → String → PolicyDecision → Option QuotaDecision → PlanningResult

unfoldable pub upsert_workload :
    WriteOutcome → WorkloadSpec → Action (Store PlatformState) WorkloadSpec
unfolding mutate_state
upsert_workload w workload = mutate_state w (λ s. (
  ok workload,
  record s { workloads = upsert (λ item. item.id == workload.id) workload s.workloads },
))

-- The end of `planWorkload`, by the decisions of the plan.
abbrev pub planned : WorkloadSpec → PlacementPlan → PolicyDecision → QuotaDecision → PlanningResult
planned workload plan policy quota =
    if eqb (length plan.decisions) 0
    then success 503 workload plan policy quota (some "No trust-eligible ready nodes available")
    else success 200 workload plan policy quota none

abbrev pub admit :
    WriteOutcome
    → WorkloadSpec
    → PolicyDecision
    → QuotaDecision
    → Action (Store PlatformState) PlanningResult
admit w workload policy quota = do
  persisted ← upsert_workload w workload
  nodes ← gets (λ s. s.live.nodes)
  pure (planned persisted (plan_workload nodes persisted) policy quota)

unfoldable pub plan : WriteOutcome → WorkloadSpec → Action (Store PlatformState) PlanningResult
unfolding upsert_workload evaluate_quota evaluate_placement_policy plan_workload ◌>>=◌
plan w workload s =
    let policy = evaluate_placement_policy workload s.live.nodes in
    let quota = evaluate_quota workload in
    if not policy.allowed
    then (ok (failure 409 policy.reason policy none), s)
    else if not quota.allowed
    then (ok (failure 422 quota.reason policy (some quota)), s)
    else admit w workload policy quota s
