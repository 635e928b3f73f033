-- ===== src/ControlPlane/Service/Planning.antt =====
-- The answers of the planning operation, and what it stores.
use nexus_cloud.Base.{
  eqb, Bool-cases, str-eq_self, length, filter, find, find-upsert_self, nil_of_length, WriteOutcome,
  ◌>>=◌, saved, lost, replaced, ok, ℕ, ◌<◌, String, ◌≡◌, refl, ◌≢◌, ◌⊎◌, inl, inr, true, false,
  Option, some, List, [], ◌∷◌, arith, ◌==◌,
}
use nexus_cloud.ControlPlane.Types.{
  NodeSpec, WorkloadSpec, PlacementPlan, PlacementDecision, trust_eligible,
}
use nexus_cloud.ControlPlane.Admission.{
  PolicyDecision, QuotaDecision, evaluate_quota, evaluate_placement_policy,
}
use nexus_cloud.ControlPlane.Scheduler.{schedulable, plan_workload}
use nexus_cloud.ControlPlane.Scheduler.Shares.{total_replicas, plan_workload_total}
use nexus_cloud.ControlPlane.Service.{success, failure, planned, admit, upsert_workload, plan}
use nexus_cloud.State.Types.{PlatformState}
use nexus_cloud.State.{Store, mutate_state}

-- The answer of a success: 200 with all the replicas placed, or 503 with an empty plan, because no
-- node is ready and trust-eligible.
abbrev pub IsPlanned : ℕ → PlacementPlan → WorkloadSpec → List NodeSpec → Type 0
IsPlanned status p workload nodes =
    ((status ≡ 200) × (total_replicas p.decisions ≡ workload.replicas))
    ⊎ ((status ≡ 503) × (p.decisions ≡ []) × (filter schedulable nodes ≡ []))

replicas_positive :
    (workload : WorkloadSpec) (nodes : List NodeSpec)
    → (evaluate_placement_policy workload nodes).allowed ≡ true
    → 0 < workload.replicas
unfolding evaluate_placement_policy
replicas_positive workload nodes h = ground arith

decisions_of_total :
    (ds : List PlacementDecision) → 0 < total_replicas ds → eqb (length ds) 0 ≡ false
decisions_of_total [] h = absurd (omega arith)
decisions_of_total (d ∷ ds) h = ground arith

planned_answer :
    (workload : WorkloadSpec) (nodes : List NodeSpec) (pol : PolicyDecision) (quo : QuotaDecision)
    (st : ℕ) (wl : WorkloadSpec) (p : PlacementPlan) (pol' : PolicyDecision) (quo' : QuotaDecision)
    (warn : Option String)
    → 0 < workload.replicas
    → planned workload (plan_workload nodes workload) pol quo ≡ success st wl p pol' quo' warn
    → IsPlanned st p workload nodes
planned_answer workload nodes pol quo st wl p pol' quo' warn h e =
    let plan = plan_workload nodes workload in
    elim (plan_workload_total nodes workload) [
      | inl (none_ready, no_decisions) ↦
          let empty = nil_of_length (filter schedulable nodes) (rw none_ready refl) in
          inr (ground arith, ground arith, empty)
      | inr (some_ready, all_placed) ↦
          let not_empty = decisions_of_total plan.decisions (rw all_placed h) in
          inl (ground arith, ground arith)
    ]

admit_success :
    (w : WriteOutcome) (workload : WorkloadSpec) (pol0 : PolicyDecision) (quo0 : QuotaDecision)
    (s t : Store PlatformState) (st : ℕ) (wl : WorkloadSpec) (p : PlacementPlan)
    (pol : PolicyDecision) (quo : QuotaDecision) (warn : Option String)
    → 0 < workload.replicas
    → admit w workload pol0 quo0 s ≡ (ok (success st wl p pol quo warn), t)
    → (find (λ item. item.id == workload.id) t.live.workloads ≡ some workload)
      × (t.file ≡ t.live)
      × (t.live.nodes ≡ s.live.nodes)
      × IsPlanned st p workload s.live.nodes
unfolding upsert_workload mutate_state ◌>>=◌
admit_success saved workload pol0 quo0 s t st wl p pol quo warn h e =
    let found =
      find-upsert_self (λ (x : WorkloadSpec). x.id == workload.id) workload s.live.workloads
        (str-eq_self workload.id) in
    (
      ground (arith, found),
      ground arith,
      ground arith,
      planned_answer workload s.live.nodes pol0 quo0 st wl p pol quo warn h (ground arith),
    )
admit_success lost workload pol0 quo0 s t st wl p pol quo warn h e = absurd (ground arith)
admit_success replaced workload pol0 quo0 s t st wl p pol quo warn h e = absurd (ground arith)

-- When planning succeeds, the workload is stored under its id, in memory and in the file, and the
-- nodes are those before. The answer is 200, and the plan places exactly the replicas asked for;
-- or it is 503 with an empty plan, and no registered node is ready and trust-eligible.
pub plan_success :
    (w : WriteOutcome) (workload : WorkloadSpec) (s t : Store PlatformState) (st : ℕ)
    (wl : WorkloadSpec) (p : PlacementPlan) (pol : PolicyDecision) (quo : QuotaDecision)
    (warn : Option String)
    → plan w workload s ≡ (ok (success st wl p pol quo warn), t)
    → (find (λ item. item.id == workload.id) t.live.workloads ≡ some workload)
      × (t.file ≡ t.live)
      × (t.live.nodes ≡ s.live.nodes)
      × IsPlanned st p workload s.live.nodes
unfolding plan
plan_success w workload s t st wl p pol quo warn e =
    let policy = evaluate_placement_policy workload s.live.nodes in
    let quota = evaluate_quota workload in
    elim (Bool-cases policy.allowed) [
      | inl allowed ↦
          admit_success w workload policy quota s t st wl p pol quo warn
            (replicas_positive workload s.live.nodes allowed) (ground arith)
      | inr refused ↦ absurd (ground arith)
    ]

policy_refusal :
    (workload : WorkloadSpec) (nodes : List NodeSpec)
    → (evaluate_placement_policy workload nodes).allowed ≡ false
    → (workload.replicas ≡ 0) ⊎ (filter (λ n. trust_eligible n.trust_state) nodes ≡ [])
unfolding evaluate_placement_policy
policy_refusal workload [] h = inr refl
policy_refusal workload (n ∷ ns) h =
    elim (Bool-cases (eqb (length (filter (λ n. trust_eligible n.trust_state) (n ∷ ns))) 0)) [
      | inl e ↦ inr (nil_of_length _ e)
      | inr e ↦ inl (ground arith)
    ]

quota_refusal :
    (workload : WorkloadSpec)
    → (evaluate_quota workload).allowed ≡ false
    → (workload.cpu_millicores ≡ 0) ⊎ (workload.memory_mb ≡ 0)
unfolding evaluate_quota
quota_refusal workload h = ground arith

admit_no_failure :
    (w : WriteOutcome) (workload : WorkloadSpec) (pol0 : PolicyDecision) (quo0 : QuotaDecision)
    (s t : Store PlatformState) (st : ℕ) (why : String) (pol : PolicyDecision)
    (quo : Option QuotaDecision)
    → admit w workload pol0 quo0 s ≢ (ok (failure st why pol quo), t)
unfolding upsert_workload mutate_state ◌>>=◌
admit_no_failure saved workload pol0 quo0 s t st why pol quo e = ground arith
admit_no_failure lost workload pol0 quo0 s t st why pol quo e = ground arith
admit_no_failure replaced workload pol0 quo0 s t st why pol quo e = ground arith

-- When planning is refused nothing changes, in memory or in the file. The answer is 409, and the
-- workload asks for no replicas or no registered node is trust-eligible; or it is 422, and the
-- workload asks for no CPU or no memory.
plan_failure :
    (w : WriteOutcome) (workload : WorkloadSpec) (s t : Store PlatformState) (st : ℕ) (why : String)
    (pol : PolicyDecision) (quo : Option QuotaDecision)
    → plan w workload s ≡ (ok (failure st why pol quo), t)
    → (t ≡ s)
      × (((st ≡ 409)
            × ((workload.replicas ≡ 0)
                ⊎ (filter (λ n. trust_eligible n.trust_state) s.live.nodes ≡ [])))
          ⊎ ((st ≡ 422) × ((workload.cpu_millicores ≡ 0) ⊎ (workload.memory_mb ≡ 0))))
unfolding plan
plan_failure w workload s t st why pol quo e =
    let policy = evaluate_placement_policy workload s.live.nodes in
    let quota = evaluate_quota workload in
    elim (Bool-cases policy.allowed) [
      | inl allowed ↦ elim (Bool-cases quota.allowed) [
        | inl granted ↦
            absurd (admit_no_failure w workload policy quota s t st why pol quo (ground arith))
        | inr short ↦
            let cause = quota_refusal workload short in (ground arith, inr (ground arith, cause))
      ]
      | inr refused ↦
          let cause = policy_refusal workload s.live.nodes refused in
          (ground arith, inl (ground arith, cause))
    ]
