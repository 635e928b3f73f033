-- ===== src/ControlPlane/Scheduler/Shares.antt =====
-- How the replicas are shared out: all of them, evenly, and over schedulable nodes alone.
use native.Mathlib.Nat.{div-add-mod, mod-lt}
use nexus_cloud.Base.{
  ltb, Bool-cases, length, filter, All, Any, All-filter, filter-passes, All-weaken, Any-filter, ℕ,
  suc, ◌+◌, ◌*◌, ◌/◌, ◌%◌, ◌≤◌, ◌<◌, min, ◌≡◌, refl, ◌∙◌, ◌⊎◌, inl, inr, true, List, [], ◌∷◌, arith,
}
use nexus_cloud.ControlPlane.Types.{NodeSpec, WorkloadSpec, PlacementDecision}
use nexus_cloud.ControlPlane.Scheduler.{
  schedulable, share, decisions_from, plan_ready, plan_workload,
}

abbrev pub total_replicas : List PlacementDecision → ℕ
total_replicas [] = 0
total_replicas (d ∷ ds) = d.replicas + total_replicas ds

total-filter :
    (ds : List PlacementDecision)
    → total_replicas (filter (λ d. ltb 0 d.replicas) ds) ≡ total_replicas ds
total-filter [] = refl
total-filter (d ∷ ds) = ground (arith, total-filter ds)

-- The decisions from an index on carry the base for each node, and one more below the remainder.
total-decisions_from :
    (r n i : ℕ) (nodes : List NodeSpec)
    → total_replicas (decisions_from r n i nodes) + min (r % n) i
      ≡ length nodes * (r / n) + min (r % n) (i + length nodes)
unfolding decisions_from
total-decisions_from r n i [] = omega arith
total-decisions_from r n i (node ∷ nodes) = ground (arith, total-decisions_from r n (suc i) nodes)

-- Over all of a list of `n > 0` nodes the shares are the whole.
total-all :
    (r : ℕ) (nodes : List NodeSpec)
    → 0 < length nodes
    → total_replicas (decisions_from r (length nodes) 0 nodes) ≡ r
total-all r nodes h =
    omega (
      arith,
      total-decisions_from r (length nodes) 0 nodes,
      div-add-mod r (length nodes),
      mod-lt r h,
    )

-- Without a node there is no decision; with one, every replica is placed.
shared-plan_ready :
    (w : WorkloadSpec) (ready : List NodeSpec)
    → ((length ready ≡ 0) × ((plan_ready w ready).decisions ≡ []))
      ⊎ ((0 < length ready) × (total_replicas (plan_ready w ready).decisions ≡ w.replicas))
unfolding plan_ready
shared-plan_ready w [] = inl (refl, refl)
shared-plan_ready w (n ∷ ns) = inr (
  omega arith,
  total-filter (decisions_from w.replicas (length (n ∷ ns)) 0 (n ∷ ns))
      ∙ total-all w.replicas (n ∷ ns) (omega arith),
)

-- Either no node is ready and trust-eligible, and the plan has no decision, or some node is, and the
-- planned replicas add up to exactly the replicas that the workload asks for.
pub plan_workload_total :
    (nodes : List NodeSpec) (w : WorkloadSpec)
    → ((length (filter schedulable nodes) ≡ 0) × ((plan_workload nodes w).decisions ≡ []))
      ⊎ ((0 < length (filter schedulable nodes))
          × (total_replicas (plan_workload nodes w).decisions ≡ w.replicas))
unfolding plan_workload
plan_workload_total nodes w = shared-plan_ready w (filter schedulable nodes)

-- A decision within one replica of an even share of `r` over `n` nodes, and never empty.
abbrev pub IsFair : ℕ → ℕ → PlacementDecision → Type 0
IsFair r n d = (0 < d.replicas) × (r / n ≤ d.replicas) × (d.replicas ≤ r / n + 1)

-- A decision for one of the nodes, which is schedulable.
abbrev pub IsFor : List NodeSpec → PlacementDecision → Type 0
IsFor nodes d = Any (λ n. (n.id ≡ d.node_id) × (schedulable n ≡ true)) nodes

IsFair-decisions_from :
    (r n i : ℕ) (nodes : List NodeSpec)
    → All (IsFair r n) (filter (λ d. ltb 0 d.replicas) (decisions_from r n i nodes))
unfolding decisions_from
IsFair-decisions_from r n i [] = tt
IsFair-decisions_from r n i (node ∷ nodes) = elim (Bool-cases (ltb 0 (share r n i))) [
  | inl e ↦ rw e ((unfold share in ground arith), IsFair-decisions_from r n (suc i) nodes)
  | inr e ↦ rw e (IsFair-decisions_from r n (suc i) nodes)
]

IsFair-plan_ready :
    (w : WorkloadSpec) (ready : List NodeSpec)
    → All (IsFair w.replicas (length ready)) (plan_ready w ready).decisions
unfolding plan_ready
IsFair-plan_ready w [] = tt
IsFair-plan_ready w (n ∷ ns) = IsFair-decisions_from w.replicas (length (n ∷ ns)) 0 (n ∷ ns)

-- No node gets an empty decision, and any two decisions of a plan differ by at most one replica:
-- each is the even share of the schedulable nodes, or one more.
pub plan_workload-IsFair :
    (nodes : List NodeSpec) (w : WorkloadSpec)
    → All (IsFair w.replicas (length (filter schedulable nodes))) (plan_workload nodes w).decisions
unfolding plan_workload
plan_workload-IsFair nodes w = IsFair-plan_ready w (filter schedulable nodes)

IsFor-decisions_from :
    (r n i : ℕ) (nodes : List NodeSpec)
    → All (λ x. schedulable x ≡ true) nodes
    → All (IsFor nodes) (decisions_from r n i nodes)
unfolding decisions_from
IsFor-decisions_from r n i [] h = tt
IsFor-decisions_from r n i (node ∷ nodes) h = (
  inl (refl, h.0),
  All-weaken (IsFor (node ∷ nodes)) (λ d k. inr k) (decisions_from r n (suc i) nodes)
      (IsFor-decisions_from r n (suc i) nodes h.1),
)

IsFor-plan_ready :
    (w : WorkloadSpec) (ready : List NodeSpec)
    → All (λ x. schedulable x ≡ true) ready
    → All (IsFor ready) (plan_ready w ready).decisions
unfolding plan_ready
IsFor-plan_ready w [] h = tt
IsFor-plan_ready w (n ∷ ns) h =
    All-filter (IsFor (n ∷ ns)) (λ d. ltb 0 d.replicas)
      (decisions_from w.replicas (length (n ∷ ns)) 0 (n ∷ ns))
      (IsFor-decisions_from w.replicas (length (n ∷ ns)) 0 (n ∷ ns) h)

-- Every decision of a plan is for a registered node that is ready and neither quarantined, nor
-- revoked, nor expired.
pub plan_workload-IsFor :
    (nodes : List NodeSpec) (w : WorkloadSpec) → All (IsFor nodes) (plan_workload nodes w).decisions
unfolding plan_workload
plan_workload-IsFor nodes w =
    All-weaken (IsFor nodes)
      (λ d k. Any-filter (λ n. (n.id ≡ d.node_id) × (schedulable n ≡ true)) schedulable nodes k)
      (plan_ready w (filter schedulable nodes)).decisions
      (IsFor-plan_ready w (filter schedulable nodes) (filter-passes schedulable nodes))
