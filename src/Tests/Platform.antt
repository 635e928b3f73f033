-- ===== src/Tests/Platform.antt =====
-- The state, the control plane, the observability service, maintenance and the guardian at concrete
-- inputs.
use nexus_cloud.Base.{
  length, filter, All, Action, saved, ok, ℕ, suc, ◌<◌, String, ◌≡◌, refl, ◌≢◌, ◌⊎◌, List, [], ◌∷◌,
  ◌++◌, eq_iff,
}
use nexus_cloud.ControlPlane.Scheduler.{plan_workload, schedulable}
use nexus_cloud.ControlPlane.Scheduler.Shares.{
  total_replicas, IsFair, plan_workload_total, plan_workload-IsFair,
}
use nexus_cloud.ControlPlane.Trust.{quarantine_node_trust, revoke_node_trust}
use nexus_cloud.ControlPlane.Trust.Sanctions.{sanctioned_gets_nothing}
use nexus_cloud.State.{mutate_state}
use nexus_cloud.State.Atomicity.{Committed, RolledBack, mutate_state_atomic}
use nexus_cloud.Observability.Types.{ObservabilityEvent}
use nexus_cloud.Observability.Service.{push_event}
use nexus_cloud.Observability.Service.Recent.{push_event_recent}
use nexus_cloud.Tests.Data.{env, two_nodes, workload, event, store}

plan_workload_total_example :
    ((length (filter schedulable two_nodes) ≡ 0)
      × ((plan_workload two_nodes workload).decisions ≡ []))
    ⊎ ((0 < length (filter schedulable two_nodes))
        × (total_replicas (plan_workload two_nodes workload).decisions ≡ 3))
plan_workload_total_example = plan_workload_total two_nodes workload

plan_workload-IsFair_example :
    All
      (IsFair 3 (length (filter schedulable two_nodes)))
      (plan_workload two_nodes workload).decisions
plan_workload-IsFair_example = plan_workload-IsFair two_nodes workload

sanctioned_gets_nothing_example :
    All
      (λ d. d.node_id ≢ "n1")
      (plan_workload (quarantine_node_trust env "n1" store).1.live.nodes workload).decisions
    × All
        (λ d. d.node_id ≢ "n1")
        (plan_workload (revoke_node_trust env "n1" store).1.live.nodes workload).decisions
sanctioned_gets_nothing_example =
    sanctioned_gets_nothing env store "n1" workload
      (((λ q. let k = (eq_iff "n2" "n1").1 q in cc k), tt), (tt, tt)) refl

-- A counter that a mutator raises.
abbrev raise : Action ℕ String
raise n = (ok "raised", suc n)

mutate_state_atomic_example :
    Committed (ok "raised", 4) (mutate_state saved raise (record { live = 3; file = 3 }))
    ⊎ RolledBack saved
        (ok "raised", 4)
        (record { live = 3; file = 3 })
        (mutate_state saved raise (record { live = 3; file = 3 }))
mutate_state_atomic_example = mutate_state_atomic saved raise (record { live = 3; file = 3 })

push_event_recent_example :
    ((gone : List ObservabilityEvent) × (event ∷ event ∷ []
        ≡ gone ++ push_event event (event ∷ [])))
    × (length (push_event event (event ∷ [])) ≡ 2)
push_event_recent_example = push_event_recent event (event ∷ [])
