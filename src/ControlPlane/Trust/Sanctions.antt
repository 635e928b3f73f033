-- ===== src/ControlPlane/Trust/Sanctions.antt =====
-- A sanctioned node gets no replicas: quarantine, revocation and expiry against the scheduler.
use mathlib.Core.Path.{subst}
use nexus_cloud.Base.{
  Bool-cases, update_first, All, Any, All-weaken, Distinct, Stamp, Env, saved, ℕ, String, ◌≡◌, sym,
  ◌∙◌, ◌≢◌, inl, inr, Bool, true, false, not, ◌&&◌, Option, List, [], ◌∷◌, arith, ◌==◌, eq_iff,
}
use nexus_cloud.ControlPlane.Types.{
  NodeTrustState, NodeSpec, WorkloadSpec, PlacementDecision, is_ready,
}
use nexus_cloud.ControlPlane.Scheduler.{schedulable, plan_workload}
use nexus_cloud.ControlPlane.Scheduler.Shares.{IsFor, plan_workload-IsFor}
use nexus_cloud.ControlPlane.Trust.{
  quarantine, revoke, quarantine_node_trust, revoke_node_trust, is_due, refresh_node_heartbeat,
  apply_node_trust_expiry, expire_nodes,
}
use nexus_cloud.ControlPlane.Trust.Expiry.{expire_nodes_settled}
use nexus_cloud.State.Types.{PlatformState}
use nexus_cloud.State.{Store}

-- What a schedulable node of the list satisfies, the node of a decision satisfies.
plan_workload-All :
    (P : String → Type 0) (nodes : List NodeSpec) (w : WorkloadSpec)
    → All (λ n. schedulable n ≡ true → P n.id) nodes
    → All (λ d. P d.node_id) (plan_workload nodes w).decisions
plan_workload-All P nodes w h =
    All-weaken (λ d. P d.node_id) (λ d k. pick d nodes h k) (plan_workload nodes w).decisions
      (plan_workload-IsFor nodes w)
  where
    pick :
        (d : PlacementDecision) (ns : List NodeSpec)
        → All (λ n. schedulable n ≡ true → P n.id) ns
        → IsFor ns d
        → P d.node_id
    pick d [] a k = absurd k
    pick d (n ∷ ns) a (inl k) = subst P k.0 (a.0 k.1)
    pick d (n ∷ ns) a (inr k) = pick d ns a.1 k

-- Changing the first node with an id, where ids are distinct, changes every node with that id.
none_left :
    (node_id : String) (change : NodeSpec → NodeSpec) (nodes : List NodeSpec)
    → ((n : NodeSpec) → schedulable (change n) ≡ false)
    → Distinct (λ n. n.id) nodes
    → All
        (λ n. schedulable n ≡ true → n.id ≢ node_id)
        (update_first (λ n. n.id == node_id) change nodes)
none_left node_id change [] out d = tt
none_left node_id change (n ∷ ns) out d = elim (Bool-cases (n.id == node_id)) [
  | inl e ↦
      let same = (eq_iff n.id node_id).0 e in
      rw e (
        (λ s _. let no_longer = out n in cc),
        All-weaken (λ m. schedulable m ≡ true → m.id ≢ node_id) (λ m ne _ p. ne (p ∙ sym same)) ns
            d.0,
      )
  | inr e ↦
      rw e ((λ s p. let q = (eq_iff n.id node_id).1 p in cc), none_left node_id change ns out d.1)
]

-- Once an operator has quarantined or revoked a node, and the write has succeeded, no plan for any
-- workload places a replica on it, if node ids are distinct.
pub sanctioned_gets_nothing :
    (env : Env) (s : Store PlatformState) (node_id : String) (w : WorkloadSpec)
    → Distinct (λ n. n.id) s.live.nodes
    → env.write 0 ≡ saved
    → All
        (λ d. d.node_id ≢ node_id)
        (plan_workload (quarantine_node_trust env node_id s).1.live.nodes w).decisions
      × All
          (λ d. d.node_id ≢ node_id)
          (plan_workload (revoke_node_trust env node_id s).1.live.nodes w).decisions
unfolding quarantine_node_trust revoke_node_trust
sanctioned_gets_nothing env s node_id w d h = rw h (
  plan_workload-All (λ i. i ≢ node_id) _ w
      (none_left node_id (quarantine env) s.live.nodes (λ n. ground arith) d),
  plan_workload-All (λ i. i ≢ node_id) _ w
      (none_left node_id (revoke env) s.live.nodes (λ n. ground arith) d),
)

-- After a sweep at an instant, no plan places a replica on a node whose trust has run out by then,
-- unless another node with the same id is trusted for longer.
expired_gets_nothing :
    (now_at : ℕ) (s : Store PlatformState) (w : WorkloadSpec)
    → All
        (λ d.
          Any
            (λ n. (n.id ≡ d.node_id) × (schedulable n ≡ true) × (is_due now_at n ≡ false))
            (apply_node_trust_expiry saved now_at s).1.live.nodes)
        (plan_workload (apply_node_trust_expiry saved now_at s).1.live.nodes w).decisions
unfolding apply_node_trust_expiry
expired_gets_nothing now_at s w =
    All-weaken _
      (λ d k. joined d _ (expire_nodes_settled now_at now_at s.live.nodes (omega arith)).0 k)
      (plan_workload (expire_nodes now_at s.live.nodes).1 w).decisions
      (plan_workload-IsFor (expire_nodes now_at s.live.nodes).1 w)
  where
    joined :
        (d : PlacementDecision) (ns : List NodeSpec)
        → All (λ n. is_due now_at n ≡ false) ns
        → IsFor ns d
        → Any (λ n. (n.id ≡ d.node_id) × (schedulable n ≡ true) × (is_due now_at n ≡ false)) ns
    joined d [] a k = k
    joined d (n ∷ ns) a (inl k) = inl (k.0, k.1, a.0)
    joined d (n ∷ ns) a (inr k) = inr (joined d ns a.1 k)

abbrev pub is_sanctioned : NodeTrustState → Bool
is_sanctioned NodeTrustState.quarantined = true
is_sanctioned NodeTrustState.revoked = true
is_sanctioned _ = false

-- A heartbeat makes a node schedulable exactly if it was ready already and is neither quarantined
-- nor revoked: it renews trust that is pending or has expired, and lifts no sanction.
schedulable-refresh_node_heartbeat :
    (node : NodeSpec) (seen : Stamp) (clock : ℕ) (ttl : Option ℕ)
    → schedulable (refresh_node_heartbeat node seen clock ttl)
      ≡ (is_ready node.status && not (is_sanctioned node.trust_state))
unfolding refresh_node_heartbeat
schedulable-refresh_node_heartbeat node seen clock ttl = ground arith
