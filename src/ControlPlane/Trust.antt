-- ===== src/ControlPlane/Trust.antt =====
-- Registration of nodes, their trust states and the expiry of trust: src/control-plane/
-- registration.ts, and the trust operations of service.ts. `ttl` is what `Number` makes of
-- NEXUS_CLOUD_NODE_TRUST_TTL_HOURS, none where that is not finite.
pub mod Expiry
pub mod Sanctions
use nexus_cloud.Base.{
  leb, if◌then◌else◌, or_else, template, find, update_first, Stamp, parse_stamp, WriteOutcome, Env,
  now, Action, at, ok, ℕ, suc, ◌+◌, ◌*◌, max, String, Bool, true, false, not, ◌&&◌, Option, none,
  some, List, [], ◌∷◌, ◌++◌, ◌==◌,
}
use mathlib.Core.Option
use nexus_cloud.ControlPlane.Types.{NodeStatus, NodeTrustState, NodeRegistrationRequest, NodeSpec}
use nexus_cloud.State.Types.{PlatformState}
use nexus_cloud.State.{Store, mutate_state}

abbrev pub node_trust_ttl_hours : Option ℕ → ℕ
node_trust_ttl_hours none = 168
node_trust_ttl_hours (some raw) = max 1 raw

-- `new Date(Date.now() + ttlHours * 60 * 60 * 1000).toISOString()`
abbrev pub trust_expiry_date : ℕ → ℕ → Stamp
trust_expiry_date clock ttl_hours = at (clock + ttl_hours * 60 * 60 * 1000)

unfoldable pub create_registered_node : Env → Option ℕ → NodeRegistrationRequest → NodeSpec
create_registered_node env ttl input = record {
  id = template ("node_" ∷ env.uuid 0 ∷ []);
  name = input.name;
  region = input.region;
  zone = input.zone;
  labels = or_else input.labels [];
  capacity = input.capacity;
  status = NodeStatus.ready;
  trust_state = NodeTrustState.verified;
  trust_updated_at = some (now env 0);
  trust_expires_at = some (trust_expiry_date (env.clock 1) (node_trust_ttl_hours ttl));
  last_seen_at = some (now env 0);
}

unfoldable pub register_node :
    Env → Option ℕ → NodeRegistrationRequest → Action (Store PlatformState) NodeSpec
unfolding create_registered_node mutate_state
register_node env ttl input =
    let node = create_registered_node env ttl input in
    mutate_state (env.write 0) (λ s. (ok node, record s { nodes = s.nodes ++ node ∷ [] }))

-- `state === "expired" || state === "pending" ? "trusted" : state`
abbrev pub revive : NodeTrustState → NodeTrustState
revive NodeTrustState.expired = NodeTrustState.trusted
revive NodeTrustState.pending = NodeTrustState.trusted
revive other = other

-- `status === "offline" ? "pending" : status`
abbrev pub wake : NodeStatus → NodeStatus
wake NodeStatus.offline = NodeStatus.pending
wake other = other

-- `status === "ready" ? to : status`
abbrev pub leave_ready : NodeStatus → NodeStatus → NodeStatus
leave_ready to NodeStatus.ready = to
leave_ready to other = other

unfoldable pub refresh_node_heartbeat : NodeSpec → Stamp → ℕ → Option ℕ → NodeSpec
refresh_node_heartbeat node last_seen_at clock ttl = record node {
  last_seen_at = some last_seen_at;
  trust_state = revive node.trust_state;
  trust_updated_at = some last_seen_at;
  trust_expires_at = some (trust_expiry_date clock (node_trust_ttl_hours ttl));
  status = wake node.status;
}

-- The common frame of the three trust operations: the first node with the id is changed.
unfoldable pub change_node :
    WriteOutcome → String → (NodeSpec → NodeSpec) → Action (Store PlatformState) (Option NodeSpec)
unfolding mutate_state
change_node w node_id change = mutate_state w (λ s. (
  ok (Option.map change (find (λ n. n.id == node_id) s.nodes)),
  record s { nodes = update_first (λ n. n.id == node_id) change s.nodes },
))

abbrev pub promoted : Env → Option ℕ → NodeSpec → NodeSpec
promoted env ttl node = record node {
  trust_state = NodeTrustState.trusted;
  trust_updated_at = some (now env 0);
  trust_expires_at = some (trust_expiry_date (env.clock 1) (node_trust_ttl_hours ttl));
  status = wake node.status;
}

unfoldable pub promote_node_trust :
    Env → Option ℕ → String → Action (Store PlatformState) (Option NodeSpec)
unfolding change_node
promote_node_trust env ttl node_id = change_node (env.write 0) node_id (promoted env ttl)

abbrev pub quarantine : Env → NodeSpec → NodeSpec
quarantine env node = record node {
  trust_state = NodeTrustState.quarantined;
  trust_updated_at = some (now env 0);
  status = leave_ready NodeStatus.draining node.status;
}

unfoldable pub quarantine_node_trust : Env → String → Action (Store PlatformState) (Option NodeSpec)
unfolding change_node
quarantine_node_trust env node_id = change_node (env.write 0) node_id (quarantine env)

abbrev pub revoke : Env → NodeSpec → NodeSpec
revoke env node = record node {
  trust_state = NodeTrustState.revoked;
  trust_updated_at = some (now env 0);
  status = NodeStatus.offline;
}

unfoldable pub revoke_node_trust : Env → String → Action (Store PlatformState) (Option NodeSpec)
unfolding change_node
revoke_node_trust env node_id = change_node (env.write 0) node_id (revoke env)

-- `state === "revoked" || state === "expired"`
abbrev pub is_final : NodeTrustState → Bool
is_final NodeTrustState.revoked = true
is_final NodeTrustState.expired = true
is_final _ = false

-- The four `continue`s of the expiry loop: a missing or unreadable expiry, a final state, or an
-- expiry that is still to come.
abbrev pub has_passed : ℕ → Option ℕ → Bool
has_passed now_at none = false
has_passed now_at (some ms) = leb ms now_at

abbrev pub is_due : ℕ → NodeSpec → Bool
is_due now_at node =
    not (is_final node.trust_state)
    && has_passed now_at (Option.bind node.trust_expires_at parse_stamp)

abbrev pub expire : ℕ → NodeSpec → NodeSpec
expire now_at node = record node {
  trust_state = NodeTrustState.expired;
  trust_updated_at = some (at now_at);
  status = leave_ready NodeStatus.pending node.status;
}

-- The loop of `applyNodeTrustExpiry`, with its counter.
unfoldable pub expire_nodes : ℕ → List NodeSpec → ℕ × List NodeSpec
expire_nodes now_at [] = (0, [])
expire_nodes now_at (node ∷ nodes) =
    let (count, rest) = expire_nodes now_at nodes in
    if is_due now_at node then (suc count, expire now_at node ∷ rest) else (count, node ∷ rest)

unfoldable pub apply_node_trust_expiry : WriteOutcome → ℕ → Action (Store PlatformState) ℕ
unfolding expire_nodes mutate_state
apply_node_trust_expiry w now_at =
    mutate_state w (λ s.
      let (count, next) = expire_nodes now_at s.nodes in (ok count, record s { nodes = next }))
