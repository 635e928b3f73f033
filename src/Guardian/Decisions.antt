-- ===== src/Guardian/Decisions.antt =====
-- The ledger of decisions: the other operations of src/guardian/index.ts.
pub mod Ledger
use nexus_cloud.Base.{
  or_else, template, find, upsert, Env, later, now, Action, pure, gets, ◌>>=◌, ◌>>◌, ok, String,
  Bool, true, false, ◌&&◌, Option, none, some, List, [], ◌∷◌, ◌==◌,
}
use nexus_cloud.Observability.Types.{
  SignalKind, Level, HealthStatus, ObservabilityEvent, HealthCheck,
}
use nexus_cloud.Observability.Service.{Platform, on_store, record_event, upsert_health_check}
use nexus_cloud.State.Types.{PlatformState, GuardianScope, GuardianStatus, Actor, GuardianDecision}
use nexus_cloud.State.{mutate_state}

abbrev pub same_scope : GuardianScope → GuardianScope → Bool
same_scope GuardianScope.exposure GuardianScope.exposure = true
same_scope GuardianScope.domain GuardianScope.domain = true
same_scope GuardianScope.runtime GuardianScope.runtime = true
same_scope _ _ = false

-- `item.scope === scope && item.subjectId === subjectId`
abbrev pub decides : GuardianScope → String → GuardianDecision → Bool
decides scope subject_id item = same_scope item.scope scope && item.subject_id == subject_id

pub record DecisionInput : Type 0 where
  pub tool_id : String
  pub scope : GuardianScope
  pub subject_id : String
  pub status : GuardianStatus
  pub reason : String
  pub actor : Option Actor
  pub metadata : Option (List (String × String))

unfoldable pub create_decision_record : Env → DecisionInput → GuardianDecision
create_decision_record env input = record {
  id = template ("guardian_" ∷ env.uuid 0 ∷ []);
  tool_id = input.tool_id;
  scope = input.scope;
  subject_id = input.subject_id;
  status = input.status;
  reason = input.reason;
  actor = or_else input.actor Actor.system;
  created_at = now env 0;
  updated_at = now env 0;
  metadata = input.metadata;
}

abbrev pub status_text : GuardianStatus → String
status_text GuardianStatus.approved = "approved"
status_text GuardianStatus.denied = "denied"
status_text GuardianStatus.suspended = "suspended"
status_text GuardianStatus.quarantined = "quarantined"
status_text GuardianStatus.revoked = "revoked"

abbrev pub scope_text : GuardianScope → String
scope_text GuardianScope.exposure = "exposure"
scope_text GuardianScope.domain = "domain"
scope_text GuardianScope.runtime = "runtime"

-- `status === "approved" ? "info" : status === "denied" ? "error" : "warn"`
abbrev pub decision_level : GuardianStatus → Level
decision_level GuardianStatus.approved = Level.info
decision_level GuardianStatus.denied = Level.error
decision_level _ = Level.warn

abbrev pub decision_health : GuardianStatus → HealthStatus
decision_health GuardianStatus.approved = HealthStatus.healthy
decision_health GuardianStatus.denied = HealthStatus.offline
decision_health _ = HealthStatus.degraded

abbrev pub decision_event : GuardianDecision → ObservabilityEvent
decision_event decision = record {
  kind = SignalKind.audit;
  subject_id = decision.subject_id;
  message = template (
      "Guardian "
      ∷ status_text decision.status
      ∷ " "
      ∷ scope_text decision.scope
      ∷ " for "
      ∷ decision.tool_id
      ∷ ": "
      ∷ decision.reason
      ∷ []);
  timestamp = decision.updated_at;
  level = some (decision_level decision.status);
  source = some "guardian";
  metadata = or_else decision.metadata [];
}

abbrev pub decision_check : GuardianDecision → HealthCheck
decision_check decision = record {
  id = template ("guardian:" ∷ decision.subject_id ∷ []);
  subject = decision.subject_id;
  component = "guardian";
  status = decision_health decision.status;
  summary = template (scope_text decision.scope ∷ " " ∷ status_text decision.status ∷ []);
  checked_at = decision.updated_at;
  details = ("toolId", decision.tool_id) ∷ ("reason", decision.reason) ∷ [];
}

-- The mutator of `upsertDecision`.
unfoldable pub write_decision : GuardianDecision → Action PlatformState (Unit {0})
write_decision decision s = (
  ok tt,
  record s {
    guardian_decisions =
        upsert (decides decision.scope decision.subject_id) decision s.guardian_decisions;
  },
)

unfoldable pub upsert_decision : Env → GuardianDecision → Action Platform GuardianDecision
upsert_decision env decision = do
  on_store (mutate_state (env.write 0) (write_decision decision))
  record_event (later 1 env) (decision_event decision)
  upsert_health_check (env.write 3) (decision_check decision)
  pure decision

unfoldable pub get_guardian_decision :
    GuardianScope → String → PlatformState → Option GuardianDecision
get_guardian_decision scope subject_id s = find (decides scope subject_id) s.guardian_decisions

unfoldable pub record_guardian_decision : Env → DecisionInput → Action Platform GuardianDecision
unfolding create_decision_record
record_guardian_decision env input = upsert_decision env (create_decision_record env input)

-- The common body of the operator's four decisions.
unfoldable pub redecide :
    Env
    → GuardianStatus
    → String
    → Option GuardianDecision
    → Action Platform (Option GuardianDecision)
redecide env status reason none = pure none
redecide env status reason (some existing) = do
  decision ← upsert_decision env (record existing {
    status = status;
    reason = reason;
    actor = Actor.operator;
    updated_at = now env 0;
  })
  pure (some decision)

unfoldable pub operator_decision :
    GuardianStatus
    → String
    → Env
    → GuardianScope
    → String
    → Option String
    → Action Platform (Option GuardianDecision)
operator_decision status default_reason env scope subject_id reason = do
  existing ← gets (λ p. get_guardian_decision scope subject_id p.store.live)
  redecide env status (or_else reason default_reason) existing

unfoldable pub approve_guardian_decision :
    Env → GuardianScope → String → Option String → Action Platform (Option GuardianDecision)
unfolding operator_decision
approve_guardian_decision = operator_decision GuardianStatus.approved "Approved by operator"

unfoldable pub deny_guardian_decision :
    Env → GuardianScope → String → Option String → Action Platform (Option GuardianDecision)
unfolding operator_decision
deny_guardian_decision = operator_decision GuardianStatus.denied "Denied by operator"

unfoldable pub suspend_guardian_decision :
    Env → GuardianScope → String → Option String → Action Platform (Option GuardianDecision)
unfolding operator_decision
suspend_guardian_decision = operator_decision GuardianStatus.suspended "Suspended by operator"

unfoldable pub quarantine_guardian_decision :
    Env → GuardianScope → String → Option String → Action Platform (Option GuardianDecision)
unfolding operator_decision
quarantine_guardian_decision =
    operator_decision GuardianStatus.quarantined "Quarantined by operator"
