-- ===== src/Observability/Service.antt =====
-- Recording an event and a health check: src/observability/service.ts.
pub mod Recent
pub mod Effects
use nexus_cloud.Base.{
  ltb, if◌then◌else◌, length, upsert, drop, WriteOutcome, Env, Result, Action, saved, ok, ℕ, ◌-◌,
  List, [], ◌∷◌, ◌++◌, ◌==◌,
}
use nexus_cloud.Observability.Types.{SignalKind, audit, ObservabilityEvent, HealthCheck}
use nexus_cloud.State.Types.{PlatformState}
use nexus_cloud.State.{Store, mutate_state}

-- The platform store, and the lines of the durable audit log, oldest first.
pub record Platform : Type 0 where
  pub store : Store PlatformState
  pub audit_log : List ObservabilityEvent

-- An operation on the store, in the platform.
abbrev pub in_platform {ℓ} :
    {A : Type ℓ} → Platform → Result A × Store PlatformState → Result A × Platform
in_platform p (r, s) = (r, record p { store = s })

abbrev pub on_store {ℓ} :
    {A : Type ℓ}
    → (Store PlatformState → Result A × Store PlatformState)
    → Platform
    → Result A × Platform
on_store m p = in_platform p (m p.store)

-- `appendAuditEntry`: a line is appended, or the failure is swallowed.
abbrev pub append_audit_entry : WriteOutcome → ObservabilityEvent → Platform → Platform
append_audit_entry saved event p = record p { audit_log = p.audit_log ++ event ∷ [] }
append_audit_entry _ event p = p

abbrev pub append_if_audit : WriteOutcome → SignalKind → ObservabilityEvent → Platform → Platform
append_if_audit w audit event p = append_audit_entry w event p
append_if_audit w _ event p = p

abbrev pub max_state_events : ℕ
max_state_events = 500

-- `events.push(event)`, and the splice at the front that holds the list at the cap.
unfoldable pub push_event : ObservabilityEvent → List ObservabilityEvent → List ObservabilityEvent
push_event event events =
    let pushed = events ++ event ∷ [] in
    if ltb max_state_events (length pushed)
    then drop (length pushed - max_state_events) pushed
    else pushed

-- The mutators of `recordEvent` and `upsertHealthCheck`.
abbrev pub push_draft : ObservabilityEvent → Action PlatformState ObservabilityEvent
push_draft event s = (ok event, record s { events = push_event event s.events })

abbrev pub check_draft : HealthCheck → Action PlatformState HealthCheck
check_draft check s = (
  ok check,
  record s { health_checks = upsert (λ item. item.id == check.id) check s.health_checks },
)

unfoldable pub record_event : Env → ObservabilityEvent → Action Platform ObservabilityEvent
unfolding push_event mutate_state
record_event env event p =
    on_store (mutate_state (env.write 1) (push_draft event))
      (append_if_audit (env.write 0) event.kind event p)

unfoldable pub upsert_health_check : WriteOutcome → HealthCheck → Action Platform HealthCheck
unfolding mutate_state
upsert_health_check w check = on_store (mutate_state w (check_draft check))
