-- ===== src/Observability/Service/Effects.antt =====
-- What the steps that an operation is made of leave behind when they return.
use nexus_cloud.Base.{
  upsert, WriteOutcome, Env, Result, Action, saved, lost, replaced, ok, thrown, ◌≡◌, refl, sym, ap,
  ◌∙◌, arith, ◌==◌,
}
use nexus_cloud.Observability.Types.{ObservabilityEvent, HealthCheck, SignalKind, audit}
use nexus_cloud.Observability.Service.{
  in_platform, push_draft, check_draft, Platform, on_store, push_event, record_event,
  upsert_health_check, append_if_audit,
}
use nexus_cloud.State.Types.{PlatformState}
use nexus_cloud.State.{Store, mutate_state, save_result}

-- A mutation that returned left what its mutator left, in memory and in the file.
pub on_store-eq-ok :
    {A : Type 0} (w : WriteOutcome) (mutator : Action PlatformState A) (p q : Platform) (a : A)
    → on_store (mutate_state w mutator) p ≡ (ok a, q)
    → (mutator p.store.live ≡ (ok a, q.store.live)) × (q.store.file ≡ q.store.live)
unfolding mutate_state
on_store-eq-ok {A} w mutator p q a h = cases w (mutator p.store.live) h
  where
    cases :
        (w : WriteOutcome) (r : Result A × PlatformState)
        → in_platform p (save_result w r p.store) ≡ (ok a, q)
        → (r ≡ (ok a, q.store.live)) × (q.store.file ≡ q.store.live)
    cases saved (ok b, s) h = (ground arith, ground arith)
    cases lost (ok b, s) h = absurd (ground arith)
    cases replaced (ok b, s) h = absurd (ground arith)
    cases w (thrown e, s) h = absurd (ground arith)

append_if_audit-store :
    (w : WriteOutcome) (kind : SignalKind) (event : ObservabilityEvent) (p : Platform)
    → (append_if_audit w kind event p).store ≡ p.store
append_if_audit-store saved audit event p = refl
append_if_audit-store lost audit event p = refl
append_if_audit-store replaced audit event p = refl
append_if_audit-store w _ event p = refl

-- Recording an event that returned has pushed it, and left the rest of the state.
pub record_event-eq-ok :
    (env : Env) (event e : ObservabilityEvent) (p q : Platform)
    → record_event env event p ≡ (ok e, q)
    → q.store.live ≡ record p.store.live { events = push_event event p.store.live.events }
unfolding record_event
record_event-eq-ok env event e p q h =
    let appended = append_if_audit (env.write 0) event.kind event p in
    let (left, _) = on_store-eq-ok (env.write 1) (push_draft event) appended q e h in
    let same = append_if_audit-store (env.write 0) event.kind event p in
    let pushed : record appended.store.live { events = push_event event appended.store.live.events }
        ≡ q.store.live =
      ap (λ (r : Result ObservabilityEvent × PlatformState). r.1) left in
    sym pushed
    ∙ ap (λ (s : Store PlatformState). record s.live { events = push_event event s.live.events })
        same

pub upsert_health_check-eq-ok :
    (w : WriteOutcome) (check c : HealthCheck) (p q : Platform)
    → upsert_health_check w check p ≡ (ok c, q)
    → q.store.live ≡ record p.store.live {
      health_checks = upsert (λ item. item.id == check.id) check p.store.live.health_checks;
    }
unfolding upsert_health_check
upsert_health_check-eq-ok w check c p q h =
    let (left, _) = on_store-eq-ok w (check_draft check) p q c h in
    sym (ap (λ (r : Result HealthCheck × PlatformState). r.1) left)
