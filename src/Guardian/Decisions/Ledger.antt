-- ===== src/Guardian/Decisions/Ledger.antt =====
-- The ledger answers with the last decision on each scope and subject.
use nexus_cloud.Base.{
  if◌then◌else◌, Bool-cases, or_else, &&-eq-true, find, upsert, find-passes, find-upsert_self,
  find-upsert_other, Env, later, now, ◌>>=◌, bind-eq-ok, ok, String, ◌≡◌, refl, ◌∙◌, ◌↔◌, inl, inr,
  true, ◌&&◌, Option, none, some, List, arith, ◌==◌, eq_iff,
}
use nexus_cloud.Observability.Service.{Platform}
use nexus_cloud.Observability.Service.Effects.{
  on_store-eq-ok, record_event-eq-ok, upsert_health_check-eq-ok,
}
use nexus_cloud.State.Types.{GuardianScope, GuardianStatus, Actor, GuardianDecision}
use nexus_cloud.Guardian.Decisions.{
  same_scope, decides, DecisionInput, create_decision_record, write_decision, upsert_decision,
  get_guardian_decision, record_guardian_decision, redecide, operator_decision, decision_event,
  decision_check,
}

same_scope_iff : (a b : GuardianScope) → (same_scope a b ≡ true) ↔ (a ≡ b)
same_scope_iff a b = ground arith

-- What a return of `upsertDecision` means for the ledger.
pub upsert_decision-eq-ok :
    (env : Env) (decision d : GuardianDecision) (p q : Platform)
    → upsert_decision env decision p ≡ (ok d, q)
    → (d ≡ decision)
      × (q.store.live.guardian_decisions
          ≡ upsert
              (decides decision.scope decision.subject_id)
              decision
              p.store.live.guardian_decisions)
unfolding upsert_decision write_decision
upsert_decision-eq-ok env decision d p q h =
    let (done, p1, e1, k1) = bind-eq-ok _ _ p h in
    let (event, p2, e2, k2) = bind-eq-ok _ _ p1 k1 in
    let (check, p3, e3, k3) = bind-eq-ok _ _ p2 k2 in
    let (written, _) = on_store-eq-ok (env.write 0) (write_decision decision) p p1 done e1 in
    let recorded = record_event-eq-ok (later 1 env) (decision_event decision) event p1 p2 e2 in
    let checked =
      upsert_health_check-eq-ok (env.write 3) (decision_check decision) check p2 p3 e3 in
    (ground arith, ground arith)

find-decision :
    (scope scope' : GuardianScope) (subject subject' : String) (d : GuardianDecision)
    (ds : List GuardianDecision)
    → d.scope ≡ scope
    → d.subject_id ≡ subject
    → find (decides scope' subject') (upsert (decides scope subject) d ds) ≡ (
        if same_scope scope scope' && subject == subject'
        then some d
        else find (decides scope' subject') ds)
find-decision scope scope' subject subject' d ds hs hn =
    elim (Bool-cases (same_scope scope scope' && subject == subject')) [
      | inl e ↦
          let (es, en) = &&-eq-true _ _ e in
          let scopes = (same_scope_iff scope scope').0 es in
          let subjects = (eq_iff subject subject').0 en in
          let hit : decides scope' subject' d ≡ true = rw (hs, hn, es, en) in
          rw (e, scopes, subjects) (find-upsert_self (decides scope' subject') d ds hit)
      | inr e ↦ rw e (
          find-upsert_other (decides scope subject) (decides scope' subject') d ds (rw (hs, hn) e)
            (λ x k.
              let (ks, kn) = &&-eq-true _ _ k in
              let of_scope = (same_scope_iff x.scope scope).0 ks in
              let of_subject = (eq_iff x.subject_id subject).0 kn in rw (of_scope, of_subject) e))
    ]

-- When recording a decision returns, it carries the status and reason that were given, and the
-- ledger answers with it for its scope and subject, and for every other scope or subject with what
-- it answered before.
pub record_guardian_decision_found :
    (env : Env) (input : DecisionInput) (d : GuardianDecision) (p q : Platform)
    (scope : GuardianScope) (subject_id : String)
    → record_guardian_decision env input p ≡ (ok d, q)
    → (d.status ≡ input.status)
      × (d.reason ≡ input.reason)
      × (get_guardian_decision scope subject_id q.store.live ≡ (
          if same_scope input.scope scope && input.subject_id == subject_id
          then some d
          else get_guardian_decision scope subject_id p.store.live))
unfolding record_guardian_decision get_guardian_decision create_decision_record
record_guardian_decision_found env input d p q scope subject_id h =
    let (same, left) = upsert_decision-eq-ok env (create_decision_record env input) d p q h in
    (
      rw same,
      rw same,
      rw (left, same)
          (find-decision input.scope scope input.subject_id subject_id
            (create_decision_record env input) p.store.live.guardian_decisions refl refl),
    )

-- An operator's decision on a subject without one answers none and changes nothing.
operator_decision-none :
    (status : GuardianStatus) (default_reason : String) (env : Env) (scope : GuardianScope)
    (subject_id : String) (reason : Option String) (p : Platform)
    → get_guardian_decision scope subject_id p.store.live ≡ none
    → operator_decision status default_reason env scope subject_id reason p ≡ (ok none, p)
unfolding operator_decision redecide ◌>>=◌
operator_decision-none status default_reason env scope subject_id reason p h = rw h

-- An operator's decision that returns `d` was about a subject with a decision. It keeps the tool,
-- the creation time and the id of that one, has the operator's status and reason, and is what the
-- ledger answers for the subject from then on.
operator_decision_found :
    (status : GuardianStatus) (default_reason : String) (env : Env) (scope : GuardianScope)
    (subject_id : String) (reason : Option String) (d : GuardianDecision) (p q : Platform)
    → operator_decision status default_reason env scope subject_id reason p ≡ (ok (some d), q)
    → (before : GuardianDecision) × (get_guardian_decision scope subject_id p.store.live
        ≡ some before)
      × (d ≡ record before {
        status = status;
        reason = or_else reason default_reason;
        actor = Actor.operator;
        updated_at = now env 0;
      })
      × (get_guardian_decision scope subject_id q.store.live ≡ some d)
unfolding operator_decision get_guardian_decision redecide
operator_decision_found status default_reason env scope subject_id reason d p q h =
    let (existing, p0, e0, k0) = bind-eq-ok _ _ p h in
    let read : get_guardian_decision scope subject_id p.store.live ≡ existing = ground arith in
    let same : p ≡ p0 = ground arith in
    let (before, found, made, left) = redecided existing p0 k0 in
    (
      before,
      read ∙ found,
      made,
      left (
          find-passes (decides scope subject_id) p.store.live.guardian_decisions before
            (read ∙ found)),
    )
  where
    redecided :
        (existing : Option GuardianDecision) (p0 : Platform)
        → redecide env status (or_else reason default_reason) existing p0 ≡ (ok (some d), q)
        → (before : GuardianDecision) × (existing ≡ some before)
          × (d ≡ record before {
            status = status;
            reason = or_else reason default_reason;
            actor = Actor.operator;
            updated_at = now env 0;
          })
          × (decides scope subject_id before ≡ true
              → find (decides scope subject_id) q.store.live.guardian_decisions ≡ some d)
    redecided none p0 k = absurd (ground arith)
    redecided (some before) p0 k =
        let (decision, p1, e1, k1) = bind-eq-ok _ _ p0 k in
        let new : GuardianDecision = record before {
          status = status;
          reason = or_else reason default_reason;
          actor = Actor.operator;
          updated_at = now env 0;
        } in
        let (made, left) = upsert_decision-eq-ok env new decision p0 p1 e1 in
        let here =
          find-decision before.scope scope before.subject_id subject_id new
            p0.store.live.guardian_decisions refl refl in
        (
          before,
          refl,
          ground arith,
          λ hit.
              let stored : find (decides scope subject_id) p1.store.live.guardian_decisions
                  ≡ some new =
                rw left (here ∙ rw hit refl) in
              ground arith,
        )
