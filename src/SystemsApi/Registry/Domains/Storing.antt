-- ===== src/SystemsApi/Registry/Domains/Storing.antt =====
-- That a binding which is made or verified is stored: the domain operations of
-- src/systems-api/registry.ts.
use nexus_cloud.Base.{
  str-eq_self, template, find-passes, find-upsert_self, Stamp, Env, later, now, ◌>>=◌, saved, ok,
  ◌+◌, String, ◌≡◌, refl, sym, ap, ◌∙◌, Option, none, some, [], ◌∷◌, ◌==◌, eq_iff,
}
use nexus_cloud.State.{Store, save_state, mutate_state}
use nexus_cloud.DataPlane.Service.Returning.{AllSaved}
use nexus_cloud.Observability.Types.{ObservabilityEvent}
use nexus_cloud.Observability.Service.{Platform, record_event, upsert_health_check}
use nexus_cloud.Guardian.Decisions.{
  DecisionInput, record_guardian_decision, upsert_decision, write_decision,
}
use nexus_cloud.State.Types.{GuardianScope, GuardianStatus, GuardianDecision}
use nexus_cloud.Guardian.Policy.{evaluate_guardian_request}
use nexus_cloud.SystemsApi.Types.{Tool, HistoryAction, PublicUrl, DomainBinding, DomainStatus}
use nexus_cloud.SystemsApi.Records.{create_domain_binding, verify_domain_record}
use nexus_cloud.SystemsApi.Registry.{
  Registry, push_history, upsert_domain_record, Settings, World, get_tool, get_domain_binding,
  persist,
}
use nexus_cloud.SystemsApi.Registry.Requests.{consult_guardian, domain_subject, request_event}
use nexus_cloud.SystemsApi.Registry.Domains.{
  store_binding, binding_status, bind_domain, store_verified, verify_domain_binding,
}

-- The record of the domain is the binding, in memory and in the file.
abbrev pub IsStored : String → DomainBinding → World → Type 0
IsStored domain b w =
    (get_domain_binding domain w.registry.live ≡ some b) × (w.registry.file ≡ w.registry.live)

-- The registry with a binding and an entry of the history.
abbrev logged :
    Settings → HistoryAction → String → Stamp → DomainBinding → Store Registry → Store Registry
logged settings action summary t b s =
    let next = push_history settings b.tool_id action summary t (upsert_domain_record b s.live) in
    record { live = next; file = next }

logged-IsStored :
    (settings : Settings) (action : HistoryAction) (summary : String) (t : Stamp)
    (b : DomainBinding) (s : Store Registry) (p : Platform)
    → IsStored b.domain b (record { platform = p; registry = logged settings action summary t b s })
unfolding get_domain_binding push_history upsert_domain_record
logged-IsStored settings action summary t b s p = (
  find-upsert_self (λ item. item.domain == b.domain) b s.live.domains (str-eq_self b.domain),
  refl,
)

-- Where every write succeeds, a guardian decision is recorded, and so is an event.
record_guardian_decision-saved :
    (env : Env) (input : DecisionInput) (p : Platform)
    → AllSaved env
    → (a : GuardianDecision) × (after : Platform) × (record_guardian_decision env input p
        ≡ (ok a, after))
unfolding record_guardian_decision upsert_decision write_decision record_event mutate_state
    save_state upsert_health_check ◌>>=◌
record_guardian_decision-saved env input p h = rw (h 0) (rw (h 2) (rw (h 3) (_, _, refl)))

record_event-saved :
    (env : Env) (event : ObservabilityEvent) (p : Platform)
    → AllSaved env
    → (a : ObservabilityEvent) × (after : Platform) × (record_event env event p ≡ (ok a, after))
unfolding record_event mutate_state save_state
record_event-saved env event p h = rw (h 1) (_, _, refl)

consult_guardian-saved :
    (settings : Settings) (env : Env) (scope : GuardianScope) (tool : Option Tool)
    (tool_id subject_id : String) (host : Option String) (w : World)
    → AllSaved env
    → (status : GuardianStatus) × (after : World) × (consult_guardian settings env scope tool
          tool_id subject_id host w
        ≡ (ok status, after))
unfolding consult_guardian ◌>>=◌
consult_guardian-saved settings env scope tool tool_id subject_id host w h =
    let decision =
      evaluate_guardian_request settings.url_hostname w.platform.store.live.peers scope tool host in
    let input : DecisionInput = record {
      tool_id = tool_id;
      scope = scope;
      subject_id = subject_id;
      status = decision.status;
      reason = decision.reason;
      actor = none;
      metadata = decision.metadata;
    } in
    let (_, after, e) = record_guardian_decision-saved env input w.platform h in
    (decision.status, record w { platform = after }, rw e refl)

store_binding-saved :
    (settings : Settings) (env : Env) (status : GuardianStatus) (b : DomainBinding) (w : World)
    → AllSaved env
    → (t : World) × (store_binding settings env status b w ≡ (ok (some b), t))
      × IsStored b.domain b t
unfolding store_binding persist save_state ◌>>=◌
store_binding-saved settings env status b w h =
    let (_, after, e) =
      record_event-saved (later 4 env)
        (request_event "Domain" b.tool_id status b.domain b.updated_at) w.platform
        (λ i. h (4 + i)) in
    let entry = template ("Bound " ∷ b.domain ∷ " to " ∷ b.tool_id ∷ []) in
    (
      record {
        platform = after;
        registry = logged settings HistoryAction.domain_bound entry b.requested_at b w.registry;
      },
      rw e (rw (h 6) refl),
      logged-IsStored settings HistoryAction.domain_bound entry b.requested_at b w.registry after,
    )

pub bind_domain-saved :
    (settings : Settings) (env : Env) (tool_id domain : String) (url : PublicUrl) (w : World)
    → AllSaved env
    → (b : DomainBinding) × (t : World) × (bind_domain settings env tool_id domain url w
        ≡ (ok (some b), t))
      × IsStored domain b t
unfolding bind_domain create_domain_binding ◌>>=◌
bind_domain-saved settings env tool_id domain url w h =
    let (status, w1, e) =
      consult_guardian-saved settings env GuardianScope.domain (get_tool tool_id w.registry.live)
        tool_id (domain_subject tool_id domain) (some domain) w h in
    let b =
      create_domain_binding settings.cloud_domain (env.uuid 1) (now env 1) (env.clock 2) tool_id
        domain url.url (binding_status status (get_domain_binding domain w1.registry.live)) in
    let (t, run, kept) = store_binding-saved settings env status b w1 h in (b, t, rw e run, kept)

-- The record that is found for a domain is of that domain.
pub found_domain :
    (domain : String) (r : Registry) (b : DomainBinding)
    → get_domain_binding domain r ≡ some b
    → b.domain ≡ domain
unfolding get_domain_binding
found_domain domain r b g =
    (eq_iff b.domain domain).0 (find-passes (λ item. item.domain == domain) r.domains b g)

pub found_by :
    (d domain : String)
    → d ≡ domain
    → (r : Registry) (b : DomainBinding) → get_domain_binding d r ≡ some b
    → get_domain_binding domain r ≡ some b
found_by d domain same r b k = ap (λ x. get_domain_binding x r) (sym same) ∙ k

-- What a binding becomes once its token is given.
abbrev as_verified : Env → DomainBinding → DomainBinding
as_verified env b = record b {
  status = DomainStatus.verified;
  verified_at = some (now env 0);
  updated_at = now env 0;
}

pub verify_run :
    (settings : Settings) (env : Env) (domain token : String) (w : World) (b : DomainBinding)
    → get_domain_binding domain w.registry.live ≡ some b
    → b.verification_token ≡ token
    → env.write 0 ≡ saved
    → let after : World = record w {
      registry =
          logged settings HistoryAction.domain_verified
            (template ("Verified " ∷ domain ∷ []))
            (now env 0)
            (as_verified env b)
            w.registry;
    } in
      (verify_domain_binding settings env domain token w ≡ (ok (some (as_verified env b)), after))
      × IsStored b.domain (as_verified env b) after
unfolding verify_domain_binding store_verified verify_domain_record persist save_state ◌>>=◌
verify_run settings env domain token w b g e s = (
  rw (g, (eq_iff b.verification_token token).1 e, s) refl,
  logged-IsStored settings _ _ _ (as_verified env b) w.registry w.platform,
)
