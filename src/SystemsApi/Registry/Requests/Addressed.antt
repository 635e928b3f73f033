-- ===== src/SystemsApi/Registry/Requests/Addressed.antt =====
-- What a request for an address grants.
use mathlib.Core.Option.{some_inj}
use mathlib.Core.Path.{subst}
use nexus_cloud.Base.{
  if◌then◌else◌, find, upsert, find-upsert_self, Stamp, Env, now, pure-eq-ok, gets-bind, bind-eq-ok,
  ok, String, ◌≡◌, refl, sym, ap, ◌∙◌, Bool, true, false, Option, none, some, arith,
}
use nexus_cloud.State.Types.{GuardianScope, GuardianStatus}
use nexus_cloud.Guardian.Policy.{evaluate_guardian_request}
use nexus_cloud.SystemsApi.Types.{Tool, Address, AddressStatus, HistoryAction}
use nexus_cloud.SystemsApi.Records.{
  AddressRequest, address_is_active, normalize_subject, build_public_address, create_address_record,
}
use nexus_cloud.SystemsApi.Registry.{
  Settings, Registry, World, same_address, get_tool, push_history, update_tool_record,
  upsert_exposure_record, upsert_public_url_record, upsert_address_record,
}
use nexus_cloud.SystemsApi.Registry.Invariant.{same_address-Sameness}
use nexus_cloud.SystemsApi.Registry.Requests.{
  is_approved, is_website, publish_if, log_if, issue_website, requested_address, issue_address,
  store_address, request_address_for, request_systems_api_address,
}
use nexus_cloud.SystemsApi.Registry.Domains.Ownership.{consult_guardian-eq-ok}
use nexus_cloud.SystemsApi.Registry.Revocation.Inactive.{if-addresses}
use nexus_cloud.SystemsApi.Registry.Revocation.Silence.{persist-live}

log_if-addresses :
    (b : Bool) (settings : Settings) (tool_id : String) (action : HistoryAction) (summary : String)
    (t : Stamp) (r : Registry)
    → (log_if b settings tool_id action summary t r).addresses ≡ r.addresses
unfolding push_history
log_if-addresses true settings tool_id action summary t r = refl
log_if-addresses false settings tool_id action summary t r = refl

publish_if-addresses :
    (b : Bool) (tool_id : String) (t : Stamp) (url : Option String) (r : Registry)
    → (publish_if b tool_id t url r).addresses ≡ r.addresses
unfolding update_tool_record
publish_if-addresses true tool_id t url r = refl
publish_if-addresses false tool_id t url r = refl

issue_website-addresses :
    (settings : Settings) (env : Env) (input : AddressRequest) (tool : Tool)
    (status : GuardianStatus) (public_address : String) (r : Registry)
    → (issue_website settings env input tool status public_address r).addresses ≡ r.addresses
unfolding issue_website push_history upsert_exposure_record upsert_public_url_record
issue_website-addresses settings env input tool status public_address r =
    log_if-addresses (is_approved status) settings tool.id _ _ _ _
    ∙ log_if-addresses (is_approved status) settings tool.id _ _ _ _

issue_address-addresses :
    (settings : Settings) (env : Env) (input : AddressRequest) (tool : Tool)
    (status : GuardianStatus) (r : Registry)
    → (issue_address settings env input tool status r).addresses
      ≡ upsert
          (same_address (requested_address settings env input status))
          (requested_address settings env input status)
          r.addresses
unfolding issue_address upsert_address_record
issue_address-addresses settings env input tool status r =
    let a = requested_address settings env input status in
    let public_address = build_public_address settings.cloud_domain input in
    let url = if is_website input.kind then some public_address else none in
    let put = upsert_address_record a r in
    let stored = publish_if (is_approved status) tool.id (now env 2) url put in
    let kept = publish_if-addresses (is_approved status) tool.id (now env 2) url put in
    if-addresses (is_website input.kind)
      (issue_website settings env input tool status public_address stored) stored
      (upsert (same_address a) a r.addresses)
      (issue_website-addresses settings env input tool status public_address stored ∙ kept) kept

store_address-eq-ok :
    (settings : Settings) (env : Env) (input : AddressRequest) (tool : Tool)
    (status : GuardianStatus) (a : Address) (w t : World)
    → store_address settings env input tool status w ≡ (ok (some a), t)
    → (requested_address settings env input status ≡ a)
      × (find (same_address (requested_address settings env input status)) t.registry.live.addresses
          ≡ some (requested_address settings env input status))
unfolding store_address push_history
store_address-eq-ok settings env input tool status a w t h =
    let new = requested_address settings env input status in
    let (_, w1, p1, q1) = bind-eq-ok _ _ w h in
    let (_, w2, p2, q2) = bind-eq-ok _ _ w1 q1 in
    let (_, w3, p3, q3) = bind-eq-ok _ _ w2 q2 in
    let (_, w4, p4, q4) = bind-eq-ok _ _ w3 q3 in
    let chain =
      sym (ap (λ r. r.1.registry.live.addresses) q4)
      ∙ (sym (ap (λ r. r.1.registry.live.addresses) p4)
          ∙ (ap (λ r. r.addresses) (persist-live (env.write 6) w3)
              ∙ (sym (ap (λ r. r.1.registry.live.addresses) p3)
                  ∙ (sym (ap (λ r. r.1.registry.live.addresses) p2)
                      ∙ (sym (ap (λ r. r.1.registry.live.addresses) p1)
                          ∙ issue_address-addresses settings env input tool status
                              w.registry.live))))) in
    (
      some_inj.0 (pure-eq-ok (some new) (some a) w4 t q4),
      ap (find (same_address new)) chain
          ∙ find-upsert_self (same_address new) new w.registry.live.addresses
              (same_address-Sameness.self new),
    )

-- A request for an address that returns a record found the tool; the record has the tool id, kind
-- and subject that were asked for and the public address built for them, it is active exactly where
-- the guardian approves, and it is the one that the registry holds for its tool, kind and subject.
pub request_address_outcome :
    (settings : Settings) (env : Env) (input : AddressRequest) (w t : World) (a : Address)
    → request_systems_api_address settings env input w ≡ (ok (some a), t)
    → (tool : Tool) × (status : GuardianStatus) × (get_tool input.tool_id w.registry.live
        ≡ some tool)
      × (status
          ≡ (evaluate_guardian_request settings.url_hostname w.platform.store.live.peers
              GuardianScope.exposure
              (some tool)
              input.desired_host).status)
      × (a.tool_id ≡ input.tool_id)
      × (a.kind ≡ input.kind)
      × (a.subject ≡ normalize_subject input.subject input.tool_id)
      × (a.public_address ≡ build_public_address settings.cloud_domain input)
      × (address_is_active a.status ≡ is_approved status)
      × (find (same_address a) t.registry.live.addresses ≡ some a)
unfolding request_systems_api_address request_address_for create_address_record
request_address_outcome settings env input w t a h =
    of (get_tool input.tool_id w.registry.live) refl (sym (gets-bind _ _ w) ∙ h)
  where
    active :
        (status : GuardianStatus)
        → address_is_active
            (if is_approved status then AddressStatus.active else AddressStatus.requested)
          ≡ is_approved status
    active GuardianStatus.approved = refl
    active GuardianStatus.denied = refl
    active GuardianStatus.suspended = refl
    active GuardianStatus.quarantined = refl
    active GuardianStatus.revoked = refl

    of :
        (o : Option Tool)
        → get_tool input.tool_id w.registry.live ≡ o
        → request_address_for settings env input o w ≡ (ok (some a), t)
        → (tool : Tool) × (status : GuardianStatus) × (get_tool input.tool_id w.registry.live
            ≡ some tool)
          × (status
              ≡ (evaluate_guardian_request settings.url_hostname w.platform.store.live.peers
                  GuardianScope.exposure
                  (some tool)
                  input.desired_host).status)
          × (a.tool_id ≡ input.tool_id)
          × (a.kind ≡ input.kind)
          × (a.subject ≡ normalize_subject input.subject input.tool_id)
          × (a.public_address ≡ build_public_address settings.cloud_domain input)
          × (address_is_active a.status ≡ is_approved status)
          × (find (same_address a) t.registry.live.addresses ≡ some a)
    of none g k = let n = pure-eq-ok none (some a) w t k in absurd (ground arith)
    of (some tool) g k =
        let (status, w1, p1, q1) = bind-eq-ok _ _ w k in
        let (_, verdict) = consult_guardian-eq-ok settings env _ _ _ _ _ w w1 status p1 in
        let (same, stored) = store_address-eq-ok settings env input tool status a w1 t q1 in
        (
          tool,
          status,
          g,
          verdict,
          ap (λ x. x.tool_id) (sym same),
          ap (λ x. x.kind) (sym same),
          ap (λ x. x.subject) (sym same),
          ap (λ x. x.public_address) (sym same),
          ap (λ x. address_is_active x.status) (sym same) ∙ active status,
          subst (λ x. find (same_address x) t.registry.live.addresses ≡ some x) same stored,
        )
