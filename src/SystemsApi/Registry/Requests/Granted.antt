-- ===== src/SystemsApi/Registry/Requests/Granted.antt =====
-- What a request for an exposure grants.
use mathlib.Core.Option.{some_inj}
use nexus_cloud.Base.{
  str-eq_self, find, find-upsert_self, Stamp, Env, pure-eq-ok, gets-bind, bind-eq-ok, ok, String,
  ◌≡◌, refl, sym, ap, ◌∙◌, Bool, true, false, Option, none, some, arith, ◌==◌,
}
use nexus_cloud.State.Types.{GuardianScope, GuardianStatus}
use nexus_cloud.Guardian.Policy.{evaluate_guardian_request}
use nexus_cloud.SystemsApi.Types.{Tool, ExposureRecord}
use nexus_cloud.SystemsApi.Records.{create_exposure_record, transition_exposure_record}
use nexus_cloud.SystemsApi.Registry.{
  Settings, Registry, World, get_tool, get_exposure, push_history, update_tool_record,
  upsert_exposure_record,
}
use nexus_cloud.SystemsApi.Registry.Requests.{
  publish_if, log_exposure, exposure_status_of, store_exposure, request_exposure_for,
  request_exposure,
}
use nexus_cloud.SystemsApi.Registry.Domains.Ownership.{consult_guardian-eq-ok}
use nexus_cloud.SystemsApi.Registry.Revocation.Silence.{persist-live}

publish_if-exposures :
    (b : Bool) (tool_id : String) (t : Stamp) (url : Option String) (r : Registry)
    → (publish_if b tool_id t url r).exposures ≡ r.exposures
unfolding update_tool_record
publish_if-exposures true tool_id t url r = refl
publish_if-exposures false tool_id t url r = refl

log_exposure-exposures :
    (settings : Settings) (tool : Tool) (status : GuardianStatus) (e : ExposureRecord)
    (r : Registry)
    → (log_exposure settings tool status e r).exposures ≡ r.exposures
unfolding push_history
log_exposure-exposures settings tool GuardianStatus.approved e r = refl
log_exposure-exposures settings tool GuardianStatus.denied e r = refl
log_exposure-exposures settings tool GuardianStatus.suspended e r = refl
log_exposure-exposures settings tool GuardianStatus.quarantined e r = refl
log_exposure-exposures settings tool GuardianStatus.revoked e r = refl

store_exposure-eq-ok :
    (settings : Settings) (env : Env) (tool : Tool) (status : GuardianStatus) (e f : ExposureRecord)
    (w t : World)
    → store_exposure settings env tool status e w ≡ (ok (some f), t)
    → (e ≡ f) × (get_exposure e.tool_id t.registry.live ≡ some e)
unfolding store_exposure get_exposure upsert_exposure_record
store_exposure-eq-ok settings env tool status e f w t h =
    let (_, w1, p1, q1) = bind-eq-ok _ _ w h in
    let (_, w2, p2, q2) = bind-eq-ok _ _ w1 q1 in
    let (_, w3, p3, q3) = bind-eq-ok _ _ w2 q2 in
    let (_, w4, p4, q4) = bind-eq-ok _ _ w3 q3 in
    let (_, w5, p5, q5) = bind-eq-ok _ _ w4 q4 in
    let chain =
      sym (ap (λ r. r.1.registry.live.exposures) q5)
      ∙ (sym (ap (λ r. r.1.registry.live.exposures) p5)
          ∙ (ap (λ r. r.exposures) (persist-live (env.write 6) w4)
              ∙ (sym (ap (λ r. r.1.registry.live.exposures) p4)
                  ∙ (sym (ap (λ r. r.1.registry.live.exposures) p3)
                      ∙ (log_exposure-exposures settings tool status e w2.registry.live
                          ∙ (sym (ap (λ r. r.1.registry.live.exposures) p2)
                              ∙ (publish_if-exposures _ _ _ _ w1.registry.live
                                  ∙ sym (ap (λ r. r.1.registry.live.exposures) p1)))))))) in
    (
      some_inj.0 (pure-eq-ok (some e) (some f) w5 t q5),
      ap (find (λ item. item.tool_id == e.tool_id)) chain
          ∙ find-upsert_self (λ item. item.tool_id == e.tool_id) e w.registry.live.exposures
              (str-eq_self e.tool_id),
    )

-- A request for an exposure that returns a record found the tool; the record is the tool's, it is
-- active, quarantined or denied as the guardian's verdict on the tool and the host says (denied for a
-- verdict that is neither an approval nor a quarantine), and it is the one that the registry holds
-- for the tool.
request_exposure_outcome :
    (settings : Settings) (env : Env) (tool_id : String) (host : Option String) (w t : World)
    (e : ExposureRecord)
    → request_exposure settings env tool_id host w ≡ (ok (some e), t)
    → (tool : Tool) × (get_tool tool_id w.registry.live ≡ some tool)
      × (e.tool_id ≡ tool.id)
      × (e.status
          ≡ exposure_status_of
              (evaluate_guardian_request settings.url_hostname w.platform.store.live.peers
                GuardianScope.exposure
                (some tool)
                host).status)
      × (get_exposure e.tool_id t.registry.live ≡ some e)
unfolding request_exposure request_exposure_for create_exposure_record transition_exposure_record
request_exposure_outcome settings env tool_id host w t e h =
    of (get_tool tool_id w.registry.live) refl (sym (gets-bind _ _ w) ∙ h)
  where
    of :
        (o : Option Tool)
        → get_tool tool_id w.registry.live ≡ o
        → request_exposure_for settings env host o w ≡ (ok (some e), t)
        → (tool : Tool) × (get_tool tool_id w.registry.live ≡ some tool)
          × (e.tool_id ≡ tool.id)
          × (e.status
              ≡ exposure_status_of
                  (evaluate_guardian_request settings.url_hostname w.platform.store.live.peers
                    GuardianScope.exposure
                    (some tool)
                    host).status)
          × (get_exposure e.tool_id t.registry.live ≡ some e)
    of none g k = let n = pure-eq-ok none (some e) w t k in absurd (ground arith)
    of (some tool) g k =
        let (status, w1, p1, q1) = bind-eq-ok _ _ w k in
        let (_, verdict) = consult_guardian-eq-ok settings env _ _ _ _ _ w w1 status p1 in
        let (same, stored) = store_exposure-eq-ok settings env tool status _ e w1 t q1 in
        (tool, g, rw (sym same) refl, rw (sym same) (rw verdict refl), rw (sym same) stored)
