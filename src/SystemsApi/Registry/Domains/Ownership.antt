-- ===== src/SystemsApi/Registry/Domains/Ownership.antt =====
-- What binding and verifying a custom domain come to.
use nexus_cloud.Base.{
  Bool-cases, str-ne, Env, now, pure-eq-ok, ◌>>=◌, gets-bind, bind-eq-ok, saved, ok, String, ◌≡◌,
  refl, sym, ◌∙◌, ◌≢◌, inl, inr, true, Option, none, some, arith,
}
use mathlib.Core.Option.{some_inj}
use nexus_cloud.DataPlane.Service.Returning.{AllSaved}
use nexus_cloud.State.Types.{GuardianScope, GuardianStatus}
use nexus_cloud.Guardian.Policy.{evaluate_guardian_request}
use nexus_cloud.SystemsApi.Types.{Tool, PublicUrl, DomainBinding, DomainStatus}
use nexus_cloud.SystemsApi.Records.{create_domain_binding, verify_domain_record}
use nexus_cloud.SystemsApi.Registry.{Settings, World, get_tool, get_public_url, get_domain_binding}
use nexus_cloud.SystemsApi.Registry.Requests.{consult_guardian}
use nexus_cloud.SystemsApi.Registry.Domains.{
  store_binding, url_is_active, binding_status, bind_domain, bind_under, request_domain_binding,
  store_verified, verify_domain_binding,
}
use nexus_cloud.SystemsApi.Registry.Domains.Storing.{
  bind_domain-saved, found_domain, found_by, verify_run,
}

-- The guardian's verdict on a tool's use of a domain.
abbrev pub domain_verdict : Settings → World → String → String → GuardianStatus
domain_verdict settings w tool_id domain =
    (evaluate_guardian_request settings.url_hostname w.platform.store.live.peers
      GuardianScope.domain (get_tool tool_id w.registry.live) (some domain)).status

-- Consulting the guardian leaves the registry alone.
pub consult_guardian-eq-ok :
    (settings : Settings) (env : Env) (scope : GuardianScope) (tool : Option Tool)
    (tool_id subject_id : String) (host : Option String) (w t : World) (status : GuardianStatus)
    → consult_guardian settings env scope tool tool_id subject_id host w ≡ (ok status, t)
    → (t.registry ≡ w.registry)
      × (status
          ≡ (evaluate_guardian_request settings.url_hostname w.platform.store.live.peers scope tool
              host).status)
unfolding consult_guardian
consult_guardian-eq-ok settings env scope tool tool_id subject_id host w t status h =
    let (d, u, p, q) = bind-eq-ok _ _ w h in let (_, v, p', q') = bind-eq-ok _ _ u q in ground arith

store_binding-eq-ok :
    (settings : Settings) (env : Env) (status : GuardianStatus) (b c : DomainBinding) (w t : World)
    → store_binding settings env status b w ≡ (ok (some c), t)
    → b ≡ c
unfolding store_binding
store_binding-eq-ok settings env status b c w t h =
    let (_, w1, p1, q1) = bind-eq-ok _ _ w h in
    let (_, w2, p2, q2) = bind-eq-ok _ _ w1 q1 in
    let (_, w3, p3, q3) = bind-eq-ok _ _ w2 q2 in
    let (_, w4, p4, q4) = bind-eq-ok _ _ w3 q3 in some_inj.0 (pure-eq-ok (some b) (some c) w4 t q4)

-- A binding that is returned.
abbrev pub IsBindingOf : Settings → World → String → String → PublicUrl → DomainBinding → Type 0
IsBindingOf settings w tool_id domain url b =
    (b.tool_id ≡ tool_id)
    × (b.domain ≡ domain)
    × (b.public_url ≡ url.url)
    × (b.status
        ≡ binding_status (domain_verdict settings w tool_id domain)
            (get_domain_binding domain w.registry.live))

bind_domain-eq-ok :
    (settings : Settings) (env : Env) (tool_id domain : String) (url : PublicUrl) (w t : World)
    (b : DomainBinding)
    → bind_domain settings env tool_id domain url w ≡ (ok (some b), t)
    → IsBindingOf settings w tool_id domain url b
unfolding bind_domain create_domain_binding
bind_domain-eq-ok settings env tool_id domain url w t b h =
    let (status, w2, p2, q2) = bind-eq-ok _ _ w (sym (gets-bind _ _ w) ∙ h) in
    let (same, verdict) = consult_guardian-eq-ok settings env _ _ _ _ _ w w2 status p2 in
    let e = store_binding-eq-ok settings env status _ b w2 t (sym (gets-bind _ _ w2) ∙ q2) in
    rw (sym e) (refl, refl, refl, rw (same, verdict) refl)

-- A request for a domain that returns a binding found an active public URL of the tool, and the
-- binding is the tool's, for that domain and URL. Its status is pending or the status that the
-- domain's present record has, whichever tool that is bound to, where the guardian approves, and
-- quarantined or denied where it does not.
request_domain_binding_outcome :
    (settings : Settings) (env : Env) (tool_id domain : String) (w t : World) (b : DomainBinding)
    → request_domain_binding settings env tool_id domain w ≡ (ok (some b), t)
    → (url : PublicUrl) × (get_public_url tool_id w.registry.live ≡ some url)
      × (url_is_active url.status ≡ true)
      × IsBindingOf settings w tool_id domain url b
unfolding request_domain_binding
request_domain_binding_outcome settings env tool_id domain w t b h =
    under (get_public_url tool_id w.registry.live) refl (sym (gets-bind _ _ w) ∙ h)
  where
    under :
        (o : Option PublicUrl)
        → get_public_url tool_id w.registry.live ≡ o
        → bind_under settings env tool_id domain o w ≡ (ok (some b), t)
        → (url : PublicUrl) × (get_public_url tool_id w.registry.live ≡ some url)
          × (url_is_active url.status ≡ true)
          × IsBindingOf settings w tool_id domain url b
    under none g k = absurd (ground arith)
    under (some url) g k = elim (Bool-cases (url_is_active url.status)) [
      | inl e ↦ (url, g, e, bind_domain-eq-ok settings env tool_id domain url w t b (rw e at k))
      | inr e ↦ let n = pure-eq-ok none (some b) w t (rw e at k) in absurd (ground arith)
    ]

-- A request for a domain by a tool with an active public URL goes on to bind it.
request_domain_binding-active :
    (settings : Settings) (env : Env) (tool_id domain : String) (w : World) (url : PublicUrl)
    → get_public_url tool_id w.registry.live ≡ some url
    → url_is_active url.status ≡ true
    → request_domain_binding settings env tool_id domain w
      ≡ bind_domain settings env tool_id domain url w
unfolding request_domain_binding ◌>>=◌
request_domain_binding-active settings env tool_id domain w url u active = rw (u, active) refl

-- A domain that is verified for any tool becomes verified for the tool that asks for it next, with no
-- verification by that tool: where the asking tool has an active public URL, the guardian approves and
-- the writes succeed, the request returns a binding of the domain to the asking tool, whose status is
-- verified, and that binding replaces the domain's record, in memory and in the file.
pub verified_domain_is_taken_over :
    (settings : Settings) (env : Env) (tool_id domain : String) (w : World) (owner : DomainBinding)
    (url : PublicUrl)
    → get_domain_binding domain w.registry.live ≡ some owner
    → owner.status ≡ DomainStatus.verified
    → get_public_url tool_id w.registry.live ≡ some url
    → url_is_active url.status ≡ true
    → domain_verdict settings w tool_id domain ≡ GuardianStatus.approved
    → AllSaved env
    → (b : DomainBinding) × (t : World) × (request_domain_binding settings env tool_id domain w
        ≡ (ok (some b), t))
      × (b.tool_id ≡ tool_id)
      × (b.domain ≡ domain)
      × (b.status ≡ DomainStatus.verified)
      × (get_domain_binding domain t.registry.live ≡ some b)
      × (t.registry.file ≡ t.registry.live)
verified_domain_is_taken_over settings env tool_id domain w owner url g v u active d h =
    let (b, t, run, kept) = bind_domain-saved settings env tool_id domain url w h in
    let (i, n, _, s) = bind_domain-eq-ok settings env tool_id domain url w t b run in
    (
      b,
      t,
      request_domain_binding-active settings env tool_id domain w url u active ∙ run,
      i,
      n,
      rw (d, g, v) at s,
      kept.0,
      kept.1,
    )

-- Verifying a domain with the token of its record succeeds, where the write of the registry
-- succeeds: the record becomes verified, in memory and in the file, whatever its status was (revoked,
-- denied and quarantined included) and whenever its challenge expired, and is returned.
pub verify_domain_binding_by_token :
    (settings : Settings) (env : Env) (domain token : String) (w : World) (b : DomainBinding)
    → get_domain_binding domain w.registry.live ≡ some b
    → b.verification_token ≡ token
    → env.write 0 ≡ saved
    → let r = verify_domain_binding settings env domain token w in
      let verified : DomainBinding = record b {
        status = DomainStatus.verified;
        verified_at = some (now env 0);
        updated_at = now env 0;
      } in
      (r.0 ≡ ok (some verified))
      × (get_domain_binding domain r.1.registry.live ≡ some verified)
      × (r.1.registry.file ≡ r.1.registry.live)
verify_domain_binding_by_token settings env domain token w b g e s =
    let named = found_domain domain w.registry.live b g in
    let (run, kept) = verify_run settings env domain token w b g e s in
    rw run (refl, found_by b.domain domain named _ _ kept.0, refl)

-- Verifying a domain with a token that its record does not have returns nothing and changes nothing,
-- in memory or on disk.
verify_domain_binding_refuses :
    (settings : Settings) (env : Env) (domain token : String) (w : World) (b : DomainBinding)
    → get_domain_binding domain w.registry.live ≡ some b
    → b.verification_token ≢ token
    → verify_domain_binding settings env domain token w ≡ (ok none, w)
unfolding verify_domain_binding store_verified verify_domain_record ◌>>=◌
verify_domain_binding_refuses settings env domain token w b g ne =
    rw (g, str-ne b.verification_token token ne) refl
