-- ===== src/SystemsApi/Registry/Domains.antt =====
-- Custom domains: requestDomainBinding, verifyDomainBinding, revokeDomainBinding and
-- getDomainVerificationChallenge of src/systems-api/registry.ts.
pub mod Storing
pub mod Ownership
use mathlib.Core.Option
use nexus_cloud.Base.{
  if◌then◌else◌, or_else, template, Stamp, Env, later, now, Action, pure, gets, ◌>>=◌, ◌>>◌, ℕ,
  String, Bool, true, false, Option, none, some, [], ◌∷◌,
}
use nexus_cloud.Observability.Service.{record_event}
use nexus_cloud.State.Types.{GuardianScope, GuardianStatus}
use nexus_cloud.SystemsApi.Types.{
  HistoryAction, PublicUrl, PublicUrlStatus, DomainBinding, DomainStatus,
}
use nexus_cloud.SystemsApi.Records.{
  DomainChallenge, create_domain_binding, issue_domain_verification_challenge, verify_domain_record,
  revoke_domain_record,
}
use nexus_cloud.SystemsApi.Registry.{
  Settings, World, get_tool, get_public_url, get_domain_binding, on_platform, change_registry,
  persist, push_history, upsert_domain_record,
}
use nexus_cloud.SystemsApi.Registry.Requests.{consult_guardian, domain_subject, request_event}

abbrev pub url_is_active : PublicUrlStatus → Bool
url_is_active PublicUrlStatus.active = true
url_is_active _ = false

-- The status of a binding: a binding that the guardian approves keeps the status of the domain's
-- present record, whichever tool that one is bound to.
abbrev pub binding_status : GuardianStatus → Option DomainBinding → DomainStatus
binding_status GuardianStatus.approved existing =
    or_else (Option.map (λ (b : DomainBinding). b.status) existing) DomainStatus.pending
binding_status GuardianStatus.quarantined existing = DomainStatus.quarantined
binding_status _ existing = DomainStatus.denied

unfoldable pub store_binding :
    Settings → Env → GuardianStatus → DomainBinding → Action World (Option DomainBinding)
store_binding settings env status b = do
  change_registry (upsert_domain_record b)
  change_registry (
      push_history settings b.tool_id HistoryAction.domain_bound
        (template ("Bound " ∷ b.domain ∷ " to " ∷ b.tool_id ∷ [])) b.requested_at)
  on_platform
      (record_event (later 4 env) (request_event "Domain" b.tool_id status b.domain b.updated_at))
  persist (env.write 6)
  pure (some b)

unfoldable pub bind_domain :
    Settings → Env → String → String → PublicUrl → Action World (Option DomainBinding)
bind_domain settings env tool_id domain url = do
  tool ← gets (λ w. get_tool tool_id w.registry.live)
  status ←
      consult_guardian settings env GuardianScope.domain tool tool_id
        (domain_subject tool_id domain) (some domain)
  existing ← gets (λ w. get_domain_binding domain w.registry.live)
  store_binding settings env status (
      create_domain_binding settings.cloud_domain (env.uuid 1) (now env 1) (env.clock 2) tool_id
        domain url.url (binding_status status existing))

abbrev pub bind_under :
    Settings → Env → String → String → Option PublicUrl → Action World (Option DomainBinding)
bind_under settings env tool_id domain none = pure none
bind_under settings env tool_id domain (some url) =
    if url_is_active url.status then bind_domain settings env tool_id domain url else pure none

unfoldable pub request_domain_binding :
    Settings → Env → String → String → Action World (Option DomainBinding)
request_domain_binding settings env tool_id domain = do
  url ← gets (λ w. get_public_url tool_id w.registry.live)
  bind_under settings env tool_id domain url

unfoldable pub get_domain_verification_challenge : ℕ → String → World → Option DomainChallenge
get_domain_verification_challenge clock domain w =
    Option.map (issue_domain_verification_challenge clock)
      (get_domain_binding domain w.registry.live)

unfoldable pub store_verified :
    Settings → Env → String → Option DomainBinding → Action World (Option DomainBinding)
store_verified settings env domain none = pure none
store_verified settings env domain (some verified) = do
  change_registry (upsert_domain_record verified)
  change_registry (
      push_history settings verified.tool_id HistoryAction.domain_verified
        (template ("Verified " ∷ domain ∷ [])) (or_else verified.verified_at verified.updated_at))
  persist (env.write 0)
  pure (some verified)

-- `existing`'s record under the token, none where there is no record or the token is another.
abbrev pub checked_binding : Stamp → String → Option DomainBinding → Option DomainBinding
checked_binding t token none = none
checked_binding t token (some existing) = verify_domain_record t existing token

unfoldable pub verify_domain_binding :
    Settings → Env → String → String → Action World (Option DomainBinding)
verify_domain_binding settings env domain token = do
  existing ← gets (λ w. get_domain_binding domain w.registry.live)
  store_verified settings env domain (checked_binding (now env 0) token existing)

unfoldable pub store_revoked :
    Settings → Env → String → Option DomainBinding → Action World (Option DomainBinding)
store_revoked settings env domain none = pure none
store_revoked settings env domain (some existing) = do
  let revoked = revoke_domain_record (now env 0) existing
  change_registry (upsert_domain_record revoked)
  change_registry (
      push_history settings revoked.tool_id HistoryAction.domain_revoked
        (template ("Revoked " ∷ domain ∷ [])) (or_else revoked.revoked_at revoked.updated_at))
  persist (env.write 0)
  pure (some revoked)

unfoldable pub revoke_domain_binding : Settings → Env → String → Action World (Option DomainBinding)
revoke_domain_binding settings env domain = do
  existing ← gets (λ w. get_domain_binding domain w.registry.live)
  store_revoked settings env domain existing
