-- ===== src/Guardian/Policy.antt =====
-- The admission policy: evaluateGuardianRequest of src/guardian/index.ts and what it calls. The
-- argument `url_hostname` is `new URL(text).hostname`, none where the constructor throws.
pub mod Admission
use mathlib.Core.Option
use nexus_cloud.Base.{
  if◌then◌else◌, or_else, opt_is, template, any, has_space, trim, lower, ends_with, has_prefix,
  String, Bool, true, false, not, ◌&&◌, ◌||◌, Option, none, some, List, [], ◌∷◌, ◌==◌,
}
use nexus_cloud.Federation.Types.{FederationPeer, is_trusted}
use nexus_cloud.State.Types.{GuardianScope, GuardianStatus, approved, denied, quarantined}
use nexus_cloud.SystemsApi.Types.{Tool, ToolHealth, RegistrationStatus}

pub record GuardianEvaluation : Type 0 where
  pub status : GuardianStatus
  pub reason : String
  pub metadata : Option (List (String × String))

unfoldable pub is_local_or_private_host : String → Bool
unfolding ends_with has_prefix
is_local_or_private_host hostname =
    hostname == "localhost"
    || hostname == "127.0.0.1"
    || hostname == "::1"
    || ends_with hostname ".local"
    || has_prefix hostname "10."
    || has_prefix hostname "192.168."
    || any (has_prefix hostname) (
        "172.16." ∷ "172.17." ∷ "172.18." ∷ "172.19." ∷ "172.20." ∷ "172.21." ∷ "172.22."
        ∷ "172.23." ∷ "172.24." ∷ "172.25." ∷ "172.26." ∷ "172.27." ∷ "172.28." ∷ "172.29."
        ∷ "172.30." ∷ "172.31." ∷ [])

-- `/(^localhost$|\.localhost$|\s)/i.test(host)`, which an empty host never reaches.
unfoldable pub is_bad_public_host : String → Bool
unfolding ends_with lower has_space
is_bad_public_host host =
    lower host == "localhost" || ends_with (lower host) ".localhost" || has_space host

-- `scope === "exposure" || scope === "domain"`
abbrev pub is_public_scope : GuardianScope → Bool
is_public_scope GuardianScope.exposure = true
is_public_scope GuardianScope.domain = true
is_public_scope GuardianScope.runtime = false

abbrev pub is_offline_registration : RegistrationStatus → Bool
is_offline_registration RegistrationStatus.offline = true
is_offline_registration _ = false

-- `o?.trim()`, empty where `o` is undefined
abbrev pub trimmed : Option String → String
trimmed none = ""
trimmed (some s) = trim s

abbrev pub verdict : GuardianStatus → String → List (String × String) → GuardianEvaluation
verdict status reason metadata = record {
  status = status;
  reason = reason;
  metadata = some metadata;
}

module _ (url_hostname : String → Option String) where
  unfoldable pub extract_hostname : String → Option String
  unfolding has_prefix lower
  extract_hostname value =
      let has_scheme = has_prefix (lower value) "http://" || has_prefix (lower value) "https://" in
      Option.map lower
        (url_hostname (if has_scheme then value else template ("https://" ∷ value ∷ [])))

  -- The test of one peer in `hasTrustedPeerForHost`.
  unfoldable pub vouches_for : String → FederationPeer → Bool
  unfolding extract_hostname
  vouches_for hostname peer =
      is_trusted peer.trust_state
      && (lower peer.domain == hostname || opt_is (extract_hostname peer.trust.identity) hostname)

  unfoldable pub has_trusted_peer_for_host : List FederationPeer → String → Bool
  has_trusted_peer_for_host peers hostname = any (vouches_for hostname) peers

  -- The tests on the tool's health and on the desired host.
  unfoldable pub evaluate_health : ToolHealth → Option String → GuardianEvaluation
  evaluate_health ToolHealth.offline desired_host =
      verdict denied "Tool is offline" (("health", "offline") ∷ [])
  evaluate_health ToolHealth.degraded desired_host =
      verdict quarantined "Tool is degraded and requires review" (("health", "degraded") ∷ [])
  evaluate_health ToolHealth.healthy desired_host =
      let host = or_else desired_host "" in
      if not (host == "") && is_bad_public_host host
      then verdict quarantined "Desired host is not valid for public admission"
          (("desiredHost", host) ∷ [])
      else record { status = approved; reason = "Policy checks passed"; metadata = none }

  -- The tests from the upstream host on.
  unfoldable pub evaluate_host :
      List FederationPeer → Tool → Option String → String → Option String → GuardianEvaluation
  evaluate_host peers tool desired_host upstream_url none =
      verdict quarantined "Tool upstream URL hostname is invalid"
        (("upstreamUrl", upstream_url) ∷ [])
  evaluate_host peers tool desired_host upstream_url (some host) =
      if host == ""
      then verdict quarantined "Tool upstream URL hostname is invalid"
          (("upstreamUrl", upstream_url) ∷ [])
      else if not (is_local_or_private_host host) && not (has_trusted_peer_for_host peers host)
      then verdict quarantined "No trusted federation peer matches tool upstream host"
          (("upstreamHost", host) ∷ ("trust", "missing") ∷ [])
      else evaluate_health tool.health desired_host

  unfoldable pub evaluate_guardian_request :
      List FederationPeer → GuardianScope → Option Tool → Option String → GuardianEvaluation
  evaluate_guardian_request peers scope none desired_host = record {
    status = denied;
    reason = "Tool not found";
    metadata = none;
  }
  evaluate_guardian_request peers scope (some tool) desired_host =
      let upstream_url = or_else tool.upstream_url "" in
      if is_public_scope scope && is_offline_registration tool.registration_status
      then verdict denied "Tool registration is offline" (("registrationStatus", "offline") ∷ [])
      else if trimmed tool.upstream_url == ""
      then verdict quarantined "Tool has no upstream URL" (("upstream", "missing") ∷ [])
      else evaluate_host peers tool desired_host upstream_url (extract_hostname upstream_url)
