-- ===== src/Tests/Published.antt =====
-- The tool registry at concrete inputs.
use nexus_cloud.Base.{
  find, All, Distinct, trim, strip_scheme, ◌>>=◌, at, ok, ◌≡◌, refl, ◌≢◌, true, false, none, some,
  [], ◌∷◌, arith, Preserves,
}
use nexus_cloud.State.{mutate_state, save_state}
use nexus_cloud.Observability.Service.{record_event, upsert_health_check, push_event}
use nexus_cloud.Guardian.Policy.{
  evaluate_guardian_request, extract_hostname, is_local_or_private_host, is_bad_public_host,
  evaluate_host, evaluate_health,
}
use nexus_cloud.Guardian.Decisions.{
  record_guardian_decision, upsert_decision, create_decision_record, write_decision,
}
use nexus_cloud.SystemsApi.Types.{Address, Tool, AddressKind, DomainBinding, DomainStatus}
use nexus_cloud.SystemsApi.Records.{AddressRequest, address_is_active, revoke_exposure_record}
use nexus_cloud.SystemsApi.Registry.{
  World, get_exposure, get_public_url, get_domain_binding, get_tool, persist,
}
use nexus_cloud.SystemsApi.Registry.Invariant.{IsSound}
use nexus_cloud.SystemsApi.Registry.Invariant.Steps.{
  RegistryIsSound, tool_operations_keep_invariant,
}
use nexus_cloud.SystemsApi.Registry.Invariant.Operations.{publishing_operations_keep_invariant}
use nexus_cloud.SystemsApi.Registry.Tools.{
  ToolRegistrationInput, ToolPatchInput, HeartbeatPatch, record_tool_heartbeat,
  expire_tool_heartbeat, enable_systems_api_tool, disable_systems_api_tool, deregister_tool,
}
use nexus_cloud.Base.Json.{num}
use nexus_cloud.SystemsApi.Registry.Governance.{synced}
use nexus_cloud.SystemsApi.Registry.Governance.Proposals.{register_systems_api_tool, update_tool}
use nexus_cloud.SystemsApi.Registry.Tools.Gate.{GateIs, GateIs-kept}
use nexus_cloud.SystemsApi.Registry.Requests.{
  request_systems_api_address, request_exposure, request_public_url, consult_guardian,
}
use nexus_cloud.SystemsApi.Registry.Revocation.{
  revoke_systems_api_address, revoke_systems_api_exposure, revoke_exposure_of,
}
use nexus_cloud.SystemsApi.Registry.Revocation.Silence.{revoked_exposure_serves_nothing}
use nexus_cloud.SystemsApi.Registry.Domains.{
  request_domain_binding, verify_domain_binding, revoke_domain_binding,
}
use nexus_cloud.SystemsApi.Registry.Domains.Ownership.{
  verified_domain_is_taken_over, verify_domain_binding_by_token,
}
use nexus_cloud.SystemsApi.Registry.Phantom.{phantom_security_tag-hardened}
use nexus_cloud.SystemsApi.Types.{ExposureRecord, PhantomProfile, ProtectionLevel, SecurityTag}
use nexus_cloud.SystemsApi.Registry.{phantom_security_tag}
use nexus_cloud.SystemsApi.Registry.Requests.{decided_exposure}
use nexus_cloud.SystemsApi.Records.{normalize_subject, build_public_address}
use nexus_cloud.SystemsApi.Registry.{same_address}
use nexus_cloud.SystemsApi.Registry.Requests.{
  requested_address, request_address_for, store_address, is_approved,
}
use nexus_cloud.SystemsApi.Registry.Requests.Addressed.{request_address_outcome}
use nexus_cloud.State.Types.{GuardianStatus, GuardianScope}
use nexus_cloud.Tests.Data.{hostname, tool, url}
use nexus_cloud.SystemsApi.Registry.Routes.{route_key, list_active_routes}
use nexus_cloud.SystemsApi.Registry.Routes.Served.{IsServed, list_active_routes-IsServed}
use nexus_cloud.SystemsApi.Registry.Routes.Table.{list_active_routes-Distinct}
use nexus_cloud.Tests.Data.{env, state, settings, exposure, binding, registry, world}

list_active_routes-IsServed_example :
    All (IsServed registry state) (list_active_routes registry state)
list_active_routes-IsServed_example = list_active_routes-IsServed registry state

list_active_routes-Distinct_example : Distinct route_key (list_active_routes registry state)
list_active_routes-Distinct_example = list_active_routes-Distinct registry state

registry-IsSound : IsSound settings registry
registry-IsSound = record {
  history_bounded = omega arith;
  tools_distinct = (tt, tt);
  urls_distinct = (tt, tt);
  exposures_distinct = (tt, tt);
  domains_distinct = (tt, tt);
  addresses_apart = (tt, tt);
}

abbrev silenced : World
silenced = (revoke_systems_api_exposure settings env "photos" world).1

revoked_exposure_serves_nothing_example :
    All (λ route. route.tool_id ≢ "photos") (list_active_routes silenced.registry.live state)
unfolding revoke_systems_api_exposure revoke_exposure_of get_exposure persist save_state ◌>>=◌
revoked_exposure_serves_nothing_example =
    revoked_exposure_serves_nothing settings env "photos" world silenced
      (revoke_exposure_record (at 1000) exposure) state registry-IsSound refl

abbrev again : ToolRegistrationInput
again = record {
  id = "photos";
  name = "Photos";
  description = "pictures";
  mode = none;
  exposed = none;
  health = none;
  capabilities = none;
  phantom_security_profile = none;
  path = none;
  public_url = none;
  delivery = none;
  upstream_url = none;
}

abbrev beat : HeartbeatPatch
beat = record { upstream_url = none; health = none; phantom_security_profile = none }

abbrev rename : ToolPatchInput
rename = record {
  name = some "Pictures";
  description = none;
  mode = none;
  exposed = none;
  health = none;
  capabilities = none;
  upstream_url = none;
  phantom_security_profile = none;
  requires_auth = none;
}

GateIs-kept_example :
    Preserves
      (GateIs "photos" (some true))
      (register_systems_api_tool settings env synced again (some (num 1)))
    × Preserves
        (GateIs "photos" (some true))
        (record_tool_heartbeat settings env "photos" beat true)
    × Preserves
        (GateIs "photos" (some true))
        (expire_tool_heartbeat settings env "photos" (at 3) true)
    × Preserves (GateIs "photos" (some true)) (enable_systems_api_tool settings env "photos")
    × Preserves (GateIs "photos" (some true)) (disable_systems_api_tool settings env "photos")
GateIs-kept_example =
    GateIs-kept "photos" (some true) settings env "photos" synced again (some (num 1)) beat (at 3)
      true

tool_operations_keep_invariant_example :
    Preserves
      (RegistryIsSound settings)
      (register_systems_api_tool settings env synced again (some (num 1)))
    × Preserves (RegistryIsSound settings) (record_tool_heartbeat settings env "photos" beat false)
    × Preserves
        (RegistryIsSound settings)
        (expire_tool_heartbeat settings env "photos" (at 3) false)
    × Preserves
        (RegistryIsSound settings)
        (update_tool settings env synced "photos" rename (some (num 1)))
    × Preserves (RegistryIsSound settings) (enable_systems_api_tool settings env "photos")
    × Preserves (RegistryIsSound settings) (disable_systems_api_tool settings env "photos")
    × Preserves (RegistryIsSound settings) (deregister_tool env "photos")
tool_operations_keep_invariant_example =
    tool_operations_keep_invariant settings env "photos" synced again rename (some (num 1)) beat
      (at 3) false

abbrev mail : AddressRequest
mail = record { tool_id = "photos"; kind = AddressKind.email; subject = none; desired_host = none }

publishing_operations_keep_invariant_example :
    Preserves (RegistryIsSound settings) (request_systems_api_address settings env mail)
    × Preserves (RegistryIsSound settings) (request_exposure settings env "photos" none)
    × Preserves (RegistryIsSound settings) (request_public_url settings env "photos" none)
    × Preserves (RegistryIsSound settings) (revoke_systems_api_address settings env "photos" none)
    × Preserves (RegistryIsSound settings) (revoke_systems_api_exposure settings env "photos")
    × Preserves
        (RegistryIsSound settings)
        (request_domain_binding settings env "photos" "ada.example")
    × Preserves
        (RegistryIsSound settings)
        (verify_domain_binding settings env "ada.example" "secret")
    × Preserves (RegistryIsSound settings) (revoke_domain_binding settings env "ada.example")
publishing_operations_keep_invariant_example =
    publishing_operations_keep_invariant settings env "photos" "ada.example" "secret" none none mail

verify_domain_binding_by_token_example :
    let r = verify_domain_binding settings env "ada.example" "secret" world in
    let verified : DomainBinding = record binding {
      status = DomainStatus.verified;
      verified_at = some (at 1000);
      updated_at = at 1000;
    } in
    (r.0 ≡ ok (some verified))
    × (get_domain_binding "ada.example" r.1.registry.live ≡ some verified)
    × (r.1.registry.file ≡ r.1.registry.live)
unfolding get_domain_binding
verify_domain_binding_by_token_example =
    verify_domain_binding_by_token settings env "ada.example" "secret" world binding refl refl refl

verified_domain_is_taken_over_example :
    (b : DomainBinding) × (t : World) × (request_domain_binding settings env "photos" "ada.example"
        world
      ≡ (ok (some b), t))
    × (b.tool_id ≡ "photos")
    × (b.domain ≡ "ada.example")
    × (b.status ≡ DomainStatus.verified)
    × (get_domain_binding "ada.example" t.registry.live ≡ some b)
    × (t.registry.file ≡ t.registry.live)
unfolding get_public_url get_domain_binding get_tool evaluate_guardian_request extract_hostname
    is_local_or_private_host is_bad_public_host evaluate_host evaluate_health strip_scheme trim
verified_domain_is_taken_over_example =
    verified_domain_is_taken_over settings env "photos" "ada.example" world binding url refl refl
      refl refl refl (λ i. refl)

abbrev secured : PhantomProfile
secured = record {
  claimed_secured = true;
  protection_level = ProtectionLevel.hardened;
  guarantees = record { post_quantum = true; fhe_transport = true; zk_proofs = true };
  metadata = some (record {
    pq_algorithms = some ("kyber" ∷ []);
    fhe_scheme = some "tfhe";
    zk_proof_system = some "plonk";
    proof_attestation = some "a";
    proof_endpoint = some "/proof";
    last_verified_at = none;
  });
}

phantom_security_tag-hardened_example :
    phantom_security_tag (some secured) ≡ SecurityTag.phantom_hardened
phantom_security_tag-hardened_example = phantom_security_tag-hardened (some secured)

abbrev granted : ExposureRecord
granted = decided_exposure settings env tool none GuardianStatus.approved

abbrev mail_address : Address
mail_address = requested_address settings env mail GuardianStatus.approved

request_address_outcome_example :
    (t : Tool) × (status : GuardianStatus) × (get_tool "photos" registry ≡ some t)
    × (status
        ≡ (evaluate_guardian_request hostname state.peers GuardianScope.exposure
            (some t)
            none).status)
    × (mail_address.tool_id ≡ "photos")
    × (mail_address.kind ≡ AddressKind.email)
    × (mail_address.subject ≡ normalize_subject none "photos")
    × (mail_address.public_address ≡ build_public_address "cloud.test" mail)
    × (address_is_active mail_address.status ≡ is_approved status)
    × (find
          (same_address mail_address)
          (request_systems_api_address settings env mail world).1.registry.live.addresses
        ≡ some mail_address)
unfolding request_systems_api_address request_address_for store_address consult_guardian get_tool
    evaluate_guardian_request extract_hostname is_local_or_private_host is_bad_public_host
    evaluate_host evaluate_health record_guardian_decision upsert_decision write_decision
    record_event upsert_health_check mutate_state save_state push_event create_decision_record
    persist strip_scheme trim ◌>>=◌
request_address_outcome_example =
    request_address_outcome settings env mail world
      (request_systems_api_address settings env mail world).1 mail_address refl
