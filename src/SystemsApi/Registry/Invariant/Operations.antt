-- ===== src/SystemsApi/Registry/Invariant/Operations.antt =====
-- The operations that publish and withdraw, taken together.
use nexus_cloud.Base.{Env, String, Option, Preserves}
use nexus_cloud.SystemsApi.Types.{AddressKind}
use nexus_cloud.SystemsApi.Records.{AddressRequest}
use nexus_cloud.SystemsApi.Registry.{Settings}
use nexus_cloud.SystemsApi.Registry.Invariant.Steps.{RegistryIsSound}
use nexus_cloud.SystemsApi.Registry.Invariant.Publishing.{
  Preserves-request_address, Preserves-request_public_url, Preserves-request_exposure,
}
use nexus_cloud.SystemsApi.Registry.Invariant.Withdrawing.{
  Preserves-revoke_address, Preserves-revoke_exposure, Preserves-request_domain,
  Preserves-verify_domain, Preserves-revoke_domain,
}
use nexus_cloud.SystemsApi.Registry.Requests.{
  request_systems_api_address, request_exposure, request_public_url,
}
use nexus_cloud.SystemsApi.Registry.Revocation.{
  revoke_systems_api_address, revoke_systems_api_exposure,
}
use nexus_cloud.SystemsApi.Registry.Domains.{
  request_domain_binding, verify_domain_binding, revoke_domain_binding,
}

-- Every request, revocation and domain operation keeps the registry's invariant, whether it returns
-- or throws: the history is within its limit, no two tools, public URLs or exposures share a tool id,
-- no two bindings a domain, and no two addresses the tool, kind and subject.
pub publishing_operations_keep_invariant :
    (settings : Settings) (env : Env) (tool_id domain token : String) (host : Option String)
    (kind : Option AddressKind) (input : AddressRequest)
    → Preserves (RegistryIsSound settings) (request_systems_api_address settings env input)
      × Preserves (RegistryIsSound settings) (request_exposure settings env tool_id host)
      × Preserves (RegistryIsSound settings) (request_public_url settings env tool_id host)
      × Preserves (RegistryIsSound settings) (revoke_systems_api_address settings env tool_id kind)
      × Preserves (RegistryIsSound settings) (revoke_systems_api_exposure settings env tool_id)
      × Preserves (RegistryIsSound settings) (request_domain_binding settings env tool_id domain)
      × Preserves (RegistryIsSound settings) (verify_domain_binding settings env domain token)
      × Preserves (RegistryIsSound settings) (revoke_domain_binding settings env domain)
publishing_operations_keep_invariant settings env tool_id domain token host kind input = (
  Preserves-request_address settings env input,
  Preserves-request_exposure settings env tool_id host,
  Preserves-request_public_url settings env tool_id host,
  Preserves-revoke_address settings env tool_id kind,
  Preserves-revoke_exposure settings env tool_id,
  Preserves-request_domain settings env tool_id domain,
  Preserves-verify_domain settings env domain token,
  Preserves-revoke_domain settings env domain,
)
