-- ===== src/SystemsApi/Registry/Invariant/Publishing.antt =====
-- The requests, the revocations and the domain operations keep the registry's invariant.
use nexus_cloud.Base.{
  if◌then◌else◌, Stamp, Env, gets, Preserves-pure, Preserves-gets, Preserves-bind, preserves_rules,
  String, refl, Bool, true, false, Option, none, some, Preserves,
}
use nexus_cloud.State.Types.{GuardianScope, GuardianStatus}
use nexus_cloud.SystemsApi.Types.{Tool, HistoryAction, ExposureRecord, Address}
use nexus_cloud.SystemsApi.Records.{AddressRequest}
use nexus_cloud.SystemsApi.Registry.{Settings, Registry, get_tool, get_public_url}
use nexus_cloud.SystemsApi.Registry.Invariant.{
  IsSound, push_history-IsSound, update_tool_record-IsSound, upsert_exposure_record-IsSound,
  upsert_public_url_record-IsSound, upsert_address_record-IsSound,
}
use nexus_cloud.SystemsApi.Registry.Invariant.Steps.{
  RegistryIsSound, Preserves-change_registry, Preserves-persist, Preserves-on_platform,
}
use nexus_cloud.SystemsApi.Registry.Requests.{
  publish, publish_if, log_if, log_exposure, issue_website, issue_address, consult_guardian,
  request_address_for, store_address, request_systems_api_address, request_exposure_for,
  store_exposure, request_exposure, request_public_url, request_public_url_for, issued_url,
}

module _ (settings : Settings) where
  -- A conditional change is sound where both of its branches are.
  pub if-IsSound :
      (b : Bool) (one other : Registry)
      → IsSound settings one
      → IsSound settings other
      → IsSound settings (if b then one else other)
  if-IsSound true one other h k = h
  if-IsSound false one other h k = k

  publish_if-IsSound :
      (b : Bool) (tool_id : String) (t : Stamp) (url : Option String) (r : Registry)
      → IsSound settings r
      → IsSound settings (publish_if b tool_id t url r)
  publish_if-IsSound true tool_id t url r h =
      update_tool_record-IsSound settings tool_id (publish t url) r (λ _. refl) h
  publish_if-IsSound false tool_id t url r h = h

  log_if-IsSound :
      (b : Bool) (tool_id : String) (action : HistoryAction) (summary : String) (t : Stamp)
      (r : Registry)
      → IsSound settings r
      → IsSound settings (log_if b settings tool_id action summary t r)
  log_if-IsSound true tool_id action summary t r h =
      push_history-IsSound settings tool_id action summary t r h
  log_if-IsSound false tool_id action summary t r h = h

  log_exposure-IsSound :
      (tool : Tool) (status : GuardianStatus) (e : ExposureRecord) (r : Registry)
      → IsSound settings r
      → IsSound settings (log_exposure settings tool status e r)
  log_exposure-IsSound tool status e r h =
      log_if-IsSound _ _ _ _ _ _ (push_history-IsSound settings _ _ _ _ r h)

  issue_website-IsSound :
      (env : Env) (input : AddressRequest) (tool : Tool) (status : GuardianStatus)
      (public_address : String) (r : Registry)
      → IsSound settings r
      → IsSound settings (issue_website settings env input tool status public_address r)
  unfolding issue_website
  issue_website-IsSound env input tool status public_address r h = search (
    log_exposure-IsSound, log_if-IsSound, upsert_exposure_record-IsSound,
    upsert_public_url_record-IsSound,
  )

  issue_address-IsSound :
      (env : Env) (input : AddressRequest) (tool : Tool) (status : GuardianStatus) (r : Registry)
      → IsSound settings r
      → IsSound settings (issue_address settings env input tool status r)
  unfolding issue_address
  issue_address-IsSound env input tool status r h =
      search (if-IsSound, issue_website-IsSound, publish_if-IsSound, upsert_address_record-IsSound)

  pub Preserves-consult_guardian :
      (env : Env) (scope : GuardianScope) (tool : Option Tool) (tool_id subject_id : String)
      (host : Option String)
      → Preserves
          (RegistryIsSound settings)
          (consult_guardian settings env scope tool tool_id subject_id host)
  unfolding consult_guardian
  Preserves-consult_guardian env scope tool tool_id subject_id host =
      search (preserves_rules, Preserves-on_platform)

  pub Preserves-request_address :
      (env : Env) (input : AddressRequest)
      → Preserves (RegistryIsSound settings) (request_systems_api_address settings env input)
  unfolding request_systems_api_address request_address_for store_address
  Preserves-request_address env input =
      Preserves-bind (gets (λ w. get_tool input.tool_id w.registry.live))
        (request_address_for settings env input)
        (Preserves-gets (λ w. get_tool input.tool_id w.registry.live)) found
    where
      found :
          (t : Option Tool)
          → Preserves (RegistryIsSound settings) (request_address_for settings env input t)
      found none = Preserves-pure none
      found (some t) =
          search
            (
              preserves_rules, Preserves-consult_guardian, Preserves-change_registry,
              Preserves-persist, Preserves-on_platform, issue_address-IsSound, push_history-IsSound,
            )
            depth 14

  pub Preserves-request_public_url :
      (env : Env) (tool_id : String) (host : Option String)
      → Preserves (RegistryIsSound settings) (request_public_url settings env tool_id host)
  unfolding request_public_url request_public_url_for
  Preserves-request_public_url env tool_id host =
      Preserves-bind (gets (λ w. get_tool tool_id w.registry.live))
        (request_public_url_for settings env host)
        (Preserves-gets (λ w. get_tool tool_id w.registry.live)) found
    where
      answered :
          (id : String) (a : Option Address)
          → Preserves (RegistryIsSound settings) (issued_url id a)
      answered id none = Preserves-pure none
      answered id (some a) = Preserves-gets (λ w. get_public_url id w.registry.live)

      found :
          (t : Option Tool)
          → Preserves (RegistryIsSound settings) (request_public_url_for settings env host t)
      found none = Preserves-pure none
      found (some t) =
          Preserves-bind _ (issued_url t.id) (Preserves-request_address env _) (answered t.id)

  pub Preserves-request_exposure :
      (env : Env) (tool_id : String) (host : Option String)
      → Preserves (RegistryIsSound settings) (request_exposure settings env tool_id host)
  unfolding request_exposure request_exposure_for store_exposure
  Preserves-request_exposure env tool_id host =
      Preserves-bind (gets (λ w. get_tool tool_id w.registry.live))
        (request_exposure_for settings env host)
        (Preserves-gets (λ w. get_tool tool_id w.registry.live)) found
    where
      found :
          (t : Option Tool)
          → Preserves (RegistryIsSound settings) (request_exposure_for settings env host t)
      found none = Preserves-pure none
      found (some t) =
          search
            (
              preserves_rules, Preserves-consult_guardian, Preserves-change_registry,
              Preserves-persist, Preserves-on_platform, upsert_exposure_record-IsSound,
              publish_if-IsSound, log_exposure-IsSound,
            )
            depth 14
