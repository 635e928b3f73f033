-- ===== src/SystemsApi/Registry/Requests.antt =====
-- Asking for an address or an exposure: requestSystemsApiAddress, requestExposure and
-- requestPublicUrl of src/systems-api/registry.ts. Each reading of the clock and each UUID has its
-- own number, and a branch that does not take a reading skips its number.
pub mod Granted
pub mod Addressed
use nexus_cloud.Base.{
  if◌then◌else◌, or_else, or_maybe, template, strip_scheme, Stamp, Env, later, now, Action, pure,
  gets, ◌>>=◌, ◌>>◌, at, ◌+◌, String, Bool, true, false, Option, none, some, [], ◌∷◌, ◌==◌,
}
use nexus_cloud.Observability.Types.{SignalKind, ObservabilityEvent}
use nexus_cloud.Observability.Service.{record_event}
use nexus_cloud.State.Types.{GuardianScope, GuardianStatus}
use nexus_cloud.Guardian.Policy.{evaluate_guardian_request}
use nexus_cloud.Guardian.Decisions.{record_guardian_decision, decision_level, status_text}
use nexus_cloud.SystemsApi.Types.{
  Tool, ToolExposure, HistoryAction, ExposureRecord, ExposureStatus, PublicUrl, PublicUrlStatus,
  AddressKind, AddressStatus, Address,
}
use nexus_cloud.SystemsApi.Records.{
  AddressRequest, build_public_address, build_public_url, create_address_record,
  create_exposure_record, transition_exposure_record,
}
use nexus_cloud.SystemsApi.Registry.{
  Settings, Registry, World, get_tool, get_public_url, get_exposure, on_platform, change_registry,
  persist, push_history, update_tool_record, upsert_exposure_record, upsert_public_url_record,
  upsert_address_record,
}

abbrev pub kind_text : AddressKind → String
kind_text AddressKind.website = "website"
kind_text AddressKind.email = "email"
kind_text AddressKind.server = "server"
kind_text AddressKind.custom = "custom"

abbrev pub is_website : AddressKind → Bool
is_website AddressKind.website = true
is_website _ = false

abbrev pub is_approved : GuardianStatus → Bool
is_approved GuardianStatus.approved = true
is_approved _ = false

-- The subjects of the guardian's decisions.
abbrev pub address_subject : String → AddressKind → String
address_subject tool_id kind = template (tool_id ∷ ":address:" ∷ kind_text kind ∷ [])

abbrev pub exposure_subject : String → String
exposure_subject tool_id = template (tool_id ∷ ":exposure" ∷ [])

abbrev pub domain_subject : String → String → String
domain_subject tool_id domain = template (tool_id ∷ ":domain:" ∷ domain ∷ [])

abbrev pub exposure_status_of : GuardianStatus → ExposureStatus
exposure_status_of GuardianStatus.approved = ExposureStatus.active
exposure_status_of GuardianStatus.quarantined = ExposureStatus.quarantined
exposure_status_of _ = ExposureStatus.denied

-- `guardianService.evaluateGuardianRequest` on the present state, its decision recorded.
unfoldable pub consult_guardian :
    Settings
    → Env
    → GuardianScope
    → Option Tool
    → String
    → String
    → Option String
    → Action World GuardianStatus
consult_guardian settings env scope tool tool_id subject_id desired_host = do
  decision ← gets (λ w.
      evaluate_guardian_request settings.url_hostname w.platform.store.live.peers scope tool
        desired_host)
  on_platform (
      record_guardian_decision env (record {
        tool_id = tool_id;
        scope = scope;
        subject_id = subject_id;
        status = decision.status;
        reason = decision.reason;
        actor = none;
        metadata = decision.metadata;
      }))
  pure decision.status

abbrev pub request_event : String → String → GuardianStatus → String → Stamp → ObservabilityEvent
request_event what subject_id status name t = record {
  kind = SignalKind.audit;
  subject_id = subject_id;
  message = template (what ∷ " " ∷ status_text status ∷ " for " ∷ name ∷ []);
  timestamp = t;
  level = some (decision_level status);
  source = some "systems-api";
  metadata = [];
}

-- The tool is made public, and its URL replaced where there is a new one.
abbrev pub publish : Stamp → Option String → Tool → Tool
publish t url current = record current {
  exposed = true;
  exposure = ToolExposure.public;
  public_url = or_maybe url current.public_url;
  updated_at = t;
}

abbrev pub publish_if : Bool → String → Stamp → Option String → Registry → Registry
publish_if true tool_id t url r = update_tool_record tool_id (publish t url) r
publish_if false tool_id t url r = r

abbrev pub log_if : Bool → Settings → String → HistoryAction → String → Stamp → Registry → Registry
log_if true settings tool_id action summary t r = push_history settings tool_id action summary t r
log_if false settings tool_id action summary t r = r

abbrev pub requested_exposure :
    Settings
    → Env
    → AddressRequest
    → String
    → GuardianStatus
    → Option ExposureRecord
    → ExposureRecord
requested_exposure settings env input public_address status none =
    create_exposure_record settings.cloud_domain (env.uuid 2) (now env 1) input.tool_id
      input.desired_host public_address (exposure_status_of status)
requested_exposure settings env input public_address status (some existing) =
    transition_exposure_record existing (exposure_status_of status) public_address (now env 1)

abbrev pub log_exposure : Settings → Tool → GuardianStatus → ExposureRecord → Registry → Registry
log_exposure settings tool status e r =
    log_if (is_approved status) settings tool.id HistoryAction.exposure_activated
      (template ("Activated exposure for " ∷ tool.name ∷ [])) (or_else e.activated_at e.updated_at)
      (push_history settings tool.id HistoryAction.exposure_requested
        (template ("Requested exposure for " ∷ tool.name ∷ [])) e.requested_at r)

-- What a website address brings with it: a public URL and an exposure.
unfoldable pub issue_website :
    Settings → Env → AddressRequest → Tool → GuardianStatus → String → Registry → Registry
issue_website settings env input tool status public_address r =
    let url : PublicUrl = record {
      tool_id = tool.id;
      url = public_address;
      status = if is_approved status then PublicUrlStatus.active else PublicUrlStatus.pending;
      issued_at = now env 1;
      expires_at = at (env.clock 3 + 2592000000);
    } in
    let e = requested_exposure settings env input public_address status (get_exposure tool.id r) in
    log_exposure settings tool status e (
      log_if (is_approved status) settings tool.id HistoryAction.public_url_issued
        (template ("Issued public URL for " ∷ tool.name ∷ [])) (now env 1)
        (upsert_exposure_record e (upsert_public_url_record url r)))

abbrev pub requested_address : Settings → Env → AddressRequest → GuardianStatus → Address
requested_address settings env input status =
    create_address_record settings.cloud_domain (env.uuid 1) (now env 1) input
      (build_public_address settings.cloud_domain input)
      (if is_approved status then AddressStatus.active else AddressStatus.requested)

-- The changes of the registry that the decision brings.
unfoldable pub issue_address :
    Settings → Env → AddressRequest → Tool → GuardianStatus → Registry → Registry
unfolding issue_website upsert_address_record
issue_address settings env input tool status r =
    let public_address = build_public_address settings.cloud_domain input in
    let stored =
      publish_if (is_approved status) tool.id (now env 2)
        (if is_website input.kind then some public_address else none)
        (upsert_address_record (requested_address settings env input status) r) in
    let website = issue_website settings env input tool status public_address stored in
    if is_website input.kind then website else stored

unfoldable pub store_address :
    Settings → Env → AddressRequest → Tool → GuardianStatus → Action World (Option Address)
store_address settings env input tool status = do
  change_registry (issue_address settings env input tool status)
  on_platform (
      record_event (later 4 env)
        (request_event "Address request" tool.id status tool.name (now env 1)))
  change_registry (
      push_history settings tool.id HistoryAction.address_issued
        (template (
          "Issued "
          ∷ kind_text input.kind
          ∷ " address "
          ∷ build_public_address settings.cloud_domain input
          ∷ []))
        (now env 1))
  persist (env.write 6)
  pure (some (requested_address settings env input status))

unfoldable pub request_address_for :
    Settings → Env → AddressRequest → Option Tool → Action World (Option Address)
request_address_for settings env input none = pure none
request_address_for settings env input (some tool) = do
  status ←
      consult_guardian settings env GuardianScope.exposure (some tool) tool.id
        (address_subject tool.id input.kind) input.desired_host
  store_address settings env input tool status

unfoldable pub request_systems_api_address :
    Settings → Env → AddressRequest → Action World (Option Address)
request_systems_api_address settings env input = do
  found ← gets (λ w. get_tool input.tool_id w.registry.live)
  request_address_for settings env input found

-- `requestPublicUrl`'s subject: `desiredHost?.replace(/^https?:\/\//, "") || tool.id`
abbrev pub website_subject : Option String → String → String
website_subject none tool_id = tool_id
website_subject (some host) tool_id =
    let bare = strip_scheme host in if bare == "" then tool_id else bare

abbrev pub issued_url : String → Option Address → Action World (Option PublicUrl)
issued_url tool_id none = pure none
issued_url tool_id (some _) = gets (λ w. get_public_url tool_id w.registry.live)

unfoldable pub request_public_url_for :
    Settings → Env → Option String → Option Tool → Action World (Option PublicUrl)
request_public_url_for settings env desired_host none = pure none
request_public_url_for settings env desired_host (some tool) = do
  requested ← request_systems_api_address settings env (record {
    tool_id = tool.id;
    kind = AddressKind.website;
    subject = some (website_subject desired_host tool.id);
    desired_host = desired_host;
  })
  issued_url tool.id requested

unfoldable pub request_public_url :
    Settings → Env → String → Option String → Action World (Option PublicUrl)
request_public_url settings env tool_id desired_host = do
  found ← gets (λ w. get_tool tool_id w.registry.live)
  request_public_url_for settings env desired_host found

abbrev pub decided_exposure :
    Settings → Env → Tool → Option String → GuardianStatus → ExposureRecord
decided_exposure settings env tool desired_host status =
    let public_url = build_public_url settings.cloud_domain tool.id desired_host in
    transition_exposure_record
      (create_exposure_record settings.cloud_domain (env.uuid 1) (now env 1) tool.id desired_host
        public_url ExposureStatus.requested)
      (exposure_status_of status) public_url (now env 2)

unfoldable pub store_exposure :
    Settings → Env → Tool → GuardianStatus → ExposureRecord → Action World (Option ExposureRecord)
store_exposure settings env tool status e = do
  change_registry (upsert_exposure_record e)
  change_registry (publish_if (is_approved status) tool.id (now env 3) (some e.public_url))
  change_registry (log_exposure settings tool status e)
  on_platform
      (record_event (later 4 env) (request_event "Exposure" tool.id status tool.name e.updated_at))
  persist (env.write 6)
  pure (some e)

unfoldable pub request_exposure_for :
    Settings → Env → Option String → Option Tool → Action World (Option ExposureRecord)
request_exposure_for settings env desired_host none = pure none
request_exposure_for settings env desired_host (some tool) = do
  status ←
      consult_guardian settings env GuardianScope.exposure (some tool) tool.id
        (exposure_subject tool.id) desired_host
  store_exposure settings env tool status (decided_exposure settings env tool desired_host status)

unfoldable pub request_exposure :
    Settings → Env → String → Option String → Action World (Option ExposureRecord)
request_exposure settings env tool_id desired_host = do
  found ← gets (λ w. get_tool tool_id w.registry.live)
  request_exposure_for settings env desired_host found
