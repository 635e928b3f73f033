-- ===== src/SystemsApi/Registry/Routes.antt =====
-- The routing table of the proxies: listActiveRoutes of src/systems-api/registry.ts.
pub mod Served
pub mod Keys
pub mod Table
use nexus_cloud.Base.{
  eqb, if◌then◌else◌, template, length, filter, any, find, strip_scheme, String, Bool, true, false,
  ◌||◌, Option, none, some, List, [], ◌∷◌, ◌++◌, map, ◌==◌,
}
use nexus_cloud.State.Types.{
  PlatformState, GuardianScope, GuardianStatus, GuardianDecision, MaintenanceRecord,
}
use nexus_cloud.Guardian.Decisions.{get_guardian_decision}
use nexus_cloud.SystemsApi.Types.{Tool, ExposureRecord, Address, DomainBinding, RouteKind, Route}
use nexus_cloud.SystemsApi.Records.{address_is_active, exposure_is_active, domain_is_verified}
use nexus_cloud.SystemsApi.Registry.{
  Registry, get_tool, phantom_security_tag, phantom_protection_level,
}
use nexus_cloud.SystemsApi.Registry.Requests.{address_subject, exposure_subject, domain_subject}

-- `BLOCKED.includes(status)`
abbrev pub is_blocked_status : GuardianStatus → Bool
is_blocked_status GuardianStatus.denied = true
is_blocked_status GuardianStatus.suspended = true
is_blocked_status GuardianStatus.quarantined = true
is_blocked_status _ = false

abbrev pub decision_blocks : Option GuardianDecision → Bool
decision_blocks none = false
decision_blocks (some d) = is_blocked_status d.status

unfoldable pub is_blocked : PlatformState → GuardianScope → String → Bool
is_blocked s scope subject_id = decision_blocks (get_guardian_decision scope subject_id s)

-- The upstream of a tool, none where the code skips the route: no tool, no URL, or an empty one.
abbrev pub upstream_text : Tool → Option String → Option (Tool × String)
upstream_text tool none = none
upstream_text tool (some url) = if url == "" then none else some (tool, url)

abbrev pub upstream_of : Tool → Option (Tool × String)
upstream_of tool = upstream_text tool tool.upstream_url

abbrev pub routed_tool : Option Tool → Option (Tool × String)
routed_tool none = none
routed_tool (some tool) = upstream_of tool

-- `tool.requiresAuth === true`
abbrev pub gated : Option Bool → Bool
gated none = false
gated (some b) = b

abbrev pub route_to : String → String → RouteKind → Option (Tool × String) → Option Route
route_to domain tool_id kind none = none
route_to domain tool_id kind (some (tool, upstream)) = some (record {
  domain = domain;
  upstream = upstream;
  tool_id = tool_id;
  kind = kind;
  security_tag = phantom_security_tag tool.phantom_security_profile;
  phantom_protection_level = phantom_protection_level tool.phantom_security_profile;
  requires_auth = gated tool.requires_auth;
  maintenance = none;
})

-- The route of one record, where it has one: its decision does not block it, and its tool has an
-- upstream.
unfoldable pub candidate :
    Registry → PlatformState → GuardianScope → String → String → String → RouteKind → Option Route
candidate r s scope subject_id domain tool_id kind =
    if is_blocked s scope subject_id
    then none
    else route_to domain tool_id kind (routed_tool (get_tool tool_id r))

abbrev pub address_route : Registry → PlatformState → Address → Option Route
address_route r s a =
    candidate r s GuardianScope.exposure (address_subject a.tool_id a.kind)
      (strip_scheme a.public_address) a.tool_id RouteKind.website

abbrev pub exposure_route : Registry → PlatformState → ExposureRecord → Option Route
exposure_route r s e =
    candidate r s GuardianScope.exposure (exposure_subject e.tool_id) (strip_scheme e.public_url)
      e.tool_id RouteKind.exposure

abbrev pub domain_route : Registry → PlatformState → DomainBinding → Option Route
domain_route r s b =
    candidate r s GuardianScope.domain (domain_subject b.tool_id b.domain) b.domain b.tool_id
      RouteKind.custom_domain

-- `${domain}:${toolId}`
abbrev pub route_key : Route → String
route_key route = template (route.domain ∷ ":" ∷ route.tool_id ∷ [])

-- `routes` and `seen`; the set holds the keys of the routes.
abbrev pub add_route : Option Route → List Route → List Route
add_route none routes = routes
add_route (some route) routes =
    if any (λ r. route_key r == route_key route) routes then routes else routes ++ route ∷ []

-- One of the three loops.
unfoldable pub add_routes : {A : Type 0} → (A → Option Route) → List A → List Route → List Route
add_routes make [] routes = routes
add_routes make (x ∷ xs) routes = add_routes make xs (add_route (make x) routes)

unfoldable pub collect_routes : Registry → PlatformState → List Route
unfolding add_routes candidate
collect_routes r s =
    add_routes (domain_route r s) (filter (λ b. domain_is_verified b.status) r.domains) (
      add_routes (exposure_route r s) (filter (λ e. exposure_is_active e.status) r.exposures)
        (add_routes (address_route r s) (filter (λ a. address_is_active a.status) r.addresses) []))

abbrev pub annotate : Option MaintenanceRecord → Route → Route
annotate none route = route
annotate (some m) route = record route {
  maintenance = some (record {
    part = m.part;
    reason = m.reason;
    started_at = m.started_at;
    expected_end_at = m.expected_end_at;
  });
}

-- The window that holds for a route: the first of its domain or its tool.
abbrev pub window_of : PlatformState → Route → Option MaintenanceRecord
window_of s route =
    find (λ m. m.subject_id == route.domain || m.subject_id == route.tool_id) s.maintenance

unfoldable pub list_active_routes : Registry → PlatformState → List Route
list_active_routes r s =
    let routes = collect_routes r s in
    if eqb (length s.maintenance) 0
    then routes
    else map (λ route. annotate (window_of s route) route) routes
