-- ===== src/SystemsApi/Registry/Routes/Table.antt =====
-- The routing table as a table: no key stands in it twice, and every record that has a route is in it.
use nexus_cloud.Base.{
  eqb, Bool-cases, length, filter, Any, Distinct, Distinct-map, strip_scheme, String, ◌≡◌, refl,
  ◌⊎◌, inl, inr, Bool, true, false, Option, none, some, [],
}
use nexus_cloud.State.Types.{PlatformState, GuardianScope, MaintenanceRecord}
use nexus_cloud.SystemsApi.Types.{Route}
use nexus_cloud.SystemsApi.Records.{address_is_active, exposure_is_active, domain_is_verified}
use nexus_cloud.SystemsApi.Registry.{Registry}
use nexus_cloud.SystemsApi.Registry.Requests.{address_subject, exposure_subject, domain_subject}
use nexus_cloud.SystemsApi.Registry.Routes.{
  is_blocked, address_route, exposure_route, domain_route, route_key, add_routes, collect_routes,
  annotate, window_of, list_active_routes,
}
use nexus_cloud.SystemsApi.Registry.Routes.Keys.{Distinct-add_routes}

annotate-key :
    (o : Option MaintenanceRecord) (route : Route) → route_key (annotate o route) ≡ route_key route
annotate-key none route = refl
annotate-key (some m) route = refl

-- No two routes of the table have the same domain and tool.
pub list_active_routes-Distinct :
    (r : Registry) (s : PlatformState) → Distinct route_key (list_active_routes r s)
unfolding list_active_routes collect_routes
list_active_routes-Distinct r s =
    let with_addresses =
      add_routes (address_route r s) (filter (λ a. address_is_active a.status) r.addresses) [] in
    let with_exposures =
      add_routes (exposure_route r s) (filter (λ e. exposure_is_active e.status) r.exposures)
        with_addresses in
    let d =
      Distinct-add_routes (domain_route r s) (filter (λ b. domain_is_verified b.status) r.domains)
        with_exposures
        (Distinct-add_routes (exposure_route r s)
          (filter (λ e. exposure_is_active e.status) r.exposures) with_addresses
          (Distinct-add_routes (address_route r s)
            (filter (λ a. address_is_active a.status) r.addresses) [] tt)) in
    elim (Bool-cases (eqb (length s.maintenance) 0)) [
      | inl e ↦ rw e d
      | inr e ↦ rw e (
          Distinct-map route_key (λ route. annotate (window_of s route) route) (collect_routes r s)
            (λ route. annotate-key (window_of s route) route) d)
    ]

-- A record of one of the three lists that is in force and whose own decision does not block it
-- publishes the tool under the domain.
abbrev pub IsPublished : Registry → PlatformState → String → String → Type 0
IsPublished r s domain tool_id =
    Any
      (λ a.
        (address_is_active a.status ≡ true)
        × (is_blocked s GuardianScope.exposure (address_subject a.tool_id a.kind) ≡ false)
        × (strip_scheme a.public_address ≡ domain)
        × (a.tool_id ≡ tool_id))
      r.addresses
    ⊎ Any
        (λ e.
          (exposure_is_active e.status ≡ true)
          × (is_blocked s GuardianScope.exposure (exposure_subject e.tool_id) ≡ false)
          × (strip_scheme e.public_url ≡ domain)
          × (e.tool_id ≡ tool_id))
        r.exposures
    ⊎ Any
        (λ b.
          (domain_is_verified b.status ≡ true)
          × (is_blocked s GuardianScope.domain (domain_subject b.tool_id b.domain) ≡ false)
          × (b.domain ≡ domain)
          × (b.tool_id ≡ tool_id))
        r.domains

-- An element that a loop takes and that has a route of the key.
abbrev Routed : {A : Type 0} → (A → Bool) → (A → Option Route) → String → A → Type 0
Routed p make key x =
    (p x ≡ true) × ((route : Route) × (make x ≡ some route) × (route_key route ≡ key))
