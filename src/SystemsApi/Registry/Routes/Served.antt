-- ===== src/SystemsApi/Registry/Routes/Served.antt =====
-- What stands behind a route, and that no two routes share a key.
use nexus_cloud.Base.{
  eqb, Bool-cases, length, filter, any, All, Any, All-append, All-weaken, strip_scheme, String, ◌≡◌,
  refl, sym, ◌≢◌, ◌⊎◌, inl, inr, Bool, true, false, Option, none, some, List, [], ◌∷◌, map, arith,
  ◌==◌, eq_iff,
}
use mathlib.Core.Option.{some_inj}
use nexus_cloud.State.Types.{PlatformState, GuardianScope, MaintenanceRecord}
use nexus_cloud.SystemsApi.Types.{Tool, ExposureRecord, Address, DomainBinding, RouteKind, Route}
use nexus_cloud.SystemsApi.Records.{address_is_active, exposure_is_active, domain_is_verified}
use nexus_cloud.SystemsApi.Registry.{Registry, get_tool}
use nexus_cloud.SystemsApi.Registry.Requests.{address_subject, exposure_subject, domain_subject}
use nexus_cloud.SystemsApi.Registry.Routes.{
  is_blocked, gated, routed_tool, upstream_text, route_to, candidate, address_route, exposure_route,
  domain_route, route_key, add_route, add_routes, collect_routes, annotate, window_of,
  list_active_routes,
}

-- The tool that a route leads to.
abbrev pub LeadsToTool : Registry → Route → Type 0
LeadsToTool r route =
    (tool : Tool) × (get_tool route.tool_id r ≡ some tool)
    × (tool.upstream_url ≡ some route.upstream)
    × (route.upstream ≢ "")
    × (route.requires_auth ≡ gated tool.requires_auth)

abbrev pub FromAddress : PlatformState → Route → Address → Type 0
FromAddress s route a =
    (address_is_active a.status ≡ true)
    × (a.tool_id ≡ route.tool_id)
    × (strip_scheme a.public_address ≡ route.domain)
    × (is_blocked s GuardianScope.exposure (address_subject a.tool_id a.kind) ≡ false)

abbrev pub FromExposure : PlatformState → Route → ExposureRecord → Type 0
FromExposure s route e =
    (exposure_is_active e.status ≡ true)
    × (e.tool_id ≡ route.tool_id)
    × (strip_scheme e.public_url ≡ route.domain)
    × (is_blocked s GuardianScope.exposure (exposure_subject e.tool_id) ≡ false)

abbrev pub FromDomain : PlatformState → Route → DomainBinding → Type 0
FromDomain s route b =
    (domain_is_verified b.status ≡ true)
    × (b.tool_id ≡ route.tool_id)
    × (b.domain ≡ route.domain)
    × (is_blocked s GuardianScope.domain (domain_subject b.tool_id b.domain) ≡ false)

abbrev pub IsServed : Registry → PlatformState → Route → Type 0
IsServed r s route =
    (Any (FromAddress s route) r.addresses
      ⊎ Any (FromExposure s route) r.exposures
      ⊎ Any (FromDomain s route) r.domains)
    × LeadsToTool r route

-- A candidate leads to a tool of its id, and its decision does not block it.
candidate-eq-some :
    (r : Registry) (s : PlatformState) (scope : GuardianScope) (subject domain tool_id : String)
    (kind : RouteKind) (route : Route)
    → candidate r s scope subject domain tool_id kind ≡ some route
    → (is_blocked s scope subject ≡ false)
      × (tool_id ≡ route.tool_id)
      × (domain ≡ route.domain)
      × LeadsToTool r route
unfolding candidate
candidate-eq-some r s scope subject domain tool_id kind route h =
    elim (Bool-cases (is_blocked s scope subject)) [
      | inl e ↦ absurd (ground arith)
      | inr e ↦ let (i, d, t) = towards (get_tool tool_id r) refl (rw e at h) in (e, i, d, t)
    ]
  where
    found :
        (tool : Tool) (url : Option String)
        → get_tool tool_id r ≡ some tool
        → tool.upstream_url ≡ url
        → route_to domain tool_id kind (upstream_text tool url) ≡ some route
        → (tool_id ≡ route.tool_id) × (domain ≡ route.domain) × LeadsToTool r route
    found tool none g u h = cc
    found tool (some url) g u h = elim (Bool-cases (url == "")) [
      | inl e ↦ absurd (ground arith)
      | inr e ↦
          let same = some_inj.0 (rw e at h) in
          rw (sym same)
            (refl, refl, (tool, g, u, (λ q. let k = (eq_iff url "").1 q in cc (k, e)), refl))
    ]

    towards :
        (o : Option Tool)
        → get_tool tool_id r ≡ o
        → route_to domain tool_id kind (routed_tool o) ≡ some route
        → (tool_id ≡ route.tool_id) × (domain ≡ route.domain) × LeadsToTool r route
    towards none g h = cc
    towards (some tool) g h = found tool tool.upstream_url g refl h

-- What holds of every route there is and of every new one holds of all.
pub All-add_routes :
    {A : Type 0} (P : Route → Type 0) (make : A → Option Route) (xs : List A) (routes : List Route)
    → All (λ x. (route : Route) → make x ≡ some route → P route) xs
    → All P routes
    → All P (add_routes make xs routes)
unfolding add_routes
All-add_routes P make [] routes k h = h
All-add_routes {A} P make (x ∷ xs) routes k h =
    All-add_routes P make xs (add_route (make x) routes) k.1 (one (make x) refl)
  where
    one : (o : Option Route) → make x ≡ o → All P (add_route o routes)
    one none e = h
    one (some route) e = elim (Bool-cases (any (λ r. route_key r == route_key route) routes)) [
      | inl q ↦ rw q h
      | inr q ↦ rw q (All-append P routes (route ∷ []) h (k.0 route e, tt))
    ]

-- What is made of the elements of a filtered list is made of an element of the list that passes.
made_of :
    {A : Type 0} (F : A → Route → Type 0) (make : A → Option Route) (p : A → Bool) (xs : List A)
    → ((x : A) (route : Route) → p x ≡ true → make x ≡ some route → F x route)
    → All (λ x. (route : Route) → make x ≡ some route → Any (λ y. F y route) xs) (filter p xs)
made_of F make p [] k = tt
made_of {A} F make p (x ∷ xs) k =
    let rest =
      All-weaken (λ z. (route : Route) → make z ≡ some route → Any (λ y. F y route) (x ∷ xs))
        (λ z h route m. inr (h route m)) (filter p xs) (made_of F make p xs k) in
    elim (Bool-cases (p x)) [
      | inl e ↦ rw e ((λ route m. inl (k x route e m)), rest)
      | inr e ↦ rw e rest
    ]

-- What the records of one loop make.
abbrev Makes :
    {A : Type 0} → Registry → PlatformState → (A → Option Route) → (A → Bool) → List A → Type 0
Makes r s make p xs =
    All (λ x. (route : Route) → make x ≡ some route → IsServed r s route) (filter p xs)

addresses_make :
    (r : Registry) (s : PlatformState)
    → Makes r s (address_route r s) (λ a. address_is_active a.status) r.addresses
addresses_make r s =
    All-weaken (λ x. (route : Route) → address_route r s x ≡ some route → IsServed r s route)
      (λ a h route m. (inl (h route m), (of a route m).3))
      (filter (λ a. address_is_active a.status) r.addresses)
      (made_of (λ a route. FromAddress s route a) (address_route r s)
        (λ a. address_is_active a.status) r.addresses
        (λ a route e m. let (i, t, d, l) = of a route m in (e, t, d, i)))
  where
    of :
        (a : Address) (route : Route)
        → address_route r s a ≡ some route
        → (is_blocked s GuardianScope.exposure (address_subject a.tool_id a.kind) ≡ false)
          × (a.tool_id ≡ route.tool_id)
          × (strip_scheme a.public_address ≡ route.domain)
          × LeadsToTool r route
    of a route m =
        candidate-eq-some r s GuardianScope.exposure (address_subject a.tool_id a.kind)
          (strip_scheme a.public_address) a.tool_id RouteKind.website route m

exposures_make :
    (r : Registry) (s : PlatformState)
    → Makes r s (exposure_route r s) (λ e. exposure_is_active e.status) r.exposures
exposures_make r s =
    All-weaken (λ x. (route : Route) → exposure_route r s x ≡ some route → IsServed r s route)
      (λ a h route m. (inr (inl (h route m)), (of a route m).3))
      (filter (λ e. exposure_is_active e.status) r.exposures)
      (made_of (λ a route. FromExposure s route a) (exposure_route r s)
        (λ e. exposure_is_active e.status) r.exposures
        (λ a route e m. let (i, t, d, l) = of a route m in (e, t, d, i)))
  where
    of :
        (e : ExposureRecord) (route : Route)
        → exposure_route r s e ≡ some route
        → (is_blocked s GuardianScope.exposure (exposure_subject e.tool_id) ≡ false)
          × (e.tool_id ≡ route.tool_id)
          × (strip_scheme e.public_url ≡ route.domain)
          × LeadsToTool r route
    of e route m =
        candidate-eq-some r s GuardianScope.exposure (exposure_subject e.tool_id)
          (strip_scheme e.public_url) e.tool_id RouteKind.exposure route m

domains_make :
    (r : Registry) (s : PlatformState)
    → Makes r s (domain_route r s) (λ b. domain_is_verified b.status) r.domains
domains_make r s =
    All-weaken (λ x. (route : Route) → domain_route r s x ≡ some route → IsServed r s route)
      (λ a h route m. (inr (inr (h route m)), (of a route m).3))
      (filter (λ b. domain_is_verified b.status) r.domains)
      (made_of (λ a route. FromDomain s route a) (domain_route r s)
        (λ b. domain_is_verified b.status) r.domains
        (λ a route e m. let (i, t, d, l) = of a route m in (e, t, d, i)))
  where
    of :
        (b : DomainBinding) (route : Route)
        → domain_route r s b ≡ some route
        → (is_blocked s GuardianScope.domain (domain_subject b.tool_id b.domain) ≡ false)
          × (b.tool_id ≡ route.tool_id)
          × (b.domain ≡ route.domain)
          × LeadsToTool r route
    of b route m =
        candidate-eq-some r s GuardianScope.domain (domain_subject b.tool_id b.domain) b.domain
          b.tool_id RouteKind.custom_domain route m

collect_routes-IsServed :
    (r : Registry) (s : PlatformState) → All (IsServed r s) (collect_routes r s)
unfolding collect_routes
collect_routes-IsServed r s =
    let with_addresses =
      add_routes (address_route r s) (filter (λ a. address_is_active a.status) r.addresses) [] in
    let with_exposures =
      add_routes (exposure_route r s) (filter (λ e. exposure_is_active e.status) r.exposures)
        with_addresses in
    All-add_routes (IsServed r s) (domain_route r s)
      (filter (λ b. domain_is_verified b.status) r.domains) with_exposures (domains_make r s)
      (All-add_routes (IsServed r s) (exposure_route r s)
        (filter (λ e. exposure_is_active e.status) r.exposures) with_addresses (exposures_make r s)
        (All-add_routes (IsServed r s) (address_route r s)
          (filter (λ a. address_is_active a.status) r.addresses) [] (addresses_make r s) tt))

-- An annotation leaves what a route is served for.
All-annotate :
    (r : Registry) (s : PlatformState) (routes : List Route)
    → All (IsServed r s) routes
    → All (IsServed r s) (map (λ route. annotate (window_of s route) route) routes)
All-annotate r s [] h = tt
All-annotate r s (route ∷ rest) h = (kept (window_of s route), All-annotate r s rest h.1)
  where
    kept : (o : Option MaintenanceRecord) → IsServed r s (annotate o route)
    kept none = h.0
    kept (some m) = h.0

-- Every route of the table comes from an active address, an active exposure or a verified domain
-- binding of its tool and domain whose own guardian decision does not block it, and it leads to the
-- tool of its id, at that tool's upstream, which is not empty, gated as the tool's record says.
pub list_active_routes-IsServed :
    (r : Registry) (s : PlatformState) → All (IsServed r s) (list_active_routes r s)
unfolding list_active_routes
list_active_routes-IsServed r s = elim (Bool-cases (eqb (length s.maintenance) 0)) [
  | inl e ↦ rw e (collect_routes-IsServed r s)
  | inr e ↦ rw e (All-annotate r s (collect_routes r s) (collect_routes-IsServed r s))
]
