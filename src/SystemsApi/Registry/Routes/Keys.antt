-- ===== src/SystemsApi/Registry/Routes/Keys.antt =====
-- The keys of the routes that the loops of `listActiveRoutes` of src/systems-api/registry.ts add.
use nexus_cloud.Base.{
  Bool-cases, str-eq_self, any, All, All-weaken, Distinct, Distinct-append_new, String, ◌≡◌, refl,
  inl, inr, Bool, true, Option, none, some, List, [], ◌∷◌, ◌++◌, ◌==◌,
}
use nexus_cloud.SystemsApi.Types.{Route}
use nexus_cloud.SystemsApi.Registry.Routes.{route_key, add_route, add_routes}

abbrev pub HasKey : List Route → String → Type 0
HasKey routes key = any (λ r. route_key r == key) routes ≡ true

pub Distinct-add_routes :
    {A : Type 0} (make : A → Option Route) (xs : List A) (routes : List Route)
    → Distinct route_key routes
    → Distinct route_key (add_routes make xs routes)
unfolding add_routes
Distinct-add_routes make [] routes d = d
Distinct-add_routes {A} make (x ∷ xs) routes d =
    Distinct-add_routes make xs (add_route (make x) routes) (one (make x))
  where
    one : (o : Option Route) → Distinct route_key (add_route o routes)
    one none = d
    one (some route) = elim (Bool-cases (any (λ r. route_key r == route_key route) routes)) [
      | inl q ↦ rw q d
      | inr q ↦ rw q (Distinct-append_new route_key route routes d q)
    ]

any-append_left :
    {A : Type 0} (p : A → Bool) (xs ys : List A) → any p xs ≡ true → any p (xs ++ ys) ≡ true
any-append_left p [] ys h = cc
any-append_left p (x ∷ xs) ys h = elim (Bool-cases (p x)) [
  | inl e ↦ rw e refl
  | inr e ↦ rw e (any-append_left p xs ys (rw e at h))
]

any-append_last :
    {A : Type 0} (p : A → Bool) (xs : List A) (v : A) → p v ≡ true → any p (xs ++ v ∷ []) ≡ true
any-append_last p [] v h = rw h refl
any-append_last p (x ∷ xs) v h = elim (Bool-cases (p x)) [
  | inl e ↦ rw e refl
  | inr e ↦ rw e (any-append_last p xs v h)
]

-- Adding a route loses no key.
add_route-keeps :
    (o : Option Route) (routes : List Route) (key : String)
    → HasKey routes key
    → HasKey (add_route o routes) key
add_route-keeps none routes key h = h
add_route-keeps (some route) routes key h =
    elim (Bool-cases (any (λ r. route_key r == route_key route) routes)) [
      | inl q ↦ rw q h
      | inr q ↦ rw q (any-append_left (λ r. route_key r == key) routes (route ∷ []) h)
    ]

pub add_routes-keeps :
    {A : Type 0} (make : A → Option Route) (xs : List A) (routes : List Route) (key : String)
    → HasKey routes key
    → HasKey (add_routes make xs routes) key
unfolding add_routes
add_routes-keeps make [] routes key h = h
add_routes-keeps make (x ∷ xs) routes key h =
    add_routes-keeps make xs (add_route (make x) routes) key (add_route-keeps (make x) routes key h)

add_route-adds :
    (route : Route) (routes : List Route) → HasKey (add_route (some route) routes) (route_key route)
add_route-adds route routes = elim (Bool-cases (any (λ r. route_key r == route_key route) routes)) [
  | inl q ↦ rw q q
  | inr q ↦ rw q (
      any-append_last (λ r. route_key r == route_key route) routes route
        (str-eq_self (route_key route)))
]

-- A route that there is has its key in the table.
abbrev pub HasRoute : List Route → Option Route → Type 0
HasRoute table none = Unit
HasRoute table (some route) = HasKey table (route_key route)

HasRoute-weaken :
    (table larger : List Route) (o : Option Route)
    → ((key : String) → HasKey table key → HasKey larger key)
    → HasRoute table o
    → HasRoute larger o
HasRoute-weaken table larger none k h = h
HasRoute-weaken table larger (some route) k h = k (route_key route) h

add_route-HasRoute : (o : Option Route) (routes : List Route) → HasRoute (add_route o routes) o
add_route-HasRoute none routes = tt
add_route-HasRoute (some route) routes = add_route-adds route routes

-- Every element that a loop goes through has its route in the table that it leaves.
pub add_routes-HasRoute :
    {A : Type 0} (make : A → Option Route) (xs : List A) (routes : List Route)
    → All (λ x. HasRoute (add_routes make xs routes) (make x)) xs
unfolding add_routes
add_routes-HasRoute make [] routes = tt
add_routes-HasRoute make (x ∷ xs) routes =
    let next = add_route (make x) routes in
    (
      HasRoute-weaken next (add_routes make xs next) (make x) (add_routes-keeps make xs next)
          (add_route-HasRoute (make x) routes),
      add_routes-HasRoute make xs next,
    )

pub All-HasRoute-weaken :
    {A : Type 0} (make : A → Option Route) (table larger : List Route) (xs : List A)
    → ((key : String) → HasKey table key → HasKey larger key)
    → All (λ x. HasRoute table (make x)) xs
    → All (λ x. HasRoute larger (make x)) xs
All-HasRoute-weaken make table larger xs k h =
    All-weaken (λ x. HasRoute larger (make x)) (λ x. HasRoute-weaken table larger (make x) k) xs h
