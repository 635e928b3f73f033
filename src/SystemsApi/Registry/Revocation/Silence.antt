-- ===== src/SystemsApi/Registry/Revocation/Silence.antt =====
-- After an exposure is revoked nothing of its tool is routed.
use mathlib.Core.Path.{subst}
use nexus_cloud.Base.{
  filter, find, upsert, All, Any, find-passes, All-weaken, All-every, Distinct, Apart, Stamp,
  WriteOutcome, Env, now, pure-eq-ok, gets-bind, bind-eq-ok, saved, lost, replaced, ok, ℕ, suc,
  String, ◌≡◌, refl, sym, ap, ◌∙◌, ◌≢◌, inl, inr, Bool, true, false, Option, none, some, List, [],
  ◌∷◌, arith, ◌==◌, eq_iff,
}
use nexus_cloud.State.{save_state}
use nexus_cloud.State.Types.{PlatformState}
use nexus_cloud.SystemsApi.Types.{Address, ExposureRecord, DomainBinding, Route}
use nexus_cloud.SystemsApi.Records.{
  address_is_active, exposure_is_active, domain_is_verified, revoke_address_record,
  revoke_exposure_record, revoke_domain_record,
}
use nexus_cloud.SystemsApi.Registry.{
  Settings, Registry, World, same_address, get_exposure, persist, push_history, update_tool_record,
  upsert_exposure_record, upsert_address_record, upsert_domain_record,
}
use nexus_cloud.SystemsApi.Registry.Invariant.{IsSound, same_address-Sameness}
use nexus_cloud.SystemsApi.Registry.Revocation.{
  revoke_one_address, revoke_addresses, revoke_domains, revoke_everything, revoke_exposure_of,
  revoke_systems_api_exposure,
}
use nexus_cloud.SystemsApi.Registry.Revocation.Sweep.{
  Distinct→Apart, key-Sameness, sweep, sweep-dead, sweep-owned-dead,
}
use nexus_cloud.SystemsApi.Registry.Routes.{list_active_routes}
use nexus_cloud.SystemsApi.Registry.Routes.Served.{
  IsServed, FromAddress, FromExposure, FromDomain, list_active_routes-IsServed,
}

-- The three arrays after the loop over addresses.
pub revoke_addresses-sweep :
    (settings : Settings) (env : Env) (i : ℕ) (tool_id : String) (ms : List Address) (r : Registry)
    → ((revoke_addresses settings env i tool_id ms r).addresses
        ≡ sweep same_address
            (λ a. address_is_active a.status)
            (λ a. a.tool_id == tool_id)
            (λ k. revoke_address_record (now env k))
            i
            ms
            r.addresses)
      × ((revoke_addresses settings env i tool_id ms r).exposures ≡ r.exposures)
      × ((revoke_addresses settings env i tool_id ms r).domains ≡ r.domains)
unfolding revoke_addresses revoke_one_address push_history upsert_address_record
    revoke_address_record
revoke_addresses-sweep settings env i tool_id [] r = (refl, refl, refl)
revoke_addresses-sweep settings env i tool_id (m ∷ ms) r =
    revoke_addresses-sweep settings env (suc i) tool_id ms
      (revoke_one_address settings (now env i) tool_id m r)

revoke_domains-sweep :
    (settings : Settings) (env : Env) (i : ℕ) (tool_id : String) (ms : List DomainBinding)
    (r : Registry)
    → ((revoke_domains settings env i tool_id ms r).domains
        ≡ sweep
            (λ (x y : DomainBinding). y.domain == x.domain)
            (λ b. domain_is_verified b.status)
            (λ b. b.tool_id == tool_id)
            (λ k. revoke_domain_record (now env k))
            i
            ms
            r.domains)
      × ((revoke_domains settings env i tool_id ms r).exposures ≡ r.exposures)
      × ((revoke_domains settings env i tool_id ms r).addresses ≡ r.addresses)
unfolding revoke_domains push_history upsert_domain_record revoke_domain_record
revoke_domains-sweep settings env i tool_id [] r = (refl, refl, refl)
revoke_domains-sweep settings env i tool_id (m ∷ ms) r =
    revoke_domains-sweep settings env (suc i) tool_id ms _

-- Nothing of the tool is active or verified.
pub record IsSilent (tool_id : String) (r : Registry) : Type 0 where
  pub addresses_silent :
      All (λ a. (a.tool_id == tool_id) ≡ true → address_is_active a.status ≡ false) r.addresses
  pub exposures_silent :
      All (λ e. (e.tool_id == tool_id) ≡ true → exposure_is_active e.status ≡ false) r.exposures
  pub domains_silent :
      All (λ b. (b.tool_id == tool_id) ≡ true → domain_is_verified b.status ≡ false) r.domains

-- Both loops silence their array, and the exposures are left as they are.
swept-IsSilent :
    (settings : Settings) (env : Env) (tool_id : String) (i j : ℕ) (r : Registry)
    → Apart same_address r.addresses
    → Distinct (λ b. b.domain) r.domains
    → All (λ e. (e.tool_id == tool_id) ≡ true → exposure_is_active e.status ≡ false) r.exposures
    → IsSilent tool_id (
        revoke_domains settings env j tool_id (filter (λ item. item.tool_id == tool_id) r.domains) (
          revoke_addresses settings env i tool_id
            (filter (λ item. item.tool_id == tool_id) r.addresses)
            r))
unfolding revoke_address_record revoke_domain_record
swept-IsSilent settings env tool_id i j r a d e =
    let addresses = filter (λ item. item.tool_id == tool_id) r.addresses in
    let domains = filter (λ item. item.tool_id == tool_id) r.domains in
    let mid = revoke_addresses settings env i tool_id addresses r in
    let (a1, e1, d1) = revoke_addresses-sweep settings env i tool_id addresses r in
    let (d2, e2, a2) = revoke_domains-sweep settings env j tool_id domains mid in
    record {
      addresses_silent =
          subst (All (λ x. (x.tool_id == tool_id) ≡ true → address_is_active x.status ≡ false))
            (sym (a2 ∙ a1))
            (sweep-owned-dead same_address (λ x. address_is_active x.status)
              (λ x. x.tool_id == tool_id) (λ k. revoke_address_record (now env k))
              same_address-Sameness (λ _ _ _. refl) (λ _ _. refl) i r.addresses a);
      exposures_silent =
          subst (All (λ x. (x.tool_id == tool_id) ≡ true → exposure_is_active x.status ≡ false))
            (sym (e2 ∙ e1)) e;
      domains_silent =
          subst (All (λ x. (x.tool_id == tool_id) ≡ true → domain_is_verified x.status ≡ false))
            (sym (
              d2
              ∙ ap
                  (sweep (λ (x y : DomainBinding). y.domain == x.domain)
                    (λ b. domain_is_verified b.status) (λ b. b.tool_id == tool_id)
                    (λ k. revoke_domain_record (now env k)) j domains)
                  d1))
            (sweep-owned-dead (λ (x y : DomainBinding). y.domain == x.domain)
              (λ b. domain_is_verified b.status) (λ b. b.tool_id == tool_id)
              (λ k. revoke_domain_record (now env k)) (key-Sameness (λ b. b.domain)) (λ _ _ _. refl)
              (λ _ _. refl) j r.domains (Distinct→Apart (λ b. b.domain) r.domains d));
    }

-- The upsert of the revoked exposure silences the tool's exposures.
exposure-silent :
    (tool_id : String) (t : Stamp) (e : ExposureRecord) (xs : List ExposureRecord)
    → Distinct (λ x. x.tool_id) xs
    → (e.tool_id == tool_id) ≡ true
    → All
        (λ x. (x.tool_id == tool_id) ≡ true → exposure_is_active x.status ≡ false)
        (upsert (λ item. item.tool_id == e.tool_id) (revoke_exposure_record t e) xs)
unfolding revoke_exposure_record
exposure-silent tool_id t e xs d o =
    sweep-dead (λ (x y : ExposureRecord). y.tool_id == x.tool_id) (λ x. exposure_is_active x.status)
      (λ x. x.tool_id == tool_id) (λ _. revoke_exposure_record t) (key-Sameness (λ x. x.tool_id))
      (λ _ _ _. refl) (λ _ _. refl) 0 (e ∷ []) xs (Distinct→Apart (λ x. x.tool_id) xs d)
      (All-every _ xs (λ x p _. let q = (eq_iff e.tool_id tool_id).0 o in inl (rw q p)))

revoke_everything-IsSilent :
    (settings : Settings) (env : Env) (tool_id : String) (e : ExposureRecord) (r : Registry)
    → IsSound settings r
    → (e.tool_id == tool_id) ≡ true
    → IsSilent tool_id (revoke_everything settings env tool_id e r)
unfolding revoke_everything push_history update_tool_record upsert_exposure_record
revoke_everything-IsSilent settings env tool_id e r h o =
    let k =
      swept-IsSilent settings env tool_id 1 _ _ h.addresses_apart h.domains_distinct
        (exposure-silent tool_id (now env 0) e r.exposures h.exposures_distinct o) in
    record {
      addresses_silent = k.addresses_silent;
      exposures_silent = k.exposures_silent;
      domains_silent = k.domains_silent;
    }

-- No element of an array is what the whole array is not.
clash :
    {A : Type 0} (own live : A → Bool) (F : A → Type 0) (xs : List A)
    → ((x : A) → F x → (own x ≡ true) × (live x ≡ true))
    → All (λ x. own x ≡ true → live x ≡ false) xs
    → Any F xs
    → ⊥
clash own live F [] k h a = a
clash own live F (x ∷ xs) k h (inl f) = let (o, l) = k x f in let n = h.0 o in absurd (cc (l, n))
clash own live F (x ∷ xs) k h (inr a) = clash own live F xs k h.1 a

-- A route of a silent tool is not served.
not_served :
    (tool_id : String) (r : Registry) (s : PlatformState) (route : Route)
    → IsSilent tool_id r
    → IsServed r s route
    → route.tool_id ≢ tool_id
not_served tool_id r s route h (from, leads) same = elim from [
  | inl a ↦
      clash (λ x. x.tool_id == tool_id) (λ x. address_is_active x.status) (FromAddress s route)
        r.addresses (λ x f. ((eq_iff x.tool_id tool_id).1 (f.1 ∙ same), f.0)) h.addresses_silent a
  | inr rest ↦ elim rest [
    | inl e ↦
        clash (λ x. x.tool_id == tool_id) (λ x. exposure_is_active x.status) (FromExposure s route)
          r.exposures (λ x f. ((eq_iff x.tool_id tool_id).1 (f.1 ∙ same), f.0)) h.exposures_silent e
    | inr b ↦
        clash (λ x. x.tool_id == tool_id) (λ x. domain_is_verified x.status) (FromDomain s route)
          r.domains (λ x f. ((eq_iff x.tool_id tool_id).1 (f.1 ∙ same), f.0)) h.domains_silent b
  ]
]

-- Writing the registry out leaves it as it is.
pub persist-live : (o : WriteOutcome) (w : World) → (persist o w).1.registry.live ≡ w.registry.live
unfolding persist save_state
persist-live saved w = refl
persist-live lost w = refl
persist-live replaced w = refl

-- Where the registry is sound and a tool's exposure is revoked, no route of the table leads to the
-- tool any more, whatever the platform state is: its addresses, exposures and domain bindings are
-- all withdrawn.
pub revoked_exposure_serves_nothing :
    (settings : Settings) (env : Env) (tool_id : String) (w t : World) (e : ExposureRecord)
    (s : PlatformState)
    → IsSound settings w.registry.live
    → revoke_systems_api_exposure settings env tool_id w ≡ (ok (some e), t)
    → All (λ route. route.tool_id ≢ tool_id) (list_active_routes t.registry.live s)
unfolding revoke_systems_api_exposure revoke_exposure_of get_exposure
revoked_exposure_serves_nothing settings env tool_id w t e s h k =
    of (find (λ item. item.tool_id == tool_id) w.registry.live.exposures) refl
      (sym (gets-bind _ _ w) ∙ k)
  where
    of :
        (o : Option ExposureRecord)
        → find (λ item. item.tool_id == tool_id) w.registry.live.exposures ≡ o
        → revoke_exposure_of settings env tool_id o w ≡ (ok (some e), t)
        → All (λ route. route.tool_id ≢ tool_id) (list_active_routes t.registry.live s)
    of none g q = let n = pure-eq-ok none (some e) w t q in absurd (ground arith)
    of (some x) g q =
        let (_, w1, p1, q1) = bind-eq-ok _ _ w q in
        let (_, w2, p2, q2) = bind-eq-ok _ _ w1 q1 in
        let silent =
          revoke_everything-IsSilent settings env tool_id x w.registry.live h
            (find-passes (λ item. item.tool_id == tool_id) w.registry.live.exposures x g) in
        let live =
          sym (ap (λ r. r.1.registry.live) q2)
          ∙ (sym (ap (λ r. r.1.registry.live) p2)
              ∙ (persist-live (env.write 0) w1 ∙ sym (ap (λ r. r.1.registry.live) p1))) in
        All-weaken (λ route. route.tool_id ≢ tool_id)
          (λ route f. not_served tool_id t.registry.live s route (rw live silent) f)
          (list_active_routes t.registry.live s) (list_active_routes-IsServed t.registry.live s)
