-- ===== src/SystemsApi/Registry/Invariant/Withdrawing.antt =====
-- The revocations and the domain operations keep the registry's invariant.
use nexus_cloud.Base.{
  if◌then◌else◌, length, any, update_first, Distinct-update_first, Stamp, Env, now, pure,
  Preserves-pure, Preserves-gets, Preserves-bind, preserves_rules, ℕ, suc, String, refl, Bool, true,
  false, Option, none, some, List, [], ◌∷◌, ◌==◌, Preserves,
}
use nexus_cloud.SystemsApi.Types.{
  Tool, ExposureRecord, Address, AddressKind, DomainBinding, PublicUrl, PublicUrlStatus,
}
use nexus_cloud.SystemsApi.Registry.{update_tool_record, Settings, Registry, get_public_url}
use nexus_cloud.SystemsApi.Registry.Invariant.{
  IsSound, push_history-IsSound, update_tool_record-IsSound, upsert_exposure_record-IsSound,
  upsert_public_url_record-IsSound, upsert_domain_record-IsSound, upsert_address_record-IsSound,
}
use nexus_cloud.SystemsApi.Registry.Invariant.Steps.{
  RegistryIsSound, Preserves-change_registry, Preserves-persist, Preserves-on_platform,
}
use nexus_cloud.SystemsApi.Registry.Invariant.Publishing.{if-IsSound, Preserves-consult_guardian}
use nexus_cloud.SystemsApi.Registry.Revocation.{
  revoke_one_address, revoke_addresses, revoke_found_url, revoke_public_url_record, revoke_matching,
  withdraw, revoke_address_list, revoke_systems_api_address, has_active_address, revoke_domains,
  revoke_everything, revoke_exposure_of, revoke_systems_api_exposure,
}
use nexus_cloud.SystemsApi.Registry.Requests.{is_website}
use nexus_cloud.SystemsApi.Registry.Domains.{
  bind_domain, store_binding, bind_under, request_domain_binding, store_verified,
  verify_domain_binding, store_revoked, revoke_domain_binding, checked_binding, url_is_active,
}

module _ (settings : Settings) where
  revoke_addresses-IsSound :
      (env : Env) (i : ℕ) (tool_id : String) (addresses : List Address) (r : Registry)
      → IsSound settings r
      → IsSound settings (revoke_addresses settings env i tool_id addresses r)
  unfolding revoke_addresses revoke_one_address
  revoke_addresses-IsSound env i tool_id [] r h = h
  revoke_addresses-IsSound env i tool_id (a ∷ rest) r h =
      revoke_addresses-IsSound env (suc i) tool_id rest
        (revoke_one_address settings (now env i) tool_id a r)
        (search (push_history-IsSound, upsert_address_record-IsSound))

  revoke_domains-IsSound :
      (env : Env) (i : ℕ) (tool_id : String) (domains : List DomainBinding) (r : Registry)
      → IsSound settings r
      → IsSound settings (revoke_domains settings env i tool_id domains r)
  unfolding revoke_domains
  revoke_domains-IsSound env i tool_id [] r h = h
  revoke_domains-IsSound env i tool_id (b ∷ rest) r h =
      revoke_domains-IsSound env (suc i) tool_id rest _
        (search (push_history-IsSound, upsert_domain_record-IsSound))

  revoke_found_url-IsSound :
      (t : Stamp) (tool_id : String) (url : Option PublicUrl) (r : Registry)
      → IsSound settings r
      → IsSound settings (revoke_found_url settings t tool_id url r)
  revoke_found_url-IsSound t tool_id none r h = h
  revoke_found_url-IsSound t tool_id (some url) r h =
      search (push_history-IsSound, upsert_public_url_record-IsSound)

  withdrawn-IsSound :
      (tool_id : String) (url : Tool → Option String) (t : Stamp) (r : Registry)
      → IsSound settings r
      → IsSound settings (update_tool_record tool_id (λ tool. withdraw (url tool) t tool) r)
  withdrawn-IsSound tool_id url t r h =
      update_tool_record-IsSound settings tool_id (λ tool. withdraw (url tool) t tool) r (λ _. refl)
        h

  revoke_matching-IsSound :
      (env : Env) (tool_id : String) (matches : List Address) (r : Registry)
      → IsSound settings r
      → IsSound settings (revoke_matching settings env tool_id matches r)
  unfolding revoke_matching revoke_public_url_record
  revoke_matching-IsSound env tool_id matches r h =
      let gone = revoke_addresses settings env 0 tool_id matches r in
      let n = length matches in
      let gone_sound = revoke_addresses-IsSound env 0 tool_id matches r h in
      let website = any (λ a. is_website a.kind) matches in
      let url = get_public_url tool_id gone in
      let unlisted =
        if website then revoke_found_url settings (now env n) tool_id url gone else gone in
      let unlisted_sound =
        if-IsSound settings website (revoke_found_url settings (now env n) tool_id url gone) gone
          (revoke_found_url-IsSound (now env n) tool_id url gone gone_sound) gone_sound in
      if-IsSound settings (has_active_address tool_id unlisted) unlisted
        (update_tool_record tool_id (withdraw none (now env (suc n))) unlisted) unlisted_sound
        (withdrawn-IsSound tool_id (λ _. none) (now env (suc n)) unlisted unlisted_sound)

  urls_revoked-IsSound :
      (tool_id : String) (r : Registry)
      → IsSound settings r
      → IsSound settings (record r {
        public_urls =
            update_first
              (λ item. item.tool_id == tool_id)
              (λ url. record url { status = PublicUrlStatus.revoked })
              r.public_urls;
      })
  urls_revoked-IsSound tool_id r h = record {
    history_bounded = h.history_bounded;
    tools_distinct = h.tools_distinct;
    urls_distinct =
        Distinct-update_first (λ (u : PublicUrl). u.tool_id) (λ item. item.tool_id == tool_id)
          (λ url. record url { status = PublicUrlStatus.revoked }) r.public_urls (λ _. refl)
          h.urls_distinct;
    exposures_distinct = h.exposures_distinct;
    domains_distinct = h.domains_distinct;
    addresses_apart = h.addresses_apart;
  }

  revoke_everything-IsSound :
      (env : Env) (tool_id : String) (e : ExposureRecord) (r : Registry)
      → IsSound settings r
      → IsSound settings (revoke_everything settings env tool_id e r)
  unfolding revoke_everything
  revoke_everything-IsSound env tool_id e r h = push_history-IsSound settings _ _ _ _ _ (
      withdrawn-IsSound tool_id (λ tool. tool.public_url) _ _
        (revoke_domains-IsSound env _ tool_id _ _ (
          revoke_addresses-IsSound env 1 tool_id _ _
            (urls_revoked-IsSound tool_id _ (upsert_exposure_record-IsSound settings _ r h)))))

  pub Preserves-revoke_address :
      (env : Env) (tool_id : String) (kind : Option AddressKind)
      → Preserves (RegistryIsSound settings) (revoke_systems_api_address settings env tool_id kind)
  unfolding revoke_systems_api_address revoke_address_list
  Preserves-revoke_address env tool_id kind =
      Preserves-bind _ (revoke_address_list settings env tool_id) (Preserves-gets _) found
    where
      found :
          (matches : List Address)
          → Preserves (RegistryIsSound settings) (revoke_address_list settings env tool_id matches)
      found [] = Preserves-pure []
      found (a ∷ rest) =
          search
            (preserves_rules, Preserves-change_registry, Preserves-persist, revoke_matching-IsSound)

  pub Preserves-revoke_exposure :
      (env : Env) (tool_id : String)
      → Preserves (RegistryIsSound settings) (revoke_systems_api_exposure settings env tool_id)
  unfolding revoke_systems_api_exposure revoke_exposure_of
  Preserves-revoke_exposure env tool_id =
      Preserves-bind _ (revoke_exposure_of settings env tool_id) (Preserves-gets _) found
    where
      found :
          (e : Option ExposureRecord)
          → Preserves (RegistryIsSound settings) (revoke_exposure_of settings env tool_id e)
      found none = Preserves-pure none
      found (some e) =
          search (
            preserves_rules, Preserves-change_registry, Preserves-persist,
            revoke_everything-IsSound,
          )

  pub Preserves-bind_domain :
      (env : Env) (tool_id domain : String) (url : PublicUrl)
      → Preserves (RegistryIsSound settings) (bind_domain settings env tool_id domain url)
  unfolding bind_domain store_binding
  Preserves-bind_domain env tool_id domain url =
      search
        (
          preserves_rules, Preserves-consult_guardian, Preserves-change_registry, Preserves-persist,
          Preserves-on_platform, upsert_domain_record-IsSound, push_history-IsSound,
        )
        depth 16

  pub Preserves-request_domain :
      (env : Env) (tool_id domain : String)
      → Preserves (RegistryIsSound settings) (request_domain_binding settings env tool_id domain)
  unfolding request_domain_binding
  Preserves-request_domain env tool_id domain =
      Preserves-bind _ (bind_under settings env tool_id domain) (Preserves-gets _) found
    where
      under :
          (b : Bool) (url : PublicUrl)
          → Preserves
              (RegistryIsSound settings)
              (if b then bind_domain settings env tool_id domain url else pure none)
      under true url = Preserves-bind_domain env tool_id domain url
      under false url = Preserves-pure none

      found :
          (u : Option PublicUrl)
          → Preserves (RegistryIsSound settings) (bind_under settings env tool_id domain u)
      found none = Preserves-pure none
      found (some url) = under (url_is_active url.status) url

  pub Preserves-verify_domain :
      (env : Env) (domain token : String)
      → Preserves (RegistryIsSound settings) (verify_domain_binding settings env domain token)
  unfolding verify_domain_binding store_verified
  Preserves-verify_domain env domain token =
      Preserves-bind _
        (λ b. store_verified settings env domain (checked_binding (now env 0) token b))
        (Preserves-gets _) (λ b. found (checked_binding (now env 0) token b))
    where
      found :
          (b : Option DomainBinding)
          → Preserves (RegistryIsSound settings) (store_verified settings env domain b)
      found none = Preserves-pure none
      found (some b) =
          search
            (
              preserves_rules, Preserves-change_registry, Preserves-persist,
              upsert_domain_record-IsSound, push_history-IsSound,
            )
            depth 12

  pub Preserves-revoke_domain :
      (env : Env) (domain : String)
      → Preserves (RegistryIsSound settings) (revoke_domain_binding settings env domain)
  unfolding revoke_domain_binding store_revoked
  Preserves-revoke_domain env domain =
      Preserves-bind _ (store_revoked settings env domain) (Preserves-gets _) found
    where
      found :
          (b : Option DomainBinding)
          → Preserves (RegistryIsSound settings) (store_revoked settings env domain b)
      found none = Preserves-pure none
      found (some b) =
          search
            (
              preserves_rules, Preserves-change_registry, Preserves-persist,
              upsert_domain_record-IsSound, push_history-IsSound,
            )
            depth 12
