-- ===== src/SystemsApi/Registry/Revocation.antt =====
-- Taking addresses and exposures back: revokeSystemsApiAddress and revokeSystemsApiExposure of
-- src/systems-api/registry.ts.
pub mod Sweep
pub mod Silence
pub mod Inactive
use mathlib.Core.Option
use nexus_cloud.Base.{
  if◌then◌else◌, or_else, template, length, filter, any, update_first, Stamp, Env, now, Action,
  pure, gets, ◌>>=◌, ◌>>◌, ℕ, suc, ◌+◌, String, Bool, true, false, ◌&&◌, Option, none, some, List,
  [], ◌∷◌, ◌==◌,
}
use nexus_cloud.SystemsApi.Types.{
  Tool, ToolExposure, HistoryAction, ExposureRecord, PublicUrl, PublicUrlStatus, AddressKind,
  Address, DomainBinding,
}
use nexus_cloud.SystemsApi.Records.{
  address_is_active, revoke_address_record, revoke_exposure_record, revoke_domain_record,
}
use nexus_cloud.SystemsApi.Registry.{
  Settings, Registry, World, same_kind, get_tool, get_public_url, get_exposure, change_registry,
  persist, push_history, update_tool_record, upsert_exposure_record, upsert_public_url_record,
  upsert_address_record, upsert_domain_record,
}
use nexus_cloud.SystemsApi.Registry.Requests.{kind_text, is_website}

-- `kind === undefined || item.kind === kind`
abbrev pub kind_matches : Option AddressKind → AddressKind → Bool
kind_matches none kind = true
kind_matches (some k) kind = same_kind kind k

unfoldable pub has_active_address : String → Registry → Bool
has_active_address tool_id r =
    any (λ item. item.tool_id == tool_id && address_is_active item.status) r.addresses

-- One round of the loops over addresses, at the reading `i` of the clock.
unfoldable pub revoke_one_address : Settings → Stamp → String → Address → Registry → Registry
unfolding revoke_address_record
revoke_one_address settings t tool_id address r =
    push_history settings tool_id HistoryAction.address_revoked
      (template ("Revoked " ∷ kind_text address.kind ∷ " address " ∷ address.public_address ∷ [])) t
      (upsert_address_record (revoke_address_record t address) r)

unfoldable pub revoke_addresses : Settings → Env → ℕ → String → List Address → Registry → Registry
revoke_addresses settings env i tool_id [] r = r
revoke_addresses settings env i tool_id (a ∷ rest) r =
    revoke_addresses settings env (suc i) tool_id rest
      (revoke_one_address settings (now env i) tool_id a r)

-- The records that the loop returns.
unfoldable pub revoked_addresses : Env → ℕ → List Address → List Address
revoked_addresses env i [] = []
revoked_addresses env i (a ∷ rest) =
    revoke_address_record (now env i) a ∷ revoked_addresses env (suc i) rest

abbrev pub revoke_found_url : Settings → Stamp → String → Option PublicUrl → Registry → Registry
revoke_found_url settings t tool_id none r = r
revoke_found_url settings t tool_id (some url) r =
    push_history settings tool_id HistoryAction.public_url_revoked
      (template ("Revoked public URL for " ∷ tool_id ∷ [])) t
      (upsert_public_url_record (record url { status = PublicUrlStatus.revoked }) r)

unfoldable pub revoke_public_url_record : Settings → Stamp → String → Registry → Registry
revoke_public_url_record settings t tool_id r =
    revoke_found_url settings t tool_id (get_public_url tool_id r) r

-- The tool goes private; the first argument says what becomes of its URL.
abbrev pub withdraw : Option String → Stamp → Tool → Tool
withdraw url t current = record current {
  exposed = false;
  exposure = ToolExposure.private;
  public_url = url;
  updated_at = t;
}

-- The whole change of the registry, for the addresses that match.
unfoldable pub revoke_matching : Settings → Env → String → List Address → Registry → Registry
revoke_matching settings env tool_id matches r =
    let n = length matches in
    let gone = revoke_addresses settings env 0 tool_id matches r in
    let unlisted =
      if any (λ a. is_website a.kind) matches
      then revoke_public_url_record settings (now env n) tool_id gone
      else gone in
    if has_active_address tool_id unlisted
    then unlisted
    else update_tool_record tool_id (withdraw none (now env (suc n))) unlisted

unfoldable pub revoke_address_list :
    Settings → Env → String → List Address → Action World (List Address)
revoke_address_list settings env tool_id [] = pure []
revoke_address_list settings env tool_id (a ∷ rest) = do
  change_registry (revoke_matching settings env tool_id (a ∷ rest))
  persist (env.write 0)
  pure (revoked_addresses env 0 (a ∷ rest))

unfoldable pub revoke_systems_api_address :
    Settings → Env → String → Option AddressKind → Action World (List Address)
revoke_systems_api_address settings env tool_id kind = do
  matches ← gets (λ w.
      filter (λ item. item.tool_id == tool_id && kind_matches kind item.kind)
        w.registry.live.addresses)
  revoke_address_list settings env tool_id matches

unfoldable pub revoke_domains :
    Settings → Env → ℕ → String → List DomainBinding → Registry → Registry
unfolding revoke_domain_record
revoke_domains settings env i tool_id [] r = r
revoke_domains settings env i tool_id (b ∷ bs) r = revoke_domains settings env (suc i) tool_id bs (
    push_history settings tool_id HistoryAction.domain_revoked
      (template ("Revoked " ∷ b.domain ∷ [])) (now env i)
      (upsert_domain_record (revoke_domain_record (now env i) b) r))

-- The whole change of the registry, for the exposure that was found. The tool keeps its URL.
unfoldable pub revoke_everything : Settings → Env → String → ExposureRecord → Registry → Registry
unfolding revoke_exposure_record
revoke_everything settings env tool_id e r =
    let name = or_else (Option.map (λ t. t.name) (get_tool tool_id r)) tool_id in
    let addresses = filter (λ item. item.tool_id == tool_id) r.addresses in
    let domains = filter (λ item. item.tool_id == tool_id) r.domains in
    let n = length addresses in
    let m = length domains in
    let closed = upsert_exposure_record (revoke_exposure_record (now env 0) e) r in
    let unlisted = record closed {
      public_urls =
          update_first (λ item. item.tool_id == tool_id)
            (λ url. record url { status = PublicUrlStatus.revoked }) closed.public_urls;
    } in
    let unaddressed = revoke_addresses settings env 1 tool_id addresses unlisted in
    let unbound = revoke_domains settings env (suc n) tool_id domains unaddressed in
    push_history settings tool_id HistoryAction.exposure_revoked
      (template ("Revoked exposure for " ∷ name ∷ [])) (now env 0)
      (update_tool_record tool_id (λ tool. withdraw tool.public_url (now env (suc (n + m))) tool)
        unbound)

unfoldable pub revoke_exposure_of :
    Settings → Env → String → Option ExposureRecord → Action World (Option ExposureRecord)
revoke_exposure_of settings env tool_id none = pure none
revoke_exposure_of settings env tool_id (some e) = do
  change_registry (revoke_everything settings env tool_id e)
  persist (env.write 0)
  pure (some (revoke_exposure_record (now env 0) e))

unfoldable pub revoke_systems_api_exposure :
    Settings → Env → String → Action World (Option ExposureRecord)
revoke_systems_api_exposure settings env tool_id = do
  found ← gets (λ w. get_exposure tool_id w.registry.live)
  revoke_exposure_of settings env tool_id found
